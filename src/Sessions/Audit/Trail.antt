-- ===== src/Sessions/Audit/Trail.antt =====
-- The audit trail over lists of activities.
use fabroku_back_end.Base.{
  ℕ, zero, suc, ◌-◌, find, if◌then◌else◌, String, Bool, true, false, Option, none, some, List, [],
  ◌∷◌, ◌≡◌, refl, ap, ◌∙◌, sym, arith, Codes, update_where, inl, inr, Bool-cases,
}
use fabroku_back_end.Runtime.Effects.{Result, ok, err}
use fabroku_back_end.Sessions.Model.{
  has_id, Session, Settings, EventType, Desk, Direction, session_of, is_terminal,
  is_postgres_connect, takes_input,
}
use fabroku_back_end.Sessions.Rows.{
  expire, mark, touch, submit, request_cancel, consume_answer, set_prompt, begin,
}
use fabroku_back_end.Sessions.Runners.{release, release_stale, is_free, claim_first, claim_pending}
use fabroku_back_end.Sessions.Loop.{final_event}
use fabroku_back_end.Sessions.Operations.{
  begin_session, cleanup_expired, create_event, on_row, after_ok, queue_on, cancel_on,
  queue_terminal_input, consume_terminal_input, record_terminal_output, submit_answer,
  cancel_session, take_answer, show_prompt, mark_terminal,
}
use fabroku_back_end.Sessions.Requests.{Request, Activity, perform, act, act_all}
use fabroku_back_end.Sessions.Audit.{
  IsNumbered, upto, counter, counter-update_where, sequences-consume_chunks,
  create_audit_chunk-IsNumbered,
}

-- A change of a row that keeps its id and its counter
abbrev Keeps : (Session → Session) → Type 0
Keeps f = (x : Session) → ((f x).id ≡ x.id) × ((f x).audit_sequence ≡ x.audit_sequence)

module _ (c : Settings) (id : String) where
  update-IsNumbered :
      (p : Session → Bool) (f : Session → Session) (d : Desk)
      → Keeps f
      → IsNumbered id d
      → IsNumbered id (record d { sessions = update_where p f d.sessions })
  update-IsNumbered p f d same h = h ∙ ap upto (sym (counter-update_where id p f d.sessions same))

  on_row-IsNumbered :
      {A : Type 0} (other : String) (f : Session → Result A × Session) (d : Desk)
      (o : Option Session)
      → Keeps (λ x. (f x).1)
      → IsNumbered id d
      → IsNumbered id (on_row other f d o).1
  on_row-IsNumbered other f d none same h = h
  on_row-IsNumbered other f d (some s) same h = update-IsNumbered _ (λ x. (f x).1) d same h

  create_event-IsNumbered :
      (other : String) (touched : Bool) (t : EventType) (m : Codes) (d : Desk)
      → IsNumbered id d
      → IsNumbered id (create_event c other touched t m d)
  unfolding create_event touch
  create_event-IsNumbered other true t m d h =
      update-IsNumbered _ (touch c d.clock) d (λ x. (refl, refl)) h
  create_event-IsNumbered other false t m d h = h

  after_ok-IsNumbered :
      (p : Result (Unit {0}) × Desk) (f : Desk → Desk)
      → ((d : Desk) → IsNumbered id d → IsNumbered id (f d))
      → IsNumbered id p.1
      → IsNumbered id (after_ok p f).1
  after_ok-IsNumbered (ok _, d) f steps h = steps d h
  after_ok-IsNumbered (err _, d) f steps h = h

  queue_on-IsNumbered :
      (other : String) (v : Codes) (d : Desk) (o : Option Session)
      → IsNumbered id d
      → IsNumbered id (queue_on c other v d o).1
  queue_on-IsNumbered other v d none h = h
  queue_on-IsNumbered other v d (some s) h =
      elim (Bool-cases (is_postgres_connect s.command_kind)) [
        | inr e ↦ rw e h
        | inl e ↦ elim (Bool-cases (takes_input s.status)) [
          | inr e' ↦ rw (e, e') h
          | inl e' ↦
              rw (e, e') (create_audit_chunk-IsNumbered c id other Direction.input_chunk v d h)
        ]
      ]

  request_cancel-Keeps : (now : ℕ) → Keeps (request_cancel c now)
  unfolding request_cancel touch
  request_cancel-Keeps now x = (ground arith, ground arith)

  cancel_on-IsNumbered :
      (other : String) (d : Desk) (o : Option Session)
      → IsNumbered id d
      → IsNumbered id (cancel_on c other d o).1
  cancel_on-IsNumbered other d none h = h
  cancel_on-IsNumbered other d (some s) h = elim (Bool-cases (is_terminal s.status)) [
    | inl t ↦ rw t h
    | inr t ↦ rw t (
        create_event-IsNumbered other true EventType.status_event [] _
          (update-IsNumbered _ (request_cancel c d.clock) d (request_cancel-Keeps d.clock) h))
  ]

  submit-Keeps : (now : ℕ) (p : String) (v : Codes) → Keeps (λ x. (submit c now p v x).1)
  unfolding submit touch
  submit-Keeps now p v x = (ground arith, ground arith)

  consume_answer-Keeps : (now : ℕ) → Keeps (λ x. (consume_answer c now x).1)
  unfolding consume_answer touch
  consume_answer-Keeps now x = (ground arith, ground arith)

  counter-claim_first :
      (runner : String) (now limit : ℕ) (xs : List Session)
      → counter (find (has_id id) (claim_first runner now limit xs).1)
        ≡ counter (find (has_id id) xs)
  unfolding claim_first
  counter-claim_first runner now limit [] = refl
  counter-claim_first runner now limit (s ∷ xs) =
      ground (arith, counter-claim_first runner now (if is_free now s then limit - 1 else limit) xs)

  claim_pending-IsNumbered :
      (runner : String) (limit : ℕ) (d : Desk)
      → IsNumbered id d
      → IsNumbered id (claim_pending c runner limit d).1
  unfolding claim_pending release_stale cleanup_expired
  claim_pending-IsNumbered runner zero d h = h
  claim_pending-IsNumbered runner (suc limit) d h =
      let cleaned = cleanup_expired d in
      let released = release_stale c cleaned in
      update-IsNumbered _ (release c) cleaned (λ x. (refl, refl))
        (update-IsNumbered _ (expire d.clock) d (λ x. (refl, refl)) h)
      ∙ ap upto (sym (counter-claim_first runner d.clock (suc limit) released.sessions))

  perform-IsNumbered : (r : Request) (d : Desk) → IsNumbered id d → IsNumbered id (perform c r d)
  unfolding perform cleanup_expired queue_terminal_input consume_terminal_input
      record_terminal_output submit_answer cancel_session take_answer show_prompt mark_terminal mark
      set_prompt touch
  perform-IsNumbered (Request.wait n) d h = h
  perform-IsNumbered Request.cleanup d h =
      update-IsNumbered _ (expire d.clock) d (λ x. (refl, refl)) h
  perform-IsNumbered (Request.queue_input other []) d h = h
  perform-IsNumbered (Request.queue_input other (k ∷ v)) d h =
      queue_on-IsNumbered other (k ∷ v) d (session_of other d) h
  perform-IsNumbered (Request.record_output other []) d h = h
  perform-IsNumbered (Request.record_output other (k ∷ v)) d h =
      create_audit_chunk-IsNumbered c id other Direction.output_chunk (k ∷ v) d h
  perform-IsNumbered (Request.consume_input other) d h =
      sequences-consume_chunks c id other d.clock 100 d.chunks ∙ h
  perform-IsNumbered (Request.take other) d h =
      on_row-IsNumbered other _ d (session_of other d) (consume_answer-Keeps d.clock) h
  perform-IsNumbered (Request.submit_to other p v) d h =
      on_row-IsNumbered other _ d (session_of other d) (submit-Keeps d.clock p v) h
  perform-IsNumbered (Request.cancel other) d h =
      cancel_on-IsNumbered other d (session_of other d) h
  perform-IsNumbered (Request.prompt other m) d h =
      after_ok-IsNumbered _ _
        (λ d' h'. create_event-IsNumbered other false EventType.prompt_event m.text d' h')
        (on_row-IsNumbered other _ d (session_of other d) (λ x. (refl, refl)) h)
  perform-IsNumbered (Request.finish other e text) d h =
      after_ok-IsNumbered _ _
        (λ d' h'. create_event-IsNumbered other false (final_event e) text d' h')
        (on_row-IsNumbered other _ d (session_of other d) (λ x. (refl, refl)) h)
  perform-IsNumbered (Request.event other touched t text) d h =
      create_event-IsNumbered other touched t text d h
  perform-IsNumbered (Request.claim runner limit) d h = claim_pending-IsNumbered runner limit d h

  begin-Keeps :
      (now : ℕ) (task_id : String) (runner_id : Option String) (claimed_at : Option ℕ)
      → Keeps (begin c now task_id runner_id claimed_at)
  unfolding begin touch
  begin-Keeps now task_id none claimed_at x = (refl, refl)
  begin-Keeps now task_id (some runner) claimed_at x = (refl, refl)

  act-IsNumbered : (a : Activity) (d : Desk) → IsNumbered id d → IsNumbered id (act c a d)
  unfolding act begin_session cleanup_expired create_event
  act-IsNumbered (Activity.request r) d h = perform-IsNumbered r d h
  act-IsNumbered (Activity.start other task_id runner_id claimed_at) d h =
      update-IsNumbered _ (begin c d.clock task_id runner_id claimed_at) (cleanup_expired d)
        (begin-Keeps d.clock task_id runner_id claimed_at)
        (update-IsNumbered _ (expire d.clock) d (λ x. (refl, refl)) h)

  -- If the chunks of a session are numbered 1, 2, 3, ... up to its counter, with no gap and no number
  -- twice, they still are after any activities in any order: clean-ups, claims, starts, input and
  -- output, answers, cancels, prompts, events and ends of this and of other sessions.
  pub act_all-IsNumbered :
      (activities : List Activity) (d : Desk)
      → IsNumbered id d
      → IsNumbered id (act_all c activities d)
  unfolding act_all
  act_all-IsNumbered [] d h = h
  act_all-IsNumbered (a ∷ activities) d h =
      act_all-IsNumbered activities (act c a d) (act-IsNumbered a d h)
