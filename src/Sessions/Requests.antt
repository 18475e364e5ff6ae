-- ===== src/Sessions/Requests.antt =====
-- The transactions on the rows and the chunks of sessions, so that an interleaving of CLI clients,
-- runners and clean-ups is a list of them: clean-ups, claims with the releases they make, input and
-- output of a terminal, answers, cancels, prompts, events and the end of a session are requests, and
-- time passes between them. The start of a session is an activity beside the requests. Not among
-- them: the making of a new session, and the texts that a loop writes to its channel.
use fabroku_back_end.Base.{
  ℕ, zero, suc, ◌-◌, ◌&&◌, ltb, if◌then◌else◌, ◌+◌, String, Bool, true, false, Option, none, some,
  List, [], ◌∷◌, Codes, inl, inr, Bool-cases,
}
use fabroku_back_end.Runtime.Effects.{Result, ok, err}
use fabroku_back_end.Sessions.Model.{
  Session, Settings, EventType, Desk, session_of, is_terminal, Direction, is_postgres_connect,
  takes_input,
}
use fabroku_back_end.Sessions.Rows.{PromptMatch, count_chunk, expire}
use fabroku_back_end.Sessions.Operations.{
  begin_session, is_stale, cleanup_expired, create_event, locked, on_row, after_ok, add_chunk,
  queue_on, cancel_on, create_audit_chunk, queue_terminal_input, consume_terminal_input,
  record_terminal_output, submit_answer, cancel_session, take_answer, show_prompt, mark_terminal,
}
use fabroku_back_end.Sessions.Runners.{
  is_abandoned, release, release_stale, is_free, claim_first, claim_pending,
}
use fabroku_back_end.Sessions.Loop.{Ending, final_status, final_event}
use fabroku_back_end.Sessions.Evolution.{
  RowStep, RowSteps, Evolves, once, Evolves-refl, Evolves-trans, Evolves-update_where,
}

pub data Request : Type 0 where
  wait : ℕ → Request
  cleanup : Request
  queue_input record_output : String → Codes → Request
  consume_input take : String → Request
  submit_to : String → String → Codes → Request
  cancel : String → Request
  prompt : String → PromptMatch → Request
  finish : String → Ending → Codes → Request
  -- whether it touches the row, and the text
  event : String → Bool → EventType → Codes → Request
  -- the runner, and how many sessions at most
  claim : String → ℕ → Request

-- A request, or a runner's start of a session: its task, its id, and when it claimed the session
pub data Activity : Type 0 where
  request : Request → Activity
  start : String → String → Option String → Option ℕ → Activity

module _ (c : Settings) where
  unfoldable pub perform : Request → Desk → Desk
  perform (Request.wait n) d = record d { clock = d.clock + n }
  perform Request.cleanup d = cleanup_expired d
  perform (Request.queue_input id value) d = (queue_terminal_input c id value d).1
  perform (Request.record_output id value) d = (record_terminal_output c id value d).1
  perform (Request.consume_input id) d = (consume_terminal_input c id d).1
  perform (Request.take id) d = (take_answer c id d).1
  perform (Request.submit_to id prompt_id value) d = (submit_answer c id prompt_id value d).1
  perform (Request.cancel id) d = (cancel_session c id d).1
  perform (Request.prompt id m) d = (show_prompt c id m d).1
  perform (Request.finish id e text) d =
      (mark_terminal c id (final_status e) (final_event e) text d).1
  perform (Request.event id touched t text) d = create_event c id touched t text d
  perform (Request.claim runner limit) d = (claim_pending c runner limit d).1

  unfoldable pub perform_all : List Request → Desk → Desk
  perform_all [] d = d
  perform_all (r ∷ rs) d = perform_all rs (perform r d)

  unfoldable pub act : Activity → Desk → Desk
  act (Activity.request r) d = perform r d
  act (Activity.start id task_id runner_id claimed_at) d =
      begin_session c id task_id runner_id claimed_at d

  unfoldable pub act_all : List Activity → Desk → Desk
  act_all [] d = d
  act_all (a ∷ activities) d = act_all activities (act a d)

  on_row-Evolves :
      {A : Type 0} (id : String) (f : Session → Result A × Session) (d : Desk) (o : Option Session)
      → ((s : Session) → RowSteps c s (f s).1)
      → Evolves c d.sessions (on_row id f d o).1.sessions
  on_row-Evolves id f d none steps = Evolves-refl c d.sessions
  on_row-Evolves id f d (some s) steps = Evolves-update_where c _ _ d.sessions steps

  pub create_event-Evolves :
      (id : String) (touched : Bool) (t : EventType) (m : Codes) (d : Desk)
      → Evolves c d.sessions (create_event c id touched t m d).sessions
  unfolding create_event
  create_event-Evolves id true t m d =
      Evolves-update_where c _ _ d.sessions (λ s. once c (RowStep.touched d.clock))
  create_event-Evolves id false t m d = Evolves-refl c d.sessions

  after_ok-Evolves :
      (xs : List Session) (p : Result (Unit {0}) × Desk) (f : Desk → Desk)
      → ((d : Desk) → Evolves c d.sessions (f d).sessions)
      → Evolves c xs p.1.sessions
      → Evolves c xs (after_ok p f).1.sessions
  after_ok-Evolves xs (ok _, d) f steps e = Evolves-trans c e (steps d)
  after_ok-Evolves xs (err _, d) f steps e = e

  add_chunk-Evolves :
      (id : String) (direction : Direction) (v : Codes) (o : Option Session) (xs : List Session)
      (d : Desk)
      → Evolves c xs d.sessions
      → Evolves c xs (add_chunk c id direction v o d).sessions
  add_chunk-Evolves id direction v none xs d e = e
  add_chunk-Evolves id direction v (some s) xs d e = e

  create_audit_chunk-Evolves :
      (id : String) (direction : Direction) (v : Codes) (d : Desk)
      → Evolves c d.sessions (create_audit_chunk c id direction v d).1.sessions
  unfolding create_audit_chunk
  create_audit_chunk-Evolves id direction v d =
      let counted = locked id (λ s. (ok tt, count_chunk c d.clock s)) d in
      add_chunk-Evolves id direction v (session_of id counted.1) d.sessions counted.1
        (on_row-Evolves id _ d (session_of id d) (λ s. once c (RowStep.counted d.clock)))

  queue_on-Evolves :
      (id : String) (v : Codes) (d : Desk) (o : Option Session)
      → Evolves c d.sessions (queue_on c id v d o).1.sessions
  queue_on-Evolves id v d none = Evolves-refl c d.sessions
  queue_on-Evolves id v d (some s) = elim (Bool-cases (is_postgres_connect s.command_kind)) [
    | inr e ↦ rw e (Evolves-refl c d.sessions)
    | inl e ↦ elim (Bool-cases (takes_input s.status)) [
      | inr e' ↦ rw (e, e') (Evolves-refl c d.sessions)
      | inl e' ↦ rw (e, e') (create_audit_chunk-Evolves id Direction.input_chunk v d)
    ]
  ]

  cancel_on-Evolves :
      (id : String) (d : Desk) (o : Option Session)
      → Evolves c d.sessions (cancel_on c id d o).1.sessions
  cancel_on-Evolves id d none = Evolves-refl c d.sessions
  cancel_on-Evolves id d (some s) = elim (Bool-cases (is_terminal s.status)) [
    | inl t ↦ rw t (Evolves-refl c d.sessions)
    | inr t ↦ rw t (
        Evolves-trans c
          (Evolves-update_where c _ _ d.sessions (λ s. once c (RowStep.cancelled d.clock)))
          (create_event-Evolves id true EventType.status_event [] _))
  ]

  claim_first-Evolves :
      (runner : String) (now limit : ℕ) (xs : List Session)
      → Evolves c xs (claim_first runner now limit xs).1
  unfolding claim_first
  claim_first-Evolves runner now limit [] = Evolves.nil
  claim_first-Evolves runner now limit (s ∷ xs) =
      let rest = claim_first-Evolves runner now (if is_free now s then limit - 1 else limit) xs in
      elim (Bool-cases (is_free now s && ltb 0 limit)) [
        | inl e ↦ rw e (Evolves.cons (once c (RowStep.claimed runner now)) rest)
        | inr e ↦ rw e (Evolves.cons RowSteps.stay rest)
      ]

  claim_pending-Evolves :
      (runner : String) (limit : ℕ) (d : Desk)
      → Evolves c d.sessions (claim_pending c runner limit d).1.sessions
  unfolding claim_pending release_stale cleanup_expired
  claim_pending-Evolves runner zero d = Evolves-refl c d.sessions
  claim_pending-Evolves runner (suc limit) d =
      Evolves-trans c
        (Evolves-update_where c (is_stale d.clock) (expire d.clock) d.sessions
          (λ s. once c (RowStep.expired d.clock)))
        (Evolves-trans c
          (Evolves-update_where c (is_abandoned c (cleanup_expired d)) (release c)
            (cleanup_expired d).sessions (λ s. once c RowStep.released))
          (claim_first-Evolves runner d.clock (suc limit)
            (release_stale c (cleanup_expired d)).sessions))

  -- Each request moves the rows by steps.
  pub perform-Evolves : (r : Request) (d : Desk) → Evolves c d.sessions (perform r d).sessions
  unfolding perform cleanup_expired queue_terminal_input consume_terminal_input
      record_terminal_output submit_answer cancel_session take_answer show_prompt mark_terminal
  perform-Evolves (Request.wait n) d = Evolves-refl c d.sessions
  perform-Evolves Request.cleanup d =
      Evolves-update_where c _ _ d.sessions (λ s. once c (RowStep.expired d.clock))
  perform-Evolves (Request.queue_input id []) d = Evolves-refl c d.sessions
  perform-Evolves (Request.queue_input id (k ∷ v)) d =
      queue_on-Evolves id (k ∷ v) d (session_of id d)
  perform-Evolves (Request.record_output id []) d = Evolves-refl c d.sessions
  perform-Evolves (Request.record_output id (k ∷ v)) d =
      create_audit_chunk-Evolves id Direction.output_chunk (k ∷ v) d
  perform-Evolves (Request.consume_input id) d = Evolves-refl c d.sessions
  perform-Evolves (Request.take id) d =
      on_row-Evolves id _ d (session_of id d) (λ s. once c (RowStep.consumed d.clock))
  perform-Evolves (Request.submit_to id prompt_id value) d =
      on_row-Evolves id _ d (session_of id d)
        (λ s. once c (RowStep.submitted d.clock prompt_id value))
  perform-Evolves (Request.cancel id) d = cancel_on-Evolves id d (session_of id d)
  perform-Evolves (Request.prompt id m) d =
      after_ok-Evolves d.sessions _ _
        (λ d'. create_event-Evolves id false EventType.prompt_event m.text d')
        (on_row-Evolves id _ d (session_of id d) (λ s. once c (RowStep.prompted d.clock m)))
  perform-Evolves (Request.finish id e text) d =
      after_ok-Evolves d.sessions _ _ (λ d'. create_event-Evolves id false (final_event e) text d')
        (on_row-Evolves id _ d (session_of id d) (λ s. once c (RowStep.marked d.clock e)))
  perform-Evolves (Request.event id touched t text) d = create_event-Evolves id touched t text d
  perform-Evolves (Request.claim runner limit) d = claim_pending-Evolves runner limit d

  pub perform_all-Evolves :
      (rs : List Request) (d : Desk) → Evolves c d.sessions (perform_all rs d).sessions
  unfolding perform_all
  perform_all-Evolves [] d = Evolves-refl c d.sessions
  perform_all-Evolves (r ∷ rs) d =
      Evolves-trans c (perform-Evolves r d) (perform_all-Evolves rs (perform r d))
