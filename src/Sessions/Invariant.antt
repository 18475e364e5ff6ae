-- ===== src/Sessions/Invariant.antt =====
-- What holds of every row of the sessions table over lists of activities.
use fabroku_back_end.Base.{
  ℕ, String, Bool, true, false, not, ◌&&◌, ◌||◌, Option, none, some, List, [], ◌∷◌, update_where,
  ◌≡◌, refl, arith, all, find, is_some, inl, inr, Bool-cases, if◌then◌else◌,
}
use fabroku_back_end.Sessions.Model.{Session, Settings, Desk, is_terminal, is_awaiting, has_id}
use fabroku_back_end.Sessions.Rows.{
  has_bytes, mark, touch, submit, request_cancel, consume_answer, set_prompt, count_chunk, begin,
  expire,
}
use fabroku_back_end.Sessions.Operations.{cleanup_expired, create_event, begin_session, is_stale}
use fabroku_back_end.Sessions.Loop.{by_cancel, by_timeout, exited, broke}
use fabroku_back_end.Sessions.Evolution.{RowStep, RowSteps, Evolves}
use fabroku_back_end.Sessions.Requests.{Request, Activity, perform, act, act_all, perform-Evolves}

-- A prompt is there if and only if the session awaits input, an answer only while it does, and a
-- session that has ended says when.
unfoldable pub is_well_formed : Session → Bool
is_well_formed s =
    (if is_awaiting s.status
      then is_some s.awaiting_prompt_id
      else not (is_some s.awaiting_prompt_id))
    && (is_awaiting s.status || not (has_bytes s.pending_answer_ciphertext))
    && (not (is_terminal s.status) || is_some s.completed_at)

-- A row that a start of the session may meet
abbrev pub is_startable : String → Session → Bool
is_startable id s = not (has_id id s && is_awaiting s.status)

-- A start finds its session not awaiting input.
unfoldable pub is_in_turn : Activity → Desk → Bool
is_in_turn (Activity.request r) d = true
is_in_turn (Activity.start id task_id runner_id claimed_at) d = all (is_startable id) d.sessions

module _ (c : Settings) where
  -- Each start of the list, on the tables as it finds them
  unfoldable pub all_in_turn : List Activity → Desk → Bool
  all_in_turn [] d = true
  all_in_turn (a ∷ activities) d = is_in_turn a d && all_in_turn activities (act c a d)

  -- The row that a start finds must not await input: `begin` clears no prompt.
  begin-is_well_formed :
      (now : ℕ) (task_id : String) (runner_id : Option String) (claimed_at : Option ℕ) (s : Session)
      → is_well_formed s ≡ true
      → is_awaiting s.status ≡ false
      → is_well_formed (begin c now task_id runner_id claimed_at s) ≡ true
  unfolding is_well_formed begin touch
  begin-is_well_formed now task_id none claimed_at s h e = ground arith
  begin-is_well_formed now task_id (some r) claimed_at s h e = ground arith

  RowStep-is_well_formed :
      {s u : Session} → RowStep c s u → is_well_formed s ≡ true → is_well_formed u ≡ true
  unfolding is_well_formed mark touch submit request_cancel consume_answer set_prompt count_chunk
  RowStep-is_well_formed (RowStep.expired now) h = refl
  RowStep-is_well_formed (RowStep.marked now by_cancel) h = refl
  RowStep-is_well_formed (RowStep.marked now by_timeout) h = refl
  RowStep-is_well_formed (RowStep.marked now (exited ℕ.zero)) h = refl
  RowStep-is_well_formed (RowStep.marked now (exited (ℕ.suc n))) h = refl
  RowStep-is_well_formed (RowStep.marked now (broke e)) h = refl
  RowStep-is_well_formed (RowStep.touched now) h = h
  RowStep-is_well_formed (RowStep.submitted now prompt_id value) h = ground arith
  RowStep-is_well_formed (RowStep.cancelled now) h = ground arith
  RowStep-is_well_formed (RowStep.consumed now) h = ground arith
  RowStep-is_well_formed (RowStep.prompted now m) h = ground arith
  RowStep-is_well_formed (RowStep.counted now) h = ground arith
  RowStep-is_well_formed RowStep.released h = h
  RowStep-is_well_formed (RowStep.claimed runner now) h = h

  RowSteps-is_well_formed :
      {s u : Session} → RowSteps c s u → is_well_formed s ≡ true → is_well_formed u ≡ true
  RowSteps-is_well_formed RowSteps.stay h = h
  RowSteps-is_well_formed (RowSteps.and_then rest step) h =
      RowStep-is_well_formed step (RowSteps-is_well_formed rest h)

  Evolves-all :
      {xs ys : List Session}
      → Evolves c xs ys
      → all is_well_formed xs ≡ true
      → all is_well_formed ys ≡ true
  Evolves-all Evolves.nil h = refl
  Evolves-all (Evolves.cons {s} {u} {xs} {ys} steps e) h = elim (Bool-cases (is_well_formed s)) [
    | inl w ↦ rw (RowSteps-is_well_formed steps w) (Evolves-all e (ground arith))
    | inr w ↦ ground arith
  ]

  expired-is_startable :
      (id : String) (now : ℕ) (xs : List Session)
      → all (is_startable id) xs ≡ true
      → all (is_startable id) (update_where (is_stale now) (expire now) xs) ≡ true
  expired-is_startable id now [] h = refl
  expired-is_startable id now (x ∷ xs) h =
      let before : all (is_startable id) xs ≡ true = ground arith in
      ground (arith, expired-is_startable id now xs before)

  begun_rows :
      (id : String) (f : Session → Session) (xs : List Session)
      → ((s : Session)
          → is_well_formed s ≡ true
          → is_awaiting s.status ≡ false
          → is_well_formed (f s) ≡ true)
      → all (is_startable id) xs ≡ true
      → all is_well_formed xs ≡ true
      → all is_well_formed (update_where (has_id id) f xs) ≡ true
  begun_rows id f [] step ready h = refl
  begun_rows id f (x ∷ xs) step ready h =
      let formed : is_well_formed x ≡ true = ground arith in
      let rest = begun_rows id f xs step (ground arith) (ground arith) in
      elim (Bool-cases (has_id id x)) [
        | inl e ↦
            let quiet : is_awaiting x.status ≡ false = ground arith in
            rw (e, step x formed quiet) rest
        | inr e ↦ rw (e, formed) rest
      ]

  act-is_well_formed :
      (a : Activity) (d : Desk)
      → is_in_turn a d ≡ true
      → all is_well_formed d.sessions ≡ true
      → all is_well_formed (act c a d).sessions ≡ true
  unfolding act is_in_turn perform begin_session cleanup_expired create_event
  act-is_well_formed (Activity.request r) d turn h = Evolves-all (perform-Evolves c r d) h
  act-is_well_formed (Activity.start id task_id runner_id claimed_at) d turn h =
      begun_rows id (begin c d.clock task_id runner_id claimed_at) (cleanup_expired d).sessions
        (begin-is_well_formed d.clock task_id runner_id claimed_at)
        (expired-is_startable id d.clock d.sessions turn)
        (Evolves-all (perform-Evolves c Request.cleanup d) h)

  -- Whatever requests of clients, runners and clean-ups come, and whatever sessions are claimed and
  -- started, in whatever order, rows stay well-formed: a prompt is there if and only if the session
  -- awaits input, an answer waits only while it does, and a session that has ended has its time of
  -- completion. For starts of sessions that do not await input when they are started.
  pub act_all-is_well_formed :
      (activities : List Activity) (d : Desk)
      → all_in_turn activities d ≡ true
      → all is_well_formed d.sessions ≡ true
      → all is_well_formed (act_all c activities d).sessions ≡ true
  unfolding act_all all_in_turn
  act_all-is_well_formed [] d turn h = h
  act_all-is_well_formed (a ∷ activities) d turn h =
      let next : all is_well_formed (act c a d).sessions ≡ true =
        act-is_well_formed a d (ground arith) h in
      act_all-is_well_formed activities (act c a d) (ground arith) next

  RowStep-cancel :
      {s u : Session}
      → RowStep c s u
      → (u.id ≡ s.id) × (s.cancel_requested ≡ true → u.cancel_requested ≡ true)
  unfolding mark touch submit request_cancel consume_answer set_prompt count_chunk
  RowStep-cancel (RowStep.expired now) = (refl, λ h. refl)
  RowStep-cancel (RowStep.marked now e) = (refl, λ h. h)
  RowStep-cancel (RowStep.touched now) = (refl, λ h. h)
  RowStep-cancel (RowStep.submitted now prompt_id value) = (ground arith, λ h. ground arith)
  RowStep-cancel (RowStep.cancelled now) = (ground arith, λ h. ground arith)
  RowStep-cancel (RowStep.consumed now) = (ground arith, λ h. ground arith)
  RowStep-cancel (RowStep.prompted now m) = (refl, λ h. h)
  RowStep-cancel (RowStep.counted now) = (ground arith, λ h. ground arith)
  RowStep-cancel RowStep.released = (refl, λ h. h)
  RowStep-cancel (RowStep.claimed runner now) = (refl, λ h. h)

  RowSteps-cancel :
      {s u : Session}
      → RowSteps c s u
      → (u.id ≡ s.id) × (s.cancel_requested ≡ true → u.cancel_requested ≡ true)
  RowSteps-cancel RowSteps.stay = (refl, λ h. h)
  RowSteps-cancel (RowSteps.and_then rest step) =
      let (i, k) = RowSteps-cancel rest in
      let (i', k') = RowStep-cancel step in (rw i' i, λ h. k' (k h))

  -- The row that is found stands for the same session, later.
  pub Evolves-find :
      {xs ys : List Session} (id : String) (s : Session)
      → Evolves c xs ys
      → find (has_id id) xs ≡ some s
      → s.cancel_requested ≡ true
      → (u : Session) × (find (has_id id) ys ≡ some u) × (u.cancel_requested ≡ true)
  Evolves-find id s Evolves.nil found h = cc
  Evolves-find id s (Evolves.cons {s = x} {u = y} {xs = xs} {ys = ys} steps e) found h =
      let (same, kept) = RowSteps-cancel steps in
      elim (Bool-cases (has_id id x)) [
        | inl there ↦ (y, ground arith, kept (ground arith))
        | inr elsewhere ↦
            let (u, found', h') = Evolves-find id s e (ground arith) h in (u, ground arith, h')
      ]
