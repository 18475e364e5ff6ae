-- ===== src/Sessions/Cancel.antt =====
-- A cancel that was asked for ends the session at the next poll, after any of the modelled requests.
use fabroku_back_end.Base.{
  ℕ, String, true, false, Option, some, List, [], ◌∷◌, ◌≡◌, refl, ap, arith, find, update_where,
  Codes, inl, inr, Bool-cases,
}
use fabroku_back_end.Sessions.Model.{
  Session, Settings, Status, Desk, is_terminal, has_id, session_of,
}
use fabroku_back_end.Sessions.Rows.{PromptMatch, touch, mark, request_cancel}
use fabroku_back_end.Sessions.Operations.{cancel_session, create_event, mark_terminal}
use fabroku_back_end.Sessions.Terminal.{Locals}
use fabroku_back_end.Sessions.Loop.{
  Tick, Ending, by_cancel, final_status, poll_postgres, poll_prompts, run_postgres, run_prompts,
  finish, control, go_on, go_on_prompts, postgres_on, prompts_on,
}
use fabroku_back_end.Sessions.Requests.{Request, perform_all, perform_all-Evolves}
use fabroku_back_end.Sessions.Invariant.{Evolves-find}

pub find-update_where :
    (id : String) (f : Session → Session) (xs : List Session) (s : Session)
    → ((x : Session) → (f x).id ≡ x.id)
    → find (has_id id) xs ≡ some s
    → find (has_id id) (update_where (has_id id) f xs) ≡ some (f s)
find-update_where id f [] s same h = cc
find-update_where id f (x ∷ xs) s same h = elim (Bool-cases (has_id id x)) [
  | inl e ↦ ground (arith, same x)
  | inr e ↦ ground (arith, find-update_where id f xs s same)
]

request_cancel-id : (c : Settings) (now : ℕ) (s : Session) → (request_cancel c now s).id ≡ s.id
unfolding request_cancel touch
request_cancel-id c now s = ground arith

touch-id : (c : Settings) (now : ℕ) (s : Session) → (touch c now s).id ≡ s.id
unfolding touch
touch-id c now s = refl

control_cancelled :
    (now : ℕ) (o : Option Session) (u : Session)
    → o ≡ some u
    → u.cancel_requested ≡ true
    → control now o ≡ inl by_cancel
control_cancelled now o u found h = rw (found, h) refl

module _ (c : Settings) (id : String) where
  cancelled_row :
      (s : Session) (d : Desk)
      → session_of id d ≡ some s
      → is_terminal s.status ≡ false
      → session_of id (cancel_session c id d).1
        ≡ some (touch c d.clock (request_cancel c d.clock s))
  unfolding cancel_session create_event
  cancelled_row s d found live =
      let asked =
        find-update_where id (request_cancel c d.clock) d.sessions s (request_cancel-id c d.clock)
          found in
      rw (found, live)
        (find-update_where id (touch c d.clock)
          (update_where (has_id id) (request_cancel c d.clock) d.sessions)
          (request_cancel c d.clock s) (touch-id c d.clock) asked)

  finish_lem :
      (e : Ending) (d : Desk) (s : Session)
      → session_of id d ≡ some s
      → session_of id (finish c id (some e, d)).1 ≡ some (mark d.clock (final_status e) s)
  unfolding finish mark_terminal create_event mark
  finish_lem e d s found =
      rw found (find-update_where id (mark d.clock (final_status e)) d.sessions s (λ x. refl) found)

  -- The row, after a cancel and any requests.
  still_cancelled :
      (s : Session) (d : Desk) (rs : List Request)
      → session_of id d ≡ some s
      → is_terminal s.status ≡ false
      → (u : Session) × (session_of id (perform_all c rs (cancel_session c id d).1) ≡ some u)
        × (u.cancel_requested ≡ true)
  unfolding touch request_cancel
  still_cancelled s d rs found live =
      Evolves-find c id (touch c d.clock (request_cancel c d.clock s))
        (perform_all-Evolves c rs (cancel_session c id d).1) (cancelled_row s d found live)
        (ground arith)

  -- How a session ends that a loop has left with `p`.
  abbrev pub EndsCancelled : Option Ending × Desk → Type 0
  EndsCancelled p =
      (p.0 ≡ some by_cancel)
      × ((u : Session) × (session_of id (finish c id p).1 ≡ some u) × (u.status ≡ Status.cancelled))

  poll-EndsCancelled :
      (d : Desk) (u : Session) (p : Option Ending × Desk)
      → session_of id d ≡ some u
      → p ≡ (some by_cancel, d)
      → EndsCancelled p
  unfolding mark
  poll-EndsCancelled d u p found e =
      rw e (refl, (mark d.clock Status.cancelled u, finish_lem by_cancel d u found, refl))

  poll_postgres_cancelled :
      (t : Tick) (ts : List Tick) (d : Desk) (u : Session)
      → session_of id (t.before d) ≡ some u
      → u.cancel_requested ≡ true
      → run_postgres c id (t ∷ ts) d ≡ (some by_cancel, t.before d)
  unfolding run_postgres poll_postgres
  poll_postgres_cancelled t ts d u found h =
      let d' = t.before d in
      ap (λ x. go_on c id (postgres_on c id t d' x) (run_postgres c id ts))
        (control_cancelled d'.clock (session_of id d') u found h)

  poll_prompts_cancelled :
      (match_prompt : Codes → Option PromptMatch) (t : Tick) (ts : List Tick) (l : Locals)
      (d : Desk) (u : Session)
      → session_of id (t.before d) ≡ some u
      → u.cancel_requested ≡ true
      → run_prompts c id match_prompt (t ∷ ts) (l, d) ≡ (some by_cancel, (l, t.before d))
  unfolding run_prompts poll_prompts
  poll_prompts_cancelled match_prompt t ts l d u found h =
      let d' = t.before d in
      ap
        (λ x.
          go_on_prompts c id match_prompt (prompts_on c id match_prompt t l d' x)
            (run_prompts c id match_prompt ts))
        (control_cancelled d'.clock (session_of id d') u found h)

  -- A cancel of a session that has not ended stops both loops at their next poll, whatever of the
  -- modelled requests came in between, and the session ends as CANCELLED. The poll has then changed
  -- nothing: no input is taken from the queue or written to the channel, nothing that the channel
  -- printed is recorded or shown, and the locals of the loop are as they were.
  pub cancel_wins :
      (match_prompt : Codes → Option PromptMatch) (s : Session) (d : Desk) (rs : List Request)
      (t : Tick) (ts : List Tick) (l : Locals)
      → session_of id d ≡ some s
      → is_terminal s.status ≡ false
      → let next = record t { before = perform_all c rs } in
        let asked = (cancel_session c id d).1 in
        let (e, (l', d')) = run_prompts c id match_prompt (next ∷ ts) (l, asked) in
        EndsCancelled (run_postgres c id (next ∷ ts) asked)
        × EndsCancelled (e, d')
        × ((run_postgres c id (next ∷ ts) asked).1 ≡ perform_all c rs asked)
        × (l' ≡ l)
        × (d' ≡ perform_all c rs asked)
  cancel_wins match_prompt s d rs t ts l found live =
      let (u, found', h) = still_cancelled s d rs found live in
      let asked = (cancel_session c id d).1 in
      let d' = perform_all c rs asked in
      let next = record t { before = perform_all c rs } in
      let prompts = poll_prompts_cancelled match_prompt next ts l asked u found' h in
      let postgres = poll_postgres_cancelled next ts asked u found' h in
      (
        poll-EndsCancelled d' u _ found' postgres,
        poll-EndsCancelled d' u _ found' (ap (λ x. (x.0, x.1.1)) prompts),
        ap (λ x. x.1) postgres,
        ap (λ x. x.1.0) prompts,
        ap (λ x. x.1.1) prompts,
      )
