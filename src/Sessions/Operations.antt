-- ===== src/Sessions/Operations.antt =====
-- The transactions of core/apps/mixins/apps/interactive_run.py and the claims of
-- interactive_sessions/interactive_runner.py, on all the tables.
use fabroku_back_end.Base.{
  ℕ, ◌-◌, String, Bool, true, false, not, ◌&&◌, Option, none, some, List, [], ◌∷◌, ◌++◌, Codes,
  update_where, is_some, ltb, str_eq, if◌then◌else◌,
}
use fabroku_back_end.Models.Errors.{does_not_exist, value_error}
use fabroku_back_end.Runtime.Effects.{Result, ok, err}
use fabroku_back_end.Sessions.Model.{
  Session, Status, is_terminal, takes_input, is_postgres_connect, EventType, Direction, is_input,
  Chunk, Desk, Settings, session_of, update_session,
}
use fabroku_back_end.Sessions.Rows.{
  PromptMatch, expire, mark, touch, submit, request_cancel, consume_answer, set_prompt, count_chunk,
  begin,
}

-- The row of `id`, locked: `f` gives the result and the row as it is saved. An id has one row.
abbrev pub on_row {ℓ} :
    {A : Type ℓ} → String → (Session → Result A × Session) → Desk → Option Session → Result A × Desk
on_row id f d none = (err does_not_exist, d)
on_row id f d (some s) = ((f s).0, update_session id (λ row. (f row).1) d)

abbrev pub locked {ℓ} :
    {A : Type ℓ} → String → (Session → Result A × Session) → Desk → Result A × Desk
locked id f d = on_row id f d (session_of id d)

-- What follows in a transaction that has not raised.
abbrev pub after_ok : Result (Unit {0}) × Desk → (Desk → Desk) → Result (Unit {0}) × Desk
after_ok (ok _, d) f = (ok tt, f d)
after_ok (err e, d) f = (err e, d)

-- `InteractiveRunEvent.objects.create`
abbrev pub add_event : String → EventType → Codes → Desk → Desk
add_event id event_type message d = record d {
  events =
      d.events ++ (record { session_id = id; event_type = event_type; message = message } ∷ []);
}

abbrev pub is_stale : ℕ → Session → Bool
is_stale now s = ltb s.expires_at now && not (is_terminal s.status)

-- `cleanup_expired_interactive_sessions`
unfoldable pub cleanup_expired : Desk → Desk
cleanup_expired d = record d {
  sessions = update_where (is_stale d.clock) (expire d.clock) d.sessions;
}

-- An unconsumed input chunk of the session.
abbrev pub is_waiting : String → Chunk → Bool
is_waiting id k = str_eq k.session_id id && is_input k.direction && not (is_some k.consumed_at)

module _ (c : Settings) where
  -- `_create_session_event`; `touched` is `touch and session.status not in TERMINAL_SESSION_STATUSES`
  unfoldable pub create_event : String → Bool → EventType → Codes → Desk → Desk
  create_event id touched event_type message d =
      add_event id event_type message (if touched then update_session id (touch c d.clock) d else d)

  -- The new chunk, whose sequence is that of the row.
  abbrev pub add_chunk : String → Direction → Codes → Option Session → Desk → Desk
  add_chunk id direction content none d = d
  add_chunk id direction content (some s) d = record d {
    chunks =
        d.chunks
        ++ (record {
          session_id = id;
          direction = direction;
          sequence = s.audit_sequence;
          content_ciphertext = c.encrypt content;
          consumed_at = none;
        }
            ∷ []);
  }

  -- `create_interactive_audit_chunk`
  unfoldable pub create_audit_chunk : String → Direction → Codes → Desk → Result (Unit {0}) × Desk
  create_audit_chunk id direction content d =
      let (r, d') = locked id (λ s. (ok tt, count_chunk c d.clock s)) d in
      (r, add_chunk id direction content (session_of id d') d')

  abbrev pub queue_on : String → Codes → Desk → Option Session → Result (Unit {0}) × Desk
  queue_on id value d none = (err does_not_exist, d)
  queue_on id value d (some s) =
      if not (is_postgres_connect s.command_kind)
      then (err (value_error "Esta sessao nao aceita input de terminal."), d)
      else if not (takes_input s.status)
      then (err (value_error "A sessao nao esta aceitando entrada neste momento."), d)
      else create_audit_chunk id Direction.input_chunk value d

  -- `queue_interactive_terminal_input`
  unfoldable pub queue_terminal_input : String → Codes → Desk → Result (Unit {0}) × Desk
  queue_terminal_input id [] d = (err (value_error "Entrada vazia."), d)
  queue_terminal_input id (k ∷ value) d = queue_on id (k ∷ value) d (session_of id d)

  -- The first `n` waiting chunks, decrypted, and all chunks with those marked as consumed.
  unfoldable pub consume_chunks : String → ℕ → ℕ → List Chunk → List Codes × List Chunk
  consume_chunks id now n [] = ([], [])
  consume_chunks id now n (k ∷ ks) =
      let (values, rest) = consume_chunks id now (if is_waiting id k then n - 1 else n) ks in
      if is_waiting id k && ltb 0 n
      then (c.decrypt k.content_ciphertext ∷ values, record k { consumed_at = some now } ∷ rest)
      else (values, k ∷ rest)

  -- `_consume_terminal_input_chunks`
  unfoldable pub consume_terminal_input : String → Desk → List Codes × Desk
  consume_terminal_input id d =
      let (values, chunks) = consume_chunks id d.clock 100 d.chunks in
      (values, record d { chunks = chunks })

  -- `_record_terminal_output`
  unfoldable pub record_terminal_output : String → Codes → Desk → Result (Unit {0}) × Desk
  record_terminal_output id [] d = (ok tt, d)
  record_terminal_output id (k ∷ value) d =
      create_audit_chunk id Direction.output_chunk (k ∷ value) d

  -- `submit_interactive_session_answer`
  unfoldable pub submit_answer : String → String → Codes → Desk → Result (Unit {0}) × Desk
  submit_answer id prompt_id value d = locked id (submit c d.clock prompt_id value) d

  abbrev pub cancel_on : String → Desk → Option Session → Result Status × Desk
  cancel_on id d none = (err does_not_exist, d)
  cancel_on id d (some s) = if is_terminal s.status then (ok s.status, d) else (
    ok s.status,
    create_event id true EventType.status_event [] (update_session id (request_cancel c d.clock) d),
  )

  -- `request_interactive_session_cancel`; the result is the status of the session it returns
  unfoldable pub cancel_session : String → Desk → Result Status × Desk
  cancel_session id d = cancel_on id d (session_of id d)

  -- `_consume_interactive_session_answer`
  unfoldable pub take_answer : String → Desk → Result (Option Codes) × Desk
  take_answer id d =
      locked id (λ s. (ok (consume_answer c d.clock s).0, (consume_answer c d.clock s).1)) d

  -- `_set_session_prompt`
  unfoldable pub show_prompt : String → PromptMatch → Desk → Result (Unit {0}) × Desk
  show_prompt id m d =
      after_ok (locked id (λ s. (ok tt, set_prompt c d.clock m s)) d)
        (create_event id false EventType.prompt_event m.text)

  -- `_mark_session_terminal`
  unfoldable pub mark_terminal :
      String → Status → EventType → Codes → Desk → Result (Unit {0}) × Desk
  mark_terminal id status event_type text d =
      after_ok (locked id (λ s. (ok tt, mark d.clock status s)) d)
        (create_event id false event_type text)

  -- What `execute_interactive_session` writes before it opens the channel; `claimed_at` was read
  -- before the clean-up.
  unfoldable pub begin_session : String → String → Option String → Option ℕ → Desk → Desk
  begin_session id task_id runner_id claimed_at d =
      let d' = cleanup_expired d in
      create_event id false EventType.status_event []
        (update_session id (begin c d.clock task_id runner_id claimed_at) d')
