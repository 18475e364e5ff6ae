-- ===== src/Sessions/Loop.antt =====
-- The loops of core/apps/mixins/apps/interactive_run.py and `execute_interactive_session`. A channel
-- is the list of what each poll finds; a list that runs out is a session that is still running.
use fabroku_back_end.Base.{
  ℕ, zero, suc, String, Bool, false, not, ◌&&◌, Option, none, some, List, [], ◌∷◌, ◌++◌, Codes, leb,
  truthy, map, if◌then◌else◌, ◌⊎◌, inl, inr,
}
use fabroku_back_end.Models.Errors.{Error, does_not_exist, runtime_error}
use fabroku_back_end.Runtime.Effects.{Result, ok, err}
use fabroku_back_end.Sessions.Model.{
  Session, CommandKind, Status, is_awaiting, is_postgres_connect, Desk, Settings, EventType,
  session_of,
}
use fabroku_back_end.Sessions.Strip.{strip, normalize}
use fabroku_back_end.Sessions.Rows.{PromptMatch}
use fabroku_back_end.Sessions.Operations.{
  take_answer, record_terminal_output, consume_terminal_input, mark_terminal, begin_session,
}
use fabroku_back_end.Sessions.Terminal.{
  Locals, remember, is_empty, emit_output_lines, flush_output_buffer,
}

-- One poll: what other processes did before it and after the control columns were read, what the
-- channel printed, and the exit status with what was printed last, if the command has ended.
pub record Tick : Type 0 where
  pub before : Desk → Desk
  pub during : Desk → Desk
  pub output : Codes
  pub exit : Option (ℕ × Codes)

-- How a loop ends. The first two are `InteractiveRunCancelled` and `InteractiveRunExpired`.
pub data Ending : Type 0 where
  by_cancel by_timeout : Ending
  exited : ℕ → Ending
  broke : Error → Ending

-- What the control columns say: to stop, or the row.
abbrev pub control : ℕ → Option Session → Ending ⊎ Session
control now none = inl (broke does_not_exist)
control now (some s) =
    if s.cancel_requested
    then inl by_cancel
    else if leb s.expires_at now
    then inl by_timeout
    else inr s

module _ (c : Settings) (id : String) where
  abbrev then_exit : Ending → Result (Unit {0}) × Desk → Option Ending × Desk
  then_exit e (ok _, d) = (some e, d)
  then_exit e (err error, d) = (some (broke error), d)

  abbrev pub write_all : List Codes → Desk → Desk
  write_all values d = record d { written = d.written ++ map (λ v. (id, v)) values }

  abbrev postgres_exit : Option (ℕ × Codes) → Desk → Option Ending × Desk
  postgres_exit none d = (none, d)
  postgres_exit (some (status, trailing)) d =
      then_exit (exited status) (record_terminal_output c id trailing d)

  abbrev postgres_input : Option (ℕ × Codes) → Result (Unit {0}) × Desk → Option Ending × Desk
  postgres_input exit (err e, d) = (some (broke e), d)
  postgres_input exit (ok _, d) =
      let (values, d') = consume_terminal_input c id d in postgres_exit exit (write_all values d')

  abbrev pub postgres_on : Tick → Desk → Ending ⊎ Session → Option Ending × Desk
  postgres_on t d (inl e) = (some e, d)
  postgres_on t d (inr _) =
      postgres_input t.exit (record_terminal_output c id t.output (t.during d))

  -- The body of `_run_postgres_connect_loop`
  unfoldable pub poll_postgres : Tick → Desk → Option Ending × Desk
  poll_postgres t d = let d' = t.before d in postgres_on t d' (control d'.clock (session_of id d'))

  abbrev pub go_on : Option Ending × Desk → (Desk → Option Ending × Desk) → Option Ending × Desk
  go_on (some e, d) next = (some e, d)
  go_on (none, d) next = next d

  -- `_run_postgres_connect_loop`
  unfoldable pub run_postgres : List Tick → Desk → Option Ending × Desk
  run_postgres [] d = (none, d)
  run_postgres (t ∷ ts) d = go_on (poll_postgres t d) (run_postgres ts)

  module _ (match_prompt : Codes → Option PromptMatch) where
    -- `if output:` with what it does
    unfoldable pub take_output : Codes → Locals × Desk → Result (Unit {0}) × (Locals × Desk)
    take_output [] p = (ok tt, p)
    take_output (k ∷ text) (l, d) =
        flush_output_buffer c id match_prompt
          (record l { buffer = normalize (l.buffer ++ (k ∷ text)) }, d)

    abbrev pub give :
        Bool → Locals → Result (Option Codes) × Desk → Result (Unit {0}) × (Locals × Desk)
    give secret l (err e, d) = (err e, (l, d))
    give secret l (ok none, d) = (ok tt, (l, d))
    give secret l (ok (some answer), d) =
        (ok tt, (remember secret answer l, write_all ((answer ++ (10 ∷ [])) ∷ []) d))

    -- `s` is the row as the control columns were read.
    unfoldable pub give_answer : Session → Locals × Desk → Result (Unit {0}) × (Locals × Desk)
    give_answer s (l, d) =
        if is_awaiting s.status
        then give s.awaiting_prompt_secret l (take_answer c id d)
        else (ok tt, (l, d))

    abbrev pub last_lines : Locals × Desk → Locals × Desk
    last_lines (l, d) =
        if is_empty (strip l.buffer)
        then (l, d)
        else (let (l', d') = emit_output_lines c id l.buffer (l, d) in
            (record l' { buffer = [] }, d'))

    abbrev pub Polled : Type 0
    Polled = Option Ending × (Locals × Desk)

    abbrev pub prompts_exit_with : ℕ → Result (Unit {0}) × (Locals × Desk) → Polled
    prompts_exit_with status (err e, p) = (some (broke e), p)
    prompts_exit_with status (ok _, p) = (some (exited status), last_lines p)

    abbrev pub prompts_exit : Option (ℕ × Codes) → Result (Unit {0}) × (Locals × Desk) → Polled
    prompts_exit exit (err e, p) = (some (broke e), p)
    prompts_exit none (ok _, p) = (none, p)
    prompts_exit (some (status, trailing)) (ok _, p) =
        prompts_exit_with status (take_output trailing p)

    abbrev pub prompts_answer :
        Option (ℕ × Codes) → Session → Result (Unit {0}) × (Locals × Desk) → Polled
    prompts_answer exit s (err e, p) = (some (broke e), p)
    prompts_answer exit s (ok _, p) = prompts_exit exit (give_answer s p)

    abbrev pub prompts_on : Tick → Locals → Desk → Ending ⊎ Session → Polled
    prompts_on t l d (inl e) = (some e, (l, d))
    prompts_on t l d (inr s) = prompts_answer t.exit s (take_output t.output (l, t.during d))

    -- The body of `_run_interactive_command_loop`
    unfoldable pub poll_prompts : Tick → Locals × Desk → Polled
    poll_prompts t (l, d) =
        let d' = t.before d in prompts_on t l d' (control d'.clock (session_of id d'))

    abbrev pub go_on_prompts : Polled → (Locals × Desk → Polled) → Polled
    go_on_prompts (some e, p) next = (some e, p)
    go_on_prompts (none, p) next = next p

    -- `_run_interactive_command_loop`
    unfoldable pub run_prompts : List Tick → Locals × Desk → Polled
    run_prompts [] p = (none, p)
    run_prompts (t ∷ ts) p = go_on_prompts (poll_prompts t p) (run_prompts ts)

-- The status and the event of the `except` or of the success that follows an ending.
abbrev pub final_status : Ending → Status
final_status by_cancel = Status.cancelled
final_status by_timeout = Status.expired
final_status (exited zero) = Status.completed
final_status (exited (suc n)) = Status.failed
final_status (broke e) = Status.failed

abbrev pub final_event : Ending → EventType
final_event (exited zero) = EventType.complete_event
final_event _ = EventType.error_event

abbrev pub no_locals : Locals
no_locals = record {
  buffer = [];
  saw_success_output = false;
  sensitive_values = [];
  suppressed_echoes = [];
}

module _ (c : Settings) (id : String) where
  -- The part of the `try` that runs the command. `target` is the Dokku name of the app, or the
  -- container of the Postgres service; `refused` is the error of a channel that does not open.
  unfoldable pub run_channel :
      (Codes → Option PromptMatch)
      → CommandKind
      → Option String
      → Option Error
      → List Tick
      → Desk
      → Option Ending × Desk
  run_channel match_prompt kind target (some e) ticks d = (some (broke e), d)
  run_channel match_prompt CommandKind.django_createsuperuser target none ticks d =
      let (e, (l, d')) = run_prompts c id match_prompt ticks (no_locals, d) in (e, d')
  run_channel match_prompt CommandKind.postgres_connect target none ticks d =
      if truthy target
      then run_postgres c id ticks d
      else (some (broke (runtime_error "Servico Postgres sem container_name configurado.")), d)

  -- The rest of `execute_interactive_session`: the session gets its last status.
  unfoldable pub finish : Option Ending × Desk → Option Ending × Desk
  finish (none, d) = (none, d)
  finish (some e, d) = (some e, (mark_terminal c id (final_status e) (final_event e) [] d).1)

  abbrev pub lacks_target : Session → Option String → Bool
  lacks_target s target = not (is_postgres_connect s.command_kind) && not (truthy target)

  abbrev run_session :
      (Codes → Option PromptMatch)
      → String
      → Option String
      → Option String
      → Option Error
      → List Tick
      → Desk
      → Option Session
      → Option Ending × Desk
  run_session match_prompt task_id runner_id target refused ticks d none =
      (some (broke (runtime_error "Sessao interativa nao encontrada.")), d)
  run_session match_prompt task_id runner_id target refused ticks d (some s) =
      if lacks_target s target
      then (some (broke (runtime_error "App sem name_dokku configurado.")), d)
      else finish (
          run_channel match_prompt s.command_kind target refused ticks
            (begin_session c id task_id runner_id s.claimed_at d))

  -- `execute_interactive_session`
  unfoldable pub execute_interactive_session :
      (Codes → Option PromptMatch)
      → String
      → Option String
      → Option String
      → Option Error
      → List Tick
      → Desk
      → Option Ending × Desk
  execute_interactive_session match_prompt task_id runner_id target refused ticks d =
      run_session match_prompt task_id runner_id target refused ticks d (session_of id d)
