-- ===== src/Sessions/Rows.antt =====
-- core/apps/mixins/apps/interactive_run.py: what each transaction does to the row it has locked.
use fabroku_back_end.Base.{
  ℕ, suc, ◌+◌, String, ◌<>◌, Bool, true, false, not, ◌||◌, Option, none, some, [], ◌∷◌, holds_text,
  is_some, if◌then◌else◌, Codes,
}
use fabroku_back_end.Models.Errors.{value_error, decimal}
use fabroku_back_end.Runtime.Effects.{Result, ok, err}
use fabroku_back_end.Sessions.Model.{Session, Settings, Status, is_terminal, is_awaiting}
use fabroku_back_end.Sessions.Strip.{strip}

-- `InteractivePromptMatch` with its `InteractivePromptSpec`
pub record PromptMatch : Type 0 where
  pub key : String
  pub label : String
  pub secret : Bool
  pub text : Codes
  pub start : ℕ
  pub end : ℕ

-- A `BinaryField` is true if it is there and not empty.
abbrev pub has_bytes : Option Codes → Bool
has_bytes none = false
has_bytes (some []) = false
has_bytes (some (_ ∷ _)) = true

-- The columns of the prompt and of its answer, cleared together.
abbrev pub clear_prompt : Session → Session
clear_prompt s = record s {
  awaiting_prompt_id = none;
  awaiting_prompt_text = none;
  awaiting_prompt_secret = false;
  pending_answer_prompt_id = none;
  pending_answer_ciphertext = none;
  pending_answer_received_at = none;
}

-- The row of a session that `cleanup_expired_interactive_sessions` finds.
abbrev pub expire : ℕ → Session → Session
expire now s =
    clear_prompt
      (record s { status = Status.expired; completed_at = some now; cancel_requested = true })

-- `_mark_session_terminal`
unfoldable pub mark : ℕ → Status → Session → Session
mark now status s = clear_prompt (record s { status = status; completed_at = some now })

abbrev pub prompt_id_of : PromptMatch → Session → String
prompt_id_of m s = m.key <> "-" <> decimal (suc s.prompt_counter)

module _ (c : Settings) (now : ℕ) where
  -- `_touch_locked_session`
  unfoldable pub touch : Session → Session
  touch s = record s { last_activity_at = now; expires_at = now + c.idle_seconds }

  -- The row as `submit_interactive_session_answer` leaves it.
  abbrev pub answered : String → Codes → Session → Session
  answered prompt_id value s = touch (record s {
    pending_answer_prompt_id = some prompt_id;
    pending_answer_ciphertext = some (c.encrypt value);
    pending_answer_received_at = some now;
  })

  -- `submit_interactive_session_answer`
  unfoldable pub submit : String → Codes → Session → Result (Unit {0}) × Session
  submit prompt_id value s =
      if not (is_awaiting s.status)
      then (err (value_error "A sessao nao esta aguardando entrada neste momento."), s)
      else if not (holds_text s.awaiting_prompt_id prompt_id)
      then (err (value_error "Prompt invalido ou ja substituido por outro."), s)
      else if has_bytes s.pending_answer_ciphertext
      then (err (value_error "Ja existe uma resposta pendente para este prompt."), s)
      else (ok tt, answered prompt_id value s)

  -- The row part of `request_interactive_session_cancel`
  unfoldable pub request_cancel : Session → Session
  request_cancel s =
      if is_terminal s.status then s else touch (record s { cancel_requested = true })

  -- `_consume_interactive_session_answer`
  unfoldable pub consume_answer : Session → Option Codes × Session
  consume_answer s =
      if not (has_bytes s.pending_answer_ciphertext) || not (is_some s.awaiting_prompt_id)
      then (none, s)
      else (
        elim s.pending_answer_ciphertext [ none ↦ none | some token ↦ some (c.decrypt token) ],
        touch (clear_prompt (record s { status = Status.running })),
      )

  -- The row part of `_set_session_prompt`
  unfoldable pub set_prompt : PromptMatch → Session → Session
  set_prompt m s = touch (record s {
    prompt_counter = suc s.prompt_counter;
    status = Status.awaiting_input;
    awaiting_prompt_id = some (prompt_id_of m s);
    awaiting_prompt_text = some (strip m.text);
    awaiting_prompt_secret = m.secret;
  })

  -- The row part of `create_interactive_audit_chunk`
  unfoldable pub count_chunk : Session → Session
  count_chunk s =
      let counted = record s { audit_sequence = suc s.audit_sequence } in
      if is_terminal s.status then counted else touch counted

  abbrev or_now : Option ℕ → Option ℕ
  or_now none = some now
  or_now (some at) = some at

  -- `if runner_id:`; `claimed_at` is the one of the object that was read
  abbrev pub claim_for : Option String → Option ℕ → Session → Session
  claim_for none claimed_at s = s
  claim_for (some runner) claimed_at s = record s {
    runner_id = some runner;
    claimed_at = or_now claimed_at;
  }

  -- What `execute_interactive_session` saves before it opens the channel.
  unfoldable pub begin : String → Option String → Option ℕ → Session → Session
  begin task_id runner_id claimed_at s = touch (
      claim_for runner_id claimed_at
        (record s { task_id = some task_id; status = Status.running; started_at = some now }))
