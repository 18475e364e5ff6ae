-- ===== src/Sessions/Terminal.antt =====
-- What the createsuperuser loop of core/apps/mixins/apps/interactive_run.py does with the text that
-- the remote command prints: `_emit_output_lines` and `_flush_output_buffer`.
use fabroku_back_end.Base.{
  String, Bool, true, false, not, ◌&&◌, ◌||◌, Option, none, some, List, [], ◌∷◌, Codes, any, take,
  drop, codes, if◌then◌else◌, is_infix, text_eq, map,
}
use fabroku_back_end.Runtime.Effects.{Result, ok}
use fabroku_back_end.Sessions.Model.{Desk, Settings, EventType}
use fabroku_back_end.Sessions.Strip.{strip, lower, occurs_in, split_lines, split_last}
use fabroku_back_end.Sessions.Rows.{PromptMatch}
use fabroku_back_end.Sessions.Operations.{create_event, show_prompt}

-- `SENSITIVE_OUTPUT_REDACTION`
abbrev pub sensitive_output_redaction : Codes
sensitive_output_redaction = codes "[conteudo sensivel ocultado]"

-- `INTERACTIVE_SUCCESS_MARKERS`
abbrev pub interactive_success_markers : List Codes
interactive_success_markers =
    codes "superuser created successfully"
    ∷ codes "superusuario criado com sucesso"
    ∷ codes "superusuário criado com sucesso"
    ∷ []

-- The locals of the loop.
pub record Locals : Type 0 where
  pub buffer : Codes
  pub saw_success_output : Bool
  pub sensitive_values : List Codes
  pub suppressed_echoes : List Codes

abbrev pub is_empty : Codes → Bool
is_empty [] = true
is_empty (_ ∷ _) = false

-- `any(secret and secret in line for secret in sensitive_values)`
unfoldable pub is_sensitive : List Codes → Codes → Bool
is_sensitive secrets line = any (λ s. not (is_empty s) && occurs_in s line) secrets

abbrev pub safe_line : List Codes → Codes → Codes
safe_line secrets line = if is_sensitive secrets line then sensitive_output_redaction else line

abbrev says_success : Codes → Bool
says_success line = any (λ m. occurs_in m (map lower line)) interactive_success_markers

abbrev pub is_skipped : List Codes → Codes → Bool
is_skipped echoes line = is_empty line || any (text_eq line) echoes

-- The lines that are shown, each as it is shown.
unfoldable pub shown_lines : List Codes → List Codes → List Codes → List Codes
shown_lines secrets echoes [] = []
shown_lines secrets echoes (raw ∷ lines) =
    let rest = shown_lines secrets echoes lines in
    let line = strip raw in if is_skipped echoes line then rest else safe_line secrets line ∷ rest

module _ (c : Settings) (id : String) where
  -- One OUTPUT event for each line
  unfoldable pub show_lines : List Codes → Desk → Desk
  show_lines [] d = d
  show_lines (line ∷ lines) d =
      show_lines lines (create_event c id true EventType.output_event line d)

  -- `_emit_output_lines`
  unfoldable pub emit_output_lines : Codes → Locals × Desk → Locals × Desk
  emit_output_lines text (l, d) =
      let (line, lines) = split_lines text in
      let shown = shown_lines l.sensitive_values l.suppressed_echoes (line ∷ lines) in
      (
        record l { saw_success_output = l.saw_success_output || any says_success shown },
        show_lines shown d,
      )

  abbrev pub emit_before : Codes → Locals × Desk → Locals × Desk
  emit_before [] p = p
  emit_before (k ∷ text) p = emit_output_lines (k ∷ text) p

  -- `_flush_output_buffer`; the buffer that stays is in the locals
  abbrev pub flush_on : Option PromptMatch → Locals × Desk → Result (Unit {0}) × (Locals × Desk)
  flush_on (some m) (l, d) =
      let (l', d1) = emit_before (take m.start l.buffer) (l, d) in
      let (r, d2) = show_prompt c id m d1 in (r, (record l' { buffer = drop m.end l.buffer }, d2))
  flush_on none (l, d) =
      if is_infix (10 ∷ []) l.buffer
      then (let (lines, rest) = split_last l.buffer in
          let (l', d') = emit_output_lines lines (l, d) in
          (ok tt, (record l' { buffer = rest }, d')))
      else (ok tt, (l, d))

  unfoldable pub flush_output_buffer :
      (Codes → Option PromptMatch) → Locals × Desk → Result (Unit {0}) × (Locals × Desk)
  flush_output_buffer match_prompt (l, d) = flush_on (match_prompt l.buffer) (l, d)

-- What an answer adds to the locals; `secret` was read with the control columns.
abbrev pub remember : Bool → Codes → Locals → Locals
remember secret answer l =
    let stripped = strip answer in
    if is_empty stripped then l else record l {
      suppressed_echoes = stripped ∷ l.suppressed_echoes;
      sensitive_values = if secret then stripped ∷ l.sensitive_values else l.sensitive_values;
    }
