-- ===== src/Apps/Scale.antt =====
-- applications/process_scale.py: the processes of an app, as Dokku reports them and as they are
-- saved. The letters and digits of the report are ASCII.
pub mod Parse
pub mod Sync
pub mod Reported
pub mod UseCase
pub mod Quiet
pub mod Bounds
mod Tests
use fabroku_back_end.Base.{
  ℕ, ◌+◌, ◌*◌, ◌-◌, String, Bool, true, false, not, ◌&&◌, ◌||◌, Option, none, some, List, [], ◌∷◌,
  codes, Codes, is_upper, is_lower, is_digit, leb, ltb, all, length, ◌==◌, str_eq, strip_text,
  same_lower, max, ℤ, pos, negsuc, if◌then◌else◌, ◌<>◌, or_else, find, keep_if, truthy,
}
use fabroku_back_end.Base.Dict.{Dict, insert, lookup}
use fabroku_back_end.Models.App.{App, ProcessScale}
use fabroku_back_end.Models.Errors.{raised, value_error, runtime_error, Error, decimal}
use fabroku_back_end.Runtime.World.{Env, World, Call, ps_scale, ps_scale_report, Level, Category}
use fabroku_back_end.Runtime.Effects.{
  Action, Result, ok, err, pure, raise, raise_if, gets, write, log, call, ◌>>=◌, ◌>>◌,
}
use fabroku_back_end.Dokku.{dokku_scale_output_failed}

abbrev pub is_letter_or_digit : ℕ → Bool
is_letter_or_digit c = is_upper c || is_lower c || is_digit c

-- `[A-Za-z0-9_-]`
abbrev pub is_name_char : ℕ → Bool
is_name_char c = is_letter_or_digit c || (c == b'_') || (c == b'-')

-- `PROCESS_NAME_PATTERN`
abbrev pub is_process_name : Codes → Bool
is_process_name [] = false
is_process_name (c ∷ s) = is_letter_or_digit c && all is_name_char s && leb (length s) 63

-- `IGNORED_PROCESS_NAMES`
abbrev ignored_process_name : String
ignored_process_name = "release"

unfoldable pub is_manageable_process_name : String → Bool
is_manageable_process_name process_name =
    let normalized = strip_text process_name in
    is_process_name (codes normalized) && not (same_lower normalized ignored_process_name)

-- `max(1, int(settings.APP_PROCESS_MAX_INSTANCES))`
abbrev pub get_process_max_instances : Env → ℕ
get_process_max_instances env = max 1 env.app_process_max_instances

-- `quantity`, unless `quantity < 0 or quantity > max_instances`
abbrev in_range : ℕ → ℤ → Option ℕ
in_range most (pos n) = if ltb most n then none else some n
in_range most (negsuc n) = none

abbrev web_zero : String
web_zero = "Nao e permitido definir web=0 por esta tela. Use o botao Parar para parar o app."

-- A quantity as the request holds it: what `int` refuses (no number, or a text that is none), a whole
-- number (or a text of one, or a truth value), a float that is not whole, by its sign and what is left
-- when the fraction is cut off, and an infinite float.
pub data RawQuantity : Type 0 where
  no_number infinite : RawQuantity
  whole : ℤ → RawQuantity
  fraction : Bool → ℕ → RawQuantity

-- `int(raw_quantity)`, which cuts off towards 0, or `none` where it raises TypeError or ValueError
abbrev to_int : RawQuantity → Option ℤ
to_int no_number = none
to_int infinite = none
to_int (whole n) = some n
to_int (fraction false n) = some (pos n)
to_int (fraction true ℕ.zero) = some (pos 0)
to_int (fraction true (ℕ.suc n)) = some (negsuc n)

-- The `OverflowError` of an infinite float is not caught.
abbrev is_infinite : RawQuantity → Bool
is_infinite infinite = true
is_infinite _ = false

-- The tests of one quantity, in order
unfoldable pub validate_quantity : ℕ → String → RawQuantity → Result ℕ
validate_quantity most process_name raw =
    if not (is_manageable_process_name process_name)
    then err (
        value_error (
          "Processo nao gerenciavel: "
          <> (if str_eq process_name "" then "(vazio)" else process_name)))
    else if is_infinite raw
    then err (raised "cannot convert float infinity to integer")
    else elim (to_int raw) [
      | none ↦ err (value_error ("Quantidade invalida para " <> process_name <> "."))
      | some quantity ↦ elim (in_range most quantity) [
        | none ↦ err (
            value_error
              (process_name <> " deve ficar entre 0 e " <> decimal most <> " instancias."))
        | some n ↦
            if same_lower process_name "web" && (n == 0) then err (value_error web_zero) else ok n
      ]
    ]

unfoldable pub validate_each : ℕ → Dict RawQuantity → Dict ℕ → Result (Dict ℕ)
validate_each most [] validated = ok validated
validate_each most ((raw_name, raw) ∷ rest) validated =
    let name = strip_text raw_name in
    elim (validate_quantity most name raw) [
      | ok n ↦ validate_each most rest (insert name n validated)
      | err e ↦ err e
    ]

unfoldable pub validate_process_quantities : Env → Dict RawQuantity → Result (Dict ℕ)
validate_process_quantities env [] =
    err (value_error "Informe pelo menos um processo para escalar.")
validate_process_quantities env (p ∷ processes) =
    validate_each (get_process_max_instances env) (p ∷ processes) []
