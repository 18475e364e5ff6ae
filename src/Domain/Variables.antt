-- ===== src/Domain/Variables.antt =====
-- The environment variables and process quantities of applications/domain/validators.py.
use fabroku_back_end.Base.{
  ℕ, ◌≤◌, Bool, true, false, not, ◌&&◌, ◌||◌, List, [], ◌∷◌, ◌++◌, ◌≡◌, ◌↔◌, refl, arith, all,
  length, length-append, ltb, leb, ◌==◌, Codes, is_upper, is_lower, is_digit, if◌then◌else◌,
}

-- `InvalidEnvVar`, by its reason
pub data Verdict : Type 0 where
  valid key_empty key_too_long key_malformed value_too_long too_many : Verdict
  not_an_integer negative above_five : Verdict

abbrev pub is_letter : ℕ → Bool
is_letter c = is_upper c || is_lower c || (c == b'_')

abbrev pub is_word : ℕ → Bool
is_word c = is_letter c || is_digit c

-- `[A-Za-z0-9_]*$`; `$` matches before a last line break too
unfoldable pub matches_tail : Codes → Bool
matches_tail [] = true
matches_tail (c ∷ []) = is_word c || (c == 10)
matches_tail (c ∷ d ∷ s) = is_word c && matches_tail (d ∷ s)

-- `ENV_VAR_KEY_PATTERN.match`
unfoldable pub matches_key : Codes → Bool
matches_key [] = false
matches_key (c ∷ s) = is_letter c && matches_tail s

-- `validate_env_var_key`
unfoldable pub validate_env_var_key : Codes → Verdict
validate_env_var_key [] = Verdict.key_empty
validate_env_var_key (c ∷ s) =
    if ltb 128 (length (c ∷ s))
    then Verdict.key_too_long
    else if not (matches_key (c ∷ s))
    then Verdict.key_malformed
    else Verdict.valid

-- `validate_env_var_value`
unfoldable pub validate_env_var_value : Codes → Verdict
validate_env_var_value value =
    if ltb 8192 (length value) then Verdict.value_too_long else Verdict.valid

abbrev pub is_valid : Verdict → Bool
is_valid Verdict.valid = true
is_valid _ = false

-- The first complaint
abbrev and_then : Verdict → Verdict → Verdict
and_then Verdict.valid v = v
and_then u v = u

abbrev pub validate_each : List (Codes × Codes) → Verdict
validate_each [] = Verdict.valid
validate_each ((key, value) ∷ d) =
    and_then (validate_env_var_key key) (and_then (validate_env_var_value value) (validate_each d))

-- `validate_env_vars`
unfoldable pub validate_env_vars : List (Codes × Codes) → Verdict
validate_env_vars d = if ltb 100 (length d) then Verdict.too_many else validate_each d

-- A quantity as Python holds it: no integer, `-n - 1`, or `n`
pub data Quantity : Type 0 where
  no_integer : Quantity
  below_zero count : ℕ → Quantity

abbrev validate_quantity : Quantity → Verdict
validate_quantity no_integer = Verdict.not_an_integer
validate_quantity (below_zero n) = Verdict.negative
validate_quantity (count n) = if ltb 5 n then Verdict.above_five else Verdict.valid

-- `validate_process_quantities`
unfoldable pub validate_process_quantities : List (Codes × Quantity) → Verdict
validate_process_quantities [] = Verdict.valid
validate_process_quantities ((name, q) ∷ d) =
    and_then (validate_quantity q) (validate_process_quantities d)

abbrev is_key : Codes → Bool
is_key [] = false
is_key (c ∷ s) = is_letter c && all is_word s

matches_tail-newline : (s : Codes) → all is_word s ≡ true → matches_tail (s ++ (10 ∷ [])) ≡ true
unfolding matches_tail
matches_tail-newline [] h = refl
matches_tail-newline (c ∷ []) h = ground arith
matches_tail-newline (c ∷ d ∷ s) h = ground (arith, matches_tail-newline (d ∷ s))

-- A key of letters, digits and underscores that starts with no digit, of at most 127 characters, is
-- accepted with a line break after it.
pub validate_env_var_key_newline :
    (key : Codes)
    → is_key key ≡ true
    → length key ≤ 127
    → validate_env_var_key (key ++ (10 ∷ [])) ≡ Verdict.valid
unfolding validate_env_var_key matches_key
validate_env_var_key_newline [] h few = cc
validate_env_var_key_newline (c ∷ s) h few =
    ground (arith, matches_tail-newline s, length-append s (10 ∷ []))

-- What `validate_env_var_key` asks of a key, but for the line break.
validate_each-all :
    (d : List (Codes × Codes))
    → (validate_each d ≡ Verdict.valid) ↔ (
        all (λ p. is_valid (validate_env_var_key p.0) && is_valid (validate_env_var_value p.1)) d
        ≡ true)
validate_each-all [] = (λ h. refl, λ h. refl)
validate_each-all ((key, value) ∷ d) =
    let (to, from) = validate_each-all d in (λ h. ground (arith, to), λ h. ground (arith, from))

-- `validate_env_vars` accepts a dictionary if and only if it has at most 100 entries and each key
-- and each value is accepted.
pub validate_env_vars_iff :
    (d : List (Codes × Codes))
    → (validate_env_vars d ≡ Verdict.valid) ↔ (
        (leb (length d) 100
          && all
              (λ p. is_valid (validate_env_var_key p.0) && is_valid (validate_env_var_value p.1))
              d)
        ≡ true)
unfolding validate_env_vars
validate_env_vars_iff d =
    let (to, from) = validate_each-all d in (λ h. ground (arith, to), λ h. ground (arith, from))
