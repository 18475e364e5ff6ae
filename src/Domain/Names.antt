-- ===== src/Domain/Names.antt =====
-- `slugify_dokku` of core/apps/utils.py; `validate_app_name` and `validate_app_name_available` of
-- applications/domain/validators.py. `str.lower` is a parameter.
use fabroku_back_end.Base.{
  ℕ, Bool, true, false, not, ◌&&◌, ◌||◌, [], ◌∷◌, map, length, ltb, ◌==◌, Codes, codes, text_eq,
  is_prefix, is_lower, is_digit, if◌then◌else◌,
}

-- A character of `[a-z0-9\-]`
abbrev pub is_slug_char : ℕ → Bool
is_slug_char c = is_lower c || is_digit c || (c == b'-')

abbrev pub slug_char : ℕ → ℕ
slug_char c = if is_slug_char c then c else b'-'

abbrev pub starts_hyphen : Codes → Bool
starts_hyphen [] = false
starts_hyphen (c ∷ s) = c == b'-'

-- `re.sub(r'-+', '-', name)`
unfoldable pub collapse : Codes → Codes
collapse [] = []
collapse (c ∷ s) =
    let rest = collapse s in if (c == b'-') && starts_hyphen s then rest else c ∷ rest

unfoldable pub lstrip_hyphens : Codes → Codes
lstrip_hyphens [] = []
lstrip_hyphens (c ∷ s) = let rest = lstrip_hyphens s in if c == b'-' then rest else c ∷ s

abbrev pub is_empty : Codes → Bool
is_empty [] = true
is_empty (_ ∷ _) = false

unfoldable pub rstrip_hyphens : Codes → Codes
rstrip_hyphens [] = []
rstrip_hyphens (c ∷ s) =
    let rest = rstrip_hyphens s in if (c == b'-') && is_empty rest then [] else c ∷ rest

-- `validate_app_name` raises `InvalidEnvVar`, for one of these reasons.
pub data Verdict : Type 0 where
  valid empty too_short too_long bad_characters not_canonical reserved : Verdict

-- `APP_NAME_PATTERN.match`: `$` matches before a last line break too
unfoldable pub matches_app_name : Codes → Bool
matches_app_name [] = false
matches_app_name (c ∷ []) = is_slug_char c
matches_app_name (c ∷ d ∷ []) = is_slug_char c && (is_slug_char d || (d == 10))
matches_app_name (c ∷ d ∷ e ∷ s) = is_slug_char c && matches_app_name (d ∷ e ∷ s)

module _ (lower : Codes → Codes) where
  -- `slugify_dokku`
  unfoldable pub slugify_dokku : Codes → Codes
  slugify_dokku name = rstrip_hyphens (lstrip_hyphens (collapse (map slug_char (lower name))))

  -- `validate_app_name`
  unfoldable pub validate_app_name : Codes → Verdict
  validate_app_name name =
      if is_empty name
      then Verdict.empty
      else if ltb (length name) 2
      then Verdict.too_short
      else if ltb 60 (length name)
      then Verdict.too_long
      else if not (matches_app_name name)
      then Verdict.bad_characters
      else if not (text_eq (slugify_dokku name) name)
      then Verdict.not_canonical
      else Verdict.valid

  -- `validate_app_name_available`, with `RESERVED_APP_NAME_PREFIXES`
  unfoldable pub validate_app_name_available : Codes → Verdict
  validate_app_name_available name =
      if text_eq (lower name) (codes "fabroku") || is_prefix (codes "fabroku-") (lower name)
      then Verdict.reserved
      else Verdict.valid
