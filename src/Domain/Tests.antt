-- ===== src/Domain/Tests.antt =====
-- Runs of applications/domain/validators.py, and the theorems at concrete data.
use fabroku_back_end.Base.{
  ◌≡◌, ◌↔◌, refl, true, [], ◌∷◌, ◌&&◌, length, leb, arith, Codes, codes, map,
}
use fabroku_back_end.Domain.Names.{slugify_dokku, validate_app_name, Verdict}
use fabroku_back_end.Domain.Slugs.{
  is_canonical, IsLower, slugify_dokku-is_canonical, validate_app_name_iff,
}
use fabroku_back_end.Domain.Variables.{
  Verdict as Answer, validate_env_var_key, validate_env_var_key_newline,
}
use fabroku_back_end.Base.{to_lower}

abbrev lower : Codes → Codes
lower s = map to_lower s

lower-IsLower : IsLower lower
lower-IsLower [] h = refl
lower-IsLower (c ∷ s) h = ground (arith, lower-IsLower s)

slugify_dokku-is_canonical_example : is_canonical (slugify_dokku lower (codes "--My  App--")) ≡ true
slugify_dokku-is_canonical_example = slugify_dokku-is_canonical lower (codes "--My  App--")

validate_app_name_iff_example : (validate_app_name lower (codes "my-app") ≡ Verdict.valid) ↔ (
    (leb 2 (length (codes "my-app"))
      && leb (length (codes "my-app")) 60
      && is_canonical (codes "my-app"))
    ≡ true)
validate_app_name_iff_example = validate_app_name_iff lower lower-IsLower (codes "my-app")

validate_env_var_key_newline_example : validate_env_var_key (codes "DEBUG\n") ≡ Answer.valid
validate_env_var_key_newline_example =
    validate_env_var_key_newline (codes "DEBUG") refl (omega arith)
