-- ===== src/Domain/Texts.antt =====
-- `slugify_dokku` of src/core/apps/utils.py on whole texts, for the names of services and apps.
use Prim.Native.Char.{Char, code}
use fabroku_back_end.Base.{ℕ, String, ◌==◌, [], ◌∷◌, Codes, codes, if◌then◌else◌}
use fabroku_back_end.Domain.Names.{slugify_dokku}

-- The character of this number in a text; a hyphen, if there is none.
abbrev char_in : ℕ → String → Char
char_in n String.[] = "-"
char_in n (String.◌∷◌ c s) = if code c == n then c else char_in n s

-- The text of a slug, which has no other characters
unfoldable pub text_of_slug : Codes → String
text_of_slug [] = String.[]
text_of_slug (n ∷ s) =
    String.◌∷◌ (char_in n "abcdefghijklmnopqrstuvwxyz0123456789") (text_of_slug s)

unfoldable pub slug_text : (Codes → Codes) → String → String
slug_text lower name = text_of_slug (slugify_dokku lower (codes name))
