-- ===== src/Base/Text.antt =====
-- Texts walked character by character, as lists of code points.
use Prim.Native.Nat.{ℕ, zero, suc, ◌+◌}
use Prim.Native.Char.{Char, code}
use Prim.Native.String.{String}
use text.Mathlib.Text.{◌==◌ as str_eq}
use mathlib.Core.Bool.{Bool, true, false, ◌&&◌, ◌||◌}
use mathlib.Core.List.{List, [], ◌∷◌, map}
use fabroku_back_end.Base.Tests.{leb, ◌==◌, if◌then◌else◌}

abbrev pub Codes : Type 0
Codes = List ℕ

abbrev pub codes : String → Codes
codes String.[] = []
codes (String.◌∷◌ c s) = code c ∷ codes s

-- `s[:n]`
unfoldable pub truncate : ℕ → String → String
truncate zero s = String.[]
truncate (suc n) String.[] = String.[]
truncate (suc n) (String.◌∷◌ c s) = String.◌∷◌ c (truncate n s)

abbrev pub is_upper : ℕ → Bool
is_upper c = leb b'A' c && leb c b'Z'

abbrev pub is_lower : ℕ → Bool
is_lower c = leb b'a' c && leb c b'z'

abbrev pub is_digit : ℕ → Bool
is_digit c = leb b'0' c && leb c b'9'

-- `str.lower` on one ASCII character; the markers searched for are ASCII.
abbrev pub to_lower : ℕ → ℕ
to_lower c = if is_upper c then c + 32 else c

abbrev pub text_eq : Codes → Codes → Bool
text_eq [] [] = true
text_eq (a ∷ s) (b ∷ t) = (a == b) && text_eq s t
text_eq _ _ = false

abbrev pub is_prefix : Codes → Codes → Bool
is_prefix [] t = true
is_prefix (a ∷ s) [] = false
is_prefix (a ∷ s) (b ∷ t) = (a == b) && is_prefix s t

-- One list of characters within another.
abbrev pub is_infix : Codes → Codes → Bool
is_infix s [] = is_prefix s []
is_infix s (b ∷ t) = is_prefix s (b ∷ t) || is_infix s t

-- `marker in text.lower()`
unfoldable pub lower_contains : String → String → Bool
lower_contains marker text = is_infix (codes marker) (map to_lower (codes text))

-- `marker in text`, minding the case
unfoldable pub text_contains : String → String → Bool
text_contains marker text = is_infix (codes marker) (codes text)

-- `str.isspace` of one character
abbrev pub is_space : ℕ → Bool
is_space c =
    (leb 9 c && leb c 13)
    || (leb 28 c && leb c 32)
    || (c == 133)
    || (c == 160)
    || (c == 5760)
    || (leb 8192 c && leb c 8202)
    || (c == 8232)
    || (c == 8233)
    || (c == 8239)
    || (c == 8287)
    || (c == 12288)

-- `s.lstrip()`
abbrev lstrip_text : String → String
lstrip_text String.[] = String.[]
lstrip_text (String.◌∷◌ c s) =
    let rest = lstrip_text s in if is_space (code c) then rest else String.◌∷◌ c s

-- `s.rstrip()`
abbrev rstrip_text : String → String
rstrip_text String.[] = String.[]
rstrip_text (String.◌∷◌ c s) =
    let rest = rstrip_text s in
    if is_space (code c) && str_eq rest "" then String.[] else String.◌∷◌ c rest

-- `s.strip()`
unfoldable pub strip_text : String → String
strip_text s = rstrip_text (lstrip_text s)

-- Two texts alike but for the case of their ASCII letters.
unfoldable pub same_lower : String → String → Bool
same_lower s t = text_eq (map to_lower (codes s)) (map to_lower (codes t))

abbrev swap_char : Char → String → String → Char
swap_char c (String.◌∷◌ a s) (String.◌∷◌ b t) = if code c == code a then b else swap_char c s t
swap_char c _ _ = c

-- `s.lower()`, on the ASCII letters
unfoldable pub lower_text : String → String
lower_text String.[] = String.[]
lower_text (String.◌∷◌ c s) =
    String.◌∷◌ (swap_char c "ABCDEFGHIJKLMNOPQRSTUVWXYZ" "abcdefghijklmnopqrstuvwxyz")
      (lower_text s)

-- `s.upper()`, on the ASCII letters
unfoldable pub upper_text : String → String
upper_text String.[] = String.[]
upper_text (String.◌∷◌ c s) =
    String.◌∷◌ (swap_char c "abcdefghijklmnopqrstuvwxyz" "ABCDEFGHIJKLMNOPQRSTUVWXYZ")
      (upper_text s)
