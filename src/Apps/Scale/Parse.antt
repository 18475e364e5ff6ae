-- ===== src/Apps/Scale/Parse.antt =====
-- `parse_ps_scale_output` of applications/process_scale.py: the table of `dokku ps:scale`.
use Prim.Native.Char.{code}
use fabroku_back_end.Base.{
  ℕ, zero, suc, ◌+◌, ◌*◌, ◌-◌, ◌≡◌, refl, String, Bool, true, false, not, ◌&&◌, ◌||◌, Option, none,
  some, List, [], ◌∷◌, is_digit, is_space, leb, ◌==◌, str_eq, strip_text, if◌then◌else◌, arith,
}
use fabroku_back_end.Base.Dict.{Dict, insert, distinct, distinct-insert}
use fabroku_back_end.Apps.Scale.{is_manageable_process_name, is_name_char, is_letter_or_digit}

abbrev count_while : (ℕ → Bool) → String → ℕ
count_while p String.[] = 0
count_while p (String.◌∷◌ c s) = let n = count_while p s in if p (code c) then suc n else 0

abbrev drop_while : (ℕ → Bool) → String → String
drop_while p String.[] = String.[]
drop_while p (String.◌∷◌ c s) =
    let rest = drop_while p s in if p (code c) then rest else String.◌∷◌ c s

abbrev take_while : (ℕ → Bool) → String → String
take_while p String.[] = String.[]
take_while p (String.◌∷◌ c s) =
    let rest = take_while p s in if p (code c) then String.◌∷◌ c rest else String.[]

abbrev first_is : (ℕ → Bool) → String → Bool
first_is p String.[] = false
first_is p (String.◌∷◌ c s) = p (code c)

abbrev rest_of : String → String
rest_of String.[] = String.[]
rest_of (String.◌∷◌ c s) = s

-- The length of a match of `ANSI_PATTERN` at the start of a text, or 0.
abbrev sequence_length : String → ℕ
sequence_length s =
    let body = rest_of (rest_of s) in
    let after_first = drop_while (λ c. leb b'0' c && leb c b'?') body in
    let after_second = drop_while (λ c. leb b' ' c && leb c b'/') after_first in
    if first_is (λ c. c == 27) s
      && first_is (λ c. c == b'[') (rest_of s)
      && first_is (λ c. leb b'@' c && leb c b'~') after_second
    then 3
      + count_while (λ c. leb b'0' c && leb c b'?') body
      + count_while (λ c. leb b' ' c && leb c b'/') after_first
    else 0

-- `ANSI_PATTERN.sub('', s)`, once `n` characters are dropped.
abbrev remove_ansi : ℕ → String → String
remove_ansi n String.[] = String.[]
remove_ansi (suc n) (String.◌∷◌ c s) = remove_ansi n s
remove_ansi zero (String.◌∷◌ c s) =
    let found = sequence_length (String.◌∷◌ c s) in
    let kept = remove_ansi zero s in
    let removed = remove_ansi (found - 1) s in if found == 0 then String.◌∷◌ c kept else removed

-- A line boundary of `str.splitlines`.
abbrev is_line_break : ℕ → Bool
is_line_break c =
    (leb 10 c && leb c 13) || (leb 28 c && leb c 30) || (c == 133) || (c == 8232) || (c == 8233)

-- The first line, and the ones after it. A `\r\n` gives an empty line more than `str.splitlines`,
-- and an empty line holds no process.
abbrev split_text : String → String × List String
split_text String.[] = (String.[], [])
split_text (String.◌∷◌ c s) =
    let (line, lines) = split_text s in
    if is_line_break (code c) then (String.[], line ∷ lines) else (String.◌∷◌ c line, lines)

-- `int(quantity)` of a text of digits, `n` being what comes before them.
abbrev read_digits : ℕ → String → Option ℕ
read_digits n String.[] = some n
read_digits n (String.◌∷◌ c s) =
    let rest = read_digits (10 * n + (code c - b'0')) s in if is_digit (code c) then rest else none

-- `PROCESS_SCALE_LINE_PATTERN.match(line)`, on a line with no blanks around it
unfoldable pub parse_line : String → Option (String × ℕ)
parse_line line =
    let name = take_while is_name_char line in
    let after_name = drop_while is_space (drop_while is_name_char line) in
    let digits = drop_while is_space (rest_of after_name) in
    if first_is is_letter_or_digit line
      && first_is (λ c. c == b':') after_name
      && not (str_eq digits "")
    then elim (read_digits 0 digits) [ none ↦ none | some n ↦ some (name, n) ]
    else none

abbrev take_process : Option (String × ℕ) → Dict ℕ → Dict ℕ
take_process none processes = processes
take_process (some (name, n)) processes =
    if is_manageable_process_name name then insert name n processes else processes

abbrev parse_lines : List String → Dict ℕ → Dict ℕ
parse_lines [] processes = processes
parse_lines (raw_line ∷ lines) processes =
    parse_lines lines (take_process (parse_line (strip_text raw_line)) processes)

unfoldable pub parse_ps_scale_output : String → Dict ℕ
parse_ps_scale_output output =
    let (line, lines) = split_text (remove_ansi zero output) in parse_lines (line ∷ lines) []

distinct-take_process :
    (o : Option (String × ℕ)) (d : Dict ℕ) → distinct d ≡ true → distinct (take_process o d) ≡ true
distinct-take_process none d h = h
distinct-take_process (some (name, n)) d h = ground (arith, distinct-insert name n d h)

distinct-parse_lines :
    (lines : List String) (d : Dict ℕ) → distinct d ≡ true → distinct (parse_lines lines d) ≡ true
distinct-parse_lines [] d h = h
distinct-parse_lines (line ∷ lines) d h =
    let o = parse_line (strip_text line) in
    distinct-parse_lines lines (take_process o d) (distinct-take_process o d h)

pub distinct-parse_ps_scale_output :
    (output : String) → distinct (parse_ps_scale_output output) ≡ true
unfolding parse_ps_scale_output
distinct-parse_ps_scale_output output =
    let (line, lines) = split_text (remove_ansi zero output) in
    distinct-parse_lines (line ∷ lines) [] refl
