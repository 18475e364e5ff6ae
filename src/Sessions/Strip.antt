-- ===== src/Sessions/Strip.antt =====
-- Python's `str.strip`, `str.split('\n')`, `str.lower` and `in`, on code points.
use fabroku_back_end.Base.{
  ℕ, ◌+◌, Bool, not, ◌&&◌, ◌||◌, List, [], ◌∷◌, reverse, ◌==◌, leb, Codes, if◌then◌else◌, is_prefix,
  is_infix, is_space,
}

abbrev lstrip : Codes → Codes
lstrip [] = []
lstrip (c ∷ s) = let rest = lstrip s in if is_space c then rest else c ∷ s

unfoldable pub strip : Codes → Codes
strip s = reverse (lstrip (reverse (lstrip s)))

-- `str.lower` on ASCII and the letters of Latin-1
abbrev pub lower : ℕ → ℕ
lower c = if (leb 65 c && leb c 90) || (leb 192 c && leb c 222 && not (c == 215)) then c + 32 else c

-- `marker in s`
unfoldable pub occurs_in : Codes → Codes → Bool
occurs_in marker s = is_infix marker s

-- `s.split('\n')`: the first line, and the ones after it
unfoldable pub split_lines : Codes → Codes × List Codes
split_lines [] = ([], [])
split_lines (c ∷ s) =
    let (line, lines) = split_lines s in if c == 10 then ([], line ∷ lines) else (c ∷ line, lines)

-- `'\n'.join(lines[:-1])` and `lines[-1]`, by the last line break
unfoldable pub split_last : Codes → Codes × Codes
split_last [] = ([], [])
split_last (c ∷ s) =
    let (lines, rest) = split_last s in
    if is_infix (10 ∷ []) s then (c ∷ lines, rest) else if c == 10 then ([], s) else ([], c ∷ s)

-- `_normalize_terminal_output`: `\r\n` first, then a single `\r`
unfoldable pub normalize : Codes → Codes
normalize [] = []
normalize (c ∷ s) =
    let rest = normalize s in
    if c == 13 then (if is_prefix (10 ∷ []) s then rest else 10 ∷ rest) else c ∷ rest
