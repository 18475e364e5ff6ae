-- ===== src/Apps/Commands/Paths.antt =====
-- Paths as src/core/apps/mixins/apps/run_data.py reads them: `str.strip`, `str.replace` and
-- `PurePosixPath` on lists of characters.
use fabroku_back_end.Base.{
  ℕ, Bool, true, false, not, ◌&&◌, ◌||◌, List, [], ◌∷◌, ◌++◌, keep_if, ◌==◌, is_upper, is_lower,
  is_digit, is_space, Codes, codes, text_eq, if◌then◌else◌,
}

abbrev pub is_blank : Codes → Bool
is_blank [] = true
is_blank (_ ∷ _) = false

unfoldable pub lstrip : Codes → Codes
lstrip [] = []
lstrip (c ∷ s) = let rest = lstrip s in if is_space c then rest else c ∷ s

unfoldable pub rstrip : Codes → Codes
rstrip [] = []
rstrip (c ∷ s) = let rest = rstrip s in if is_space c && is_blank rest then [] else c ∷ rest

abbrev pub strip : Codes → Codes
strip s = rstrip (lstrip s)

-- `s.replace('\\', '/')`
unfoldable pub slashes : Codes → Codes
slashes [] = []
slashes (c ∷ s) = (if c == 92 then b'/' else c) ∷ slashes s

-- A character of `SAFE_RUN_PATH_CHARS`
abbrev pub is_run_char : ℕ → Bool
is_run_char c =
    is_lower c
    || is_upper c
    || is_digit c
    || (c == b'.')
    || (c == b'_')
    || (c == b'-')
    || (c == b'/')

abbrev pub add_to_head : ℕ → List Codes → List Codes
add_to_head c [] = (c ∷ []) ∷ []
add_to_head c (part ∷ parts) = (c ∷ part) ∷ parts

-- `s.split('/')`
unfoldable pub split_path : Codes → List Codes
split_path [] = [] ∷ []
split_path (c ∷ s) = let rest = split_path s in if c == b'/' then [] ∷ rest else add_to_head c rest

abbrev pub is_plain : Codes → Bool
is_plain part = not (is_blank part) && not (text_eq (codes ".") part)

-- `PurePosixPath(s).parts`, of a path that does not start with a slash
abbrev pub parts_of : Codes → List Codes
parts_of s = keep_if is_plain (split_path s)

unfoldable pub join_by : ℕ → List Codes → Codes
join_by c [] = []
join_by c (part ∷ []) = part
join_by c (part ∷ other ∷ parts) = part ++ (c ∷ join_by c (other ∷ parts))

-- `str(path)`
unfoldable pub path_text : List Codes → Codes
path_text [] = codes "."
path_text (part ∷ parts) = join_by b'/' (part ∷ parts)

-- `path.name`
unfoldable pub name_of : List Codes → Codes
name_of [] = []
name_of (part ∷ []) = part
name_of (part ∷ other ∷ parts) = name_of (other ∷ parts)

-- `s.endswith(suffix)`
unfoldable pub is_suffix : Codes → Codes → Bool
is_suffix suffix [] = text_eq suffix []
is_suffix suffix (c ∷ s) = text_eq suffix (c ∷ s) || is_suffix suffix s
