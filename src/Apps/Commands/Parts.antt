-- ===== src/Apps/Commands/Parts.antt =====
-- The parts of a path of safe characters, joined and split again.
use fabroku_back_end.Base.{
  ℕ, ◌≡◌, refl, Bool, true, false, not, ◌&&◌, List, [], ◌∷◌, ◌++◌, all, keep_if, all-append, arith,
  ◌==◌, Codes,
}
use fabroku_back_end.Apps.Commands.Paths.{
  is_blank, is_run_char, is_plain, add_to_head, split_path, parts_of, join_by, path_text,
}

abbrev pub all_run : List Codes → Bool
all_run = all (all is_run_char)

all_run-add_to_head :
    (c : ℕ) (parts : List Codes)
    → is_run_char c ≡ true
    → all_run parts ≡ true
    → all_run (add_to_head c parts) ≡ true
all_run-add_to_head c [] safe rest = ground arith
all_run-add_to_head c (part ∷ parts) safe rest = ground arith

all_run-split_path : (s : Codes) → all is_run_char s ≡ true → all_run (split_path s) ≡ true
unfolding split_path
all_run-split_path [] safe = refl
all_run-split_path (c ∷ s) safe =
    grind (arith, all_run-split_path s, all_run-add_to_head c (split_path s))

all-keep_if :
    (p q : Codes → Bool) (parts : List Codes)
    → all p parts ≡ true
    → all (λ x. p x && q x) (keep_if q parts) ≡ true
all-keep_if p q [] h = refl
all-keep_if p q (part ∷ parts) h = ground (arith, all-keep_if p q parts)

-- A part that a path may have
abbrev pub is_part : Codes → Bool
is_part part = all is_run_char part && is_plain part

pub all-parts_of : (s : Codes) → all is_run_char s ≡ true → all is_part (parts_of s) ≡ true
all-parts_of s safe =
    all-keep_if (all is_run_char) is_plain (split_path s) (all_run-split_path s safe)

-- A word that goes to the shell as it is, and is no more than a path
abbrev pub is_path_word : Codes → Bool
is_path_word s = not (is_blank s) && all is_run_char s

pub join_by-is_path_word :
    (part : Codes) (parts : List Codes)
    → all is_part (part ∷ parts) ≡ true
    → is_path_word (join_by b'/' (part ∷ parts)) ≡ true
unfolding join_by
join_by-is_path_word part [] h = ground arith
join_by-is_path_word (c ∷ part) (other ∷ parts) h = grind (
  arith,
  join_by-is_path_word other parts,
  all-append is_run_char part (b'/' ∷ join_by b'/' (other ∷ parts)),
)
join_by-is_path_word [] (other ∷ parts) h = ground arith

pub path_text-is_path_word :
    (parts : List Codes) → all is_part parts ≡ true → is_path_word (path_text parts) ≡ true
unfolding path_text
path_text-is_path_word [] h = refl
path_text-is_path_word (part ∷ parts) h = join_by-is_path_word part parts h

unfoldable pub has_no_slash : Codes → Bool
has_no_slash = all (λ c. not (c == b'/'))

split_path-slash :
    (part s : Codes)
    → has_no_slash part ≡ true
    → split_path (part ++ (b'/' ∷ s)) ≡ part ∷ split_path s
unfolding split_path has_no_slash
split_path-slash [] s h = refl
split_path-slash (c ∷ part) s h = grind (arith, split_path-slash part s)

split_path-last : (part : Codes) → has_no_slash part ≡ true → split_path part ≡ part ∷ []
unfolding split_path has_no_slash
split_path-last [] h = refl
split_path-last (c ∷ part) h = grind (arith, split_path-last part)

-- What is joined by slashes splits into the same parts.
pub split_path-join_by :
    (part : Codes) (parts : List Codes)
    → all has_no_slash (part ∷ parts) ≡ true
    → split_path (join_by b'/' (part ∷ parts)) ≡ part ∷ parts
unfolding join_by
split_path-join_by part [] h = split_path-last part (ground arith)
split_path-join_by part (other ∷ parts) h =
    grind
      (arith, split_path-slash part (join_by b'/' (other ∷ parts)), split_path-join_by other parts)

has_no_slash-add_to_head :
    (c : ℕ) (parts : List Codes)
    → (c == b'/') ≡ false
    → all has_no_slash parts ≡ true
    → all has_no_slash (add_to_head c parts) ≡ true
unfolding has_no_slash
has_no_slash-add_to_head c [] other h = ground arith
has_no_slash-add_to_head c (part ∷ parts) other h = ground arith

pub has_no_slash-split_path : (s : Codes) → all has_no_slash (split_path s) ≡ true
unfolding split_path has_no_slash
has_no_slash-split_path [] = refl
has_no_slash-split_path (c ∷ s) =
    grind (arith, has_no_slash-split_path s, has_no_slash-add_to_head c (split_path s))

pub all-kept :
    (p q : Codes → Bool) (parts : List Codes) → all p parts ≡ true → all p (keep_if q parts) ≡ true
all-kept p q [] h = refl
all-kept p q (part ∷ parts) h = ground (arith, all-kept p q parts)

pub all-plain : (parts : List Codes) → all is_plain (keep_if is_plain parts) ≡ true
all-plain [] = refl
all-plain (part ∷ parts) = ground (arith, all-plain parts)
