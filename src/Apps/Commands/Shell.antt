-- ===== src/Apps/Commands/Shell.antt =====
-- A shell that reads a command line, and what it makes of those that are built for the container of
-- an app.
use fabroku_back_end.Base.{
  ℕ, ◌≡◌, refl, inl, inr, Bool, true, false, Option, none, some, List, [], ◌∷◌, ◌++◌, all, any,
  arith, ◌==◌, Codes, codes, ==_iff, Bool-cases, if◌then◌else◌,
}
use mathlib.Core.List.{append-nil, append_assoc}
use fabroku_back_end.Apps.Commands.Paths.{join_by}
use fabroku_back_end.Apps.Commands.{
  is_unquoted, is_safe_word, escape, quote, command_line, build_dumpdata_command,
  build_loaddata_command, build_migrate_command,
}

-- Where the shell is: between two words, in the bare part of a word, or in quotes
pub data Mode : Type 0 where
  between bare single double : Mode

-- What a character does to the words: nothing, more of a word, or its end; or the shell would
-- interpret it.
pub data Effect : Type 0 where
  skip end interpret : Effect
  push : ℕ → Effect

abbrev outside : ℕ → Effect × Mode
outside c =
    if c == 39
    then (skip, single)
    else if c == 34
    then (skip, double)
    else if is_unquoted c
    then (push c, bare)
    else (interpret, bare)

abbrev is_special : ℕ → Bool
is_special c = any (λ d. c == d) (codes "$`\\!")

abbrev step : Mode → ℕ → Effect × Mode
step between c = if c == 32 then (skip, between) else outside c
step bare c = if c == 32 then (end, between) else outside c
step single c = if c == 39 then (skip, bare) else (push c, single)
step double c =
    if c == 34 then (skip, bare) else if is_special c then (interpret, double) else (push c, double)

abbrev emit : Effect → Option (List Codes) → Option (List Codes)
emit skip words = words
emit end (some words) = some ([] ∷ words)
emit (push c) (some (word ∷ words)) = some ((c ∷ word) ∷ words)
emit _ _ = none

unfoldable pub read : Mode → Codes → Option (List Codes)
read between [] = some []
read bare [] = some ([] ∷ [])
read single [] = none
read double [] = none
read mode (c ∷ s) = let (effect, next) = step mode c in emit effect (read next s)

-- The words of a command line, if the shell interprets nothing of it
abbrev pub shell_words : Codes → Option (List Codes)
shell_words = read between

-- More characters for the first word
abbrev prepend : Codes → Option (List Codes) → Option (List Codes)
prepend [] words = words
prepend (c ∷ s) words = emit (push c) (prepend s words)

prepend-some :
    (s word : Codes) (words : List Codes)
    → prepend s (some (word ∷ words)) ≡ some ((s ++ word) ∷ words)
prepend-some [] word words = refl
prepend-some (c ∷ s) word words = rw (prepend-some s word words) refl

-- A character that needs no quotes is none of those that end a word or begin quotes.
unquoted-plain :
    (c : ℕ) → is_unquoted c ≡ true → ((c == 32) ≡ false) × ((c == 39) ≡ false) × ((c == 34) ≡ false)
unquoted-plain c safe = (ground arith, ground arith, ground arith)

unquoted-step :
    (c : ℕ)
    → is_unquoted c ≡ true
    → (step bare c ≡ (push c, bare)) × (step between c ≡ (push c, bare))
unquoted-step c safe =
    let (space, quote, quotes) = unquoted-plain c safe in
    (rw (space, quote, quotes, safe) refl, rw (space, quote, quotes, safe) refl)

read-bare : (s t : Codes) → all is_unquoted s ≡ true → read bare (s ++ t) ≡ prepend s (read bare t)
unfolding read
read-bare [] t safe = refl
read-bare (c ∷ s) t safe =
    rw ((unquoted-step c (ground (arith, safe))).0, read-bare s t (ground (arith, safe))) refl

read-escape : (s t : Codes) → read single (escape s ++ (39 ∷ t)) ≡ prepend s (read bare t)
unfolding read escape
read-escape [] t = refl
read-escape (c ∷ s) t = elim (Bool-cases (c == 39)) [
  | inl e ↦ rw ((==_iff c 39).0 e, read-escape s t) refl
  | inr e ↦ rw e (rw (e, read-escape s t) refl)
]

read-safe :
    (c : ℕ) (s t : Codes)
    → all is_unquoted (c ∷ s) ≡ true
    → read between ((c ∷ s) ++ t) ≡ prepend (c ∷ s) (read bare t)
unfolding read
read-safe c s t safe =
    rw ((unquoted-step c (ground (arith, safe))).1, read-bare s t (ground (arith, safe))) refl

read-quoted :
    (s t : Codes) → read between ((39 ∷ (escape s ++ (39 ∷ []))) ++ t) ≡ prepend s (read bare t)
unfolding read
read-quoted s t = rw (append_assoc (escape s) (39 ∷ []) t) (read-escape s t)

-- A quoted word is read as it was.
read-quote : (s t : Codes) → read between (quote s ++ t) ≡ prepend s (read bare t)
unfolding quote
read-quote [] t = read-quoted [] t
read-quote (c ∷ s) t = elim (Bool-cases (is_safe_word (c ∷ s))) [
  | inl safe ↦ rw safe (read-safe c s t (ground (arith, safe)))
  | inr odd ↦ rw odd (read-quoted (c ∷ s) t)
]

read-last : (word : Codes) → read between (quote word) ≡ some (word ∷ [])
unfolding read
read-last word =
    rw⁻¹ (append-nil (quote word))
      (rw (read-quote word [], prepend-some word [] [], append-nil word) refl)

read-next :
    (word s : Codes) (words : List Codes)
    → read between s ≡ some words
    → read between (quote word ++ (32 ∷ s)) ≡ some (word ∷ words)
unfolding read
read-next word s words h =
    rw (read-quote word (32 ∷ s), h, prepend-some word [] words, append-nil word) refl

-- The shell reads the words that a command line was made of.
read-command_line :
    (word : Codes) (words : List Codes)
    → shell_words (command_line (word ∷ words)) ≡ some (word ∷ words)
unfolding join_by
read-command_line word [] = read-last word
read-command_line word (other ∷ words) =
    read-next word (command_line (other ∷ words)) (other ∷ words) (read-command_line other words)

-- The shell reads the commands that are built for the container of an app as the words that they
-- are built of, and interprets nothing of them, whatever the path of manage.py, the fixture and the
-- arguments of dumpdata are.
pub shell_words-build :
    (manage_path fixture_path : Codes) (dump_args : List Codes) (noinput : Bool)
    → (shell_words (build_dumpdata_command manage_path dump_args)
        ≡ some (codes "python" ∷ manage_path ∷ codes "dumpdata" ∷ dump_args))
      × (shell_words (build_loaddata_command manage_path fixture_path)
          ≡ some (codes "python" ∷ manage_path ∷ codes "loaddata" ∷ fixture_path ∷ []))
      × (shell_words (build_migrate_command manage_path noinput)
          ≡ some (
              codes "python"
              ∷ manage_path
              ∷ codes "migrate"
              ∷ (if noinput then codes "--noinput" ∷ [] else [])))
unfolding build_dumpdata_command build_loaddata_command build_migrate_command
shell_words-build manage_path fixture_path dump_args noinput = (
  read-command_line (codes "python") (manage_path ∷ codes "dumpdata" ∷ dump_args),
  read-command_line (codes "python") (manage_path ∷ codes "loaddata" ∷ fixture_path ∷ []),
  read-command_line (codes "python")
      (manage_path ∷ codes "migrate" ∷ (if noinput then codes "--noinput" ∷ [] else [])),
)
