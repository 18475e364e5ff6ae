-- ===== src/Apps/Commands/Safety.antt =====
-- What the validators of paths leave to the shell: nothing that it interprets.
use fabroku_back_end.Base.{
  ◌≡◌, refl, Bool, true, false, not, ◌&&◌, Option, List, [], ◌∷◌, map, all, arith, Codes, codes,
  text_eq, to_lower, if◌then◌else◌,
}
use fabroku_back_end.Apps.Commands.Paths.{
  is_blank, is_run_char, is_plain, split_path, parts_of, path_text, name_of, is_suffix,
}
use fabroku_back_end.Apps.Commands.{
  Complaint, Checked, accepted, refused, is_absolute, has_parent, has_invisible, is_no_file,
  check_manage_path, validate_manage_path, check_fixture_path, validate_loaddata_fixture_path,
}
use fabroku_back_end.Apps.Commands.Parts.{
  is_part, is_path_word, has_no_slash, all-parts_of, join_by-is_path_word, split_path-join_by,
  has_no_slash-split_path, all-kept, all-plain,
}

-- A relative path of safe characters that does not climb out of its directory
abbrev pub IsRunPath : Codes → Type 0
IsRunPath path =
    (is_path_word path ≡ true)
    × (all is_plain (split_path path) ≡ true)
    × (has_parent (split_path path) ≡ false)

-- Parts that name a file make such a path.
parts-IsRunPath :
    (parts : List Codes)
    → is_blank (name_of parts) ≡ false
    → all is_part parts ≡ true
    → all has_no_slash parts ≡ true
    → all is_plain parts ≡ true
    → has_parent parts ≡ false
    → IsRunPath (path_text parts) × (split_path (path_text parts) ≡ parts)
unfolding path_text name_of
parts-IsRunPath [] named h slashless plain inside = cc
parts-IsRunPath (part ∷ parts) named h slashless plain inside =
    let same = split_path-join_by part parts slashless in
    ((join_by-is_path_word part parts h, rw same plain, rw same inside), same)

path_text-IsRunPath :
    (s : Codes)
    → is_blank (name_of (parts_of s)) ≡ false
    → all is_run_char s ≡ true
    → has_parent (parts_of s) ≡ false
    → IsRunPath (path_text (parts_of s)) × (split_path (path_text (parts_of s)) ≡ parts_of s)
path_text-IsRunPath s named safe inside =
    parts-IsRunPath (parts_of s) named (all-parts_of s safe)
      (all-kept has_no_slash is_plain (split_path s) (has_no_slash-split_path s))
      (all-plain (split_path s)) inside

abbrev guards : List (Bool × Complaint) → Checked Codes → Checked Codes
guards [] checked = checked
guards ((b, e) ∷ gs) checked = if b then refused e else guards gs checked

-- What is accepted has passed every check.
guards-accepted :
    (gs : List (Bool × Complaint)) (s path : Codes)
    → guards gs (accepted s) ≡ accepted path
    → (all (λ g. not g.0) gs ≡ true) × (s ≡ path)
guards-accepted [] s path h = (refl, cc)
guards-accepted ((true, e) ∷ gs) s path h = cc
guards-accepted ((false, e) ∷ gs) s path h = guards-accepted gs s path h

-- What the checks say one by one
seven :
    (a b c d e f g : Bool)
    → (not a && (not b && (not c && (not (not d) && (not e && (not f && (not (not g) && true)))))))
      ≡ true
    → (d ≡ true) × (e ≡ false) × (f ≡ false) × (g ≡ true)
seven a b c d e f g h = (ground arith, ground arith, ground arith, ground arith)

five :
    (a b d e g : Bool)
    → (not a && (not b && (not (not d) && (not e && (not (not g) && true))))) ≡ true
    → (d ≡ true) × (e ≡ false) × (g ≡ true)
five a b d e g h = (ground arith, ground arith, ground arith)

named : (name : Codes) → is_no_file name ≡ false → is_blank name ≡ false
named [] h = cc
named (c ∷ name) h = refl

manage_named : (name : Codes) → text_eq name (codes "manage.py") ≡ true → is_blank name ≡ false
manage_named [] h = cc
manage_named (c ∷ name) h = refl

check_fixture_path-IsRunPath :
    (s path : Codes)
    → check_fixture_path s ≡ accepted path
    → IsRunPath path × (is_suffix (codes ".json") (map to_lower (name_of (split_path path))) ≡ true)
unfolding check_fixture_path
check_fixture_path-IsRunPath s path h =
    let name = name_of (parts_of s) in
    let inside = has_parent (parts_of s) in
    let json = is_suffix (codes ".json") (map to_lower name) in
    let (passed, same) =
      guards-accepted
        ((is_blank s, Complaint.empty)
          ∷ (is_absolute s, Complaint.absolute)
          ∷ (has_invisible s, Complaint.invisible)
          ∷ (not (all is_run_char s), Complaint.bad_characters)
          ∷ (inside, Complaint.parent)
          ∷ (is_no_file name, Complaint.no_file)
          ∷ (not json, Complaint.wrong_file)
          ∷ [])
        (path_text (parts_of s)) path h in
    let facts =
      seven (is_blank s) (is_absolute s) (has_invisible s) (all is_run_char s) inside
        (is_no_file name) json passed in
    let found = path_text-IsRunPath s (named name facts.2) facts.0 facts.1 in
    rw⁻¹ same (found.0, rw found.1 facts.3)

check_manage_path-IsRunPath :
    (s path : Codes) → check_manage_path s ≡ accepted path → IsRunPath path
unfolding check_manage_path
check_manage_path-IsRunPath s path h =
    let name = name_of (parts_of s) in
    let inside = has_parent (parts_of s) in
    let file = text_eq name (codes "manage.py") in
    let (passed, same) =
      guards-accepted
        ((is_blank s, Complaint.empty)
          ∷ (is_absolute s, Complaint.absolute)
          ∷ (not (all is_run_char s), Complaint.bad_characters)
          ∷ (inside, Complaint.parent)
          ∷ (not file, Complaint.wrong_file)
          ∷ [])
        (path_text (parts_of s)) path h in
    let facts = five (is_blank s) (is_absolute s) (all is_run_char s) inside file passed in
    rw⁻¹ same (path_text-IsRunPath s (manage_named name facts.2) facts.0 facts.1).0

-- A path of manage.py, or of a fixture, that is accepted has only letters, digits, `.`, `_`, `-` and
-- `/`, none of its parts is empty, `.` or `..`, so it is relative and stays within the directory of
-- the app, and the name of a fixture ends in `.json`, minding no case.
pub paths-IsRunPath :
    (manage_path fixture_path : Option Codes) (manage fixture : Codes)
    → validate_manage_path manage_path ≡ accepted manage
    → validate_loaddata_fixture_path fixture_path ≡ accepted fixture
    → IsRunPath manage
      × IsRunPath fixture
      × (is_suffix (codes ".json") (map to_lower (name_of (split_path fixture))) ≡ true)
unfolding validate_manage_path validate_loaddata_fixture_path
paths-IsRunPath manage_path fixture_path manage fixture m f =
    let (safe, json) = check_fixture_path-IsRunPath _ fixture f in
    (check_manage_path-IsRunPath _ manage m, safe, json)
