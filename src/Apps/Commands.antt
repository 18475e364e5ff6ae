-- ===== src/Apps/Commands.antt =====
-- What may run in the container of an app: src/core/apps/mixins/apps/run_command.py and the
-- validators and command lines of run_data.py beside it. Texts are lists of characters; str() of an
-- argument is taken before.
pub mod Paths
pub mod Parts
pub mod Safety
pub mod Shell
pub mod Allowed
pub mod Tests
use fabroku_back_end.Base.{
  ℕ, Bool, true, false, not, ◌&&◌, ◌||◌, Option, none, some, List, [], ◌∷◌, ◌++◌, map, all, any,
  length, ltb, ◌==◌, Codes, codes, text_eq, is_prefix, is_infix, to_lower, if◌then◌else◌,
}
use fabroku_back_end.Apps.Commands.Paths.{
  is_blank, strip, slashes, is_run_char, is_plain, split_path, parts_of, join_by, path_text,
  name_of, is_suffix,
}

-- A `ValueError`, by its reason
pub data Complaint : Type 0 where
  empty absolute invisible bad_characters parent no_file wrong_file : Complaint
  no_list too_many empty_argument output_argument dangerous : Complaint

pub data Checked {ℓ} (A : Type ℓ) : Type ℓ where
  accepted : A → Checked A
  refused : Complaint → Checked A

-- `DANGEROUS_DUMP_ARG_PARTS`
abbrev dangerous_dump_arg_parts : List Codes
dangerous_dump_arg_parts =
    codes "&&"
    ∷ codes "||"
    ∷ codes ";"
    ∷ codes "|"
    ∷ codes ">"
    ∷ codes "<"
    ∷ codes "`"
    ∷ codes "$("
    ∷ (10 ∷ [])
    ∷ (13 ∷ [])
    ∷ (0 ∷ [])
    ∷ []

-- `path.startswith(('/', '~')) or ':' in path`
abbrev pub is_absolute : Codes → Bool
is_absolute s = is_prefix (codes "/") s || is_prefix (codes "~") s || is_infix (codes ":") s

abbrev pub has_parent : List Codes → Bool
has_parent = any (text_eq (codes ".."))

-- What `validate_manage_path` says of the normalized text
unfoldable pub check_manage_path : Codes → Checked Codes
check_manage_path s =
    if is_blank s
    then refused Complaint.empty
    else if is_absolute s
    then refused Complaint.absolute
    else if not (all is_run_char s)
    then refused Complaint.bad_characters
    else if has_parent (parts_of s)
    then refused Complaint.parent
    else if not (text_eq (name_of (parts_of s)) (codes "manage.py"))
    then refused Complaint.wrong_file
    else accepted (path_text (parts_of s))

abbrev or_default : Codes → Option Codes → Codes
or_default d none = d
or_default d (some []) = d
or_default d (some (c ∷ s)) = c ∷ s

-- `validate_manage_path`
unfoldable pub validate_manage_path : Option Codes → Checked Codes
validate_manage_path raw = check_manage_path (slashes (strip (or_default (codes "manage.py") raw)))

abbrev has_invisible : Codes → Bool
has_invisible = any (λ c. (c == 10) || (c == 13) || (c == 0))

abbrev is_no_file : Codes → Bool
is_no_file name = is_blank name || text_eq name (codes ".") || text_eq name (codes "..")

-- What `validate_loaddata_fixture_path` says of the normalized text, whose letters are ASCII where
-- they are lowered
unfoldable pub check_fixture_path : Codes → Checked Codes
check_fixture_path s =
    if is_blank s
    then refused Complaint.empty
    else if is_absolute s
    then refused Complaint.absolute
    else if has_invisible s
    then refused Complaint.invisible
    else if not (all is_run_char s)
    then refused Complaint.bad_characters
    else if has_parent (parts_of s)
    then refused Complaint.parent
    else if is_no_file (name_of (parts_of s))
    then refused Complaint.no_file
    else if not (is_suffix (codes ".json") (map to_lower (name_of (parts_of s))))
    then refused Complaint.wrong_file
    else accepted (path_text (parts_of s))

-- `validate_loaddata_fixture_path`
unfoldable pub validate_loaddata_fixture_path : Option Codes → Checked Codes
validate_loaddata_fixture_path raw = check_fixture_path (slashes (strip (or_default [] raw)))

-- `raw_args`: `None` or the empty text, what is no list, or a list
pub data RawArgs : Type 0 where
  nothing no_args_list : RawArgs
  args : List Codes → RawArgs

unfoldable pub check_dump_arg : Codes → Checked Codes
check_dump_arg arg =
    if is_blank arg
    then refused Complaint.empty_argument
    else if text_eq arg (codes "--output")
        || text_eq arg (codes "-o")
        || is_prefix (codes "--output=") arg
    then refused Complaint.output_argument
    else if any (λ part. is_infix part arg) dangerous_dump_arg_parts
    then refused Complaint.dangerous
    else accepted arg

abbrev cons_checked : Checked Codes → Checked (List Codes) → Checked (List Codes)
cons_checked (refused e) rest = refused e
cons_checked (accepted arg) (refused e) = refused e
cons_checked (accepted arg) (accepted found) = accepted (arg ∷ found)

unfoldable pub check_dump_args : List Codes → Checked (List Codes)
check_dump_args [] = accepted []
check_dump_args (arg ∷ rest) = cons_checked (check_dump_arg arg) (check_dump_args rest)

-- `validate_dump_args`
unfoldable pub validate_dump_args : RawArgs → Checked (List Codes)
validate_dump_args nothing = accepted []
validate_dump_args no_args_list = refused Complaint.no_list
validate_dump_args (args raw) =
    if ltb 50 (length raw) then refused Complaint.too_many else check_dump_args raw

-- A character that `shlex.quote` takes for safe: `[\w@%+=:,./-]`, of ASCII
abbrev pub is_unquoted : ℕ → Bool
is_unquoted c = is_run_char c || any (λ d. c == d) (codes "@%+=:,")

abbrev pub is_safe_word : Codes → Bool
is_safe_word s = not (is_blank s) && all is_unquoted s

-- `s.replace("'", "'\"'\"'")`
unfoldable pub escape : Codes → Codes
escape [] = []
escape (c ∷ s) = (if c == 39 then codes "'\"'\"'" else c ∷ []) ++ escape s

-- `shlex.quote`
unfoldable pub quote : Codes → Codes
quote s = if is_safe_word s then s else codes "'" ++ (escape s ++ codes "'")

abbrev pub command_line : List Codes → Codes
command_line parts = join_by 32 (map quote parts)

-- `build_dumpdata_command`
unfoldable pub build_dumpdata_command : Codes → List Codes → Codes
build_dumpdata_command manage_path dump_args =
    command_line (codes "python" ∷ manage_path ∷ codes "dumpdata" ∷ dump_args)

-- `build_loaddata_command`
unfoldable pub build_loaddata_command : Codes → Codes → Codes
build_loaddata_command manage_path fixture_path =
    command_line (codes "python" ∷ manage_path ∷ codes "loaddata" ∷ fixture_path ∷ [])

-- `build_migrate_command`
unfoldable pub build_migrate_command : Codes → Bool → Codes
build_migrate_command manage_path noinput = command_line (
    codes "python"
    ∷ manage_path
    ∷ codes "migrate"
    ∷ (if noinput then codes "--noinput" ∷ [] else []))
