-- ===== src/Services/EnvKeys.antt =====
-- src/core/apps/mixins/services/service_env.py: the name of the variable in which an app finds the
-- address of a service. `str.upper` of the service's name is a parameter.
pub mod Numbers
pub mod Fresh
pub mod Alias
pub mod Allocated
pub mod Bounds
use Prim.Native.Char.{Char, code}
use fabroku_back_end.Base.{
  ℕ, zero, suc, ◌+◌, ◌-◌, String, ◌<>◌, Bool, true, false, not, ◌&&◌, ◌||◌, Option, none, some,
  List, [], ◌∷◌, ◌==◌, is_upper, is_digit, is_some, str_eq, upper_text, truncate, length, codes,
  if◌then◌else◌,
}
use fabroku_back_end.Models.Service.{Service, ServiceRuntime, is_live_of}
use fabroku_back_end.Models.Errors.{decimal}

-- `ENV_KEY_MAX_LENGTH`
abbrev pub env_key_max_length : ℕ
env_key_max_length = 255

-- A character of `[A-Z0-9_]`
abbrev pub is_key_char : ℕ → Bool
is_key_char c = is_upper c || is_digit c || (c == b'_')

abbrev pub starts_invalid : String → Bool
starts_invalid String.[] = false
starts_invalid (String.◌∷◌ c s) = not (is_key_char (code c))

-- `ENV_KEY_INVALID_CHARS.sub('_', s)`: a run of other characters becomes one underscore.
unfoldable pub sub_invalid : String → String
sub_invalid String.[] = String.[]
sub_invalid (String.◌∷◌ c s) =
    let rest = sub_invalid s in
    if is_key_char (code c)
    then String.◌∷◌ c rest
    else if starts_invalid s
    then rest
    else String.◌∷◌ "_" rest

-- `s.lstrip('_')` and `s.rstrip('_')`
unfoldable pub lstrip_underscores : String → String
lstrip_underscores String.[] = String.[]
lstrip_underscores (String.◌∷◌ c s) =
    let rest = lstrip_underscores s in if code c == b'_' then rest else String.◌∷◌ c s

unfoldable pub rstrip_underscores : String → String
rstrip_underscores String.[] = String.[]
rstrip_underscores (String.◌∷◌ c s) =
    let rest = rstrip_underscores s in
    if (code c == b'_') && str_eq rest "" then String.[] else String.◌∷◌ c rest

-- `s[:-4] if s.endswith('_URL') else s`
unfoldable pub drop_url : String → String
drop_url String.[] = String.[]
drop_url (String.◌∷◌ c s) =
    let rest = drop_url s in if str_eq (String.◌∷◌ c s) "_URL" then String.[] else String.◌∷◌ c rest

-- `normalized_name`
unfoldable pub normalized_name : (String → String) → String → ServiceRuntime → String
normalized_name upper service_name runtime =
    let name = rstrip_underscores (lstrip_underscores (sub_invalid (upper service_name))) in
    if str_eq name "" then upper_text runtime.default_prefix else name

unfoldable pub key_base : (String → String) → String → ServiceRuntime → String
key_base upper service_name runtime =
    truncate (env_key_max_length - 4) (drop_url (normalized_name upper service_name runtime))

-- The name with a number in it.
unfoldable pub numbered_key : String → ℕ → String
numbered_key base n =
    let suffix = "_" <> decimal n in
    truncate (env_key_max_length - length (codes suffix) - 4) base <> suffix <> "_URL"

abbrev pub holds : List String → String → Bool
holds [] k = false
holds (j ∷ keys) k = str_eq j k || holds keys k

-- The `while` loop of both allocations: `next` makes a candidate of a number, from `n` on.
unfoldable pub free_text : ℕ → List String → (ℕ → String) → ℕ → String → String
free_text zero occupied next n candidate = candidate
free_text (suc fuel) occupied next n candidate =
    let rest = free_text fuel occupied next (suc n) (next n) in
    if holds occupied candidate then rest else candidate

abbrev pub first_key : String → String
first_key base = base <> "_URL"

-- `if exclude_service_id`: the number 0 excludes nothing.
abbrev pub is_excluded : Option ℕ → ℕ → Bool
is_excluded none id = false
is_excluded (some zero) id = false
is_excluded (some (suc n)) id = suc n == id

abbrev pub counts_for : ℕ → Option ℕ → Service → Bool
counts_for app_id excluded s = is_live_of app_id s && not (is_excluded excluded s.id)

-- The keys of the rows that the query finds; neither `None` nor the empty text is a key.
unfoldable pub occupied_keys : ℕ → Option ℕ → List Service → List String
occupied_keys app_id excluded [] = []
occupied_keys app_id excluded (s ∷ ss) =
    let rest = occupied_keys app_id excluded ss in
    elim s.env_key [
      | none ↦ rest
      | some k ↦ if counts_for app_id excluded s && not (str_eq k "") then k ∷ rest else rest
    ]

-- `allocate_service_env_key`, on the services table
unfoldable pub allocate_service_env_key :
    (String → String) → List Service → ℕ → String → ServiceRuntime → Option ℕ → String
allocate_service_env_key upper services app_id service_name runtime excluded =
    let occupied = occupied_keys app_id excluded services in
    let base = key_base upper service_name runtime in
    if holds occupied runtime.env_key
    then free_text (length occupied + 2) occupied (numbered_key base) 2 (first_key base)
    else runtime.env_key

-- `dokku_alias_for_env_key`
unfoldable pub dokku_alias_for_env_key : Option String → ServiceRuntime → Option String
dokku_alias_for_env_key none runtime = none
dokku_alias_for_env_key (some k) runtime =
    if str_eq k "" || str_eq k runtime.env_key then none else some (drop_url k)

-- The names of the live services of an app
unfoldable pub occupied_names : ℕ → List Service → List String
occupied_names app_id [] = []
occupied_names app_id (s ∷ ss) =
    let rest = occupied_names app_id ss in if is_live_of app_id s then s.name ∷ rest else rest

unfoldable pub numbered_name : String → ℕ → String
numbered_name base_name n = (base_name <> "-") <> decimal n

-- `allocate_attached_service_name`
unfoldable pub allocate_attached_service_name : List Service → ℕ → String → String
allocate_attached_service_name services app_id base_name =
    let occupied = occupied_names app_id services in
    free_text (length occupied + 2) occupied (numbered_name base_name) 2 base_name
