-- ===== src/Services/EnvKeys/Alias.antt =====
-- The alias that a link is given, and the key that Dokku makes of it: `<alias>_URL`.
use Prim.Native.Char.{code}
use text.Mathlib.TextLemmas.{cons-append, append_assoc}
use fabroku_back_end.Base.{
  ℕ, zero, suc, ◌+◌, ◌-◌, ◌≤◌, ◌<◌, String, ◌<>◌, ◌≡◌, refl, ap, sym, ◌∙◌, ◌⊎◌, inl, inr, Bool,
  true, false, Option, List, ◌==◌, length, length-append, codes, truncate, upper_text, str_eq,
  eq_iff, arith, Bool-cases,
}
use fabroku_back_end.Models.Errors.{decimal}
use fabroku_back_end.Models.Service.{Service, ServiceRuntime}
use fabroku_back_end.Services.EnvKeys.{
  lstrip_underscores, rstrip_underscores, sub_invalid, drop_url, normalized_name, key_base,
  numbered_key, holds, free_text, occupied_keys, allocate_service_env_key, first_key,
}
use fabroku_back_end.Services.EnvKeys.Numbers.{codes-append}

abbrev pub size : String → ℕ
size s = length (codes s)

pub size-append : (s t : String) → size (s <> t) ≡ size s + size t
size-append s t = ap length (codes-append s t) ∙ length-append (codes s) (codes t)

pub sizes_differ : (s t : String) → size t < size s → str_eq s t ≡ false
sizes_differ s t h = elim (Bool-cases (str_eq s t)) [
  | inl e ↦ absurd (omega (arith, ap size ((eq_iff s t).0 e)))
  | inr e ↦ e
]

pub drop_url-append : (s : String) → drop_url (s <> "_URL") ≡ s
unfolding drop_url
drop_url-append String.[] = refl
drop_url-append (String.◌∷◌ c s) =
    rw
      (
        cons-append c s "_URL",
        sizes_differ (String.◌∷◌ c (s <> "_URL")) "_URL" (omega (arith, size-append s "_URL")),
      )
      (ap (String.◌∷◌ c) (drop_url-append s))

abbrev pub starts_underscore : String → Bool
starts_underscore String.[] = false
starts_underscore (String.◌∷◌ c s) = code c == b'_'

-- Some text that no underscore begins.
abbrev pub IsName : String → Type 0
IsName s = (starts_underscore s ≡ false) × (0 < size s)

lstrip_underscores_lem : (s : String) → starts_underscore (lstrip_underscores s) ≡ false
unfolding lstrip_underscores
lstrip_underscores_lem String.[] = refl
lstrip_underscores_lem (String.◌∷◌ c s) = ground (arith, lstrip_underscores_lem s)

rstrip_underscores_lem :
    (s : String) → starts_underscore s ≡ false → starts_underscore (rstrip_underscores s) ≡ false
unfolding rstrip_underscores
rstrip_underscores_lem String.[] h = refl
rstrip_underscores_lem (String.◌∷◌ c s) h = rw h h

size_pos : (s : String) → str_eq s "" ≡ false → 0 < size s
size_pos String.[] h = ground (arith, eq_iff "" "")
size_pos (String.◌∷◌ c s) h = omega arith

drop_url-pos : (s : String) → IsName s → 0 < size (drop_url s)
unfolding drop_url
drop_url-pos String.[] (h, p) = absurd (omega arith)
drop_url-pos (String.◌∷◌ c s) (h, p) = elim (Bool-cases (str_eq (String.◌∷◌ c s) "_URL")) [
  | inl e ↦
      let e' : true ≡ starts_underscore (String.◌∷◌ c s) =
        sym (ap starts_underscore ((eq_iff (String.◌∷◌ c s) "_URL").0 e)) in
      cc
  | inr e ↦ rw e (omega arith)
]

pub size-truncate-le : (n : ℕ) (s : String) → size (truncate n s) ≤ n
unfolding truncate
size-truncate-le zero s = omega arith
size-truncate-le (suc n) String.[] = omega arith
size-truncate-le (suc n) (String.◌∷◌ c s) = omega (arith, size-truncate-le n s)

truncate-pos : (n : ℕ) (s : String) → 0 < size s → 0 < size (truncate (suc n) s)
unfolding truncate
truncate-pos n String.[] h = h
truncate-pos n (String.◌∷◌ c s) h = omega arith

normalized_name-IsName :
    (upper : String → String) (name : String) (runtime : ServiceRuntime)
    → IsName (upper_text runtime.default_prefix)
    → IsName (normalized_name upper name runtime)
unfolding normalized_name
normalized_name-IsName upper name runtime p =
    let s = lstrip_underscores (sub_invalid (upper name)) in
    elim (Bool-cases (str_eq (rstrip_underscores s) "")) [
      | inl e ↦ rw e p
      | inr e ↦ rw e (
        rstrip_underscores_lem s (lstrip_underscores_lem (sub_invalid (upper name))),
        size_pos (rstrip_underscores s) e,
      )
    ]

key_base-pos :
    (upper : String → String) (name : String) (runtime : ServiceRuntime)
    → IsName (upper_text runtime.default_prefix)
    → 0 < size (key_base upper name runtime)
unfolding key_base
key_base-pos upper name runtime p =
    truncate-pos 250 _ (drop_url-pos _ (normalized_name-IsName upper name runtime p))

-- A key with an alias that is not empty.
abbrev pub HasAlias : String → Type 0
HasAlias k = (x : String) × (0 < size x) × (x <> "_URL" ≡ k)

numbered_key-HasAlias : (base : String) (n : ℕ) → HasAlias (numbered_key base n)
unfolding numbered_key
numbered_key-HasAlias base n =
    let suffix = "_" <> decimal n in
    let t = truncate (255 - size suffix - 4) base in
    (
      t <> suffix,
      omega (arith, size-append t suffix, size-append "_" (decimal n)),
      append_assoc t suffix "_URL",
    )

free_text-HasAlias :
    (fuel : ℕ) (keys : List String) (base : String) (n : ℕ) (candidate : String)
    → HasAlias candidate
    → HasAlias (free_text fuel keys (numbered_key base) n candidate)
unfolding free_text
free_text-HasAlias zero keys base n candidate h = h
free_text-HasAlias (suc fuel) keys base n candidate h = elim (Bool-cases (holds keys candidate)) [
  | inl e ↦ rw e (
      free_text-HasAlias fuel keys base (suc n) (numbered_key base n)
        (numbered_key-HasAlias base n))
  | inr e ↦ rw e h
]

pub allocate-HasAlias :
    (upper : String → String) (services : List Service) (app_id : ℕ) (name : String)
    (runtime : ServiceRuntime) (excluded : Option ℕ)
    → IsName (upper_text runtime.default_prefix)
    → let k = allocate_service_env_key upper services app_id name runtime excluded in
      (k ≡ runtime.env_key) ⊎ HasAlias k
unfolding allocate_service_env_key
allocate-HasAlias upper services app_id name runtime excluded p =
    let keys = occupied_keys app_id excluded services in
    let base = key_base upper name runtime in
    elim (Bool-cases (holds keys runtime.env_key)) [
      | inl e ↦ rw e (
          inr (
            free_text-HasAlias (length keys + 2) keys base 2 (first_key base)
              (base, key_base-pos upper name runtime p, refl)))
      | inr e ↦ rw e (inl refl)
    ]
