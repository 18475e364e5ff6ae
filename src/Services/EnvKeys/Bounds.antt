-- ===== src/Services/EnvKeys/Bounds.antt =====
-- How long a key is that `allocate_service_env_key` gives.
use Prim.Native.Nat.{◌*◌, ◌/◌, ◌%◌, ◌-◌}
use mathlib.Core.Path.{subst}
use fabroku_back_end.Base.{
  ℕ, zero, suc, ◌+◌, ◌≤◌, ◌<◌, String, ◌<>◌, ◌≡◌, ap, ◌∙◌, inl, inr, not, ◌&&◌, Option, none, some,
  List, [], ◌∷◌, ◌==◌, length, codes, str_eq, truncate, arith, if◌then◌else◌, Bool-cases,
}
use fabroku_back_end.Models.Errors.{decimal, decimal_loop, digit}
use fabroku_back_end.Models.Service.{Service, ServiceRuntime, get_service_runtime}
use fabroku_back_end.Services.EnvKeys.{
  numbered_key, holds, free_text, occupied_keys, counts_for, allocate_service_env_key, key_base,
  first_key, drop_url, normalized_name,
}
use fabroku_back_end.Services.EnvKeys.Numbers.{code_digit}
use fabroku_back_end.Services.EnvKeys.Allocated.{IsSound, sound}
use fabroku_back_end.Services.EnvKeys.Alias.{size, size-append, size-truncate-le}

digits_below : ℕ → ℕ
digits_below zero = 1
digits_below (suc m) = 10 * digits_below m

size-digit : (d : ℕ) (rest : String) → d < 10 → size (digit d <> rest) ≡ size rest + 1
size-digit d rest h =
    size-append (digit d) rest ∙ omega (arith, ap (λ (l : List ℕ). length l) (code_digit d h))

size-decimal_loop :
    (fuel m n : ℕ) (rest : String)
    → n < digits_below (suc m)
    → size (decimal_loop fuel n rest) ≤ suc m + size rest
unfolding decimal_loop digits_below
size-decimal_loop zero m n rest h = omega arith
size-decimal_loop (suc fuel) zero n rest h = elim (Bool-cases ((n / 10) == 0)) [
  | inl e ↦ rw e (omega (arith, size-digit (n % 10) rest (omega arith)))
  | inr e ↦ absurd (ground arith)
]
size-decimal_loop (suc fuel) (suc m) n rest h = elim (Bool-cases ((n / 10) == 0)) [
  | inl e ↦ rw e (omega (arith, size-digit (n % 10) rest (omega arith)))
  | inr e ↦ rw e (
      omega (
        arith,
        size-decimal_loop fuel m (n / 10) (digit (n % 10) <> rest) (omega arith),
        size-digit (n % 10) rest (omega arith),
      ))
]

size-decimal : (n : ℕ) → n < 10000000000 → size (decimal n) ≤ 10
unfolding decimal digits_below
size-decimal n h = size-decimal_loop (n + 1) 9 n "" h

size-numbered_key : (base : String) (n : ℕ) → n < 10000000000 → size (numbered_key base n) ≤ 255
unfolding numbered_key
size-numbered_key base n h =
    let suffix = "_" <> decimal n in
    let t = truncate (255 - size suffix - 4) base in
    omega (
      arith,
      size-append t (suffix <> "_URL"),
      size-append suffix "_URL",
      size-append "_" (decimal n),
      size-decimal n h,
      size-truncate-le (255 - size suffix - 4) base,
    )

size-free_text :
    (fuel : ℕ) (keys : List String) (base : String) (n : ℕ) (candidate : String)
    → n + fuel < 10000000000
    → size candidate ≤ 255
    → size (free_text fuel keys (numbered_key base) n candidate) ≤ 255
unfolding free_text
size-free_text zero keys base n candidate h short = short
size-free_text (suc fuel) keys base n candidate h short = elim (Bool-cases (holds keys candidate)) [
  | inl e ↦ rw e (
      size-free_text fuel keys base (suc n) (numbered_key base n) (omega arith)
        (size-numbered_key base n (omega arith)))
  | inr e ↦ rw e short
]

length-occupied_keys-le :
    (app_id : ℕ) (excluded : Option ℕ) (services : List Service)
    → length (occupied_keys app_id excluded services) ≤ length services
unfolding occupied_keys
length-occupied_keys-le app_id excluded [] = omega arith
length-occupied_keys-le app_id excluded (s ∷ ss) =
    of_key s.env_key (length-occupied_keys-le app_id excluded ss)
  where
    of_key :
        (o : Option String)
        → length (occupied_keys app_id excluded ss) ≤ length ss
        → length (elim o [
          | none ↦ occupied_keys app_id excluded ss
          | some j ↦
              if counts_for app_id excluded s && not (str_eq j "")
              then j ∷ occupied_keys app_id excluded ss
              else occupied_keys app_id excluded ss
        ])
          ≤ suc (length ss)
    of_key none ih = omega arith
    of_key (some j) ih = ground arith

-- An allocated key fits its column, of 255 characters, however long the name of the service is.
-- For a type of service that is known, with fewer than a thousand million rows of services.
pub size-allocate-le :
    (upper : String → String) (services : List Service) (app_id : ℕ) (name t : String)
    (runtime : ServiceRuntime) (excluded : Option ℕ)
    → get_service_runtime t ≡ some runtime
    → length services < 1000000000
    → length (codes (allocate_service_env_key upper services app_id name runtime excluded)) ≤ 255
unfolding allocate_service_env_key key_base
size-allocate-le upper services app_id name t runtime excluded known few =
    let (pos, short, named) = subst IsSound known (sound t) in
    let keys = occupied_keys app_id excluded services in
    let base = key_base upper name runtime in
    elim (Bool-cases (holds keys runtime.env_key)) [
      | inl e ↦ rw e (
          size-free_text (length keys + 2) keys base 2 (first_key base)
            (omega (arith, length-occupied_keys-le app_id excluded services))
            (omega (
              arith,
              size-append base "_URL",
              size-truncate-le 251 (drop_url (normalized_name upper name runtime)),
            )))
      | inr e ↦ rw e (omega arith)
    ]
