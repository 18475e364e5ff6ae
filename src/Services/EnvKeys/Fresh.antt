-- ===== src/Services/EnvKeys/Fresh.antt =====
-- The loop over the numbered candidates ends: one of the first is free, since they differ and the
-- texts that are taken are fewer.
use fabroku_back_end.Base.{
  ℕ, zero, suc, ◌+◌, ◌≤◌, ◌<◌, String, ◌≡◌, refl, ap, sym, ◌∙◌, inl, inr, true, false, Option, List,
  [], ◌∷◌, ◌==◌, length, str_eq, eq_iff, arith, if◌then◌else◌, Bool-cases,
}
use fabroku_back_end.Models.Service.{Service, ServiceRuntime}
use fabroku_back_end.Services.EnvKeys.{
  numbered_key, numbered_name, holds, free_text, occupied_keys, occupied_names,
  allocate_attached_service_name, allocate_service_env_key, key_base, first_key,
}
use fabroku_back_end.Services.EnvKeys.Numbers.{
  number_of, number_of-numbered_key, number_after, number_after-numbered_name,
}

abbrev without : String → List String → List String
without k [] = []
without k (j ∷ keys) = let rest = without k keys in if str_eq j k then rest else j ∷ rest

length-without-le : (k : String) (keys : List String) → length (without k keys) ≤ length keys
length-without-le k [] = omega arith
length-without-le k (j ∷ keys) = ground (arith, length-without-le k keys)

length-without :
    (k : String) (keys : List String) → holds keys k ≡ true → length (without k keys) < length keys
length-without k [] h = cc
length-without k (j ∷ keys) h = ground (arith, length-without k keys, length-without-le k keys)

holds-without :
    (k i : String) (keys : List String)
    → str_eq k i ≡ false
    → holds (without k keys) i ≡ holds keys i
holds-without k i [] h = refl
holds-without k i (j ∷ keys) h =
    ground (arith, eq_iff j k, eq_iff j i, eq_iff k i, holds-without k i keys)

module _ (next : ℕ → String) (reading : String → ℕ) (reads : (n : ℕ) → reading (next n) ≡ n) where
  next-ne : (n m : ℕ) → n < m → str_eq (next n) (next m) ≡ false
  next-ne n m h = elim (Bool-cases (str_eq (next n) (next m))) [
    | inl e ↦ absurd (omega (arith, ap reading ((eq_iff _ _).0 e), reads n, reads m))
    | inr e ↦ e
  ]

  -- Of as many candidates as there are keys and one more, one is free.
  free_number :
      (count : ℕ) (keys : List String) (n : ℕ)
      → length keys < count
      → (j : ℕ) × (n ≤ j) × (j < n + count) × (holds keys (next j) ≡ false)
  free_number zero keys n h = absurd (omega arith)
  free_number (suc count) keys n h = elim (Bool-cases (holds keys (next n))) [
    | inl taken ↦
        let (j, low, high, free) =
          free_number count (without (next n) keys) (suc n)
            (omega (arith, length-without (next n) keys taken)) in
        (
          j,
          omega arith,
          omega arith,
          sym (holds-without (next n) (next j) keys (next-ne n j (omega arith))) ∙ free,
        )
    | inr free ↦ (n, omega arith, omega arith, free)
  ]

  free_text-free :
      (fuel : ℕ) (keys : List String) (n : ℕ) (candidate : String)
      → holds keys candidate ≡ false
      → free_text fuel keys next n candidate ≡ candidate
  unfolding free_text
  free_text-free zero keys n candidate h = refl
  free_text-free (suc fuel) keys n candidate h = rw h

  holds-free_loop :
      (fuel : ℕ) (keys : List String) (n : ℕ) (candidate : String) (j : ℕ)
      → n ≤ j
      → j < n + fuel
      → holds keys (next j) ≡ false
      → holds keys (free_text fuel keys next n candidate) ≡ false
  unfolding free_text
  holds-free_loop zero keys n candidate j low high free = absurd (omega arith)
  holds-free_loop (suc fuel) keys n candidate j low high free =
      elim (Bool-cases (holds keys candidate)) [
        | inl taken ↦ rw taken (elim (Bool-cases (n == j)) [
          | inl e ↦
              let free_n : holds keys (next n) ≡ false =
                ap (λ (i : ℕ). holds keys (next i)) (ground arith) ∙ free in
              rw (free_text-free fuel keys (suc n) (next n) free_n) free_n
          | inr e ↦ holds-free_loop fuel keys (suc n) (next n) j (ground arith) (omega arith) free
        ])
        | inr untaken ↦ rw untaken untaken
      ]

  pub holds-free_text :
      (keys : List String) (candidate : String)
      → holds keys (free_text (length keys + 2) keys next 2 candidate) ≡ false
  holds-free_text keys candidate =
      let (j, low, high, free) = free_number (length keys + 1) keys 2 (omega arith) in
      holds-free_loop (length keys + 2) keys 2 candidate j low (omega arith) free

-- The key is not among those that are taken.
pub holds-allocate :
    (upper : String → String) (services : List Service) (app_id : ℕ) (name : String)
    (runtime : ServiceRuntime) (excluded : Option ℕ)
    → holds
        (occupied_keys app_id excluded services)
        (allocate_service_env_key upper services app_id name runtime excluded)
      ≡ false
unfolding allocate_service_env_key
holds-allocate upper services app_id name runtime excluded =
    let keys = occupied_keys app_id excluded services in
    let base = key_base upper name runtime in
    elim (Bool-cases (holds keys runtime.env_key)) [
      | inl taken ↦ rw taken (
          holds-free_text (numbered_key base) number_of (number_of-numbered_key base) keys
            (first_key base))
      | inr untaken ↦ rw untaken untaken
    ]

pub holds-allocate_name :
    (services : List Service) (app_id : ℕ) (base_name : String)
    → holds
        (occupied_names app_id services)
        (allocate_attached_service_name services app_id base_name)
      ≡ false
unfolding allocate_attached_service_name
holds-allocate_name services app_id base_name =
    holds-free_text (numbered_name base_name) number_after (number_after-numbered_name base_name)
      (occupied_names app_id services) base_name
