-- ===== src/Services/EnvKeys/Allocated.antt =====
-- What `allocate_service_env_key` promises of the key.
use mathlib.Core.Path.{subst}
use fabroku_back_end.Base.{
  ℕ, ◌≤◌, ◌<◌, String, ◌<>◌, ◌≡◌, refl, ap, sym, ◌∙◌, ◌⊎◌, inl, inr, Bool, true, false, not, ◌&&◌,
  Option, none, some, List, [], ◌∷◌, all, str_eq, eq_iff, holds_text, upper_text, arith,
  if◌then◌else◌, Bool-cases,
}
use fabroku_back_end.Models.Service.{Service, ServiceRuntime, get_service_runtime, is_live_of}
use fabroku_back_end.Services.EnvKeys.{
  holds, occupied_keys, counts_for, allocate_service_env_key, dokku_alias_for_env_key, drop_url,
  occupied_names, allocate_attached_service_name,
}
use fabroku_back_end.Services.EnvKeys.Fresh.{holds-allocate, holds-allocate_name}
use fabroku_back_end.Services.EnvKeys.Alias.{
  size, size-append, drop_url-append, sizes_differ, IsName, HasAlias, allocate-HasAlias,
}

-- What holds of every row of the table of runtimes.
abbrev pub IsSound : Option ServiceRuntime → Type 0
IsSound none = Unit
IsSound (some r) =
    (0 < size r.env_key) × (size r.env_key ≤ 12) × IsName (upper_text r.default_prefix)

pub sound : (t : String) → IsSound (get_service_runtime t)
unfolding upper_text
sound t = elim (Bool-cases (str_eq t "postgres")) [
  | inl e ↦ rw e (omega arith, omega arith, (refl, omega arith))
  | inr e ↦ rw e (elim (Bool-cases (str_eq t "postgis")) [
    | inl f ↦ rw f (omega arith, omega arith, (refl, omega arith))
    | inr f ↦ rw f (elim (Bool-cases (str_eq t "redis")) [
      | inl g ↦ rw g (omega arith, omega arith, (refl, omega arith))
      | inr g ↦ rw g tt
    ])
  ])
]

-- No row that counts has the key.
abbrev pub is_unused : ℕ → Option ℕ → String → List Service → Bool
is_unused app_id excluded k services =
    all (λ s. not (counts_for app_id excluded s && holds_text s.env_key k)) services

holds-occupied_keys :
    (app_id : ℕ) (excluded : Option ℕ) (k : String) (services : List Service)
    → str_eq k "" ≡ false
    → holds (occupied_keys app_id excluded services) k ≡ false
    → is_unused app_id excluded k services ≡ true
unfolding occupied_keys
holds-occupied_keys app_id excluded k [] ne h = refl
holds-occupied_keys app_id excluded k (s ∷ ss) ne h =
    of_key s.env_key (holds-occupied_keys app_id excluded k ss ne) h
  where
    of_key :
        (o : Option String)
        → (holds (occupied_keys app_id excluded ss) k ≡ false
            → is_unused app_id excluded k ss ≡ true)
        → holds
            (elim o [
              | none ↦ occupied_keys app_id excluded ss
              | some j ↦
                  if counts_for app_id excluded s && not (str_eq j "")
                  then j ∷ occupied_keys app_id excluded ss
                  else occupied_keys app_id excluded ss
            ])
            k
          ≡ false
        → (not (counts_for app_id excluded s && holds_text o k) && is_unused app_id excluded k ss)
          ≡ true
    of_key none ih h = ground (arith, ih)
    of_key (some j) ih h = ground (arith, ih, eq_iff j k, eq_iff j "", eq_iff k "")

-- The key that is allocated is free: of all rows of services, in whatever number and with whatever
-- keys, no live service of the app holds it but the one that is left out. So the loop over the
-- numbered keys has ended by its test. For a type of service that is known.
pub allocate-is_unused :
    (upper : String → String) (services : List Service) (app_id : ℕ) (name t : String)
    (runtime : ServiceRuntime) (excluded : Option ℕ)
    → get_service_runtime t ≡ some runtime
    → is_unused app_id excluded
        (allocate_service_env_key upper services app_id name runtime excluded)
        services
      ≡ true
allocate-is_unused upper services app_id name t runtime excluded known =
    let (pos, short, named) = subst IsSound known (sound t) in
    let k = allocate_service_env_key upper services app_id name runtime excluded in
    holds-occupied_keys app_id excluded k services
      (nonempty pos (allocate-HasAlias upper services app_id name runtime excluded named))
      (holds-allocate upper services app_id name runtime excluded)
  where
    nonempty :
        {k : String}
        → 0 < size runtime.env_key
        → (k ≡ runtime.env_key) ⊎ HasAlias k
        → str_eq k "" ≡ false
    nonempty {k} pos (inl e) = sizes_differ k "" (rw e pos)
    nonempty {k} pos (inr (x, p, e)) =
        sizes_differ k "" (omega (arith, ap size e, size-append x "_URL"))

-- What the alias of a key says: none for the key that Dokku takes by itself, and otherwise a text
-- that Dokku makes the same key of, by `_URL` at its end.
abbrev pub TellsKey : ServiceRuntime → String → Option String → Type 0
TellsKey runtime k none = k ≡ runtime.env_key
TellsKey runtime k (some alias) = (0 < size alias) × (alias <> "_URL" ≡ k)

tells_key :
    (runtime : ServiceRuntime) (k : String)
    → (k ≡ runtime.env_key) ⊎ HasAlias k
    → TellsKey runtime k (dokku_alias_for_env_key (some k) runtime)
unfolding dokku_alias_for_env_key
tells_key runtime k (inl e) =
    rw ((eq_iff k runtime.env_key).1 e)
      (elim (Bool-cases (str_eq k "")) [ inl f ↦ rw f e | inr f ↦ rw f e ])
tells_key runtime k (inr (x, p, e)) =
    let cut : drop_url k ≡ x = ap drop_url (sym e) ∙ drop_url-append x in
    rw (sizes_differ k "" (omega (arith, ap size e, size-append x "_URL")))
      (elim (Bool-cases (str_eq k runtime.env_key)) [
        | inl g ↦ rw g ((eq_iff k runtime.env_key).0 g)
        | inr g ↦ rw (g, cut) (p, e)
      ])

-- The alias that a link is given for an allocated key is never empty, and Dokku makes the same key
-- of it; there is no alias only where the key is the one that the plugin takes by itself. For a
-- type of service that is known.
pub dokku_alias-allocate :
    (upper : String → String) (services : List Service) (app_id : ℕ) (name t : String)
    (runtime : ServiceRuntime) (excluded : Option ℕ)
    → get_service_runtime t ≡ some runtime
    → let k = allocate_service_env_key upper services app_id name runtime excluded in
      TellsKey runtime k (dokku_alias_for_env_key (some k) runtime)
dokku_alias-allocate upper services app_id name t runtime excluded known =
    let (pos, short, named) = subst IsSound known (sound t) in
    tells_key runtime _ (allocate-HasAlias upper services app_id name runtime excluded named)

-- No live service of the app has the name.
abbrev pub is_name_unused : ℕ → String → List Service → Bool
is_name_unused app_id name services =
    all (λ s. not (is_live_of app_id s && str_eq s.name name)) services

holds-occupied_names :
    (app_id : ℕ) (name : String) (services : List Service)
    → holds (occupied_names app_id services) name ≡ false
    → is_name_unused app_id name services ≡ true
unfolding occupied_names
holds-occupied_names app_id name [] h = refl
holds-occupied_names app_id name (s ∷ ss) h = ground (arith, holds-occupied_names app_id name ss)

-- The name of an attached service is new: no live service of the app has it, whatever the rows are.
pub allocate_attached-is_name_unused :
    (services : List Service) (app_id : ℕ) (base_name : String)
    → is_name_unused app_id (allocate_attached_service_name services app_id base_name) services
      ≡ true
allocate_attached-is_name_unused services app_id base_name =
    holds-occupied_names app_id _ services (holds-allocate_name services app_id base_name)
