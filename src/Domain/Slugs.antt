-- ===== src/Domain/Slugs.antt =====
-- The slugs that `slugify_dokku` makes, and the names that `validate_app_name` lets through.
use mathlib.Core.Path.{subst}
use fabroku_back_end.Base.{
  ℕ, Bool, true, false, not, ◌&&◌, [], ◌∷◌, ◌≡◌, ◌↔◌, sym, refl, arith, map, all, length, leb, ◌==◌,
  Codes, text_eq, inl, inr, Bool-cases,
}
use fabroku_back_end.Domain.Names.{
  is_slug_char, slug_char, starts_hyphen, collapse, lstrip_hyphens, rstrip_hyphens, is_empty,
  slugify_dokku, validate_app_name, matches_app_name, Verdict,
}

abbrev no_double : Codes → Bool
no_double [] = true
no_double (c ∷ s) = not ((c == b'-') && starts_hyphen s) && no_double s

abbrev ends_hyphen : Codes → Bool
ends_hyphen [] = false
ends_hyphen (c ∷ []) = c == b'-'
ends_hyphen (c ∷ d ∷ s) = ends_hyphen (d ∷ s)

-- Lowercase letters, digits and single hyphens, none at the start or the end
unfoldable pub is_canonical : Codes → Bool
is_canonical s = all is_slug_char s && no_double s && not (starts_hyphen s) && not (ends_hyphen s)

all-slug_char : (s : Codes) → all is_slug_char (map slug_char s) ≡ true
all-slug_char [] = refl
all-slug_char (c ∷ s) = elim (Bool-cases (is_slug_char c)) [
  | inl e ↦ rw (e, e, all-slug_char s) refl
  | inr e ↦ rw (e, all-slug_char s) refl
]

map-slug_char : (s : Codes) → all is_slug_char s ≡ true → map slug_char s ≡ s
map-slug_char [] h = refl
map-slug_char (c ∷ s) h = ground (arith, map-slug_char s)

starts_hyphen-collapse : (s : Codes) → starts_hyphen (collapse s) ≡ starts_hyphen s
unfolding collapse
starts_hyphen-collapse [] = refl
starts_hyphen-collapse (c ∷ s) = ground (arith, starts_hyphen-collapse s)

collapse_lem :
    (s : Codes)
    → all is_slug_char s ≡ true
    → (all is_slug_char (collapse s) ≡ true) × (no_double (collapse s) ≡ true)
unfolding collapse
collapse_lem [] h = (refl, refl)
collapse_lem (c ∷ s) h =
    (ground (arith, collapse_lem s), ground (arith, collapse_lem s, starts_hyphen-collapse s))

collapse_same : (s : Codes) → no_double s ≡ true → collapse s ≡ s
unfolding collapse
collapse_same [] h = refl
collapse_same (c ∷ s) h = ground (arith, collapse_same s)

lstrip_lem :
    (s : Codes)
    → all is_slug_char s ≡ true
    → no_double s ≡ true
    → (all is_slug_char (lstrip_hyphens s) ≡ true)
      × (no_double (lstrip_hyphens s) ≡ true)
      × (starts_hyphen (lstrip_hyphens s) ≡ false)
unfolding lstrip_hyphens
lstrip_lem [] h d = (refl, refl, refl)
lstrip_lem (c ∷ s) h d =
    (ground (arith, lstrip_lem s), ground (arith, lstrip_lem s), ground (arith, lstrip_lem s))

starts_hyphen-rstrip :
    (s : Codes) → starts_hyphen s ≡ false → starts_hyphen (rstrip_hyphens s) ≡ false
unfolding rstrip_hyphens
starts_hyphen-rstrip [] h = refl
starts_hyphen-rstrip (c ∷ s) h = ground arith

ends_hyphen-cons : (c : ℕ) (s : Codes) → is_empty s ≡ false → ends_hyphen (c ∷ s) ≡ ends_hyphen s
ends_hyphen-cons c [] h = cc
ends_hyphen-cons c (d ∷ s) h = refl

ends_hyphen-step :
    (c : ℕ) (s : Codes)
    → ((c == b'-') && is_empty s) ≡ false
    → ends_hyphen s ≡ false
    → ends_hyphen (c ∷ s) ≡ false
ends_hyphen-step c [] h e = ground arith
ends_hyphen-step c (d ∷ s) h e = e

rstrip_lem :
    (s : Codes)
    → all is_slug_char s ≡ true
    → no_double s ≡ true
    → (all is_slug_char (rstrip_hyphens s) ≡ true)
      × (no_double (rstrip_hyphens s) ≡ true)
      × (ends_hyphen (rstrip_hyphens s) ≡ false)
unfolding rstrip_hyphens
rstrip_lem [] h d = (refl, refl, refl)
rstrip_lem (c ∷ s) h d =
    let (h', d', e') = rstrip_lem s (ground arith) (ground arith) in
    elim (Bool-cases ((c == b'-') && is_empty (rstrip_hyphens s))) [
      | inl e ↦ rw e (refl, refl, refl)
      | inr e ↦ rw e (
        ground (arith, h'),
        ground (arith, d', starts_hyphen-rstrip s),
        ends_hyphen-step c (rstrip_hyphens s) e e',
      )
    ]

lstrip_same : (s : Codes) → starts_hyphen s ≡ false → lstrip_hyphens s ≡ s
unfolding lstrip_hyphens
lstrip_same [] h = refl
lstrip_same (c ∷ s) h = ground arith

rstrip_same : (s : Codes) → ends_hyphen s ≡ false → rstrip_hyphens s ≡ s
unfolding rstrip_hyphens
rstrip_same [] h = refl
rstrip_same (c ∷ []) h = ground arith
rstrip_same (c ∷ d ∷ s) h = ground (arith, rstrip_same (d ∷ s))

text_eq_same : (s t : Codes) → s ≡ t → text_eq s t ≡ true
text_eq_same [] t h = rw (sym h) refl
text_eq_same (c ∷ s) t h = rw (sym h) (ground (arith, text_eq_same s s refl))

text_eq-eq : (s t : Codes) → text_eq s t ≡ true → s ≡ t
text_eq-eq [] [] h = refl
text_eq-eq [] (d ∷ t) h = cc
text_eq-eq (c ∷ s) [] h = cc
text_eq-eq (c ∷ s) (d ∷ t) h = ground (arith, text_eq-eq s t)

matches_lem :
    (c : ℕ) (s : Codes) → all is_slug_char (c ∷ s) ≡ true → matches_app_name (c ∷ s) ≡ true
unfolding matches_app_name
matches_lem c [] h = ground arith
matches_lem c (d ∷ []) h = ground arith
matches_lem c (d ∷ e ∷ s) h = ground (arith, matches_lem d (e ∷ s))

is_canonical-matches :
    (c : ℕ) (s : Codes) → is_canonical (c ∷ s) ≡ true → matches_app_name (c ∷ s) ≡ true
unfolding is_canonical
is_canonical-matches c s h = matches_lem c s (ground arith)

-- `str.lower` leaves a text of lowercase letters, digits and hyphens as it is.
abbrev pub IsLower : (Codes → Codes) → Type 0
IsLower lower = (s : Codes) → all is_slug_char s ≡ true → lower s ≡ s

module _ (lower : Codes → Codes) where
  -- Whatever the name, its slug consists of lowercase letters, digits and single hyphens, with no
  -- hyphen at the start or the end.
  pub slugify_dokku-is_canonical : (name : Codes) → is_canonical (slugify_dokku lower name) ≡ true
  unfolding is_canonical slugify_dokku
  slugify_dokku-is_canonical name =
      let raw = map slug_char (lower name) in
      let (h1, d1) = collapse_lem raw (all-slug_char (lower name)) in
      let (h2, d2, e2) = lstrip_lem (collapse raw) h1 d1 in
      let (h3, d3, e3) = rstrip_lem (lstrip_hyphens (collapse raw)) h2 d2 in
      let s3 = starts_hyphen-rstrip (lstrip_hyphens (collapse raw)) e2 in rw (h3, d3, e3, s3) refl

  module _ (low : IsLower lower) where
    -- A canonical name is its own slug.
    slugify_dokku_same : (name : Codes) → is_canonical name ≡ true → slugify_dokku lower name ≡ name
    unfolding is_canonical slugify_dokku
    slugify_dokku_same name h =
        let slugs : all is_slug_char name ≡ true = ground arith in
        rw
          (
            low name slugs,
            map-slug_char name slugs,
            collapse_same name (ground arith),
            lstrip_same name (ground arith),
          )
          (rstrip_same name (ground arith))

    -- A slug is its own slug.
    pub slugify_dokku_idempotent :
        (name : Codes) → slugify_dokku lower (slugify_dokku lower name) ≡ slugify_dokku lower name
    slugify_dokku_idempotent name =
        slugify_dokku_same (slugify_dokku lower name) (slugify_dokku-is_canonical name)

    slug-is_canonical :
        (name : Codes) → text_eq (slugify_dokku lower name) name ≡ true → is_canonical name ≡ true
    slug-is_canonical name h =
        subst (λ x. is_canonical x ≡ true) (text_eq-eq (slugify_dokku lower name) name h)
          (slugify_dokku-is_canonical name)

    is_canonical-slug :
        (name : Codes) → is_canonical name ≡ true → text_eq (slugify_dokku lower name) name ≡ true
    is_canonical-slug name h =
        text_eq_same (slugify_dokku lower name) name (slugify_dokku_same name h)

    -- The names that `validate_app_name` accepts are those of 2 to 60 characters in canonical form.
    pub validate_app_name_iff :
        (name : Codes)
        → (validate_app_name lower name ≡ Verdict.valid)
          ↔ ((leb 2 (length name) && leb (length name) 60 && is_canonical name) ≡ true)
    unfolding validate_app_name
    validate_app_name_iff [] = (λ h. cc, λ h. cc)
    validate_app_name_iff (c ∷ s) = (
      λ h. ground (arith, slug-is_canonical (c ∷ s)),
      λ h. ground (arith, is_canonical-slug (c ∷ s), is_canonical-matches c s),
    )
