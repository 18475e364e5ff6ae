-- ===== src/Base/Dict.antt =====
-- Python's `dict` with text keys, in insertion order.
use Prim.Native.String.{String}
use mathlib.Core.Path.{◌≡◌, refl}
use mathlib.Core.Bool.{Bool, true, false, not, ◌&&◌, ◌||◌}
use mathlib.Core.Option.{Option, none, some}
use mathlib.Core.List.{List, [], ◌∷◌}
use native.Mathlib.Omega.{arith}
use text.Mathlib.TextEquality.{eq_iff}
use text.Mathlib.Text.{◌==◌ as str_eq}
use fabroku_back_end.Base.Tests.{if◌then◌else◌}

abbrev pub Dict {ℓ} : Type ℓ → Type ℓ
Dict V = List (String × V)

module _ {ℓ} {V : Type ℓ} where
  unfoldable pub lookup : String → Dict V → Option V
  lookup k [] = none
  lookup k ((j, v) ∷ d) = if str_eq j k then some v else lookup k d

  -- `d[k] = v`
  unfoldable pub insert : String → V → Dict V → Dict V
  insert k v [] = (k, v) ∷ []
  insert k v ((j, w) ∷ d) = if str_eq j k then (j, v) ∷ d else (j, w) ∷ insert k v d

  -- `del d[k]` and `d.pop(k, None)`
  unfoldable pub erase : String → Dict V → Dict V
  erase k [] = []
  erase k ((j, w) ∷ d) = let rest = erase k d in if str_eq j k then rest else (j, w) ∷ rest

  abbrev pub contains : String → Dict V → Bool
  contains k [] = false
  contains k ((j, _) ∷ d) = str_eq j k || contains k d

  -- No key stands twice.
  abbrev pub distinct : Dict V → Bool
  distinct [] = true
  distinct ((j, _) ∷ d) = not (contains j d) && distinct d

  pub lookup-contains : (k : String) (d : Dict V) → contains k d ≡ false → lookup k d ≡ none
  unfolding lookup
  lookup-contains k [] h = refl
  lookup-contains k ((j, v) ∷ d) h = ground (arith, lookup-contains k d)

  pub contains-insert :
      (k j : String) (v : V) (d : Dict V) → contains j (insert k v d) ≡ (str_eq k j || contains j d)
  unfolding insert
  contains-insert k j v [] = refl
  contains-insert k j v ((i, w) ∷ d) =
      ground (arith, eq_iff i k, eq_iff i j, eq_iff k j, contains-insert k j v d)

  pub distinct-insert :
      (k : String) (v : V) (d : Dict V) → distinct d ≡ true → distinct (insert k v d) ≡ true
  unfolding insert
  distinct-insert k v [] h = refl
  distinct-insert k v ((j, w) ∷ d) h =
      ground (arith, eq_iff j k, eq_iff k j, distinct-insert k v d, contains-insert k j v d)

  pub lookup-insert :
      (k j : String) (v : V) (d : Dict V)
      → lookup j (insert k v d) ≡ (if str_eq k j then some v else lookup j d)
  unfolding lookup insert
  lookup-insert k j v [] = refl
  lookup-insert k j v ((i, w) ∷ d) =
      ground (arith, eq_iff k j, eq_iff i k, eq_iff i j, lookup-insert k j v d)

  pub lookup-erase :
      (k j : String) (d : Dict V) → lookup j (erase k d) ≡ (if str_eq k j then none else lookup j d)
  unfolding lookup erase
  lookup-erase k j [] = ground arith
  lookup-erase k j ((i, w) ∷ d) =
      ground (arith, eq_iff k j, eq_iff i k, eq_iff i j, lookup-erase k j d)

  pub lookup_erased : (k : String) (d : Dict V) → lookup k (erase k d) ≡ none
  lookup_erased k d = ground (arith, lookup-erase k k d, eq_iff k k)
