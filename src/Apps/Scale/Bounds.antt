-- ===== src/Apps/Scale/Bounds.antt =====
-- What a request to scale lets through.
use fabroku_back_end.Base.{
  ℕ, String, ◌≡◌, refl, Bool, true, false, not, ◌&&◌, [], ◌∷◌, leb, all, ◌==◌, strip_text,
  same_lower, pos, negsuc, arith, eq_iff, inl, inr,
}
use fabroku_back_end.Base.Dict.{Dict, insert}
use fabroku_back_end.Runtime.World.{Env}
use fabroku_back_end.Runtime.Effects.{ok, is_ok, Result-cases}
use fabroku_back_end.Apps.Scale.{
  RawQuantity, is_manageable_process_name, validate_quantity, validate_each,
  validate_process_quantities, get_process_max_instances,
}

-- A manageable process, at most `most` instances, and at least one of `web`.
abbrev pub is_allowed : ℕ → String × ℕ → Bool
is_allowed most (name, n) =
    is_manageable_process_name name && leb n most && not (same_lower name "web" && (n == 0))

validate_quantity-is_allowed :
    (most : ℕ) (name : String) (raw : RawQuantity) (n : ℕ)
    → validate_quantity most name raw ≡ ok n
    → is_allowed most (name, n) ≡ true
unfolding validate_quantity
validate_quantity-is_allowed most name raw n e = ground arith

all-insert :
    (p : String × ℕ → Bool) (k : String) (n : ℕ) (d : Dict ℕ)
    → p (k, n) ≡ true
    → all p d ≡ true
    → all p (insert k n d) ≡ true
unfolding insert
all-insert p k n [] new old = ground arith
all-insert p k n ((j, m) ∷ d) new old = ground (arith, eq_iff j k, all-insert p k n d new)

validate_each-is_allowed :
    (most : ℕ) (processes : Dict RawQuantity) (validated d : Dict ℕ)
    → all (is_allowed most) validated ≡ true
    → validate_each most processes validated ≡ ok d
    → all (is_allowed most) d ≡ true
unfolding validate_each
validate_each-is_allowed most [] validated d old e = ground arith
validate_each-is_allowed most ((raw_name, raw) ∷ rest) validated d old e =
    let name = strip_text raw_name in
    elim (Result-cases (validate_quantity most name raw)) [
      | inl (n, v) ↦
          validate_each-is_allowed most rest (insert name n validated) d
            (all-insert (is_allowed most) name n validated
              (validate_quantity-is_allowed most name raw n v) old)
            (ground arith)
      | inr (x, v) ↦ ground arith
    ]

-- What the request says of one process, with the blanks around its name taken off, and the fraction
-- of its quantity cut off
abbrev pub asks_allowed : ℕ → String × RawQuantity → Bool
asks_allowed most (raw_name, RawQuantity.no_number) = false
asks_allowed most (raw_name, RawQuantity.infinite) = false
asks_allowed most (raw_name, RawQuantity.whole (pos n)) = is_allowed most (strip_text raw_name, n)
asks_allowed most (raw_name, RawQuantity.whole (negsuc n)) = false
asks_allowed most (raw_name, RawQuantity.fraction false n) =
    is_allowed most (strip_text raw_name, n)
asks_allowed most (raw_name, RawQuantity.fraction true ℕ.zero) =
    is_allowed most (strip_text raw_name, 0)
asks_allowed most (raw_name, RawQuantity.fraction true (ℕ.suc n)) = false

validate_quantity-asks_allowed :
    (most : ℕ) (raw_name : String) (raw : RawQuantity)
    → is_ok (validate_quantity most (strip_text raw_name) raw) ≡ asks_allowed most (raw_name, raw)
unfolding validate_quantity
validate_quantity-asks_allowed most raw_name RawQuantity.no_number = ground arith
validate_quantity-asks_allowed most raw_name RawQuantity.infinite = ground arith
validate_quantity-asks_allowed most raw_name (RawQuantity.whole (pos n)) = ground arith
validate_quantity-asks_allowed most raw_name (RawQuantity.whole (negsuc n)) = ground arith
validate_quantity-asks_allowed most raw_name (RawQuantity.fraction false n) = ground arith
validate_quantity-asks_allowed most raw_name (RawQuantity.fraction true ℕ.zero) = ground arith
validate_quantity-asks_allowed most raw_name (RawQuantity.fraction true (ℕ.suc n)) = ground arith

validate_each-all :
    (most : ℕ) (processes : Dict RawQuantity) (validated : Dict ℕ)
    → is_ok (validate_each most processes validated) ≡ all (asks_allowed most) processes
unfolding validate_each
validate_each-all most [] validated = refl
validate_each-all most ((raw_name, raw) ∷ rest) validated =
    let name = strip_text raw_name in
    elim (Result-cases (validate_quantity most name raw)) [
      | inl (n, v) ↦ ground (
        arith,
        validate_quantity-asks_allowed most raw_name raw,
        validate_each-all most rest (insert name n validated),
      )
      | inr (x, v) ↦ ground (arith, validate_quantity-asks_allowed most raw_name raw)
    ]

-- A request to scale is accepted if and only if it names a process, and every process it names is
-- a manageable one, with a number that is, its fraction cut off towards 0, from 0 to the most
-- instances there may be, and at least 1 for `web`. So 2.9 counts as 2, and -0.5 as 0.
pub is_ok-validate_process_quantities :
    (env : Env) (p : String × RawQuantity) (processes : Dict RawQuantity)
    → (is_ok (validate_process_quantities env []) ≡ false)
      × (is_ok (validate_process_quantities env (p ∷ processes))
          ≡ all (asks_allowed (get_process_max_instances env)) (p ∷ processes))
unfolding validate_process_quantities
is_ok-validate_process_quantities env p processes =
    (refl, validate_each-all (get_process_max_instances env) (p ∷ processes) [])

-- Every quantity that a request to scale lets through is for a manageable process, is at most the
-- number of instances there may be, and is not 0 for `web`.
pub validate_process_quantities-is_allowed :
    (env : Env) (processes : Dict RawQuantity) (d : Dict ℕ)
    → validate_process_quantities env processes ≡ ok d
    → all (is_allowed (get_process_max_instances env)) d ≡ true
unfolding validate_process_quantities
validate_process_quantities-is_allowed env [] d e = ground arith
validate_process_quantities-is_allowed env (p ∷ processes) d e =
    validate_each-is_allowed (get_process_max_instances env) (p ∷ processes) [] d refl e
