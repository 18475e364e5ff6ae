-- ===== src/Runtime/Triples.antt =====
-- Where an action leads the row of one app, from what holds of it before to what holds after a
-- result and after an exception: one rule for each way to build an action.
use fabroku_back_end.Base.{
  ℕ, String, ◌≡◌, refl, sym, Bool, true, false, List, Option, if◌then◌else◌, arith,
}
use mathlib.Core.Path.{subst}
use fabroku_back_end.Base.Dict.{Dict}
use fabroku_back_end.Models.App.{App, ProcessScale}
use fabroku_back_end.Models.Errors.{Error}
use fabroku_back_end.Runtime.World.{Cached, World}
use fabroku_back_end.Runtime.Effects.{
  Result, ok, err, Action, pure, raise, catch, recover, continue, when, gets, write, is_ok, ◌>>=◌,
  ◌>>◌,
}
use fabroku_back_end.Runtime.Frame.{Frame, frame_rules}

-- What is said of a row, which may not be there.
abbrev pub Row : Type 1
Row = Option App → Type 0

abbrev pub Outcome {ℓ} : {A : Type ℓ} → (A → Row) → Row → Result A → Row
Outcome Q E (ok a) o = Q a o
Outcome Q E (err e) o = E o

module _ (id : ℕ) where
  pub record Keeps {ℓ} {A : Type ℓ} (P : Row) (m : Action A) : Type ℓ where
    pub at : (w : World) → P (w.apps id) → P ((m w).1.apps id)

  pub record Leads {ℓ} {A : Type ℓ} (P : Row) (m : Action A) (Q : A → Row) (E : Row) : Type ℓ where
    pub at : (w : World) → P (w.apps id) → Outcome Q E (m w).0 ((m w).1.apps id)

  module _ {ℓ} {A : Type ℓ} (P : Row) where
    pub Keeps-Frame : (m : Action A) → Frame m → Keeps P m
    Keeps-Frame m k = record { at = λ w p. subst P (sym ((k.same w).apps id)) p }

    Keeps-recover :
        (r : Result A) (h : Error → Action A) (w : World)
        → P (w.apps id)
        → ((e : Error) → Keeps P (h e))
        → P ((recover r h w).1.apps id)
    Keeps-recover (ok a) h w p k = p
    Keeps-recover (err e) h w p k = (k e).at w p

    pub Keeps-catch :
        (m : Action A) (h : Error → Action A)
        → Keeps P m
        → ((e : Error) → Keeps P (h e))
        → Keeps P (catch m h)
    Keeps-catch m h km kh = record { at = λ w p. Keeps-recover (m w).0 h (m w).1 (km.at w p) kh }

    pub Keeps-if :
        (b : Bool) (m n : Action A) → Keeps P m → Keeps P n → Keeps P (if b then m else n)
    Keeps-if true m n km kn = km
    Keeps-if false m n km kn = kn

    pub Leads-Keeps : (m : Action A) → Keeps P m → Leads P m (λ _. P) P
    Leads-Keeps m k = record { at = λ w p. outcome (m w).0 ((m w).1.apps id) (k.at w p) }
      where
        outcome : (r : Result A) (o : Option App) → P o → Outcome (λ _. P) P r o
        outcome (ok a) o p = p
        outcome (err e) o p = p

  module _ {ℓ} {A : Type ℓ} (P E : Row) where
    outcome_ok : (r : Result A) (o : Option App) → is_ok r ≡ true → P o → Outcome (λ _. P) E r o
    outcome_ok (ok a) o returned p = p
    outcome_ok (err e) o returned p = ground arith

    -- An action that never raises leads to no exception.
    pub Leads-returns :
        (m : Action A) → Keeps P m → ((w : World) → is_ok (m w).0 ≡ true) → Leads P m (λ _. P) E
    Leads-returns m k returned = record {
      at = λ w p. outcome_ok (m w).0 ((m w).1.apps id) (returned w) (k.at w p);
    }

  module _ {ℓ} {A : Type ℓ} (P : Row) (Q : A → Row) (E : Row) where
    pub Leads-pure : (a : A) → ((o : Option App) → P o → Q a o) → Leads P (pure a) Q E
    Leads-pure a f = record { at = λ w p. f (w.apps id) p }

    pub Leads-raise : (e : Error) → ((o : Option App) → P o → E o) → Leads P (raise e) Q E
    Leads-raise e f = record { at = λ w p. f (w.apps id) p }

    Outcome-weaken :
        (F : Row) (r : Result A) (o : Option App)
        → ((o' : Option App) → E o' → F o')
        → Outcome Q E r o
        → Outcome Q F r o
    Outcome-weaken F (ok a) o f p = p
    Outcome-weaken F (err e) o f p = f o p

    pub Leads-weaken :
        (F : Row) (m : Action A) → ((o : Option App) → E o → F o) → Leads P m Q E → Leads P m Q F
    Leads-weaken F m f k = record {
      at = λ w p. Outcome-weaken F (m w).0 ((m w).1.apps id) f (k.at w p);
    }

    -- What follows may suppose that the test came out as it did.
    pub Leads-if :
        (b : Bool) (m n : Action A)
        → (b ≡ true → Leads P m Q E)
        → (b ≡ false → Leads P n Q E)
        → Leads P (if b then m else n) Q E
    Leads-if true m n km kn = km refl
    Leads-if false m n km kn = kn refl

    Outcome-recover :
        (R : Row) (r : Result A) (h : Error → Action A) (w : World)
        → Outcome Q R r (w.apps id)
        → ((e : Error) → Leads R (h e) Q E)
        → let (r', w') = recover r h w in Outcome Q E r' (w'.apps id)
    Outcome-recover R (ok a) h w p k = p
    Outcome-recover R (err e) h w p k = (k e).at w p

    pub Leads-catch :
        (R : Row) (m : Action A) (h : Error → Action A)
        → Leads P m Q R
        → ((e : Error) → Leads R (h e) Q E)
        → Leads P (catch m h) Q E
    Leads-catch R m h km kh = record {
      at = λ w p. Outcome-recover R (m w).0 h (m w).1 (km.at w p) kh;
    }

  module _ {ℓ κ} {A : Type ℓ} {B : Type κ} (P : Row) where
    Keeps-continue :
        (r : Result A) (f : A → Action B) (w : World)
        → P (w.apps id)
        → ((a : A) → Keeps P (f a))
        → P ((continue r f w).1.apps id)
    Keeps-continue (ok a) f w p k = (k a).at w p
    Keeps-continue (err e) f w p k = p

    pub Keeps-bind :
        (m : Action A) (f : A → Action B)
        → Keeps P m
        → ((a : A) → Keeps P (f a))
        → Keeps P (m >>= f)
    Keeps-bind m f km kf = record { at = λ w p. Keeps-continue (m w).0 f (m w).1 (km.at w p) kf }

  module _ {ℓ κ} {A : Type ℓ} {B : Type κ} (P : Row) (Q : B → Row) (E : Row) where
    Outcome-continue :
        (R : A → Row) (r : Result A) (f : A → Action B) (w : World)
        → Outcome R E r (w.apps id)
        → ((a : A) → Leads (R a) (f a) Q E)
        → let (r', w') = continue r f w in Outcome Q E r' (w'.apps id)
    Outcome-continue R (ok a) f w p k = (k a).at w p
    Outcome-continue R (err e) f w p k = p

    pub Leads-bind :
        (R : A → Row) (m : Action A) (f : A → Action B)
        → Leads P m R E
        → ((a : A) → Leads (R a) (f a) Q E)
        → Leads P (m >>= f) Q E
    Leads-bind R m f km kf = record {
      at = λ w p. Outcome-continue R (m w).0 f (m w).1 (km.at w p) kf;
    }

  -- What an action keeps, it may do first.
  module _ {ℓ κ} {A : Type ℓ} {B : Type κ} (P : Row) (Q : B → Row) (E : Row) where
    pub Leads-after :
        (m : Action A) (f : A → Action B)
        → ((o : Option App) → P o → E o)
        → Keeps P m
        → ((a : A) → Leads P (f a) Q E)
        → Leads P (m >>= f) Q E
    Leads-after m f weaker km kf =
        Leads-bind P Q E (λ _. P) m f
          (record { at = λ w p. weakened (m w).0 ((m w).1.apps id) (km.at w p) }) kf
      where
        weakened : (r : Result A) (o : Option App) → P o → Outcome (λ _. P) E r o
        weakened (ok a) o p = p
        weakened (err e) o p = weaker o p

module _ {ℓ κ} {A : Type ℓ} {B : Type κ} (id : ℕ) (P : Row) where
  pub Keeps-then : (m : Action A) (n : Action B) → Keeps id P m → Keeps id P n → Keeps id P (m >> n)
  Keeps-then m n km kn = Keeps-bind id P m (λ _. n) km (λ _. kn)

pub Keeps-when :
    (id : ℕ) (P : Row) (b : Bool) (m : Action (Unit {0})) → Keeps id P m → Keeps id P (when b m)
Keeps-when id P true m k = k
Keeps-when id P false m k = record { at = λ w p. p }

pub Keeps-gets {ℓ} : {A : Type ℓ} (id : ℕ) (P : Row) (f : World → A) → Keeps id P (gets f)
Keeps-gets id P f = record { at = λ w p. p }

-- The table of process scales and the commits that wait are kept elsewhere.
pub Keeps-commit_checks :
    (id : ℕ) (P : Row) (f : World → Dict (Cached String))
    → Keeps id P (write λ w. record w { commit_checks = f w })
Keeps-commit_checks id P f = record { at = λ w p. p }

pub Keeps-scales :
    (id : ℕ) (P : Row) (f : World → List ProcessScale)
    → Keeps id P (write λ w. record w { scales = f w })
Keeps-scales id P f = record { at = λ w p. p }

-- `frame_rules` goes with these.
pub ruleset keeps_rules = (
  frame_rules, Keeps-Frame, Keeps-catch, Keeps-if, Keeps-bind, Keeps-then, Keeps-when, Keeps-scales,
  Keeps-gets, Keeps-commit_checks,
)
