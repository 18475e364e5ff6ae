-- ===== src/Runtime/Ensures.antt =====
-- What the value says that an action returns, when it returns: one rule for each way to build one.
use fabroku_back_end.Base.{String, ◌≡◌, refl, Bool, true, false, List, if◌then◌else◌}
use fabroku_back_end.Models.Errors.{Error}
use fabroku_back_end.Runtime.World.{Env, World, Call, Reply, answered, failed}
use fabroku_back_end.Runtime.Effects.{
  Result, ok, err, Action, pure, raise, catch, recover, continue, call, ask, receive, after_call,
  ◌>>=◌, ◌>>◌,
}

abbrev pub Returned {ℓ} : {A : Type ℓ} → (A → Type 0) → Result A → Type 0
Returned P (ok a) = P a
Returned P (err e) = Unit

pub record Ensures {ℓ} {A : Type ℓ} (P : A → Type 0) (m : Action A) : Type 0 where
  pub at : (w : World) → Returned P (m w).0

module _ {ℓ} {A : Type ℓ} (P : A → Type 0) where
  pub Ensures-pure : (a : A) → P a → Ensures P (pure a)
  Ensures-pure a p = record { at = λ w. p }

  pub Ensures-raise : (e : Error) → Ensures P (raise e)
  Ensures-raise e = record { at = λ w. tt }

  Returned-recover :
      (r : Result A) (h : Error → Action A) (w : World)
      → Returned P r
      → ((e : Error) → Ensures P (h e))
      → Returned P (recover r h w).0
  Returned-recover (ok a) h w p k = p
  Returned-recover (err e) h w p k = (k e).at w

  pub Ensures-catch :
      (m : Action A) (h : Error → Action A)
      → Ensures P m
      → ((e : Error) → Ensures P (h e))
      → Ensures P (catch m h)
  Ensures-catch m h km kh = record { at = λ w. Returned-recover (m w).0 h (m w).1 (km.at w) kh }

  pub Ensures-if :
      (b : Bool) (m n : Action A)
      → (b ≡ true → Ensures P m)
      → (b ≡ false → Ensures P n)
      → Ensures P (if b then m else n)
  Ensures-if true m n km kn = km refl
  Ensures-if false m n km kn = kn refl

module _ {ℓ κ} {A : Type ℓ} {B : Type κ} (Q : A → Type 0) (P : B → Type 0) where
  Returned-continue :
      (r : Result A) (f : A → Action B) (w : World)
      → Returned Q r
      → ((a : A) → Q a → Ensures P (f a))
      → Returned P (continue r f w).0
  Returned-continue (ok a) f w q k = (k a q).at w
  Returned-continue (err e) f w q k = tt

  pub Ensures-bind :
      (m : Action A) (f : A → Action B)
      → Ensures Q m
      → ((a : A) → Q a → Ensures P (f a))
      → Ensures P (m >>= f)
  Ensures-bind m f km kf = record { at = λ w. Returned-continue (m w).0 f (m w).1 (km.at w) kf }

abbrev pub Anything {ℓ} : {A : Type ℓ} → A → Type 0
Anything _ = Unit

Returned-Anything {ℓ} : {A : Type ℓ} (r : Result A) → Returned Anything r
Returned-Anything (ok a) = tt
Returned-Anything (err e) = tt

pub Ensures-any {ℓ} : {A : Type ℓ} (m : Action A) → Ensures Anything m
Ensures-any m = record { at = λ w. Returned-Anything (m w).0 }

module _ {ℓ κ} {A : Type ℓ} {B : Type κ} (P : B → Type 0) where
  pub Ensures-then : (m : Action A) (n : Action B) → Ensures P n → Ensures P (m >> n)
  Ensures-then m n kn = Ensures-bind Anything P m (λ _. n) (Ensures-any m) (λ _ _. kn)

module _ (env : Env) (c : Call) where
  -- Some calls had been made when the call was answered so.
  abbrev pub WasAnswered : String → Type 0
  WasAnswered text = (h : List Call) × (env.text_reply h c ≡ answered text)

  abbrev pub WasFlagged : Bool → Type 0
  WasFlagged flag = (h : List Call) × (env.flag_reply h c ≡ answered flag)

  received_text :
      (r : Reply String) (h : List Call) (w : World)
      → env.text_reply h c ≡ r
      → Returned WasAnswered (receive env r w).0
  received_text (answered text) h w e = (h, e)
  received_text (failed text) h w e = tt

  pub Ensures-call : Ensures WasAnswered (call env c)
  Ensures-call = record {
    at = λ w. received_text (env.text_reply w.calls c) w.calls (after_call env c w) refl;
  }

  received_flag :
      (r : Reply Bool) (h : List Call) (w : World)
      → env.flag_reply h c ≡ r
      → Returned WasFlagged (receive env r w).0
  received_flag (answered flag) h w e = (h, e)
  received_flag (failed text) h w e = tt

  pub Ensures-ask : Ensures WasFlagged (ask env c)
  Ensures-ask = record {
    at = λ w. received_flag (env.flag_reply w.calls c) w.calls (after_call env c w) refl;
  }
