-- ===== src/Services/Rows.antt =====
-- The rows of the services table that a use case finds and saves.
pub mod Ends
use fabroku_back_end.Base.{
  ℕ, ◌≡◌, refl, ap, ◌∙◌, Bool, true, false, Option, none, some, List, [], ◌∷◌, ◌==◌, find,
  update_where, is_some, arith, if◌then◌else◌, not, ◌&&◌, any, str_eq, holds_text, String,
}
use fabroku_back_end.Models.Service.{Service, is_live_of}
use fabroku_back_end.Models.App.{Field}
use fabroku_back_end.Models.Errors.{does_not_exist, database_error}
use fabroku_back_end.Runtime.World.{World}
use fabroku_back_end.Runtime.Effects.{
  Action, Result, ok, err, or_raise, continue, when, save_fields, ◌>>=◌, ◌>>◌,
}
use fabroku_back_end.Runtime.Frame.{Frame}

-- `Service.objects.filter(id=id).first()`
abbrev pub service_row : ℕ → World → Option Service
service_row id w = find (λ s. s.id == id) w.services

abbrev pub only_live : Option Service → Option Service
only_live none = none
only_live (some s) = if is_some s.deleted_at then none else some s

-- `Service.objects.get(id=id, deleted_at__isnull=True)`
abbrev pub get_live_service : ℕ → Action Service
get_live_service id w = or_raise does_not_exist (only_live (service_row id w)) w

-- `service.save(update_fields=[...])`, with the new values
abbrev pub save_service : ℕ → (Service → Service) → Action (Unit {0})
save_service id f w =
    if is_some (service_row id w)
    then (ok tt, record w { services = update_where (λ s. s.id == id) f w.services })
    else (err database_error, w)

-- The constraint that live services of one app have different keys; the empty text is none.
abbrev pub clashes : Option ℕ → Option String → ℕ → Service → Bool
clashes (some app_id) (some key) id s =
    not (str_eq key "") && not (s.id == id) && is_live_of app_id s && holds_text s.env_key key
clashes _ _ id s = false

unfoldable pub check_unique : Option ℕ → Option String → ℕ → Action (Unit {0})
check_unique app_id key id w =
    (if any (clashes app_id key id) w.services then err database_error else ok tt, w)

-- The row of one service is the same after an action.
pub record SameService {ℓ} {A : Type ℓ} (id : ℕ) (m : Action A) : Type ℓ where
  pub same : (w : World) → service_row id (m w).1 ≡ service_row id w

module _ (id : ℕ) where
  module _ {ℓ} {A : Type ℓ} where
    pub SameService-Frame : (m : Action A) → Frame m → SameService id m
    SameService-Frame m k = record {
      same = λ w. ap (find (λ (s : Service). s.id == id)) (k.same w).services;
    }

    pub SameService-if :
        (b : Bool) (m n : Action A)
        → SameService id m
        → SameService id n
        → SameService id (if b then m else n)
    SameService-if true m n km kn = km
    SameService-if false m n km kn = kn

  module _ {ℓ κ} {A : Type ℓ} {B : Type κ} where
    same_continue :
        (r : Result A) (f : A → Action B) (w : World)
        → ((a : A) → SameService id (f a))
        → service_row id (continue r f w).1 ≡ service_row id w
    same_continue (ok a) f w k = (k a).same w
    same_continue (err e) f w k = refl

    pub SameService-bind :
        (m : Action A) (f : A → Action B)
        → SameService id m
        → ((a : A) → SameService id (f a))
        → SameService id (m >>= f)
    SameService-bind m f km kf = record {
      same = λ w. same_continue (m w).0 f (m w).1 kf ∙ km.same w;
    }

  pub SameService-check_unique :
      (app_id : Option ℕ) (key : Option String) (other : ℕ)
      → SameService id (check_unique app_id key other)
  unfolding check_unique
  SameService-check_unique app_id key other = record { same = λ w. refl }

  pub SameService-when :
      (b : Bool) (m : Action (Unit {0})) → SameService id m → SameService id (when b m)
  SameService-when true m k = k
  SameService-when false m k = record { same = λ w. refl }

  pub SameService-save_fields :
      (app_id : ℕ) (fs : List Field) → SameService id (save_fields app_id fs)
  SameService-save_fields app_id fs = record { same = λ w. ground arith }

  find-update_other :
      (other : ℕ) (f : Service → Service) (ss : List Service)
      → (other == id) ≡ false
      → ((s : Service) → (f s).id ≡ s.id)
      → find (λ s. s.id == id) (update_where (λ s. s.id == other) f ss) ≡ find (λ s. s.id == id) ss
  find-update_other other f [] ne keeps = refl
  find-update_other other f (s ∷ ss) ne keeps =
      ground (arith, keeps s, find-update_other other f ss ne keeps)

  pub find-update_own :
      (f : Service → Service) (s : Service) (ss : List Service)
      → ((s' : Service) → (f s').id ≡ s'.id)
      → find (λ s'. s'.id == id) ss ≡ some s
      → find (λ s'. s'.id == id) (update_where (λ s'. s'.id == id) f ss) ≡ some (f s)
  find-update_own f s [] keeps found = ground arith
  find-update_own f s (s' ∷ ss) keeps found = ground (arith, keeps s', find-update_own f s ss keeps)

  pub SameService-save_service :
      (other : ℕ) (f : Service → Service)
      → (other == id) ≡ false
      → ((s : Service) → (f s).id ≡ s.id)
      → SameService id (save_service other f)
  SameService-save_service other f ne keeps = record {
    same = λ w. ground (arith, find-update_other other f w.services ne keeps);
  }

  -- A save of the row itself.
  pub save_service_own :
      (f : Service → Service) (s : Service) (w : World)
      → ((s' : Service) → (f s').id ≡ s'.id)
      → service_row id w ≡ some s
      → ((save_service id f w).0 ≡ ok tt) × (service_row id (save_service id f w).1 ≡ some (f s))
  save_service_own f s w keeps found =
      (ground arith, ground (arith, find-update_own f s w.services keeps found))

module _ {ℓ κ} {A : Type ℓ} {B : Type κ} (id : ℕ) where
  pub SameService-then :
      (m : Action A) (n : Action B) → SameService id m → SameService id n → SameService id (m >> n)
  SameService-then m n km kn = SameService-bind id m (λ _. n) km (λ _. kn)
