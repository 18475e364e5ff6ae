-- ===== src/Services/Rows/Ends.antt =====
-- What an action leaves of the row of one service: rules for the steps that leave it alone, and for
-- the step that saves it.
use fabroku_back_end.Base.{ℕ, ◌≡◌, refl, ◌∙◌, Bool, true, false, Option, some, if◌then◌else◌}
use fabroku_back_end.Models.Service.{Service}
use fabroku_back_end.Models.Errors.{Error}
use fabroku_back_end.Runtime.World.{World}
use fabroku_back_end.Runtime.Effects.{Action, Result, ok, err, continue, ◌>>=◌, ◌>>◌}
use fabroku_back_end.Runtime.Ensures.{Returned, Ensures}
use fabroku_back_end.Services.Rows.{service_row, save_service, save_service_own, SameService}

-- A result and a row that an action may end with
abbrev pub Ending : Type 0 → Type 1
Ending A = Result A → Option Service → Type 0

-- From the row `s`, the action ends so.
pub record Ends {A : Type 0} (E : Ending A) (id : ℕ) (s : Service) (m : Action A) : Type 0 where
  pub at : (w : World) → service_row id w ≡ some s → let (r, w') = m w in E r (service_row id w')

module _ {A : Type 0} (E : Ending A) (id : ℕ) (s : Service) where
  pub Ends-if :
      (b : Bool) (m n : Action A)
      → (b ≡ true → Ends E id s m)
      → (b ≡ false → Ends E id s n)
      → Ends E id s (if b then m else n)
  Ends-if true m n km kn = km refl
  Ends-if false m n km kn = kn refl

  ends_save :
      (f : Service → Service) (n : Action A) (w : World)
      → Ends E id (f s) n
      → (save_service id f w).0 ≡ ok tt
      → service_row id (save_service id f w).1 ≡ some (f s)
      → let (r, w') = (save_service id f >> n) w in E r (service_row id w')
  ends_save f n w k e found = rw e (k.at (save_service id f w).1 found)

  -- The save of the row
  pub Ends-save :
      (f : Service → Service) (n : Action A)
      → ((s' : Service) → (f s').id ≡ s'.id)
      → Ends E id (f s) n
      → Ends E id s (save_service id f >> n)
  Ends-save f n keeps k = record {
    at = λ w found.
        let saved = save_service_own id f s w keeps found in ends_save f n w k saved.0 saved.1;
  }

  module _ (raises : (e : Error) → E (err e) (some s)) where
    ends_continue :
        {B : Type 0} (F : B → Type 0) (r : Result B) (f : B → Action A) (w : World)
        → service_row id w ≡ some s
        → Returned F r
        → ((b : B) → F b → Ends E id s (f b))
        → let (r', w') = continue r f w in E r' (service_row id w')
    ends_continue F (ok b) f w found p k = (k b p).at w found
    ends_continue F (err e) f w found p k = rw found (raises e)

    -- A step that leaves the row alone, and what it ensures
    pub Ends-bind :
        {B : Type 0} (F : B → Type 0) (m : Action B) (f : B → Action A)
        → SameService id m
        → Ensures F m
        → ((b : B) → F b → Ends E id s (f b))
        → Ends E id s (m >>= f)
    Ends-bind F m f same ensures k = record {
      at = λ w found. ends_continue F (m w).0 f (m w).1 (same.same w ∙ found) (ensures.at w) k;
    }

    ends_next :
        {B : Type 0} (r : Result B) (n : Action A) (w : World)
        → service_row id w ≡ some s
        → Ends E id s n
        → let (r', w') = continue r (λ _. n) w in E r' (service_row id w')
    ends_next (ok b) n w found k = k.at w found
    ends_next (err e) n w found k = rw found (raises e)

    pub Ends-then :
        {B : Type 0} (m : Action B) (n : Action A)
        → SameService id m
        → Ends E id s n
        → Ends E id s (m >> n)
    Ends-then m n same k = record {
      at = λ w found. ends_next (m w).0 n (m w).1 (same.same w ∙ found) k;
    }
