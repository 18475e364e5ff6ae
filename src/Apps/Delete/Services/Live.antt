-- ===== src/Apps/Delete/Services/Live.antt =====
-- Soft-deleting every service of a list, and what is live afterwards.
use fabroku_back_end.Base.{
  ℕ, suc, ◌≡◌, refl, Bool, true, false, not, ◌||◌, Option, none, some, List, [], ◌∷◌, arith, ◌==◌,
  any, all, keep_if, update_where,
}
use fabroku_back_end.Models.Service.{Service, is_live_of, soft_delete}

abbrev pub listed : List Service → Service → Bool
listed l s = any (λ x. x.id == s.id) l

-- Every live service of the app is in the list.
abbrev pub covers : ℕ → List Service → List Service → Bool
covers app_id l = all (λ s. not (is_live_of app_id s) || listed l s)

is_live_of-soft_delete :
    (app_id now : ℕ) (d : Option ℕ) (s : Service) → is_live_of app_id (soft_delete now d s) ≡ false
is_live_of-soft_delete app_id now none s = ground arith
is_live_of-soft_delete app_id now (some ℕ.zero) s = ground arith
is_live_of-soft_delete app_id now (some (suc n)) s = ground arith

covers-cons :
    (app_id : ℕ) (x : Service) (l ss : List Service)
    → covers app_id l ss ≡ true
    → covers app_id (x ∷ l) ss ≡ true
covers-cons app_id x l [] h = refl
covers-cons app_id x l (s ∷ ss) h = ground (arith, covers-cons app_id x l ss)

pub covers-keep_if :
    (app_id : ℕ) (ss : List Service) → covers app_id (keep_if (is_live_of app_id) ss) ss ≡ true
covers-keep_if app_id [] = refl
covers-keep_if app_id (s ∷ ss) =
    ground
      (arith, covers-keep_if app_id ss, covers-cons app_id s (keep_if (is_live_of app_id) ss) ss)

pub covers-update_where :
    (app_id now : ℕ) (d : Option ℕ) (x : Service) (l ss : List Service)
    → covers app_id (x ∷ l) ss ≡ true
    → covers app_id l (update_where (λ s. s.id == x.id) (soft_delete now d) ss) ≡ true
covers-update_where app_id now d x l [] h = refl
covers-update_where app_id now d x l (s ∷ ss) h =
    ground (arith, is_live_of-soft_delete app_id now d s, covers-update_where app_id now d x l ss)

pub live-covers_nil :
    (app_id : ℕ) (ss : List Service)
    → covers app_id [] ss ≡ true
    → any (is_live_of app_id) ss ≡ false
live-covers_nil app_id [] h = refl
live-covers_nil app_id (s ∷ ss) h = ground (arith, live-covers_nil app_id ss)
