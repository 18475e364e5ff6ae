-- ===== src/Sessions/Evolution.antt =====
-- How rows of the sessions table change: every transaction moves each row by steps of a few kinds.
use fabroku_back_end.Base.{
  ℕ, String, Bool, List, [], ◌∷◌, update_where, Codes, inl, inr, Bool-cases,
}
use fabroku_back_end.Sessions.Model.{Session, Settings}
use fabroku_back_end.Sessions.Rows.{
  PromptMatch, expire, mark, touch, submit, request_cancel, consume_answer, set_prompt, count_chunk,
}
use fabroku_back_end.Sessions.Runners.{release, claimed_by}
use fabroku_back_end.Sessions.Loop.{Ending, final_status}

pub data RowStep (c : Settings) (s : Session) : Session → Type 0 where
  expired : (now : ℕ) → RowStep c s (expire now s)
  marked : (now : ℕ) (e : Ending) → RowStep c s (mark now (final_status e) s)
  touched : (now : ℕ) → RowStep c s (touch c now s)
  submitted :
      (now : ℕ) (prompt_id : String) (value : Codes)
      → RowStep c s (submit c now prompt_id value s).1
  cancelled : (now : ℕ) → RowStep c s (request_cancel c now s)
  consumed : (now : ℕ) → RowStep c s (consume_answer c now s).1
  prompted : (now : ℕ) (m : PromptMatch) → RowStep c s (set_prompt c now m s)
  counted : (now : ℕ) → RowStep c s (count_chunk c now s)
  released : RowStep c s (release c s)
  claimed : (runner : String) (now : ℕ) → RowStep c s (claimed_by runner now s)

pub data RowSteps (c : Settings) (s : Session) : Session → Type 0 where
  stay : RowSteps c s s
  and_then : {u v : Session} → RowSteps c s u → RowStep c u v → RowSteps c s v

pub data Evolves (c : Settings) : List Session → List Session → Type 0 where
  nil : Evolves c [] []
  cons :
      {s u : Session} {xs ys : List Session}
      → RowSteps c s u
      → Evolves c xs ys
      → Evolves c (s ∷ xs) (u ∷ ys)

module _ (c : Settings) where
  pub RowSteps-trans : {s u v : Session} → RowSteps c s u → RowSteps c u v → RowSteps c s v
  RowSteps-trans first RowSteps.stay = first
  RowSteps-trans first (RowSteps.and_then rest step) =
      RowSteps.and_then (RowSteps-trans first rest) step

  pub once : {s u : Session} → RowStep c s u → RowSteps c s u
  once step = RowSteps.and_then RowSteps.stay step

  pub Evolves-refl : (xs : List Session) → Evolves c xs xs
  Evolves-refl [] = Evolves.nil
  Evolves-refl (x ∷ xs) = Evolves.cons RowSteps.stay (Evolves-refl xs)

  pub Evolves-trans :
      {xs ys zs : List Session} → Evolves c xs ys → Evolves c ys zs → Evolves c xs zs
  Evolves-trans Evolves.nil second = second
  Evolves-trans (Evolves.cons s e) (Evolves.cons s' e') =
      Evolves.cons (RowSteps-trans s s') (Evolves-trans e e')

  pub Evolves-update_where :
      (p : Session → Bool) (f : Session → Session) (xs : List Session)
      → ((x : Session) → RowSteps c x (f x))
      → Evolves c xs (update_where p f xs)
  Evolves-update_where p f [] steps = Evolves.nil
  Evolves-update_where p f (x ∷ xs) steps = elim (Bool-cases (p x)) [
    | inl e ↦ rw e (Evolves.cons (steps x) (Evolves-update_where p f xs steps))
    | inr e ↦ rw e (Evolves.cons RowSteps.stay (Evolves-update_where p f xs steps))
  ]
