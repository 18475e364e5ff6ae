-- ===== src/Ownership/Claim.antt =====
-- What a task's claim does: it goes through, or the task stops there with nothing written.
use fabroku_back_end.Base.{ℕ, String, ◌≡◌, false, true, some, [], ◌∷◌, arith}
use fabroku_back_end.Models.App.{App, Field}
use fabroku_back_end.Models.Errors.{operation_superseded}
use fabroku_back_end.Runtime.World.{World}
use fabroku_back_end.Runtime.Effects.{ok, err, change, row_matches}
use fabroku_back_end.Ownership.{claim_app, claimable}

-- The state after a claim that goes through.
abbrev pub claim_world : String → App → World → World
claim_world t row w = record w {
  apps = change row.id (claimable t) (Field.task_id (some t) ∷ []) w.apps;
}

module _ (t : String) (row : App) (w : World) where
  -- The row is free or the task's own already.
  pub claim_app-eq :
      w.apps row.id ≡ some row
      → claimable t row ≡ true
      → claim_app row (some t) w ≡ (ok (record row { task_id = some t }), claim_world t row w)
  unfolding claim_app
  claim_app-eq found free = ground arith

  -- Another operation owns the row.
  pub claim_app_superseded :
      row_matches (claimable t) (w.apps row.id) ≡ false
      → let (r, w') = claim_app row (some t) w in
        (r ≡ err (operation_superseded row.id)) × ((j : ℕ) → w'.apps j ≡ w.apps j)
  unfolding claim_app
  claim_app_superseded taken = (ground arith, λ j. ground arith)
