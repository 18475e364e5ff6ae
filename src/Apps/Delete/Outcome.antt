-- ===== src/Apps/Delete/Outcome.antt =====
-- How deleting an app ends: the row, the services, and what Dokku said.
use fabroku_back_end.Base.{
  Bool, ℕ, String, ◌≡◌, true, false, Option, some, List, [], ◌∷◌, arith, any, truthy, or_else,
  is_some,
}
use fabroku_back_end.Models.App.{App, AppStatus, Field, set_fields, soft_delete_fields}
use fabroku_back_end.Models.Service.{is_live_of}
use fabroku_back_end.Runtime.World.{Env, IsQuiet, World}
use fabroku_back_end.Runtime.Effects.{Result, ok, err}
use fabroku_back_end.Runtime.Frame.{SameTables}
use fabroku_back_end.Apps.Delete.Dokku.{Gone}
use fabroku_back_end.Apps.Delete.{AppDeleted, execute}

abbrev failure_fields : String → List Field
failure_fields failure =
    Field.status AppStatus.error
    ∷ Field.error_type (some "DeleteAppFailed")
    ∷ Field.error_details (some failure)
    ∷ []

-- The evidence that an app with a Dokku name is gone from Dokku; none is asked of one without.
abbrev pub GoneIf : Env → String → Bool → Type 0
GoneIf env name true = Gone env name
GoneIf env name false = Unit

module _ (env : Env) (app row : App) where
  -- How a delete ends: the row, and no live service.
  abbrev pub Ends : Option ℕ → Result AppDeleted → World → Type 0
  Ends deleted_by_id (ok _) w =
      GoneIf env (or_else app.name_dokku "") (truthy app.name_dokku)
      × ((now : ℕ) × (w.apps app.id
            ≡ some (set_fields (soft_delete_fields now deleted_by_id app) row)))
      × (any (is_live_of app.id) w.services ≡ false)
  Ends deleted_by_id (err e) w =
      ((failure : String) × (w.apps app.id ≡ some (set_fields (failure_fields failure) row)))
      × (any (is_live_of app.id) w.services ≡ false)

module _ (env : Env) (q : IsQuiet env) (t : String) (app row : App) where
  -- What removing the app from Dokku leaves.
  abbrev Removes : World → Result (Unit {0}) → World → Type 0
  Removes w (ok _) w' =
      SameTables w w' × GoneIf env (or_else app.name_dokku "") (truthy app.name_dokku)
  Removes w (err e) w' =
      (failure : String) × (w'.apps app.id ≡ some (set_fields (failure_fields failure) row))
      × (w'.services ≡ w.services)

-- Deleting an app that is deleted already changes nothing.
pub delete_again :
    (env : Env) (task_id : Option String) (deleted_by_id : Option ℕ) (row : App) (w : World)
    → w.apps row.id ≡ some row
    → is_some row.deleted_at ≡ true
    → execute env row.id task_id deleted_by_id w ≡ (
      ok (record { app_id = row.id; dokku_app_name = row.name_dokku; already_deleted = true }),
      w,
    )
unfolding execute
delete_again env task_id deleted_by_id row w found gone = ground arith
