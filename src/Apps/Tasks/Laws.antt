-- ===== src/Apps/Tasks/Laws.antt =====
-- What a task does that comes too late, and how a task and the push that waits for it join.
use fabroku_back_end.Base.{
  ℕ, String, ◌≡◌, ◌≢◌, refl, true, false, Option, none, some, arith, is_some,
}
use fabroku_back_end.Models.App.{App}
use fabroku_back_end.Models.Errors.{operation_superseded}
use fabroku_back_end.Runtime.World.{Env, World, AppAction}
use fabroku_back_end.Runtime.Effects.{ok, err, is_active}
use fabroku_back_end.Ownership.{claim_app, claimable}
use fabroku_back_end.Ownership.Pending.{clear_pending_redeploy, run_pending_redeploy, fresh}
use fabroku_back_end.Ownership.Claim.{claim_world}
use fabroku_back_end.Apps.Manage.{execute}
use fabroku_back_end.Apps.Delete.{execute as delete_execute}
use fabroku_back_end.Apps.Tasks.{superseded, delete_app_task, manage_app_task}

delete_superseded :
    (env : Env) (t : String) (deleted_by_id : Option ℕ) (row : App) (w : World)
    → w.apps row.id ≡ some row
    → is_some row.deleted_at ≡ false
    → claimable t row ≡ false
    → delete_execute env row.id (some t) deleted_by_id w
      ≡ (err (operation_superseded row.id), claim_world t row w)
unfolding delete_execute claim_app
delete_superseded env t deleted_by_id row w found there taken = ground arith

manage_superseded :
    (env : Env) (t : String) (action : AppAction) (row : App) (w : World)
    → w.apps row.id ≡ some row
    → is_active row ≡ true
    → claimable t row ≡ false
    → execute env action (some t) row.id w
      ≡ (err (operation_superseded row.id), claim_world t row w)
unfolding execute claim_app
manage_superseded env t action row w found active taken = ground arith

-- A delete task that comes when another operation owns the app reports that it was superseded. It
-- calls nothing, and changes no app and no service; it drops the push that waits for the app, and
-- only that one.
pub delete_app_task_superseded :
    (env : Env) (t : String) (deleted_by_id : Option ℕ) (row : App) (w : World)
    → w.apps row.id ≡ some row
    → is_some row.deleted_at ≡ false
    → claimable t row ≡ false
    → let (r, w') = delete_app_task env t row.id deleted_by_id w in
      (r ≡ ok superseded)
      × (w'.calls ≡ w.calls)
      × ((j : ℕ) → w'.apps j ≡ w.apps j)
      × (w'.services ≡ w.services)
      × (w'.pending_redeploys row.id ≡ none)
      × ((j : ℕ) → j ≢ row.id → w'.pending_redeploys j ≡ w.pending_redeploys j)
unfolding delete_app_task clear_pending_redeploy
delete_app_task_superseded env t deleted_by_id row w found there taken =
    let cleared = (clear_pending_redeploy row.id w).1 in
    rw (found, delete_superseded env t deleted_by_id row cleared found there taken)
      (refl, refl, λ j. ground arith, refl, ground arith, λ j ne. ground arith)

-- A start, stop or restart task that comes when another operation owns the app, with no push
-- waiting, reports that it was superseded, and calls nothing and changes no app.
pub manage_app_task_superseded :
    (env : Env) (t : String) (action : AppAction) (row : App) (w : World)
    → w.apps row.id ≡ some row
    → is_active row ≡ true
    → claimable t row ≡ false
    → fresh w.clock (w.pending_redeploys row.id) ≡ none
    → let (r, w') = manage_app_task env t row.id action w in
      (r ≡ ok superseded) × (w'.calls ≡ w.calls) × ((j : ℕ) → w'.apps j ≡ w.apps j)
unfolding manage_app_task run_pending_redeploy
manage_app_task_superseded env t action row w found active taken nothing =
    rw (found, manage_superseded env t action row w found active taken, nothing)
      (refl, refl, λ j. ground arith)
