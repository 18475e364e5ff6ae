-- ===== src/Apps/Tasks.antt =====
-- applications/tasks.py: `manage_app_task`, `delete_app_task` and `deploy_app_task`, which run a use case, read
-- `OperationSuperseded` as a result, and let a push that waited go on.
mod Laws
use fabroku_back_end.Base.{ℕ, String, Bool, true, false, Option, none, some, if◌then◌else◌}
use fabroku_back_end.Models.App.{App}
use fabroku_back_end.Models.Errors.{Error, operation_superseded, does_not_exist}
use fabroku_back_end.Runtime.World.{Env, World, AppAction}
use fabroku_back_end.Runtime.Effects.{
  Action, Result, ok, err, pure, raise, catch, or_raise, ◌>>=◌, ◌>>◌,
}
use fabroku_back_end.Ownership.Pending.{clear_pending_redeploy, run_pending_redeploy}
use fabroku_back_end.Apps.Manage.{execute}
use fabroku_back_end.Apps.Deploy.{AppDeployed, DeployAppCommand, execute as deploy_execute}
use fabroku_back_end.Apps.Delete.{AppDeleted, execute as delete_execute}

-- The `status` of the task's result, with what it adds on success.
pub data Report {ℓ} (A : Type ℓ) : Type ℓ where
  superseded : Report A
  done : A → Report A

abbrev pub is_superseded : Error → Bool
is_superseded (operation_superseded _) = true
is_superseded _ = false

-- `App.objects.get(id=id)`, which finds deleted rows too
abbrev pub get_app : ℕ → Action App
get_app id w = or_raise does_not_exist (w.apps id) w

module _ {A : Type 0} where
  -- `except OperationSuperseded: return {'status': 'superseded', ...}`
  abbrev pub reporting : Action A → Action (Report A)
  reporting m =
      catch (do a ← m; pure (done a)) λ e. if is_superseded e then pure superseded else raise e

  abbrev keep_result : Result A → Result (Option String) → Result A
  keep_result r (ok _) = r
  keep_result r (err e) = err e

  -- `finally: run_pending_redeploy(app_id, self.request.id)`, whose own error replaces the result
  abbrev pub finally : Action A → Action (Option String) → Action A
  finally m k w = let (r, w1) = m w in let (r', w2) = k w1 in (keep_result r r', w2)

-- `manage_app_task`
unfoldable pub manage_app_task : Env → String → ℕ → AppAction → Action (Report String)
manage_app_task env task_id app_id action = do
  get_app app_id
  finally (reporting (execute env action (some task_id) app_id))
      (run_pending_redeploy env app_id (some task_id))

-- `delete_app_task`
unfoldable pub delete_app_task : Env → String → ℕ → Option ℕ → Action (Report AppDeleted)
delete_app_task env task_id app_id deleted_by_id = do
  get_app app_id
  clear_pending_redeploy app_id
  reporting (delete_execute env app_id (some task_id) deleted_by_id)

-- `deploy_app_task`
unfoldable pub deploy_app_task :
    Env → String → ℕ → Option String → Option ℕ → Action (Report AppDeployed)
deploy_app_task env task_id app_id commit requested_by_id = do
  get_app app_id
  finally
      (reporting (
        deploy_execute env (record {
          app_id = app_id;
          task_id = some task_id;
          commit_sha = commit;
          user_id = requested_by_id;
        })))
      (run_pending_redeploy env app_id (some task_id))
