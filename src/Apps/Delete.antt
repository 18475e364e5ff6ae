-- ===== src/Apps/Delete.antt =====
-- applications/use_cases/delete_app.py, with the helpers of
-- core/apps/mixins/services/service_dokku.py that it calls.
pub mod Services
pub mod Dokku
mod Safety
mod Outcome
mod Tests
use fabroku_back_end.Base.{
  ℕ, String, Bool, true, false, not, ◌&&◌, Option, none, some, List, [], ◌∷◌, truthy, or_else,
  is_some, str_eq, text_contains, if◌then◌else◌,
}
use fabroku_back_end.Models.App.{App, AppStatus, Field, soft_delete_fields}
use fabroku_back_end.Models.Errors.{Error, infrastructure_error, message}
use fabroku_back_end.Runtime.World.{
  Env, World, Notice, Call, delete_app, cleanup_app, exists_app, remove_webhook, Level, Category,
}
use fabroku_back_end.Runtime.Effects.{
  Action, ok, pure, raise, catch, gets, log, call, ask, notify_admins, save_fields, ◌>>=◌, ◌>>◌,
}
use fabroku_back_end.Dokku.{dokku_output_failed}
use fabroku_back_end.Ownership.{claim_app, save_if_owner}
use fabroku_back_end.Apps.Delete.Services.{delete_linked_services}

pub record AppDeleted : Type 0 where
  pub app_id : ℕ
  pub dokku_app_name : Option String
  pub already_deleted : Bool

-- `VOLUME_IN_USE_MARKER in failure`; this test minds the case
abbrev pub is_volume_in_use : String → Bool
is_volume_in_use failure = text_contains "volume is in use" failure

-- `str(e) or e.__class__.__name__`; the class of an exception with no text is not known here
abbrev pub text_or_class : Error → String
text_or_class e = if str_eq (message e) "" then "Exception" else message e

module _ (env : Env) where
  abbrev destroyed : String → Action (Option String × Option String)
  destroyed result = pure (some result, if dokku_output_failed result then some result else none)

  -- The output and the failure, if any.
  unfoldable pub destroy : String → Action (Option String × Option String)
  destroy name =
      catch (do result ← call env (delete_app name); destroyed result)
        (λ e. pure (none, some (text_or_class e)))

  abbrev pub warn : ℕ → ℕ → Action (Unit {0})
  warn app_id progress = log app_id Level.warning Category.deploy progress

  -- `cleanup_app` is best effort
  unfoldable pub cleanup : ℕ → String → Action (Unit {0})
  cleanup app_id name = catch (do call env (cleanup_app name); pure tt) (λ e. warn app_id 0)

  -- A stopped container that holds the cache volume is removed, and the app destroyed again.
  unfoldable pub destroy_again :
      ℕ → String → Option String × Option String → Action (Option String × Option String)
  destroy_again app_id name (result, none) = pure (result, none)
  destroy_again app_id name (result, some failure) =
      if is_volume_in_use failure
      then (do warn app_id 70; cleanup app_id name; destroy name)
      else pure (result, some failure)

  abbrev pub failure_unless_gone : ℕ → String → Bool → Action (Option String)
  failure_unless_gone app_id failure true = pure (some failure)
  failure_unless_gone app_id failure false = do warn app_id 80; pure none

  -- A failure does not count if the app is gone from Dokku all the same.
  unfoldable pub confirm : ℕ → String → Option String × Option String → Action (Option String)
  confirm app_id name (result, none) = do log app_id Level.dokku Category.deploy 80; pure none
  confirm app_id name (result, some failure) =
      catch (do found ← ask env (exists_app name); failure_unless_gone app_id failure found)
        (λ e. pure (some failure))

  -- `_delete_dokku_app`: the failure, or `none` if the app is gone from Dokku
  unfoldable pub delete_dokku_app : ℕ → String → Action (Option String)
  delete_dokku_app app_id name = do
    first ← destroy name
    last ← destroy_again app_id name first
    confirm app_id name last

  -- What `execute` does with the failure.
  unfoldable pub report_failure : App → Option String → String → Action (Unit {0})
  report_failure app task_id failure = do
    save_if_owner app task_id (
        Field.status AppStatus.error
        ∷ Field.error_type (some "DeleteAppFailed")
        ∷ Field.error_details (some failure)
        ∷ [])
    log app.id Level.error Category.deploy 100
    notify_admins (Notice.app_delete_failed app.id)
    raise (infrastructure_error "Falha ao remover app do Dokku" (some failure))

  abbrev report_if : App → Option String → Option String → Action (Unit {0})
  report_if app task_id none = pure tt
  report_if app task_id (some failure) = report_failure app task_id failure

  unfoldable pub remove_dokku_app : App → Option String → Action (Unit {0})
  remove_dokku_app app task_id =
      if truthy app.name_dokku
      then (do
        log app.id Level.info Category.deploy 60
        failure ← delete_dokku_app app.id (or_else app.name_dokku "")
        report_if app task_id failure)
      else pure tt

  -- `_remove_github_webhook`; `removed` is `result.get('ok')`
  unfoldable pub remove_github_webhook : App → Option ℕ → Action (Unit {0})
  remove_github_webhook app deleted_by_id =
      if str_eq app.git ""
      then pure tt
      else catch
          (do
            removed ← ask env (remove_webhook app.id deleted_by_id)
            log app.id (if removed then Level.info else Level.warning) Category.git 90)
          (λ e. log app.id Level.warning Category.git 90)

  unfoldable pub soft_delete_app : App → Option ℕ → Action (Unit {0})
  soft_delete_app app deleted_by_id = do
    now ← gets (λ w. w.clock)
    save_fields app.id (soft_delete_fields now deleted_by_id app)

  -- What follows the removal of the app from Dokku.
  unfoldable pub finish_delete : App → Option ℕ → Action AppDeleted
  finish_delete app deleted_by_id = do
    remove_github_webhook app deleted_by_id
    log app.id Level.success Category.deploy 100
    soft_delete_app app deleted_by_id
    pure (record { app_id = app.id; dokku_app_name = app.name_dokku; already_deleted = false })

  -- What follows the claim.
  unfoldable pub delete_claimed : App → Option String → Option ℕ → Action AppDeleted
  delete_claimed app task_id deleted_by_id = do
    log app.id Level.info Category.deploy 5
    delete_linked_services env app deleted_by_id
    remove_dokku_app app task_id
    finish_delete app deleted_by_id

  abbrev delete_found : ℕ → Option String → Option ℕ → Option App → Action AppDeleted
  delete_found app_id task_id deleted_by_id none =
      pure (record { app_id = app_id; dokku_app_name = none; already_deleted = true })
  delete_found app_id task_id deleted_by_id (some app) =
      if is_some app.deleted_at
      then pure
          (record { app_id = app.id; dokku_app_name = app.name_dokku; already_deleted = true })
      else (do claimed ← claim_app app task_id; delete_claimed claimed task_id deleted_by_id)

  -- `DeleteAppUseCase.execute`
  unfoldable pub execute : ℕ → Option String → Option ℕ → Action AppDeleted
  execute app_id task_id deleted_by_id = do
    found ← gets (λ w. w.apps app_id)
    delete_found app_id task_id deleted_by_id found
