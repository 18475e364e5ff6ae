-- ===== src/Apps/Cancel.antt =====
-- `AppViewSet.stop` of applications/views.py: it stops an app, or cancels the deploy that runs.
mod Outcome
mod Tests
use fabroku_back_end.Base.{
  ℕ, String, ◌<>◌, Bool, true, false, not, ◌&&◌, ◌||◌, Option, none, some, List, [], ◌∷◌, truthy,
  or_else, str_eq, strip_text, lower_text, truncate, if◌then◌else◌,
}
use fabroku_back_end.Models.App.{App, AppStatus, is_deploying, Field}
use fabroku_back_end.Models.Errors.{message}
use fabroku_back_end.Runtime.World.{
  Env, World, stop, Call, cancel_remote_deploy, cleanup_app, ps_report, set_deploy_failure, revoke,
  Level, Category,
}
use fabroku_back_end.Runtime.Effects.{Action, pure, catch, log, call, when, ◌>>=◌, ◌>>◌}
use fabroku_back_end.Ownership.{is_finished, save_if_owner}
use fabroku_back_end.Ownership.Pending.{clear_pending_redeploy}
use fabroku_back_end.Apps.Deploy.{pop_pending_commit_status}
use fabroku_back_end.Apps.Views.{Response, accepted, action_view}

module _ (env : Env) (app : App) where
  -- `app.name_dokku`, as the adapter is given it
  abbrev dokku_name : String
  dokku_name = or_else app.name_dokku ""

  -- `cancel_remote_deploy` of applications/remote_deploy.py
  unfoldable pub cancel_remote : String → Action (Unit {0})
  cancel_remote task_id =
      when env.remote_deploy_plugin
        (catch (do call env (cancel_remote_deploy task_id); pure tt) (λ e. pure tt))

  -- `_cleanup_after_cancel`
  unfoldable pub cleanup_after_cancel : Action (Unit {0})
  cleanup_after_cancel = catch (do call env (cleanup_app dokku_name); pure tt) (λ e. pure tt)

  abbrev pub status_of_output : String → AppStatus × Option String
  status_of_output output =
      if str_eq output "true" || str_eq output "mixed"
      then (AppStatus.running, none)
      else if str_eq output "false"
      then (AppStatus.stopped, none)
      else (
        AppStatus.error,
        some (
            "Redeploy cancelado; não foi possível confirmar o estado do app no Dokku ("
            <> truncate 500 output
            <> ")."),
      )

  -- `_app_status_after_cancel`
  unfoldable pub app_status_after_cancel : Action (AppStatus × Option String)
  app_status_after_cancel = do
    output ←
        catch
          (do
            text ← call env (ps_report dokku_name "--running")
            pure (lower_text (strip_text text)))
          (λ e. pure ("erro: " <> message e))
    pure (status_of_output output)

  abbrev fail_commit : String → Option String → Action (Unit {0})
  fail_commit sha none = pure tt
  fail_commit sha (some token) =
      catch
        (do
          call env (set_deploy_failure token app.git sha app.name "Redeploy cancelado pelo usuário")
          pure tt)
        (λ e. pure tt)

  -- `_mark_cancelled_commit`
  unfoldable pub mark_cancelled_commit : String → ℕ → Action (Unit {0})
  mark_cancelled_commit task_id user_id = do
    sha ← pop_pending_commit_status task_id
    when (truthy sha) (fail_commit (or_else sha "") (env.git_token app.project_id user_id))

  abbrev pub cancelled_fields : AppStatus × Option String → List Field
  cancelled_fields (status, none) = Field.status status ∷ []
  cancelled_fields (status, some details) =
      Field.status status
      ∷ Field.error_type (some "RedeployCancelled")
      ∷ Field.error_details (some details)
      ∷ []

  unfoldable pub revoke_running : String → Action (Unit {0})
  revoke_running task_id =
      when (not (is_finished (env.task_state task_id))) (do call env (revoke task_id); pure tt)

  -- What is done to the build, and the status that Dokku has then.
  unfoldable pub stop_build : String → Action (AppStatus × Option String)
  stop_build task_id = do cancel_remote task_id; cleanup_after_cancel; app_status_after_cancel

  -- What follows the cancel of the build.
  unfoldable pub settle : String → ℕ → AppStatus × Option String → Action Response
  settle task_id user_id status = do
    saved ← save_if_owner app (some task_id) (cancelled_fields status)
    mark_cancelled_commit task_id user_id
    log app.id Level.warning Category.deploy 100
    pure (accepted saved.1.status (some task_id))

  unfoldable pub cancel_deploy : String → ℕ → Action Response
  cancel_deploy task_id user_id = do
    revoke_running task_id
    -- Who cancels does not want the push that waits to deploy next.
    clear_pending_redeploy app.id
    status ← stop_build task_id
    settle task_id user_id status

  unfoldable pub stop_view : ℕ → Action Response
  stop_view user_id =
      if is_deploying app.status && truthy app.task_id
      then cancel_deploy (or_else app.task_id "") user_id
      else action_view env stop app
