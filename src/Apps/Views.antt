-- ===== src/Apps/Views.antt =====
-- `AppViewSet.destroy`, `start`, `restart` and `redeploy` of applications/views.py, once `get_object` has found
-- the app.
mod Laws
use fabroku_back_end.Base.{
  ℕ, String, Bool, true, false, not, Option, none, some, truthy, if◌then◌else◌,
}
use fabroku_back_end.Models.App.{App, AppStatus}
use fabroku_back_end.Runtime.World.{
  Env, World, AppAction, start, restart, stop, manage_app, delete_app, deploy_app,
}
use fabroku_back_end.Runtime.Effects.{Action, pure, ◌>>=◌}
use fabroku_back_end.Ownership.{is_app_busy, dispatch_app_task}

-- 202 with the status and the task, 409 for a busy app, 400 for one with no Dokku name
pub data Response : Type 0 where
  accepted : AppStatus → Option String → Response
  conflict : AppStatus → Response
  bad_request : Response

-- The status that an action gives the app until its task ends.
abbrev pub status_of : AppAction → AppStatus
status_of start = AppStatus.starting
status_of stop = AppStatus.stopping
status_of restart = AppStatus.restarting

module _ (env : Env) where
  unfoldable pub destroy_view : App → ℕ → Action Response
  destroy_view app user_id = do
    dispatched ←
        dispatch_app_task env app AppStatus.deleting none (delete_app app.id (some user_id))
    pure (accepted AppStatus.deleting dispatched.0)

  -- The body that `start` and `restart` share, and with which `stop` ends.
  unfoldable pub action_view : AppAction → App → Action Response
  action_view action app =
      if not (truthy app.name_dokku)
      then pure bad_request
      else if is_app_busy env app
      then pure (conflict app.status)
      else (do
        dispatched ← dispatch_app_task env app (status_of action) none (manage_app app.id action)
        pure (accepted (status_of action) dispatched.0))

  -- `redeploy`; `commit` is `request.data.get('commit')`
  unfoldable pub redeploy_view : App → Option String → ℕ → Action Response
  redeploy_view app commit user_id =
      if not (truthy app.name_dokku)
      then pure bad_request
      else if is_app_busy env app
      then pure (conflict app.status)
      else (do
        dispatched ←
            dispatch_app_task env app AppStatus.deploying none
              (deploy_app app.id commit (some user_id))
        pure (accepted AppStatus.deploying dispatched.0))
