-- ===== src/Apps/Manage.antt =====
-- applications/use_cases/manage_app.py
pub mod Outcome
pub mod Overtaken
mod Tests
use fabroku_back_end.Base.{
  ℕ, String, ◌<>◌, Bool, true, false, not, Option, none, some, List, [], ◌∷◌, ◌++◌, truthy, or_else,
  holds_text, truncate, if◌then◌else◌,
}
use fabroku_back_end.Models.App.{App, AppStatus, Field}
use fabroku_back_end.Models.Errors.{Error, deployment_failed, message}
use fabroku_back_end.Runtime.World.{
  Env, AppAction, start, stop, restart, Call, start_app, stop_app, restart_app, Level, Category,
}
use fabroku_back_end.Runtime.Effects.{
  Action, pure, raise, catch, log, call, when, get_active_app, ◌>>=◌, ◌>>◌,
}
use fabroku_back_end.Dokku.{check_dokku_output}
use fabroku_back_end.Ownership.{claim_app, save_if_owner}
use fabroku_back_end.Apps.Databases.{start_linked_databases}

-- `MANAGE_APP_FAILED`
abbrev pub manage_app_failed : String
manage_app_failed = "ManageAppFailed"

-- `_ACTION_MESSAGES`: the words for the progress, and the status at the end
abbrev pub progress_word : AppAction → String
progress_word start = "Iniciando"
progress_word stop = "Parando"
progress_word restart = "Reiniciando"

abbrev pub final_status : AppAction → AppStatus
final_status start = AppStatus.running
final_status stop = AppStatus.stopped
final_status restart = AppStatus.running

-- `cmd.action in ('start', 'restart')`
abbrev pub warms_up : AppAction → Bool
warms_up start = true
warms_up stop = false
warms_up restart = true

abbrev pub action_call : AppAction → String → Call
action_call start name = start_app name
action_call stop name = stop_app name
action_call restart name = restart_app name

-- An error of an earlier `ManageAppUseCase` is cleared; another error stays.
abbrev pub final_fields : App → AppAction → List Field
final_fields app action =
    Field.status (final_status action)
    ∷ (if holds_text app.error_type manage_app_failed
        then Field.error_type none ∷ Field.error_details none ∷ []
        else [])

-- `_ACTION_MESSAGES[...][0]` and the name, as `check_dokku_output` is told
abbrev pub operation : AppAction → String → String
operation action name = progress_word action <> " " <> name

abbrev pub failure_fields : Error → List Field
failure_fields e =
    Field.status AppStatus.error
    ∷ Field.error_type (some manage_app_failed)
    ∷ Field.error_details (some (truncate 2000 (message e)))
    ∷ []

module _ (env : Env) (action : AppAction) (task_id : Option String) where
  -- What follows the Dokku command in the `try`.
  unfoldable pub record_success : App → String → String → Action String
  record_success app name output = do
    log app.id Level.dokku Category.deploy 80
    check_dokku_output output (operation action name) true
    wrote ← save_if_owner app task_id (final_fields app action)
    when (not wrote.0) (log app.id Level.warning Category.deploy 0)
    log app.id Level.success Category.deploy 100
    pure output

  unfoldable pub send_command : App → String → Action String
  send_command app name = do
    output ← call env (action_call action name)
    record_success app name output

  -- The `try`
  unfoldable pub run_action : App → String → Action String
  run_action app name = do
    when (warms_up action) (start_linked_databases env app.id false)
    send_command app name

  -- The `except`
  unfoldable pub record_failure : App → Error → Action String
  record_failure app e = do
    log app.id Level.error Category.deploy 0
    save_if_owner app task_id (failure_fields e)
    raise e

  -- What follows the claim.
  unfoldable pub manage_claimed : App → Action String
  manage_claimed app = do
    log app.id Level.info Category.deploy 10
    if truthy app.name_dokku
        then catch (run_action app (or_else app.name_dokku "")) (record_failure app)
        else (do
          log app.id Level.error Category.deploy 0
          raise (deployment_failed "App não tem name_dokku configurado" "validate"))

  -- `ManageAppUseCase.execute`; the output is what `AppManaged` adds to the command.
  unfoldable pub execute : ℕ → Action String
  execute app_id = do
    found ← get_active_app app_id
    app ← claim_app found task_id
    manage_claimed app
