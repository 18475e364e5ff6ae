-- ===== src/Apps/Create.antt =====
-- src/applications/use_cases/create_app.py
pub mod Steps
pub mod Rows
pub mod Prepare
pub mod Fetch
pub mod Build
pub mod Outcome
pub mod Tests
use fabroku_back_end.Base.{
  ℕ, String, ◌<>◌, Bool, true, false, not, ◌&&◌, Option, none, some, List, [], ◌∷◌, map, codes,
  truthy, or_else, truncate, text_contains, if◌then◌else◌,
}
use fabroku_back_end.Base.Dict.{Dict}
use fabroku_back_end.Models.App.{App, AppStatus, Field}
use fabroku_back_end.Models.Errors.{
  Error, domain_error, app_limit_exceeded, service_limit_exceeded, app_name_conflict, app_not_found,
  service_not_found, deployment_failed, infrastructure_error, invalid_env_var, git_error,
  operation_superseded, does_not_exist, database_error, value_error, runtime_error, raised, message,
}
use fabroku_back_end.Runtime.World.{
  Env, User, set_deploy_pending, set_deploy_success, set_deploy_failure, Level, Category,
}
use fabroku_back_end.Runtime.Effects.{
  Action, pure, raise, raise_if, or_raise, catch, log, call, when, get_active_app, save_fields,
  save_row, ◌>>=◌, ◌>>◌,
}
use fabroku_back_end.Domain.Variables.{validate_env_vars, Verdict}
use fabroku_back_end.Apps.Deploy.{reconcile_github_webhook}
use fabroku_back_end.Apps.Create.Steps.{
  resolve_dokku_name, assign_dokku_name, ensure_dokku_app, apply_env_vars, handle_deploy_keys,
  get_head_sha, configure_git, reapply_scales, set_letsencrypt, get_domain,
}

-- `CreateAppCommand`
pub record CreateAppCommand : Type 0 where
  pub app_id : ℕ
  pub user_id : ℕ
  pub env_vars : Option (Dict String)
  pub task_id : Option String

-- `AppCreated`
pub record AppCreated : Type 0 where
  pub app_id : ℕ
  pub status : String
  pub dokku_app_name : String

-- `type(e).__name__`; the class of what a port raises is not known here
abbrev class_name : Error → String
class_name (domain_error _) = "ApplicationDomainError"
class_name (app_limit_exceeded _ _) = "AppLimitExceeded"
class_name (service_limit_exceeded _ _) = "ServiceLimitExceeded"
class_name (app_name_conflict _) = "AppNameConflict"
class_name (app_not_found _) = "AppNotFound"
class_name (service_not_found _) = "ServiceNotFound"
class_name (deployment_failed _ _) = "DeploymentFailed"
class_name (infrastructure_error _ _) = "InfrastructureError"
class_name (invalid_env_var _ _) = "InvalidEnvVar"
class_name (git_error _ _) = "GitError"
class_name (operation_superseded _) = "OperationSuperseded"
class_name does_not_exist = "DoesNotExist"
class_name database_error = "DatabaseError"
class_name (value_error _) = "ValueError"
class_name (runtime_error _) = "RuntimeError"
class_name (raised _) = "Exception"

abbrev error_type_of : Error → String
error_type_of e =
    if text_contains "deploy keys" (message e) && text_contains "desabilitadas" (message e)
    then "DeployKeysDisabled"
    else class_name e

abbrev is_valid : Verdict → Bool
is_valid Verdict.valid = true
is_valid _ = false

-- `if cmd.env_vars: validate_env_vars(cmd.env_vars)`; the texts of the error are left out.
unfoldable pub check_env_vars : Dict String → Action (Unit {0})
check_env_vars [] = pure tt
check_env_vars (v ∷ d) =
    raise_if (not (is_valid (validate_env_vars (map (λ (k, x). (codes k, codes x)) (v ∷ d)))))
      (invalid_env_var "" "")

-- `cmd.env_vars`, where `None` counts as no variables
abbrev pub variables_of : Option (Dict String) → Dict String
variables_of none = []
variables_of (some d) = d

module _ (env : Env) (cmd : CreateAppCommand) (app : App) (user : User) where
  abbrev pub name : String
  name = resolve_dokku_name env app user

  abbrev pub token : String
  token = or_else user.git_token ""

  -- What follows the container: the address and the head of the branch
  unfoldable pub prepare_new : Action (Option (String × Option String))
  prepare_new = do
    apply_env_vars env app user name (variables_of cmd.env_vars)
    reconcile_github_webhook env app.id (some user.id) 26
    git_url ← handle_deploy_keys env app user
    head_sha ← get_head_sha env app user
    pure (some (git_url, head_sha))

  abbrev pub report_existing : Action (Option (String × Option String))
  report_existing = do
    reconcile_github_webhook env app.id (some user.id) 99
    log app.id Level.warning Category.create 100
    pure none

  -- The `try`, as far as the head of the branch is not known; `none` is the app that exists.
  unfoldable pub prepare : Action (Option (String × Option String))
  prepare = do
    found ← ensure_dokku_app env app user name
    if found then report_existing else prepare_new

  abbrev pub report : Option String → String → Action (Unit {0})
  report head_sha text =
      when (truthy head_sha) (do
        call env (set_deploy_failure token app.git (or_else head_sha "") app.name text)
        pure tt)

  -- The `except`, which raises again
  unfoldable pub record_failure : {A : Type 0} → Option String → Error → Action A
  record_failure head_sha e = do
    log app.id Level.error Category.create 0
    save_fields app.id (
        Field.status AppStatus.error
        ∷ Field.error_type (some (error_type_of e))
        ∷ Field.error_details (some (message e))
        ∷ [])
    report head_sha (truncate 100 (message e))
    raise e

  -- The object as it is saved at the end
  abbrev pub running : Option String → App
  running domain = record app {
    task_id = cmd.task_id;
    name_dokku = some name;
    domain = if truthy domain then domain else app.domain;
    status = AppStatus.running;
  }

  unfoldable pub save_running : Action (Unit {0})
  save_running = do
    domain ← get_domain env app user name
    when (truthy domain) (save_fields app.id (Field.domain domain ∷ []))
    save_row (running domain)

  unfoldable pub report_success : Option String → Action AppCreated
  report_success head_sha = do
    when (truthy head_sha)
        (do call env (set_deploy_success token app.git (or_else head_sha "") app.name); pure tt)
    log app.id Level.success Category.create 100
    pure (record { app_id = app.id; status = "created"; dokku_app_name = name })

  unfoldable pub mark_pending : Option String → Action (Unit {0})
  mark_pending head_sha =
      when (truthy head_sha)
        (do call env (set_deploy_pending token app.git (or_else head_sha "") app.name); pure tt)

  -- The rest of the `try`
  unfoldable pub build : String → Option String → Action AppCreated
  build git_url head_sha = do
    mark_pending head_sha
    configure_git env app user name git_url cmd.task_id
    reapply_scales env app user
    set_letsencrypt env app user name
    save_running
    report_success head_sha

  abbrev pub go_on : Option (String × Option String) → Action AppCreated
  go_on none = pure (record { app_id = app.id; status = "already_exists"; dokku_app_name = name })
  go_on (some (git_url, head_sha)) = catch (build git_url head_sha) (record_failure head_sha)

  unfoldable pub create : Action AppCreated
  create = do prepared ← catch prepare (record_failure none); go_on prepared

-- `CreateAppUseCase.execute`
unfoldable pub execute : Env → CreateAppCommand → Action AppCreated
execute env cmd = do
  app ← get_active_app cmd.app_id
  user ← or_raise does_not_exist (env.users cmd.user_id)
  check_env_vars (variables_of cmd.env_vars)
  save_fields app.id (Field.task_id cmd.task_id ∷ [])
  log app.id Level.info Category.create 2
  assign_dokku_name env app user
  create env cmd app user
