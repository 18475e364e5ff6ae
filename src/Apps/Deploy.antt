-- ===== src/Apps/Deploy.antt =====
-- applications/use_cases/deploy_app.py
pub mod Steps
pub mod Commits
pub mod Rows
pub mod Quiet
pub mod Fetch
pub mod Try
mod Outcome
mod Tests
use fabroku_back_end.Base.{
  ℕ, ◌+◌, ◌/◌, String, ◌<>◌, Bool, true, false, not, ◌&&◌, ◌||◌, Option, none, some, List, [], ◌∷◌,
  ◌++◌, truthy, or_else, truncate, str_eq, if◌then◌else◌,
}
use fabroku_back_end.Base.Dict.{insert, lookup, erase}
use fabroku_back_end.Models.App.{App, AppStatus, Field}
use fabroku_back_end.Models.Errors.{Error, deployment_failed, message}
use fabroku_back_end.Runtime.World.{
  Env, World, GitSyncPlan, Webhook, Call, ensure_github_webhook, resolve_git_sync_plan,
  set_deploy_pending, set_deploy_success, set_deploy_failure, Level, Category,
}
use fabroku_back_end.Runtime.Effects.{
  Action, ok, pure, raise, catch, gets, write, log, call, request, when, get_active_app,
  save_fields, ◌>>=◌, ◌>>◌,
}
use fabroku_back_end.Ownership.{claim_app, save_if_owner}
use fabroku_back_end.Ownership.Pending.{fresh}
use fabroku_back_end.Apps.Scale.Sync.{reapply_saved_process_scales}
use fabroku_back_end.Apps.Deploy.Steps.{prepare_dokku, fetch, ensure_letsencrypt}

-- `DeployAppCommand`
pub record DeployAppCommand : Type 0 where
  pub app_id : ℕ
  pub task_id : Option String
  pub commit_sha : Option String
  pub user_id : Option ℕ

pub record AppDeployed : Type 0 where
  pub app_id : ℕ
  pub dokku_app_name : String
  pub commit_sha : Option String

-- `PENDING_COMMIT_STATUS_TTL_SECONDS`
abbrev pub pending_commit_status_ttl_seconds : ℕ
pending_commit_status_ttl_seconds = 7200

-- `cache.set` under the key of the task
unfoldable pub put_commit_check : String → String → Action (Unit {0})
put_commit_check task_id sha = write λ w. record w {
  commit_checks =
      insert task_id
        (record { value = sha; deadline = w.clock + pending_commit_status_ttl_seconds })
        w.commit_checks;
}

unfoldable pub pop_pending_commit_status : String → Action (Option String)
pop_pending_commit_status task_id = do
  sha ← gets (λ w. fresh w.clock (lookup task_id w.commit_checks))
  write (λ w. record w { commit_checks = erase task_id w.commit_checks })
  pure sha

-- What an unexpected error of `ensure_github_webhook` is turned into.
abbrev unexpected : Webhook
unexpected = record { ok = false; status = "erro inesperado" }

abbrev webhook_level : Webhook → Level
webhook_level hook =
    if str_eq hook.status "webhook atualizado" || str_eq hook.status "webhook criado"
    then Level.success
    else if hook.ok
    then Level.info
    else Level.warning

-- `reconcile_github_webhook` of applications/github_integration.py, given a logger
unfoldable pub reconcile_github_webhook : Env → ℕ → Option ℕ → ℕ → Action (Unit {0})
reconcile_github_webhook env app_id preferred_user progress = do
  log app_id Level.info Category.git progress
  hook ←
      catch (request env env.webhook_reply (ensure_github_webhook app_id preferred_user))
        (λ e. pure unexpected)
  log app_id (webhook_level hook) Category.git (progress + 1)

abbrev pub start_fields : Option String → List Field
start_fields commit =
    Field.status AppStatus.deploying
    ∷ (if truthy commit then Field.last_commit_sha (or_else commit "") ∷ [] else [])

module _ (env : Env) (cmd : DeployAppCommand) (app : App) where
  abbrev commit : String
  commit = or_else cmd.commit_sha ""

  -- `cmd.commit_sha and git_token`
  abbrev reports : Option String → Bool
  reports token = truthy cmd.commit_sha && truthy token

  unfoldable pub warn_no_token : Option String → Action (Unit {0})
  warn_no_token token =
      when (not (truthy token))
        (do log app.id Level.warning Category.deploy 0; log app.id Level.warning Category.git 9)

  unfoldable pub mark_pending : Option String → Action (Unit {0})
  mark_pending token = when (reports token) (do
    call env (set_deploy_pending (or_else token "") app.git commit app.name)
    when (truthy cmd.task_id) (put_commit_check (or_else cmd.task_id "") commit))

  -- The inner `try`, whatever comes of it.
  unfoldable pub reapply_scales : Action (Unit {0})
  reapply_scales =
      catch
        (do
          applied ← reapply_saved_process_scales env app 90
          when (not (elim applied [ [] ↦ true | _ ∷ _ ↦ false ]))
              (log app.id Level.success Category.deploy 90))
        (λ e. log app.id Level.warning Category.deploy 90)

  unfoldable pub report_success : Option String → Action (Unit {0})
  report_success token =
      when (reports token)
        (do call env (set_deploy_success (or_else token "") app.git commit app.name); pure tt)

  -- `app.save(update_fields=['updated_at'])`; `updated_at` is not a column of the model.
  unfoldable pub touch : Action (Unit {0})
  touch = save_fields app.id []

  unfoldable pub finish : String → Option String → Action AppDeployed
  finish name token = do
    reapply_scales
    ensure_letsencrypt env app name
    report_success token
    touch
    log app.id Level.success Category.deploy 100
    pure (record { app_id = app.id; dokku_app_name = name; commit_sha = cmd.commit_sha })

  unfoldable pub record_running : Action (Unit {0})
  record_running = do
    saved ← save_if_owner app cmd.task_id (Field.status AppStatus.running ∷ [])
    when (not saved.0) (log app.id Level.warning Category.deploy 0)

  -- The `try`
  unfoldable pub run_deploy : GitSyncPlan → Action AppDeployed
  run_deploy plan =
      if truthy app.name_dokku
      then (do
        prepare_dokku env app (or_else app.name_dokku "")
        fetch env app (or_else app.name_dokku "") plan cmd.task_id
        record_running
        finish (or_else app.name_dokku "") plan.token)
      else raise (deployment_failed "App não tem name_dokku configurado" "validate")

  unfoldable pub report_failure : Option String → Error → Action (Unit {0})
  report_failure token e = when (reports token) (do
    call env
        (set_deploy_failure (or_else token "") app.git commit app.name (truncate 100 (message e)))
    pure tt)

  -- The `except`
  unfoldable pub record_failure : Option String → Error → Action AppDeployed
  record_failure token e = do
    log app.id Level.error Category.deploy 0
    save_if_owner app cmd.task_id (Field.status AppStatus.error ∷ [])
    report_failure token e
    raise e

  -- What follows the plan.
  unfoldable pub deploy_planned : GitSyncPlan → Action AppDeployed
  deploy_planned plan = do
    warn_no_token plan.token
    mark_pending plan.token
    catch (run_deploy plan) (record_failure plan.token)

  -- What follows the claim. No step below reads the two columns that `start_fields` writes.
  unfoldable pub deploy_claimed : Action AppDeployed
  deploy_claimed = do
    save_if_owner app cmd.task_id (start_fields cmd.commit_sha)
    log app.id Level.info Category.deploy 5
    reconcile_github_webhook env app.id cmd.user_id 6
    plan ← request env env.plan_reply (resolve_git_sync_plan app.id cmd.user_id)
    deploy_planned plan

-- `DeployAppUseCase.execute`
unfoldable pub execute : Env → DeployAppCommand → Action AppDeployed
execute env cmd = do
  found ← get_active_app cmd.app_id
  app ← claim_app found cmd.task_id
  deploy_claimed env cmd app
