-- ===== src/Apps/Deploy/Steps.antt =====
-- The steps of a deploy on the server: the methods of `DeployAppUseCase`, and the parts of its
-- `execute` before and around the sync of the repository.
use Prim.Native.Nat.{min}
use fabroku_back_end.Base.{
  ℕ, suc, ◌+◌, ◌/◌, String, ◌<>◌, Bool, true, false, not, ◌||◌, Option, some, List, [], ◌∷◌, truthy,
  or_else, str_eq, strip_text, lower_contains, text_contains, if◌then◌else◌,
}
use fabroku_back_end.Models.App.{App, Field}
use fabroku_back_end.Models.Errors.{deployment_failed}
use fabroku_back_end.Runtime.World.{
  Env, GitSyncPlan, exists_app, set_config, sync_git_streaming, enable_letsencrypt, get_app_domain,
  Level, Category,
}
use fabroku_back_end.Runtime.Effects.{
  Action, pure, raise, raise_if, catch, log, call, ask, ask_domain, when, save_fields, receive,
  after_call, ◌>>=◌, ◌>>◌,
}
use fabroku_back_end.Dokku.{deploy_output_failed}
use fabroku_back_end.Apps.Databases.{start_linked_databases}

module _ (env : Env) (app : App) where
  unfoldable pub verify_exists : String → Action (Unit {0})
  verify_exists name = do
    found ← ask env (exists_app name)
    log app.id Level.dokku Category.deploy 4
    raise_if (not found)
        (deployment_failed ("App " <> name <> " não existe no Dokku") "verify_exists")

  -- `_apply_env_vars`
  unfoldable pub apply_env_vars : String → Action (Unit {0})
  apply_env_vars name = do
    log app.id Level.info Category.config 5
    output ← call env (set_config name app.variables)
    log app.id Level.dokku Category.config 5
    raise_if (deploy_output_failed output) (deployment_failed output "apply_env_vars")

  unfoldable pub prepare_dokku : String → Action (Unit {0})
  prepare_dokku name = do
    start_linked_databases env app.id true
    verify_exists name
    when (not (elim app.variables [ [] ↦ true | _ ∷ _ ↦ false ])) (apply_env_vars name)

  abbrev pub is_blank : String → Bool
  is_blank line = str_eq (strip_text line) ""

  -- `on_log_line`, `count` being the lines logged before
  unfoldable pub log_line : ℕ → String → Action (Unit {0})
  log_line count line =
      when (not (is_blank line))
        (log app.id Level.dokku Category.git (min (10 + (suc count) / 2) 89))

  unfoldable pub log_lines : List String → ℕ → Action (Unit {0})
  log_lines [] count = pure tt
  log_lines (line ∷ lines) count = do
    log_line count line
    log_lines lines (if is_blank line then count else suc count)

  -- `_sync_git`: the lines come while the command runs.
  unfoldable pub sync_git : String → String → Option String → Action String
  sync_git name git_url deploy_id w =
      let c = sync_git_streaming name git_url app.branch deploy_id in
      (log_lines (env.lines w.calls c) 0 >> receive env (env.text_reply w.calls c))
        (after_call env c w)

  -- `'Failed' in output or 'failed' in output.lower()`
  abbrev pub sync_failed : String → Bool
  sync_failed output = text_contains "Failed" output || lower_contains "failed" output

  -- `git_sync_plan.git_url or app.git`
  abbrev pub sync_url : GitSyncPlan → String
  sync_url plan = or_else plan.git_url app.git

  unfoldable pub check_sync : String → Action String
  check_sync output =
      if sync_failed output
      then (do
        log app.id Level.error Category.deploy 90
        raise (deployment_failed (env.masked output) "git_sync"))
      else pure output

  unfoldable pub fetch : String → GitSyncPlan → Option String → Action String
  fetch name plan deploy_id =
      if plan.ok
      then (do
        log app.id Level.info Category.git 10
        output ← sync_git name (sync_url plan) deploy_id
        check_sync output)
      else (do
        log app.id Level.error Category.git 10
        raise (deployment_failed plan.message "resolve_git_sync_plan"))

  abbrev pub save_domain : Option String → Action (Unit {0})
  save_domain domain = when (truthy domain) (do
    save_fields app.id (Field.domain (some (or_else domain "")) ∷ [])
    log app.id Level.success Category.ssl 95)

  -- Let's Encrypt is best effort.
  unfoldable pub enable : String → Action (Unit {0})
  enable name =
      catch (do call env (enable_letsencrypt name); pure tt)
        (λ e. log app.id Level.warning Category.ssl 0)

  unfoldable pub refresh_domain : String → Action (Unit {0})
  refresh_domain name = do
    log app.id Level.info Category.ssl 90
    enable name
    domain ← ask_domain env (get_app_domain name)
    save_domain domain

  -- `_ensure_letsencrypt`
  unfoldable pub ensure_letsencrypt : String → Action (Unit {0})
  ensure_letsencrypt name =
      if truthy app.domain
      then (do
        known ← ask_domain env (get_app_domain name)
        when (not (truthy known)) (refresh_domain name))
      else refresh_domain name
