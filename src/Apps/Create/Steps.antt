-- ===== src/Apps/Create/Steps.antt =====
-- The steps of src/applications/use_cases/create_app.py: the methods of `CreateAppUseCase`.
use Prim.Native.Nat.{min}
use fabroku_back_end.Base.{
  ℕ, suc, ◌+◌, ◌/◌, String, ◌<>◌, Bool, false, not, ◌&&◌, ◌||◌, Option, none, some, List, [], ◌∷◌,
  truthy, or_else, holds_text, str_eq, strip_text, lower_contains, text_contains, if◌then◌else◌,
}
use fabroku_back_end.Base.Dict.{Dict, lookup}
use fabroku_back_end.Models.App.{App, Field}
use fabroku_back_end.Models.Errors.{raised, runtime_error, database_error, deployment_failed}
use fabroku_back_end.Runtime.World.{
  Env, User, Repos, denied, repos, exists_app, create_app, set_config, list_user_repos,
  get_branch_head_sha, sync_git_streaming, enable_letsencrypt, get_app_domain, Level, Category,
}
use fabroku_back_end.Runtime.Effects.{
  Action, pure, raise, raise_if, or_raise, catch, gets, log, call, ask, ask_domain, request, when,
  save_fields, receive, after_call, ◌>>=◌, ◌>>◌,
}
use fabroku_back_end.Domain.Texts.{slug_text}
use fabroku_back_end.Apps.Scale.Sync.{reapply_saved_process_scales}

-- `build_github_auth_url` of src/infrastructure/adapters/git_utils.py
abbrev auth_url : String → Option String → Option String → String
auth_url git_url none token = git_url
auth_url git_url (some repo) token =
    if str_eq repo "" || not (truthy token)
    then git_url
    else "https://x-access-token:" <> or_else token "" <> "@github.com/" <> repo <> ".git"

unfoldable pub build_github_auth_url : Env → String → Option String → String
build_github_auth_url env git_url token = auth_url git_url (env.repo_name git_url) token

-- `repo_name in user_git_repos and user_git_repos[repo_name].get('private', False)`
abbrev is_true : Option Bool → Bool
is_true none = false
is_true (some b) = b

module _ (env : Env) (app : App) (user : User) where
  -- `_resolve_dokku_name`
  unfoldable pub resolve_dokku_name : String
  resolve_dokku_name =
      if (user.is_fabric || user.is_superuser) && truthy app.name_dokku
      then slug_text env.lower (or_else app.name_dokku "")
      else slug_text env.lower app.name

  -- `_assign_dokku_name`; whether the row had the name is `previously_owned`.
  unfoldable pub assign_dokku_name : Action (Unit {0})
  assign_dokku_name = do
    clash ← gets (λ w. env.name_dokku_clashes w.apps app.id resolve_dokku_name)
    raise_if clash database_error
    save_fields app.id (Field.name_dokku (some resolve_dokku_name) ∷ [])

  abbrev pub previously_owned : Bool
  previously_owned = holds_text app.name_dokku resolve_dokku_name

  abbrev pub refuse_foreign : String → Action (Unit {0})
  refuse_foreign name = raise_if (not previously_owned) (
      deployment_failed
        ("Já existe uma aplicação \"" <> name
          <> "\" no servidor que não pertence a este app. Escolha outro nome.")
        "ensure_dokku_app")

  abbrev pub create_container : String → Action (Unit {0})
  create_container name = do
    log app.id Level.info Category.create 10
    call env (create_app name)
    log app.id Level.dokku Category.create 15

  -- `_ensure_dokku_app`
  unfoldable pub ensure_dokku_app : String → Action Bool
  ensure_dokku_app name = do
    log app.id Level.info Category.create 5
    found ← ask env (exists_app name)
    if found then refuse_foreign name else create_container name
    pure found

  -- `_apply_env_vars`
  unfoldable pub apply_env_vars : String → Dict String → Action (Unit {0})
  apply_env_vars name [] = log app.id Level.info Category.config 25
  apply_env_vars name (v ∷ env_vars) = do
    log app.id Level.info Category.config 18
    call env (set_config name (v ∷ env_vars))
    log app.id Level.dokku Category.config 22
    log app.id Level.success Category.config 25

  abbrev pub choose_url : String → Repos → Action String
  choose_url repo (denied help_url) = do
    log app.id Level.error Category.git 28
    raise (
        raised (
          "Permissão insuficiente para acessar organização. Reautorize seu token no GitHub. "
          <> "Mais informações: " <> help_url))
  choose_url repo (repos found) =
      if is_true (lookup repo found)
      then (do
        log app.id Level.info Category.git 32
        log app.id Level.success Category.git 40
        pure (build_github_auth_url env app.git user.git_token))
      else (do log app.id Level.info Category.git 40; pure app.git)

  -- `_handle_deploy_keys`
  unfoldable pub handle_deploy_keys : Action String
  handle_deploy_keys = do
    log app.id Level.info Category.git 28
    repo ←
        or_raise (raised ("Não foi possível extrair owner/repo de: " <> app.git))
          (env.repo_name app.git)
    found ← request env env.repos_reply (list_user_repos user.id)
    choose_url repo found

  abbrev pub head_of : Option String → Action (Option String)
  head_of none = pure none
  head_of (some repo) = ask_domain env (get_branch_head_sha repo app.branch user.id)

  -- `_get_head_sha`
  unfoldable pub get_head_sha : Action (Option String)
  get_head_sha = head_of (env.repo_name app.git)

  -- `on_log_line`, `count` being the lines logged before
  unfoldable pub log_line : ℕ → String → Action (Unit {0})
  log_line count line =
      when (not (str_eq (strip_text line) ""))
        (log app.id Level.dokku Category.git (min (50 + (suc count) / 2) 84))

  unfoldable pub log_lines : List String → ℕ → Action (Unit {0})
  log_lines [] count = pure tt
  log_lines (line ∷ lines) count = do
    log_line count line
    log_lines lines (if str_eq (strip_text line) "" then count else suc count)

  -- `'Failed' in output or 'failed' in output.lower()`
  abbrev pub sync_failed : String → Bool
  sync_failed output = text_contains "Failed" output || lower_contains "failed" output

  unfoldable pub check_sync : String → Action (Unit {0})
  check_sync output =
      if sync_failed output
      then (do
        log app.id Level.error Category.git 85
        raise (runtime_error ("Falha ao sincronizar repositorio: " <> env.masked output)))
      else log app.id Level.dokku Category.git 85

  -- The lines come while the command runs.
  unfoldable pub sync_git : String → String → Option String → Action String
  sync_git name git_url deploy_id w =
      let c = sync_git_streaming name git_url app.branch deploy_id in
      (log_lines (env.lines w.calls c) 0 >> receive env (env.text_reply w.calls c))
        (after_call env c w)

  -- `_configure_git`
  unfoldable pub configure_git : String → String → Option String → Action (Unit {0})
  configure_git name git_url deploy_id = do
    log app.id Level.info Category.git 45
    log app.id Level.info Category.git 50
    output ← sync_git name git_url deploy_id
    check_sync output

  -- The inner `try`
  unfoldable pub reapply_scales : Action (Unit {0})
  reapply_scales =
      catch (do reapply_saved_process_scales env app 86; pure tt)
        (λ e. log app.id Level.warning Category.deploy 86)

  -- `_set_letsencrypt`
  unfoldable pub set_letsencrypt : String → Action (Unit {0})
  set_letsencrypt name = do
    log app.id Level.info Category.ssl 88
    call env (enable_letsencrypt name)
    log app.id Level.dokku Category.ssl 95

  -- `_get_domain`
  unfoldable pub get_domain : String → Action (Option String)
  get_domain name = do
    log app.id Level.info Category.ssl 97
    domain ← ask_domain env (get_app_domain name)
    log app.id Level.dokku Category.ssl 99
    pure (if truthy domain then domain else none)
