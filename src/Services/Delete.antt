-- ===== src/Services/Delete.antt =====
-- src/service_mgmt/use_cases/delete_service.py: the key of a service's variable is never empty, as
-- that of its type is not.
pub mod Outcome
use fabroku_back_end.Base.{
  ℕ, String, ◌<>◌, Bool, true, false, not, ◌&&◌, ◌||◌, Option, none, some, [], ◌∷◌, truthy, or_else,
  str_eq, strip_text, is_some, if◌then◌else◌,
}
use fabroku_back_end.Base.Dict.{contains, erase}
use fabroku_back_end.Models.App.{App, Field}
use fabroku_back_end.Models.Service.{Service, ServiceRuntime, get_service_runtime}
use fabroku_back_end.Models.Errors.{value_error}
use fabroku_back_end.Runtime.World.{Env, Notice, get_config, unset_config, Level, Category}
use fabroku_back_end.Runtime.Effects.{
  Action, pure, catch, gets, log, call, when, or_raise, save_fields, notify_admins, ◌>>=◌, ◌>>◌,
}
use fabroku_back_end.Dokku.{check_dokku_output, dokku_output_failed}
use fabroku_back_end.Apps.Delete.{text_or_class}
use fabroku_back_end.Apps.Delete.Services.{
  unlink_dokku_service, delete_dokku_service, soft_delete_service,
}
use fabroku_back_end.Services.Rows.{service_row, save_service}
use fabroku_back_end.Services.Promote.{holds_marker, promote_remaining_database_if_needed}
use fabroku_back_end.Services.Unlink.{linked_app, unsupported}

-- `ServiceDeleted`
pub record ServiceDeleted : Type 0 where
  pub service_id : ℕ
  pub already_deleted : Bool

-- A Python text with `None` in it
abbrev text_of : Option String → String
text_of none = "None"
text_of (some s) = s

-- Whether the URL that Dokku has is still that of the service.
abbrev is_url_of : Service → String → Bool
is_url_of s url =
    holds_marker url s.host
    || holds_marker url (or_else s.container_name "")
    || holds_marker url ("dokku-postgres-" <> text_of s.container_name)

abbrev log_of : Option App → Level → Category → ℕ → Action (Unit {0})
log_of none level category progress = pure tt
log_of (some app) level category progress = log app.id level category progress

module _ (env : Env) (service : Service) (runtime : ServiceRuntime) where
  abbrev pub env_key : String
  env_key = or_else service.env_key runtime.env_key

  abbrev pub dokku_service_name : String
  dokku_service_name = or_else service.container_name service.name

  -- `_prepare_task_context`
  unfoldable pub prepare_task_context : Option App → Option String → Action (Unit {0})
  prepare_task_context none task_id = save_service service.id (λ s. record s { task_id = task_id })
  prepare_task_context (some app) task_id = save_fields app.id (Field.task_id task_id ∷ [])

  abbrev pub without_env_key : App → App
  without_env_key app =
      if contains env_key app.variables
      then record app { variables = erase env_key app.variables }
      else app

  -- `_remove_app_env_key`
  unfoldable pub remove_app_env_key : App → Action (Unit {0})
  remove_app_env_key app =
      when (contains env_key app.variables)
        (save_fields app.id (Field.variables (erase env_key app.variables) ∷ []))

  -- Whether the unlink was confirmed; it is best effort.
  unfoldable pub try_unlink : App → String → Action Bool
  try_unlink app app_name =
      if str_eq dokku_service_name ""
      then pure false
      else catch
          (do
            output ← unlink_dokku_service env runtime.dokku_plugin dokku_service_name app_name
            log app.id Level.dokku Category.database 35
            check_dokku_output output (runtime.default_prefix <> ":unlink") true
            pure true)
          (λ e. do log app.id Level.warning Category.database 35; pure false)

  -- Whether the variable is to be taken out of Dokku's configuration by hand.
  unfoldable pub should_unset : String → Bool → Action Bool
  should_unset app_name false = pure true
  should_unset app_name true = do
    output ← call env (get_config app_name env_key)
    pure (not (str_eq (strip_text output) "") && is_url_of service (strip_text output))

  unfoldable pub unset : App → String → Bool → Action (Unit {0})
  unset app app_name unlinked = do
    output ← call env (unset_config app_name env_key unlinked)
    log app.id Level.dokku Category.config 45
    check_dokku_output output ("config:unset " <> env_key) true

  unfoldable pub unlink_named : App → String → Action (Unit {0})
  unlink_named app app_name = do
    log app.id Level.info Category.database 20
    unlinked ← try_unlink app app_name
    still_set ← should_unset app_name unlinked
    when still_set (unset app app_name unlinked)
    remove_app_env_key app

  -- `_unlink_remote_service_if_needed`
  unfoldable pub unlink_remote_if_needed : Option App → Action (Unit {0})
  unlink_remote_if_needed none = pure tt
  unlink_remote_if_needed (some app) =
      if truthy app.name_dokku
      then unlink_named app (or_else app.name_dokku "")
      else remove_app_env_key app

  abbrev notify_failure : Option String → Action (Unit {0})
  notify_failure failure =
      when (truthy failure) (notify_admins (Notice.service_delete_failed service.id))

  -- The failure of the removal, if there is one.
  unfoldable pub try_delete : Option App → Action (Option String)
  try_delete app =
      catch
        (do
          output ← delete_dokku_service env runtime.dokku_plugin dokku_service_name
          log_of app Level.dokku Category.database 80
          pure (if dokku_output_failed output then some output else none))
        (λ e. do log_of app Level.warning Category.database 80; pure (some (text_or_class e)))

  -- `_delete_remote_service`
  unfoldable pub delete_remote : Option App → Action (Unit {0})
  delete_remote app = do
    log_of app Level.info Category.database 50
    failure ← try_delete app
    notify_failure failure

  -- What follows the soft delete.
  unfoldable pub after_delete : Option App → Action (Unit {0})
  after_delete none = pure tt
  after_delete (some app) = do
    promote_remaining_database_if_needed env (without_env_key app) 90 (some env_key) service.id
    log app.id Level.success Category.database 100

  unfoldable pub finish_delete : Option App → Option ℕ → Action ServiceDeleted
  finish_delete app deleted_by_id = do
    soft_delete_service service deleted_by_id
    after_delete app
    pure (record { service_id = service.id; already_deleted = false })

  unfoldable pub delete_service : Option App → Option String → Option ℕ → Action ServiceDeleted
  delete_service app task_id deleted_by_id = do
    prepare_task_context app task_id
    unlink_remote_if_needed app
    delete_remote app
    finish_delete app deleted_by_id

abbrev delete_found : Env → ℕ → Option String → Option ℕ → Option Service → Action ServiceDeleted
delete_found env service_id task_id deleted_by_id none =
    pure (record { service_id = service_id; already_deleted = true })
delete_found env service_id task_id deleted_by_id (some service) =
    if is_some service.deleted_at
    then pure (record { service_id = service.id; already_deleted = true })
    else (do
      runtime ← or_raise (value_error unsupported) (get_service_runtime service.service_type)
      app ← gets (linked_app service.app_id)
      delete_service env service runtime app task_id deleted_by_id)

-- `DeleteServiceUseCase.execute`
unfoldable pub execute : Env → ℕ → Option String → Option ℕ → Action ServiceDeleted
execute env service_id task_id deleted_by_id = do
  found ← gets (service_row service_id)
  delete_found env service_id task_id deleted_by_id found
