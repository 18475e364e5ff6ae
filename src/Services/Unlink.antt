-- ===== src/Services/Unlink.antt =====
-- service_mgmt/use_cases/unlink_service.py
pub mod Same
pub mod Outcome
use fabroku_back_end.Base.{
  ℕ, String, ◌<>◌, Bool, true, false, not, ◌&&◌, ◌||◌, Option, none, some, List, [], ◌∷◌, truthy,
  or_else, if◌then◌else◌,
}
use fabroku_back_end.Base.Dict.{contains, erase}
use fabroku_back_end.Models.App.{App, Field}
use fabroku_back_end.Models.Service.{Service, ServiceRuntime, get_service_runtime}
use fabroku_back_end.Models.Errors.{domain_error, value_error, does_not_exist}
use fabroku_back_end.Runtime.World.{Env, World, Level, Category}
use fabroku_back_end.Runtime.Effects.{
  Action, pure, raise, gets, log, when, or_raise, save_fields, ◌>>=◌, ◌>>◌,
}
use fabroku_back_end.Dokku.{check_dokku_output}
use fabroku_back_end.Apps.Delete.Services.{unlink_dokku_service}
use fabroku_back_end.Services.Rows.{get_live_service, save_service}
use fabroku_back_end.Services.Promote.{promote_remaining_database_if_needed}

abbrev pub detach : Service → Service
detach s = record s { app_id = none }

abbrev pub detach_with_key : Service → Service
detach_with_key s = record s { app_id = none; env_key = none }

-- `service.app`, which a row of another table holds
abbrev pub linked_app : Option ℕ → World → Option App
linked_app none w = none
linked_app (some id) w = w.apps id

module _ (env : Env) (service : Service) (app : App) (runtime : ServiceRuntime) where
  -- `service.env_key or runtime.env_key`
  abbrev pub removed_env_key : String
  removed_env_key = or_else service.env_key runtime.env_key

  abbrev has_key : Bool
  has_key = contains removed_env_key app.variables

  abbrev pub without_url : App
  without_url =
      if has_key then record app { variables = erase removed_env_key app.variables } else app

  unfoldable pub remove_variable : Action (Unit {0})
  remove_variable = when has_key (do
    save_fields app.id (Field.variables (erase removed_env_key app.variables) ∷ [])
    log app.id Level.info Category.config 80)

  unfoldable pub unlink_remote : String → String → Action (Unit {0})
  unlink_remote name app_name = do
    log app.id Level.info Category.database 30
    output ← unlink_dokku_service env runtime.dokku_plugin name app_name
    log app.id Level.dokku Category.database 60
    check_dokku_output output (runtime.default_prefix <> ":unlink") true

  -- What follows the save of the service.
  unfoldable pub after_detach : Action (Unit {0})
  after_detach = do
    promote_remaining_database_if_needed env without_url 90 (some removed_env_key) service.id
    log app.id Level.success Category.database 100

  -- The row of the service loses the app and the key.
  unfoldable pub detach_linked : Action ℕ
  detach_linked = do save_service service.id detach_with_key; after_detach; pure service.id

  -- What has no name in Dokku is only detached.
  unfoldable pub detach_local : Action ℕ
  detach_local = do save_service service.id detach; pure service.id

  unfoldable pub unlink_named : String → String → Action ℕ
  unlink_named name app_name = do unlink_remote name app_name; remove_variable; detach_linked

  unfoldable pub unlink_app : Option String → Action ℕ
  unlink_app task_id = do
    save_fields app.id (Field.task_id task_id ∷ [])
    if not (truthy service.container_name) || not (truthy app.name_dokku)
        then detach_local
        else unlink_named (or_else service.container_name "") (or_else app.name_dokku "")

-- The error of `get_service_runtime`
abbrev pub unsupported : String
unsupported = "Tipo de servico nao suportado. Suportados: PostgreSQL, PostGIS, Redis."

-- `UnlinkServiceUseCase.execute`; the result is the id of `ServiceUnlinked`.
unfoldable pub execute : Env → ℕ → Option String → Action ℕ
execute env service_id task_id = do
  service ← get_live_service service_id
  found ← gets (linked_app service.app_id)
  app ← or_raise (domain_error "Serviço não está vinculado a nenhum app") found
  runtime ← or_raise (value_error unsupported) (get_service_runtime service.service_type)
  unlink_app env service app runtime task_id
