-- ===== src/Services/Create.antt =====
-- src/service_mgmt/use_cases/create_service.py: the service of an app. The waits of some seconds are
-- left out.
pub mod Shared
pub mod Standalone
pub mod Outcome
use fabroku_back_end.Base.{
  ℕ, zero, suc, String, ◌<>◌, Bool, true, false, not, ◌&&◌, Option, none, some, List, [], ◌∷◌, ◌++◌,
  ◌==◌, truthy, or_else, holds_id, holds_text, is_some, find, lower_contains, if◌then◌else◌,
}
use fabroku_back_end.Models.App.{App, Field}
use fabroku_back_end.Models.Service.{
  Service, ServiceRuntime, is_live_of, is_postgres_runtime, get_service_runtime,
}
use fabroku_back_end.Models.Errors.{value_error, does_not_exist, deployment_failed, decimal}
use fabroku_back_end.Runtime.World.{Env, World, restart_app, Level, Category}
use fabroku_back_end.Runtime.Effects.{
  Action, pure, raise, raise_if, gets, write, log, call, draw_hex, when, or_raise, get_active_app,
  save_fields, ◌>>=◌, ◌>>◌,
}
use fabroku_back_end.Dokku.{check_dokku_output, dokku_output_failed}
use fabroku_back_end.Domain.Texts.{slug_text}
use fabroku_back_end.Services.Create.Shared.{
  ServiceCreated, previously_owned, check_created, insert_service, host_of, draw_password,
}
use fabroku_back_end.Services.Rows.{save_service, check_unique}
use fabroku_back_end.Services.Unlink.{unsupported}
use fabroku_back_end.Services.Remote.{
  image_of, image_version_of, create_dokku_service, create_operation, link_dokku_service,
  link_operation, start_dokku_service, initialize_dokku_service, sync_service_url_from_dokku,
}

-- `CreateServiceCommand`
pub record CreateServiceCommand : Type 0 where
  pub app_id : ℕ
  pub service_type : String
  pub service_id : Option ℕ
  pub task_id : Option String

module _ (env : Env) (app : App) (runtime : ServiceRuntime) (service : Option Service) where
  -- `service.name if service else ...`
  abbrev named : Option Service → String
  named none = app.name <> "-" <> runtime.attached_suffix
  named (some s) = s.name

  abbrev pub service_name : String
  service_name = named service

  abbrev pub dokku_service_name : String
  dokku_service_name = slug_text env.lower (service_name <> "-" <> decimal app.id)

  abbrev pub password_of : Option Service → Action String
  password_of none = draw_password env runtime
  password_of (some s) = pure s.password

  -- `service.env_key if service else runtime.env_key`
  abbrev key_of : Option Service → Option String
  key_of none = some runtime.env_key
  key_of (some s) = s.env_key

  abbrev with_container : String → Service → Service
  with_container name s = record s {
    container_name = some name;
    host = host_of runtime name;
    image = image_of env runtime;
    image_version = image_version_of env runtime;
  }

  abbrev save_container : Option Service → String → Action (Unit {0})
  save_container none name = pure tt
  save_container (some s) name = save_service s.id (with_container name)

  -- `_create_remote_service`
  unfoldable pub create_remote_service : String → String → Action (Unit {0})
  create_remote_service name password = do
    log app.id Level.info Category.database 10
    output ← create_dokku_service env runtime name password
    log app.id Level.dokku Category.database 40
    check_created (previously_owned service name) output (create_operation runtime.dokku_plugin)
        ("Já existe um serviço \"" <> name <> "\" no servidor que não pertence a este app.")
        "create_remote_service"
    when (lower_contains "already exists" output) (log app.id Level.info Category.database 40)
    save_container service name

  -- `_link_remote_service`
  unfoldable pub link_remote_service : String → Action (Unit {0})
  link_remote_service name = do
    log app.id Level.info Category.database 50
    output ← link_dokku_service env runtime name (or_else app.name_dokku "") true (key_of service)
    log app.id Level.dokku Category.database 70
    if lower_contains "already linked" output
        then log app.id Level.info Category.database 70
        else check_dokku_output output (link_operation runtime.dokku_plugin) false
    sync_service_url_from_dokku env app runtime (key_of service) 72
    pure tt

  -- `_start_remote_service`
  unfoldable pub start_remote_service : String → Action (Unit {0})
  start_remote_service name = do
    output ← start_dokku_service env runtime (some app.id) name
    log app.id (if dokku_output_failed output then Level.warning else Level.info) Category.database
        82

  -- `_initialize_remote_service`
  unfoldable pub initialize_remote_service : String → Action (Unit {0})
  initialize_remote_service name = do
    initialized ← initialize_dokku_service env runtime name
    when (is_some initialized)
        (do log app.id Level.dokku Category.database 88; log app.id Level.info Category.database 88)

  -- What `_persist_local_service` sets, of an old row and of a new one
  abbrev persisted : String → String → Service → Service
  persisted name password s = record s {
    user = runtime.user;
    password = password;
    host = host_of runtime name;
    port = runtime.port;
    container_name = some name;
    image = image_of env runtime;
    image_version = image_version_of env runtime;
    task_id = none;
  }

  abbrev new_row : String → String → ℕ → Service
  new_row name password id = record {
    id = id;
    name = service_name;
    user = runtime.user;
    password = password;
    host = host_of runtime name;
    port = runtime.port;
    app_id = some app.id;
    project_id = app.project_id;
    service_type = runtime.service_type;
    container_name = some name;
    env_key = some runtime.env_key;
    image = image_of env runtime;
    image_version = image_version_of env runtime;
    task_id = none;
    deleted_at = none;
    deleted_by = none;
  }

  -- `service.save()` writes all columns, those of the object that was read.
  abbrev persist : Option Service → String → String → Action ℕ
  persist none name password = insert_service env (new_row name password)
  persist (some s) name password = do save_service s.id (λ _. persisted name password s); pure s.id

  -- `_persist_local_service`
  unfoldable pub persist_local_service : String → String → Action ℕ
  persist_local_service name password = persist service name password

  unfoldable pub finish_attached : String → String → Action ServiceCreated
  finish_attached name password = do
    id ← persist_local_service name password
    output ← call env (restart_app (or_else app.name_dokku ""))
    log app.id Level.dokku Category.deploy 94
    log app.id Level.success Category.database 100
    pure (record { service_id = id; service_name = name; service_type = runtime.service_type })

  unfoldable pub provision : String → String → Action ServiceCreated
  provision name password = do
    create_remote_service name password
    link_remote_service name
    start_remote_service name
    initialize_remote_service name
    finish_attached name password

  unfoldable pub create_with_password : String → Action ServiceCreated
  create_with_password password =
      if truthy app.name_dokku then provision dokku_service_name password else (do
        log app.id Level.error Category.database 0
        raise (deployment_failed "App sem name_dokku configurado" "validate"))

  -- What follows the rows that are read.
  unfoldable pub create_attached : Action ServiceCreated
  create_attached = do password ← password_of service; create_with_password password

-- `Service.objects.get(id=..., app=app, deleted_at__isnull=True)`, if an id is given
abbrev pub get_attached : ℕ → Option ℕ → Action (Option Service)
get_attached app_id none = pure none
get_attached app_id (some id) = do
  found ← gets (λ w. find (λ s. s.id == id && is_live_of app_id s) w.services)
  service ← or_raise does_not_exist found
  pure (some service)

-- `CreateServiceUseCase.execute_attached`
unfoldable pub execute_attached : Env → CreateServiceCommand → Action ServiceCreated
execute_attached env cmd = do
  app ← get_active_app cmd.app_id
  runtime ← or_raise (value_error unsupported) (get_service_runtime cmd.service_type)
  save_fields app.id (Field.task_id cmd.task_id ∷ [])
  service ← get_attached app.id cmd.service_id
  create_attached env app runtime service
