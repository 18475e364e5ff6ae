-- ===== src/Services/Create/Standalone.antt =====
-- `execute_standalone` of src/service_mgmt/use_cases/create_service.py: a service of a project.
use fabroku_back_end.Base.{
  ℕ, zero, suc, String, ◌<>◌, true, not, Option, none, some, truthy, or_else, truncate,
  if◌then◌else◌,
}
use fabroku_back_end.Models.Service.{Service, ServiceRuntime, get_service_runtime}
use fabroku_back_end.Models.Errors.{value_error, does_not_exist}
use fabroku_back_end.Runtime.World.{Env}
use fabroku_back_end.Runtime.Effects.{Action, pure, raise_if, draw_hex, or_raise, ◌>>=◌, ◌>>◌}
use fabroku_back_end.Dokku.{check_dokku_output}
use fabroku_back_end.Domain.Texts.{slug_text}
use fabroku_back_end.Services.Rows.{get_live_service, save_service}
use fabroku_back_end.Services.Unlink.{unsupported}
use fabroku_back_end.Services.Remote.{
  image_of, image_version_of, create_dokku_service, create_operation, start_dokku_service,
  initialize_dokku_service,
}
use fabroku_back_end.Services.Create.Shared.{
  ServiceCreated, previously_owned, check_created, insert_service, host_of, draw_password,
}

-- `CreateServiceStandaloneCommand`
pub record CreateServiceStandaloneCommand : Type 0 where
  pub project_id : ℕ
  pub service_type : String
  pub name : Option String
  pub service_id : Option ℕ
  pub password : Option String
  pub task_id : Option String

module _ (env : Env) (runtime : ServiceRuntime) (cmd : CreateServiceStandaloneCommand) where
  abbrev choose_name : Action String
  choose_name =
      if truthy cmd.name
      then pure (slug_text env.lower (or_else cmd.name ""))
      else (do hex ← draw_hex env; pure (runtime.default_prefix <> "-" <> truncate 8 hex))

  abbrev given_password : Option String → Action String
  given_password none = draw_password env runtime
  given_password (some password) = pure password

  abbrev placeholder : String → String → ℕ → Service
  placeholder name password id = record {
    id = id;
    name = name;
    user = runtime.user;
    password = password;
    host = "provisionando...";
    port = runtime.port;
    app_id = none;
    project_id = cmd.project_id;
    service_type = runtime.service_type;
    container_name = none;
    env_key = none;
    image = image_of env runtime;
    image_version = image_version_of env runtime;
    task_id = cmd.task_id;
    deleted_at = none;
    deleted_by = none;
  }

  abbrev prepared : String → String → Service → Service
  prepared name password s = record s {
    task_id = cmd.task_id;
    name = name;
    service_type = runtime.service_type;
    user = runtime.user;
    password = password;
    port = runtime.port;
    image = image_of env runtime;
    image_version = image_version_of env runtime;
  }

  abbrev insert_placeholder : String → String → Action Service
  insert_placeholder name password = do
    id ← insert_service env (placeholder name password)
    pure (placeholder name password id)

  abbrev prepare : Option ℕ → String → String → Action Service
  prepare none name password = insert_placeholder name password
  prepare (some zero) name password = insert_placeholder name password
  prepare (some (suc n)) name password = do
    service ← get_live_service (suc n)
    save_service service.id (prepared name password)
    pure (prepared name password service)

  -- `_prepare_standalone_service_record`
  unfoldable pub prepare_standalone_service_record : String → String → Action Service
  prepare_standalone_service_record name password = prepare cmd.service_id name password

  abbrev pub with_host : String → Service → Service
  with_host name s = record s {
    container_name = some name;
    host = host_of runtime name;
    port = runtime.port;
  }

  unfoldable pub create_container : Service → String → String → Action (Unit {0})
  create_container service name password = do
    output ← create_dokku_service env runtime name password
    check_created (previously_owned (some service) name) output
        (create_operation runtime.dokku_plugin)
        ("Já existe um serviço \"" <> name <> "\" no servidor que não pertence a este projeto.")
        "create_standalone_service"

  -- What follows the save of the container
  unfoldable pub start_standalone : Service → String → Action ServiceCreated
  start_standalone service name = do
    output ← start_dokku_service env runtime none name
    check_dokku_output output (runtime.default_prefix <> ":start") true
    initialize_dokku_service env runtime name
    save_service service.id (λ s. record s { task_id = none })
    pure (record {
      service_id = service.id;
      service_name = name;
      service_type = runtime.service_type;
    })

  unfoldable pub provision_standalone : Service → String → String → Action ServiceCreated
  provision_standalone service name password = do
    create_container service name password
    save_service service.id (with_host name)
    start_standalone service name

  unfoldable pub create_standalone : Action ServiceCreated
  create_standalone = do
    name ← choose_name
    password ← given_password cmd.password
    service ← prepare_standalone_service_record (or_else cmd.name name) password
    provision_standalone service name password

-- `CreateServiceUseCase.execute_standalone`
unfoldable pub execute_standalone : Env → CreateServiceStandaloneCommand → Action ServiceCreated
execute_standalone env cmd = do
  raise_if (not (env.has_project cmd.project_id)) does_not_exist
  runtime ← or_raise (value_error unsupported) (get_service_runtime cmd.service_type)
  create_standalone env runtime cmd
