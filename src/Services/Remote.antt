-- ===== src/Services/Remote.antt =====
-- The commands on services of src/core/apps/mixins/services/service_dokku.py: create, link, start and
-- initialize. The waits of two seconds are left out.
use fabroku_back_end.Base.{
  ℕ, String, ◌<>◌, Bool, not, ◌||◌, Option, none, some, lower_contains, or_else, if◌then◌else◌,
}
use fabroku_back_end.Models.App.{App}
use fabroku_back_end.Models.Service.{ServiceRuntime, Plugin, postgres, redis}
use fabroku_back_end.Models.Errors.{runtime_error}
use fabroku_back_end.Runtime.World.{
  Env, Call, link_service, create_database, create_redis, start_database, start_redis,
  stop_database, enable_postgis, remove_container, Level, Category,
}
use fabroku_back_end.Runtime.Effects.{Action, pure, raise, log, call, ◌>>=◌, ◌>>◌}
use fabroku_back_end.Dokku.{dokku_output_failed}
use fabroku_back_end.Services.Urls.{sync_config_url_from_dokku}
use fabroku_back_end.Services.EnvKeys.{dokku_alias_for_env_key}

-- The names of the operations, for the errors
abbrev pub create_operation : Plugin → String
create_operation postgres = "postgres:create"
create_operation redis = "redis:create"

abbrev pub link_operation : Plugin → String
link_operation postgres = "postgres:link"
link_operation redis = "redis:link"

module _ (env : Env) where
  -- `runtime.image` and `runtime.image_version`
  abbrev pub image_of : ServiceRuntime → Option String
  image_of runtime = if runtime.needs_postgis then some env.postgis_image else none

  abbrev pub image_version_of : ServiceRuntime → Option String
  image_version_of runtime = if runtime.needs_postgis then some env.postgis_image_version else none

  -- The command that creates a container
  abbrev pub creation : Plugin → ServiceRuntime → String → String → Call
  creation postgres runtime name password =
      create_database name password (image_of runtime) (image_version_of runtime)
  creation redis runtime name password = create_redis name

  -- `create_dokku_service`
  abbrev pub create_dokku_service : ServiceRuntime → String → String → Action String
  create_dokku_service runtime name password =
      call env (creation runtime.dokku_plugin runtime name password)

  -- `link_dokku_service`; the plugin chooses the command
  abbrev pub link_dokku_service :
      ServiceRuntime → String → String → Bool → Option String → Action String
  link_dokku_service runtime name app_name no_restart env_key = call env (
      link_service runtime.dokku_plugin name app_name no_restart
        (dokku_alias_for_env_key env_key runtime))

  -- `if logger:`
  abbrev log_if : Option ℕ → Action (Unit {0})
  log_if none = pure tt
  log_if (some app_id) = log app_id Level.info Category.database 82

  -- A container whose host name Docker refuses is removed, one in conflict is stopped, and the
  -- database started again.
  unfoldable pub start_again : Option ℕ → String → String → Action String
  start_again app_id name output =
      if lower_contains "sethostname" output || lower_contains "invalid argument" output
      then (do log_if app_id; call env (remove_container name); call env (start_database name))
      else if lower_contains "already in use" output || lower_contains "conflict" output
      then (do log_if app_id; call env (stop_database name); call env (start_database name))
      else pure output

  unfoldable pub start_postgres : Option ℕ → String → Action String
  start_postgres app_id name = do
    output ← call env (start_database name)
    if dokku_output_failed output then start_again app_id name output else pure output

  abbrev start_by : Plugin → Option ℕ → String → Action String
  start_by postgres app_id name = start_postgres app_id name
  start_by redis app_id name = call env (start_redis name)

  -- `start_dokku_service`
  unfoldable pub start_dokku_service : ServiceRuntime → Option ℕ → String → Action String
  start_dokku_service runtime app_id name = start_by runtime.dokku_plugin app_id name

  unfoldable pub check_postgis : String → Action String
  check_postgis output =
      if dokku_output_failed output || not (lower_contains "postgis_version" output)
      then raise (runtime_error ("PostGIS nao foi habilitado corretamente: " <> output))
      else pure output

  -- `initialize_dokku_service`
  unfoldable pub initialize_dokku_service : ServiceRuntime → String → Action (Option String)
  initialize_dokku_service runtime name =
      if runtime.needs_postgis
      then (do
        output ← call env (enable_postgis name)
        checked ← check_postgis output
        pure (some checked))
      else pure none

  -- `sync_service_url_from_dokku`
  abbrev pub sync_service_url_from_dokku :
      App → ServiceRuntime → Option String → ℕ → Action (Option String)
  sync_service_url_from_dokku app runtime env_key progress =
      sync_config_url_from_dokku env app (or_else env_key runtime.env_key) progress
