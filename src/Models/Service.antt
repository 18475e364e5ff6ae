-- ===== src/Models/Service.antt =====
-- service_mgmt/models.py: `Service`; the service types with their runtimes of
-- service_mgmt/service_types.py.
use fabroku_back_end.Base.{
  ℕ, String, Bool, true, false, Option, none, some, ◌&&◌, not, is_some, holds_id, str_eq, get_or,
  if◌then◌else◌,
}

pub record Service : Type 0 where
  pub id : ℕ
  pub name : String
  pub user : String
  pub password : String
  pub host : String
  pub port : ℕ
  pub app_id : Option ℕ
  pub project_id : ℕ
  pub service_type : String
  pub container_name : Option String
  pub env_key : Option String
  pub image : Option String
  pub image_version : Option String
  pub task_id : Option String
  pub deleted_at : Option ℕ
  pub deleted_by : Option ℕ

-- `Service.objects.filter(app=app, deleted_at__isnull=True)`, as a test on a row
abbrev pub is_live_of : ℕ → Service → Bool
is_live_of app_id s = holds_id s.app_id app_id && not (is_some s.deleted_at)

-- `Service.soft_delete`
abbrev pub soft_delete : ℕ → Option ℕ → Service → Service
soft_delete now (some (ℕ.suc n)) s = record s {
  deleted_at = some (get_or s.deleted_at now);
  deleted_by = some (ℕ.suc n);
}
soft_delete now _ s = record s { deleted_at = some (get_or s.deleted_at now) }

-- The Dokku plugin of a runtime.
pub data Plugin : Type 0 where
  postgres redis : Plugin

-- `ServiceRuntime`; the label, the suffix and the flags that only log lines use are left out.
pub record ServiceRuntime : Type 0 where
  pub service_type : String
  pub default_prefix : String
  pub attached_suffix : String
  pub user : String
  pub port : ℕ
  pub host_prefix : String
  pub env_key : String
  pub dokku_plugin : Plugin
  pub needs_postgis : Bool

-- `SERVICE_RUNTIMES.get(type)`; `none` is the `ValueError` of `get_service_runtime`.
abbrev pub get_service_runtime : String → Option ServiceRuntime
get_service_runtime t =
    if str_eq t "postgres"
    then some (record {
      service_type = "postgres";
      default_prefix = "postgres";
      attached_suffix = "db";
      user = "postgres";
      port = 5432;
      host_prefix = "dokku-postgres-";
      env_key = "DATABASE_URL";
      dokku_plugin = postgres;
      needs_postgis = false;
    })
    else if str_eq t "postgis"
    then some (record {
      service_type = "postgis";
      default_prefix = "postgis";
      attached_suffix = "geo-db";
      user = "postgres";
      port = 5432;
      host_prefix = "dokku-postgres-";
      env_key = "DATABASE_URL";
      dokku_plugin = postgres;
      needs_postgis = true;
    })
    else if str_eq t "redis"
    then some (record {
      service_type = "redis";
      default_prefix = "redis";
      attached_suffix = "redis";
      user = "redis";
      port = 6379;
      host_prefix = "dokku-redis-";
      env_key = "REDIS_URL";
      dokku_plugin = redis;
      needs_postgis = false;
    })
    else none

abbrev pub is_postgres : Plugin → Bool
is_postgres postgres = true
is_postgres redis = false

abbrev pub is_postgres_runtime : ServiceRuntime → Bool
is_postgres_runtime r = is_postgres r.dokku_plugin

abbrev is_postgres_of : Option ServiceRuntime → Bool
is_postgres_of none = false
is_postgres_of (some r) = is_postgres_runtime r

unfoldable pub is_postgres_service_type : String → Bool
is_postgres_service_type t = is_postgres_of (get_service_runtime t)
