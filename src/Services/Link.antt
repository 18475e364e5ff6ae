-- ===== src/Services/Link.antt =====
-- src/service_mgmt/use_cases/link_service.py
pub mod Remote
pub mod Outcome
use fabroku_back_end.Base.{
  ℕ, zero, suc, String, ◌<>◌, Bool, true, false, not, ◌&&◌, Option, none, some, List, [], ◌∷◌, ◌==◌,
  truthy, or_else, lower_contains, if◌then◌else◌,
}
use fabroku_back_end.Models.App.{App, Field}
use fabroku_back_end.Models.Service.{Service, ServiceRuntime, get_service_runtime}
use fabroku_back_end.Models.Errors.{domain_error, value_error, does_not_exist, decimal}
use fabroku_back_end.Runtime.World.{Env, World, restart_app, Level, Category}
use fabroku_back_end.Runtime.Effects.{
  Action, pure, gets, log, call, when, or_raise, raise_if, get_active_app, save_fields, ◌>>=◌, ◌>>◌,
}
use fabroku_back_end.Dokku.{check_dokku_output}
use fabroku_back_end.Services.Rows.{get_live_service, save_service, check_unique}
use fabroku_back_end.Services.Promote.{set_env_key}
use fabroku_back_end.Services.Unlink.{unsupported}
use fabroku_back_end.Services.EnvKeys.{allocate_service_env_key}
use fabroku_back_end.Services.Remote.{
  link_dokku_service, link_operation, sync_service_url_from_dokku,
}

-- `ServiceLinked`
pub record ServiceLinked : Type 0 where
  pub service_id : ℕ
  pub app_id : ℕ
  pub env_key : String

-- `service.app_id and service.app_id != app.id`
abbrev pub is_elsewhere : Option ℕ → ℕ → Bool
is_elsewhere none id = false
is_elsewhere (some zero) id = false
is_elsewhere (some (suc n)) id = not (suc n == id)

-- The columns that the last save writes.
abbrev pub attach : ℕ → String → Service → Service
attach app_id key s = record s { app_id = some app_id; env_key = some key; task_id = none }

abbrev id_text : Option ℕ → String
id_text none = ""
id_text (some id) = decimal id

-- The four checks before the link
unfoldable pub check_compatible : Service → App → Action (Unit {0})
check_compatible service app = do
  raise_if (not (service.project_id == app.project_id))
      (domain_error "Serviço e app devem pertencer ao mesmo projeto")
  raise_if (is_elsewhere service.app_id app.id)
      (domain_error ("Serviço já vinculado ao app " <> id_text service.app_id))
  raise_if (not (truthy app.name_dokku)) (domain_error "App sem name_dokku configurado")
  raise_if (not (truthy service.container_name)) (domain_error "Serviço sem container_name")

module _ (env : Env) (service : Service) (app : App) (runtime : ServiceRuntime) where
  abbrev pub key_for : World → String
  key_for w =
      allocate_service_env_key env.upper w.services app.id service.name runtime (some service.id)

  -- The allocation, in one transaction that locks the row of the app
  unfoldable pub allocate_key : Action String
  allocate_key = do
    locked ← gets (λ w. w.apps app.id)
    or_raise does_not_exist locked
    key ← gets key_for
    save_service service.id (set_env_key (some key))
    pure key

  unfoldable pub ensure_key : Action String
  ensure_key = if truthy service.env_key then pure (or_else service.env_key "") else allocate_key

  abbrev pub service_name : String
  service_name = or_else service.container_name ""

  abbrev pub app_name : String
  app_name = or_else app.name_dokku ""

  unfoldable pub link_remote : String → Action (Unit {0})
  link_remote key = do
    log app.id Level.info Category.database 20
    output ← link_dokku_service env runtime service_name app_name true (some key)
    log app.id Level.dokku Category.database 50
    when (not (lower_contains "already linked" output))
        (check_dokku_output output (link_operation runtime.dokku_plugin) false)

  -- What follows the last save
  unfoldable pub restart_linked : String → Action ServiceLinked
  restart_linked key = do
    output ← call env (restart_app app_name)
    log app.id Level.dokku Category.deploy 90
    log app.id Level.success Category.database 100
    pure (record { service_id = service.id; app_id = app.id; env_key = key })

  unfoldable pub save_linked : String → Action ServiceLinked
  save_linked key = do
    check_unique (some app.id) (some key) service.id
    save_service service.id (attach app.id key)
    restart_linked key

  unfoldable pub link_with_key : Option String → String → Action ServiceLinked
  link_with_key task_id key = do
    save_fields app.id (Field.task_id task_id ∷ [])
    link_remote key
    sync_service_url_from_dokku env app runtime (some key) 80
    save_linked key

  unfoldable pub link : Option String → Action ServiceLinked
  link task_id = do key ← ensure_key; link_with_key task_id key

-- `LinkServiceUseCase.execute`
unfoldable pub execute : Env → ℕ → ℕ → Option String → Action ServiceLinked
execute env service_id app_id task_id = do
  service ← get_live_service service_id
  app ← get_active_app app_id
  check_compatible service app
  runtime ← or_raise (value_error unsupported) (get_service_runtime service.service_type)
  link env service app runtime task_id
