-- ===== src/Services/Create/Shared.antt =====
-- What the two ways to create a service share: src/service_mgmt/use_cases/create_service.py.
use fabroku_back_end.Base.{
  ℕ, String, ◌<>◌, Bool, false, not, Option, none, some, [], ◌∷◌, ◌++◌, holds_text, lower_contains,
  if◌then◌else◌,
}
use fabroku_back_end.Models.Service.{Service, ServiceRuntime, is_postgres_runtime}
use fabroku_back_end.Models.Errors.{deployment_failed}
use fabroku_back_end.Runtime.World.{Env}
use fabroku_back_end.Runtime.Effects.{Action, pure, raise_if, gets, write, draw_hex, ◌>>=◌, ◌>>◌}
use fabroku_back_end.Dokku.{check_dokku_output}
use fabroku_back_end.Services.Rows.{check_unique}

-- `ServiceCreated`
pub record ServiceCreated : Type 0 where
  pub service_id : ℕ
  pub service_name : String
  pub service_type : String

-- `bool(service and service.container_name == dokku_service_name)`
abbrev pub previously_owned : Option Service → String → Bool
previously_owned none name = false
previously_owned (some s) name = holds_text s.container_name name

-- A server that has a container of this name keeps it for whoever owns it already.
unfoldable pub check_created : Bool → String → String → String → String → Action (Unit {0})
check_created owned output operation reason step =
    if lower_contains "already exists" output
    then raise_if (not owned) (deployment_failed reason step)
    else check_dokku_output output operation false

-- `self.service.save()` of a new row; the database numbers it.
unfoldable pub insert_service : Env → (ℕ → Service) → Action ℕ
insert_service env row = do
  id ← gets (λ w. env.new_service_id w.services)
  check_unique (row id).app_id (row id).env_key id
  write (λ w. record w { services = w.services ++ (row id ∷ []) })
  pure id

-- The columns that a container gives a service
abbrev pub host_of : ServiceRuntime → String → String
host_of runtime name = runtime.host_prefix <> name

-- `uuid.uuid4().hex if is_postgres_runtime(runtime) else ''`
abbrev pub draw_password : Env → ServiceRuntime → Action String
draw_password env runtime = if is_postgres_runtime runtime then draw_hex env else pure ""
