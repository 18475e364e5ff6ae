-- ===== src/Apps/Databases.antt =====
-- `_start_linked_databases` of applications/use_cases/manage_app.py and deploy_app.py: the linked
-- Postgres services of an app are started first, whatever comes of it.
use fabroku_back_end.Base.{ℕ, ◌≡◌, refl, Bool, ◌&&◌, List, [], ◌∷◌, arith, truthy, or_else, keep_if}
use fabroku_back_end.Models.Service.{Service, is_live_of, is_postgres_service_type}
use fabroku_back_end.Runtime.World.{Env, World, IsQuiet, start_database, Level, Category}
use fabroku_back_end.Runtime.Effects.{Action, ok, pure, catch, gets, log, call, when, ◌>>=◌, ◌>>◌}

-- The body of the loop; only the deploy logs the output.
unfoldable pub start_one : Env → ℕ → Bool → Service → Action (Unit {0})
start_one env app_id logged svc =
    when (truthy svc.container_name && is_postgres_service_type svc.service_type) (
      catch
        (do
          call env (start_database (or_else svc.container_name ""))
          when logged (log app_id Level.dokku Category.database 3))
        (λ _. pure tt))

unfoldable pub start_each : Env → ℕ → Bool → List Service → Action (Unit {0})
start_each env app_id logged [] = pure tt
start_each env app_id logged (svc ∷ rest) = do
  start_one env app_id logged svc
  start_each env app_id logged rest

unfoldable pub start_linked_databases : Env → ℕ → Bool → Action (Unit {0})
start_linked_databases env app_id logged = do
  linked ← gets (λ w. keep_if (is_live_of app_id) w.services)
  start_each env app_id logged linked

module _ (env : Env) (app_id : ℕ) (logged : Bool) (q : IsQuiet env) where
  start_one_ok : (svc : Service) (w : World) → (start_one env app_id logged svc w).0 ≡ ok tt
  unfolding start_one
  start_one_ok svc w = ground arith

  apps-start_one :
      (svc : Service) (w : World) (j : ℕ) → (start_one env app_id logged svc w).1.apps j ≡ w.apps j
  unfolding start_one
  apps-start_one svc w j =
      ground (arith, q w.calls (start_database (or_else svc.container_name "")) w.apps j)

  start_each_ok : (ss : List Service) (w : World) → (start_each env app_id logged ss w).0 ≡ ok tt
  unfolding start_each
  start_each_ok [] w = refl
  start_each_ok (svc ∷ ss) w =
      ground (arith, start_one_ok svc w, start_each_ok ss (start_one env app_id logged svc w).1)

  apps-start_each :
      (ss : List Service) (w : World) (j : ℕ)
      → (start_each env app_id logged ss w).1.apps j ≡ w.apps j
  unfolding start_each
  apps-start_each [] w j = refl
  apps-start_each (svc ∷ ss) w j = ground (
    arith,
    start_one_ok svc w,
    apps-start_one svc w j,
    apps-start_each ss (start_one env app_id logged svc w).1 j,
  )

  -- The warm-up of the linked databases returns, whatever Dokku answers: it never raises. While no
  -- other process writes the apps table.
  pub start_linked_databases_ok :
      (w : World) → (start_linked_databases env app_id logged w).0 ≡ ok tt
  unfolding start_linked_databases
  start_linked_databases_ok w = start_each_ok (keep_if (is_live_of app_id) w.services) w

  pub apps-start_linked_databases :
      (w : World) (j : ℕ) → (start_linked_databases env app_id logged w).1.apps j ≡ w.apps j
  unfolding start_linked_databases
  apps-start_linked_databases w j = apps-start_each (keep_if (is_live_of app_id) w.services) w j
