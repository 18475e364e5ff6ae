-- ===== src/Apps/Delete/Services.antt =====
-- `_delete_linked_service` of applications/use_cases/delete_app.py, and `unlink_dokku_service`,
-- `delete_dokku_service` of core/apps/mixins/services/service_dokku.py.
pub mod Live
pub mod Removal
use fabroku_back_end.Base.{
  ℕ, suc, ◌+◌, ◌*◌, ◌/◌, max, String, ◌<>◌, Bool, true, false, Option, none, some, List, [], ◌∷◌,
  ◌==◌, truthy, or_else, is_some, length, keep_if, update_where, if◌then◌else◌,
}
use fabroku_back_end.Models.App.{App}
use fabroku_back_end.Models.Service.{
  Service, ServiceRuntime, Plugin, postgres, redis, is_live_of, soft_delete, get_service_runtime,
}
use fabroku_back_end.Models.Errors.{Error, message}
use fabroku_back_end.Runtime.World.{
  Env, World, Notice, Call, unlink_service, delete_service, remove_container, Level, Category,
}
use fabroku_back_end.Runtime.Effects.{
  Action, pure, catch, gets, write, log, call, notify_admins, when, ◌>>=◌, ◌>>◌,
}
use fabroku_back_end.Dokku.{dokku_output_failed}

-- `service.soft_delete(deleted_by_id=...)`
unfoldable pub soft_delete_service : Service → Option ℕ → Action (Unit {0})
soft_delete_service service deleted_by_id = write λ w. record w {
  services = update_where (λ s. s.id == service.id) (soft_delete w.clock deleted_by_id) w.services;
}

module _ (env : Env) where
  -- `unlink_dokku_service`; the plugin chooses the command
  abbrev pub unlink_dokku_service : Plugin → String → String → Action String
  unlink_dokku_service plugin name app_name = call env (unlink_service plugin name app_name)

  -- `delete_dokku_service`; of a Postgres the container goes first
  abbrev pub delete_dokku_service : Plugin → String → Action String
  delete_dokku_service postgres name = do
    call env (remove_container name)
    call env (delete_service postgres name)
  delete_dokku_service redis name = call env (delete_service redis name)

  unfoldable pub unlink_linked : ℕ → Option String → Plugin → String → ℕ → Action (Unit {0})
  unlink_linked app_id dokku_app_name plugin name progress = when (truthy dokku_app_name) (
      catch
        (do
          output ← unlink_dokku_service plugin name (or_else dokku_app_name "")
          log app_id (if dokku_output_failed output then Level.warning else Level.info)
              Category.database progress)
        (λ e. log app_id Level.warning Category.database progress))

  -- The failure of deleting the service in Dokku, if there is one.
  unfoldable pub delete_remote : ℕ → Plugin → String → ℕ → Action (Option String)
  delete_remote app_id plugin name progress =
      catch
        (do
          output ← delete_dokku_service plugin name
          if dokku_output_failed output
              then pure (some ("Deleção do serviço " <> name <> " retornou erro: " <> output))
              else (do log app_id Level.success Category.database progress; pure none))
        (λ e. pure (some ("Erro ao deletar serviço " <> name <> ": " <> message e)))

  abbrev report_service : ℕ → Service → ℕ → Option String → Action (Unit {0})
  report_service app_id service progress none = pure tt
  report_service app_id service progress (some failure) = do
    log app_id Level.warning Category.database progress
    notify_admins (Notice.service_delete_failed service.id)

  -- The part of `_delete_linked_service` for a type that has a runtime.
  unfoldable pub remove_service : App → Service → ℕ → Option ServiceRuntime → Action (Unit {0})
  remove_service app service progress none = pure tt
  remove_service app service progress (some runtime) = do
    let name = or_else service.container_name service.name
    unlink_linked app.id app.name_dokku runtime.dokku_plugin name progress
    failure ← delete_remote app.id runtime.dokku_plugin name progress
    report_service app.id service progress failure

  -- `_delete_linked_service`
  unfoldable pub delete_linked_service : App → Service → Option ℕ → ℕ → Action (Unit {0})
  delete_linked_service app service deleted_by_id progress = do
    remove_service app service progress (get_service_runtime service.service_type)
    soft_delete_service service deleted_by_id

  -- The loop of `execute`; `10 + int((idx / max(total, 1)) * 40)` over exact fractions
  unfoldable pub delete_each : App → Option ℕ → ℕ → ℕ → List Service → Action (Unit {0})
  delete_each app deleted_by_id total idx [] = pure tt
  delete_each app deleted_by_id total idx (service ∷ rest) = do
    delete_linked_service app service deleted_by_id (10 + idx * 40 / max total 1)
    delete_each app deleted_by_id total (suc idx) rest

  unfoldable pub delete_linked_services : App → Option ℕ → Action (Unit {0})
  delete_linked_services app deleted_by_id = do
    linked ← gets (λ w. keep_if (is_live_of app.id) w.services)
    delete_each app deleted_by_id (length linked) 0 linked
