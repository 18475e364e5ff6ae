-- ===== src/Apps/Delete/Services/Removal.antt =====
-- Deleting an app takes every linked service with it, whatever Dokku answers.
use fabroku_back_end.Base.{
  ℕ, suc, ◌+◌, ◌*◌, ◌/◌, max, length, ◌≡◌, refl, List, [], ◌∷◌, ◌==◌, true, false, String, Option,
  none, some, arith, any, keep_if, update_where,
}
use fabroku_back_end.Models.App.{App}
use fabroku_back_end.Models.Service.{
  Service, soft_delete, is_live_of, get_service_runtime, ServiceRuntime, Plugin, postgres, redis,
}
use fabroku_back_end.Runtime.World.{Env, IsQuiet, World}
use fabroku_back_end.Runtime.Effects.{Result, ok}
use fabroku_back_end.Runtime.Frame.{
  Frame, Safe, Safe-catch, Frame-bind, Frame-call, frame_rules, safe_rules,
}
use fabroku_back_end.Apps.Delete.Services.Live.{
  covers, covers-keep_if, covers-update_where, live-covers_nil,
}
use fabroku_back_end.Apps.Delete.Services.{
  delete_each, delete_linked_service, delete_linked_services, soft_delete_service, unlink_linked,
  delete_remote, remove_service, delete_dokku_service, report_service,
}

module _ (env : Env) (q : IsQuiet env) where
  unlink_linked-Safe :
      (app_id : ℕ) (name : Option String) (plugin : Plugin) (service : String) (progress : ℕ)
      → Safe (unlink_linked env app_id name plugin service progress)
  unfolding unlink_linked
  unlink_linked-Safe app_id name plugin service progress = search (frame_rules, Frame-call env q)

  delete_dokku_service-Frame :
      (plugin : Plugin) (name : String) → Frame (delete_dokku_service env plugin name)
  delete_dokku_service-Frame postgres name = search (frame_rules, Frame-call env q)
  delete_dokku_service-Frame redis name = search (frame_rules, Frame-call env q)

  delete_remote-Safe :
      (app_id : ℕ) (plugin : Plugin) (name : String) (progress : ℕ)
      → Safe (delete_remote env app_id plugin name progress)
  unfolding delete_remote
  delete_remote-Safe app_id plugin name progress =
      Safe-catch _ _
        (Frame-bind _ _ (delete_dokku_service-Frame plugin name) (λ output. search frame_rules))
        (λ e. search safe_rules)

  report_service-Safe :
      (app_id : ℕ) (service : Service) (progress : ℕ) (failure : Option String)
      → Safe (report_service env app_id service progress failure)
  report_service-Safe app_id service progress none = search safe_rules
  report_service-Safe app_id service progress (some failure) = search safe_rules

  remove_service-Safe :
      (app : App) (service : Service) (progress : ℕ) (runtime : Option ServiceRuntime)
      → Safe (remove_service env app service progress runtime)
  unfolding remove_service
  remove_service-Safe app service progress none = search safe_rules
  remove_service-Safe app service progress (some runtime) =
      search (safe_rules, unlink_linked-Safe, delete_remote-Safe, report_service-Safe) depth 9

  module _ (app : App) (deleted_by_id : Option ℕ) where
    -- One round of the loop: it returns, and its service is soft-deleted.
    record Round (service : Service) (r : Result (Unit {0})) (w w' : World) : Type 0 where
      returned : r ≡ ok tt
      apps : (j : ℕ) → w'.apps j ≡ w.apps j
      services :
          w'.services
          ≡ update_where (λ s. s.id == service.id) (soft_delete w.clock deleted_by_id) w.services

    delete_linked_service-Round :
        (service : Service) (progress : ℕ) (w : World)
        → let (r, w') = delete_linked_service env app service deleted_by_id progress w in
          Round service r w w'
    unfolding delete_linked_service soft_delete_service
    delete_linked_service-Round service progress w =
        let safe =
          remove_service-Safe app service progress (get_service_runtime service.service_type) in
        let same = safe.frame.same w in
        record {
          returned = ground (arith, safe.returns w);
          apps = λ j. ground (arith, safe.returns w, same.apps j);
          services = ground (arith, safe.returns w, same.services, same.clock);
        }

    delete_each_lem :
        (total idx : ℕ) (l : List Service) (w : World)
        → covers app.id l w.services ≡ true
        → let (r, w') = delete_each env app deleted_by_id total idx l w in
          (r ≡ ok tt)
          × ((j : ℕ) → w'.apps j ≡ w.apps j)
          × (any (is_live_of app.id) w'.services ≡ false)
    unfolding delete_each
    delete_each_lem total idx [] w h = (refl, λ j. refl, live-covers_nil app.id w.services h)
    delete_each_lem total idx (s ∷ l) w h =
        let progress = 10 + idx * 40 / max total 1 in
        let w1 = (delete_linked_service env app s deleted_by_id progress w).1 in
        let round = delete_linked_service-Round s progress w in
        let covered : covers app.id l w1.services ≡ true =
          rw round.services (covers-update_where app.id w.clock deleted_by_id s l w.services h) in
        let rec = delete_each_lem total (suc idx) l w1 covered in
        (
          ground (arith, round.returned, rec.0),
          λ j. ground (arith, round.returned, rec.1 j, round.apps j),
          ground (arith, round.returned, rec.2),
        )

    -- Whatever Dokku answers, the loop over the linked services returns, changes no app, and leaves
    -- no live service of the app. While no other process writes the apps table.
    pub delete_linked_services_lem :
        (w : World)
        → let (r, w') = delete_linked_services env app deleted_by_id w in
          (r ≡ ok tt)
          × ((j : ℕ) → w'.apps j ≡ w.apps j)
          × (any (is_live_of app.id) w'.services ≡ false)
    unfolding delete_linked_services
    delete_linked_services_lem w =
        let linked = keep_if (is_live_of app.id) w.services in
        delete_each_lem (length linked) 0 linked w (covers-keep_if app.id w.services)
