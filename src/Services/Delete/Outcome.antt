-- ===== src/Services/Delete/Outcome.antt =====
-- What the removal of a service leaves of its row.
use fabroku_back_end.Base.{
  ℕ, String, ◌≡◌, refl, ◌∙◌, ◌⊎◌, inl, inr, Bool, true, false, Option, none, some, [], ◌∷◌, is_some,
  arith,
}
use fabroku_back_end.Models.App.{App, Field}
use fabroku_back_end.Models.Errors.{Error}
use fabroku_back_end.Models.Service.{
  Service, ServiceRuntime, Plugin, postgres, redis, get_service_runtime, soft_delete,
}
use fabroku_back_end.Runtime.World.{Env, World, IsQuiet}
use fabroku_back_end.Runtime.Effects.{Action, Result, Result-cases, ok, err, pure, continue, ◌>>◌}
use fabroku_back_end.Runtime.Frame.{Frame, frame_rules, Frame-call}
use fabroku_back_end.Apps.Delete.Services.{delete_dokku_service, soft_delete_service}
use fabroku_back_end.Services.Rows.{
  service_row, SameService, SameService-Frame, SameService-if, SameService-bind, SameService-then,
  SameService-when, SameService-save_fields, find-update_own,
}
use fabroku_back_end.Services.Unlink.{linked_app}
use fabroku_back_end.Services.Promote.{promote_remaining_database_if_needed}
use fabroku_back_end.Services.Unlink.Same.{Frame-check, SameService-promote_remaining}
use fabroku_back_end.Services.Rows.Ends.{Ends, Ends-then}
use fabroku_back_end.Services.Delete.{
  ServiceDeleted, env_key, without_env_key, prepare_task_context, remove_app_env_key, try_unlink,
  should_unset, unset, unlink_named, unlink_remote_if_needed, try_delete, delete_remote,
  after_delete, finish_delete, delete_service, execute,
}

abbrev pub removed : Service → ServiceDeleted
removed s = record { service_id = s.id; already_deleted = false }

-- The row is that of the service, deleted.
abbrev pub IsRemoved : Service → Option ℕ → Option Service → Type 0
IsRemoved s deleted_by_id o = (now : ℕ) × (o ≡ some (soft_delete now deleted_by_id s))

-- The promotion of another database, asked for once the row was deleted, has failed so.
abbrev pub PromotionFailed : Env → App → Service → ServiceRuntime → Option ℕ → Error → Type 0
PromotionFailed env app s runtime deleted_by_id e =
    (w : World) × IsRemoved s deleted_by_id (service_row s.id w)
    × ((promote_remaining_database_if_needed env (without_env_key env s runtime app) 90
          (some (env_key env s runtime)) s.id w).0
        ≡ err e)

-- What becomes of the row of the service.
abbrev pub RemovalEnds :
    Env
    → App
    → Service
    → ServiceRuntime
    → Option ℕ
    → Result ServiceDeleted
    → Option Service
    → Type 0
RemovalEnds env app s runtime deleted_by_id (ok d) o = (d ≡ removed s) × IsRemoved s deleted_by_id o
RemovalEnds env app s runtime deleted_by_id (err e) o =
    (o ≡ some s) ⊎ (IsRemoved s deleted_by_id o × PromotionFailed env app s runtime deleted_by_id e)

soft_delete-id : (now : ℕ) (by : Option ℕ) (s : Service) → (soft_delete now by s).id ≡ s.id
soft_delete-id now none s = refl
soft_delete-id now (some ℕ.zero) s = refl
soft_delete-id now (some (ℕ.suc n)) s = refl

module _ (env : Env) (q : IsQuiet env) (app : App) (s : Service) (runtime : ServiceRuntime) where
  Frame-try_unlink : (name : String) → Frame (try_unlink env s runtime app name)
  unfolding try_unlink
  Frame-try_unlink name = search (frame_rules, Frame-call env q, Frame-check env q s.id) depth 12

  Frame-should_unset : (name : String) (b : Bool) → Frame (should_unset env s runtime name b)
  unfolding should_unset
  Frame-should_unset name false = search frame_rules
  Frame-should_unset name true = search (frame_rules, Frame-call env q) depth 8

  Frame-unset : (name : String) (b : Bool) → Frame (unset env s runtime app name b)
  unfolding unset
  Frame-unset name b = search (frame_rules, Frame-call env q, Frame-check env q s.id) depth 8

  SameService-remove_key : SameService s.id (remove_app_env_key env s runtime app)
  unfolding remove_app_env_key
  SameService-remove_key = search (SameService-when, SameService-save_fields)

  SameService-unlink_named :
      (name : String) → SameService s.id (unlink_named env s runtime app name)
  unfolding unlink_named
  SameService-unlink_named name =
      search
        (
          frame_rules, SameService-Frame, SameService-then, SameService-bind, SameService-when,
          SameService-remove_key, Frame-try_unlink, Frame-should_unset, Frame-unset,
        )
        depth 12

  SameService-unlink : SameService s.id (unlink_remote_if_needed env s runtime (some app))
  unfolding unlink_remote_if_needed
  SameService-unlink = search (SameService-if, SameService-unlink_named, SameService-remove_key)

  SameService-after_delete : (SameService s.id (after_delete env s runtime (some app)))
  unfolding after_delete
  SameService-after_delete =
      search (frame_rules, SameService-Frame, SameService-then, SameService-promote_remaining env q)
        depth 8

  Frame-delete : (plugin : Plugin) (name : String) → Frame (delete_dokku_service env plugin name)
  Frame-delete postgres name = search (frame_rules, Frame-call env q) depth 8
  Frame-delete redis name = search (frame_rules, Frame-call env q) depth 8

  Frame-try_delete : Frame (try_delete env s runtime (some app))
  unfolding try_delete
  Frame-try_delete = search (frame_rules, Frame-delete) depth 12

  SameService-delete_remote : SameService s.id (delete_remote env s runtime (some app))
  unfolding delete_remote
  SameService-delete_remote =
      SameService-Frame s.id _ (search (frame_rules, Frame-try_delete) depth 10)

module _ (env : Env) (app : App) (s : Service) (runtime : ServiceRuntime) (by : Option ℕ) where
  abbrev Removes : Action ServiceDeleted → Type 0
  Removes m = Ends (RemovalEnds env app s runtime by) s.id s m

  Removes-then :
      {A : Type 0} (m : Action A) (n : Action ServiceDeleted)
      → SameService s.id m
      → Removes n
      → Removes (m >> n)
  Removes-then m n same k =
      Ends-then (RemovalEnds env app s runtime by) s.id s (λ e. inl refl) m n same k

  after_removed :
      {A : Type 0} (r : Result A) (w : World)
      → IsRemoved s by (service_row s.id w)
      → ((e : Error) → r ≡ err e → PromotionFailed env app s runtime by e)
      → let (r', w') = continue r (λ _. pure (removed s)) w in
        RemovalEnds env app s runtime by r' (service_row s.id w')
  after_removed (ok a) w removed k = (refl, removed)
  after_removed (err e) w removed k = inr (removed, k e refl)

  -- What raises after the row is deleted is the promotion.
  promotion_failed :
      (w : World) (e : Error)
      → IsRemoved s by (service_row s.id w)
      → (after_delete env s runtime (some app) w).0 ≡ err e
      → PromotionFailed env app s runtime by e
  unfolding after_delete
  promotion_failed w e removed failed =
      let m =
        promote_remaining_database_if_needed env (without_env_key env s runtime app) 90
          (some (env_key env s runtime)) s.id in
      elim (Result-cases (m w).0) [
        | inl (a, ran) ↦ ground (arith, ran, failed)
        | inr (x, raised) ↦ (w, removed, ground (arith, raised, failed))
      ]

module _ (env : Env) (q : IsQuiet env) (app : App) (s : Service) (runtime : ServiceRuntime) where
  finish_delete-Removes :
      (by : Option ℕ) → Removes env app s runtime by (finish_delete env s runtime (some app) by)
  unfolding finish_delete soft_delete_service
  finish_delete-Removes by = record {
    at = λ w found.
        let w' = (soft_delete_service s by w).1 in
        let after = after_delete env s runtime (some app) in
        let gone =
          find-update_own s.id (soft_delete w.clock by) s w.services (soft_delete-id w.clock by)
            found in
        after_removed env app s runtime by (after w').0 (after w').1
          (w.clock, (SameService-after_delete env q app s runtime).same w' ∙ gone)
          (λ e failed. promotion_failed env app s runtime by w' e (w.clock, gone) failed);
  }

  delete_service-Removes :
      (task_id : Option String) (by : Option ℕ)
      → Removes env app s runtime by (delete_service env s runtime (some app) task_id by)
  unfolding delete_service prepare_task_context
  delete_service-Removes task_id by =
      Removes-then env app s runtime by _ _
        (SameService-save_fields s.id app.id (Field.task_id task_id ∷ []))
        (Removes-then env app s runtime by _ _ (SameService-unlink env q app s runtime) (
          Removes-then env app s runtime by _ _ (SameService-delete_remote env q app s runtime)
            (finish_delete-Removes by)))

-- The removal of a service ends in one of these ways, whatever Dokku answers. If the use case
-- returns, it reports a removal, and the row of the service is deleted, and otherwise the same. If
-- it raises, the row is as it was, still of its app, so that the removal can be asked for again, or
-- it is deleted, and the error is that of the promotion of another database, which was asked for
-- after the row was deleted. For a live service of an app, of a type that is known, while no other
-- process writes the apps table.
pub delete_service-RemovalEnds :
    (env : Env) (app : App) (s : Service) (runtime : ServiceRuntime) (task_id : Option String)
    (deleted_by_id : Option ℕ) (w : World)
    → IsQuiet env
    → service_row s.id w ≡ some s
    → is_some s.deleted_at ≡ false
    → linked_app s.app_id w ≡ some app
    → get_service_runtime s.service_type ≡ some runtime
    → let (r, w') = execute env s.id task_id deleted_by_id w in
      RemovalEnds env app s runtime deleted_by_id r (service_row s.id w')
unfolding execute
delete_service-RemovalEnds env app s runtime task_id by w q found live linked known =
    rw (found, live, known, linked)
      ((delete_service-Removes env q app s runtime task_id by).at w found)
