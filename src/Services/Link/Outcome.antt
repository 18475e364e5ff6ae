-- ===== src/Services/Link/Outcome.antt =====
-- What the link of a service leaves of its row.
use fabroku_back_end.Base.{
  String, ◌≡◌, refl, ap, ◌∙◌, inl, inr, true, false, Option, some, List, [], ◌∷◌, truthy, or_else,
  is_some, arith, Bool-cases,
}
use fabroku_back_end.Models.App.{App, Field}
use fabroku_back_end.Models.Errors.{Error, value_error}
use fabroku_back_end.Models.Service.{Service, ServiceRuntime, get_service_runtime}
use fabroku_back_end.Runtime.World.{Env, World, IsQuiet, restart_app, Level, Category}
use fabroku_back_end.Runtime.Effects.{
  Result, ok, err, pure, continue, log, call, or_raise, is_active, ◌>>=◌, ◌>>◌,
}
use fabroku_back_end.Runtime.Frame.{frame_rules, Frame-call}
use fabroku_back_end.Runtime.Ensures.{Ensures-call, WasAnswered}
use fabroku_back_end.Services.Rows.{
  service_row, save_service, save_service_own, SameService-Frame, SameService-save_fields,
  SameService-check_unique,
}
use fabroku_back_end.Services.Rows.Ends.{Ending, Ends, Ends-then, Ends-bind, Ends-save}
use fabroku_back_end.Services.Promote.{set_env_key}
use fabroku_back_end.Services.EnvKeys.Allocated.{is_unused, allocate-is_unused}
use fabroku_back_end.Services.Unlink.Same.{SameService-sync}
use fabroku_back_end.Services.Unlink.{unsupported}
use fabroku_back_end.Services.Link.{
  ServiceLinked, attach, check_compatible, key_for, allocate_key, ensure_key, app_name, link_remote,
  restart_linked, save_linked, link_with_key, link, execute,
}
use fabroku_back_end.Services.Link.Remote.{
  IsKey, IsLinked, LinkEnds, SameService-link_remote, link_remote-Ensures,
}

module _ (env : Env) (q : IsQuiet env) (s : Service) (app : App) (runtime : ServiceRuntime) where
  module _ (services : List Service) (key : String)
      (is_key : IsKey env s app runtime services key) where
    -- The row as it is when the link begins
    module _ (row : Service)
        (raises : (e : Error) → LinkEnds env s app runtime services (err e) (some row))
        (attached : attach app.id key row ≡ attach app.id key s) where
      E : Ending ServiceLinked
      E = LinkEnds env s app runtime services

      restart_linked-Ends :
          IsLinked env s app runtime key
          → Ends E s.id (attach app.id key row) (restart_linked env s app runtime key)
      unfolding restart_linked E
      restart_linked-Ends linked =
          let attached_row = attach app.id key row in
          let fails : (e : Error)
              → LinkEnds env s app runtime services (err e) (some attached_row) =
            λ e. inr (key, is_key, inr (linked, ap some attached)) in
          let result : ServiceLinked = record {
            service_id = s.id;
            app_id = app.id;
            env_key = key;
          } in
          let last : Ends E s.id attached_row (pure result) = record {
            at = λ w found. (refl, is_key, linked, found ∙ ap some attached);
          } in
          let c = restart_app (app_name env s app runtime) in
          Ends-bind E s.id attached_row fails (WasAnswered env c) (call env c) _
            (SameService-Frame s.id _ (Frame-call env q c)) (Ensures-call env c)
            (λ output was.
              Ends-then E s.id attached_row fails (log app.id Level.dokku Category.deploy 90)
                (log app.id Level.success Category.database 100 >> pure result)
                (SameService-Frame s.id _ (search frame_rules))
                (Ends-then E s.id attached_row fails
                  (log app.id Level.success Category.database 100) (pure result)
                  (SameService-Frame s.id _ (search frame_rules)) last))

      link_with_key-Ends :
          (task_id : Option String) → Ends E s.id row (link_with_key env s app runtime task_id key)
      unfolding link_with_key save_linked E
      link_with_key-Ends task_id =
          Ends-then E s.id row raises _ _
            (SameService-save_fields s.id app.id (Field.task_id task_id ∷ []))
            (Ends-bind E s.id row raises (λ _. IsLinked env s app runtime key)
              (link_remote env s app runtime key) _
              (SameService-link_remote env q s app runtime key)
              (link_remote-Ensures env q s app runtime key)
              (λ _ linked.
                Ends-then E s.id row raises _ _
                  (SameService-sync env q s.id app (or_else (some key) runtime.env_key) 80)
                  (Ends-then E s.id row raises _ _
                    (SameService-check_unique s.id (some app.id) (some key) s.id)
                    (Ends-save E s.id row (attach app.id key) _ (λ s'. refl)
                      (restart_linked-Ends linked)))))

  -- What is left to do with a key that the row of the service already has
  link_own_key :
      (services : List Service) (task_id : Option String)
      → truthy s.env_key ≡ true
      → Ends
          (LinkEnds env s app runtime services)
          s.id
          s
          (link_with_key env s app runtime task_id (or_else s.env_key ""))
  unfolding E
  link_own_key services task_id had =
      link_with_key-Ends services (or_else s.env_key "") (inl (had, refl)) s (λ e. inl refl) refl
        task_id

  link_new_key :
      (services : List Service) (task_id : Option String) (key : String)
      → truthy s.env_key ≡ false
      → is_unused app.id (some s.id) key services ≡ true
      → Ends
          (LinkEnds env s app runtime services)
          s.id
          (set_env_key (some key) s)
          (link_with_key env s app runtime task_id key)
  unfolding E
  link_new_key services task_id key had unused =
      link_with_key-Ends services key (inr (had, unused)) (set_env_key (some key) s)
        (λ e. inr (key, inr (had, unused), inl refl)) refl task_id

  link_allocated :
      (task_id : Option String) (w : World)
      → get_service_runtime s.service_type ≡ some runtime
      → truthy s.env_key ≡ false
      → w.apps app.id ≡ some app
      → service_row s.id w ≡ some s
      → let m = allocate_key env s app runtime >>= link_with_key env s app runtime task_id in
        LinkEnds env s app runtime w.services (m w).0 (service_row s.id (m w).1)
  unfolding allocate_key
  link_allocated task_id w known had there found =
      let key = key_for env s app runtime w in
      let saved = save_service_own s.id (set_env_key (some key)) s w (λ s'. refl) found in
      let unused =
        allocate-is_unused env.upper w.services app.id s.name s.service_type runtime (some s.id)
          known in
      rw (there, saved.0)
        ((link_new_key w.services task_id key had unused).at
          (save_service s.id (set_env_key (some key)) w).1 saved.1)

  link-LinkEnds :
      (task_id : Option String) (w : World)
      → get_service_runtime s.service_type ≡ some runtime
      → w.apps app.id ≡ some app
      → service_row s.id w ≡ some s
      → let (r, w') = link env s app runtime task_id w in
        LinkEnds env s app runtime w.services r (service_row s.id w')
  unfolding link ensure_key
  link-LinkEnds task_id w known there found = elim (Bool-cases (truthy s.env_key)) [
    | inl had ↦ rw had ((link_own_key w.services task_id had).at w found)
    | inr had ↦ rw had (link_allocated task_id w known had there found)
  ]

check_compatible_pure : (s : Service) (app : App) (w : World) → (check_compatible s app w).1 ≡ w
unfolding check_compatible
check_compatible_pure s app w = ground arith

module _ (env : Env) (q : IsQuiet env) (s : Service) (app : App) (runtime : ServiceRuntime) where
  -- What follows the checks
  checked :
      (task_id : Option String) (r : Result (Unit {0})) (w : World)
      → get_service_runtime s.service_type ≡ some runtime
      → w.apps app.id ≡ some app
      → service_row s.id w ≡ some s
      → let (r', w') =
          continue {B = ServiceLinked} r
            (λ _.
              or_raise (value_error unsupported) (get_service_runtime s.service_type) >>= λ found.
              link env s app found task_id)
            w in
        LinkEnds env s app runtime w.services r' (service_row s.id w')
  checked task_id (ok a) w known there found =
      rw known (link-LinkEnds env q s app runtime task_id w known there found)
  checked task_id (err e) w known there found = inl found

-- A service is linked to an app only when Dokku has confirmed it, and under a key that no other
-- live service of the app has, if it is a new one. If the use case returns, the row of the service
-- has the app and the key, Dokku answered the link with an output that tells no failure, or that
-- the two were linked, and the key is the one that the row had, or one that was free. If it
-- raises, the row is as it was, or it has such a key and the link is missing, or it is linked after
-- such an answer. For a live service of a type that is known and an active app, while no other
-- process writes the apps table.
pub link_service-LinkEnds :
    (env : Env) (app : App) (s : Service) (runtime : ServiceRuntime) (task_id : Option String)
    (w : World)
    → IsQuiet env
    → service_row s.id w ≡ some s
    → is_some s.deleted_at ≡ false
    → w.apps app.id ≡ some app
    → is_active app ≡ true
    → get_service_runtime s.service_type ≡ some runtime
    → let (r, w') = execute env s.id app.id task_id w in
      LinkEnds env s app runtime w.services r (service_row s.id w')
unfolding execute
link_service-LinkEnds env app s runtime task_id w q found live there active known =
    rw (found, live, there, active, check_compatible_pure s app w)
      (checked env q s app runtime task_id (check_compatible s app w).0 w known there found)
