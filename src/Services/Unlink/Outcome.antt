-- ===== src/Services/Unlink/Outcome.antt =====
-- What the unlink of a service leaves of its row.
use fabroku_back_end.Base.{
  ℕ, String, ◌<>◌, ◌≡◌, refl, ◌∙◌, ◌⊎◌, inl, inr, Bool, true, false, ◌&&◌, Option, some, [], ◌∷◌,
  truthy, or_else, is_some, arith,
}
use fabroku_back_end.Models.App.{App, Field}
use fabroku_back_end.Models.Service.{Service, ServiceRuntime, get_service_runtime}
use fabroku_back_end.Runtime.World.{Env, World, IsQuiet, unlink_service, Level, Category}
use fabroku_back_end.Runtime.Effects.{
  Action, Result, ok, err, pure, continue, log, call, save_fields, ◌>>◌,
}
use fabroku_back_end.Runtime.Frame.{frame_rules, Frame-call}
use fabroku_back_end.Runtime.Ensures.{
  Returned, Ensures, Ensures-then, Ensures-bind, Ensures-call, WasAnswered,
}
use fabroku_back_end.Dokku.{check_dokku_output, check_dokku_output_ok, dokku_output_failed}
use fabroku_back_end.Services.Rows.{
  service_row, save_service, SameService, SameService-Frame, SameService-then, SameService-when,
  SameService-save_fields, save_service_own,
}
use fabroku_back_end.Services.Rows.Ends.{Ends, Ends-if, Ends-then, Ends-bind}
use fabroku_back_end.Models.Errors.{Error}
use fabroku_back_end.Services.Unlink.{
  detach, detach_local, unlink_named, detach_with_key, remove_variable, unlink_remote, after_detach,
  detach_linked, unlink_app, execute, linked_app,
}
use fabroku_back_end.Services.Unlink.Same.{Frame-check, SameService-promote_remaining}

-- Dokku has answered the unlink with an output that shows no failure.
abbrev pub Unlinked : Env → ServiceRuntime → String → String → Type 0
Unlinked env runtime name app_name =
    (output : String) × WasAnswered env (unlink_service runtime.dokku_plugin name app_name) output
    × (dokku_output_failed output ≡ false)

module _ (env : Env) (app : App) (s : Service) (runtime : ServiceRuntime) where
  -- The service and the app both have a name in Dokku.
  abbrev pub is_remote : Bool
  is_remote = truthy s.container_name && truthy app.name_dokku

  abbrev pub Confirmed : Type 0
  Confirmed = Unlinked env runtime (or_else s.container_name "") (or_else app.name_dokku "")

  -- What becomes of the row of the service.
  abbrev pub UnlinkEnds : Result ℕ → Option Service → Type 0
  UnlinkEnds (ok n) o =
      ((is_remote ≡ false) × (o ≡ some (detach s))) ⊎ (Confirmed × (o ≡ some (detach_with_key s)))
  UnlinkEnds (err e) o = (o ≡ some s) ⊎ (Confirmed × (o ≡ some (detach_with_key s)))

module _ (env : Env) (q : IsQuiet env) (app : App) (s : Service) (runtime : ServiceRuntime) where
  abbrev Unlinks : Action ℕ → Type 0
  Unlinks m = Ends (UnlinkEnds env app s runtime) s.id s m

  raises : (e : Error) → UnlinkEnds env app s runtime (err e) (some s)
  raises e = inl refl

  after_detach-SameService : SameService s.id (after_detach env s app runtime)
  unfolding after_detach
  after_detach-SameService =
      search (frame_rules, SameService-Frame, SameService-then, SameService-promote_remaining env q)
        depth 8

  SameService-remove_variable : SameService s.id (remove_variable env s app runtime)
  unfolding remove_variable
  SameService-remove_variable =
      search
        (
          frame_rules, SameService-Frame, SameService-then, SameService-when,
          SameService-save_fields,
        )
        depth 8

  SameService-unlink_remote :
      (name app_name : String) → SameService s.id (unlink_remote env s app runtime name app_name)
  unfolding unlink_remote
  SameService-unlink_remote name app_name =
      SameService-Frame s.id _
        (search (frame_rules, Frame-call env q, Frame-check env q s.id) depth 10)

  Returned-ok : (F : Type 0) (r : Result (Unit {0})) → (r ≡ ok tt → F) → Returned (λ _. F) r
  Returned-ok F (ok a) f = f refl
  Returned-ok F (err e) f = tt

  check-Ensures :
      (F : Type 0) (output operation : String)
      → (dokku_output_failed output ≡ false → F)
      → Ensures (λ _. F) (check_dokku_output output operation true)
  check-Ensures F output operation f = record {
    at = λ w.
        Returned-ok F (check_dokku_output output operation true w).0
          (λ e. f (check_dokku_output_ok output operation w e));
  }

  unlink_remote-Ensures :
      (name app_name : String)
      → Ensures
          (λ _. Unlinked env runtime name app_name)
          (unlink_remote env s app runtime name app_name)
  unfolding unlink_remote
  unlink_remote-Ensures name app_name =
      let P = λ (_ : Unit {0}). Unlinked env runtime name app_name in
      let c = unlink_service runtime.dokku_plugin name app_name in
      Ensures-then P (log app.id Level.info Category.database 30) _ (
        Ensures-bind (WasAnswered env c) P (call env c) _ (Ensures-call env c) (λ output was.
          Ensures-then P (log app.id Level.dokku Category.database 60) _ (
            check-Ensures (Unlinked env runtime name app_name) output
              (runtime.default_prefix <> ":unlink") (λ fine. (output, was, fine)))))

  after_saved :
      (r : Result (Unit {0})) (w : World)
      → Confirmed env app s runtime
      → service_row s.id w ≡ some (detach_with_key s)
      → let (r', w') = continue r (λ _. pure s.id) w in
        UnlinkEnds env app s runtime r' (service_row s.id w')
  after_saved (ok a) w confirmed found = inr (confirmed, found)
  after_saved (err e) w confirmed found = inr (confirmed, found)

  after_save-Unlinks :
      (m : Action (Unit {0})) (w : World)
      → SameService s.id m
      → Confirmed env app s runtime
      → service_row s.id w ≡ some (detach_with_key s)
      → let (r, w') = (m >> pure s.id) w in UnlinkEnds env app s runtime r (service_row s.id w')
  after_save-Unlinks m w same confirmed found =
      after_saved (m w).0 (m w).1 confirmed (same.same w ∙ found)

  detach_linked-Unlinks : Confirmed env app s runtime → Unlinks (detach_linked env s app runtime)
  unfolding detach_linked
  detach_linked-Unlinks confirmed = record {
    at = λ w found.
        let saved = save_service_own s.id detach_with_key s w (λ s'. refl) found in
        rw saved.0 (
          after_save-Unlinks (after_detach env s app runtime)
            (save_service s.id detach_with_key w).1 after_detach-SameService confirmed saved.1);
  }

  detach_local-Unlinks :
      is_remote env app s runtime ≡ false → Unlinks (detach_local env s app runtime)
  unfolding detach_local
  detach_local-Unlinks local = record {
    at = λ w found.
        let saved = save_service_own s.id detach s w (λ s'. refl) found in
        rw saved.0 (inl (local, saved.1));
  }

  unlink_named-Unlinks :
      Unlinks
        (unlink_named env s app runtime (or_else s.container_name "") (or_else app.name_dokku ""))
  unfolding unlink_named
  unlink_named-Unlinks =
      let name = or_else s.container_name "" in
      let app_name = or_else app.name_dokku "" in
      Ends-bind (UnlinkEnds env app s runtime) s.id s raises (λ _. Confirmed env app s runtime)
        (unlink_remote env s app runtime name app_name) _ (SameService-unlink_remote name app_name)
        (unlink_remote-Ensures name app_name)
        (λ _ confirmed.
          Ends-then (UnlinkEnds env app s runtime) s.id s raises (remove_variable env s app runtime)
            _ SameService-remove_variable (detach_linked-Unlinks confirmed))

  unlink_app-Unlinks : (task_id : Option String) → Unlinks (unlink_app env s app runtime task_id)
  unfolding unlink_app
  unlink_app-Unlinks task_id =
      Ends-then (UnlinkEnds env app s runtime) s.id s raises
        (save_fields app.id (Field.task_id task_id ∷ [])) _
        (SameService-save_fields s.id app.id (Field.task_id task_id ∷ []))
        (Ends-if (UnlinkEnds env app s runtime) s.id s _ (detach_local env s app runtime) _
          (λ unnamed. detach_local-Unlinks (ground arith)) (λ named. unlink_named-Unlinks))

-- A service is unlinked from its app only when Dokku has confirmed it: if the use case returns,
-- the row of the service has lost its app, and, where both have a name in Dokku, its key too, and
-- Dokku answered the unlink with no failure; if it raises, the row is as it was, or it was
-- detached after such an answer. Nothing that follows, the promotion of another database of the
-- app included, touches the row again. For a live service of an app, of a type that is known,
-- while no other process writes the apps table.
pub unlink-UnlinkEnds :
    (env : Env) (app : App) (s : Service) (runtime : ServiceRuntime) (task_id : Option String)
    (w : World)
    → IsQuiet env
    → service_row s.id w ≡ some s
    → is_some s.deleted_at ≡ false
    → linked_app s.app_id w ≡ some app
    → get_service_runtime s.service_type ≡ some runtime
    → let (r, w') = execute env s.id task_id w in
      UnlinkEnds env app s runtime r (service_row s.id w')
unfolding execute
unlink-UnlinkEnds env app s runtime task_id w q found live linked known =
    rw (found, live, linked, known) ((unlink_app-Unlinks env q app s runtime task_id).at w found)
