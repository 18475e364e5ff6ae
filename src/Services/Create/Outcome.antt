-- ===== src/Services/Create/Outcome.antt =====
-- When a service that is created may take a container that is there already.
use fabroku_back_end.Base.{
  String, ◌≡◌, refl, ◌⊎◌, inl, inr, Bool, true, false, not, Option, some, or_else, truthy, str_eq,
  lower_contains,
}
use fabroku_back_end.Models.App.{App}
use fabroku_back_end.Models.Service.{Service, ServiceRuntime}
use fabroku_back_end.Models.Errors.{deployment_failed}
use fabroku_back_end.Runtime.World.{Env, World, restart_app, Level, Category}
use fabroku_back_end.Runtime.Effects.{Action, Result, ok, err, raise, raise_if, log, call, ◌>>◌}
use fabroku_back_end.Runtime.Ensures.{
  Returned, Ensures, Ensures-then, Ensures-if, Ensures-bind, Ensures-call, Ensures-any,
  Ensures-raise, Anything, WasAnswered,
}
use fabroku_back_end.Dokku.{check_dokku_output, check_dokku_output_strict, dokku_output_failed}
use fabroku_back_end.Services.Remote.{creation, create_operation}
use fabroku_back_end.Services.Create.Shared.{ServiceCreated, previously_owned, check_created}
use fabroku_back_end.Services.Create.{
  dokku_service_name, password_of, create_with_password, create_remote_service,
  persist_local_service, link_remote_service, start_remote_service, initialize_remote_service,
  finish_attached, provision, create_attached,
}
use fabroku_back_end.Services.Create.Standalone.{
  CreateServiceStandaloneCommand, create_container, provision_standalone,
}

-- What the output of a creation must be, and who owns the container that was there.
abbrev pub IsConfirmed : Bool → String → Type 0
IsConfirmed owned output =
    ((lower_contains "already exists" output ≡ true) × (owned ≡ true))
    ⊎ ((lower_contains "already exists" output ≡ false)
        × (str_eq output "" ≡ false)
        × (dokku_output_failed output ≡ false))

-- Dokku has created the container, or it was there and the service had it already.
abbrev pub IsOwn : Env → ServiceRuntime → Bool → String → String → Type 0
IsOwn env runtime owned name password =
    (output : String) × WasAnswered env (creation env runtime.dokku_plugin runtime name password)
      output
    × IsConfirmed owned output

module _ (F : Type 0) where
  passed :
      (owned : Bool) (output : String) (r : Result (Unit {0}))
      → (IsConfirmed owned output → F)
      → lower_contains "already exists" output ≡ false
      → (r ≡ ok tt → (str_eq output "" ≡ false) × (dokku_output_failed output ≡ false))
      → Returned (λ _. F) r
  passed owned output (ok a) k new fine =
      let (filled, unfailed) = fine refl in k (inr (new, filled, unfailed))
  passed owned output (err e) k new fine = tt

  owned_already :
      (owned : Bool) (output reason step : String)
      → (IsConfirmed owned output → F)
      → lower_contains "already exists" output ≡ true
      → Ensures (λ _. F) (raise_if (not owned) (deployment_failed reason step))
  owned_already true output reason step k old = record { at = λ w. k (inl (old, refl)) }
  owned_already false output reason step k old = record { at = λ w. tt }

  check_created-Ensures :
      (owned : Bool) (output operation reason step : String)
      → (IsConfirmed owned output → F)
      → Ensures (λ _. F) (check_created owned output operation reason step)
  unfolding check_created
  check_created-Ensures owned output operation reason step k =
      Ensures-if (λ _. F) (lower_contains "already exists" output) _ _
        (owned_already owned output reason step k)
        (λ new. record {
          at = λ w.
              passed owned output (check_dokku_output output operation false w).0 k new
                (check_dokku_output_strict output operation w);
        })

module _ (F : Type 0) {A : Type 0} (fact : F) where
  known_already : (r : Result A) → Returned (λ _. F) r
  known_already (ok a) = fact
  known_already (err e) = tt

  -- What is known stays known.
  Ensures-known : (m : Action A) → Ensures (λ _. F) m
  Ensures-known m = record { at = λ w. known_already (m w).0 }

module _ (env : Env) (app : App) (runtime : ServiceRuntime) (service : Option Service) where
  create_remote-Ensures :
      (name password : String)
      → Ensures
          (λ _. IsOwn env runtime (previously_owned service name) name password)
          (create_remote_service env app runtime service name password)
  unfolding create_remote_service
  create_remote-Ensures name password =
      let F = IsOwn env runtime (previously_owned service name) name password in
      let P = λ (_ : Unit {0}). F in
      let c = creation env runtime.dokku_plugin runtime name password in
      Ensures-then P (log app.id Level.info Category.database 10) _ (
        Ensures-bind (WasAnswered env c) P (call env c) _ (Ensures-call env c) (λ output was.
          Ensures-then P (log app.id Level.dokku Category.database 40) _ (
            Ensures-bind P P _ _
              (check_created-Ensures F (previously_owned service name) output
                (create_operation runtime.dokku_plugin) _ _ (λ fine. (output, was, fine)))
              (λ _ own. Ensures-known F own _))))

  -- The service that is reported, with the container that it got
  abbrev pub IsOwnService : ServiceCreated → Type 0
  IsOwnService d =
      (password : String) × IsOwn env runtime (previously_owned service d.service_name)
        d.service_name password

  finish_attached-Ensures :
      (name password : String)
      → IsOwn env runtime (previously_owned service name) name password
      → Ensures IsOwnService (finish_attached env app runtime service name password)
  unfolding finish_attached
  finish_attached-Ensures name password own =
      Ensures-bind Anything IsOwnService
        (persist_local_service env app runtime service name password) _ (Ensures-any _)
        (λ id _.
          Ensures-then IsOwnService (call env (restart_app (or_else app.name_dokku ""))) _
            (record { at = λ w. (password, own) }))

  provision-Ensures :
      (name password : String)
      → Ensures IsOwnService (provision env app runtime service name password)
  unfolding provision
  provision-Ensures name password =
      Ensures-bind (λ _. IsOwn env runtime (previously_owned service name) name password)
        IsOwnService (create_remote_service env app runtime service name password) _
        (create_remote-Ensures name password)
        (λ _ own. Ensures-then IsOwnService (link_remote_service env app runtime service name) _ (
          Ensures-then IsOwnService (start_remote_service env app runtime service name) _ (
            Ensures-then IsOwnService (initialize_remote_service env app runtime service name) _
              (finish_attached-Ensures name password own))))

  unnamed-Ensures : Ensures IsOwnService (
      log app.id Level.error Category.database 0
      >> raise (deployment_failed "App sem name_dokku configurado" "validate"))
  unnamed-Ensures =
      Ensures-then IsOwnService (log app.id Level.error Category.database 0) _
        (Ensures-raise IsOwnService (deployment_failed "App sem name_dokku configurado" "validate"))

  create_with_password-Ensures :
      (password : String)
      → Ensures IsOwnService (create_with_password env app runtime service password)
  unfolding create_with_password
  create_with_password-Ensures password =
      let name = dokku_service_name env app runtime service in
      Ensures-if IsOwnService (truthy app.name_dokku)
        (provision env app runtime service name password) _
        (λ named. provision-Ensures name password) (λ unnamed. unnamed-Ensures)

  create_attached-Ensures : Ensures IsOwnService (create_attached env app runtime service)
  unfolding create_attached
  create_attached-Ensures =
      Ensures-bind Anything IsOwnService (password_of env app runtime service service)
        (create_with_password env app runtime service) (Ensures-any _)
        (λ password _. create_with_password-Ensures password)

-- No service of an app adopts a container of another: if the creation returns, then Dokku either
-- answered the command that creates the container with an output that tells no failure, or said that
-- a container of this name exists, and the row of the service had the name already. Whatever Dokku
-- answers, and whether there is a row of the service before or not.
pub create_attached-IsOwnService :
    (env : Env) (app : App) (runtime : ServiceRuntime) (service : Option Service) (w : World)
    → Returned (IsOwnService env app runtime service) (create_attached env app runtime service w).0
create_attached-IsOwnService env app runtime service w =
    (create_attached-Ensures env app runtime service).at w

create_container-Ensures :
    (env : Env) (runtime : ServiceRuntime) (cmd : CreateServiceStandaloneCommand)
    (service : Service) (name password : String)
    → Ensures
        (λ _. IsOwn env runtime (previously_owned (some service) name) name password)
        (create_container env runtime cmd service name password)
unfolding create_container
create_container-Ensures env runtime cmd service name password =
    let F = IsOwn env runtime (previously_owned (some service) name) name password in
    let c = creation env runtime.dokku_plugin runtime name password in
    Ensures-bind (WasAnswered env c) (λ _. F) (call env c) _ (Ensures-call env c)
      (λ output was.
        check_created-Ensures F (previously_owned (some service) name) output
          (create_operation runtime.dokku_plugin) _ _ (λ fine. (output, was, fine)))

provision_standalone-Ensures :
    (env : Env) (runtime : ServiceRuntime) (cmd : CreateServiceStandaloneCommand)
    (service : Service) (name password : String)
    → Ensures
        (λ _. IsOwn env runtime (previously_owned (some service) name) name password)
        (provision_standalone env runtime cmd service name password)
unfolding provision_standalone
provision_standalone-Ensures env runtime cmd service name password =
    let F = IsOwn env runtime (previously_owned (some service) name) name password in
    Ensures-bind (λ _. F) (λ _. F) (create_container env runtime cmd service name password) _
      (create_container-Ensures env runtime cmd service name password)
      (λ _ own. Ensures-known F own _)

-- Nor does a standalone service: if the provision of a row returns, then Dokku either answered the
-- command that creates the container with an output that tells no failure, or said that a container
-- of this name exists, and the row had the name already. Whatever Dokku answers.
pub provision_standalone-IsOwn :
    (env : Env) (runtime : ServiceRuntime) (cmd : CreateServiceStandaloneCommand)
    (service : Service) (name password : String) (w : World)
    → Returned
        (λ _. IsOwn env runtime (previously_owned (some service) name) name password)
        (provision_standalone env runtime cmd service name password w).0
provision_standalone-IsOwn env runtime cmd service name password w =
    (provision_standalone-Ensures env runtime cmd service name password).at w
