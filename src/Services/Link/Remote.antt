-- ===== src/Services/Link/Remote.antt =====
-- What is said of the link of a service, and what Dokku answers it.
use fabroku_back_end.Base.{
  String, ◌≡◌, refl, ◌⊎◌, inl, inr, true, false, not, some, List, truthy, or_else, str_eq,
  lower_contains, Bool-cases,
}
use fabroku_back_end.Models.App.{App}
use fabroku_back_end.Models.Service.{Service, ServiceRuntime}
use fabroku_back_end.Runtime.World.{Env, IsQuiet, link_service, Level, Category}
use fabroku_back_end.Runtime.Effects.{Result, ok, err, log, call, when}
use fabroku_back_end.Runtime.Frame.{frame_rules, Frame-call}
use fabroku_back_end.Runtime.Ensures.{
  Returned, Ensures, Ensures-then, Ensures-bind, Ensures-call, WasAnswered,
}
use fabroku_back_end.Dokku.{check_dokku_output, check_dokku_output_strict, dokku_output_failed}
use fabroku_back_end.Services.Rows.{SameService, SameService-Frame}
use fabroku_back_end.Services.Rows.Ends.{Ending}
use fabroku_back_end.Services.Promote.{set_env_key}
use fabroku_back_end.Services.EnvKeys.{dokku_alias_for_env_key}
use fabroku_back_end.Services.EnvKeys.Allocated.{is_unused}
use fabroku_back_end.Services.Unlink.Same.{Frame-check}
use fabroku_back_end.Services.Remote.{link_operation}
use fabroku_back_end.Services.Link.{ServiceLinked, attach, service_name, app_name, link_remote}

module _ (env : Env) (s : Service) (app : App) (runtime : ServiceRuntime) where
  -- The key is the one that the service had, or a new one that no other live service of the app has.
  abbrev pub IsKey : List Service → String → Type 0
  IsKey services key =
      ((truthy s.env_key ≡ true) × (key ≡ or_else s.env_key ""))
      ⊎ ((truthy s.env_key ≡ false) × (is_unused app.id (some s.id) key services ≡ true))

  -- Dokku has answered the link with an output that tells no failure, or that it was there.
  abbrev pub IsLinked : String → Type 0
  IsLinked key =
      (output : String) × WasAnswered env
        (link_service runtime.dokku_plugin (service_name env s app runtime)
          (app_name env s app runtime) true (dokku_alias_for_env_key (some key) runtime))
        output
      × ((lower_contains "already linked" output ≡ true)
          ⊎ ((str_eq output "" ≡ false) × (dokku_output_failed output ≡ false)))

  -- What becomes of the row of the service; `services` are the rows before.
  abbrev pub LinkEnds : List Service → Ending ServiceLinked
  LinkEnds services (ok d) o =
      (d ≡ record { service_id = s.id; app_id = app.id; env_key = d.env_key })
      × IsKey services d.env_key
      × IsLinked d.env_key
      × (o ≡ some (attach app.id d.env_key s))
  LinkEnds services (err e) o =
      (o ≡ some s)
      ⊎ ((key : String) × IsKey services key
          × ((o ≡ some (set_env_key (some key) s))
              ⊎ (IsLinked key × (o ≡ some (attach app.id key s)))))

module _ (env : Env) (q : IsQuiet env) (s : Service) (app : App) (runtime : ServiceRuntime) where
  pub SameService-link_remote :
      (key : String) → SameService s.id (link_remote env s app runtime key)
  unfolding link_remote
  SameService-link_remote key =
      SameService-Frame s.id _
        (search (frame_rules, Frame-call env q, Frame-check env q s.id) depth 10)

  linked_by :
      (F : Type 0) (output : String) (r : Result (Unit {0}))
      → ((lower_contains "already linked" output ≡ true)
            ⊎ ((str_eq output "" ≡ false) × (dokku_output_failed output ≡ false))
          → F)
      → (r ≡ ok tt → (str_eq output "" ≡ false) × (dokku_output_failed output ≡ false))
      → Returned (λ _. F) r
  linked_by F output (ok a) k fine = k (inr (fine refl))
  linked_by F output (err e) k fine = tt

  check-Ensures :
      (F : Type 0) (output operation : String)
      → ((lower_contains "already linked" output ≡ true)
            ⊎ ((str_eq output "" ≡ false) × (dokku_output_failed output ≡ false))
          → F)
      → Ensures
          (λ _. F)
          (when
            (not (lower_contains "already linked" output))
            (check_dokku_output output operation false))
  check-Ensures F output operation k = elim (Bool-cases (lower_contains "already linked" output)) [
    | inl e ↦ rw e (record { at = λ w. k (inl e) })
    | inr e ↦ rw e (record {
      at = λ w.
          linked_by F output (check_dokku_output output operation false w).0 k
            (check_dokku_output_strict output operation w);
    })
  ]

  pub link_remote-Ensures :
      (key : String)
      → Ensures (λ _. IsLinked env s app runtime key) (link_remote env s app runtime key)
  unfolding link_remote
  link_remote-Ensures key =
      let P = λ (_ : Unit {0}). IsLinked env s app runtime key in
      let c =
        link_service runtime.dokku_plugin (service_name env s app runtime)
          (app_name env s app runtime) true (dokku_alias_for_env_key (some key) runtime) in
      Ensures-then P (log app.id Level.info Category.database 20) _ (
        Ensures-bind (WasAnswered env c) P (call env c) _ (Ensures-call env c) (λ output was.
          Ensures-then P (log app.id Level.dokku Category.database 50) _ (
            check-Ensures (IsLinked env s app runtime key) output
              (link_operation runtime.dokku_plugin) (λ fine. (output, was, fine)))))
