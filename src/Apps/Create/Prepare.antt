-- ===== src/Apps/Create/Prepare.antt =====
-- What comes before the build of a new app: the container, the variables and the address.
use fabroku_back_end.Base.{
  ℕ, String, ◌≡◌, refl, inl, inr, Bool, true, false, Option, none, some, [], ◌∷◌, if◌then◌else◌,
}
use fabroku_back_end.Base.Dict.{Dict}
use fabroku_back_end.Models.App.{App}
use fabroku_back_end.Models.Errors.{Error}
use fabroku_back_end.Runtime.World.{
  Env, User, IsQuiet, Repos, denied, repos, exists_app, create_app, list_user_repos, Level,
  Category,
}
use fabroku_back_end.Runtime.Effects.{pure, log, call, ask, request, or_raise, ◌>>◌}
use fabroku_back_end.Runtime.Frame.{
  Frame, Frame-pure, Frame-raise, frame_rules, Frame-call, Frame-ask, Frame-ask_domain,
  Frame-request,
}
use fabroku_back_end.Runtime.Ensures.{
  Ensures, Ensures-pure, Ensures-raise, Ensures-if, Ensures-bind, Ensures-then, Ensures-any,
  Ensures-call, Ensures-ask, Anything, WasAnswered, WasFlagged,
}
use fabroku_back_end.Runtime.Triples.{
  Row, Keeps, Keeps-Frame, Leads, Leads-pure, Leads-bind, Leads-after, keeps_rules,
}
use fabroku_back_end.Apps.Deploy.{reconcile_github_webhook}
use fabroku_back_end.Apps.Create.{
  CreateAppCommand, prepare, prepare_new, report_existing, variables_of,
}
use fabroku_back_end.Apps.Create.Steps.{
  ensure_dokku_app, refuse_foreign, create_container, previously_owned, apply_env_vars,
  handle_deploy_keys, choose_url, get_head_sha, head_of,
}
use fabroku_back_end.Apps.Create.Rows.{
  Leads-Ensures, Leads-learn, Ensures-raise_if, container, Named, Titled, titled, Found, IsUrl,
}

module _ (env : Env) (q : IsQuiet env) (cmd : CreateAppCommand) (app : App) (user : User) where
  abbrev F : Bool → Type 0
  F = Found env cmd app user

  abbrev IsAddress : String → Type 0
  IsAddress = IsUrl env cmd app user

  abbrev N : Type 0 → Row
  N = Named env cmd app user

  abbrev T : Row
  T = Titled env cmd app user

  abbrev name : String
  name = container env cmd app user

  Frame-ensure_dokku_app : Frame (ensure_dokku_app env app user name)
  unfolding ensure_dokku_app
  Frame-ensure_dokku_app = search (frame_rules, Frame-call env q, Frame-ask env q) depth 12

  decided :
      (found : Bool)
      → WasFlagged env (exists_app name) found
      → Ensures F (
          (if found then refuse_foreign env app user name else create_container env app user name)
          >> pure found)
  decided true was =
      Ensures-bind (λ _. previously_owned env app user ≡ true) F (refuse_foreign env app user name)
        _ (Ensures-raise_if (previously_owned env app user) _)
        (λ _ owned. Ensures-pure F true (was, owned))
  decided false was =
      let c = create_app name in
      let A = (output : String) × WasAnswered env c output in
      Ensures-bind (λ _. A) F (create_container env app user name) _
        (Ensures-then (λ _. A) (log app.id Level.info Category.create 10) _
          (Ensures-bind (WasAnswered env c) (λ _. A) (call env c) _ (Ensures-call env c)
            (λ output a. record { at = λ w. (output, a) })))
        (λ _ a. Ensures-pure F false (was, a))

  ensure_dokku_app-Found : Ensures F (ensure_dokku_app env app user name)
  unfolding ensure_dokku_app
  ensure_dokku_app-Found = Ensures-then F (log app.id Level.info Category.create 5) _ (
      Ensures-bind (WasFlagged env (exists_app name)) F (ask env (exists_app name)) _
        (Ensures-ask env (exists_app name)) decided)

  Keeps-apply_env_vars :
      (P : Row) (env_vars : Dict String)
      → Keeps app.id P (apply_env_vars env app user name env_vars)
  unfolding apply_env_vars
  Keeps-apply_env_vars P [] = search keeps_rules depth 12
  Keeps-apply_env_vars P (v ∷ env_vars) = search (keeps_rules, Frame-call env q) depth 12

  Keeps-reconcile :
      (P : Row) (progress : ℕ)
      → Keeps app.id P (reconcile_github_webhook env app.id (some user.id) progress)
  unfolding reconcile_github_webhook
  Keeps-reconcile P progress = search (keeps_rules, Frame-request env q env.webhook_reply) depth 12

  Frame-choose_url : (repo : String) (found : Repos) → Frame (choose_url env app user repo found)
  Frame-choose_url repo (denied help_url) = search frame_rules depth 10
  Frame-choose_url repo (repos found) = search frame_rules depth 10

  Ensures-choose_url :
      (repo : String) (found : Repos) → Ensures IsAddress (choose_url env app user repo found)
  Ensures-choose_url repo (denied help_url) =
      Ensures-then IsAddress (log app.id Level.error Category.git 28) _ (Ensures-raise IsAddress _)
  Ensures-choose_url repo (repos found) =
      Ensures-if IsAddress _ _ _
        (λ private. Ensures-then IsAddress (log app.id Level.info Category.git 32) _ (
          Ensures-then IsAddress (log app.id Level.success Category.git 40) _
            (Ensures-pure IsAddress _ (inr refl))))
        (λ public.
          Ensures-then IsAddress (log app.id Level.info Category.git 40) _
            (Ensures-pure IsAddress _ (inl refl)))

  Frame-or_raise : {A : Type 0} (e : Error) (o : Option A) → Frame (or_raise e o)
  Frame-or_raise e none = Frame-raise e
  Frame-or_raise e (some a) = Frame-pure a

  Frame-handle_deploy_keys : Frame (handle_deploy_keys env app user)
  unfolding handle_deploy_keys
  Frame-handle_deploy_keys =
      search (frame_rules, Frame-or_raise, Frame-choose_url, Frame-request env q env.repos_reply)
        depth 12

  Ensures-handle_deploy_keys : Ensures IsAddress (handle_deploy_keys env app user)
  unfolding handle_deploy_keys
  Ensures-handle_deploy_keys = Ensures-then IsAddress (log app.id Level.info Category.git 28) _ (
      Ensures-bind Anything IsAddress (or_raise _ (env.repo_name app.git)) _ (Ensures-any _)
        (λ repo _.
          Ensures-bind Anything IsAddress (request env env.repos_reply (list_user_repos user.id)) _
            (Ensures-any _) (λ found _. Ensures-choose_url repo found)))

  Frame-head_of : (repo : Option String) → Frame (head_of env app user repo)
  Frame-head_of none = Frame-pure none
  Frame-head_of (some repo) = Frame-ask_domain env q _

  Frame-get_head_sha : Frame (get_head_sha env app user)
  unfolding get_head_sha
  Frame-get_head_sha = Frame-head_of (env.repo_name app.git)

  -- What is known when the `try` goes on
  abbrev pub Prepared : Option (String × Option String) → Row
  Prepared none = Named env cmd app user (Found env cmd app user true)
  Prepared (some (url, head_sha)) =
      Named env cmd app user (Found env cmd app user false × IsUrl env cmd app user url)

  Leads-prepare_new : Leads app.id (N (F false)) (prepare_new env cmd app user) Prepared T
  unfolding prepare_new
  Leads-prepare_new =
      let P = N (F false) in
      let I : String → Row = λ url. N (F false × IsAddress url) in
      Leads-after app.id P Prepared T (apply_env_vars env app user name (variables_of cmd.env_vars))
        _ (titled env cmd app user (F false)) (Keeps-apply_env_vars P (variables_of cmd.env_vars))
        (λ _.
          Leads-after app.id P Prepared T (reconcile_github_webhook env app.id (some user.id) 26) _
            (titled env cmd app user (F false)) (Keeps-reconcile P 26)
            (λ _.
              Leads-bind app.id P Prepared T I (handle_deploy_keys env app user) _
                (Leads-learn env cmd app user (F false) IsAddress (handle_deploy_keys env app user)
                  (Keeps-Frame app.id P _ Frame-handle_deploy_keys) Ensures-handle_deploy_keys)
                (λ url.
                  Leads-after app.id (I url) Prepared T (get_head_sha env app user) _
                    (titled env cmd app user (F false × IsAddress url))
                    (Keeps-Frame app.id (I url) _ Frame-get_head_sha)
                    (λ head_sha. Leads-pure app.id (I url) Prepared T _ (λ o p. p)))))

  Leads-report_existing : Leads app.id (N (F true)) (report_existing env cmd app user) Prepared T
  Leads-report_existing =
      let P = N (F true) in
      let weaker = titled env cmd app user (F true) in
      Leads-after app.id P Prepared T (reconcile_github_webhook env app.id (some user.id) 99) _
        weaker (Keeps-reconcile P 99)
        (λ _.
          Leads-after app.id P Prepared T (log app.id Level.warning Category.create 100) _ weaker
            (search keeps_rules) (λ _. Leads-pure app.id P Prepared T none (λ o p. p)))

  -- What follows the question whether there is a container
  found_out :
      (found : Bool)
      → Leads app.id
          (N (F found))
          (if found then report_existing env cmd app user else prepare_new env cmd app user)
          Prepared
          T
  found_out false = Leads-prepare_new
  found_out true = Leads-report_existing

  pub Leads-prepare :
      Leads app.id
        (Named env cmd app user Unit)
        (prepare env cmd app user)
        Prepared
        (Titled env cmd app user)
  unfolding prepare
  Leads-prepare =
      Leads-bind app.id (N Unit) Prepared T (λ found. N (F found))
        (ensure_dokku_app env app user name) _
        (Leads-Ensures app.id (N Unit) (λ found. N (F found)) T F
          (λ found o (row, there, (same, u)) f. (row, there, (same, f)))
          (titled env cmd app user Unit) (ensure_dokku_app env app user name)
          (Keeps-Frame app.id (N Unit) _ Frame-ensure_dokku_app) ensure_dokku_app-Found)
        found_out
