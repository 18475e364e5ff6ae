-- ===== src/Apps/Create/Build.antt =====
-- The build of a new app, what is saved at its end, and what an error leaves.
use fabroku_back_end.Base.{
  ◌≡◌, refl, ap, inl, String, Bool, true, false, Option, some, [], ◌∷◌, truthy, truncate,
}
use fabroku_back_end.Models.App.{App, AppStatus, Field}
use fabroku_back_end.Models.Errors.{Error, message}
use fabroku_back_end.Runtime.World.{Env, User, IsQuiet, Level, Category}
use fabroku_back_end.Runtime.Effects.{log, save_fields, when}
use fabroku_back_end.Runtime.Frame.{Frame, frame_rules, Frame-call, Frame-ask_domain}
use fabroku_back_end.Runtime.Triples.{
  Row, Keeps, Keeps-Frame, Leads, Leads-pure, Leads-raise, Leads-bind, Leads-after, Leads-returns,
  keeps_rules,
}
use fabroku_back_end.Apps.Scale.Quiet.{Keeps-reapply_saved_process_scales}
use fabroku_back_end.Apps.Create.Fetch.{Leads-configure_git}
use fabroku_back_end.Apps.Create.{
  CreateAppCommand, running, record_failure, save_running, report, error_type_of, report_success,
  mark_pending, build,
}
use fabroku_back_end.Apps.Create.Steps.{configure_git, reapply_scales, set_letsencrypt, get_domain}
use fabroku_back_end.Apps.Create.Rows.{
  There, Leads-save_fields, Leads-save_row, container, Named, Titled, Failed, titled, Found, IsUrl,
  IsSynced, Created,
}

module _ (env : Env) (q : IsQuiet env) (cmd : CreateAppCommand) (app : App) (user : User) where
  abbrev N : Type 0 → Row
  N = Named env cmd app user

  abbrev T : Row
  T = Titled env cmd app user

  abbrev name : String
  name = container env cmd app user

  abbrev Known : Type 0
  Known = Found env cmd app user false × IsSynced env cmd app user

  Frame-report :
      (head_sha : Option String) (text : String) → Frame (report env cmd app user head_sha text)
  Frame-report head_sha text = search (frame_rules, Frame-call env q) depth 8

  -- The `except` writes the error into the row.
  pub Leads-record_failure :
      {A : Type 0} (head_sha : Option String) (e : Error) (Q : A → Row)
      → Leads app.id
          (Titled env cmd app user)
          (record_failure env cmd app user head_sha e)
          Q
          (Failed env cmd app user)
  unfolding record_failure
  Leads-record_failure head_sha e Q =
      let E = Failed env cmd app user in
      let fs =
        Field.status AppStatus.error
        ∷ Field.error_type (some (error_type_of e))
        ∷ Field.error_details (some (message e))
        ∷ [] in
      Leads-bind app.id T Q E (λ _. T) (log app.id Level.error Category.create 0) _
        (Leads-returns app.id T E _ (search keeps_rules) (λ w. refl))
        (λ _.
          Leads-bind app.id T Q E (λ _. E) (save_fields app.id fs) _
            (Leads-save_fields app.id _ _ E fs
              (λ row (named, mine). (named, mine, refl, (e, refl))))
            (λ _.
              Leads-after app.id E Q E (report env cmd app user head_sha (truncate 100 (message e)))
                _ (λ o p. p) (Keeps-Frame app.id E _ (Frame-report head_sha _))
                (λ _. Leads-raise app.id E Q E e (λ o p. p))))

  Keeps-reapply_scales : (R : Row) → Keeps app.id R (reapply_scales env app user)
  unfolding reapply_scales
  Keeps-reapply_scales R =
      search (keeps_rules, Keeps-reapply_saved_process_scales env q app.id R app) depth 10

  Frame-set_letsencrypt : Frame (set_letsencrypt env app user name)
  unfolding set_letsencrypt
  Frame-set_letsencrypt = search (frame_rules, Frame-call env q) depth 10

  Frame-get_domain : Frame (get_domain env app user name)
  unfolding get_domain
  Frame-get_domain = search (frame_rules, Frame-ask_domain env q) depth 10

  Frame-mark_pending : (head_sha : Option String) → Frame (mark_pending env cmd app user head_sha)
  unfolding mark_pending
  Frame-mark_pending head_sha = search (frame_rules, Frame-call env q) depth 10

  -- The row as it is saved at the end
  abbrev Saved : Row
  Saved o = (domain : Option String) × (o ≡ some (running env cmd app user domain)) × Known

  saved_titled : (o : Option App) → Saved o → T o
  saved_titled o (domain, found, known) = (running env cmd app user domain, found, (refl, refl))

  -- The row while the domain is saved
  abbrev Settled : Row
  Settled = There (λ row. ((row.name_dokku ≡ some name) × (row.task_id ≡ cmd.task_id)) × Known)

  Leads-save_domain :
      (b : Bool) (domain : Option String)
      → Leads app.id
          (N Known)
          (when b (save_fields app.id (Field.domain domain ∷ [])))
          (λ _. Settled)
          T
  Leads-save_domain true domain =
      Leads-save_fields app.id _ _ T (Field.domain domain ∷ [])
        (λ row (same, known). ((ap (λ r. r.name_dokku) same, ap (λ r. r.task_id) same), known))
  Leads-save_domain false domain =
      Leads-pure app.id (N Known) (λ _. Settled) T tt
        (λ o (row, found, (same, known)).
          (row, found, ((ap (λ r. r.name_dokku) same, ap (λ r. r.task_id) same), known)))

  Leads-save_running : Leads app.id (N Known) (save_running env cmd app user) (λ _. Saved) T
  unfolding save_running
  Leads-save_running =
      Leads-after app.id (N Known) (λ _. Saved) T (get_domain env app user name) _
        (titled env cmd app user Known) (Keeps-Frame app.id (N Known) _ Frame-get_domain)
        (λ domain.
          Leads-bind app.id (N Known) (λ _. Saved) T (λ _. Settled)
            (when (truthy domain) (save_fields app.id (Field.domain domain ∷ []))) _
            (Leads-save_domain (truthy domain) domain)
            (λ _. record {
              at = λ w p.
                  let last =
                    (Leads-save_row Settled T Known (running env cmd app user domain)
                        (λ o (row, found, (t, known)). known)).at
                      w p in
                  (domain, last.0, last.1);
            }))

  Leads-report_success :
      (head_sha : Option String)
      → Leads app.id Saved (report_success env cmd app user head_sha) (Created env cmd app user) T
  unfolding report_success
  Leads-report_success head_sha =
      let Q = Created env cmd app user in
      Leads-after app.id Saved Q T (when (truthy head_sha) _) _ saved_titled
        (search (keeps_rules, Frame-call env q) depth 8)
        (λ _.
          Leads-after app.id Saved Q T (log app.id Level.success Category.create 100) _ saved_titled
            (search keeps_rules)
            (λ _.
              Leads-pure app.id Saved Q T _
                (λ o (domain, found, (new, synced)). inl (refl, new, synced, (domain, found)))))

  -- The steps of the build, one after another
  Leads-steps :
      (url : String) (head_sha : Option String)
      → IsUrl env cmd app user url
      → Leads app.id
          (N (Found env cmd app user false))
          (build env cmd app user url head_sha)
          (Created env cmd app user)
          T
  unfolding build
  Leads-steps url head_sha valid =
      let new = Found env cmd app user false in
      let Q = Created env cmd app user in
      let weaker = titled env cmd app user Known in
      Leads-after app.id (N new) Q T (mark_pending env cmd app user head_sha) _
        (titled env cmd app user new) (Keeps-Frame app.id (N new) _ (Frame-mark_pending head_sha))
        (λ _.
          Leads-bind app.id (N new) Q T (λ _. N Known)
            (configure_git env app user name url cmd.task_id) _
            (Leads-configure_git env q cmd app user url new valid)
            (λ _.
              Leads-after app.id (N Known) Q T (reapply_scales env app user) _ weaker
                (Keeps-reapply_scales (N Known))
                (λ _.
                  Leads-after app.id (N Known) Q T (set_letsencrypt env app user name) _ weaker
                    (Keeps-Frame app.id (N Known) _ Frame-set_letsencrypt)
                    (λ _.
                      Leads-bind app.id (N Known) Q T (λ _. Saved) (save_running env cmd app user) _
                        Leads-save_running (λ _. Leads-report_success head_sha)))))

  pub Leads-build :
      (url : String) (head_sha : Option String)
      → Leads app.id
          (Named env cmd app user (Found env cmd app user false × IsUrl env cmd app user url))
          (build env cmd app user url head_sha)
          (Created env cmd app user)
          (Titled env cmd app user)
  Leads-build url head_sha = record {
    at = λ w (row, found, (same, (new, valid))).
        (Leads-steps url head_sha valid).at w (row, found, (same, new));
  }
