-- ===== src/Apps/Deploy/Quiet.antt =====
-- The steps of a deploy that leave the owner and the status of the app alone.
use fabroku_back_end.Base.{ℕ, String, ◌≡◌, refl, sym, ◌∙◌, Bool, Option, List, [], ◌∷◌, arith}
use mathlib.Core.Path.{subst}
use fabroku_back_end.Models.App.{App, AppStatus, Field, set_fields}
use fabroku_back_end.Runtime.World.{Env, IsQuiet}
use fabroku_back_end.Runtime.Effects.{save_fields}
use fabroku_back_end.Runtime.Frame.{
  Frame, frame_rules, Frame-call, Frame-ask, Frame-ask_domain, Frame-request,
}
use fabroku_back_end.Runtime.Triples.{Row, Keeps, Keeps-Frame, Keeps-then, keeps_rules}
use fabroku_back_end.Apps.Databases.{start_linked_databases, apps-start_linked_databases}
use fabroku_back_end.Apps.Scale.Quiet.{Keeps-reapply_saved_process_scales}
use fabroku_back_end.Apps.Deploy.Steps.{
  verify_exists, apply_env_vars, prepare_dokku, log_line, log_lines, save_domain, enable,
  refresh_domain, ensure_letsencrypt,
}
use fabroku_back_end.Apps.Deploy.{
  DeployAppCommand, touch, report_success, reconcile_github_webhook, reapply_scales, finish,
}
use fabroku_back_end.Apps.Deploy.Rows.{Owned}

module _ (env : Env) (q : IsQuiet env) (app : App) (P : Row) where
  pub Keeps-start_linked_databases :
      (logged : Bool) → Keeps app.id P (start_linked_databases env app.id logged)
  Keeps-start_linked_databases logged = record {
    at = λ w p. subst P (sym (apps-start_linked_databases env app.id logged q w app.id)) p;
  }

  pub Frame-verify_exists : (name : String) → Frame (verify_exists env app name)
  unfolding verify_exists
  Frame-verify_exists name = search (frame_rules, Frame-ask env q) depth 12

  pub Frame-apply_env_vars : (name : String) → Frame (apply_env_vars env app name)
  unfolding apply_env_vars
  Frame-apply_env_vars name = search (frame_rules, Frame-call env q) depth 12

  pub Keeps-prepare_dokku : (name : String) → Keeps app.id P (prepare_dokku env app name)
  unfolding prepare_dokku
  Keeps-prepare_dokku name =
      search (keeps_rules, Keeps-start_linked_databases, Frame-verify_exists, Frame-apply_env_vars)
        depth 12

  pub Keeps-reapply_scales : (cmd : DeployAppCommand) → Keeps app.id P (reapply_scales env cmd app)
  unfolding reapply_scales
  Keeps-reapply_scales cmd =
      search (keeps_rules, Keeps-reapply_saved_process_scales env q app.id P app) depth 12

  pub Frame-log_line : (n : ℕ) (line : String) → Frame (log_line env app n line)
  unfolding log_line
  Frame-log_line n line = search frame_rules

  pub Keeps-log_lines : (lines : List String) (n : ℕ) → Keeps app.id P (log_lines env app lines n)
  unfolding log_lines
  Keeps-log_lines [] n = search keeps_rules
  Keeps-log_lines (line ∷ lines) n =
      Keeps-then app.id P _ _ (Keeps-Frame app.id P _ (Frame-log_line n line))
        (Keeps-log_lines lines _)

  pub Keeps-reconcile_github_webhook :
      (user : Option ℕ) (progress : ℕ)
      → Keeps app.id P (reconcile_github_webhook env app.id user progress)
  unfolding reconcile_github_webhook
  Keeps-reconcile_github_webhook user progress =
      search (keeps_rules, Frame-request env q env.webhook_reply) depth 14

-- What the operations of a deploy keep of a row that it owns.
module _ (env : Env) (q : IsQuiet env) (app : App) (t : String) (s : AppStatus) (F : Type 0) where
  pub Keeps-save_fields :
      (fs : List Field)
      → ((row : App) → (set_fields fs row).task_id ≡ row.task_id)
      → ((row : App) → (set_fields fs row).status ≡ row.status)
      → Keeps app.id (Owned t s F) (save_fields app.id fs)
  Keeps-save_fields fs owner status = record {
    at = λ w (row, found, owned, is_s, f).
        (set_fields fs row, ground (arith), owner row ∙ owned, status row ∙ is_s, f);
  }

  pub Keeps-save_domain :
      (domain : Option String) → Keeps app.id (Owned t s F) (save_domain env app domain)
  Keeps-save_domain domain = search (keeps_rules, Keeps-save_fields) depth 8

  pub Frame-enable : (name : String) → Frame (enable env app name)
  unfolding enable
  Frame-enable name = search (frame_rules, Frame-call env q) depth 8

  pub Keeps-refresh_domain :
      (name : String) → Keeps app.id (Owned t s F) (refresh_domain env app name)
  unfolding refresh_domain
  Keeps-refresh_domain name =
      search (keeps_rules, Frame-enable, Frame-ask_domain env q, Keeps-save_domain) depth 10

  pub Keeps-ensure_letsencrypt :
      (name : String) → Keeps app.id (Owned t s F) (ensure_letsencrypt env app name)
  unfolding ensure_letsencrypt
  Keeps-ensure_letsencrypt name =
      search (keeps_rules, Frame-ask_domain env q, Keeps-refresh_domain) depth 10

  pub Frame-report_success :
      (cmd : DeployAppCommand) (token : Option String) → Frame (report_success env cmd app token)
  unfolding report_success
  Frame-report_success cmd token = search (frame_rules, Frame-call env q) depth 8

  pub Keeps-touch : (cmd : DeployAppCommand) → Keeps app.id (Owned t s F) (touch env cmd app)
  unfolding touch
  Keeps-touch cmd = Keeps-save_fields [] (λ row. refl) (λ row. refl)

  pub Keeps-finish :
      (cmd : DeployAppCommand) (name : String) (token : Option String)
      → Keeps app.id (Owned t s F) (finish env cmd app name token)
  unfolding finish
  Keeps-finish cmd name token =
      search
        (
          keeps_rules,
          Frame-report_success,
          Keeps-reapply_scales env q app (Owned t s F),
          Keeps-ensure_letsencrypt,
          Keeps-touch,
        )
        depth 12
