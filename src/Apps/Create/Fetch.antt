-- ===== src/Apps/Create/Fetch.antt =====
-- The sync of the repository of a new app.
use fabroku_back_end.Base.{
  ℕ, suc, ◌≡◌, refl, sym, String, List, [], ◌∷◌, str_eq, strip_text, if◌then◌else◌,
}
use mathlib.Core.Path.{subst}
use fabroku_back_end.Models.App.{App}
use fabroku_back_end.Runtime.World.{
  Env, User, IsQuiet, Call, answered, sync_git_streaming, Level, Category,
}
use fabroku_back_end.Runtime.Effects.{log, receive, after_call}
use fabroku_back_end.Runtime.Frame.{Frame, Frame-then, frame_rules}
use fabroku_back_end.Runtime.Triples.{
  Row, Keeps-Frame, Leads, Leads-if, Leads-bind, Leads-after, Leads-weaken, keeps_rules,
}
use fabroku_back_end.Apps.Deploy.Fetch.{Leads-receive}
use fabroku_back_end.Apps.Create.{CreateAppCommand}
use fabroku_back_end.Apps.Create.Steps.{
  log_line, log_lines, sync_git, check_sync, sync_failed, configure_git,
}
use fabroku_back_end.Apps.Create.Rows.{container, Named, Titled, titled, IsUrl, IsSynced}

module _ (env : Env) (q : IsQuiet env) (cmd : CreateAppCommand) (app : App) (user : User) where
  abbrev N : Type 0 → Row
  N = Named env cmd app user

  abbrev T : Row
  T = Titled env cmd app user

  abbrev name : String
  name = container env cmd app user

  Frame-log_line : (count : ℕ) (line : String) → Frame (log_line env app user count line)
  unfolding log_line
  Frame-log_line count line = search frame_rules

  Frame-log_lines : (lines : List String) (count : ℕ) → Frame (log_lines env app user lines count)
  unfolding log_lines
  Frame-log_lines [] count = search frame_rules
  Frame-log_lines (line ∷ lines) count =
      Frame-then (log_line env app user count line) _ (Frame-log_line count line)
        (Frame-log_lines lines (if str_eq (strip_text line) "" then count else suc count))

  module _ (url : String) (known : Type 0) (valid : IsUrl env cmd app user url) where
    abbrev P : Row
    P = N known

    abbrev sync : Call
    sync = sync_git_streaming name url app.branch cmd.task_id

    abbrev Answer : String → Row
    Answer output o = P o × ((h : List Call) × (env.text_reply h sync ≡ answered output))

    Leads-sync_git : Leads app.id P (sync_git env app user name url cmd.task_id) Answer T
    unfolding sync_git
    Leads-sync_git = record {
      at = λ w p.
          (Leads-after app.id P Answer T (log_lines env app user (env.lines w.calls sync) 0)
              (λ _. receive env (env.text_reply w.calls sync)) (titled env cmd app user known)
              (Keeps-Frame app.id P _ (Frame-log_lines (env.lines w.calls sync) 0))
              (λ _.
                Leads-weaken app.id P Answer P T _ (titled env cmd app user known)
                  (Leads-receive env q app P sync w.calls (env.text_reply w.calls sync) refl))).at
            (after_call env sync w) (subst P (sym (q w.calls sync w.apps app.id)) p);
    }

    Leads-check_sync :
        (output : String)
        → Leads app.id
            (Answer output)
            (check_sync env app user output)
            (λ _. N (known × IsSynced env cmd app user))
            T
    unfolding check_sync
    Leads-check_sync output =
        Leads-if app.id _ _ T (sync_failed env app user output) _ _
          (λ bad. record { at = λ w (p, a). titled env cmd app user known (w.apps app.id) p })
          (λ fine. record {
            at = λ w ((row, found, (same, k)), a).
                (row, found, (same, (k, (url, valid, output, a, fine))));
          })

    pub Leads-configure_git :
        Leads app.id P
          (configure_git env app user name url cmd.task_id)
          (λ _. N (known × IsSynced env cmd app user))
          T
    unfolding configure_git
    Leads-configure_git =
        let weaker = titled env cmd app user known in
        Leads-after app.id P _ T (log app.id Level.info Category.git 45) _ weaker
          (search keeps_rules)
          (λ _.
            Leads-after app.id P _ T (log app.id Level.info Category.git 50) _ weaker
              (search keeps_rules)
              (λ _.
                Leads-bind app.id P _ T Answer (sync_git env app user name url cmd.task_id)
                  (check_sync env app user) Leads-sync_git Leads-check_sync))
