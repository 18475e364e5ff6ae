-- ===== src/Apps/Deploy/Fetch.antt =====
-- The sync of the repository: what the deploy takes from it, and that the row stays as it is.
use fabroku_back_end.Base.{String, ◌≡◌, refl, sym, Option, List}
use mathlib.Core.Path.{subst}
use fabroku_back_end.Models.App.{App}
use fabroku_back_end.Runtime.World.{
  Env, IsQuiet, GitSyncPlan, Reply, answered, failed, Call, sync_git_streaming, Level, Category,
}
use fabroku_back_end.Runtime.Effects.{log, receive, after_call}
use fabroku_back_end.Runtime.Ensures.{WasAnswered}
use fabroku_back_end.Runtime.Triples.{Row, Leads, Leads-if, Leads-bind, Leads-after, keeps_rules}
use fabroku_back_end.Apps.Deploy.Steps.{
  log_lines, sync_git, sync_failed, sync_url, check_sync, fetch,
}
use fabroku_back_end.Apps.Deploy.Rows.{Synced}
use fabroku_back_end.Apps.Deploy.Quiet.{Keeps-log_lines}

module _ (env : Env) (q : IsQuiet env) (app : App) (P : Row) where
  abbrev Answered : Call → String → Row
  Answered c output o = P o × WasAnswered env c output

  pub Leads-receive :
      (c : Call) (h : List Call) (r : Reply String)
      → env.text_reply h c ≡ r
      → Leads app.id P (receive env r) (Answered c) P
  Leads-receive c h (answered output) e = record { at = λ w p. (p, (h, e)) }
  Leads-receive c h (failed text) e = record { at = λ w p. p }

  -- The lines are logged while the command runs, and its answer is what the sync gives.
  pub Leads-sync_git :
      (name url : String) (deploy_id : Option String)
      → let c = sync_git_streaming name url app.branch deploy_id in
        Leads app.id P (sync_git env app name url deploy_id) (Answered c) P
  unfolding sync_git
  Leads-sync_git name url deploy_id = record {
    at = λ w p.
        let c = sync_git_streaming name url app.branch deploy_id in
        (Leads-after app.id P (Answered c) P (log_lines env app (env.lines w.calls c) 0)
            (λ _. receive env (env.text_reply w.calls c)) (λ o p'. p')
            (Keeps-log_lines env q app P (env.lines w.calls c) 0)
            (λ _. Leads-receive c w.calls (env.text_reply w.calls c) refl)).at
          (after_call env c w) (subst P (sym (q w.calls c w.apps app.id)) p);
  }

  pub Leads-check_sync :
      (name : String) (plan : GitSyncPlan) (deploy_id : Option String) (output : String)
      → let c = sync_git_streaming name (sync_url env app plan) app.branch deploy_id in
        Leads app.id
          (Answered c output)
          (check_sync env app output)
          (λ _ o. P o × Synced env app name plan deploy_id)
          P
  unfolding check_sync
  Leads-check_sync name plan deploy_id output =
      Leads-if app.id _ _ P (sync_failed env app output) _ _ (λ bad. record { at = λ w p. p.0 })
        (λ fine. record { at = λ w (p, a). (p, (output, a, fine)) })

  pub Leads-fetch :
      (name : String) (plan : GitSyncPlan) (deploy_id : Option String)
      → Leads app.id P
          (fetch env app name plan deploy_id)
          (λ _ o. P o × Synced env app name plan deploy_id)
          P
  unfolding fetch
  Leads-fetch name plan deploy_id =
      let c = sync_git_streaming name (sync_url env app plan) app.branch deploy_id in
      Leads-if app.id P _ P plan.ok _ _
        (λ good.
          Leads-after app.id P _ P (log app.id Level.info Category.git 10) _ (λ o p. p)
            (search keeps_rules)
            (λ _.
              Leads-bind app.id P _ P (Answered c)
                (sync_git env app name (sync_url env app plan) deploy_id) (check_sync env app)
                (Leads-sync_git name (sync_url env app plan) deploy_id)
                (Leads-check_sync name plan deploy_id)))
        (λ bad. record { at = λ w p. p })
