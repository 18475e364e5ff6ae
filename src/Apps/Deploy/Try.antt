-- ===== src/Apps/Deploy/Try.antt =====
-- Where the `try` of a deploy, and its `except`, lead the row of the app.
use fabroku_back_end.Base.{
  ℕ, String, ◌≡◌, refl, sym, true, Option, some, List, [], ◌∷◌, arith, truthy, or_else,
}
use mathlib.Core.Path.{subst}
use fabroku_back_end.Models.App.{App, AppStatus, Field, set_fields}
use fabroku_back_end.Models.Errors.{Error}
use fabroku_back_end.Runtime.World.{
  Env, World, IsQuiet, GitSyncPlan, answered, Call, resolve_git_sync_plan, Level, Category,
}
use fabroku_back_end.Runtime.Effects.{Action, log, request, is_ok}
use fabroku_back_end.Runtime.Frame.{
  Frame, Safe, safe_rules, Safe-log, frame_rules, Frame-call, Frame-request,
}
use fabroku_back_end.Runtime.Triples.{
  Row, Keeps, Leads, Keeps-Frame, Leads-Keeps, Leads-weaken, Leads-raise, Leads-if, Leads-catch,
  Leads-bind, Leads-after, Leads-returns, keeps_rules,
}
use fabroku_back_end.Ownership.{save_if_owner}
use fabroku_back_end.Apps.Deploy.Steps.{prepare_dokku, fetch}
use fabroku_back_end.Apps.Deploy.{
  DeployAppCommand, put_commit_check, report_failure, AppDeployed, reconcile_github_webhook,
  start_fields, warn_no_token, mark_pending, finish, record_running, run_deploy, record_failure,
  deploy_planned, deploy_claimed,
}
use fabroku_back_end.Apps.Deploy.Rows.{
  Fetched, Held, Leads-save_if_owner, Owned, TakesPending, save_owned,
}
use fabroku_back_end.Apps.Deploy.Quiet.{Keeps-finish, Keeps-prepare_dokku}
use fabroku_back_end.Apps.Deploy.Fetch.{Leads-fetch}

module _ (env : Env) (q : IsQuiet env) (cmd : DeployAppCommand) (app : App) (t : String) where
  pub Leads-record_running :
      (F : Type 0) (E : Row)
      → cmd.task_id ≡ some t
      → Leads app.id
          (λ o. Owned t AppStatus.deploying Unit o × F)
          (record_running env cmd app)
          (λ _. Owned t AppStatus.running F)
          E
  unfolding record_running
  Leads-record_running F E mine = record {
    at = λ w ((row, found, owned, _, _), f).
        let fs = Field.status AppStatus.running ∷ [] in
        rw (mine, (save_owned app row t fs w found owned).0)
          (set_fields fs row, (save_owned app row t fs w found owned).1, owned, refl, f);
  }

  pub Frame-report_failure :
      (token : Option String) (e : Error) → Frame (report_failure env cmd app token e)
  unfolding report_failure
  Frame-report_failure token e = search (frame_rules, Frame-call env q) depth 8

  pub Leads-record_failure :
      (token : Option String) (e : Error) (Q : AppDeployed → Row)
      → cmd.task_id ≡ some t
      → Leads app.id (Held t) (record_failure env cmd app token e) Q (Owned t AppStatus.error Unit)
  unfolding record_failure
  Leads-record_failure token e Q mine =
      let E = Owned t AppStatus.error Unit in
      let fs = Field.status AppStatus.error ∷ [] in
      Leads-bind app.id (Held t) Q E (λ _. Held t) (log app.id Level.error Category.deploy 0) _
        (Leads-returns app.id (Held t) E _ (search keeps_rules) (λ w. refl))
        (λ _.
          Leads-bind app.id (Held t) Q E (λ _. E) (save_if_owner app cmd.task_id fs) _
            (Leads-save_if_owner app cmd.task_id t fs AppStatus.error E mine (λ row. refl)
              (λ row. refl))
            (λ _.
              Leads-after app.id E Q E (report_failure env cmd app token e) _ (λ o p. p)
                (Keeps-Frame app.id E _ (Frame-report_failure token e))
                (λ _. Leads-raise app.id E Q E e (λ o p. p))))

  pub Leads-run_deploy :
      (plan : GitSyncPlan)
      → cmd.task_id ≡ some t
      → Leads app.id
          (Owned t AppStatus.deploying Unit)
          (run_deploy env cmd app plan)
          (λ _. Owned t AppStatus.running (Fetched env cmd app plan))
          (Held t)
  unfolding run_deploy
  Leads-run_deploy plan mine =
      let name = or_else app.name_dokku "" in
      let P = Owned t AppStatus.deploying Unit in
      let R = Owned t AppStatus.running (Fetched env cmd app plan) in
      let Q = λ (_ : AppDeployed). R in
      Leads-if app.id P Q (Held t) (truthy app.name_dokku) _ _
        (λ _.
          Leads-after app.id P Q (Held t) (prepare_dokku env app name) _
            (λ o (row, found, owned, _, _). (row, found, owned))
            (Keeps-prepare_dokku env q app P name)
            (λ _.
              Leads-bind app.id P Q (Held t) (λ _ o. P o × Fetched env cmd app plan)
                (fetch env app name plan cmd.task_id) _
                (Leads-weaken app.id P (λ _ o. P o × Fetched env cmd app plan) P (Held t)
                  (fetch env app name plan cmd.task_id)
                  (λ o (row, found, owned, _, _). (row, found, owned))
                  (Leads-fetch env q app P name plan cmd.task_id))
                (λ _.
                  Leads-bind app.id (λ o. P o × Fetched env cmd app plan) Q (Held t) (λ _. R)
                    (record_running env cmd app) _
                    (Leads-record_running (Fetched env cmd app plan) (Held t) mine)
                    (λ _.
                      Leads-weaken app.id R Q R (Held t) (finish env cmd app name plan.token)
                        (λ o (row, found, owned, _, _). (row, found, owned))
                        (Leads-Keeps app.id R (finish env cmd app name plan.token) (
                          Keeps-finish env q app t AppStatus.running (Fetched env cmd app plan) cmd
                            name plan.token))))))
        (λ _.
          Leads-raise app.id P Q (Held t) _ (λ o (row, found, owned, _, _). (row, found, owned)))

  pub is_ok-mark_pending :
      (plan : GitSyncPlan) (w : World)
      → TakesPending env cmd app plan
      → is_ok (mark_pending env cmd app plan.token w).0 ≡ true
  unfolding mark_pending put_commit_check
  is_ok-mark_pending plan w taken = ground (arith, taken w.calls)

  pub Keeps-mark_pending :
      (P : Row) (token : Option String) → Keeps app.id P (mark_pending env cmd app token)
  unfolding mark_pending put_commit_check
  Keeps-mark_pending P token = search (keeps_rules, Frame-call env q) depth 10

  pub Safe-warn_no_token : (token : Option String) → Safe (warn_no_token env cmd app token)
  unfolding warn_no_token
  Safe-warn_no_token token = search safe_rules depth 8

  pub Leads-planned :
      (plan : GitSyncPlan) (P E : Row)
      → ((h : List Call)
          → env.plan_reply h (resolve_git_sync_plan app.id cmd.user_id) ≡ answered plan)
      → Leads app.id P
          (request env env.plan_reply (resolve_git_sync_plan app.id cmd.user_id))
          (λ found o. P o × (found ≡ plan))
          E
  Leads-planned plan P E planned = record {
    at = λ w p.
        let c = resolve_git_sync_plan app.id cmd.user_id in
        rw (planned w.calls) (subst P (sym (q w.calls c w.apps app.id)) p, refl);
  }

  pub Safe-reconcile :
      (progress : ℕ) → Safe (reconcile_github_webhook env app.id cmd.user_id progress)
  unfolding reconcile_github_webhook
  Safe-reconcile progress = search (frame_rules, Frame-request env q env.webhook_reply) depth 12

  -- An action that is safe leads on.
  pub Leads-Safe : {A : Type 0} (P E : Row) (m : Action A) → Safe m → Leads app.id P m (λ _. P) E
  Leads-Safe P E m k = Leads-returns app.id P E m (Keeps-Frame app.id P m k.frame) k.returns

  pub Leads-deploy_planned :
      (plan : GitSyncPlan)
      → cmd.task_id ≡ some t
      → TakesPending env cmd app plan
      → Leads app.id
          (Owned t AppStatus.deploying Unit)
          (deploy_planned env cmd app plan)
          (λ _. Owned t AppStatus.running (Fetched env cmd app plan))
          (Owned t AppStatus.error Unit)
  unfolding deploy_planned
  Leads-deploy_planned plan mine taken =
      let P = Owned t AppStatus.deploying Unit in
      let E = Owned t AppStatus.error Unit in
      let Q = λ (_ : AppDeployed). Owned t AppStatus.running (Fetched env cmd app plan) in
      Leads-bind app.id P Q E (λ _. P) (warn_no_token env cmd app plan.token) _
        (Leads-Safe P E _ (Safe-warn_no_token plan.token))
        (λ _.
          Leads-bind app.id P Q E (λ _. P) (mark_pending env cmd app plan.token) _
            (Leads-returns app.id P E _ (Keeps-mark_pending P plan.token)
              (λ w. is_ok-mark_pending plan w taken))
            (λ _.
              Leads-catch app.id P Q E (Held t) (run_deploy env cmd app plan)
                (record_failure env cmd app plan.token) (Leads-run_deploy plan mine)
                (λ e. Leads-record_failure plan.token e Q mine)))

  pub Leads-deploy_claimed :
      (plan : GitSyncPlan)
      → cmd.task_id ≡ some t
      → ((h : List Call)
          → env.plan_reply h (resolve_git_sync_plan app.id cmd.user_id) ≡ answered plan)
      → TakesPending env cmd app plan
      → Leads app.id
          (Held t)
          (deploy_claimed env cmd app)
          (λ _. Owned t AppStatus.running (Fetched env cmd app plan))
          (Owned t AppStatus.error Unit)
  unfolding deploy_claimed
  Leads-deploy_claimed plan mine planned taken =
      let P = Owned t AppStatus.deploying Unit in
      let E = Owned t AppStatus.error Unit in
      let R = Owned t AppStatus.running (Fetched env cmd app plan) in
      let Q = λ (_ : AppDeployed). R in
      let starts = start_fields cmd.commit_sha in
      Leads-bind app.id (Held t) Q E (λ _. P) (save_if_owner app cmd.task_id starts) _
        (Leads-save_if_owner app cmd.task_id t starts AppStatus.deploying E mine
          (λ row. ground arith) (λ row. ground arith))
        (λ _.
          Leads-bind app.id P Q E (λ _. P) (log app.id Level.info Category.deploy 5) _
            (Leads-Safe P E _ (Safe-log app.id Level.info Category.deploy 5))
            (λ _.
              Leads-bind app.id P Q E (λ _. P) (reconcile_github_webhook env app.id cmd.user_id 6) _
                (Leads-Safe P E _ (Safe-reconcile 6))
                (λ _.
                  Leads-bind app.id P Q E (λ found o. P o × (found ≡ plan))
                    (request env env.plan_reply (resolve_git_sync_plan app.id cmd.user_id))
                    (deploy_planned env cmd app) (Leads-planned plan P E planned)
                    (λ found. record {
                      at = λ w (p, e). rw e ((Leads-deploy_planned plan mine taken).at w p);
                    }))))
