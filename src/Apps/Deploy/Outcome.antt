-- ===== src/Apps/Deploy/Outcome.antt =====
-- How a deploy ends: what the row of the app says afterwards.
use fabroku_back_end.Base.{ℕ, String, ◌≡◌, refl, true, Option, some, List, arith}
use fabroku_back_end.Models.App.{App, AppStatus}
use fabroku_back_end.Runtime.World.{
  Env, World, IsQuiet, GitSyncPlan, answered, Call, resolve_git_sync_plan,
}
use fabroku_back_end.Runtime.Effects.{Result, is_active}
use fabroku_back_end.Runtime.Triples.{Row, Outcome}
use fabroku_back_end.Ownership.{claim_app, claimable}
use fabroku_back_end.Ownership.Claim.{claim_world}
use fabroku_back_end.Apps.Deploy.{DeployAppCommand, AppDeployed, deploy_claimed, execute}
use fabroku_back_end.Apps.Deploy.Rows.{Fetched, Owned, TakesPending, command}
use fabroku_back_end.Apps.Deploy.Try.{Leads-deploy_claimed}

execute-claimed :
    (env : Env) (t : String) (commit : Option String) (user_id : Option ℕ) (row : App) (w : World)
    → w.apps row.id ≡ some row
    → is_active row ≡ true
    → claimable t row ≡ true
    → execute env (command row t commit user_id) w
      ≡ deploy_claimed env
          (command row t commit user_id)
          (record row { task_id = some t })
          (claim_world t row w)
unfolding execute claim_app
execute-claimed env t commit user_id row w found active free = ground arith

-- How a deploy of an app ends in its row.
abbrev pub Ends : Env → DeployAppCommand → App → String → GitSyncPlan → Result AppDeployed → Row
Ends env cmd app t plan =
    Outcome (λ _. Owned t AppStatus.running (Fetched env cmd app plan))
      (Owned t AppStatus.error Unit)

-- A deploy never leaves an app DEPLOYING, and never says RUNNING of an app whose repository was
-- not synced: if it returns, the row says RUNNING, still belongs to the task, and Dokku answered
-- the sync of the planned address with an output that shows no failure; if it raises, the row says
-- ERROR and still belongs to the task. For an app that the task may claim, when the plan of the
-- sync is made and GitHub takes the pending check of the commit, while no other process writes the
-- apps table.
pub deploy-Ends :
    (env : Env) (t : String) (commit : Option String) (user_id : Option ℕ) (plan : GitSyncPlan)
    (row : App) (w : World)
    → IsQuiet env
    → w.apps row.id ≡ some row
    → is_active row ≡ true
    → claimable t row ≡ true
    → ((h : List Call) → env.plan_reply h (resolve_git_sync_plan row.id user_id) ≡ answered plan)
    → TakesPending env (command row t commit user_id) row plan
    → let (r, w') = execute env (command row t commit user_id) w in
      Ends env (command row t commit user_id) row t plan r (w'.apps row.id)
deploy-Ends env t commit user_id plan row w q found active free planned taken =
    let cmd = command row t commit user_id in
    let claimed = record row { task_id = some t } in
    rw (execute-claimed env t commit user_id row w found active free) (
      (Leads-deploy_claimed env q cmd claimed t plan refl planned taken).at (claim_world t row w)
        (claimed, ground arith, refl))
