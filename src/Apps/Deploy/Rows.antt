-- ===== src/Apps/Deploy/Rows.antt =====
-- What is said of the row of an app while it is deployed, and the saves of its owner.
use fabroku_back_end.Base.{
  ℕ, String, ◌≡◌, ◌∙◌, true, false, Option, some, List, arith, or_else, holds_text_self,
}
use fabroku_back_end.Models.App.{App, AppStatus, Field, set_fields}
use fabroku_back_end.Runtime.World.{
  Env, World, GitSyncPlan, is_answered, Call, sync_git_streaming, set_deploy_pending,
}
use fabroku_back_end.Runtime.Effects.{change, ok}
use fabroku_back_end.Runtime.Ensures.{WasAnswered}
use fabroku_back_end.Runtime.Triples.{Row, Leads}
use fabroku_back_end.Ownership.{owned_by, save_if_owner}
use fabroku_back_end.Apps.Deploy.Steps.{sync_failed, sync_url}
use fabroku_back_end.Apps.Deploy.{DeployAppCommand}

-- The row says that `t` owns the app and that its status is `s`; `F` is what has been found out.
abbrev pub Owned : String → AppStatus → Type 0 → Row
Owned t s F o = (row : App) × (o ≡ some row) × (row.task_id ≡ some t) × (row.status ≡ s) × F

abbrev pub Held : String → Row
Held t o = (row : App) × (o ≡ some row) × (row.task_id ≡ some t)

-- A sync that the deploy accepts was answered, with no failure in its output.
abbrev pub Synced : Env → App → String → GitSyncPlan → Option String → Type 0
Synced env app name plan deploy_id =
    (output : String) × WasAnswered env
      (sync_git_streaming name (sync_url env app plan) app.branch deploy_id) output
    × (sync_failed env app output ≡ false)

module _ (env : Env) (cmd : DeployAppCommand) (app : App) (plan : GitSyncPlan) where
  -- What has been found out when the deploy has taken the output of the sync.
  abbrev pub Fetched : Type 0
  Fetched = Synced env app (or_else app.name_dokku "") plan cmd.task_id

  -- GitHub takes the pending check of the commit.
  abbrev pub TakesPending : Type 0
  TakesPending =
      (h : List Call)
      → is_answered (
          env.text_reply h (
            set_deploy_pending (or_else plan.token "") app.git (or_else cmd.commit_sha "")
              app.name))
        ≡ true

abbrev pub command : App → String → Option String → Option ℕ → DeployAppCommand
command app t commit user_id = record {
  app_id = app.id;
  task_id = some t;
  commit_sha = commit;
  user_id = user_id;
}

-- A save by the owner goes through.
module _ (app row : App) (t : String) (fs : List Field) (w : World) where
  pub save_owned :
      w.apps app.id ≡ some row
      → row.task_id ≡ some t
      → let changed = change app.id (owned_by t) fs w.apps in
        (save_if_owner app (some t) fs w
          ≡ (ok (true, set_fields fs app), record w { apps = changed }))
        × (changed app.id ≡ some (set_fields fs row))
  unfolding save_if_owner
  save_owned found owned = (ground (arith, holds_text_self t), ground (arith, holds_text_self t))

pub Leads-save_if_owner :
    (app : App) (task_id : Option String) (t : String) (fs : List Field) (s : AppStatus) (E : Row)
    → task_id ≡ some t
    → ((row : App) → (set_fields fs row).task_id ≡ row.task_id)
    → ((row : App) → (set_fields fs row).status ≡ s)
    → Leads app.id (Held t) (save_if_owner app task_id fs) (λ _. Owned t s Unit) E
Leads-save_if_owner app task_id t fs s E mine owner status = record {
  at = λ w (row, found, owned).
      rw (mine, (save_owned app row t fs w found owned).0)
        (
          set_fields fs row,
          (save_owned app row t fs w found owned).1,
          owner row ∙ owned,
          status row,
          tt,
        );
}
