-- ===== src/Ownership/Pending.antt =====
-- applications/pending_redeploy.py: a push that came while the app was busy is kept, the last one
-- wins, and the deploy runs when the operation that owns the app ends.
use fabroku_back_end.Base.{ℕ, ◌+◌, String, Option, none, some, ◌==◌, ltb, if◌then◌else◌}
use fabroku_back_end.Models.App.{App, is_deleting, AppStatus}
use fabroku_back_end.Runtime.World.{Env, Cached, Level, Category, deploy_app}
use fabroku_back_end.Runtime.Effects.{Action, pure, write, gets, log, only_active, ◌>>=◌, ◌>>◌}
use fabroku_back_end.Ownership.{dispatch_app_task}

-- `PENDING_REDEPLOY_TTL_SECONDS`
abbrev pub pending_redeploy_ttl_seconds : ℕ
pending_redeploy_ttl_seconds = 86400

unfoldable pub queue_pending_redeploy : ℕ → Option String → Action (Unit {0})
queue_pending_redeploy app_id commit = write λ w. record w {
  pending_redeploys = λ j.
      if j == app_id
      then some (record { value = commit; deadline = w.clock + pending_redeploy_ttl_seconds })
      else w.pending_redeploys j;
}

unfoldable pub clear_pending_redeploy : ℕ → Action (Unit {0})
clear_pending_redeploy app_id =
    write
      λ w. record w { pending_redeploys = λ j. if j == app_id then none else w.pending_redeploys j }

-- What `cache.get` sees of an entry.
abbrev pub fresh {ℓ} : {A : Type ℓ} → ℕ → Option (Cached A) → Option A
fresh now none = none
fresh now (some entry) = if ltb now entry.deadline then some entry.value else none

-- The pending redeploy of an app that is still there, once its push has been read.
unfoldable pub redeploy_app : Env → Option String → Option String → ℕ → App → Action (Option String)
redeploy_app env finished_task_id commit app_id app = do
  dispatched ←
      dispatch_app_task env app AppStatus.deploying (some finished_task_id)
        (deploy_app app_id commit none)
  elim dispatched.0 [
    | none ↦ pure none
    | some task_id ↦ do
      clear_pending_redeploy app_id
      log app_id Level.info Category.deploy 1
      pure (some task_id)
  ]

abbrev pub redeploy_if_there :
    Env → Option String → Option String → ℕ → Option App → Action (Option String)
redeploy_if_there env finished_task_id commit app_id none = do
  clear_pending_redeploy app_id
  pure none
redeploy_if_there env finished_task_id commit app_id (some app) =
    if is_deleting app.status
    then (do clear_pending_redeploy app_id; pure none)
    else redeploy_app env finished_task_id commit app_id app

abbrev pub redeploy_if_pending :
    Env → Option String → ℕ → Option (Option String) → Action (Option String)
redeploy_if_pending env finished_task_id app_id none = pure none
redeploy_if_pending env finished_task_id app_id (some commit) = do
  app ← gets (λ w. only_active (w.apps app_id))
  redeploy_if_there env finished_task_id commit app_id app

unfoldable pub run_pending_redeploy : Env → ℕ → Option String → Action (Option String)
run_pending_redeploy env app_id finished_task_id = do
  pending ← gets (λ w. fresh w.clock (w.pending_redeploys app_id))
  redeploy_if_pending env finished_task_id app_id pending
