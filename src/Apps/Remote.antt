-- ===== src/Apps/Remote.antt =====
-- applications/remote_deploy.py: the build of a deploy runs on the server, and goes on when the
-- worker that started it dies. What the server says of it then ends the deploy.
pub mod Outcome
mod Tests
use fabroku_back_end.Base.{
  ℕ, ◌+◌, String, ◌<>◌, Bool, true, false, not, ◌&&◌, ◌||◌, Option, none, some, List, [], ◌∷◌,
  truthy, or_else, str_eq, ltb, ◌==◌, if◌then◌else◌,
}
use fabroku_back_end.Models.App.{App, AppStatus, is_deploying, Field}
use fabroku_back_end.Models.Errors.{raised}
use fabroku_back_end.Runtime.World.{
  Env, World, RemoteDeploy, FinishedAt, at_time, unusable, get_remote_deploy_status, Level,
  Category,
}
use fabroku_back_end.Runtime.Effects.{
  Action, ok, pure, raise, catch, gets, log, request, ◌>>=◌, ◌>>◌,
}
use fabroku_back_end.Ownership.{save_if_owner}

abbrev pub reconcile_throttle_seconds : ℕ
reconcile_throttle_seconds = 30

-- `ORPHAN_AFTER`, in seconds
abbrev pub orphan_after : ℕ
orphan_after = 300

-- `REMOTE_DEPLOY_FINISHED_STATES`
abbrev pub is_finished_state : String → Bool
is_finished_state state =
    str_eq state "succeeded"
    || str_eq state "failed"
    || str_eq state "cancelled"
    || str_eq state "lost"

-- `timezone.now() - finished_at >= ORPHAN_AFTER`, where it does not raise
abbrev pub is_long_ago : ℕ → Option FinishedAt → Bool
is_long_ago now none = false
is_long_ago now (some (at_time finished_at)) = not (ltb now (finished_at + orphan_after))
is_long_ago now (some unusable) = false

abbrev pub is_unusable : Option FinishedAt → Bool
is_unusable (some unusable) = true
is_unusable _ = false

-- The build has ended, and too long ago for its task to be alive.
abbrev pub is_orphaned : ℕ → RemoteDeploy → Bool
is_orphaned now remote =
    is_finished_state remote.state
    && (str_eq remote.state "lost" || is_long_ago now remote.finished_at)

abbrev pub if_orphaned : ℕ → Option RemoteDeploy → Option RemoteDeploy
if_orphaned now none = none
if_orphaned now (some remote) = if is_orphaned now remote then some remote else none

abbrev pub has_succeeded : RemoteDeploy → Bool
has_succeeded remote = str_eq remote.state "succeeded"

abbrev orphan_detail : RemoteDeploy → String
orphan_detail remote =
    if has_succeeded remote
    then "O build terminou no servidor, mas a configuração final não rodou. Faça um redeploy."
    else "O worker parou durante o deploy e o build terminou como \"" <> remote.state
      <> "\" no servidor."

abbrev pub orphan_fields : App → RemoteDeploy → List Field
orphan_fields app remote =
    if has_succeeded remote && truthy app.domain
    then Field.status AppStatus.running ∷ []
    else Field.status AppStatus.error
      ∷ Field.error_type (some "RemoteDeployOrphaned")
      ∷ Field.error_details (some (orphan_detail remote))
      ∷ []

-- `cache.add(key, 1, RECONCILE_THROTTLE_SECONDS)`
abbrev pub is_fresh : ℕ → Option ℕ → Bool
is_fresh now none = false
is_fresh now (some deadline) = ltb now deadline

unfoldable pub add_mark : ℕ → Action Bool
add_mark id w = if is_fresh w.clock (w.reconciled id) then (ok false, w) else (
  ok true,
  record w {
    reconciled =
        λ j. if j == id then some (w.clock + reconcile_throttle_seconds) else w.reconciled j;
  },
)

-- The date of a build that ended and is not lost raises, if it cannot be subtracted.
abbrev pub has_unusable_date : RemoteDeploy → Bool
has_unusable_date remote =
    is_finished_state remote.state
    && not (str_eq remote.state "lost")
    && is_unusable remote.finished_at

-- What follows the question to the plugin; no `try` is around it.
abbrev pub keep_orphaned : Option RemoteDeploy → Action (Option RemoteDeploy)
keep_orphaned none = pure none
keep_orphaned (some remote) =
    if has_unusable_date remote
    then raise (raised "can't subtract offset-naive and offset-aware datetimes")
    else gets (λ w. if_orphaned w.clock (some remote))

module _ (env : Env) (app : App) where
  -- `_orphaned_remote_deploy`
  unfoldable pub orphaned_remote_deploy : String → Action (Option RemoteDeploy)
  orphaned_remote_deploy deploy_id = do
    remote ←
        catch (request env env.remote_reply (get_remote_deploy_status deploy_id)) (λ e. pure none)
    keep_orphaned remote

  -- What follows the state of the build.
  unfoldable pub end_orphan : String → Option RemoteDeploy → Action Bool
  end_orphan task_id none = pure false
  end_orphan task_id (some remote) = do
    saved ← save_if_owner app (some task_id) (orphan_fields app remote)
    if saved.0 then (do log app.id Level.warning Category.deploy 100; pure true) else pure false

  unfoldable pub reconcile_marked : String → Bool → Action Bool
  reconcile_marked task_id false = pure false
  reconcile_marked task_id true = do
    remote ← orphaned_remote_deploy task_id
    end_orphan task_id remote

  unfoldable pub reconcile_orphan_remote_deploy : Action Bool
  reconcile_orphan_remote_deploy =
      if not env.remote_deploy_plugin || not (is_deploying app.status) || not (truthy app.task_id)
      then pure false
      else (do added ← add_mark app.id; reconcile_marked (or_else app.task_id "") added)
