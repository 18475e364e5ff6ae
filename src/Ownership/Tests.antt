-- ===== src/Ownership/Tests.antt =====
-- Runs of applications/ownership.py, and the theorems at concrete data.
use fabroku_back_end.Base.{◌++◌, ◌≡◌, ◌≢◌, String, refl, Option, none, some, [], ◌∷◌, arith, eq_iff}
use fabroku_back_end.Models.App.{App, AppStatus, Field, set_fields}
use fabroku_back_end.Models.Errors.{decimal}
use fabroku_back_end.Runtime.World.{deploy_app, World}
use fabroku_back_end.Runtime.Effects.{Result, ok}
use fabroku_back_end.Ownership.{dispatch_app_task, save_if_owner, taken_by}
use fabroku_back_end.Ownership.Exclusion.{Holds, Step, Reach, Reach-Holds, delete_wins}
use fabroku_back_end.Ownership.Pending.{queue_pending_redeploy, run_pending_redeploy}
use fabroku_back_end.Ownership.Redeploy.{redeploy_runs}
use fabroku_back_end.Samples.{
  blog, world_of, answering, answering-IsQuiet, answering-HasNonEmptyIds,
}
use fabroku_back_end.Runtime.World.{deploy_app, Task}

abbrev delete_blog : Task
delete_blog = Task.delete_app 7 none

abbrev deleting : World
deleting =
    (dispatch_app_task (answering "") blog AppStatus.deleting none delete_blog (world_of blog)).1

-- A late deploy says RUNNING.
abbrev late : World
late = (save_if_owner blog (some "old") (Field.status AppStatus.running ∷ []) deleting).1

old_not_new : ◌≢◌ {A = String} "old" ((answering "").uuid 4)
unfolding decimal
old_not_new = ground (arith, eq_iff "old" "t4")

delete_wins_example : Holds 7 ((answering "").uuid 4) AppStatus.deleting late
delete_wins_example =
    delete_wins (answering "") blog delete_blog "" (world_of blog) (answering-IsQuiet "")
      (answering-HasNonEmptyIds "") refl refl
      (Reach.next Reach.here
        (Step.save blog "old" (Field.status AppStatus.running ∷ []) old_not_new refl))

abbrev owned : App
owned = record blog { task_id = some "t0"; status = AppStatus.deploying }

t0_kept : World
t0_kept =
    (save_if_owner owned (some "old") (Field.status AppStatus.running ∷ []) (world_of owned)).1

old_not_t0 : ◌≢◌ {A = String} "old" "t0"
old_not_t0 = ground (arith, eq_iff "old" "t0")

t0_not_empty : ◌≢◌ {A = String} "t0" ""
t0_not_empty = ground (arith, eq_iff "t0" "")

Reach-Holds_example : Holds 7 "t0" AppStatus.deploying t0_kept
unfolding t0_kept
Reach-Holds_example =
    Reach-Holds "t0" 7 AppStatus.deploying (answering "") (answering-IsQuiet "") t0_not_empty
      (record { row = owned; found = refl; owner = refl; status = refl })
      (Reach.next Reach.here
        (Step.save owned "old" (Field.status AppStatus.running ∷ []) old_not_t0 refl))

-- The deploy "t0" owns the app, and a push of commit "c2" waits.
abbrev pushed : World
pushed = (queue_pending_redeploy 7 (some "c2") (world_of owned)).1

abbrev redeployed : Result (Option String) × World
redeployed = run_pending_redeploy (answering "") 7 (some "t0") pushed

redeploy_runs_example :
    (redeployed.0 ≡ ok (some ((answering "").uuid 4)))
    × (redeployed.1.apps 7
        ≡ some (set_fields (taken_by AppStatus.deploying ((answering "").uuid 4)) owned))
    × (redeployed.1.queue ≡ [] ++ (((answering "").uuid 4, deploy_app 7 (some "c2") none) ∷ []))
    × (redeployed.1.pending_redeploys 7 ≡ none)
unfolding queue_pending_redeploy
redeploy_runs_example =
    redeploy_runs (answering "") owned (some "c2") "t0" pushed "" (answering-IsQuiet "") refl refl
      refl refl refl refl

abbrev dying : App
dying = record owned { status = AppStatus.deleting }

abbrev pushed_late : World
pushed_late = (queue_pending_redeploy 7 (some "c2") (world_of dying)).1
