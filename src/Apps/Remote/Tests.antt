-- ===== src/Apps/Remote/Tests.antt =====
-- Runs of applications/remote_deploy.py, and the theorems at concrete data.
use fabroku_back_end.Base.{Bool, refl, some}
use fabroku_back_end.Models.App.{App, AppStatus}
use fabroku_back_end.Runtime.World.{Env, World, RemoteDeploy, FinishedAt, answered}
use fabroku_back_end.Runtime.Effects.{Result}
use fabroku_back_end.Apps.Remote.{reconcile_orphan_remote_deploy}
use fabroku_back_end.Apps.Remote.Outcome.{Ends, reconcile-Reconciled}
use fabroku_back_end.Samples.{answering, blog, world_of}

abbrev orphan : App
orphan = record blog { status = AppStatus.deploying; task_id = some "t0" }

-- The build ended ten minutes ago.
abbrev ended : RemoteDeploy
ended = record { state = "succeeded"; finished_at = some (FinishedAt.at_time 400) }

abbrev reporting : Env
reporting = record (answering "ok") { remote_reply = λ h c. answered (some ended) }

abbrev reconciled : Result Bool × World
reconciled = reconcile_orphan_remote_deploy reporting orphan (world_of orphan)

reconcile-Reconciled_example : Ends reporting orphan "t0" 1000 reconciled.0 (reconciled.1.apps 7)
reconcile-Reconciled_example =
    reconcile-Reconciled reporting orphan "t0" (world_of orphan) (λ h c t j. refl) refl refl
      (λ e. cc)
