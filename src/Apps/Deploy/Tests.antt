-- ===== src/Apps/Deploy/Tests.antt =====
-- Runs of applications/use_cases/deploy_app.py, and the theorems at concrete data.
use fabroku_back_end.Base.{refl, some}
use fabroku_back_end.Runtime.World.{World}
use fabroku_back_end.Runtime.Effects.{Result}
use fabroku_back_end.Apps.Deploy.{AppDeployed, DeployAppCommand, execute}
use fabroku_back_end.Apps.Deploy.Rows.{command}
use fabroku_back_end.Apps.Deploy.Outcome.{Ends, deploy-Ends}
use fabroku_back_end.Samples.{answering, answering-IsQuiet, blog, world_of, plan}

abbrev redeploy : DeployAppCommand
redeploy = command blog "t0" (some "abc123") (some 5)

abbrev deployed : Result AppDeployed × World
deployed = execute (answering "ok") redeploy (world_of blog)

deploy-Ends_example : Ends (answering "ok") redeploy blog "t0" plan deployed.0 (deployed.1.apps 7)
deploy-Ends_example =
    deploy-Ends (answering "ok") "t0" (some "abc123") (some 5) plan blog (world_of blog)
      (answering-IsQuiet "ok") refl refl refl (λ h. refl) (λ h. refl)
