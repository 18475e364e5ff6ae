-- ===== src/Apps/Cancel/Tests.antt =====
-- Runs of `AppViewSet.stop`, and the theorems at concrete data.
use fabroku_back_end.Base.{refl, some}
use fabroku_back_end.Models.App.{App, AppStatus}
use fabroku_back_end.Runtime.World.{World}
use fabroku_back_end.Runtime.Effects.{Result}
use fabroku_back_end.Apps.Views.{Response}
use fabroku_back_end.Apps.Cancel.{stop_view}
use fabroku_back_end.Apps.Cancel.Outcome.{Cancels, stop_view-Cancels}
use fabroku_back_end.Samples.{answering, answering-IsQuiet, blog, world_of}

abbrev deploying_blog : App
deploying_blog = record blog { status = AppStatus.deploying; task_id = some "t0" }

abbrev cancelled : Result Response × World
cancelled = stop_view (answering "False\n") deploying_blog 5 (world_of deploying_blog)

stop_view-Cancels_example :
    Cancels (answering "False\n") deploying_blog "t0" cancelled.0 cancelled.1
stop_view-Cancels_example =
    stop_view-Cancels (answering "False\n") deploying_blog "t0" 5 (world_of deploying_blog)
      (answering-IsQuiet "False\n") refl refl (λ e. cc) refl refl
