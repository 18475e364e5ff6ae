-- ===== src/Apps/Manage/Tests.antt =====
-- Runs of applications/use_cases/manage_app.py, and the theorem at concrete data.
use fabroku_back_end.Base.{String, refl, some}
use fabroku_back_end.Models.App.{App}
use fabroku_back_end.Runtime.World.{World, AppAction}
use fabroku_back_end.Runtime.Effects.{Result}
use fabroku_back_end.Apps.Manage.{execute}
use fabroku_back_end.Apps.Manage.Outcome.{Ends, manage-Ends}
use fabroku_back_end.Samples.{blog, world_of, answering, answering-IsQuiet}

abbrev claimed_blog : App
claimed_blog = record blog { task_id = some "t0" }

abbrev restarted : Result String × World
restarted = execute (answering "ok") AppAction.restart (some "t0") 7 (world_of blog)

manage-Ends_example :
    Ends
      (answering "ok")
      claimed_blog
      claimed_blog
      AppAction.restart
      restarted.0
      (restarted.1.apps 7)
manage-Ends_example =
    manage-Ends (answering "ok") AppAction.restart "t0" blog (world_of blog)
      (answering-IsQuiet "ok") refl refl refl refl
