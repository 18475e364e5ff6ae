-- ===== src/Apps/Delete/Tests.antt =====
-- Runs of applications/use_cases/delete_app.py, and the theorems at concrete data.
use fabroku_back_end.Base.{ℕ, ◌≡◌, some, false, any}
use fabroku_back_end.Models.App.{App}
use fabroku_back_end.Models.Service.{is_live_of}
use fabroku_back_end.Runtime.World.{World}
use fabroku_back_end.Runtime.Effects.{Result, ok}
use fabroku_back_end.Runtime.Ensures.{Ensures}
use fabroku_back_end.Apps.Delete.{AppDeleted, execute, delete_dokku_app}
use fabroku_back_end.Apps.Delete.Dokku.{GoneUnless, delete_dokku_app-GoneUnless}
use fabroku_back_end.Apps.Delete.Services.{delete_linked_services}
use fabroku_back_end.Apps.Delete.Services.Removal.{delete_linked_services_lem}
use fabroku_back_end.Samples.{blog, world_of, down, down-IsQuiet}

abbrev claimed_blog : App
claimed_blog = record blog { task_id = some "t0" }

abbrev deleted : Result AppDeleted × World
deleted = execute down 7 (some "t0") (some 2) (world_of blog)

delete_dokku_app-GoneUnless_example :
    Ensures (GoneUnless down "blog-7") (delete_dokku_app down 7 "blog-7")
delete_dokku_app-GoneUnless_example = delete_dokku_app-GoneUnless down "blog-7" 7

abbrev without_services : Result (Unit {0}) × World
without_services = delete_linked_services down blog (some 2) (world_of blog)

delete_linked_services_example :
    (without_services.0 ≡ ok tt)
    × ((j : ℕ) → without_services.1.apps j ≡ (world_of blog).apps j)
    × (any (is_live_of 7) without_services.1.services ≡ false)
delete_linked_services_example =
    delete_linked_services_lem down down-IsQuiet blog (some 2) (world_of blog)
