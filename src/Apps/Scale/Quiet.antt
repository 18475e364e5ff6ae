-- ===== src/Apps/Scale/Quiet.antt =====
-- The scale functions write no row of the apps table, while no other process does.
use fabroku_back_end.Base.{ℕ, String, Option, none, some, [], ◌∷◌}
use fabroku_back_end.Base.Dict.{Dict}
use fabroku_back_end.Models.App.{App}
use fabroku_back_end.Runtime.World.{Env, IsQuiet}
use fabroku_back_end.Runtime.Frame.{Frame, frame_rules, Frame-call}
use fabroku_back_end.Runtime.Triples.{Row, Keeps, keeps_rules}
use fabroku_back_end.Apps.Scale.Sync.{
  output_or_report, sync_app_process_scales_from_dokku, save_desired_process_quantities, reapply,
  reapply_saved_process_scales,
}

module _ (env : Env) (q : IsQuiet env) (id : ℕ) (P : Row) (app : App) where
  Frame-output_or_report :
      (name : String) (output : Option String) → Frame (output_or_report env name output)
  Frame-output_or_report name none = search (frame_rules, Frame-call env q)
  Frame-output_or_report name (some output) = search frame_rules

  Keeps-sync :
      (output : Option String) → Keeps id P (sync_app_process_scales_from_dokku env app output)
  unfolding sync_app_process_scales_from_dokku
  Keeps-sync output = search (keeps_rules, Frame-output_or_report) depth 12

  Keeps-save_desired :
      (processes : Dict ℕ) → Keeps id P (save_desired_process_quantities app.id processes)
  unfolding save_desired_process_quantities
  Keeps-save_desired processes = search keeps_rules

  Keeps-reapply : (progress : ℕ) (saved : Dict ℕ) → Keeps id P (reapply env app progress saved)
  unfolding reapply
  Keeps-reapply progress [] = search keeps_rules
  Keeps-reapply progress (p ∷ saved) =
      search (keeps_rules, Keeps-sync, Keeps-save_desired, Frame-call env q) depth 14

  pub Keeps-reapply_saved_process_scales :
      (progress : ℕ) → Keeps id P (reapply_saved_process_scales env app progress)
  unfolding reapply_saved_process_scales
  Keeps-reapply_saved_process_scales progress =
      search (keeps_rules, Keeps-sync, Keeps-reapply) depth 12
