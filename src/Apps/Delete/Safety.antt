-- ===== src/Apps/Delete/Safety.antt =====
-- The steps of a delete that return whatever Dokku and GitHub answer, and change no table.
use fabroku_back_end.Base.{ℕ, String, Bool, true, false, Option, none, some}
use fabroku_back_end.Models.App.{App}
use fabroku_back_end.Runtime.World.{Env, IsQuiet}
use fabroku_back_end.Runtime.Frame.{Safe, Frame-call, Frame-ask, frame_rules, safe_rules}
use fabroku_back_end.Apps.Delete.{
  destroy, cleanup, destroy_again, confirm, delete_dokku_app, failure_unless_gone,
  remove_github_webhook,
}

module _ (env : Env) (q : IsQuiet env) where
  destroy-Safe : (name : String) → Safe (destroy env name)
  unfolding destroy
  destroy-Safe name = search (frame_rules, Frame-call env q)

  cleanup-Safe : (app_id : ℕ) (name : String) → Safe (cleanup env app_id name)
  unfolding cleanup
  cleanup-Safe app_id name = search (frame_rules, Frame-call env q)

  destroy_again-Safe :
      (app_id : ℕ) (name : String) (p : Option String × Option String)
      → Safe (destroy_again env app_id name p)
  unfolding destroy_again
  destroy_again-Safe app_id name (result, none) = search safe_rules
  destroy_again-Safe app_id name (result, some failure) =
      search (safe_rules, destroy-Safe, cleanup-Safe) depth 8

  found-Safe :
      (app_id : ℕ) (failure : String) (b : Bool) → Safe (failure_unless_gone env app_id failure b)
  found-Safe app_id failure true = search safe_rules
  found-Safe app_id failure false = search safe_rules

  confirm-Safe :
      (app_id : ℕ) (name : String) (p : Option String × Option String)
      → Safe (confirm env app_id name p)
  unfolding confirm
  confirm-Safe app_id name (result, none) = search safe_rules
  confirm-Safe app_id name (result, some failure) =
      search (frame_rules, Frame-ask env q, found-Safe) depth 8

  pub delete_dokku_app-Safe : (app_id : ℕ) (name : String) → Safe (delete_dokku_app env app_id name)
  unfolding delete_dokku_app
  delete_dokku_app-Safe app_id name =
      search (safe_rules, destroy-Safe, destroy_again-Safe, confirm-Safe) depth 8

  pub remove_github_webhook-Safe :
      (app : App) (deleted_by_id : Option ℕ) → Safe (remove_github_webhook env app deleted_by_id)
  unfolding remove_github_webhook
  remove_github_webhook-Safe app deleted_by_id = search (frame_rules, Frame-ask env q) depth 8
