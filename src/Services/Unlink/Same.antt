-- ===== src/Services/Unlink/Same.antt =====
-- The promotion of another database leaves the row of the service that goes as it is.
use fabroku_back_end.Base.{
  ℕ, String, ◌≡◌, refl, Bool, false, Option, none, some, List, [], ◌∷◌, ◌==◌, find, arith,
}
use fabroku_back_end.Models.App.{App}
use fabroku_back_end.Models.Service.{Service}
use fabroku_back_end.Runtime.World.{Env, World, IsQuiet}
use fabroku_back_end.Runtime.Frame.{Frame, frame_rules, Frame-call}
use fabroku_back_end.Dokku.{check_dokku_output}
use fabroku_back_end.Services.Rows.{
  service_row, save_service, SameService, SameService-Frame, SameService-if, SameService-bind,
  SameService-then, SameService-when, SameService-save_fields, SameService-save_service,
}
use fabroku_back_end.Services.Urls.{take_url, try_config_url, sync_config_url_from_dokku}
use fabroku_back_end.Services.Promote.{
  is_candidate, promote, forget_key, take_place, promote_candidate, promote_first, set_env_key,
  promote_remaining_database_if_needed,
}

module _ (env : Env) (q : IsQuiet env) (id : ℕ) where
  pub Frame-check :
      (output operation : String) (b : Bool) → Frame (check_dokku_output output operation b)
  unfolding check_dokku_output
  Frame-check output operation b = search frame_rules depth 8

  pub SameService-take_url :
      (app : App) (key : String) (p : ℕ) (url : String)
      → SameService id (take_url env app key p url)
  unfolding take_url
  SameService-take_url app key p url =
      search (frame_rules, SameService-Frame, SameService-then, SameService-save_fields) depth 8

  pub SameService-try_config_url :
      (app : App) (key : String) (p n : ℕ) → SameService id (try_config_url env app key p n)
  unfolding try_config_url
  SameService-try_config_url app key p ℕ.zero = search (frame_rules, SameService-Frame) depth 8
  SameService-try_config_url app key p (ℕ.suc n) =
      SameService-bind id _ _ (SameService-Frame id _ (Frame-call env q _)) (λ output.
        SameService-if id _ _ _ (SameService-take_url app key p _)
          (SameService-try_config_url app key p n))

  pub SameService-sync :
      (app : App) (key : String) (p : ℕ) → SameService id (sync_config_url_from_dokku env app key p)
  unfolding sync_config_url_from_dokku
  SameService-sync app key p =
      search (frame_rules, SameService-Frame, SameService-if, SameService-try_config_url) depth 8

  pub SameService-promote :
      (app : App) (p : ℕ) (candidate : Service) → SameService id (promote env app p candidate)
  unfolding promote
  SameService-promote app p candidate =
      SameService-Frame id _ (search (frame_rules, Frame-call env q, Frame-check) depth 8)

  pub SameService-forget_key :
      (app : App) (p : ℕ) (key : Option String) → SameService id (forget_key env app p key)
  unfolding forget_key
  SameService-forget_key app p key = search (SameService-when, SameService-save_fields)

  pub SameService-set_env_key :
      (other : ℕ) (key : Option String)
      → (other == id) ≡ false
      → SameService id (save_service other (set_env_key key))
  SameService-set_env_key other key ne =
      SameService-save_service id other (set_env_key key) ne (λ s. refl)

  pub SameService-take_place :
      (app : App) (p : ℕ) (candidate : Service) (url : String)
      → (candidate.id == id) ≡ false
      → SameService id (take_place env app p candidate url)
  unfolding take_place
  SameService-take_place app p candidate url ne =
      search
        (
          frame_rules, SameService-Frame, SameService-then, SameService-when, SameService-promote,
          SameService-set_env_key, SameService-forget_key, SameService-sync,
        )
        depth 10

  pub candidate-other :
      (app_id : ℕ) (ss : List Service) (candidate : Service)
      → find (is_candidate app_id id) ss ≡ some candidate
      → (candidate.id == id) ≡ false
  candidate-other app_id [] candidate e = ground arith
  candidate-other app_id (s ∷ ss) candidate e = ground (arith, candidate-other app_id ss candidate)

  pub same_promote_candidate :
      (app : App) (p : ℕ) (o : Option Service) (w : World)
      → ((candidate : Service) → o ≡ some candidate → (candidate.id == id) ≡ false)
      → service_row id (promote_candidate env app p o w).1 ≡ service_row id w
  unfolding promote_candidate
  same_promote_candidate app p none w other = refl
  same_promote_candidate app p (some candidate) w other =
      (SameService-bind id _ _ (SameService-Frame id _ (Frame-call env q _))
          (λ url. SameService-take_place app p candidate _ (other candidate refl))).same
        w

  pub SameService-promote_first : (app : App) (p : ℕ) → SameService id (promote_first env app p id)
  unfolding promote_first
  SameService-promote_first app p = record {
    same = λ w.
        same_promote_candidate app p (find (is_candidate app.id id) w.services) w
          (candidate-other app.id w.services);
  }

  -- The promotion of another database leaves the service that goes as it is.
  pub SameService-promote_remaining :
      (app : App) (p : ℕ) (key : Option String)
      → SameService id (promote_remaining_database_if_needed env app p key id)
  unfolding promote_remaining_database_if_needed
  SameService-promote_remaining app p key =
      search (frame_rules, SameService-Frame, SameService-if, SameService-promote_first)
