-- ===== src/Apps/Delete/Dokku.antt =====
-- `_delete_dokku_app` says that an app is gone only on Dokku's word.
use fabroku_back_end.Base.{
  ℕ, String, ◌≡◌, refl, Bool, true, false, Option, none, some, if◌then◌else◌,
}
use fabroku_back_end.Runtime.World.{Env, delete_app, exists_app, Level, Category}
use fabroku_back_end.Runtime.Effects.{log, ◌>>◌}
use fabroku_back_end.Runtime.Ensures.{
  Ensures, Ensures-pure, Ensures-catch, Ensures-if, Ensures-bind, Ensures-then, Ensures-call,
  Ensures-ask, WasAnswered, WasFlagged,
}
use fabroku_back_end.Dokku.{dokku_output_failed}
use fabroku_back_end.Apps.Delete.{
  is_volume_in_use, text_or_class, warn, destroy, cleanup, destroy_again, confirm,
  failure_unless_gone, delete_dokku_app,
}

module _ (env : Env) (name : String) where
  -- Dokku has answered a destroy with no failure marker, or has said that there is no such app.
  pub data Gone : Type 0 where
    destroyed_it :
        (output : String)
        → WasAnswered env (delete_app name) output
        → dokku_output_failed output ≡ false
        → Gone
    absent : WasFlagged env (exists_app name) false → Gone

  -- A pair with no failure, or a missing failure, needs the evidence.
  abbrev pub GoneUnless : Option String → Type 0
  GoneUnless none = Gone
  GoneUnless (some failure) = Unit

  abbrev PairGone : Option String × Option String → Type 0
  PairGone (result, failure) = GoneUnless failure

  destroyed-PairGone :
      (output : String) (b : Bool)
      → WasAnswered env (delete_app name) output
      → dokku_output_failed output ≡ b
      → PairGone (some output, if b then some output else none)
  destroyed-PairGone output true a e = tt
  destroyed-PairGone output false a e = destroyed_it output a e

  destroy-PairGone : Ensures PairGone (destroy env name)
  unfolding destroy
  destroy-PairGone =
      Ensures-catch PairGone _ _
        (Ensures-bind (WasAnswered env (delete_app name)) PairGone _ _
          (Ensures-call env (delete_app name))
          (λ output a.
            Ensures-pure PairGone _
              (destroyed-PairGone output (dokku_output_failed output) a refl)))
        (λ e. Ensures-pure PairGone (none, some (text_or_class e)) tt)

  destroy_again-PairGone :
      (app_id : ℕ) (p : Option String × Option String)
      → PairGone p
      → Ensures PairGone (destroy_again env app_id name p)
  unfolding destroy_again
  destroy_again-PairGone app_id (result, none) gone = Ensures-pure PairGone _ gone
  destroy_again-PairGone app_id (result, some failure) gone =
      Ensures-if PairGone (is_volume_in_use failure) _ _
        (λ _.
          Ensures-then PairGone (warn env app_id 70) (cleanup env app_id name >> destroy env name)
            (Ensures-then PairGone (cleanup env app_id name) _ destroy-PairGone))
        (λ _. Ensures-pure PairGone (result, some failure) tt)

  found-GoneUnless :
      (app_id : ℕ) (failure : String) (there : Bool)
      → WasFlagged env (exists_app name) there
      → Ensures GoneUnless (failure_unless_gone env app_id failure there)
  found-GoneUnless app_id failure true a = Ensures-pure GoneUnless (some failure) tt
  found-GoneUnless app_id failure false a =
      Ensures-then GoneUnless (warn env app_id 80) _ (Ensures-pure GoneUnless none (absent a))

  confirm-GoneUnless :
      (app_id : ℕ) (p : Option String × Option String)
      → PairGone p
      → Ensures GoneUnless (confirm env app_id name p)
  unfolding confirm
  confirm-GoneUnless app_id (result, none) gone =
      Ensures-then GoneUnless (log app_id Level.dokku Category.deploy 80) _
        (Ensures-pure GoneUnless none gone)
  confirm-GoneUnless app_id (result, some failure) gone =
      Ensures-catch GoneUnless _ _
        (Ensures-bind (WasFlagged env (exists_app name)) GoneUnless _ _
          (Ensures-ask env (exists_app name)) (found-GoneUnless app_id failure))
        (λ e. Ensures-pure GoneUnless (some failure) tt)

  -- If `_delete_dokku_app` returns no failure, then Dokku has answered a destroy of the app with no
  -- failure marker, or has said that there is no such app, whatever the other answers were.
  pub delete_dokku_app-GoneUnless :
      (app_id : ℕ) → Ensures GoneUnless (delete_dokku_app env app_id name)
  unfolding delete_dokku_app
  delete_dokku_app-GoneUnless app_id =
      Ensures-bind PairGone GoneUnless _ _ destroy-PairGone (λ first gone.
        Ensures-bind PairGone GoneUnless _ _ (destroy_again-PairGone app_id first gone)
          (λ last gone'. confirm-GoneUnless app_id last gone'))
