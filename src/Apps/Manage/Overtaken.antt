-- ===== src/Apps/Manage/Overtaken.antt =====
-- A start, stop or restart that loses the app while Dokku works.
use fabroku_back_end.Base.{ℕ, String, ◌≡◌, refl, ap, ◌∙◌, false, some, arith}
use fabroku_back_end.Models.App.{App}
use fabroku_back_end.Models.Errors.{Error}
use fabroku_back_end.Runtime.World.{Env, World, AppAction, Reply, answered, failed}
use fabroku_back_end.Runtime.Effects.{
  Result, ok, err, catch, recover, receive, after_call, row_matches, ◌>>=◌,
}
use fabroku_back_end.Dokku.{check_dokku_output}
use fabroku_back_end.Ownership.{save_if_owner, owned_by}
use fabroku_back_end.Apps.Manage.{action_call, record_success, send_command, record_failure}

module _ (env : Env) (action : AppAction) (t : String) (app : App) where
  record_failure_overtaken :
      (e : Error) (w : World) (j : ℕ)
      → row_matches (owned_by t) (w.apps app.id) ≡ false
      → (record_failure env action (some t) app e w).1.apps j ≡ w.apps j
  unfolding record_failure save_if_owner
  record_failure_overtaken e w j lost = ground arith

  record_success_overtaken :
      (name output : String) (w : World) (j : ℕ)
      → row_matches (owned_by t) (w.apps app.id) ≡ false
      → (record_success env action (some t) app name output w).1.apps j ≡ w.apps j
  unfolding record_success save_if_owner check_dokku_output
  record_success_overtaken name output w j lost = ground arith

  recover_overtaken :
      (r : Result String) (w u : World) (j : ℕ)
      → row_matches (owned_by t) (u.apps app.id) ≡ false
      → ((i : ℕ) → w.apps i ≡ u.apps i)
      → (recover r (record_failure env action (some t) app) w).1.apps j ≡ u.apps j
  recover_overtaken (ok output) w u j lost same = same j
  recover_overtaken (err e) w u j lost same =
      record_failure_overtaken e w j (ap (row_matches (owned_by t)) (same app.id) ∙ lost) ∙ same j

  reply_overtaken :
      (name : String) (reply : Reply String) (w : World) (i : ℕ)
      → row_matches (owned_by t) (w.apps app.id) ≡ false
      → ((receive env reply >>= record_success env action (some t) app name) w).1.apps i ≡ w.apps i
  reply_overtaken name (answered output) w i lost = record_success_overtaken name output w i lost
  reply_overtaken name (failed text) w i lost = refl

  -- If another operation takes the app while Dokku carries out the command, nothing is written to
  -- the apps table afterwards, whatever Dokku answers: the new owner's status and owner stay. This
  -- supposes nothing of other processes but that the row is not the task's when the call returns.
  pub record_overtaken :
      (name : String) (w : World) (j : ℕ)
      → row_matches (owned_by t) ((after_call env (action_call action name) w).apps app.id) ≡ false
      → (catch
            (send_command env action (some t) app name)
            (record_failure env action (some t) app)
            w).1.apps
          j
        ≡ (after_call env (action_call action name) w).apps j
  unfolding send_command
  record_overtaken name w j lost =
      let c = action_call action name in
      let w1 = after_call env c w in
      let m = send_command env action (some t) app name w in
      recover_overtaken m.0 m.1 w1 j lost
        (λ i. reply_overtaken name (env.text_reply w.calls c) w1 i lost)
