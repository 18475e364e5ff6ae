-- ===== src/Apps/Manage/Outcome.antt =====
-- How start, stop and restart end: what the row of the app says afterwards.
use fabroku_back_end.Base.{
  Bool, not, String, ◌≡◌, refl, true, false, Option, some, arith, ◌∙◌, eq_iff, truthy, or_else,
  holds_text_self, List, truncate, inl, inr, Bool-cases,
}
use fabroku_back_end.Models.App.{App, AppStatus, set_fields}
use fabroku_back_end.Models.Errors.{Error, message}
use fabroku_back_end.Runtime.World.{
  Env, World, IsQuiet, Reply, answered, failed, Level, Category, AppAction, Call, start, stop,
  restart, start_app, stop_app, restart_app,
}
use fabroku_back_end.Runtime.Effects.{
  Result, ok, err, is_active, recover, receive, after_call, log, pure, when, ◌>>=◌, ◌>>◌,
}
use fabroku_back_end.Runtime.Ensures.{
  Returned, Ensures, Ensures-pure, Ensures-then, Ensures-bind, Ensures-any, Anything, WasAnswered,
}
use fabroku_back_end.Dokku.{check_dokku_output, dokku_output_failed, dokku_output_failed_empty}
use fabroku_back_end.Ownership.Claim.{claim_world}
use fabroku_back_end.Ownership.{claim_app, save_if_owner, claimable}
use fabroku_back_end.Apps.Databases.{
  start_linked_databases, start_linked_databases_ok, apps-start_linked_databases,
}
use fabroku_back_end.Apps.Manage.{
  final_fields, failure_fields, operation, warms_up, action_call, record_success, send_command,
  record_failure, run_action, manage_claimed, execute,
}

-- Dokku has answered the command of the action with this output.
abbrev pub WasDone : Env → AppAction → String → String → Type 0
WasDone env start name output = WasAnswered env (start_app name) output
WasDone env stop name output = WasAnswered env (stop_app name) output
WasDone env restart name output = WasAnswered env (restart_app name) output

-- An app that was stopped is STOPPED, and one that was started or restarted is RUNNING.
abbrev pub end_status : AppAction → AppStatus
end_status start = AppStatus.running
end_status stop = AppStatus.stopped
end_status restart = AppStatus.running

-- After a success Dokku answered the command with no failure marker and the row has the final
-- status; after a failure the row says ERROR, with the text of the exception.
abbrev pub Ends : Env → App → App → AppAction → Result String → Option App → Type 0
Ends env app row action (ok output) o =
    WasDone env action (or_else app.name_dokku "") output
    × (dokku_output_failed output ≡ false)
    × (o ≡ some (set_fields (final_fields app action) row))
    × ((set_fields (final_fields app action) row).status ≡ end_status action)
Ends env app row action (err e) o =
    (o ≡ some (set_fields (failure_fields e) row))
    × ((set_fields (failure_fields e) row).status ≡ AppStatus.error)
    × ((set_fields (failure_fields e) row).error_details ≡ some (truncate 2000 (message e)))

was_done :
    (env : Env) (action : AppAction) (name output : String)
    → WasAnswered env (action_call action name) output
    → WasDone env action name output
was_done env start name output h = h
was_done env stop name output h = h
was_done env restart name output h = h

status-final_fields :
    (app row : App) (action : AppAction)
    → (set_fields (final_fields app action) row).status ≡ end_status action
status-final_fields app row start = ground arith
status-final_fields app row stop = ground arith
status-final_fields app row restart = ground arith

module _ (env : Env) (action : AppAction) (t : String) (app row : App) where
  record_failure-row :
      (e : Error) (w : World)
      → w.apps app.id ≡ some row
      → row.task_id ≡ some t
      → let (r, w') = record_failure env action (some t) app e w in
        (r ≡ err e) × (w'.apps app.id ≡ some (set_fields (failure_fields e) row))
  unfolding record_failure save_if_owner
  record_failure-row e w found owner = (ground arith, ground (arith, holds_text_self t))

  -- What the rest of the `try` leaves: the final row, or the row as it was.
  abbrev Tries : Result String → Option App → Type 0
  Tries (ok output) o =
      (dokku_output_failed output ≡ false) × (o ≡ some (set_fields (final_fields app action) row))
  Tries (err e) o = o ≡ some row

  record_success-row :
      (name output : String) (w : World)
      → w.apps app.id ≡ some row
      → row.task_id ≡ some t
      → let (r, w') = record_success env action (some t) app name output w in
        Tries r (w'.apps app.id)
  unfolding record_success save_if_owner check_dokku_output
  record_success-row name output w found owner =
      ground (arith, holds_text_self t, eq_iff output "", dokku_output_failed_empty)

  -- What the `try` leaves, and that the output is what Dokku answered
  abbrev Sends : String → Result String → Option App → Type 0
  Sends name (ok output) o = WasAnswered env (action_call action name) output × Tries (ok output) o
  Sends name (err e) o = Tries (err e) o

  sent :
      (name output : String) (r : Result String) (o : Option App)
      → WasAnswered env (action_call action name) output
      → Returned (λ found. found ≡ output) r
      → Tries r o
      → Sends name r o
  sent name output (ok found) o was same tried = rw same (was, rw⁻¹ same tried)
  sent name output (err e) o was same tried = tried

  record_success-output :
      (name output : String)
      → Ensures (λ found. found ≡ output) (record_success env action (some t) app name output)
  unfolding record_success
  record_success-output name output =
      let P : String → Type 0 = λ found. found ≡ output in
      let warns = λ (wrote : Bool × App).
        when (not wrote.0) (log app.id Level.warning Category.deploy 0)
        >> (log app.id Level.success Category.deploy 100 >> pure output) in
      let saves = save_if_owner app (some t) (final_fields app action) in
      let checks = check_dokku_output output (operation action name) true in
      Ensures-then P (log app.id Level.dokku Category.deploy 80) (checks >> (saves >>= warns)) (
        Ensures-then P checks (saves >>= warns) (
          Ensures-bind Anything P saves warns (Ensures-any saves) (λ wrote _.
            Ensures-then P (when (not wrote.0) (log app.id Level.warning Category.deploy 0))
              (log app.id Level.success Category.deploy 100 >> pure output)
              (Ensures-then P (log app.id Level.success Category.deploy 100) (pure output)
                (Ensures-pure P output refl)))))

  after_reply-row :
      (name : String) (reply : Reply String) (h : List Call) (w : World)
      → env.text_reply h (action_call action name) ≡ reply
      → w.apps app.id ≡ some row
      → row.task_id ≡ some t
      → let (r, w') = (receive env reply >>= record_success env action (some t) app name) w in
        Sends name r (w'.apps app.id)
  after_reply-row name (answered output) h w e found owner =
      let (r, w') = record_success env action (some t) app name output w in
      sent name output r (w'.apps app.id) (h, e) ((record_success-output name output).at w)
        (record_success-row name output w found owner)
  after_reply-row name (failed text) h w e found owner = found

  send_command-row :
      (name : String) (w : World)
      → IsQuiet env
      → w.apps app.id ≡ some row
      → row.task_id ≡ some t
      → let (r, w') = send_command env action (some t) app name w in Sends name r (w'.apps app.id)
  unfolding send_command
  send_command-row name w q found owner =
      let c = action_call action name in
      after_reply-row name (env.text_reply w.calls c) w.calls (after_call env c w) refl
        (q w.calls c w.apps app.id ∙ found) owner

  run_action-row :
      (name : String) (w : World)
      → IsQuiet env
      → w.apps app.id ≡ some row
      → row.task_id ≡ some t
      → let (r, w') = run_action env action (some t) app name w in Sends name r (w'.apps app.id)
  unfolding run_action
  run_action-row name w q found owner = elim (Bool-cases (warms_up action)) [
    | inl y ↦
        let warm = start_linked_databases env app.id false w in
        rw (y, start_linked_databases_ok env app.id false q w)
          (send_command-row name warm.1 q
            (apps-start_linked_databases env app.id false q w app.id ∙ found) owner)
    | inr n ↦ rw n (send_command-row name w q found owner)
  ]

  recover-row :
      (r : Result String) (w : World)
      → Sends (or_else app.name_dokku "") r (w.apps app.id)
      → row.task_id ≡ some t
      → let (r', w') = recover r (record_failure env action (some t) app) w in
        Ends env app row action r' (w'.apps app.id)
  recover-row (ok output) w (was, (fine, saved)) owner = (
    was_done env action (or_else app.name_dokku "") output was,
    fine,
    saved,
    status-final_fields app row action,
  )
  recover-row (err e) w tried owner =
      let (same, saved) = record_failure-row e w tried owner in rw same (saved, refl, refl)

  manage_claimed-row :
      (w : World)
      → IsQuiet env
      → truthy app.name_dokku ≡ true
      → w.apps app.id ≡ some row
      → row.task_id ≡ some t
      → let (r, w') = manage_claimed env action (some t) app w in
        Ends env app row action r (w'.apps app.id)
  unfolding manage_claimed
  manage_claimed-row w q named found owner =
      let name = or_else app.name_dokku "" in
      let w1 = (log app.id Level.info Category.deploy 10 w).1 in
      let (r, w2) = run_action env action (some t) app name w1 in
      rw named (recover-row r w2 (run_action-row name w1 q found owner) owner)

execute-claimed :
    (env : Env) (action : AppAction) (t : String) (row : App) (w : World)
    → w.apps row.id ≡ some row
    → is_active row ≡ true
    → claimable t row ≡ true
    → execute env action (some t) row.id w
      ≡ manage_claimed env action (some t) (record row { task_id = some t }) (claim_world t row w)
unfolding execute claim_app
execute-claimed env action t row w found active free = ground arith

-- Start, stop and restart never report what did not happen. If the use case returns, its output is
-- what Dokku answered to the command of the action for the Dokku name of the app, it shows no
-- failure, and the row says STOPPED after a stop and RUNNING after a start or a restart. If it
-- raises, the row says ERROR, with at most 2000 characters of the text of the exception. For an
-- app with a Dokku name that the task may claim, while no other process writes the apps table.
pub manage-Ends :
    (env : Env) (action : AppAction) (t : String) (row : App) (w : World)
    → IsQuiet env
    → w.apps row.id ≡ some row
    → is_active row ≡ true
    → claimable t row ≡ true
    → truthy row.name_dokku ≡ true
    → let claimed = record row { task_id = some t } in
      let (r, w') = execute env action (some t) row.id w in
      Ends env claimed claimed action r (w'.apps row.id)
manage-Ends env action t row w q found active free named =
    let claimed = record row { task_id = some t } in
    rw (execute-claimed env action t row w found active free) (
      manage_claimed-row env action t claimed claimed (claim_world t row w) q named (ground arith)
        refl)
