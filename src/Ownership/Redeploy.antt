-- ===== src/Ownership/Redeploy.antt =====
-- What becomes of a push that came while the app was busy: `run_pending_redeploy`, when the
-- operation that owned the app has ended.
use fabroku_back_end.Base.{
  ℕ, ◌++◌, String, ◌≡◌, ◌≢◌, refl, Option, none, some, false, true, [], ◌∷◌, arith, holds_text_self,
  holds_text, ◌&&◌, not, Bool-cases, inl, inr,
}
use fabroku_back_end.Models.App.{App, AppStatus, is_deleting, set_fields}
use fabroku_back_end.Runtime.World.{Env, IsQuiet, World, Call, answered, deploy_app}
use fabroku_back_end.Runtime.Effects.{ok, is_active}
use fabroku_back_end.Ownership.{dispatch_app_task, taken_by}
use fabroku_back_end.Ownership.Dispatch.{dispatch_taken}
use fabroku_back_end.Ownership.Pending.{
  fresh, redeploy_app, clear_pending_redeploy, run_pending_redeploy, queue_pending_redeploy,
}

module _ (env : Env) (row : App) (commit : Option String) (t : String) (w : World) where
  -- The push of an app that the ended operation `t` still owns is deployed: the deploy is enqueued
  -- with its commit, the app is DEPLOYING and belongs to it, and the push is forgotten. For a push
  -- that has not grown too old, an active app that is not being deleted, a broker that takes the
  -- task, while no other process writes the apps table.
  pub redeploy_runs :
      (answer : String)
      → IsQuiet env
      → fresh w.clock (w.pending_redeploys row.id) ≡ some commit
      → w.apps row.id ≡ some row
      → is_active row ≡ true
      → is_deleting row.status ≡ false
      → row.task_id ≡ some t
      → env.text_reply w.calls (Call.enqueue (env.uuid w.issued) (deploy_app row.id commit none))
        ≡ answered answer
      → let next = env.uuid w.issued in
        let (r, w') = run_pending_redeploy env row.id (some t) w in
        (r ≡ ok (some next))
        × (w'.apps row.id ≡ some (set_fields (taken_by AppStatus.deploying next) row))
        × (w'.queue ≡ w.queue ++ ((next, deploy_app row.id commit none) ∷ []))
        × (w'.pending_redeploys row.id ≡ none)
  unfolding run_pending_redeploy redeploy_app clear_pending_redeploy
  redeploy_runs answer q pending found active live owner taken =
      let (r, row', others, queued) =
        dispatch_taken env row AppStatus.deploying (deploy_app row.id commit none) w (some (some t))
          answer q found (ground (arith, holds_text_self t)) taken in
      rw (pending, found, active, live, r) (refl, row', queued, ground arith)

  -- Another operation has taken the app meanwhile: the push stays for it, and nothing is enqueued.
  pub redeploy_waits :
      fresh w.clock (w.pending_redeploys row.id) ≡ some commit
      → w.apps row.id ≡ some row
      → is_active row ≡ true
      → is_deleting row.status ≡ false
      → holds_text row.task_id t ≡ false
      → let (r, w') = run_pending_redeploy env row.id (some t) w in
        (r ≡ ok none)
        × (w'.pending_redeploys row.id ≡ w.pending_redeploys row.id)
        × (w'.queue ≡ w.queue)
        × (w'.apps row.id ≡ w.apps row.id)
  unfolding run_pending_redeploy redeploy_app dispatch_app_task
  redeploy_waits pending found active live other =
      rw (pending, found, active, live) (ground arith, ground arith, ground arith, ground arith)

  -- The push of an app that is being deleted, or is deleted, is dropped, and nothing is enqueued.
  pub redeploy_dropped :
      (finished : Option String)
      → fresh w.clock (w.pending_redeploys row.id) ≡ some commit
      → w.apps row.id ≡ some row
      → (is_active row && not (is_deleting row.status)) ≡ false
      → let (r, w') = run_pending_redeploy env row.id finished w in
        (r ≡ ok none)
        × (w'.pending_redeploys row.id ≡ none)
        × (w'.queue ≡ w.queue)
        × ((j : ℕ) → w'.apps j ≡ w.apps j)
  unfolding run_pending_redeploy clear_pending_redeploy
  redeploy_dropped finished pending found gone = elim (Bool-cases (is_active row)) [
    | inr e ↦ rw (pending, found, e) (refl, ground arith, refl, λ j. refl)
    | inl e ↦
        rw (pending, found, e)
          (elim (Bool-cases (is_deleting row.status)) [
            | inl d ↦ rw d (refl, ground arith, refl, λ j. refl)
            | inr d ↦ ground arith
          ])
  ]

-- Of two pushes that wait for one app, the later one is what is deployed; pushes of other apps stay.
last_push_wins :
    (app_id : ℕ) (first second : Option String) (w : World)
    → let w' = (queue_pending_redeploy app_id second (queue_pending_redeploy app_id first w).1).1 in
      (fresh w'.clock (w'.pending_redeploys app_id) ≡ some second)
      × ((j : ℕ) → j ≢ app_id → w'.pending_redeploys j ≡ w.pending_redeploys j)
unfolding queue_pending_redeploy
last_push_wins app_id first second w = (ground arith, λ j ne. ground arith)
