-- ===== src/Apps/Views/Laws.antt =====
-- What a request for an app does to it.
use fabroku_back_end.Base.{
  String, ◌≡◌, ◌≢◌, refl, true, false, none, some, [], ◌∷◌, ◌++◌, arith, truthy, if◌then◌else◌,
  eq_iff, inl, inr, Bool-cases,
}
use fabroku_back_end.Models.App.{App, is_transient, set_fields}
use fabroku_back_end.Runtime.World.{Env, IsQuiet, World, AppAction, Call, answered, manage_app}
use fabroku_back_end.Runtime.Effects.{ok}
use fabroku_back_end.Ownership.{is_app_busy, taken_by, is_finished}
use fabroku_back_end.Ownership.Dispatch.{dispatch_taken}
use fabroku_back_end.Apps.Views.{accepted, conflict, action_view, status_of}

module _ (env : Env) (app : App) (w : World) where
  -- A start or restart of an app with a Dokku name does one of two things. If an operation is at
  -- work on the app the answer is 409 and nothing changes, nothing is called. Otherwise the app gets
  -- the transient status and the new task as its owner, and that task is enqueued. For a broker that
  -- takes the task, while no other process writes the apps table.
  pub action_view_lem :
      (action : AppAction) (answer : String)
      → IsQuiet env
      → w.apps app.id ≡ some app
      → truthy app.name_dokku ≡ true
      → env.text_reply w.calls (Call.enqueue (env.uuid w.issued) (manage_app app.id action))
        ≡ answered answer
      → let t = env.uuid w.issued in
        let (r, w') = action_view env action app w in
        if is_app_busy env app
        then (r ≡ ok (conflict app.status)) × (w' ≡ w)
        else ((r ≡ ok (accepted (status_of action) (some t)))
            × (w'.apps app.id ≡ some (set_fields (taken_by (status_of action) t) app))
            × (w'.queue ≡ w.queue ++ ((t, manage_app app.id action) ∷ [])))
  unfolding action_view
  action_view_lem action answer q found named taken = elim (Bool-cases (is_app_busy env app)) [
    | inl busy ↦ rw (named, busy) (refl, refl)
    | inr free ↦
        let (r, row, others, queued) =
          dispatch_taken env app (status_of action) (manage_app app.id action) w none answer q found
            refl taken in
        rw (named, free, r) (refl, row, queued)
  ]

-- Only an operation that is still at work makes an app busy: an app that is busy has a transient
-- status, and the task that owns it has not finished. For an app that a task owns.
is_app_busy_lem :
    (env : Env) (app : App) (t : String)
    → app.task_id ≡ some t
    → t ≢ ""
    → is_app_busy env app ≡ true
    → (is_transient app.status ≡ true) × (is_finished (env.task_state t) ≡ false)
unfolding is_app_busy
is_app_busy_lem env app t owner non_empty busy = (ground arith, ground (arith, eq_iff t ""))
