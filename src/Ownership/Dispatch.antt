-- ===== src/Ownership/Dispatch.antt =====
-- What `dispatch_app_task` does, by what the table and the broker say.
use fabroku_back_end.Base.{
  ℕ, ◌++◌, String, ◌≡◌, ◌≢◌, Option, none, some, false, true, [], ◌∷◌, arith, holds_text_self,
}
use fabroku_back_end.Models.App.{App, AppStatus, set_fields}
use fabroku_back_end.Models.Errors.{raised}
use fabroku_back_end.Runtime.World.{Env, IsQuiet, World, Task, Call, answered, failed}
use fabroku_back_end.Runtime.Effects.{ok, err, row_matches, change}
use fabroku_back_end.Ownership.{dispatch_app_task, expected_owner, taken_by}

module _ (env : Env) (app : App) (s : AppStatus) (task : Task) (w : World) where
  -- Another operation owns the app: nothing is written, nothing is enqueued, nothing is called.
  pub dispatch_lost :
      (e : Option String)
      → row_matches (expected_owner (some e)) (w.apps app.id) ≡ false
      → let (r, w') = dispatch_app_task env app s (some e) task w in
        (r ≡ ok (none, app))
        × ((j : ℕ) → w'.apps j ≡ w.apps j)
        × (w'.queue ≡ w.queue)
        × (w'.calls ≡ w.calls)
  unfolding dispatch_app_task
  dispatch_lost e h = (ground arith, λ j. ground arith, ground arith, ground arith)

  -- If the broker refuses the task, the dispatch raises the broker's error, every row of the apps
  -- table is as before, and nothing is enqueued. For an app whose object is its row and that has the
  -- expected owner, while no other process writes the apps table.
  pub dispatch_refused :
      (e : Option (Option String)) (text : String)
      → IsQuiet env
      → w.apps app.id ≡ some app
      → expected_owner e app ≡ true
      → env.text_reply w.calls (Call.enqueue (env.uuid w.issued) task) ≡ failed text
      → let (r, w') = dispatch_app_task env app s e task w in
        (r ≡ err (raised text)) × ((j : ℕ) → w'.apps j ≡ w.apps j) × (w'.queue ≡ w.queue)
  unfolding dispatch_app_task
  dispatch_refused e text q f m b =
      let t = env.uuid w.issued in
      let c = Call.enqueue t task in
      let taken = change app.id (expected_owner e) (taken_by s t) w.apps in
      (
        ground arith,
        λ j. ground (arith, holds_text_self t, q w.calls c taken j, q w.calls c taken app.id),
        ground arith,
      )

  -- The broker takes the task: the app is its, and no other app has changed.
  pub dispatch_taken :
      (e : Option (Option String)) (answer : String)
      → IsQuiet env
      → w.apps app.id ≡ some app
      → expected_owner e app ≡ true
      → env.text_reply w.calls (Call.enqueue (env.uuid w.issued) task) ≡ answered answer
      → let t = env.uuid w.issued in
        let (r, w') = dispatch_app_task env app s e task w in
        (r ≡ ok (some t, set_fields (taken_by s t) app))
        × (w'.apps app.id ≡ some (set_fields (taken_by s t) app))
        × ((j : ℕ) → j ≢ app.id → w'.apps j ≡ w.apps j)
        × (w'.queue ≡ w.queue ++ ((t, task) ∷ []))
  unfolding dispatch_app_task
  dispatch_taken e answer q f m b =
      let t = env.uuid w.issued in
      let c = Call.enqueue t task in
      let taken = change app.id (expected_owner e) (taken_by s t) w.apps in
      (
        ground arith,
        ground (arith, q w.calls c taken app.id),
        λ j ne. ground (arith, q w.calls c taken j),
        ground arith,
      )
