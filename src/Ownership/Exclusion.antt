-- ===== src/Ownership/Exclusion.antt =====
-- A task that has lost an app cannot write its status by `save_if_owner`, in any interleaving of the
-- operations of applications/ownership.py and pending_redeploy.py.
use fabroku_back_end.Base.{
  ℕ, String, ◌≡◌, ◌≢◌, refl, ap, ◌∙◌, inl, inr, Option, none, some, List, arith, eq_iff, Bool-cases,
}
use fabroku_back_end.Models.App.{App, AppStatus, Field, is_deleting, set_fields}
use fabroku_back_end.Runtime.World.{
  Env, IsQuiet, World, Task, Table, Call, answered, deploy_app, HasNonEmptyIds,
}
use fabroku_back_end.Runtime.Effects.{change, only_active}
use fabroku_back_end.Ownership.{
  claim_app, save_if_owner, dispatch_app_task, expected_owner, taken_by,
}
use fabroku_back_end.Ownership.Dispatch.{dispatch_taken}
use fabroku_back_end.Ownership.Pending.{
  fresh, redeploy_if_there, redeploy_if_pending, redeploy_app, clear_pending_redeploy,
  run_pending_redeploy,
}

-- The row of `id` says that `t` owns the app and that its status is `s`.
pub record Holds (id : ℕ) (t : String) (s : AppStatus) (w : World) : Type 0 where
  pub row : App
  pub found : w.apps id ≡ some row
  pub owner : row.task_id ≡ some t
  pub status : row.status ≡ s

-- One operation of ownership.py or pending_redeploy.py by a task `t'` that is not `t`, on any app, or
-- one that leaves the apps table alone. The use cases that write the row of an app without asking who
-- owns it are not among the steps: those of service_mgmt, which save `task_id`, create_app.py and
-- update_app.py.
pub data Step (env : Env) (t : String) (w w' : World) : Type 0 where
  save :
      (app : App) (t' : String) (fields : List Field)
      → t' ≢ t
      → w' ≡ (save_if_owner app (some t') fields w).1
      → Step env t w w'
  claim : (app : App) (t' : String) → t' ≢ t → w' ≡ (claim_app app (some t') w).1 → Step env t w w'
  redeploy :
      (app_id : ℕ) (t' : String)
      → t' ≢ t
      → w' ≡ (run_pending_redeploy env app_id (some t') w).1
      → Step env t w w'
  elsewhere : w'.apps ≡ w.apps → Step env t w w'

pub data Reach (env : Env) (t : String) (w : World) : World → Type 0 where
  here : Reach env t w w
  next : {v u : World} → Reach env t w v → Step env t v u → Reach env t w u

module _ (t : String) (id : ℕ) (s : AppStatus) where
  save_if_owner-Holds :
      (app : App) (t' : String) (fields : List Field) (w : World)
      → t' ≢ t
      → Holds id t s w
      → Holds id t s (save_if_owner app (some t') fields w).1
  unfolding save_if_owner
  save_if_owner-Holds app t' fields w ne h = record {
    row = h.row;
    found = ground (arith, eq_iff t t', h.found, h.owner);
    owner = h.owner;
    status = h.status;
  }

  claim_app-Holds :
      (app : App) (t' : String) (w : World)
      → t' ≢ t
      → t ≢ ""
      → Holds id t s w
      → Holds id t s (claim_app app (some t') w).1
  unfolding claim_app
  claim_app-Holds app t' w ne non_empty h = record {
    row = h.row;
    found = ground (arith, eq_iff t t', eq_iff t "", h.found, h.owner);
    owner = h.owner;
    status = h.status;
  }

  dispatch-Holds :
      (env : Env) (app : App) (s' : AppStatus) (t' : String) (task : Task) (w : World)
      → IsQuiet env
      → t' ≢ t
      → Holds id t s w
      → Holds id t s (dispatch_app_task env app s' (some (some t')) task w).1
  unfolding dispatch_app_task
  dispatch-Holds env app s' t' task w q ne h = record {
    row = h.row;
    found =
        let c = Call.enqueue (env.uuid w.issued) task in
        let taken =
          change app.id (expected_owner (some (some t'))) (taken_by s' (env.uuid w.issued))
            w.apps in
        ground
          (arith, eq_iff t t', h.found, h.owner, q w.calls c taken id, q w.calls c taken app.id);
    owner = h.owner;
    status = h.status;
  }

  redeploy_app-Holds :
      (env : Env) (t' : String) (commit : Option String) (app_id : ℕ) (app : App) (w : World)
      → IsQuiet env
      → t' ≢ t
      → Holds id t s w
      → Holds id t s (redeploy_app env (some t') commit app_id app w).1
  unfolding redeploy_app clear_pending_redeploy
  redeploy_app-Holds env t' commit app_id app w q ne h =
      let d =
        dispatch-Holds env app AppStatus.deploying t' (deploy_app app_id commit none) w q ne h in
      record { row = d.row; found = ground (arith, d.found); owner = d.owner; status = d.status }

  redeploy_if_there-Holds :
      (env : Env) (t' : String) (commit : Option String) (app_id : ℕ) (o : Option App) (w : World)
      → IsQuiet env
      → t' ≢ t
      → Holds id t s w
      → Holds id t s (redeploy_if_there env (some t') commit app_id o w).1
  unfolding clear_pending_redeploy
  redeploy_if_there-Holds env t' commit app_id none w q ne h = record {
    row = h.row;
    found = h.found;
    owner = h.owner;
    status = h.status;
  }
  redeploy_if_there-Holds env t' commit app_id (some app) w q ne h =
      elim (Bool-cases (is_deleting app.status)) [
        | inl e ↦ rw e (record { row = h.row; found = h.found; owner = h.owner; status = h.status })
        | inr e ↦ rw e (redeploy_app-Holds env t' commit app_id app w q ne h)
      ]

  redeploy_if_pending-Holds :
      (env : Env) (t' : String) (app_id : ℕ) (o : Option (Option String)) (w : World)
      → IsQuiet env
      → t' ≢ t
      → Holds id t s w
      → Holds id t s (redeploy_if_pending env (some t') app_id o w).1
  redeploy_if_pending-Holds env t' app_id none w q ne h = h
  redeploy_if_pending-Holds env t' app_id (some commit) w q ne h =
      redeploy_if_there-Holds env t' commit app_id (only_active (w.apps app_id)) w q ne h

  Step-Holds :
      (env : Env) {w w' : World}
      → IsQuiet env
      → t ≢ ""
      → Step env t w w'
      → Holds id t s w
      → Holds id t s w'
  unfolding run_pending_redeploy
  Step-Holds env {w} q non_empty (save app t' fields ne e) h =
      rw e (save_if_owner-Holds app t' fields w ne h)
  Step-Holds env {w} q non_empty (claim app t' ne e) h =
      rw e (claim_app-Holds app t' w ne non_empty h)
  Step-Holds env {w} q non_empty (redeploy app_id t' ne e) h = rw e (
      redeploy_if_pending-Holds env t' app_id (fresh w.clock (w.pending_redeploys app_id)) w q ne h)
  Step-Holds env q non_empty (elsewhere e) h = record {
    row = h.row;
    found = ap (λ (f : Table). f id) e ∙ h.found;
    owner = h.owner;
    status = h.status;
  }

  -- While `t` owns an app, no `save_if_owner`, `claim_app` and `run_pending_redeploy` of other tasks,
  -- in whatever order and on whatever apps, change its owner or its status. What writes the row
  -- without these operations is not covered. For an id that is not empty, while nothing else writes
  -- the apps table during calls.
  pub Reach-Holds :
      (env : Env) {w w' : World}
      → IsQuiet env
      → t ≢ ""
      → Holds id t s w
      → Reach env t w w'
      → Holds id t s w'
  Reach-Holds env q non_empty h here = h
  Reach-Holds env q non_empty h (next r step) =
      Step-Holds env q non_empty step (Reach-Holds env q non_empty h r)

-- Among the operations that ask who owns an app, deleting wins: once the broker has taken the delete
-- of an app, whatever other tasks do by `save_if_owner`, `claim_app` and `run_pending_redeploy`, in
-- whatever order, the app stays DELETING and belongs to the delete. Writes that go around these
-- operations, as those of the use cases on services do, are not covered. For an app that is there
-- and task ids that are never empty, while nothing else writes the apps table during calls.
pub delete_wins :
    (env : Env) (app : App) (task : Task) (answer : String) (w : World) {w' : World}
    → IsQuiet env
    → HasNonEmptyIds env
    → w.apps app.id ≡ some app
    → env.text_reply w.calls (Call.enqueue (env.uuid w.issued) task) ≡ answered answer
    → Reach env (env.uuid w.issued) (dispatch_app_task env app AppStatus.deleting none task w).1 w'
    → Holds app.id (env.uuid w.issued) AppStatus.deleting w'
delete_wins env app task answer w q ids found taken r =
    Reach-Holds (env.uuid w.issued) app.id AppStatus.deleting env q (ids w.issued)
      (record {
        row = set_fields (taken_by AppStatus.deleting (env.uuid w.issued)) app;
        found = (dispatch_taken env app AppStatus.deleting task w none answer q found refl taken).1;
        owner = refl;
        status = refl;
      })
      r
