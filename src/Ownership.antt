-- ===== src/Ownership.antt =====
-- applications/ownership.py: which operation owns an app, and who may write its status.
pub mod Pending
pub mod Claim
pub mod Exclusion
pub mod Dispatch
pub mod Redeploy
mod Tests
use fabroku_back_end.Base.{
  ◌++◌, String, Bool, true, false, not, ◌&&◌, ◌||◌, Option, none, some, List, [], ◌∷◌, truthy,
  holds_text, is_some, if◌then◌else◌,
}
use fabroku_back_end.Models.App.{App, AppStatus, is_transient, Field, set_fields}
use fabroku_back_end.Models.Errors.{operation_superseded}
use fabroku_back_end.Runtime.World.{Env, World, Task, TaskState, Call}
use fabroku_back_end.Runtime.Effects.{
  Action, pure, raise, catch, write, update_apps, save_fields, call, draw_id, ◌>>=◌, ◌>>◌,
}

-- `FINISHED_TASK_STATES`
abbrev pub is_finished : TaskState → Bool
is_finished TaskState.success = true
is_finished TaskState.failure = true
is_finished TaskState.revoked = true
is_finished _ = false

abbrev pub state_of : Env → Option String → TaskState
state_of env none = TaskState.pending
state_of env (some t) = env.task_state t

unfoldable pub is_app_busy : Env → App → Bool
is_app_busy env app =
    if is_transient app.status
    then not (truthy app.task_id && is_finished (state_of env app.task_id))
    else false

-- `filter(task_id=expected)`, where `None` is read as `IS NULL`; `ANY_OWNER` filters nothing
abbrev pub expected_owner : Option (Option String) → App → Bool
expected_owner none row = true
expected_owner (some none) row = not (is_some row.task_id)
expected_owner (some (some t)) row = holds_text row.task_id t

-- `Q(task_id=task_id) | Q(task_id__isnull=True) | Q(task_id='')`
abbrev pub claimable : String → App → Bool
claimable t row = holds_text row.task_id t || not (is_some row.task_id) || holds_text row.task_id ""

abbrev pub owned_by : String → App → Bool
owned_by t row = holds_text row.task_id t

abbrev pub taken_by : AppStatus → String → List Field
taken_by status t = Field.status status ∷ Field.task_id (some t) ∷ []

-- `task.apply_async(kwargs=..., task_id=...)`
abbrev enqueue : Env → String → Task → Action (Unit {0})
enqueue env t task = do
  call env (Call.enqueue t task)
  write (λ w. record w { queue = w.queue ++ ((t, task) ∷ []) })

-- The `try` of `dispatch_app_task`: a broker that refuses undoes the status and the owner.
unfoldable pub enqueue_or_undo : Env → App → String → Task → Action (Unit {0})
enqueue_or_undo env app t task = catch (enqueue env t task) λ e. do
  update_apps app.id (owned_by t) (Field.status app.status ∷ Field.task_id app.task_id ∷ [])
  raise e

-- Returns the task's id, or `none` if another dispatch came first, and the object as it is then.
unfoldable pub dispatch_app_task :
    Env → App → AppStatus → Option (Option String) → Task → Action (Option String × App)
unfolding enqueue_or_undo
dispatch_app_task env app new_status expected task = do
  t ← draw_id env
  matched ← update_apps app.id (expected_owner expected) (taken_by new_status t)
  if matched
      then (do
        enqueue_or_undo env app t task
        pure (some t, set_fields (taken_by new_status t) app))
      else pure (none, app)

-- Returns the object with its new owner.
unfoldable pub claim_app : App → Option String → Action App
claim_app app none = pure app
claim_app app (some t) = do
  owned ← update_apps app.id (claimable t) (Field.task_id (some t) ∷ [])
  if owned then pure (record app { task_id = some t }) else raise (operation_superseded app.id)

-- Returns whether it wrote, and the object.
unfoldable pub save_if_owner : App → Option String → List Field → Action (Bool × App)
save_if_owner app none fields = do save_fields app.id fields; pure (true, set_fields fields app)
save_if_owner app (some t) fields = do
  wrote ← update_apps app.id (owned_by t) fields
  pure (if wrote then (true, set_fields fields app) else (false, app))
