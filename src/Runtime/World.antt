-- ===== src/Runtime/World.antt =====
-- The state of one installation, and what is not under src/: the server behind the ports, GitHub,
-- the broker, the generator of task ids, and the other processes that write the apps table.
use fabroku_back_end.Base.{ℕ, String, Codes, Bool, true, false, Option, List, ◌≡◌, ◌≢◌}
use fabroku_back_end.Base.Dict.{Dict}
use fabroku_back_end.Models.App.{App, ProcessScale}
use fabroku_back_end.Models.Service.{Service, Plugin}

-- applications/use_cases/manage_app.py: `AppAction`
pub data AppAction : Type 0 where
  start stop restart : AppAction

-- The tasks of applications/tasks.py that take possession of an app, with their arguments.
pub data Task : Type 0 where
  deploy_app : ℕ → Option String → Option ℕ → Task
  manage_app : ℕ → AppAction → Task
  delete_app : ℕ → Option ℕ → Task

-- Every call that leaves the process: `IDokkuPort`, `IGitHubPort`, the two callables that
-- `DeployAppUseCase` is given, and the broker.
pub data Call : Type 0 where
  start_app stop_app restart_app delete_app cleanup_app exists_app : String → Call
  get_app_domain enable_letsencrypt : String → Call
  set_config : String → Dict String → Call
  get_config : String → String → Call
  sync_git_streaming : String → String → String → Option String → Call
  ps_scale : String → Dict ℕ → Call
  ps_scale_report : String → Call
  start_database remove_container : String → Call
  unlink_service : Plugin → String → String → Call
  delete_service : Plugin → String → Call
  promote_database : String → String → Call
  unset_config : String → String → Bool → Call
  set_deploy_pending set_deploy_success : String → String → String → String → Call
  set_deploy_failure : String → String → String → String → String → Call
  ensure_github_webhook resolve_git_sync_plan : ℕ → Option ℕ → Call
  ps_report : String → String → Call
  cancel_remote_deploy get_remote_deploy_status : String → Call
  remove_webhook : ℕ → Option ℕ → Call
  create_app : String → Call
  rename_app set_git_remote : String → String → Call
  -- `set_config` is that without a restart.
  set_config_restarting : String → Dict String → Call
  list_user_repos : ℕ → Call
  get_branch_head_sha : String → String → ℕ → Call
  create_database : String → String → Option String → Option String → Call
  create_redis start_redis stop_database enable_postgis : String → Call
  -- plugin, service, app, `no_restart`, alias
  link_service : Plugin → String → String → Bool → Option String → Call
  enqueue : String → Task → Call
  -- celery's `revoke(terminate=True, signal='SIGTERM')`
  revoke : String → Call

-- What a call gives: an answer, or an exception with its text.
pub data Reply {ℓ} (A : Type ℓ) : Type ℓ where
  answered : A → Reply A
  failed : String → Reply A

abbrev pub is_answered {ℓ} : {A : Type ℓ} → Reply A → Bool
is_answered (answered _) = true
is_answered (failed _) = false

-- applications/github_integration.py: `GitSyncPlan`; no other field is read by a deploy.
pub record GitSyncPlan : Type 0 where
  pub ok : Bool
  pub git_url : Option String
  pub message : String
  pub token : Option String

-- What `ensure_github_webhook` answers: `result['ok']` and `result['status']`.
pub record Webhook : Type 0 where
  pub ok : Bool
  pub status : String

-- When a build ended: a time, or what Python cannot subtract from the present, which is a date
-- without a time zone or a value that is no text
pub data FinishedAt : Type 0 where
  at_time : ℕ → FinishedAt
  unusable : FinishedAt

-- What the plugin of the server answers about a build: `state` and `finished_at`, which is `none`
-- where the text is missing or not a date.
pub record RemoteDeploy : Type 0 where
  pub state : String
  pub finished_at : Option FinishedAt

-- What `list_user_repos` answers: `OrgPermissionDenied` with its `help_url`, or the repositories by
-- their full names, and whether they are private.
pub data Repos : Type 0 where
  denied : String → Repos
  repos : Dict Bool → Repos

-- identity/models.py: `User`, as far as the use cases read it
pub record User : Type 0 where
  pub id : ℕ
  pub is_fabric : Bool
  pub is_superuser : Bool
  pub git_token : Option String

-- celery's task states
pub data TaskState : Type 0 where
  pending started retry success failure revoked : TaskState

pub data Level : Type 0 where
  info warning error success dokku : Level

pub data Category : Type 0 where
  system create deploy git config database ssl : Category

-- `AppLog`, without its text
pub record Log : Type 0 where
  pub app_id : ℕ
  pub level : Level
  pub category : Category
  pub progress : ℕ

-- `AdminNotification`, without its texts
pub data Notice : Type 0 where
  app_delete_failed : ℕ → Notice
  service_delete_failed : ℕ → Notice

-- A cache entry is read before its deadline only.
pub record Cached {ℓ} (A : Type ℓ) : Type ℓ where
  pub value : A
  pub deadline : ℕ

abbrev pub Table : Type 0
Table = ℕ → Option App

pub record World : Type 0 where
  pub apps : Table
  pub services : List Service
  pub scales : List ProcessScale
  -- `app-pending-redeploy:{app_id}`
  pub pending_redeploys : ℕ → Option (Cached (Option String))
  -- `deploy-commit-status-pending:{task_id}`
  pub commit_checks : Dict (Cached String)
  -- `remote-deploy-reconcile:{app_id}`, with its deadline
  pub reconciled : ℕ → Option ℕ
  -- `github-webhook-delivery:{app_id}:{delivery_id}`, with its deadline
  pub deliveries : ℕ → Dict ℕ
  pub queue : List (String × Task)
  pub notices : List Notice
  -- The newest entry stands first in these two.
  pub logs : List Log
  pub calls : List Call
  -- `timezone.now()`, in seconds
  pub clock : ℕ
  -- how many task ids have been drawn
  pub issued : ℕ

-- What a call gives may depend on all calls made before it. While a call runs, other processes
-- may write the apps table: `meanwhile`.
pub record Env : Type 0 where
  pub text_reply : List Call → Call → Reply String
  pub flag_reply : List Call → Call → Reply Bool
  pub domain_reply : List Call → Call → Reply (Option String)
  pub plan_reply : List Call → Call → Reply GitSyncPlan
  pub webhook_reply : List Call → Call → Reply Webhook
  pub remote_reply : List Call → Call → Reply (Option RemoteDeploy)
  pub repos_reply : List Call → Call → Reply Repos
  -- the lines that a command streams before it ends
  pub lines : List Call → Call → List String
  -- `mask_git_credentials`, which stands on Python's `urllib` and `re`
  pub masked : String → String
  -- `parse_github_repo_name`, which stands on the same two
  pub repo_name : String → Option String
  -- the users, whom no operation here writes
  pub users : ℕ → Option User
  -- `str.upper` and `str.lower`
  pub upper : String → String
  pub lower : Codes → Codes
  -- the id that the database gives to a new row of services
  pub new_service_id : List Service → ℕ
  -- `settings.FABROKU_POSTGIS_IMAGE` and `settings.FABROKU_POSTGIS_IMAGE_VERSION`
  pub postgis_image : String
  pub postgis_image_version : String
  -- the GitHub token of the first user of a project who has one, a given user before the others
  pub git_token : ℕ → ℕ → Option String
  -- `settings.DOKKU_REMOTE_DEPLOY_PLUGIN` and `settings.APP_PROCESS_MAX_INSTANCES`
  pub remote_deploy_plugin : Bool
  pub app_process_max_instances : ℕ
  pub meanwhile : List Call → Call → Table → Table
  -- `str(uuid.uuid4())`, the n-th one drawn
  pub uuid : ℕ → String
  -- `uuid.uuid4().hex` of the same
  pub hex : ℕ → String
  -- whether another active app than this one has the name, as the constraint
  -- `unique_active_app_name_dokku` asks
  pub name_dokku_clashes : Table → ℕ → String → Bool
  -- whether there is an active project of this id
  pub has_project : ℕ → Bool
  -- `AsyncResult(task_id).state`
  pub task_state : String → TaskState

-- No other process writes the apps table while a call runs.
abbrev pub IsQuiet : Env → Type 0
IsQuiet env = (h : List Call) (c : Call) (t : Table) (id : ℕ) → env.meanwhile h c t id ≡ t id

-- Task ids are never the empty text.
abbrev pub HasNonEmptyIds : Env → Type 0
HasNonEmptyIds env = (n : ℕ) → env.uuid n ≢ ""
