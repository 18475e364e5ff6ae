-- ===== src/Lib.antt =====
-- Fabroku back end: a platform that deploys the apps of its users on a Dokku server.
--
-- The program is a Django project under src/. REST views (src/applications/views.py) take possession
-- of an app and enqueue a celery task (src/applications/tasks.py), which runs a use case
-- (src/applications/use_cases/). A use case writes the tables apps and services and talks to Dokku,
-- GitHub and the broker through ports. Which operation owns an app, and may write its status, is
-- decided by src/applications/ownership.py; a push that comes while an app is busy waits in the cache
-- (src/applications/pending_redeploy.py). Besides, clients open interactive sessions, which a runner
-- process claims and drives (src/interactive_sessions/, src/core/apps/mixins/apps/interactive_run.py).
--
-- The files:
--   Base            numbers, texts, lists and dictionaries as Python has them
--   Models          src/applications/models.py, src/service_mgmt/models.py and service_types.py,
--                   src/applications/domain/exceptions.py
--   Runtime         the state (World), what is not under src/ (Env), and actions that may raise
--                   (Effects). A raise keeps what was written. Frame, Ensures and Triples
--                   are predicates on actions: one leaves the tables alone, one returns only values
--                   with a property, one leads the row of an app from a condition to another.
--   Ownership       src/applications/ownership.py: is_app_busy, dispatch_app_task, claim_app,
--                   save_if_owner. Pending is src/applications/pending_redeploy.py. Exclusion has the
--                   interleavings of tasks as a step relation.
--   Dokku           how outputs are read: dokku_output_failed, check_dokku_output and their kin
--   Apps            Manage, Delete, Deploy and Databases are src/applications/use_cases/manage_app.py,
--                   delete_app.py and deploy_app.py, and Create is create_app.py beside them. Scale is
--                   src/applications/process_scale.py, and its UseCase scale_processes.py; Remote is
--                   src/applications/remote_deploy.py; Tasks is src/applications/tasks.py; Views and
--                   Cancel are src/applications/views.py, Cancel being its stop. Commands is
--                   src/core/apps/mixins/apps/run_data.py, and its Allowed run_command.py beside it;
--                   its Shell has a shell that reads a command line. Webhook is
--                   src/infrastructure/adapters/utils/git_webhook.py.
--   Services        Create, Link, Unlink and Delete are src/service_mgmt/use_cases/create_service.py,
--                   link_service.py, unlink_service.py and delete_service.py; Urls is
--                   src/core/apps/mixins/services/database_url.py, Promote and Remote are
--                   service_dokku.py beside it, and EnvKeys is service_env.py. Rows has the saves of a
--                   row and the rules for what a use case leaves of it.
--   Sessions        Model is src/interactive_sessions/models.py; Rows, Operations, Terminal and Loop
--                   are src/core/apps/mixins/apps/interactive_run.py, by what they do to a row, to
--                   the tables, to the printed text, and in a loop; Runners is
--                   src/interactive_sessions/interactive_runner.py. Requests has the transactions on
--                   rows and chunks as one type, and a list of them for an interleaving.
--   Domain          src/applications/domain/validators.py and slugify_dokku of
--                   src/core/apps/utils.py; Texts has the same on texts
--   Samples         concrete data for the tests, which stand in files called Tests
--
-- What is outside. An Env answers each call by all calls made before it, so nothing is assumed of
-- Dokku, GitHub or the broker; it also says how other processes write the apps table while a call
-- runs. IsQuiet says that they do not. Other processes are not modelled between two calls of one
-- action. The regular expressions of prompts, str.lower of names, the cipher and the settings are
-- parameters; IsCipher and IsLower are what is assumed of two of them.
--
-- Bounds. The loops recurse on lists: the linked services, the streamed lines, the processes, the
-- chunks, the polls of a channel. A list of polls that runs out is a session that still runs. The
-- loops over numbered keys and names have two steps of fuel more than there are rows that count,
-- which is enough since the candidates differ. The decimal text of n has n + 1 steps of fuel, and n
-- has no more digits than that.
--
-- What is left out. Texts of log lines, of notifications and of status events; created_at,
-- updated_at, created_by, port and help_url; publications on the channel layer. Times are whole
-- seconds. The progress of a delete is computed by whole numbers, not floats. The name of a class
-- that stands for an empty error text is "Exception". str.lower in the search for markers is that
-- of ASCII, for the terminal that of Latin-1; the markers are within. Rows of a table keep the
-- order of their creation, and the chunks of a session that of their sequence. A call that is given
-- a user passes the id. What the creation of an app reads of users is the parameter users, whether
-- another active app has its name in Dokku is name_dokku_clashes, and parse_github_repo_name is
-- repo_name. The registration and the update of apps are not modelled; the cache never fails;
-- resolve_git_sync_plan, ensure_github_webhook and mask_git_credentials are parameters of a deploy.
-- Names of processes, and what Dokku reports of them, have ASCII letters and digits.
pub mod Base
pub mod Models
pub mod Runtime
pub mod Ownership
pub mod Samples
pub mod Dokku
pub mod Apps
pub mod Services
pub mod Sessions
pub mod Domain
