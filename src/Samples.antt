-- ===== src/Samples.antt =====
-- Concrete apps, services, environments and states that the tests run on.
use Prim.Native.String.{String}
use fabroku_back_end.Base.{
  refl, none, some, [], ◌∷◌, ◌==◌, true, false, map, upper_text, to_lower, if◌then◌else◌,
}
use fabroku_back_end.Models.App.{App, AppStatus}
use fabroku_back_end.Models.Service.{Service}
use fabroku_back_end.Models.Errors.{decimal}
use fabroku_back_end.Runtime.World.{
  Env, GitSyncPlan, World, IsQuiet, HasNonEmptyIds, answered, failed, TaskState, Table, User, repos,
}

-- An app that runs and that no task owns.
abbrev pub blog : App
blog = record {
  id = 7;
  name = "blog";
  name_dokku = some "blog-7";
  git = "https://github.com/ifc/blog";
  branch = "main";
  project_id = 1;
  status = AppStatus.running;
  domain = some "blog.example.com";
  variables = ("A", "1") ∷ [];
  task_id = none;
  error_type = none;
  error_details = none;
  last_commit_sha = "";
  deleted_at = none;
  deleted_by = none;
}

abbrev pub blog_db : Service
blog_db = record {
  id = 3;
  name = "blog-db";
  user = "postgres";
  password = "secret";
  host = "dokku-postgres-blog-db-7";
  port = 5432;
  app_id = some 7;
  project_id = 1;
  service_type = "postgres";
  container_name = some "blog-db-7";
  env_key = some "DATABASE_URL";
  image = none;
  image_version = none;
  task_id = none;
  deleted_at = none;
  deleted_by = none;
}

abbrev pub table_of : App → Table
table_of app j = if j == app.id then some app else none

abbrev pub world_of : App → World
world_of app = record {
  apps = table_of app;
  services = blog_db ∷ [];
  scales = [];
  pending_redeploys = λ j. none;
  commit_checks = [];
  reconciled = λ j. none;
  deliveries = λ j. [];
  queue = [];
  notices = [];
  logs = [];
  calls = [];
  clock = 1000;
  issued = 4;
}

-- GitHub gives a token, and the address stays the app's.
abbrev pub plan : GitSyncPlan
plan = record { ok = true; git_url = none; message = "token"; token = some "token" }

abbrev pub admin : User
admin = record { id = 9; is_fabric = true; is_superuser = false; git_token = some "token" }

-- Every command answers `text`, the app exists, and no one else writes the apps table.
abbrev pub answering : String → Env
answering text = record {
  text_reply = λ h c. answered text;
  flag_reply = λ h c. answered true;
  domain_reply = λ h c. answered (some "blog.example.com");
  plan_reply = λ h c. answered plan;
  webhook_reply = λ h c. answered (record { ok = true; status = "webhook criado" });
  repos_reply = λ h c. answered (repos (("ifc/blog", true) ∷ []));
  repo_name = λ url. some "ifc/blog";
  users = λ id. some admin;
  upper = upper_text;
  lower = map to_lower;
  new_service_id = λ rows. 4;
  postgis_image = "postgis/postgis";
  postgis_image_version = "16-3.4";
  remote_reply = λ h c. answered none;
  lines = λ h c. "building" ∷ [];
  masked = λ s. s;
  git_token = λ project user. some "token";
  remote_deploy_plugin = true;
  app_process_max_instances = 5;
  meanwhile = λ h c t. t;
  uuid = λ n. String.◌∷◌ "t" (decimal n);
  hex = λ n. String.◌∷◌ "a" (decimal n);
  name_dokku_clashes = λ apps id name. false;
  has_project = λ id. true;
  task_state = λ t. TaskState.started;
}

-- The server and the broker are down.
abbrev pub down : Env
down = record {
  text_reply = λ h c. failed "connection refused";
  flag_reply = λ h c. failed "connection refused";
  domain_reply = λ h c. failed "connection refused";
  plan_reply = λ h c. failed "connection refused";
  webhook_reply = λ h c. failed "connection refused";
  repos_reply = λ h c. failed "connection refused";
  repo_name = λ url. some "ifc/blog";
  users = λ id. some admin;
  upper = upper_text;
  lower = map to_lower;
  new_service_id = λ rows. 4;
  postgis_image = "postgis/postgis";
  postgis_image_version = "16-3.4";
  remote_reply = λ h c. failed "connection refused";
  lines = λ h c. [];
  masked = λ s. s;
  git_token = λ project user. some "token";
  remote_deploy_plugin = true;
  app_process_max_instances = 5;
  meanwhile = λ h c t. t;
  uuid = λ n. String.◌∷◌ "t" (decimal n);
  hex = λ n. String.◌∷◌ "a" (decimal n);
  name_dokku_clashes = λ apps id name. false;
  has_project = λ id. true;
  task_state = λ t. TaskState.started;
}

pub answering-IsQuiet : (text : String) → IsQuiet (answering text)
answering-IsQuiet text h c t j = refl

pub down-IsQuiet : IsQuiet down
down-IsQuiet h c t j = refl

pub answering-HasNonEmptyIds : (text : String) → HasNonEmptyIds (answering text)
answering-HasNonEmptyIds text n = λ e. cc
