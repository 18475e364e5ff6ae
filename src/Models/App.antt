-- ===== src/Models/App.antt =====
-- applications/models.py: `AppStatus`, `TRANSIENT_APP_STATUSES`, `App`, `AppProcessScale`.
use fabroku_back_end.Base.{ℕ, String, Bool, true, false, Option, some, List, [], ◌∷◌, get_or}
use fabroku_back_end.Base.Dict.{Dict}

pub data AppStatus : Type 0 where
  starting running stopped stopping restarting error deleting deploying deleted : AppStatus

-- `app.status in TRANSIENT_APP_STATUSES`
abbrev pub is_transient : AppStatus → Bool
is_transient AppStatus.starting = true
is_transient AppStatus.stopping = true
is_transient AppStatus.restarting = true
is_transient AppStatus.deploying = true
is_transient AppStatus.deleting = true
is_transient _ = false

abbrev pub is_deleting : AppStatus → Bool
is_deleting AppStatus.deleting = true
is_deleting _ = false

abbrev pub is_deploying : AppStatus → Bool
is_deploying AppStatus.deploying = true
is_deploying _ = false

pub record App : Type 0 where
  pub id : ℕ
  pub name : String
  pub name_dokku : Option String
  pub git : String
  pub branch : String
  pub project_id : ℕ
  pub status : AppStatus
  pub domain : Option String
  pub variables : Dict String
  pub task_id : Option String
  pub error_type : Option String
  pub error_details : Option String
  pub last_commit_sha : String
  pub deleted_at : Option ℕ
  pub deleted_by : Option ℕ

-- A column with its new value, as in `update(status=...)` and `save(update_fields=[...])`.
pub data Field : Type 0 where
  status : AppStatus → Field
  name_dokku : Option String → Field
  domain : Option String → Field
  variables : Dict String → Field
  task_id : Option String → Field
  error_type : Option String → Field
  error_details : Option String → Field
  last_commit_sha : String → Field
  deleted_at : Option ℕ → Field
  deleted_by : Option ℕ → Field

abbrev pub set_field : Field → App → App
set_field (Field.status v) a = record a { status = v }
set_field (Field.name_dokku v) a = record a { name_dokku = v }
set_field (Field.domain v) a = record a { domain = v }
set_field (Field.variables v) a = record a { variables = v }
set_field (Field.task_id v) a = record a { task_id = v }
set_field (Field.error_type v) a = record a { error_type = v }
set_field (Field.error_details v) a = record a { error_details = v }
set_field (Field.last_commit_sha v) a = record a { last_commit_sha = v }
set_field (Field.deleted_at v) a = record a { deleted_at = v }
set_field (Field.deleted_by v) a = record a { deleted_by = v }

-- `for name, value in fields.items(): setattr(app, name, value)`
abbrev pub set_fields : List Field → App → App
set_fields [] a = a
set_fields (f ∷ fs) a = set_fields fs (set_field f a)

-- The columns that `soft_delete` saves; `now` is `timezone.now()`, and a falsy id keeps the old one.
abbrev pub soft_delete_fields : ℕ → Option ℕ → App → List Field
soft_delete_fields now (some (ℕ.suc n)) a =
    Field.status AppStatus.deleted
    ∷ Field.deleted_at (some (get_or a.deleted_at now))
    ∷ Field.deleted_by (some (ℕ.suc n))
    ∷ []
soft_delete_fields now _ a =
    Field.status AppStatus.deleted
    ∷ Field.deleted_at (some (get_or a.deleted_at now))
    ∷ Field.deleted_by a.deleted_by
    ∷ []

pub record ProcessScale : Type 0 where
  pub app_id : ℕ
  pub process_name : String
  pub desired_quantity : ℕ
  pub current_quantity : ℕ
  pub last_synced_at : Option ℕ
