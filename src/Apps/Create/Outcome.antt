-- ===== src/Apps/Create/Outcome.antt =====
-- How the creation of an app ends: what the row of the app says afterwards.
use fabroku_back_end.Base.{
  ℕ, ◌≡◌, refl, ap, ◌∙◌, inr, String, true, false, Option, List, none, some, [], ◌∷◌,
}
use fabroku_back_end.Base.Dict.{Dict}
use fabroku_back_end.Models.App.{App, Field}
use fabroku_back_end.Runtime.World.{Env, World, User, IsQuiet, Table, Level, Category}
use fabroku_back_end.Runtime.Effects.{Result, ok, change, catch, log, is_active}
use fabroku_back_end.Runtime.Triples.{Row, Outcome, Leads, Leads-pure, Leads-bind, Leads-catch}
use fabroku_back_end.Apps.Create.{
  CreateAppCommand, AppCreated, check_env_vars, variables_of, prepare, record_failure, go_on,
  create, execute,
}
use fabroku_back_end.Apps.Create.Steps.{assign_dokku_name}
use fabroku_back_end.Apps.Create.Rows.{
  saved, container, named, Named, Titled, Failed, Created, result,
}
use fabroku_back_end.Apps.Create.Prepare.{Prepared, Leads-prepare}
use fabroku_back_end.Apps.Create.Build.{Leads-record_failure, Leads-build}

module _ (env : Env) (q : IsQuiet env) (cmd : CreateAppCommand) (app : App) (user : User) where
  Leads-go_on :
      (prepared : Option (String × Option String))
      → Leads app.id
          (Prepared env q cmd app user prepared)
          (go_on env cmd app user prepared)
          (Created env cmd app user)
          (Failed env cmd app user)
  Leads-go_on none =
      Leads-pure app.id (Prepared env q cmd app user none) (Created env cmd app user)
        (Failed env cmd app user) (result env cmd app user "already_exists")
        (λ o (row, found, (same, there)). inr (refl, there, found ∙ ap some same))
  Leads-go_on (some (url, head_sha)) =
      Leads-catch app.id _ _ _ (Titled env cmd app user) _ _
        (Leads-build env q cmd app user url head_sha)
        (λ e. Leads-record_failure env q cmd app user head_sha e (Created env cmd app user))

  Leads-create :
      Leads app.id
        (Named env cmd app user Unit)
        (create env cmd app user)
        (Created env cmd app user)
        (Failed env cmd app user)
  unfolding create
  Leads-create =
      let E = Failed env cmd app user in
      let R = Prepared env q cmd app user in
      Leads-bind app.id (Named env cmd app user Unit) (Created env cmd app user) E R
        (catch (prepare env cmd app user) (record_failure env cmd app user none)) _
        (Leads-catch app.id (Named env cmd app user Unit) R E (Titled env cmd app user)
          (prepare env cmd app user) _ (Leads-prepare env q cmd app user)
          (λ e. Leads-record_failure env q cmd app user none e R))
        Leads-go_on

-- A save of columns of a row that is there
abbrev written : ℕ → List Field → World → World
written id fs w = record w { apps = change id (λ _. true) fs w.apps }

-- What the command has done before the `try`
abbrev before : Env → CreateAppCommand → App → User → World → World
before env cmd app user w =
    let w' = written app.id (Field.task_id cmd.task_id ∷ []) w in
    written app.id (Field.name_dokku (some (container env cmd app user)) ∷ [])
      (log app.id Level.info Category.create 2 w').1

assign-named :
    (env : Env) (cmd : CreateAppCommand) (app row : App) (user : User) (w : World)
    → w.apps app.id ≡ some row
    → ((t : Table) → env.name_dokku_clashes t app.id (container env cmd app user) ≡ false)
    → assign_dokku_name env app user w
      ≡ (ok tt, written app.id (Field.name_dokku (some (container env cmd app user)) ∷ []) w)
unfolding assign_dokku_name
assign-named env cmd app row user w found free = rw (free w.apps, found) refl

abbrev pub command : App → ℕ → Option (Dict String) → Option String → CreateAppCommand
command app user_id env_vars task_id = record {
  app_id = app.id;
  user_id = user_id;
  env_vars = env_vars;
  task_id = task_id;
}

module _ (env : Env) (app : App) (user : User) (user_id : ℕ) (env_vars : Option (Dict String))
    (task_id : Option String) (w : World) where
  abbrev cmd : CreateAppCommand
  cmd = command app user_id env_vars task_id

  execute-begun :
      w.apps app.id ≡ some app
      → is_active app ≡ true
      → env.users user_id ≡ some user
      → check_env_vars (variables_of env_vars) w ≡ (ok tt, w)
      → ((t : Table) → env.name_dokku_clashes t app.id (container env cmd app user) ≡ false)
      → execute env cmd w ≡ create env cmd app user (before env cmd app user w)
  unfolding execute
  execute-begun found active known valid free =
      let fs = Field.task_id task_id ∷ [] in
      let taken = record app { task_id = task_id } in
      let w' = (log app.id Level.info Category.create 2 (written app.id fs w)).1 in
      rw
        (
          found,
          active,
          known,
          valid,
          (saved app.id fs app w found).0,
          assign-named env cmd app taken user w' (saved app.id fs app w found).1 free,
        )
        refl

  before-named :
      w.apps app.id ≡ some app
      → (before env cmd app user w).apps app.id ≡ some (named env cmd app user)
  before-named found =
      let fs = Field.task_id task_id ∷ [] in
      let taken = record app { task_id = task_id } in
      let w' = (log app.id Level.info Category.create 2 (written app.id fs w)).1 in
      (saved app.id (Field.name_dokku (some (container env cmd app user)) ∷ []) taken w'
        (saved app.id fs app w found).1).1

-- How the creation of an app ends in its row.
abbrev pub Ends : Env → CreateAppCommand → App → User → Result AppCreated → Row
Ends env cmd app user = Outcome (Created env cmd app user) (Failed env cmd app user)

-- The creation of an app never says RUNNING of code that it has not synced, and never adopts the
-- container of another app. If it returns `created`, Dokku had said that it has no container of this
-- name, it had answered the command that makes one, which the use case takes whatever it tells, it
-- answered the sync of the app's address, or of the same with the token of the user, with an output
-- that shows no failure, and the row is the app RUNNING with this name. If it returns
-- `already_exists`, Dokku had the container and the row had its name before. If it raises, the row
-- has the name, says ERROR and tells of an error. For an active app and a known user, when the
-- variables are valid and no other active app has the name, while no other process writes the apps
-- table.
pub create-Ends :
    (env : Env) (app : App) (user : User) (user_id : ℕ) (env_vars : Option (Dict String))
    (task_id : Option String) (w : World)
    → IsQuiet env
    → w.apps app.id ≡ some app
    → is_active app ≡ true
    → env.users user_id ≡ some user
    → check_env_vars (variables_of env_vars) w ≡ (ok tt, w)
    → let cmd = command app user_id env_vars task_id in
      ((t : Table) → env.name_dokku_clashes t app.id (container env cmd app user) ≡ false)
      → let (r, w') = execute env cmd w in Ends env cmd app user r (w'.apps app.id)
create-Ends env app user user_id env_vars task_id w q found active known valid free =
    let cmd = command app user_id env_vars task_id in
    rw (execute-begun env app user user_id env_vars task_id w found active known valid free) (
      (Leads-create env q cmd app user).at (before env cmd app user w) (
        named env cmd app user,
        before-named env app user user_id env_vars task_id w found,
        (refl, tt),
      ))
