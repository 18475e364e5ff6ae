-- ===== src/Apps/Create/Rows.antt =====
-- What is said of the row of an app while it is created, and the saves of its columns.
use fabroku_back_end.Base.{
  ℕ, String, ◌≡◌, refl, ◌⊎◌, ap, Bool, true, false, not, Option, some, List, arith,
}
use fabroku_back_end.Models.App.{App, AppStatus, Field, set_fields}
use fabroku_back_end.Models.Errors.{Error, message}
use fabroku_back_end.Runtime.World.{Env, World, User, exists_app, create_app, sync_git_streaming}
use fabroku_back_end.Runtime.Effects.{
  Result, ok, err, Action, change, save_fields, save_row, raise_if,
}
use fabroku_back_end.Runtime.Ensures.{Returned, Ensures, WasAnswered, WasFlagged}
use fabroku_back_end.Runtime.Triples.{Row, Outcome, Keeps, Leads}
use fabroku_back_end.Apps.Create.Steps.{build_github_auth_url, previously_owned, sync_failed}
use fabroku_back_end.Apps.Create.{CreateAppCommand, AppCreated, name, running}

-- The row is there, and `P` holds of it.
abbrev pub There : (App → Type 0) → Row
There P o = (row : App) × (o ≡ some row) × P row

module _ (id : ℕ) where
  module _ {A : Type 0} (P : Row) (Q : A → Row) (E : Row) (F : A → Type 0)
      (learn : (a : A) (o : Option App) → P o → F a → Q a o)
      (weaker : (o : Option App) → P o → E o) where
    both : (r : Result A) (o : Option App) → P o → Returned F r → Outcome Q E r o
    both (ok a) o p f = learn a o p f
    both (err e) o p f = weaker o p

    -- A step that leaves the row alone leads to what it ensures.
    pub Leads-Ensures : (m : Action A) → Keeps id P m → Ensures F m → Leads id P m Q E
    Leads-Ensures m k f = record { at = λ w p. both (m w).0 ((m w).1.apps id) (k.at w p) (f.at w) }

  pub saved :
      (fs : List Field) (row : App) (w : World)
      → w.apps id ≡ some row
      → let changed = change id (λ _. true) fs w.apps in
        (save_fields id fs w ≡ (ok tt, record w { apps = changed }))
        × (changed id ≡ some (set_fields fs row))
  saved fs row w found = (ground arith, ground arith)

  pub Leads-save_fields :
      (P Q : App → Type 0) (E : Row) (fs : List Field)
      → ((row : App) → P row → Q (set_fields fs row))
      → Leads id (There P) (save_fields id fs) (λ _. There Q) E
  Leads-save_fields P Q E fs f = record {
    at = λ w (row, found, p).
        rw ((saved fs row w found).0) (set_fields fs row, (saved fs row w found).1, f row p);
  }

pub Leads-save_row :
    (P E : Row) (F : Type 0) (app : App)
    → ((o : Option App) → P o → F)
    → Leads app.id P (save_row app) (λ _ o. (o ≡ some app) × F) E
Leads-save_row P E F app f = record { at = λ w p. (ground arith, f (w.apps app.id) p) }

pub Ensures-raise_if : (b : Bool) (e : Error) → Ensures (λ _. b ≡ true) (raise_if (not b) e)
Ensures-raise_if true e = record { at = λ w. refl }
Ensures-raise_if false e = record { at = λ w. tt }

module _ (env : Env) (cmd : CreateAppCommand) (app : App) (user : User) where
  abbrev pub container : String
  container = name env cmd app user

  -- The row as it is when the `try` begins
  abbrev pub named : App
  named = record app { task_id = cmd.task_id; name_dokku = some container }

  abbrev pub Named : Type 0 → Row
  Named F = There (λ row. (row ≡ named) × F)

  -- The row has the name and the task, whatever else was written.
  abbrev pub Titled : Row
  Titled = There (λ row. (row.name_dokku ≡ some container) × (row.task_id ≡ cmd.task_id))

  -- The row tells of the error.
  abbrev pub Failed : Row
  Failed = There (λ row.
      (row.name_dokku ≡ some container)
      × (row.task_id ≡ cmd.task_id)
      × (row.status ≡ AppStatus.error)
      × ((e : Error) × (row.error_details ≡ some (message e))))

  pub titled : (F : Type 0) (o : Option App) → Named F o → Titled o
  titled F o (row, found, (same, f)) =
      (row, found, (ap (λ r. r.name_dokku) same, ap (λ r. r.task_id) same))

  -- What Dokku said of the container
  abbrev pub Found : Bool → Type 0
  Found true = WasFlagged env (exists_app container) true × (previously_owned env app user ≡ true)
  Found false =
      WasFlagged env (exists_app container) false
      × ((output : String) × WasAnswered env (create_app container) output)

  -- The address of the repository: the app's, or the one with the token of the user
  abbrev pub IsUrl : String → Type 0
  IsUrl url = (url ≡ app.git) ⊎ (url ≡ build_github_auth_url env app.git user.git_token)

  -- A sync of that address was answered, with no failure in its output.
  abbrev pub IsSynced : Type 0
  IsSynced =
      (url : String) × IsUrl url
      × (output : String) × WasAnswered env
          (sync_git_streaming container url app.branch cmd.task_id) output
      × (sync_failed env app user output ≡ false)

  abbrev pub result : String → AppCreated
  result status = record { app_id = app.id; status = status; dokku_app_name = container }

  -- What a creation that returns leaves of the row.
  abbrev pub Created : AppCreated → Row
  Created d o =
      ((d ≡ result "created")
        × Found false
        × IsSynced
        × ((domain : Option String) × (o ≡ some (running env cmd app user domain))))
      ⊎ ((d ≡ result "already_exists") × Found true × (o ≡ some named))

  -- A step that leaves the row alone adds what it ensures to what is known.
  pub Leads-learn :
      {A : Type 0} (F : Type 0) (G : A → Type 0) (m : Action A)
      → Keeps app.id (Named F) m
      → Ensures G m
      → Leads app.id (Named F) m (λ a. Named (F × G a)) Titled
  Leads-learn F G m =
      Leads-Ensures app.id (Named F) (λ a. Named (F × G a)) Titled G
        (λ a o (row, found, (same, f)) g. (row, found, (same, (f, g)))) (titled F) m
