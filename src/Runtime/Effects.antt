-- ===== src/Runtime/Effects.antt =====
-- Methods that change the state and may raise. What was written before a raise stays written, so
-- the state comes back beside the error too.
use fabroku_back_end.Base.{
  ℕ, suc, ◌≡◌, refl, ◌⊎◌, inl, inr, String, Bool, true, false, Option, none, some, List, [], ◌∷◌,
  ◌++◌, ◌==◌, is_some, if◌then◌else◌,
}
use fabroku_back_end.Models.App.{App, Field, set_fields}
use fabroku_back_end.Models.Errors.{Error, database_error, does_not_exist, raised}
use fabroku_back_end.Runtime.World.{
  Env, World, Table, Call, Reply, answered, failed, Level, Category, Notice,
}

pub data Result {ℓ} (A : Type ℓ) : Type ℓ where
  ok : A → Result A
  err : Error → Result A

abbrev pub is_ok {ℓ} : {A : Type ℓ} → Result A → Bool
is_ok (ok _) = true
is_ok (err _) = false

-- To split on a result and keep the equation.
pub Result-cases {ℓ} :
    {A : Type ℓ} (r : Result A) → ((a : A) × (r ≡ ok a)) ⊎ ((e : Error) × (r ≡ err e))
Result-cases (ok a) = inl (a, refl)
Result-cases (err e) = inr (e, refl)

abbrev pub Action {ℓ} : Type ℓ → Type ℓ
Action A = World → Result A × World

module _ {ℓ} {A : Type ℓ} where
  abbrev pub pure : A → Action A
  pure a w = (ok a, w)

  abbrev pub raise : Error → Action A
  raise e w = (err e, w)

  abbrev pub recover : Result A → (Error → Action A) → Action A
  recover (ok a) handle w = (ok a, w)
  recover (err e) handle w = handle e w

  -- `except Exception as e`
  abbrev pub catch : Action A → (Error → Action A) → Action A
  catch m handle w = let (r, w') = m w in recover r handle w'

  abbrev pub or_raise : Error → Option A → Action A
  or_raise e none w = (err e, w)
  or_raise e (some a) w = (ok a, w)

  abbrev pub gets : (World → A) → Action A
  gets f w = (ok (f w), w)

module _ {ℓ κ} {A : Type ℓ} {B : Type κ} where
  abbrev pub continue : Result A → (A → Action B) → Action B
  continue (ok a) f w = f a w
  continue (err e) f w = (err e, w)

  infixl 5 ◌>>=◌
  abbrev pub ◌>>=◌ : Action A → (A → Action B) → Action B
  ◌>>=◌ m f w = let (r, w') = m w in continue r f w'

module _ {ℓ κ} {A : Type ℓ} {B : Type κ} where
  infixl 5 ◌>>◌
  abbrev pub ◌>>◌ : Action A → Action B → Action B
  m >> k = m >>= λ _. k

abbrev pub write : (World → World) → Action (Unit {0})
write f w = (ok tt, f w)

abbrev pub raise_if : Bool → Error → Action (Unit {0})
raise_if b e w = (if b then err e else ok tt, w)

-- `if b:` with no `else`
abbrev pub when : Bool → Action (Unit {0}) → Action (Unit {0})
when true m = m
when false m = pure tt

-- Rows of the apps table that pass a test get new columns; only the row of `id` is looked at.
abbrev pub change_row : (App → Bool) → List Field → Option App → Option App
change_row p fs none = none
change_row p fs (some a) = some (if p a then set_fields fs a else a)

-- `App.objects.filter(id=id).filter(p).update(**fs)`
abbrev pub change : ℕ → (App → Bool) → List Field → Table → Table
change id p fs t j = if j == id then change_row p fs (t j) else t j

-- Whether such an update matched a row.
abbrev pub row_matches : (App → Bool) → Option App → Bool
row_matches p none = false
row_matches p (some a) = p a

abbrev pub update_apps : ℕ → (App → Bool) → List Field → Action Bool
update_apps id p fs w = (ok (row_matches p (w.apps id)), record w { apps = change id p fs w.apps })

-- `app.save(update_fields=[...])`, the object having the new values
abbrev pub save_fields : ℕ → List Field → Action (Unit {0})
save_fields id fs w =
    if is_some (w.apps id)
    then (ok tt, record w { apps = change id (λ _. true) fs w.apps })
    else (err database_error, w)

-- `app.save()` writes all columns, those of the object.
abbrev pub save_row : App → Action (Unit {0})
save_row app w = (ok tt, record w { apps = λ j. if j == app.id then some app else w.apps j })

abbrev pub is_active : App → Bool
is_active a = elim a.deleted_at [ none ↦ true | some _ ↦ false ]

abbrev pub only_active : Option App → Option App
only_active none = none
only_active (some a) = if is_active a then some a else none

-- `App.objects.get(id=id, deleted_at__isnull=True)`
abbrev pub get_active_app : ℕ → Action App
get_active_app id w = or_raise does_not_exist (only_active (w.apps id)) w

abbrev pub log : ℕ → Level → Category → ℕ → Action (Unit {0})
log app_id level category progress w = (
  ok tt,
  record w {
    logs =
        record { app_id = app_id; level = level; category = category; progress = progress }
        ∷ w.logs;
  },
)

abbrev pub notify_admins : Notice → Action (Unit {0})
notify_admins n w = (ok tt, record w { notices = w.notices ++ (n ∷ []) })

module _ (env : Env) where
  -- The state after a call: it is on record, and other processes may have written the apps table.
  abbrev pub after_call : Call → World → World
  after_call c w = record w { calls = c ∷ w.calls; apps = env.meanwhile w.calls c w.apps }

  abbrev pub receive {ℓ} : {A : Type ℓ} → Reply A → Action A
  receive (answered a) w = (ok a, w)
  receive (failed text) w = (err (raised text), w)

  abbrev pub call : Call → Action String
  call c w = receive (env.text_reply w.calls c) (after_call c w)

  abbrev pub ask : Call → Action Bool
  ask c w = receive (env.flag_reply w.calls c) (after_call c w)

  abbrev pub ask_domain : Call → Action (Option String)
  ask_domain c w = receive (env.domain_reply w.calls c) (after_call c w)

  abbrev pub request {ℓ} : {A : Type ℓ} → (List Call → Call → Reply A) → Call → Action A
  request reply c w = receive (reply w.calls c) (after_call c w)

  -- `uuid.uuid4()`
  abbrev pub draw_id : Action String
  draw_id w = (ok (env.uuid w.issued), record w { issued = suc w.issued })

  -- `uuid.uuid4().hex`
  abbrev pub draw_hex : Action String
  draw_hex w = (ok (env.hex w.issued), record w { issued = suc w.issued })
