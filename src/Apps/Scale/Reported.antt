-- ===== src/Apps/Scale/Reported.antt =====
-- What a report of Dokku does to the rows of the processes.
use fabroku_back_end.Base.{
  ℕ, String, true, false, ◌&&◌, ◌==◌, ◌≡◌, refl, Option, none, some, List, [], ◌∷◌, find, str_eq,
  truthy, if◌then◌else◌, arith, eq_iff,
}
use fabroku_back_end.Base.Dict.{Dict, lookup, distinct, lookup-contains}
use fabroku_back_end.Models.App.{App, ProcessScale}
use fabroku_back_end.Runtime.World.{Env, World}
use fabroku_back_end.Runtime.Effects.{ok}
use fabroku_back_end.Dokku.{dokku_scale_output_failed}
use fabroku_back_end.Apps.Scale.Parse.{parse_ps_scale_output, distinct-parse_ps_scale_output}
use fabroku_back_end.Apps.Scale.Sync.{
  is_scale, reported_row, desired_row, put_row, put_rows, sync_app_process_scales_from_dokku,
}

-- A change of a row that leaves its app and its name, and a new row of the process.
pub record PutsRow (app_id : ℕ) (name : String) (f : Option ProcessScale → ProcessScale)
    : Type 0 where
  pub created : (b : ℕ) (m : String) → is_scale b m (f none) ≡ ((app_id == b) && str_eq name m)
  pub changed :
      (row : ProcessScale) (b : ℕ) (m : String) → is_scale b m (f (some row)) ≡ is_scale b m row

find-put_row :
    (f : Option ProcessScale → ProcessScale) (app_id b : ℕ) (name m : String)
    (rows : List ProcessScale)
    → PutsRow app_id name f
    → find (is_scale b m) (put_row f app_id name rows) ≡ (
        if (app_id == b) && str_eq name m
        then some (f (find (is_scale app_id name) rows))
        else find (is_scale b m) rows)
unfolding put_row
find-put_row f app_id b name m [] puts = ground (arith, puts.created b m)
find-put_row f app_id b name m (row ∷ rows) puts = ground (
  arith,
  eq_iff name m,
  eq_iff row.process_name m,
  eq_iff row.process_name name,
  puts.changed row b m,
  find-put_row f app_id b name m rows puts,
)

-- The row of one process after such a loop.
abbrev pub put_by :
    (String → ℕ → Option ProcessScale → ProcessScale)
    → String
    → Option ℕ
    → Option ProcessScale
    → Option ProcessScale
put_by f name none row = row
put_by f name (some n) row = some (f name n row)

-- What is put for each process and its quantity.
abbrev Put : Type 0
Put = String → ℕ → Option ProcessScale → ProcessScale

module _ (f : Put) (app_id : ℕ) (puts : (k : String) (n : ℕ) → PutsRow app_id k (f k n)) where
  pub find-put_rows_other :
      (b : ℕ) (m : String) (processes : Dict ℕ) (rows : List ProcessScale)
      → (app_id == b) ≡ false
      → find (is_scale b m) (put_rows f app_id processes rows) ≡ find (is_scale b m) rows
  unfolding put_rows
  find-put_rows_other b m [] rows ne = refl
  find-put_rows_other b m ((name, n) ∷ processes) rows ne = ground (
    arith,
    find-put_row (f name n) app_id b name m rows (puts name n),
    find-put_rows_other b m processes (put_row (f name n) app_id name rows) ne,
  )

  pub find-put_rows :
      (m : String) (processes : Dict ℕ) (rows : List ProcessScale)
      → distinct processes ≡ true
      → find (is_scale app_id m) (put_rows f app_id processes rows)
        ≡ put_by f m (lookup m processes) (find (is_scale app_id m) rows)
  unfolding put_rows lookup
  find-put_rows m [] rows d = refl
  find-put_rows m ((name, n) ∷ processes) rows d = ground (
    arith,
    eq_iff name m,
    find-put_row (f name n) app_id app_id name m rows (puts name n),
    find-put_rows m processes (put_row (f name n) app_id name rows),
    lookup-contains m processes,
  )

pub reported_row-PutsRow :
    (now app_id : ℕ) (name : String) (n : ℕ) → PutsRow app_id name (reported_row now app_id name n)
reported_row-PutsRow now app_id name n = record { created = λ b m. refl; changed = λ row b m. refl }

pub desired_row-PutsRow :
    (now app_id : ℕ) (name : String) (n : ℕ) → PutsRow app_id name (desired_row now app_id name n)
desired_row-PutsRow now app_id name n = record { created = λ b m. refl; changed = λ row b m. refl }

module _ (env : Env) (app : App) (output : String) (w : World) where
  -- Reading a report of Dokku, once a command has given it, sets the current quantity of every
  -- process of the app that it names, adds the rows that are missing, and changes no other row:
  -- what users asked for stays. For an app with a Dokku name and a report with no failure marker.
  pub find-sync_app_process_scales_from_dokku :
      (m : String)
      → truthy app.name_dokku ≡ true
      → dokku_scale_output_failed output ≡ false
      → let (r, w') = sync_app_process_scales_from_dokku env app (some output) w in
        let parsed = parse_ps_scale_output output in
        (r ≡ ok parsed)
        × (find (is_scale app.id m) w'.scales
            ≡ put_by
                (reported_row w.clock app.id)
                m
                (lookup m parsed)
                (find (is_scale app.id m) w.scales))
  unfolding sync_app_process_scales_from_dokku
  find-sync_app_process_scales_from_dokku m named fine =
      rw (named, fine)
        (
          refl,
          find-put_rows (reported_row w.clock app.id) app.id (reported_row-PutsRow w.clock app.id) m
              (parse_ps_scale_output output) w.scales (distinct-parse_ps_scale_output output),
        )

  pub sync_app_process_scales_other :
      (b : ℕ) (m : String)
      → (app.id == b) ≡ false
      → truthy app.name_dokku ≡ true
      → dokku_scale_output_failed output ≡ false
      → find (is_scale b m) (sync_app_process_scales_from_dokku env app (some output) w).1.scales
        ≡ find (is_scale b m) w.scales
  unfolding sync_app_process_scales_from_dokku
  sync_app_process_scales_other b m ne named fine =
      rw (named, fine)
        (find-put_rows_other (reported_row w.clock app.id) app.id
          (reported_row-PutsRow w.clock app.id) b m (parse_ps_scale_output output) w.scales ne)
