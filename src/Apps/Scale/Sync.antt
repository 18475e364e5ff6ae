-- ===== src/Apps/Scale/Sync.antt =====
-- The rows of applications/process_scale.py: what Dokku reports is kept next to what was asked for.
-- The pair of an app and a process name is unique in the table.
use fabroku_back_end.Base.{
  ℕ, String, Bool, true, not, ◌&&◌, ◌==◌, Option, none, some, List, [], ◌∷◌, any, str_eq, truthy,
  or_else, if◌then◌else◌,
}
use fabroku_back_end.Base.Dict.{Dict, insert, lookup}
use fabroku_back_end.Models.App.{App, ProcessScale}
use fabroku_back_end.Models.Errors.{runtime_error}
use fabroku_back_end.Runtime.World.{Env, ps_scale, ps_scale_report, Level, Category}
use fabroku_back_end.Runtime.Effects.{Action, pure, raise_if, gets, write, log, call, ◌>>=◌, ◌>>◌}
use fabroku_back_end.Dokku.{dokku_scale_output_failed}
use fabroku_back_end.Apps.Scale.{is_manageable_process_name}
use fabroku_back_end.Apps.Scale.Parse.{parse_ps_scale_output}

abbrev pub is_scale : ℕ → String → ProcessScale → Bool
is_scale app_id name row = (row.app_id == app_id) && str_eq row.process_name name

-- The row of a process after Dokku has reported `quantity`.
abbrev pub reported_row : ℕ → ℕ → String → ℕ → Option ProcessScale → ProcessScale
reported_row now app_id name quantity none = record {
  app_id = app_id;
  process_name = name;
  desired_quantity = quantity;
  current_quantity = quantity;
  last_synced_at = some now;
}
reported_row now app_id name quantity (some row) = record row {
  current_quantity = quantity;
  last_synced_at = some now;
}

-- The row of a process after a user has asked for `quantity`.
abbrev pub desired_row : ℕ → ℕ → String → ℕ → Option ProcessScale → ProcessScale
desired_row now app_id name quantity none = reported_row now app_id name quantity none
desired_row now app_id name quantity (some row) = record row {
  desired_quantity = quantity;
  current_quantity = quantity;
  last_synced_at = some now;
}

-- `get_or_create` and `update_or_create`: the row of the process is changed, or a new one added.
unfoldable pub put_row :
    (Option ProcessScale → ProcessScale) → ℕ → String → List ProcessScale → List ProcessScale
put_row f app_id name [] = f none ∷ []
put_row f app_id name (row ∷ rows) =
    if is_scale app_id name row then f (some row) ∷ rows else row ∷ put_row f app_id name rows

-- The loops of the two functions below, over the processes and their quantities.
unfoldable pub put_rows :
    (String → ℕ → Option ProcessScale → ProcessScale)
    → ℕ
    → Dict ℕ
    → List ProcessScale
    → List ProcessScale
put_rows f app_id [] rows = rows
put_rows f app_id ((name, quantity) ∷ processes) rows =
    put_rows f app_id processes (put_row (f name quantity) app_id name rows)

-- The quantities of the rows that `sync_app_process_scales_from_dokku` returns, by name.
abbrev pub Detected : Type 0
Detected = Dict ℕ

module _ (env : Env) where
  -- `output if output is not None else dokku_adapter.ps_scale_report(...)`
  abbrev pub output_or_report : String → Option String → Action String
  output_or_report name (some output) = pure output
  output_or_report name none = call env (ps_scale_report name)

  unfoldable pub sync_app_process_scales_from_dokku : App → Option String → Action Detected
  sync_app_process_scales_from_dokku app output = do
    raise_if (not (truthy app.name_dokku)) (runtime_error "App nao tem name_dokku configurado.")
    scale_output ← output_or_report (or_else app.name_dokku "") output
    raise_if (dokku_scale_output_failed scale_output) (runtime_error scale_output)
    let parsed = parse_ps_scale_output scale_output in
        do
          write λ w. record w {
            scales = put_rows (reported_row w.clock app.id) app.id parsed w.scales;
          }
          pure parsed

-- `process_name__in=process_names`, if there are any
abbrev is_wanted : Option (List String) → String → Bool
is_wanted none name = true
is_wanted (some names) name = any (str_eq name) names

abbrev collect_saved : ℕ → Option (List String) → List ProcessScale → Dict ℕ → Dict ℕ
collect_saved app_id names [] saved = saved
collect_saved app_id names (row ∷ rows) saved = collect_saved app_id names rows (
    if (row.app_id == app_id)
      && is_wanted names row.process_name
      && is_manageable_process_name row.process_name
    then insert row.process_name row.desired_quantity saved
    else saved)

unfoldable pub get_saved_process_quantities : ℕ → Option (List String) → List ProcessScale → Dict ℕ
get_saved_process_quantities app_id names rows = collect_saved app_id names rows []

unfoldable pub save_desired_process_quantities : ℕ → Dict ℕ → Action (Unit {0})
save_desired_process_quantities app_id processes =
    write λ w. record w { scales = put_rows (desired_row w.clock app_id) app_id processes w.scales }

-- Saved processes that Dokku reports with another quantity.
abbrev pub differing : Dict ℕ → Detected → Dict ℕ
differing [] current = []
differing ((name, quantity) ∷ saved) current =
    let rest = differing saved current in
    elim (lookup name current) [
      | none ↦ rest
      | some now ↦ if quantity == now then rest else (name, quantity) ∷ rest
    ]

module _ (env : Env) (app : App) (progress : ℕ) where
  abbrev name_dokku : String
  name_dokku = or_else app.name_dokku ""

  unfoldable pub reapply : Dict ℕ → Action (Dict ℕ)
  reapply [] = pure []
  reapply (p ∷ saved) = do
    output ← call env (ps_scale name_dokku (p ∷ saved))
    log app.id Level.dokku Category.system progress
    raise_if (dokku_scale_output_failed output) (runtime_error output)
    save_desired_process_quantities app.id (p ∷ saved)
    sync_app_process_scales_from_dokku env app (some output)
    pure (p ∷ saved)

  unfoldable pub reapply_saved_process_scales : Action (Dict ℕ)
  reapply_saved_process_scales = do
    existing ← gets (λ w. get_saved_process_quantities app.id none w.scales)
    current ← sync_app_process_scales_from_dokku env app none
    reapply (differing existing current)
