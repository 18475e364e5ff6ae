-- ===== src/Apps/Scale/UseCase.antt =====
-- applications/use_cases/scale_processes.py
use fabroku_back_end.Base.{
  ℕ, String, ◌≡◌, refl, true, false, not, Option, none, some, [], ◌∷◌, truthy, or_else, find,
  strip_text, arith, inl, inr,
}
use fabroku_back_end.Base.Dict.{Dict, insert, lookup, distinct, distinct-insert}
use fabroku_back_end.Models.App.{App, ProcessScale}
use fabroku_back_end.Models.Errors.{app_not_found, deployment_failed}
use fabroku_back_end.Runtime.World.{Env, World, answered, ps_scale, Level, Category}
use fabroku_back_end.Runtime.Effects.{
  Action, Result, ok, pure, raise_if, gets, log, call, when, only_active, or_raise, is_ok,
  Result-cases, after_call, ◌>>=◌, ◌>>◌,
}
use fabroku_back_end.Dokku.{dokku_scale_output_failed}
use fabroku_back_end.Apps.Scale.{
  RawQuantity, validate_process_quantities, validate_each, validate_quantity,
  get_process_max_instances,
}
use fabroku_back_end.Apps.Scale.Parse.{parse_ps_scale_output}
use fabroku_back_end.Apps.Scale.Sync.{
  save_desired_process_quantities, sync_app_process_scales_from_dokku, is_scale, desired_row,
  reported_row,
}
use fabroku_back_end.Apps.Scale.Reported.{
  find-put_rows, desired_row-PutsRow, find-sync_app_process_scales_from_dokku, put_by,
}

pub record ProcessesScaled : Type 0 where
  pub app_id : ℕ
  pub dokku_app_name : String
  pub processes : Dict ℕ
  pub output : String

abbrev returning {ℓ} : {A : Type ℓ} → Result A → Action A
returning r w = (r, w)

module _ (env : Env) (app : App) where
  -- What follows the command.
  unfoldable pub record_scale : Dict ℕ → String → Action ProcessesScaled
  record_scale validated output = do
    log app.id Level.dokku Category.deploy 75
    when (dokku_scale_output_failed output) (log app.id Level.error Category.deploy 100)
    raise_if (dokku_scale_output_failed output) (deployment_failed output "scale")
    save_desired_process_quantities app.id validated
    sync_app_process_scales_from_dokku env app (some output)
    log app.id Level.success Category.deploy 100
    pure (record {
      app_id = app.id;
      dokku_app_name = or_else app.name_dokku "";
      processes = validated;
      output = output;
    })

  unfoldable pub scale_app : Dict RawQuantity → Action ProcessesScaled
  scale_app processes = do
    log app.id Level.info Category.deploy 10
    when (not (truthy app.name_dokku)) (log app.id Level.error Category.deploy 0)
    raise_if (not (truthy app.name_dokku))
        (deployment_failed "App nao tem name_dokku configurado" "validate")
    validated ← returning (validate_process_quantities env processes)
    output ← call env (ps_scale (or_else app.name_dokku "") validated)
    record_scale validated output

-- `ScaleProcessesUseCase.execute`
unfoldable pub execute : Env → ℕ → Dict RawQuantity → Action ProcessesScaled
execute env app_id processes = do
  found ← gets (λ w. only_active (w.apps app_id))
  app ← or_raise (app_not_found app_id) found
  scale_app env app processes

distinct-validate_each :
    (most : ℕ) (processes : Dict RawQuantity) (validated d : Dict ℕ)
    → distinct validated ≡ true
    → validate_each most processes validated ≡ ok d
    → distinct d ≡ true
unfolding validate_each
distinct-validate_each most [] validated d old e = ground arith
distinct-validate_each most ((raw_name, raw) ∷ rest) validated d old e =
    let name = strip_text raw_name in
    elim (Result-cases (validate_quantity most name raw)) [
      | inl (n, v) ↦
          distinct-validate_each most rest (insert name n validated) d
            (distinct-insert name n validated old) (ground arith)
      | inr (x, v) ↦ ground arith
    ]

distinct-validate_process_quantities :
    (env : Env) (processes : Dict RawQuantity) (d : Dict ℕ)
    → validate_process_quantities env processes ≡ ok d
    → distinct d ≡ true
unfolding validate_process_quantities
distinct-validate_process_quantities env [] d e = ground arith
distinct-validate_process_quantities env (p ∷ processes) d e =
    distinct-validate_each (get_process_max_instances env) (p ∷ processes) [] d refl e

-- A row of a process with these quantities; a row that was there keeps its names.
abbrev pub entry : ℕ → ℕ → String → Option ProcessScale → ℕ → ℕ → Option ProcessScale
entry now app_id m none desired current = some (record {
  app_id = app_id;
  process_name = m;
  desired_quantity = desired;
  current_quantity = current;
  last_synced_at = some now;
})
entry now app_id m (some row) desired current = some (record {
  app_id = row.app_id;
  process_name = row.process_name;
  desired_quantity = desired;
  current_quantity = current;
  last_synced_at = some now;
})

abbrev pub desired_before : Option ProcessScale → ℕ → ℕ
desired_before none reported = reported
desired_before (some row) reported = row.desired_quantity

-- What the row of a process says after a scale to `wanted`, the report naming `reported` instances.
abbrev pub scaled_row :
    ℕ → ℕ → String → Option ℕ → Option ℕ → Option ProcessScale → Option ProcessScale
scaled_row now app_id m none none row = row
scaled_row now app_id m (some wanted) none row = entry now app_id m row wanted wanted
scaled_row now app_id m (some wanted) (some reported) row = entry now app_id m row wanted reported
scaled_row now app_id m none (some reported) row =
    entry now app_id m row (desired_before row reported) reported

put_by-scaled_row :
    (now app_id : ℕ) (m : String) (wanted reported : Option ℕ) (row : Option ProcessScale)
    → put_by (reported_row now app_id) m reported (put_by (desired_row now app_id) m wanted row)
      ≡ scaled_row now app_id m wanted reported row
put_by-scaled_row now app_id m none none row = refl
put_by-scaled_row now app_id m none (some c) none = refl
put_by-scaled_row now app_id m none (some c) (some row) = refl
put_by-scaled_row now app_id m (some d) none none = refl
put_by-scaled_row now app_id m (some d) none (some row) = refl
put_by-scaled_row now app_id m (some d) (some c) none = refl
put_by-scaled_row now app_id m (some d) (some c) (some row) = refl

record_scale-row :
    (env : Env) (app : App) (validated : Dict ℕ) (output m : String) (w : World)
    → truthy app.name_dokku ≡ true
    → dokku_scale_output_failed output ≡ false
    → distinct validated ≡ true
    → let (r, w') = record_scale env app validated output w in
      (is_ok r ≡ true)
      × (find (is_scale app.id m) w'.scales
          ≡ scaled_row w.clock app.id m
              (lookup m validated)
              (lookup m (parse_ps_scale_output output))
              (find (is_scale app.id m) w.scales))
unfolding record_scale save_desired_process_quantities
record_scale-row env app validated output m w named fine d =
    let logged = (log app.id Level.dokku Category.deploy 75 w).1 in
    let saved = (save_desired_process_quantities app.id validated logged).1 in
    rw⁻¹
      (put_by-scaled_row w.clock app.id m (lookup m validated)
        (lookup m (parse_ps_scale_output output)) (find (is_scale app.id m) w.scales))
      (ground (
        arith,
        find-sync_app_process_scales_from_dokku env app output saved m named fine,
        find-put_rows (desired_row w.clock app.id) app.id (desired_row-PutsRow w.clock app.id) m
            validated w.scales d,
      ))

-- Scaling the processes of an app records what was asked: when the request is valid, and Dokku
-- answers the command with a report that shows no failure, the use case returns, and the row of
-- every process that was asked for has the quantity asked for as desired, and as current the one
-- that is read in the report, or the one asked for where the report does not name it. A process
-- that only the report names keeps its desired quantity, or gets the reported one if it had no row.
-- A process in neither keeps its row. For an app that is there and has a Dokku name.
pub scale-row :
    (env : Env) (app : App) (processes : Dict RawQuantity) (validated : Dict ℕ) (output m : String)
    (w : World)
    → only_active (w.apps app.id) ≡ some app
    → truthy app.name_dokku ≡ true
    → validate_process_quantities env processes ≡ ok validated
    → env.text_reply w.calls (ps_scale (or_else app.name_dokku "") validated) ≡ answered output
    → dokku_scale_output_failed output ≡ false
    → let (r, w') = execute env app.id processes w in
      (is_ok r ≡ true)
      × (find (is_scale app.id m) w'.scales
          ≡ scaled_row w.clock app.id m
              (lookup m validated)
              (lookup m (parse_ps_scale_output output))
              (find (is_scale app.id m) w.scales))
unfolding execute scale_app
scale-row env app processes validated output m w found named valid answer fine =
    let started = (log app.id Level.info Category.deploy 10 w).1 in
    let called = after_call env (ps_scale (or_else app.name_dokku "") validated) started in
    rw (found, named, valid, answer)
      (record_scale-row env app validated output m called named fine
        (distinct-validate_process_quantities env processes validated valid))
