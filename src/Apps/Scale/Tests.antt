-- ===== src/Apps/Scale/Tests.antt =====
-- Runs of applications/process_scale.py and scale_processes.py, and the theorems at concrete data.
use fabroku_back_end.Base.{
  String, ◌≡◌, ℕ, refl, false, true, strip_text, same_lower, none, [], ◌∷◌, pos, all, find,
  lower_contains,
}
use fabroku_back_end.Base.Dict.{Dict, insert, lookup}
use fabroku_back_end.Runtime.World.{World}
use fabroku_back_end.Runtime.Effects.{Result, ok, is_ok}
use fabroku_back_end.Dokku.{dokku_scale_output_failed}
use fabroku_back_end.Apps.Scale.{
  RawQuantity, get_process_max_instances, validate_each, validate_quantity,
  validate_process_quantities, is_manageable_process_name,
}
use fabroku_back_end.Apps.Scale.Bounds.{
  is_allowed, asks_allowed, is_ok-validate_process_quantities,
  validate_process_quantities-is_allowed,
}
use fabroku_back_end.Apps.Scale.Parse.{parse_line, parse_ps_scale_output}
use fabroku_back_end.Apps.Scale.Sync.{is_scale}
use fabroku_back_end.Apps.Scale.UseCase.{ProcessesScaled, execute, scaled_row, scale-row}
use fabroku_back_end.Samples.{answering, blog, world_of}

abbrev report : String
report = "-----> Scaling for blog\n-----> web: nothing\nrelease: 1\n web : 2 \n\nworker:1\n"

parse_report : parse_ps_scale_output report ≡ ("web", 2) ∷ ("worker", 1) ∷ []
unfolding parse_ps_scale_output parse_line strip_text is_manageable_process_name same_lower insert
parse_report = refl

release_is_ignored : is_manageable_process_name " Release" ≡ false
unfolding is_manageable_process_name strip_text same_lower
release_is_ignored = refl

abbrev wanted : Dict RawQuantity
wanted = ("web", RawQuantity.whole (pos 2)) ∷ (" worker ", RawQuantity.whole (pos 3)) ∷ []

abbrev validated : Dict ℕ
validated = ("web", 2) ∷ ("worker", 3) ∷ []

validate_wanted : validate_process_quantities (answering report) wanted ≡ ok validated
unfolding validate_process_quantities validate_each validate_quantity is_manageable_process_name
    strip_text same_lower insert
validate_wanted = refl

validate_process_quantities-is_allowed_example : all (is_allowed 5) validated ≡ true
validate_process_quantities-is_allowed_example =
    validate_process_quantities-is_allowed (answering report) wanted validated validate_wanted

dokku_scale_output_fine : dokku_scale_output_failed report ≡ false
unfolding dokku_scale_output_failed lower_contains
dokku_scale_output_fine = refl

abbrev scaled : Result ProcessesScaled × World
scaled = execute (answering report) 7 wanted (world_of blog)

-- `worker` is asked for three times over, and the report says one.
scale-row_example :
    (is_ok scaled.0 ≡ true)
    × (find (is_scale 7 "worker") scaled.1.scales
        ≡ scaled_row 1000 7 "worker"
            (lookup "worker" validated)
            (lookup "worker" (parse_ps_scale_output report))
            none)
scale-row_example =
    scale-row (answering report) blog wanted validated report "worker" (world_of blog) refl refl
      validate_wanted refl dokku_scale_output_fine

is_ok-validate_process_quantities_example :
    (is_ok (validate_process_quantities (answering "") []) ≡ false)
    × (is_ok (validate_process_quantities (answering "") wanted)
        ≡ all (asks_allowed (get_process_max_instances (answering ""))) wanted)
is_ok-validate_process_quantities_example =
    is_ok-validate_process_quantities (answering "") ("web", RawQuantity.whole (pos 2))
      ((" worker ", RawQuantity.whole (pos 3)) ∷ [])
