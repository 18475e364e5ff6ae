-- ===== src/Dokku.antt =====
-- How the output of a Dokku command is read: core/apps/mixins/services/service_dokku.py,
-- applications/process_scale.py and applications/use_cases/deploy_app.py.
use fabroku_back_end.Base.{
  String, ◌<>◌, ◌≡◌, refl, Bool, arith, eq_iff, true, false, not, ◌&&◌, ◌||◌, str_eq,
  lower_contains,
}
use fabroku_back_end.Models.Errors.{runtime_error}
use fabroku_back_end.Runtime.World.{World}
use fabroku_back_end.Runtime.Effects.{Action, ok, raise_if, ◌>>◌}

-- The adapter answers an error as a text: `dokku_output_failed`
unfoldable pub dokku_output_failed : String → Bool
dokku_output_failed output =
    lower_contains "failed" output
    || lower_contains "ssh connection error" output
    || lower_contains "ssh command timeout" output

pub dokku_output_failed_empty : dokku_output_failed "" ≡ false
unfolding dokku_output_failed lower_contains
dokku_output_failed_empty = refl

unfoldable pub check_dokku_output : String → String → Bool → Action (Unit {0})
check_dokku_output output operation allow_empty = do
  raise_if (str_eq output "" && not allow_empty)
      (runtime_error (operation <> ": nenhuma resposta do servidor"))
  raise_if (not (str_eq output "") && dokku_output_failed output)
      (runtime_error (operation <> " falhou: " <> output))

-- `dokku_scale_output_failed` of applications/process_scale.py
unfoldable pub dokku_scale_output_failed : String → Bool
dokku_scale_output_failed output =
    lower_contains "failed" output || lower_contains "ssh connection error" output

-- `_dokku_output_failed` of applications/use_cases/deploy_app.py
unfoldable pub deploy_output_failed : String → Bool
deploy_output_failed output =
    lower_contains "failed" output
    || lower_contains "failed to execute command" output
    || lower_contains "ssh command timeout" output
    || lower_contains "ssh connection error" output

-- An output that passes the check with `allow_empty` holds no failure marker.
pub check_dokku_output_ok :
    (output operation : String) (w : World)
    → (check_dokku_output output operation true w).0 ≡ ok tt
    → dokku_output_failed output ≡ false
unfolding check_dokku_output
check_dokku_output_ok output operation w h =
    ground (arith, eq_iff output "", dokku_output_failed_empty)

-- The check writes nothing.
pub check_dokku_output_pure :
    (output operation : String) (allow_empty : Bool) (w : World)
    → (check_dokku_output output operation allow_empty w).1 ≡ w
unfolding check_dokku_output
check_dokku_output_pure output operation allow_empty w = ground arith

-- An output that passes the strict check is not empty and holds no failure marker.
pub check_dokku_output_strict :
    (output operation : String) (w : World)
    → (check_dokku_output output operation false w).0 ≡ ok tt
    → (str_eq output "" ≡ false) × (dokku_output_failed output ≡ false)
unfolding check_dokku_output
check_dokku_output_strict output operation w h = (ground arith, ground arith)
