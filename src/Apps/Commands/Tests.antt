-- ===== src/Apps/Commands/Tests.antt =====
-- The validators and command lines of core/apps/mixins/apps/run_data.py at concrete data.
use fabroku_back_end.Base.{◌≡◌, refl, true, some, none, [], ◌∷◌, map, codes, to_lower}
use fabroku_back_end.Apps.Commands.Paths.{
  lstrip, rstrip, slashes, split_path, join_by, path_text, name_of, is_suffix,
}
use fabroku_back_end.Apps.Commands.{
  refused, Complaint, check_manage_path, validate_manage_path, check_fixture_path,
  validate_loaddata_fixture_path, build_dumpdata_command, build_loaddata_command,
  build_migrate_command,
}
use fabroku_back_end.Apps.Commands.Safety.{IsRunPath, paths-IsRunPath}
use fabroku_back_end.Apps.Commands.Shell.{shell_words, shell_words-build}

climbing_refused :
    validate_loaddata_fixture_path (some (codes "data/../../etc/x.json")) ≡ refused Complaint.parent
unfolding validate_loaddata_fixture_path check_fixture_path lstrip rstrip slashes split_path
climbing_refused = refl

paths-IsRunPath_example :
    IsRunPath (codes "manage.py")
    × IsRunPath (codes "data/base.JSON")
    × (is_suffix (codes ".json") (map to_lower (name_of (split_path (codes "data/base.JSON"))))
        ≡ true)
unfolding validate_manage_path check_manage_path validate_loaddata_fixture_path check_fixture_path
    lstrip rstrip slashes split_path name_of path_text join_by is_suffix
paths-IsRunPath_example =
    paths-IsRunPath none (some (codes " ./data//base.JSON")) (codes "manage.py")
      (codes "data/base.JSON") refl refl

shell_words-build_example :
    (shell_words (build_dumpdata_command (codes "manage.py") (codes "it's; $HOME" ∷ []))
      ≡ some (codes "python" ∷ codes "manage.py" ∷ codes "dumpdata" ∷ codes "it's; $HOME" ∷ []))
    × (shell_words (build_loaddata_command (codes "manage.py") (codes "a b.json"))
        ≡ some (codes "python" ∷ codes "manage.py" ∷ codes "loaddata" ∷ codes "a b.json" ∷ []))
    × (shell_words (build_migrate_command (codes "manage.py") true)
        ≡ some (codes "python" ∷ codes "manage.py" ∷ codes "migrate" ∷ codes "--noinput" ∷ []))
shell_words-build_example =
    shell_words-build (codes "manage.py") (codes "a b.json") (codes "it's; $HOME" ∷ []) true
