-- ===== src/Apps/Create/Tests.antt =====
-- Runs of applications/use_cases/create_app.py, and the theorem at concrete data.
use fabroku_back_end.Base.{refl, false, none, some, [], ◌∷◌}
use fabroku_back_end.Models.App.{App}
use fabroku_back_end.Runtime.World.{Env, World, answered}
use fabroku_back_end.Runtime.Effects.{Result}
use fabroku_back_end.Domain.Variables.{
  validate_env_vars, validate_env_var_key, matches_key, matches_tail, validate_env_var_value,
}
use fabroku_back_end.Apps.Create.{AppCreated, CreateAppCommand, check_env_vars, execute}
use fabroku_back_end.Apps.Create.Outcome.{Ends, command, create-Ends}
use fabroku_back_end.Samples.{answering, admin, blog, world_of}

-- Dokku has no container yet.
abbrev empty_server : Env
empty_server = record (answering "ok") { flag_reply = λ h c. answered false }

abbrev news : App
news = record blog { name = "news"; name_dokku = none }

abbrev news_creation : CreateAppCommand
news_creation = command news 9 (some (("A", "1") ∷ [])) (some "t0")

abbrev created : Result AppCreated × World
created = execute empty_server news_creation (world_of news)

create-Ends_example : Ends empty_server news_creation news admin created.0 (created.1.apps 7)
unfolding check_env_vars validate_env_vars validate_env_var_key matches_key matches_tail
    validate_env_var_value
create-Ends_example =
    create-Ends empty_server news admin 9 (some (("A", "1") ∷ [])) (some "t0") (world_of news)
      (λ h c t j. refl) refl refl refl refl (λ t. refl)
