-- ===== src/Services/Promote.antt =====
-- `promote_remaining_database_if_needed` of core/apps/mixins/services/service_dokku.py: when the
-- database behind DATABASE_URL goes, another one of the app takes its place.
use fabroku_back_end.Base.{
  ℕ, String, ◌<>◌, Bool, true, false, not, ◌&&◌, ◌||◌, Option, none, some, [], ◌∷◌, ◌==◌, find,
  truthy, or_else, str_eq, strip_text, text_contains, holds_text, if◌then◌else◌,
}
use fabroku_back_end.Base.Dict.{erase}
use fabroku_back_end.Models.App.{App, Field}
use fabroku_back_end.Models.Service.{Service, is_live_of, is_postgres_service_type}
use fabroku_back_end.Runtime.World.{Env, get_config, promote_database, Level, Category}
use fabroku_back_end.Runtime.Effects.{Action, pure, gets, log, call, when, save_fields, ◌>>=◌, ◌>>◌}
use fabroku_back_end.Dokku.{check_dokku_output}
use fabroku_back_end.Services.Rows.{save_service}
use fabroku_back_end.Services.Urls.{sync_config_url_from_dokku}

-- The filters and the exclusions of the query. Rows stand in the order of their creation.
abbrev pub is_candidate : ℕ → ℕ → Service → Bool
is_candidate app_id excluded s =
    is_live_of app_id s
    && is_postgres_service_type s.service_type
    && truthy s.container_name
    && not (s.id == excluded)

-- `marker in url`, where the marker is not empty
abbrev pub holds_marker : String → String → Bool
holds_marker url marker = not (str_eq marker "") && text_contains marker url

abbrev pub is_promoted : String → Service → Bool
is_promoted url s =
    let container = or_else s.container_name "" in
    not (str_eq url "")
    && (holds_marker url s.host
        || holds_marker url container
        || holds_marker url ("dokku-postgres-" <> container))

abbrev pub set_env_key : Option String → Service → Service
set_env_key key s = record s { env_key = key }

-- `previous_env_key and previous_env_key != 'DATABASE_URL'`
abbrev is_other_key : Option String → Bool
is_other_key none = false
is_other_key (some key) = not (str_eq key "") && not (str_eq key "DATABASE_URL")

module _ (env : Env) (app : App) (progress : ℕ) where
  abbrev app_name : String
  app_name = or_else app.name_dokku ""

  unfoldable pub promote : Service → Action (Unit {0})
  promote candidate = do
    output ← call env (promote_database (or_else candidate.container_name "") app_name)
    log app.id Level.dokku Category.database progress
    check_dokku_output output "postgres:promote" true

  -- The variables of the app without the key that the database had before.
  abbrev without_key : Option String → App
  without_key key =
      if is_other_key key
      then record app { variables = erase (or_else key "") app.variables }
      else app

  unfoldable pub forget_key : Option String → Action (Unit {0})
  forget_key key =
      when (is_other_key key)
        (save_fields app.id (Field.variables (erase (or_else key "") app.variables) ∷ []))

  -- What follows the test of the URL that Dokku has.
  unfoldable pub take_place : Service → String → Action (Unit {0})
  take_place candidate url = do
    when (not (is_promoted url candidate)) (promote candidate)
    save_service candidate.id (set_env_key (some "DATABASE_URL"))
    forget_key candidate.env_key
    sync_config_url_from_dokku env (without_key candidate.env_key) "DATABASE_URL" progress
    log app.id Level.info Category.config progress

  unfoldable pub promote_candidate : Option Service → Action (Unit {0})
  promote_candidate none = pure tt
  promote_candidate (some candidate) = do
    url ← call env (get_config app_name "DATABASE_URL")
    take_place candidate (strip_text url)

  unfoldable pub promote_first : ℕ → Action (Unit {0})
  promote_first excluded = do
    candidate ← gets (λ w. find (is_candidate app.id excluded) w.services)
    promote_candidate candidate

  unfoldable pub promote_remaining_database_if_needed : Option String → ℕ → Action (Unit {0})
  promote_remaining_database_if_needed removed_env_key excluded =
      if holds_text removed_env_key "DATABASE_URL" && truthy app.name_dokku
      then promote_first excluded
      else pure tt
