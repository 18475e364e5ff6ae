-- ===== src/Services/Urls.antt =====
-- core/apps/mixins/services/database_url.py: the URL of a service, read from Dokku and mirrored in
-- the variables of its app. The waits of a second between the attempts are left out.
use fabroku_back_end.Base.{
  ℕ, zero, suc, ◌≡◌, refl, ◌∙◌, String, Bool, true, not, ◌&&◌, ◌||◌, Option, none, some, List, [],
  ◌∷◌, truthy, or_else, str_eq, strip_text, lower_contains, text_contains, arith, if◌then◌else◌,
  inl, inr, Bool-cases,
}
use fabroku_back_end.Base.Dict.{Dict, insert}
use fabroku_back_end.Models.App.{App, Field}
use fabroku_back_end.Runtime.World.{
  Env, World, Call, IsQuiet, get_config, Level, Category, Reply, answered, failed,
}
use fabroku_back_end.Runtime.Ensures.{WasAnswered}
use fabroku_back_end.Runtime.Effects.{
  Action, Result, ok, err, pure, log, call, save_fields, receive, after_call, ◌>>=◌, ◌>>◌,
}

-- `INVALID_CONFIG_URL_MARKERS`
abbrev has_invalid_marker : String → Bool
has_invalid_marker output =
    lower_contains "failed" output
    || lower_contains "ssh connection error" output
    || lower_contains "failed to execute command" output
    || lower_contains "not found" output
    || lower_contains "no such app" output

unfoldable pub is_valid_config_url : String → Bool
is_valid_config_url value =
    let normalized = strip_text value in
    not (str_eq value "")
    && not (str_eq normalized "")
    && not (has_invalid_marker normalized)
    && text_contains "://" normalized

-- `app.variables[config_key] = config_value`
abbrev pub with_url : App → String → String → Dict String
with_url app config_key url = insert config_key url app.variables

module _ (env : Env) (app : App) (config_key : String) (progress : ℕ) where
  unfoldable pub take_url : String → Action (Option String)
  take_url value = do
    save_fields app.id (Field.variables (with_url app config_key value) ∷ [])
    log app.id Level.info Category.config progress
    pure (some value)

  -- One attempt, with what is done if it fails.
  abbrev attempt : String → Action (Option String) → Action (Option String)
  attempt value again = if is_valid_config_url value then take_url value else again

  -- The attempts that are left.
  unfoldable pub try_config_url : ℕ → Action (Option String)
  try_config_url zero = do log app.id Level.warning Category.config progress; pure none
  try_config_url (suc attempts) = do
    output ← call env (get_config (or_else app.name_dokku "") config_key)
    attempt (strip_text output) (try_config_url attempts)

  unfoldable pub sync_config_url_from_dokku : Action (Option String)
  sync_config_url_from_dokku =
      if truthy app.name_dokku
      then try_config_url 5
      else (do log app.id Level.warning Category.config progress; pure none)

-- What comes of the synchronisation: a URL that Dokku gave and that passes the test, and the
-- variables with it, or the row as it was.
abbrev pub UrlEnds : Env → App → String → App → Result (Option String) → Option App → Type 0
UrlEnds env app key row (ok (some url)) o =
    (is_valid_config_url url ≡ true)
    × (output : String) × WasAnswered env (get_config (or_else app.name_dokku "") key) output
    × (strip_text output ≡ url)
    × (o ≡ some (record row { variables = with_url app key url }))
UrlEnds env app key row (ok none) o = o ≡ some row
UrlEnds env app key row (err e) o = o ≡ some row

module _ (env : Env) (q : IsQuiet env) (app row : App) (key : String) (progress : ℕ) where
  attempt-UrlEnds :
      (output : String) (again : Action (Option String)) (w : World)
      → WasAnswered env (get_config (or_else app.name_dokku "") key) output
      → w.apps app.id ≡ some row
      → UrlEnds env app key row (again w).0 ((again w).1.apps app.id)
      → let (r, w') = attempt env app key progress (strip_text output) again w in
        UrlEnds env app key row r (w'.apps app.id)
  unfolding take_url
  attempt-UrlEnds output again w was found other =
      elim (Bool-cases (is_valid_config_url (strip_text output))) [
        | inl y ↦ rw (y, found) (y, output, was, refl, ground (arith, found))
        | inr n ↦ rw n other
      ]

  reply-UrlEnds :
      (r : Reply String) (h : List Call) (again : Action (Option String)) (w : World)
      → env.text_reply h (get_config (or_else app.name_dokku "") key) ≡ r
      → w.apps app.id ≡ some row
      → UrlEnds env app key row (again w).0 ((again w).1.apps app.id)
      → let m =
          receive env r >>= λ output. attempt env app key progress (strip_text output) again in
        UrlEnds env app key row (m w).0 ((m w).1.apps app.id)
  reply-UrlEnds (answered output) h again w e found other =
      attempt-UrlEnds output again w (h, e) found other
  reply-UrlEnds (failed text) h again w e found other = found

  try_config_url-UrlEnds :
      (attempts : ℕ) (w : World)
      → w.apps app.id ≡ some row
      → let (r, w') = try_config_url env app key progress attempts w in
        UrlEnds env app key row r (w'.apps app.id)
  unfolding try_config_url
  try_config_url-UrlEnds zero w found = found
  try_config_url-UrlEnds (suc attempts) w found =
      let c = get_config (or_else app.name_dokku "") key in
      let there = q w.calls c w.apps app.id ∙ found in
      reply-UrlEnds (env.text_reply w.calls c) w.calls
        (try_config_url env app key progress attempts) (after_call env c w) refl there
        (try_config_url-UrlEnds attempts (after_call env c w) there)

-- Reading the URL of a service from Dokku takes nothing else for a URL: if it gives one, Dokku
-- answered that text, it holds `://` and no marker of a failure, and the variables of the app have
-- it under the key, and all else of the row is as it was; in every other case, after five attempts
-- or an exception, the row is as it was. While no other process writes the apps table.
pub sync_config_url-UrlEnds :
    (env : Env) (app row : App) (key : String) (progress : ℕ) (w : World)
    → IsQuiet env
    → w.apps app.id ≡ some row
    → let (r, w') = sync_config_url_from_dokku env app key progress w in
      UrlEnds env app key row r (w'.apps app.id)
unfolding sync_config_url_from_dokku
sync_config_url-UrlEnds env app row key progress w q found =
    elim (Bool-cases (truthy app.name_dokku)) [
      | inl named ↦ rw named (try_config_url-UrlEnds env q app row key progress 5 w found)
      | inr unnamed ↦ rw unnamed found
    ]
