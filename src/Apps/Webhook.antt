-- ===== src/Apps/Webhook.antt =====
-- infrastructure/adapters/utils/git_webhook.py: a push on GitHub deploys an app, at once or when
-- the operation that is at work on it ends.
pub mod Accepted
pub mod Refused
mod Tests
use Prim.Native.String.{String as Text}
use fabroku_back_end.Base.{
  ℕ, zero, suc, ◌+◌, String, Bool, true, false, not, ◌&&◌, ◌||◌, Option, none, some, List, [], ◌∷◌,
  truthy, or_else, str_eq, holds_text, ltb, ◌==◌, codes, is_prefix, is_some, get_or, if◌then◌else◌,
}
use fabroku_back_end.Base.Dict.{Dict, lookup, insert, erase}
use fabroku_back_end.Models.App.{App, AppStatus, is_deleting}
use fabroku_back_end.Models.Errors.{Error, raised, does_not_exist}
use fabroku_back_end.Runtime.World.{Env, World, deploy_app}
use fabroku_back_end.Runtime.Effects.{
  Action, ok, pure, raise, raise_if, catch, gets, write, or_raise, when, only_active, ◌>>=◌, ◌>>◌,
}
use fabroku_back_end.Ownership.{is_app_busy, dispatch_app_task}
use fabroku_back_end.Ownership.Pending.{queue_pending_redeploy, run_pending_redeploy}

-- What is read of a payload. `after` is `none` where the key is missing, and `some none` where it is
-- null; `head_commit` is `none` where it is null, and else the id in it, if there is one;
-- `has_pusher` is false where `pusher` is null.
pub record Push : Type 0 where
  pub ref : String
  pub after : Option (Option String)
  pub head_commit : Option (Option String)
  pub has_pusher : Bool

-- `payload.get('after', payload.get('head_commit', {}).get('id'))`
abbrev pub push_commit : Push → Option String
push_commit push = get_or push.after (get_or push.head_commit none)

-- Both `get` of a `get` can be called: neither is on null.
abbrev pub is_readable : Push → Bool
is_readable push = is_some push.head_commit && push.has_pusher

-- `payload` is `none` where it is not JSON.
pub record WebhookRequest : Type 0 where
  pub body : String
  pub signature : Option String
  pub event_type : String
  pub payload : Option Push
  pub delivery_id : Option String

pub data WebhookResponse : Type 0 where
  invalid_signature pong ignored invalid_json not_found duplicate queued : WebhookResponse
  deploy_started : String → WebhookResponse

-- `hmac.new(secret, body, ...).hexdigest()` with SHA-256 and with SHA-1
pub record Hmac : Type 0 where
  pub sha256 : String → String → String
  pub sha1 : String → String → String

-- `WEBHOOK_DELIVERY_CACHE_TTL_SECONDS`
abbrev pub webhook_delivery_ttl_seconds : ℕ
webhook_delivery_ttl_seconds = 86400

abbrev starts_with : String → String → Bool
starts_with prefix s = is_prefix (codes prefix) (codes s)

-- `s[n:]`
abbrev drop_text : ℕ → String → String
drop_text zero s = s
drop_text (suc n) Text.[] = Text.[]
drop_text (suc n) (Text.◌∷◌ c s) = drop_text n s

unfoldable pub verify_github_signature : Hmac → String → Option String → String → Bool
verify_github_signature hmac body none secret = false
verify_github_signature hmac body (some signature) secret =
    if str_eq signature ""
    then false
    else if starts_with "sha256=" signature
    then str_eq (hmac.sha256 secret body) (drop_text 7 signature)
    else if starts_with "sha1=" signature
    then str_eq (hmac.sha1 secret body) (drop_text 5 signature)
    else str_eq (hmac.sha256 secret body) signature

-- `parse_github_branch_from_ref` of infrastructure/adapters/git_utils.py
unfoldable pub parse_github_branch_from_ref : String → Option String
parse_github_branch_from_ref ref =
    if str_eq ref ""
    then none
    else if starts_with "refs/heads/" ref
    then some (drop_text 11 ref)
    else if starts_with "refs/tags/" ref
    then none
    else some ref

abbrev is_fresh_delivery : ℕ → Option ℕ → Bool
is_fresh_delivery now none = false
is_fresh_delivery now (some deadline) = ltb now deadline

abbrev set_deliveries : ℕ → Dict ℕ → World → World
set_deliveries app_id d w = record w { deliveries = λ j. if j == app_id then d else w.deliveries j }

-- `cache.add(delivery_key, ...)`
unfoldable pub add_delivery : ℕ → String → Action Bool
add_delivery app_id id w =
    if is_fresh_delivery w.clock (lookup id (w.deliveries app_id)) then (ok false, w) else (
      ok true,
      set_deliveries app_id
          (insert id (w.clock + webhook_delivery_ttl_seconds) (w.deliveries app_id)) w,
    )

-- `cache.delete(delivery_key)`
unfoldable pub release_delivery : ℕ → Option String → Action (Unit {0})
release_delivery app_id delivery_id =
    when (truthy delivery_id)
      (write λ w. set_deliveries app_id (erase (or_else delivery_id "") (w.deliveries app_id)) w)

-- Whether the delivery is new; one without an id always is.
unfoldable pub is_new_delivery : ℕ → Option String → Action Bool
is_new_delivery app_id delivery_id =
    if truthy delivery_id then add_delivery app_id (or_else delivery_id "") else pure true

module _ (env : Env) where
  abbrev started_or_queued : Option String → WebhookResponse
  started_or_queued none = queued
  started_or_queued (some t) = if str_eq t "" then queued else deploy_started t

  -- `app.refresh_from_db(fields=['status', 'task_id'])`
  abbrev refresh : App → App → App
  refresh row app = record app { status = row.status; task_id = row.task_id }

  -- `_queue_redeploy_while_busy`
  unfoldable pub queue_redeploy_while_busy : App → Option String → Action WebhookResponse
  queue_redeploy_while_busy app commit = do
    queue_pending_redeploy app.id commit
    found ← gets (λ w. w.apps app.id)
    row ← or_raise does_not_exist found
    task_id ←
        if is_app_busy env (refresh row app)
        then pure none
        else run_pending_redeploy env app.id row.task_id
    pure (started_or_queued task_id)

  -- The task of the deploy, or `none` if another operation is at work or was faster.
  unfoldable pub dispatch_push : App → Option String → Action (Option String)
  dispatch_push app commit = if is_app_busy env app then pure none else (do
    dispatched ←
        dispatch_app_task env app AppStatus.deploying (some app.task_id)
          (deploy_app app.id commit none)
    pure dispatched.0)

  abbrev answer_push : App → Option String → Option String → Action WebhookResponse
  answer_push app commit none = queue_redeploy_while_busy app commit
  answer_push app commit (some t) = pure (deploy_started t)

  unfoldable pub try_push : App → Option String → Action WebhookResponse
  try_push app commit = do task_id ← dispatch_push app commit; answer_push app commit task_id

  -- A push that could not be enqueued may be delivered again.
  unfoldable pub take_push : App → Push → Option String → Action WebhookResponse
  take_push app push delivery_id =
      if is_deleting app.status
      then pure ignored
      else catch (try_push app (push_commit push))
          λ e. do release_delivery app.id delivery_id; raise e

  -- The commit and the pusher are read outside any `try`, once the delivery is remembered.
  unfoldable pub read_push : App → Push → Option String → Action WebhookResponse
  read_push app push delivery_id = do
    raise_if (not (is_readable push)) (raised "'NoneType' object has no attribute 'get'")
    take_push app push delivery_id

  -- What follows the search for the app.
  unfoldable pub receive_push : App → Push → Option String → Action WebhookResponse
  receive_push app push delivery_id =
      if holds_text (parse_github_branch_from_ref push.ref) app.branch
      then (do
        is_new ← is_new_delivery app.id delivery_id
        if is_new then read_push app push delivery_id else pure duplicate)
      else pure ignored

  abbrev find_app : Option App → Push → Option String → Action WebhookResponse
  find_app none push delivery_id = pure not_found
  find_app (some app) push delivery_id = receive_push app push delivery_id

  abbrev read_payload : ℕ → Option String → Option Push → Action WebhookResponse
  read_payload app_id delivery_id none = pure invalid_json
  read_payload app_id delivery_id (some push) = do
    found ← gets (λ w. only_active (w.apps app_id))
    find_app found push delivery_id

  -- `github_webhook`; `secret` is `settings.GITHUB_WEBHOOK_SECRET`
  unfoldable pub github_webhook : Hmac → Option String → WebhookRequest → ℕ → Action WebhookResponse
  github_webhook hmac secret request app_id =
      if truthy secret
        && not (verify_github_signature hmac request.body request.signature (or_else secret ""))
      then pure invalid_signature
      else if str_eq request.event_type "ping"
      then pure pong
      else if not (str_eq request.event_type "push")
      then pure ignored
      else read_payload app_id request.delivery_id request.payload
