-- ===== src/Apps/Webhook/Tests.antt =====
-- Runs of infrastructure/adapters/utils/git_webhook.py, and the theorems at concrete data.
use fabroku_back_end.Base.{ℕ, ◌≡◌, refl, true, none, some, [], ◌<>◌}
use fabroku_back_end.Base.Dict.{lookup}
use fabroku_back_end.Models.Errors.{raised}
use fabroku_back_end.Runtime.World.{World}
use fabroku_back_end.Runtime.Effects.{Result, err}
use fabroku_back_end.Ownership.{is_app_busy}
use fabroku_back_end.Apps.Webhook.{
  Hmac, Push, WebhookRequest, WebhookResponse, github_webhook, verify_github_signature,
  parse_github_branch_from_ref, is_new_delivery, add_delivery,
}
use fabroku_back_end.Apps.Webhook.Accepted.{Accepted, Arrives, github_webhook-Accepted}
use fabroku_back_end.Apps.Webhook.Refused.{github_webhook_refused}
use fabroku_back_end.Samples.{answering, answering-IsQuiet, down, down-IsQuiet, blog, world_of}

-- A signature that names the secret.
abbrev signing : Hmac
signing = record { sha256 = λ secret body. secret <> "-" <> body; sha1 = λ secret body. "" }

abbrev push : Push
push = record {
  ref = "refs/heads/main";
  after = some (some "abc123");
  head_commit = some (some "abc123");
  has_pusher = true;
}

abbrev request : WebhookRequest
request = record {
  body = "{}";
  signature = some "sha256=key-{}";
  event_type = "push";
  payload = some push;
  delivery_id = some "d1";
}

request-Arrives : Arrives signing (some "key") request blog push (world_of blog)
unfolding verify_github_signature parse_github_branch_from_ref is_new_delivery add_delivery lookup
request-Arrives = record {
  signed = refl;
  event = refl;
  payload = refl;
  there = refl;
  found = refl;
  branch = refl;
  is_new = refl;
  live = refl;
  readable = refl;
}

abbrev pushed : Result WebhookResponse × World
pushed = github_webhook (answering "ok") signing (some "key") request 7 (world_of blog)

github_webhook-Accepted_example :
    Accepted (answering "ok") blog (some "abc123") [] pushed.0 pushed.1
github_webhook-Accepted_example =
    github_webhook-Accepted (answering "ok") signing (some "key") request blog push "ok"
      (world_of blog) (answering-IsQuiet "ok") request-Arrives refl

abbrev failing : Result WebhookResponse × World
failing = github_webhook down signing (some "key") request 7 (world_of blog)

github_webhook_refused_example :
    (failing.0 ≡ err (raised "connection refused"))
    × ((j : ℕ) → failing.1.apps j ≡ (world_of blog).apps j)
    × (failing.1.queue ≡ [])
    × (lookup "d1" (failing.1.deliveries 7) ≡ none)
unfolding is_app_busy
github_webhook_refused_example =
    github_webhook_refused down signing (some "key") request blog push "d1" "connection refused"
      (world_of blog) down-IsQuiet request-Arrives refl (λ e. cc) refl refl
