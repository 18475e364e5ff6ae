-- ===== src/Apps/Webhook/Refused.antt =====
-- A push that could not be enqueued.
use fabroku_back_end.Base.{
  ℕ, String, ◌≡◌, ◌≢◌, refl, ap, ◌∙◌, false, Option, none, some, str_eq, arith, eq_iff,
}
use fabroku_back_end.Base.Dict.{lookup, lookup_erased}
use fabroku_back_end.Models.App.{App, AppStatus, is_deleting}
use fabroku_back_end.Models.Errors.{raised}
use fabroku_back_end.Runtime.World.{Env, World, IsQuiet, Call, Table, failed, deploy_app}
use fabroku_back_end.Runtime.Effects.{err}
use fabroku_back_end.Ownership.{is_app_busy}
use fabroku_back_end.Ownership.Dispatch.{dispatch_refused}
use fabroku_back_end.Apps.Webhook.{
  push_commit, Hmac, Push, WebhookRequest, release_delivery, is_new_delivery, dispatch_push,
  try_push, take_push, github_webhook,
}
use fabroku_back_end.Apps.Webhook.Accepted.{
  Arrives, expected_self, github_webhook-take_push, is_new_delivery-same,
}

non_empty_text : (d : String) → d ≢ "" → str_eq d "" ≡ false
non_empty_text d ne = ground (arith, eq_iff d "")

module _ (env : Env) (q : IsQuiet env) (app : App) (push : Push) where
  try_push_refused :
      (text : String) (w : World)
      → is_app_busy env app ≡ false
      → w.apps app.id ≡ some app
      → env.text_reply w.calls
          (Call.enqueue (env.uuid w.issued) (deploy_app app.id (push_commit push) none))
        ≡ failed text
      → let (r, w') = try_push env app (push_commit push) w in
        (r ≡ err (raised text)) × ((j : ℕ) → w'.apps j ≡ w.apps j) × (w'.queue ≡ w.queue)
  unfolding try_push dispatch_push
  try_push_refused text w free found refused =
      let (r, rows, queue) =
        dispatch_refused env app AppStatus.deploying (deploy_app app.id (push_commit push) none) w
          (some app.task_id) text q found (expected_self app) refused in
      rw (free, r) (refl, rows, queue)

  take_push_refused :
      (d text : String) (w : World)
      → d ≢ ""
      → is_deleting app.status ≡ false
      → is_app_busy env app ≡ false
      → w.apps app.id ≡ some app
      → env.text_reply w.calls
          (Call.enqueue (env.uuid w.issued) (deploy_app app.id (push_commit push) none))
        ≡ failed text
      → let (r, w') = take_push env app push (some d) w in
        (r ≡ err (raised text))
        × ((j : ℕ) → w'.apps j ≡ w.apps j)
        × (w'.queue ≡ w.queue)
        × (lookup d (w'.deliveries app.id) ≡ none)
  unfolding take_push release_delivery
  take_push_refused d text w non_empty live free found refused =
      let (r, rows, queue) = try_push_refused text w free found refused in
      let u = (try_push env app (push_commit push) w).1 in
      rw (live, r, non_empty_text d non_empty)
        (refl, rows, queue, ground (arith, lookup_erased d (u.deliveries app.id)))

-- A push that the broker refuses is not lost either: the request fails with the broker's error,
-- and leaves no trace, no row, no task and no mark of the delivery, so that GitHub may deliver it
-- again. For a first delivery of a push, whose `head_commit` and `pusher` are not null, of the branch
-- of an app that no operation is at work on, while no other process writes the apps table.
pub github_webhook_refused :
    (env : Env) (hmac : Hmac) (secret : Option String) (request : WebhookRequest) (app : App)
    (push : Push) (d text : String) (w : World)
    → IsQuiet env
    → Arrives hmac secret request app push w
    → request.delivery_id ≡ some d
    → d ≢ ""
    → is_app_busy env app ≡ false
    → env.text_reply w.calls
        (Call.enqueue (env.uuid w.issued) (deploy_app app.id (push_commit push) none))
      ≡ failed text
    → let (r, w') = github_webhook env hmac secret request app.id w in
      (r ≡ err (raised text))
      × ((j : ℕ) → w'.apps j ≡ w.apps j)
      × (w'.queue ≡ w.queue)
      × (lookup d (w'.deliveries app.id) ≡ none)
github_webhook_refused env hmac secret request app push d text w q a named non_empty free refused =
    let w1 = (is_new_delivery app.id (some d) w).1 in
    let (apps, queue, calls, issued) = is_new_delivery-same app.id (some d) w in
    let at = λ (j : ℕ). ap (λ (table : Table). table j) apps in
    let (r, rows, queue', released) =
      take_push_refused env q app push d text w1 non_empty a.live free (at app.id ∙ a.found)
        (rw (calls, issued) refused) in
    rw (github_webhook-take_push env hmac secret request app push w a)
      (rw named (r, λ j. rows j ∙ at j, queue' ∙ queue, released))
