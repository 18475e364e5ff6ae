-- ===== src/Apps/Webhook/Accepted.antt =====
-- A push that is taken is never lost: it is deployed now, or it waits.
use fabroku_back_end.Base.{
  ℕ, String, ◌≡◌, refl, ap, ◌∙◌, ◌⊎◌, inl, inr, true, false, not, ◌&&◌, Option, none, some, List,
  [], ◌∷◌, ◌++◌, truthy, or_else, holds_text, holds_text_self, arith, Bool-cases, Option-cases,
}
use mathlib.Core.Path.{subst}
use fabroku_back_end.Models.App.{App, AppStatus, is_deleting, set_fields}
use fabroku_back_end.Runtime.World.{Env, World, IsQuiet, Call, Table, Task, answered, deploy_app}
use fabroku_back_end.Runtime.Effects.{Result, ok, err, raise, recover, only_active, ◌>>◌}
use fabroku_back_end.Ownership.{is_app_busy, expected_owner, taken_by}
use fabroku_back_end.Ownership.Dispatch.{dispatch_taken}
use fabroku_back_end.Ownership.Pending.{fresh, queue_pending_redeploy}
use fabroku_back_end.Apps.Webhook.{
  Hmac, Push, WebhookRequest, WebhookResponse, deploy_started, queued, verify_github_signature,
  parse_github_branch_from_ref, add_delivery, is_new_delivery, queue_redeploy_while_busy,
  push_commit, is_readable, read_push, release_delivery, dispatch_push, try_push, take_push,
  receive_push, github_webhook,
}

pub expected_self : (app : App) → expected_owner (some app.task_id) app ≡ true
expected_self app = elim (Option-cases app.task_id) [
  | inl e ↦ rw e refl
  | inr (t, e) ↦ rw e (holds_text_self t)
]

-- What a push that is taken leads to.
abbrev pub Accepted :
    Env → App → Option String → List (String × Task) → Result WebhookResponse → World → Type 0
Accepted env app commit waiting r w' =
    ((t : String) × (r ≡ ok (deploy_started t))
      × (w'.apps app.id ≡ some (set_fields (taken_by AppStatus.deploying t) app))
      × (w'.queue ≡ waiting ++ ((t, deploy_app app.id commit none) ∷ [])))
    ⊎ ((r ≡ ok queued)
        × (is_app_busy env app ≡ true)
        × (fresh w'.clock (w'.pending_redeploys app.id) ≡ some commit))

module _ (env : Env) (q : IsQuiet env) (app : App) (commit : Option String) where
  queue_redeploy-queued :
      (w : World)
      → w.apps app.id ≡ some app
      → is_app_busy env app ≡ true
      → let (r, w') = queue_redeploy_while_busy env app commit w in
        (r ≡ ok queued) × (fresh w'.clock (w'.pending_redeploys app.id) ≡ some commit)
  unfolding queue_redeploy_while_busy queue_pending_redeploy
  queue_redeploy-queued w found busy = rw (found, busy) (refl, ground arith)

  try_push-Accepted :
      (answer : String) (w : World)
      → w.apps app.id ≡ some app
      → env.text_reply w.calls (Call.enqueue (env.uuid w.issued) (deploy_app app.id commit none))
        ≡ answered answer
      → let (r, w') = try_push env app commit w in Accepted env app commit w.queue r w'
  unfolding try_push dispatch_push
  try_push-Accepted answer w found taken = elim (Bool-cases (is_app_busy env app)) [
    | inl busy ↦
        let (r, waits) = queue_redeploy-queued w found busy in rw busy (inr (r, refl, waits))
    | inr free ↦
        let (r, row, others, enqueued) =
          dispatch_taken env app AppStatus.deploying (deploy_app app.id commit none) w
            (some app.task_id) answer q found (expected_self app) taken in
        rw (free, r) (inl (env.uuid w.issued, refl, row, enqueued))
  ]

  take_push-Accepted :
      (push : Push) (delivery_id : Option String) (answer : String) (w : World)
      → push_commit push ≡ commit
      → is_deleting app.status ≡ false
      → w.apps app.id ≡ some app
      → env.text_reply w.calls (Call.enqueue (env.uuid w.issued) (deploy_app app.id commit none))
        ≡ answered answer
      → let (r, w') = take_push env app push delivery_id w in Accepted env app commit w.queue r w'
  unfolding take_push
  take_push-Accepted push delivery_id answer w same live found taken =
      rw (live, same) (caught (try_push env app commit w) (try_push-Accepted answer w found taken))
    where
      caught :
          (m : Result WebhookResponse × World)
          → Accepted env app commit w.queue m.0 m.1
          → let (r, w') = recover m.0 (λ e. release_delivery app.id delivery_id >> raise e) m.1 in
            Accepted env app commit w.queue r w'
      caught (ok a, u) p = p
      caught (err e, u) p = elim p [
        | inl (t, r, _, _) ↦ ground arith
        | inr (r, _, _) ↦ ground arith
      ]

-- A request that carries a push of the branch of an app, and that comes for the first time: it
-- passes the signature, the app is there and is not being deleted, and the payload can be read.
pub record Arrives (hmac : Hmac) (secret : Option String) (request : WebhookRequest) (app : App)
    (push : Push) (w : World) : Type 0 where
  pub signed :
      (truthy secret
        && not (verify_github_signature hmac request.body request.signature (or_else secret "")))
      ≡ false
  pub event : request.event_type ≡ "push"
  pub payload : request.payload ≡ some push
  pub there : only_active (w.apps app.id) ≡ some app
  pub found : w.apps app.id ≡ some app
  pub branch : holds_text (parse_github_branch_from_ref push.ref) app.branch ≡ true
  pub is_new : (is_new_delivery app.id request.delivery_id w).0 ≡ ok true
  pub live : is_deleting app.status ≡ false
  pub readable : is_readable push ≡ true

-- A new delivery is only remembered.
pub is_new_delivery-same :
    (app_id : ℕ) (delivery_id : Option String) (w : World)
    → let w' = (is_new_delivery app_id delivery_id w).1 in
      (w'.apps ≡ w.apps) × (w'.queue ≡ w.queue) × (w'.calls ≡ w.calls) × (w'.issued ≡ w.issued)
unfolding is_new_delivery add_delivery
is_new_delivery-same app_id delivery_id w = (ground arith, ground arith, ground arith, ground arith)

pub github_webhook-take_push :
    (env : Env) (hmac : Hmac) (secret : Option String) (request : WebhookRequest) (app : App)
    (push : Push) (w : World)
    → Arrives hmac secret request app push w
    → github_webhook env hmac secret request app.id w
      ≡ take_push env app push request.delivery_id (is_new_delivery app.id request.delivery_id w).1
unfolding github_webhook receive_push read_push
github_webhook-take_push env hmac secret request app push w a =
    rw (a.signed, a.event, a.payload, a.there, a.branch, a.is_new, a.readable) refl

-- A push that can be read is not lost: when the first delivery of a push of the branch of an app
-- arrives with a valid signature, and neither its `head_commit` nor its `pusher` is null, either the
-- deploy of its commit is enqueued at once and the app is DEPLOYING and belongs to it, or another
-- operation is at work on the app and the push waits for its end. For an app that is there and is
-- not being deleted, a broker that takes the task, while no other process writes the apps table.
pub github_webhook-Accepted :
    (env : Env) (hmac : Hmac) (secret : Option String) (request : WebhookRequest) (app : App)
    (push : Push) (answer : String) (w : World)
    → IsQuiet env
    → Arrives hmac secret request app push w
    → env.text_reply w.calls
        (Call.enqueue (env.uuid w.issued) (deploy_app app.id (push_commit push) none))
      ≡ answered answer
    → let (r, w') = github_webhook env hmac secret request app.id w in
      Accepted env app (push_commit push) w.queue r w'
github_webhook-Accepted env hmac secret request app push answer w q a taken =
    let w1 = (is_new_delivery app.id request.delivery_id w).1 in
    let (apps, queue, calls, issued) = is_new_delivery-same app.id request.delivery_id w in
    let m = take_push env app push request.delivery_id w1 in
    rw (github_webhook-take_push env hmac secret request app push w a) (
      subst (λ waiting. Accepted env app (push_commit push) waiting m.0 m.1) queue
        (take_push-Accepted env q app (push_commit push) push request.delivery_id answer w1 refl
          a.live (ap (λ (table : Table). table app.id) apps ∙ a.found) (rw (calls, issued) taken)))
