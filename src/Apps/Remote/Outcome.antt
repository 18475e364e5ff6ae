-- ===== src/Apps/Remote/Outcome.antt =====
-- What the reconciliation of a deploy whose task died writes.
use fabroku_back_end.Base.{
  ℕ, String, ◌≡◌, ◌≢◌, refl, ap, ◌∙◌, Bool, true, false, not, ◌&&◌, ◌||◌, str_eq, if◌then◌else◌,
  Option, none, some, List, truthy, or_else, arith, eq_iff, inl, inr, Bool-cases,
}
use mathlib.Core.Path.{subst}
use fabroku_back_end.Models.App.{App, AppStatus, is_deploying, set_fields}
use fabroku_back_end.Runtime.World.{
  Env, World, Table, IsQuiet, Call, Reply, answered, failed, RemoteDeploy, get_remote_deploy_status,
}
use fabroku_back_end.Runtime.Effects.{
  Result, pure, ok, err, continue, after_call, catch, receive, ◌>>=◌,
}
use fabroku_back_end.Apps.Deploy.Rows.{save_owned}
use fabroku_back_end.Apps.Remote.{
  is_fresh, is_orphaned, has_unusable_date, keep_orphaned, orphan_fields, add_mark,
  orphaned_remote_deploy, end_orphan, reconcile_marked, reconcile_orphan_remote_deploy,
}

or_else_owned : (o : Option String) (t : String) → o ≡ some t → t ≢ "" → or_else o "" ≡ t
or_else_owned o t e ne = ap (λ p. or_else p "") e ∙ ground (arith, eq_iff t "")

-- The server has said so of the build.
abbrev pub RemoteSays : Env → String → RemoteDeploy → Type 0
RemoteSays env deploy_id remote =
    (h : List Call) × (env.remote_reply h (get_remote_deploy_status deploy_id)
      ≡ answered (some remote))

-- The status that the end of a build gives
abbrev pub end_status : App → RemoteDeploy → AppStatus
end_status app remote =
    if str_eq remote.state "succeeded" && truthy app.domain
    then AppStatus.running
    else AppStatus.error

end_status-orphan_fields :
    (app : App) (remote : RemoteDeploy)
    → (set_fields (orphan_fields app remote) app).status ≡ end_status app remote
end_status-orphan_fields app remote =
    elim (Bool-cases (str_eq remote.state "succeeded" && truthy app.domain)) [
      | inl y ↦ rw y refl
      | inr n ↦ rw n refl
    ]

-- What the row says after the reconciliation, by its result.
abbrev pub Reconciled : Env → App → String → ℕ → Bool → Option App → Type 0
Reconciled env app t now false o = o ≡ some app
Reconciled env app t now true o =
    (remote : RemoteDeploy) × RemoteSays env t remote
    × (is_orphaned now remote ≡ true)
    × (o ≡ some (set_fields (orphan_fields app remote) app))
    × ((set_fields (orphan_fields app remote) app).status ≡ end_status app remote)

-- The server has given a date that cannot be subtracted.
abbrev pub GivesUnusableDate : Env → String → Type 0
GivesUnusableDate env deploy_id =
    (remote : RemoteDeploy) × RemoteSays env deploy_id remote × (has_unusable_date remote ≡ true)

-- How the reconciliation ends.
abbrev pub Ends : Env → App → String → ℕ → Result Bool → Option App → Type 0
Ends env app t now (ok b) o = Reconciled env app t now b o
Ends env app t now (err e) o = (o ≡ some app) × GivesUnusableDate env t

-- A state that the server gave and that ends the deploy, if any.
abbrev Found : Env → String → ℕ → Result (Option RemoteDeploy) → Type 0
Found env t now (ok none) = Unit
Found env t now (ok (some remote)) = RemoteSays env t remote × (is_orphaned now remote ≡ true)
Found env t now (err e) = GivesUnusableDate env t

module _ (env : Env) (q : IsQuiet env) (app : App) (t : String) where
  kept_orphaned :
      (h : List Call) (remote : Option RemoteDeploy) (w : World)
      → env.remote_reply h (get_remote_deploy_status t) ≡ answered remote
      → let (r, w') = keep_orphaned remote w in Found env t w.clock r × (w'.apps ≡ w.apps)
  kept_orphaned h none w e = (tt, refl)
  kept_orphaned h (some remote) w e = elim (Bool-cases (has_unusable_date remote)) [
    | inl y ↦ rw y ((remote, (h, e), y), refl)
    | inr n ↦ elim (Bool-cases (is_orphaned w.clock remote)) [
      | inl old ↦ rw (n, old) (((h, e), old), refl)
      | inr new ↦ rw (n, new) (tt, refl)
    ]
  ]

  after_reply :
      (r : Reply (Option RemoteDeploy)) (h : List Call) (w : World)
      → env.remote_reply h (get_remote_deploy_status t) ≡ r
      → let (r', w') = (catch (receive env r) (λ e. pure none) >>= keep_orphaned) w in
        Found env t w.clock r' × (w'.apps ≡ w.apps)
  after_reply (answered remote) h w e = kept_orphaned h remote w e
  after_reply (failed text) h w e = (tt, refl)

  -- The question to the server changes nothing, and its answer is a state that was given.
  orphaned_remote_deploy-at :
      (w : World)
      → let (r, w') = orphaned_remote_deploy env app t w in
        Found env t w.clock r × (w'.apps app.id ≡ w.apps app.id)
  unfolding orphaned_remote_deploy
  orphaned_remote_deploy-at w =
      let c = get_remote_deploy_status t in
      let (f, same) = after_reply (env.remote_reply w.calls c) w.calls (after_call env c w) refl in
      (f, ap (λ (table : Table). table app.id) same ∙ q w.calls c w.apps app.id)

  -- What follows the question
  end_orphan-Ends :
      (r : Result (Option RemoteDeploy)) (now : ℕ) (w : World)
      → Found env t now r
      → w.apps app.id ≡ some app
      → app.task_id ≡ some t
      → let (r', w') = continue r (end_orphan env app t) w in Ends env app t now r' (w'.apps app.id)
  unfolding end_orphan
  end_orphan-Ends (err e) now w f found owned = (found, f)
  end_orphan-Ends (ok none) now w f found owned = found
  end_orphan-Ends (ok (some remote)) now w (says, orphaned) found owned =
      let saved = save_owned app app t (orphan_fields app remote) w found owned in
      rw saved.0 (remote, says, orphaned, saved.1, end_status-orphan_fields app remote)

  reconcile_marked-Ends :
      (added : Bool) (w : World)
      → w.apps app.id ≡ some app
      → app.task_id ≡ some t
      → let (r, w') = reconcile_marked env app t added w in
        Ends env app t w.clock r (w'.apps app.id)
  unfolding reconcile_marked
  reconcile_marked-Ends false w found owned = found
  reconcile_marked-Ends true w found owned =
      let (f, same) = orphaned_remote_deploy-at w in
      let (r, w') = orphaned_remote_deploy env app t w in
      end_orphan-Ends r w.clock w' f (same ∙ found) owned

  add_mark-at :
      (w : World)
      → (b : Bool) × ((add_mark app.id w).0 ≡ ok b)
        × ((add_mark app.id w).1.apps ≡ w.apps)
        × ((add_mark app.id w).1.clock ≡ w.clock)
  unfolding add_mark
  add_mark-at w = elim (Bool-cases (is_fresh w.clock (w.reconciled app.id))) [
    | inl y ↦ rw y (false, refl, refl, refl)
    | inr n ↦ rw n (true, refl, refl, refl)
  ]

-- If the reconciliation of a deploy says that it wrote, then the server had said that the build
-- ended, and either lost it or ended it five minutes ago at least, and the row got the status of
-- that end: RUNNING only after a success of an app with a domain, ERROR otherwise. If it says that
-- it did not write, the row is as it was. It raises only if the server gave, for a build that ended
-- and was not lost, a date without a time zone or a value that is no text, and then too the row is
-- as it was. For an app that its deploy owns, while no other process writes the apps table.
pub reconcile-Reconciled :
    (env : Env) (app : App) (t : String) (w : World)
    → IsQuiet env
    → w.apps app.id ≡ some app
    → app.task_id ≡ some t
    → t ≢ ""
    → let (r, w') = reconcile_orphan_remote_deploy env app w in
      Ends env app t w.clock r (w'.apps app.id)
unfolding reconcile_orphan_remote_deploy
reconcile-Reconciled env app t w q found owned non_empty =
    let (b, e, same, now) = add_mark-at env q app t w in
    let skip =
      not env.remote_deploy_plugin || not (is_deploying app.status) || not (truthy app.task_id) in
    elim (Bool-cases skip) [
      | inl y ↦ rw y found
      | inr n ↦
          rw (n, e, or_else_owned app.task_id t owned non_empty)
            (let m = reconcile_marked env app t b (add_mark app.id w).1 in
              subst (λ k. Ends env app t k m.0 (m.1.apps app.id)) now
                (reconcile_marked-Ends env q app t b (add_mark app.id w).1
                  (ap (λ (table : Table). table app.id) same ∙ found) owned))
    ]
