-- ===== src/Apps/Cancel/Outcome.antt =====
-- How the cancel of a deploy ends.
use fabroku_back_end.Base.{
  Bool, List, ◌⊎◌, ◌==◌, ◌<>◌, str_eq, strip_text, lower_text, Bool-cases, ℕ, String, ◌≡◌, ◌≢◌,
  refl, ap, ◌∙◌, true, false, ◌||◌, Option, none, some, truthy, or_else, arith, inl, inr, eq_iff,
}
use Prim.Native.Char.{code}
use text.Mathlib.TextLemmas.{cons-append}
use mathlib.Core.Path.{subst}
use fabroku_back_end.Base.Dict.{lookup, erase, lookup_erased}
use fabroku_back_end.Models.App.{App, AppStatus, is_deploying, is_transient, set_fields}
use fabroku_back_end.Models.Errors.{message}
use fabroku_back_end.Runtime.World.{
  Env, Cached, World, IsQuiet, Call, Reply, answered, failed, is_answered, ps_report, revoke,
}
use fabroku_back_end.Runtime.Effects.{
  Result, ok, Action, pure, catch, call, receive, after_call, Result-cases, change, when, ◌>>=◌,
}
use fabroku_back_end.Runtime.Frame.{Frame, Safe, frame_rules, safe_rules, Frame-call, Safe-when}
use fabroku_back_end.Runtime.Ensures.{
  Returned, Ensures, Ensures-pure, Ensures-then, Ensures-bind, WasAnswered,
}
use fabroku_back_end.Ownership.{is_finished, owned_by}
use fabroku_back_end.Ownership.Pending.{clear_pending_redeploy, fresh}
use fabroku_back_end.Apps.Deploy.{pop_pending_commit_status}
use fabroku_back_end.Apps.Deploy.Rows.{Owned, save_owned}
use fabroku_back_end.Apps.Views.{Response, accepted}
use fabroku_back_end.Apps.Cancel.{
  cancel_remote, cleanup_after_cancel, status_of_output, app_status_after_cancel, fail_commit,
  mark_cancelled_commit, cancelled_fields, revoke_running, stop_build, settle, cancel_deploy,
  stop_view,
}

pub pending-clear :
    (id : ℕ) (w : World) → (clear_pending_redeploy id w).1.pending_redeploys id ≡ none
unfolding clear_pending_redeploy
pending-clear id w = ground arith

-- The result of a safe action.
returned_value : {A : Type 0} (m : Action A) (w : World) → Safe m → (a : A) × ((m w).0 ≡ ok a)
returned_value m w k = elim (Result-cases (m w).0) [
  | inl p ↦ p
  | inr (e, p) ↦ ground (arith, k.returns w)
]

-- What Dokku says of the containers of an app, trimmed and in lower case
abbrev pub shown : String → String
shown text = lower_text (strip_text text)

abbrev pub runs : String → Bool
runs text = str_eq (shown text) "true" || str_eq (shown text) "mixed"

-- An answer that tells neither that the app runs nor that it does not
abbrev pub IsUnclear : Reply String → Type 0
IsUnclear (answered text) = (runs text ≡ false) × (str_eq (shown text) "false" ≡ false)
IsUnclear (failed text) = Unit

abbrev pub report_call : App → Call
report_call app = ps_report (or_else app.name_dokku "") "--running"

-- The status is the one that Dokku reports: RUNNING if it says that all or some containers run,
-- STOPPED if it says that none does, and ERROR if it says anything else, or fails.
abbrev pub Reports : Env → App → AppStatus → Type 0
Reports env app AppStatus.running =
    (text : String) × WasAnswered env (report_call app) text × (runs text ≡ true)
Reports env app AppStatus.stopped =
    (text : String) × WasAnswered env (report_call app) text × (str_eq (shown text) "false" ≡ true)
Reports env app AppStatus.error = (h : List Call) × IsUnclear (env.text_reply h (report_call app))
Reports env app _ = true ≡ false

-- A cancel of a deploy ends it for the row, the push that waits and the commit.
abbrev pub Cancels : Env → App → String → Result Response → World → Type 0
Cancels env app t r w' =
    (s : AppStatus) × (r ≡ ok (accepted s (some t)))
    × Reports env app s
    × (is_transient s ≡ false)
    × Owned t s Unit (w'.apps app.id)
    × (w'.pending_redeploys app.id ≡ none)
    × (lookup t w'.commit_checks ≡ none)

abbrev first : String → ℕ
first String.[] = 0
first (String.◌∷◌ c s) = code c

-- Texts that begin differently differ.
first-apart : (s t : String) → (first s == first t) ≡ false → str_eq s t ≡ false
first-apart s t h = elim (Bool-cases (str_eq s t)) [
  | inl same ↦ let e = ap first ((eq_iff s t).0 same) in ground (arith, e)
  | inr other ↦ other
]

-- The text of an exception is none of the answers.
unclear_error :
    (m : String)
    → let output = "erro: " <> m in
      (str_eq output "true" ≡ false)
      × (str_eq output "mixed" ≡ false)
      × (str_eq output "false" ≡ false)
unclear_error m =
    let e : first ("erro: " <> m) ≡ 101 = ap first (cons-append _ "rro: " m) in
    let h : (k : ℕ) → (101 == k) ≡ false → (first ("erro: " <> m) == k) ≡ false = λ k n. rw e n in
    (
      first-apart _ "true" (h 116 refl),
      first-apart _ "mixed" (h 109 refl),
      first-apart _ "false" (h 102 refl),
    )

module _ (env : Env) (q : IsQuiet env) (app : App) where
  Safe-cancel_remote : (t : String) → Safe (cancel_remote env app t)
  unfolding cancel_remote
  Safe-cancel_remote t = search (frame_rules, Frame-call env q) depth 8

  Safe-cleanup_after_cancel : Safe (cleanup_after_cancel env app)
  unfolding cleanup_after_cancel
  Safe-cleanup_after_cancel = search (frame_rules, Frame-call env q) depth 8

  Safe-app_status_after_cancel : Safe (app_status_after_cancel env app)
  unfolding app_status_after_cancel
  Safe-app_status_after_cancel = search (frame_rules, Frame-call env q) depth 8

  Safe-stop_build : (t : String) → Safe (stop_build env app t)
  unfolding stop_build
  Safe-stop_build t =
      search
        (safe_rules, Safe-cancel_remote, Safe-cleanup_after_cancel, Safe-app_status_after_cancel)
        depth 8

  Safe-fail_commit : (sha : String) (token : Option String) → Safe (fail_commit env app sha token)
  Safe-fail_commit sha none = search safe_rules
  Safe-fail_commit sha (some token) = search (frame_rules, Frame-call env q) depth 8

  abbrev IsSettled : AppStatus × Option String → Type 0
  IsSettled st = is_transient st.0 ≡ false

  status_of_output-IsSettled : (output : String) → IsSettled (status_of_output env app output)
  status_of_output-IsSettled output = ground arith

  -- What the question for the state gives
  abbrev Told : String → Type 0
  Told output =
      ((text : String) × WasAnswered env (report_call app) text × (output ≡ shown text))
      ⊎ ((h : List Call) × (text : String) × (env.text_reply h (report_call app) ≡ failed text)
          × (output ≡ "erro: " <> text))

  abbrev tell : Action String → Action String
  tell m = catch (do text ← m; pure (shown text)) (λ e. pure ("erro: " <> message e))

  told :
      (reply : Reply String) (h : List Call) (w : World)
      → env.text_reply h (report_call app) ≡ reply
      → Returned Told (tell (receive env reply) w).0
  unfolding message
  told (answered text) h w e = inl (text, (h, e), refl)
  told (failed text) h w e = inr (h, text, e, refl)

  status_of_output-Reports :
      (output : String) → Told output → Reports env app (status_of_output env app output).0
  status_of_output-Reports output (inl (text, was, same)) = elim (Bool-cases (runs text)) [
    | inl y ↦ rw (same, y) (text, was, y)
    | inr n ↦ elim (Bool-cases (str_eq (shown text) "false")) [
      | inl y ↦ rw (same, n, y) (text, was, y)
      | inr m ↦ rw (same, n, m) (was.0, rw was.1 (n, m))
    ]
  ]
  status_of_output-Reports output (inr (h, text, e, same)) =
      let (a, b, c) = unclear_error text in rw (same, a, b, c) (h, rw e tt)

  stop_build-Reports :
      (t : String) → Ensures (λ st. IsSettled st × Reports env app st.0) (stop_build env app t)
  unfolding stop_build app_status_after_cancel
  stop_build-Reports t =
      let P : AppStatus × Option String → Type 0 = λ st. IsSettled st × Reports env app st.0 in
      Ensures-then P (cancel_remote env app t) _ (
        Ensures-then P (cleanup_after_cancel env app) _ (
          Ensures-bind Told P (tell (call env (report_call app)))
            (λ output w. (ok (status_of_output env app output), w))
            (record {
              at = λ w.
                  told (env.text_reply w.calls (report_call app)) w.calls
                    (after_call env (report_call app) w) refl;
            })
            (λ output h.
              Ensures-pure P (status_of_output env app output)
                (status_of_output-IsSettled output, status_of_output-Reports output h))))

  mark_cancelled_commit-at :
      (t : String) (user_id : ℕ) (w : World)
      → let (r, w') = mark_cancelled_commit env app t user_id w in
        (r ≡ ok tt)
        × ((j : ℕ) → w'.apps j ≡ w.apps j)
        × (w'.pending_redeploys ≡ w.pending_redeploys)
        × (w'.commit_checks ≡ erase t w.commit_checks)
  unfolding mark_cancelled_commit pop_pending_commit_status
  mark_cancelled_commit-at t user_id w =
      let popped = record w { commit_checks = erase t w.commit_checks } in
      let sha = fresh w.clock (lookup t w.commit_checks) in
      let m = fail_commit env app (or_else sha "") (env.git_token app.project_id user_id) in
      let k =
        Safe-when (truthy sha) m
          (Safe-fail_commit (or_else sha "") (env.git_token app.project_id user_id)) in
      let same = k.frame.same popped in
      ((returned_value (when (truthy sha) m) popped k).1, same.apps, same.pending, same.checks)

  task_id-cancelled_fields :
      (st : AppStatus × Option String) (row : App)
      → (set_fields (cancelled_fields env app st) row).task_id ≡ row.task_id
  task_id-cancelled_fields (status, none) row = refl
  task_id-cancelled_fields (status, some details) row = refl

  status-cancelled_fields :
      (st : AppStatus × Option String) (row : App)
      → (set_fields (cancelled_fields env app st) row).status ≡ st.0
  status-cancelled_fields (status, none) row = refl
  status-cancelled_fields (status, some details) row = refl

  settle-Ends :
      (t : String) (user_id : ℕ) (st : AppStatus × Option String) (row : App) (w : World)
      → w.apps app.id ≡ some row
      → row.task_id ≡ some t
      → let (r, w') = settle env app t user_id st w in
        (r ≡ ok (accepted st.0 (some t)))
        × Owned t st.0 Unit (w'.apps app.id)
        × (w'.pending_redeploys ≡ w.pending_redeploys)
        × (lookup t w'.commit_checks ≡ none)
  unfolding settle
  settle-Ends t user_id st row w found owned =
      let fs = cancelled_fields env app st in
      let saved = save_owned app row t fs w found owned in
      let marked =
        mark_cancelled_commit-at t user_id
          (record w { apps = change app.id (owned_by t) fs w.apps }) in
      rw (saved.0, marked.0)
        (
          ap (λ s. ok (accepted s (some t))) (status-cancelled_fields st app),
          (
            set_fields fs row,
            marked.1 app.id ∙ saved.1,
            task_id-cancelled_fields st row ∙ owned,
            status-cancelled_fields st row,
            tt,
          ),
          marked.2,
          ap (lookup t) marked.3 ∙ lookup_erased t w.commit_checks,
        )

  Frame-revoke_running : (t : String) → Frame (revoke_running env app t)
  unfolding revoke_running
  Frame-revoke_running t = search (frame_rules, Frame-call env q) depth 8

  revoke_running_ok :
      (t : String) (w : World)
      → (is_finished (env.task_state t) || is_answered (env.text_reply w.calls (revoke t))) ≡ true
      → (revoke_running env app t w).0 ≡ ok tt
  unfolding revoke_running
  revoke_running_ok t w h = ground arith

  cancel_deploy-Cancels :
      (t : String) (user_id : ℕ) (row : App) (w : World)
      → w.apps app.id ≡ some row
      → row.task_id ≡ some t
      → (is_finished (env.task_state t) || is_answered (env.text_reply w.calls (revoke t))) ≡ true
      → let (r, w') = cancel_deploy env app t user_id w in Cancels env app t r w'
  unfolding cancel_deploy clear_pending_redeploy
  cancel_deploy-Cancels t user_id row w found owned revoked =
      let w1 = (revoke_running env app t w).1 in
      let w2 = (clear_pending_redeploy app.id w1).1 in
      let (st, e) = returned_value (stop_build env app t) w2 (Safe-stop_build t) in
      let same = (Safe-stop_build t).frame.same w2 in
      let there = same.apps app.id ∙ ((Frame-revoke_running t).same w).apps app.id ∙ found in
      let ends = settle-Ends t user_id st row (stop_build env app t w2).1 there owned in
      let settled =
        subst (Returned (λ a. IsSettled a × Reports env app a.0)) e
          ((stop_build-Reports t).at w2) in
      rw (revoke_running_ok t w revoked, e)
        (
          st.0,
          ends.0,
          settled.1,
          settled.0,
          ends.1,
          ap (λ (f : ℕ → Option (Cached (Option String))). f app.id) (ends.2 ∙ same.pending)
              ∙ pending-clear app.id w1,
          ends.3,
        )

stop_view_cancels :
    (env : Env) (app : App) (t : String) (user_id : ℕ) (w : World)
    → app.task_id ≡ some t
    → t ≢ ""
    → is_deploying app.status ≡ true
    → stop_view env app user_id w ≡ cancel_deploy env app t user_id w
unfolding stop_view
stop_view_cancels env app t user_id w owned non_empty deploying =
    ground (arith, eq_iff t "", ap truthy owned, ap (λ o. or_else o "") owned)

-- Stopping an app while it is deployed cancels the deploy: the answer names the status that the row
-- gets, which is the one Dokku reports, RUNNING, STOPPED, or ERROR if Dokku tells neither, and never
-- a transient one; the row still belongs to the deploy, the push that waits for the app is dropped,
-- and the check of the commit no longer waits. For a row that the deploy owns, whatever the plugin,
-- Dokku and GitHub answer, if the task is over or the broker takes its revocation, and while no
-- other process writes the apps table.
pub stop_view-Cancels :
    (env : Env) (app : App) (t : String) (user_id : ℕ) (w : World)
    → IsQuiet env
    → w.apps app.id ≡ some app
    → app.task_id ≡ some t
    → t ≢ ""
    → is_deploying app.status ≡ true
    → (is_finished (env.task_state t) || is_answered (env.text_reply w.calls (revoke t))) ≡ true
    → let (r, w') = stop_view env app user_id w in Cancels env app t r w'
stop_view-Cancels env app t user_id w q found owned non_empty deploying revoked =
    rw (stop_view_cancels env app t user_id w owned non_empty deploying)
      (cancel_deploy-Cancels env q app t user_id app w found owned revoked)
