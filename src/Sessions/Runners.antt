-- ===== src/Sessions/Runners.antt =====
-- interactive_sessions/interactive_runner.py: which runner process runs which session.
use fabroku_back_end.Base.{
  ℕ, zero, suc, ◌+◌, ◌-◌, ◌*◌, max, String, Bool, true, not, ◌&&◌, Option, none, some, List, [],
  ◌∷◌, any, update_where, is_some, ltb, leb, str_eq, if◌then◌else◌,
}
use fabroku_back_end.Sessions.Model.{Session, Runner, Desk, Settings, is_pending}
use fabroku_back_end.Sessions.Operations.{cleanup_expired}

module _ (c : Settings) where
  -- `get_interactive_runner_heartbeat_seconds`
  abbrev heartbeat_seconds : ℕ
  heartbeat_seconds = max 1 c.heartbeat_seconds

  -- `last_heartbeat_at >= now - 3 * heartbeat`, with the difference on the other side
  abbrev pub is_live : ℕ → Runner → Bool
  is_live now r = leb now (r.last_heartbeat_at + heartbeat_seconds * 3)

  -- `has_live_interactive_runner`
  unfoldable pub has_live_interactive_runner : Desk → Bool
  has_live_interactive_runner d = any (is_live d.clock) d.runners

  -- Whether a runner is one of `get_live_interactive_runner_ids`.
  unfoldable pub is_live_id : Desk → String → Bool
  is_live_id d id = any (λ r. is_live d.clock r && str_eq r.runner_id id) d.runners

  -- `update_or_create`
  abbrev touch_rows : Runner → List Runner → List Runner
  touch_rows r [] = r ∷ []
  touch_rows r (x ∷ xs) = if str_eq x.runner_id r.runner_id then r ∷ xs else x ∷ touch_rows r xs

  abbrev or_maximum : Option ℕ → ℕ
  or_maximum (some (suc n)) = suc n
  or_maximum _ = max 1 c.max_sessions

  -- `touch_interactive_runner`
  unfoldable pub touch_interactive_runner : String → ℕ → Option ℕ → Desk → Desk
  touch_interactive_runner id active maximum d = record d {
    runners =
        touch_rows
          (record {
            runner_id = id;
            max_sessions = or_maximum maximum;
            active_sessions = active;
            last_heartbeat_at = d.clock;
          })
          d.runners;
  }

  abbrev is_live_owner : Desk → Option String → Bool
  is_live_owner d none = true
  is_live_owner d (some id) = is_live_id d id

  -- A PENDING row whose runner is not among the live ones.
  abbrev pub is_abandoned : Desk → Session → Bool
  is_abandoned d s = is_pending s.status && not (is_live_owner d s.runner_id)

  abbrev pub release : Session → Session
  release s = record s { runner_id = none; claimed_at = none }

  -- `release_stale_interactive_claims`
  unfoldable pub release_stale : Desk → Desk
  release_stale d = record d { sessions = update_where (is_abandoned d) release d.sessions }

abbrev pub is_free : ℕ → Session → Bool
is_free now s = is_pending s.status && not (is_some s.runner_id) && ltb now s.expires_at

abbrev pub claimed_by : String → ℕ → Session → Session
claimed_by runner now s = record s { runner_id = some runner; claimed_at = some now }

-- The first `limit` free rows, and the table with those claimed.
unfoldable pub claim_first : String → ℕ → ℕ → List Session → List Session × List Session
claim_first runner now limit [] = ([], [])
claim_first runner now limit (s ∷ rows) =
    let (mine, rest) = claim_first runner now (if is_free now s then limit - 1 else limit) rows in
    if is_free now s && ltb 0 limit
    then (claimed_by runner now s ∷ mine, claimed_by runner now s ∷ rest)
    else (mine, s ∷ rest)

abbrev claim_rows : String → ℕ → Desk → List Session × Desk
claim_rows runner limit d =
    let (mine, rows) = claim_first runner d.clock limit d.sessions in
    (mine, record d { sessions = rows })

-- `claim_pending_interactive_sessions`
unfoldable pub claim_pending : Settings → String → ℕ → Desk → List Session × Desk
claim_pending c runner zero d = ([], d)
claim_pending c runner (suc limit) d =
    claim_rows runner (suc limit) (release_stale c (cleanup_expired d))
