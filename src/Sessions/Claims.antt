-- ===== src/Sessions/Claims.antt =====
-- What a runner's claim takes, and what it leaves alone.
use fabroku_back_end.Base.{
  ℕ, zero, suc, ◌-◌, ◌≤◌, String, Bool, true, false, ◌&&◌, List, [], ◌∷◌, ◌≡◌, ◌≢◌, refl, ◌∙◌,
  arith, all, keep_if, length, update_where, ltb, holds_text, holds_text-eq, eq_iff, inl, inr,
  Bool-cases, if◌then◌else◌,
}
use fabroku_back_end.Sessions.Model.{Session, Desk, Settings, is_pending}
use fabroku_back_end.Sessions.Operations.{cleanup_expired, is_stale}
use fabroku_back_end.Sessions.Rows.{expire}
use fabroku_back_end.Sessions.Runners.{
  is_live_id, is_abandoned, release, release_stale, is_free, claim_first, claim_pending,
}

-- A row that a runner has claimed and has not begun, and that has not expired.
abbrev pub is_held : String → ℕ → Session → Bool
is_held runner now s = holds_text s.runner_id runner && is_pending s.status && ltb now s.expires_at

-- A row of a runner that has not expired, whatever its status
abbrev pub is_kept : String → ℕ → Session → Bool
is_kept runner now s = holds_text s.runner_id runner && ltb now s.expires_at

keep_if-update_where :
    (p q : Session → Bool) (f : Session → Session) (xs : List Session)
    → ((x : Session) → q x ≡ true → (p x ≡ false) × (p (f x) ≡ false))
    → keep_if p (update_where q f xs) ≡ keep_if p xs
keep_if-update_where p q f [] h = refl
keep_if-update_where p q f (x ∷ xs) h = elim (Bool-cases (q x)) [
  | inl e ↦ let (before, after) = h x e in rw (e, before, after) (keep_if-update_where p q f xs h)
  | inr e ↦ elim (Bool-cases (p x)) [
    | inl e' ↦ rw (e, e', keep_if-update_where p q f xs h) refl
    | inr e' ↦ rw (e, e') (keep_if-update_where p q f xs h)
  ]
]

claim_first-is_kept :
    (runner other : String) (now limit : ℕ) (rows : List Session)
    → runner ≢ other
    → keep_if (is_kept other now) (claim_first runner now limit rows).1
      ≡ keep_if (is_kept other now) rows
unfolding claim_first
claim_first-is_kept runner other now limit [] ne = refl
claim_first-is_kept runner other now limit (s ∷ rows) ne =
    let rest =
      claim_first-is_kept runner other now (if is_free now s then limit - 1 else limit) rows ne in
    ground (arith, rest, eq_iff runner other)

claim_first_lem :
    (runner : String) (now limit : ℕ) (rows : List Session)
    → let mine = (claim_first runner now limit rows).0 in
      (length mine ≤ limit) × (all (is_held runner now) mine ≡ true)
unfolding claim_first
claim_first_lem runner now limit [] = (omega arith, refl)
claim_first_lem runner now limit (s ∷ rows) =
    let (few, held) =
      claim_first_lem runner now (if is_free now s then limit - 1 else limit) rows in
    (ground (arith, few), ground (arith, held, eq_iff runner runner))

module _ (c : Settings) where
  abandoned-is_kept :
      (d : Desk) (x : Session) (other : String) (now : ℕ)
      → is_live_id c d other ≡ true
      → is_abandoned c d x ≡ true
      → is_kept other now x ≡ false
  abandoned-is_kept d x other now live e = elim (Bool-cases (holds_text x.runner_id other)) [
    | inl h ↦ let owner = holds_text-eq x.runner_id other h in ground (arith, owner)
    | inr h ↦ ground arith
  ]

  -- A claim takes at most `limit` sessions; all of them were PENDING and not expired, and are the
  -- runner's now.
  pub claim_pending_lem :
      (runner : String) (limit : ℕ) (d : Desk)
      → let mine = (claim_pending c runner limit d).0 in
        (length mine ≤ limit) × (all (is_held runner d.clock) mine ≡ true)
  unfolding claim_pending release_stale cleanup_expired
  claim_pending_lem runner zero d = (omega arith, refl)
  claim_pending_lem runner (suc limit) d =
      claim_first_lem runner d.clock (suc limit) (release_stale c (cleanup_expired d)).sessions

  -- A claim leaves alone every session that belongs to another runner and has not expired, whether
  -- it waits, runs or has ended, if that runner is live: none is added, none is lost and none changes.
  pub claim_pending-is_kept :
      (runner other : String) (limit : ℕ) (d : Desk)
      → runner ≢ other
      → is_live_id c d other ≡ true
      → keep_if (is_kept other d.clock) (claim_pending c runner limit d).1.sessions
        ≡ keep_if (is_kept other d.clock) d.sessions
  unfolding claim_pending release_stale cleanup_expired is_live_id
  claim_pending-is_kept runner other zero d ne live = refl
  claim_pending-is_kept runner other (suc limit) d ne live =
      let cleaned = cleanup_expired d in
      claim_first-is_kept runner other d.clock (suc limit) (release_stale c cleaned).sessions ne
      ∙ keep_if-update_where (is_kept other d.clock) (is_abandoned c cleaned) (release c)
          cleaned.sessions (λ x e. (abandoned-is_kept cleaned x other d.clock live e, refl))
      ∙ keep_if-update_where (is_kept other d.clock) (is_stale d.clock) (expire d.clock) d.sessions
          (λ x e. (ground arith, ground arith))
