-- ===== src/Sessions/Audit.antt =====
-- The audit trail of a session: how its chunks are numbered. Trail has it over lists of activities.
pub mod Trail
use mathlib.Core.Path.{subst}
use fabroku_back_end.Base.{
  ℕ, zero, suc, String, Bool, true, false, not, ◌&&◌, Option, none, some, List, [], ◌∷◌, ◌++◌, ◌≡◌,
  refl, sym, ap, ◌∙◌, arith, map, keep_if, find, update_where, Codes, str_eq, eq_iff, inl, inr, ◌-◌,
  Bool-cases, Option-cases, if◌then◌else◌,
}
use fabroku_back_end.Runtime.Effects.{Result, ok, err}
use fabroku_back_end.Sessions.Model.{
  Session, Settings, Chunk, Desk, Direction, has_id, session_of, update_session,
}
use fabroku_back_end.Sessions.Rows.{
  mark, touch, submit, request_cancel, consume_answer, set_prompt, count_chunk,
}
use fabroku_back_end.Sessions.Operations.{
  consume_chunks, create_audit_chunk, add_chunk, on_row, locked,
}
use fabroku_back_end.Sessions.Cancel.{find-update_where}
use fabroku_back_end.Sessions.Queue.{count_chunk-id}

abbrev pub is_of : String → Chunk → Bool
is_of id k = str_eq k.session_id id

-- The numbers of the chunks of a session
unfoldable pub sequences : String → List Chunk → List ℕ
sequences id ks = map (λ k. k.sequence) (keep_if (is_of id) ks)

abbrev pub upto : ℕ → List ℕ
upto zero = []
upto (suc n) = upto n ++ (suc n ∷ [])

abbrev pub counter : Option Session → ℕ
counter none = 0
counter (some s) = s.audit_sequence

-- The chunks of a session are numbered from 1 to its counter.
abbrev pub IsNumbered : String → Desk → Type 0
IsNumbered id d = sequences id d.chunks ≡ upto (counter (session_of id d))

sequences-append_of :
    (id : String) (ks : List Chunk) (k : Chunk)
    → is_of id k ≡ true
    → sequences id (ks ++ (k ∷ [])) ≡ sequences id ks ++ (k.sequence ∷ [])
unfolding sequences
sequences-append_of id [] k h = ground arith
sequences-append_of id (j ∷ ks) k h = ground (arith, sequences-append_of id ks k h)

sequences-append_other :
    (id : String) (ks : List Chunk) (k : Chunk)
    → is_of id k ≡ false
    → sequences id (ks ++ (k ∷ [])) ≡ sequences id ks
unfolding sequences
sequences-append_other id [] k h = ground arith
sequences-append_other id (j ∷ ks) k h = ground (arith, sequences-append_other id ks k h)

pub counter-update_where :
    (id : String) (p : Session → Bool) (f : Session → Session) (xs : List Session)
    → ((x : Session) → ((f x).id ≡ x.id) × ((f x).audit_sequence ≡ x.audit_sequence))
    → counter (find (has_id id) (update_where p f xs)) ≡ counter (find (has_id id) xs)
counter-update_where id p f [] same = refl
counter-update_where id p f (x ∷ xs) same =
    let (i, a) = same x in ground (arith, i, a, counter-update_where id p f xs same)

find-update_other :
    (id other : String) (f : Session → Session) (xs : List Session)
    → ((x : Session) → (f x).id ≡ x.id)
    → str_eq other id ≡ false
    → find (has_id id) (update_where (has_id other) f xs) ≡ find (has_id id) xs
find-update_other id other f [] same ne = refl
find-update_other id other f (x ∷ xs) same ne = ground (
  arith,
  same x,
  eq_iff x.id id,
  eq_iff x.id other,
  eq_iff other id,
  find-update_other id other f xs same ne,
)

module _ (c : Settings) (id : String) where
  pub sequences-consume_chunks :
      (other : String) (now n : ℕ) (ks : List Chunk)
      → sequences id (consume_chunks c other now n ks).1 ≡ sequences id ks
  unfolding sequences consume_chunks
  sequences-consume_chunks other now n [] = refl
  sequences-consume_chunks other now n (k ∷ ks) = ground (
    arith,
    sequences-consume_chunks other now n ks,
    sequences-consume_chunks other now (n - 1) ks,
  )

  count_chunk-audit :
      (now : ℕ) (s : Session) → (count_chunk c now s).audit_sequence ≡ suc s.audit_sequence
  unfolding count_chunk touch
  count_chunk-audit now s = ground arith

  abbrev chunk_of : String → Direction → Codes → ℕ → Chunk
  chunk_of other direction v n = record {
    session_id = other;
    direction = direction;
    sequence = n;
    content_ciphertext = c.encrypt v;
    consumed_at = none;
  }

  create_audit_chunk_same :
      (direction : Direction) (v : Codes) (d : Desk) (s : Session)
      → session_of id d ≡ some s
      → IsNumbered id d
      → IsNumbered id (create_audit_chunk c id direction v d).1
  unfolding create_audit_chunk
  create_audit_chunk_same direction v d s e h =
      let counted = count_chunk c d.clock s in
      let found =
        find-update_where id (count_chunk c d.clock) d.sessions s (count_chunk-id c d.clock) e in
      let next = count_chunk-audit d.clock s in
      let before : sequences id d.chunks ≡ upto s.audit_sequence =
        h ∙ ap (λ o. upto (counter o)) e in
      rw (e, found, found)
        (sequences-append_of id d.chunks (chunk_of id direction v counted.audit_sequence)
            (ground (arith, eq_iff id id))
          ∙ subst (λ m. sequences id d.chunks ++ (m ∷ []) ≡ upto m) (sym next)
              (ap (λ l. l ++ (suc s.audit_sequence ∷ [])) before))

  create_audit_chunk_other :
      (other : String) (direction : Direction) (v : Codes) (d : Desk) (s : Session)
      → str_eq other id ≡ false
      → session_of other d ≡ some s
      → IsNumbered id d
      → IsNumbered id (create_audit_chunk c other direction v d).1
  unfolding create_audit_chunk
  create_audit_chunk_other other direction v d s ne e h =
      let counted = count_chunk c d.clock s in
      let found =
        find-update_where other (count_chunk c d.clock) d.sessions s (count_chunk-id c d.clock) e in
      let elsewhere =
        find-update_other id other (count_chunk c d.clock) d.sessions (count_chunk-id c d.clock)
          ne in
      rw (e, found, elsewhere)
        (sequences-append_other id d.chunks (chunk_of other direction v counted.audit_sequence) ne
          ∙ h)

  pub create_audit_chunk-IsNumbered :
      (other : String) (direction : Direction) (v : Codes) (d : Desk)
      → IsNumbered id d
      → IsNumbered id (create_audit_chunk c other direction v d).1
  unfolding create_audit_chunk
  create_audit_chunk-IsNumbered other direction v d h = elim (Option-cases (session_of other d)) [
    | inl e ↦ rw (e, e) h
    | inr (s, e) ↦ elim (Bool-cases (str_eq other id)) [
      | inr ne ↦ create_audit_chunk_other other direction v d s ne e h
      | inl same ↦
          let eq : id ≡ other = sym ((eq_iff other id).0 same) in
          subst (λ x. IsNumbered id (create_audit_chunk c x direction v d).1) eq
            (create_audit_chunk_same direction v d s (rw eq e) h)
    ]
  ]
