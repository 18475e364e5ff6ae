-- ===== src/Sessions/Queue.antt =====
-- The terminal input of a session is a queue: `queue_interactive_terminal_input` puts at its end,
-- `_consume_terminal_input_chunks` takes from its front.
use Prim.Native.Nat.{min}
use fabroku_back_end.Base.{
  ℕ, zero, suc, String, true, false, none, some, List, [], ◌∷◌, ◌++◌, ◌≡◌, refl, ap, ◌∙◌, arith,
  map, keep_if, length, Codes, inl, inr, Bool-cases, Option-cases, eq_iff,
}
use fabroku_back_end.Runtime.Effects.{Result, ok, err}
use fabroku_back_end.Sessions.Model.{
  Session, Settings, IsCipher, Chunk, Desk, session_of, update_session, Direction,
  is_postgres_connect, takes_input,
}
use fabroku_back_end.Sessions.Rows.{count_chunk, touch}
use fabroku_back_end.Sessions.Operations.{
  is_waiting, consume_chunks, consume_terminal_input, queue_terminal_input, create_audit_chunk,
  add_chunk, queue_on,
}
use fabroku_back_end.Sessions.Cancel.{find-update_where}

pub count_chunk-id : (c : Settings) (now : ℕ) (s : Session) → (count_chunk c now s).id ≡ s.id
unfolding count_chunk touch
count_chunk-id c now s = ground arith

module _ (c : Settings) (id : String) where
  -- The queue: the input that is still to be written to the channel.
  unfoldable pub waiting : List Chunk → List Codes
  waiting ks = map (λ k. c.decrypt k.content_ciphertext) (keep_if (is_waiting id) ks)

  waiting-append :
      (ks : List Chunk) (k : Chunk)
      → is_waiting id k ≡ true
      → waiting (ks ++ (k ∷ [])) ≡ waiting ks ++ (c.decrypt k.content_ciphertext ∷ [])
  unfolding waiting
  waiting-append [] k h = ground arith
  waiting-append (j ∷ ks) k h = ground (arith, waiting-append ks k h)

  consume_chunks_none : (now : ℕ) (ks : List Chunk) → consume_chunks c id now 0 ks ≡ ([], ks)
  unfolding consume_chunks
  consume_chunks_none now [] = refl
  consume_chunks_none now (k ∷ ks) = ground (arith, consume_chunks_none now ks)

  consumed-is_waiting :
      (now : ℕ) (k : Chunk) → is_waiting id (record k { consumed_at = some now }) ≡ false
  consumed-is_waiting now k = ground arith

  consume_chunks-waiting :
      (now n : ℕ) (ks : List Chunk)
      → let (values, rest) = consume_chunks c id now n ks in
        (values ++ waiting rest ≡ waiting ks) × (length values ≡ min n (length (waiting ks)))
  unfolding waiting consume_chunks
  consume_chunks-waiting now n [] = (refl, ground arith)
  consume_chunks-waiting now zero (k ∷ ks) = ground (arith, consume_chunks_none now ks)
  consume_chunks-waiting now (suc n) (k ∷ ks) =
      let (front, back) = consume_chunks-waiting now n ks in
      let (front', back') = consume_chunks-waiting now (suc n) ks in
      (
        ground (arith, consumed-is_waiting now k, front, front'),
        ground (arith, consumed-is_waiting now k, back, back'),
      )

  -- What is taken from the queue is its front, at most 100 chunks, and the rest stays, in order.
  pub consume_terminal_input-waiting :
      (d : Desk)
      → let (values, d') = consume_terminal_input c id d in
        (values ++ waiting d'.chunks ≡ waiting d.chunks)
        × (length values ≡ min 100 (length (waiting d.chunks)))
  unfolding consume_terminal_input
  consume_terminal_input-waiting d = consume_chunks-waiting d.clock 100 d.chunks

  module _ (i : IsCipher c) where
    add_chunk-waiting :
        (v : Codes) (s : Session) (d : Desk)
        → waiting (add_chunk c id Direction.input_chunk v (some s) d).chunks
          ≡ waiting d.chunks ++ (v ∷ [])
    add_chunk-waiting v s d =
        let k : Chunk = record {
          session_id = id;
          direction = Direction.input_chunk;
          sequence = s.audit_sequence;
          content_ciphertext = c.encrypt v;
          consumed_at = none;
        } in
        waiting-append d.chunks k (ground (arith, eq_iff id id))
        ∙ ap (λ x. waiting d.chunks ++ (x ∷ [])) (i.decrypts v)

    create_audit_chunk-waiting :
        (v : Codes) (d : Desk) (s : Session)
        → session_of id d ≡ some s
        → (create_audit_chunk c id Direction.input_chunk v d).0 ≡ ok tt
          × (waiting (create_audit_chunk c id Direction.input_chunk v d).1.chunks
              ≡ waiting d.chunks ++ (v ∷ []))
    unfolding create_audit_chunk
    create_audit_chunk-waiting v d s found =
        let d' = update_session id (count_chunk c d.clock) d in
        rw
          (
            found,
            find-update_where id (count_chunk c d.clock) d.sessions s (count_chunk-id c d.clock)
                found,
          )
          (refl, add_chunk-waiting v (count_chunk c d.clock s) d')

    -- The tables after an input that is accepted, or refused
    abbrev pub Queued : Codes → Desk → Result (Unit {0}) → Desk → Type 0
    Queued v d (ok _) d' = waiting d'.chunks ≡ waiting d.chunks ++ (v ∷ [])
    Queued v d (err _) d' = d' ≡ d

    queue_on-waiting :
        (v : Codes) (d : Desk) (s : Session)
        → session_of id d ≡ some s
        → let (r, d') = queue_on c id v d (some s) in Queued v d r d'
    queue_on-waiting v d s found = elim (Bool-cases (is_postgres_connect s.command_kind)) [
      | inr e ↦ rw e refl
      | inl e ↦ elim (Bool-cases (takes_input s.status)) [
        | inr e' ↦ rw (e, e') refl
        | inl e' ↦ let (r, queued) = create_audit_chunk-waiting v d s found in rw (e, e', r) queued
      ]
    ]

    -- An input that is accepted goes to the end of the queue; one that is refused changes nothing,
    -- neither the queue nor the session nor any other table.
    pub queue_terminal_input-Queued :
        (v : Codes) (d : Desk) → let (r, d') = queue_terminal_input c id v d in Queued v d r d'
    unfolding queue_terminal_input
    queue_terminal_input-Queued [] d = refl
    queue_terminal_input-Queued (k ∷ v) d = elim (Option-cases (session_of id d)) [
      | inl e ↦ rw e refl
      | inr (s, e) ↦ rw e (queue_on-waiting (k ∷ v) d s e)
    ]
