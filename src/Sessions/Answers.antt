-- ===== src/Sessions/Answers.antt =====
-- From the CLI's answer to the remote command: `submit_interactive_session_answer`,
-- `_consume_interactive_session_answer` and `_set_session_prompt`.
use fabroku_back_end.Base.{ℕ, String, true, none, some, [], ◌∷◌, ◌≡◌, ◌≢◌, refl, arith, Codes}
use fabroku_back_end.Runtime.Effects.{ok}
use fabroku_back_end.Sessions.Model.{Session, Settings, IsCipher, Status}
use fabroku_back_end.Sessions.Rows.{
  PromptMatch, has_bytes, submit, consume_answer, set_prompt, touch, prompt_id_of,
}

has_bytes-some : (t : Codes) → t ≢ [] → has_bytes (some t) ≡ true
has_bytes-some [] h = ground arith
has_bytes-some (k ∷ t) h = refl

module _ (c : Settings) (i : IsCipher c) where
  has_bytes-encrypt : (v : Codes) → has_bytes (some (c.encrypt v)) ≡ true
  has_bytes-encrypt v = has_bytes-some (c.encrypt v) (i.not_empty v)

  -- An answer that `submit_interactive_session_answer` accepts is given to the command as it was
  -- typed, once: the session runs again, and a second read finds nothing.
  pub consume_answer-submit :
      (now later : ℕ) (prompt_id : String) (value : Codes) (s : Session)
      → (submit c now prompt_id value s).0 ≡ ok tt
      → let (answer, after) = consume_answer c later (submit c now prompt_id value s).1 in
        (answer ≡ some value)
        × (after.status ≡ Status.running)
        × ((consume_answer c later after).0 ≡ none)
  unfolding submit consume_answer touch
  consume_answer-submit now later prompt_id value s h = (
    ground (arith, has_bytes-encrypt value, i.decrypts value),
    ground (arith, has_bytes-encrypt value),
    ground (arith, has_bytes-encrypt value),
  )

  -- If another prompt appears before an accepted answer is read, the answer is given to the new
  -- prompt: the reader does not compare the prompt that the answer is for with the current one.
  pub answer_crosses_prompts :
      (now later : ℕ) (prompt_id : String) (value : Codes) (m : PromptMatch) (s : Session)
      → (submit c now prompt_id value s).0 ≡ ok tt
      → let next = set_prompt c later m (submit c now prompt_id value s).1 in
        (next.awaiting_prompt_id ≡ some (prompt_id_of m s))
        × (next.pending_answer_prompt_id ≡ some prompt_id)
        × ((consume_answer c later next).0 ≡ some value)
  unfolding submit consume_answer touch set_prompt
  answer_crosses_prompts now later prompt_id value m s h =
      (ground (arith), ground (arith), ground (arith, has_bytes-encrypt value, i.decrypts value))
