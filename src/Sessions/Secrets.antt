-- ===== src/Sessions/Secrets.antt =====
-- What the createsuperuser loop shows of a terminal after it has read the answer to a secret prompt.
pub mod Lines
use fabroku_back_end.Base.{
  ℕ, zero, suc, String, Bool, true, false, Option, none, some, List, [], ◌∷◌, ◌++◌, ◌≡◌, refl,
  arith, ap, ◌∙◌, ◌⊎◌, all, drop, length, take, is_infix, Codes, inl, inr, Bool-cases, Option-cases,
  if◌then◌else◌,
}
use fabroku_back_end.Runtime.Effects.{Result, ok, err}
use fabroku_back_end.Sessions.Model.{
  Session, Settings, Event, EventType, Desk, session_of, is_awaiting,
}
use fabroku_back_end.Sessions.Rows.{PromptMatch}
use fabroku_back_end.Sessions.Operations.{create_event, show_prompt, take_answer}
use fabroku_back_end.Sessions.Strip.{strip, normalize, split_lines, split_last}
use fabroku_back_end.Sessions.Terminal.{
  Locals, remember, is_empty, shown_lines, show_lines, emit_before, emit_output_lines, flush_on,
  flush_output_buffer,
}
use fabroku_back_end.Sessions.Loop.{
  Tick, Ending, Polled, control, take_output, give, give_answer, last_lines, prompts_exit_with,
  prompts_exit, prompts_answer, prompts_on, poll_prompts, run_prompts, go_on_prompts,
}
use fabroku_back_end.Sessions.Secrets.Lines.{
  hides, Hidden, IsBystander, AreBystanders, Guards, Guards-cons, Guards-remember, all_hide,
  drop-append, drop_all, outputs, outputs-append, outputs-append_other,
}
use fabroku_back_end.Base.{str_eq, eq_iff}

module _ (c : Settings) (id : String) (secret : Codes) (n : ℕ) where
  -- The secret is remembered, and no line since shows it.
  abbrev Kept : Locals × Desk → Type 0
  Kept (l, d) = Guards secret l.sensitive_values × Hidden id secret n d

  same-Hidden :
      (d u : Desk)
      → outputs id u.events ≡ outputs id d.events
      → Hidden id secret n d
      → Hidden id secret n u
  same-Hidden d u e h = rw e h

  show_lines-Hidden :
      (lines : List Codes) (d : Desk)
      → all (hides secret) lines ≡ true
      → Hidden id secret n d
      → Hidden id secret n (show_lines c id lines d)
  unfolding show_lines create_event
  show_lines-Hidden [] d a h = h
  show_lines-Hidden (line ∷ lines) d a h =
      let e : Event = record {
        session_id = id;
        event_type = EventType.output_event;
        message = line;
      } in
      let added = outputs-append id d.events e (ground (arith, eq_iff id id)) in
      show_lines-Hidden lines (create_event c id true EventType.output_event line d) (ground arith)
        (rw added (drop-append (hides secret) n (outputs id d.events) line (ground arith) h))

  show_prompt-Hidden :
      (m : PromptMatch) (d : Desk)
      → Hidden id secret n d
      → Hidden id secret n (show_prompt c id m d).1
  unfolding show_prompt create_event
  show_prompt-Hidden m d h = elim (Option-cases (session_of id d)) [
    | inl e ↦ rw e h
    | inr (s, e) ↦
        let ev : Event = record {
          session_id = id;
          event_type = EventType.prompt_event;
          message = m.text;
        } in
        rw (e, outputs-append_other id d.events ev (ground arith)) h
  ]

  emit_output_lines-Kept :
      (text : Codes) (p : Locals × Desk) → Kept p → Kept (emit_output_lines c id text p)
  unfolding emit_output_lines
  emit_output_lines-Kept text (l, d) (g, h) = (
    g,
    show_lines-Hidden _ d
        (all_hide secret l.sensitive_values l.suppressed_echoes
          ((split_lines text).0 ∷ (split_lines text).1) g)
        h,
  )

  emit_before-Kept : (text : Codes) (p : Locals × Desk) → Kept p → Kept (emit_before c id text p)
  emit_before-Kept [] p k = k
  emit_before-Kept (x ∷ text) p k = emit_output_lines-Kept (x ∷ text) p k

  flush_on-Kept : (o : Option PromptMatch) (p : Locals × Desk) → Kept p → Kept (flush_on c id o p).1
  flush_on-Kept (some m) (l, d) k =
      let shown = emit_before-Kept (take m.start l.buffer) (l, d) k in
      (shown.0, show_prompt-Hidden m (emit_before c id (take m.start l.buffer) (l, d)).1 shown.1)
  flush_on-Kept none (l, d) k = elim (Bool-cases (is_infix (10 ∷ []) l.buffer)) [
    | inl e ↦ rw e (emit_output_lines-Kept (split_last l.buffer).0 (l, d) k)
    | inr e ↦ rw e k
  ]

  take_answer-Hidden : (d : Desk) → Hidden id secret n d → Hidden id secret n (take_answer c id d).1
  unfolding take_answer
  take_answer-Hidden d h = elim (Option-cases (session_of id d)) [
    | inl e ↦ rw e h
    | inr (s, e) ↦ rw e h
  ]

  module _ (match_prompt : Codes → Option PromptMatch) where
    give-Kept :
        (b : Bool) (l : Locals) (r : Result (Option Codes)) (d : Desk)
        → Kept (l, d)
        → Kept (give c id match_prompt b l (r, d)).1
    give-Kept b l (err e) d k = k
    give-Kept b l (ok none) d k = k
    give-Kept b l (ok (some answer)) d (g, h) = (Guards-remember secret answer b l g, h)

    give_answer-Kept :
        (s : Session) (p : Locals × Desk) → Kept p → Kept (give_answer c id match_prompt s p).1
    unfolding give_answer
    give_answer-Kept s (l, d) (g, h) = elim (Bool-cases (is_awaiting s.status)) [
      | inl e ↦ rw e (
          give-Kept s.awaiting_prompt_secret l (take_answer c id d).0 (take_answer c id d).1
            (g, take_answer-Hidden d h))
      | inr e ↦ rw e (g, h)
    ]

    last_lines-Kept : (p : Locals × Desk) → Kept p → Kept (last_lines c id match_prompt p)
    last_lines-Kept (l, d) k = elim (Bool-cases (is_empty (strip l.buffer))) [
      | inl e ↦ rw e k
      | inr e ↦ rw e (emit_output_lines-Kept l.buffer (l, d) k)
    ]

    take_output-Kept :
        (text : Codes) (p : Locals × Desk) → Kept p → Kept (take_output c id match_prompt text p).1
    unfolding take_output flush_output_buffer
    take_output-Kept [] p k = k
    take_output-Kept (x ∷ text) (l, d) k =
        flush_on-Kept (match_prompt (normalize (l.buffer ++ (x ∷ text)))) _ k

    prompts_exit_with-Kept :
        (status : ℕ) (r : Result (Unit {0}) × (Locals × Desk))
        → Kept r.1
        → Kept (prompts_exit_with c id match_prompt status r).1
    prompts_exit_with-Kept status (err e, p) k = k
    prompts_exit_with-Kept status (ok _, p) k = last_lines-Kept p k

    prompts_exit-Kept :
        (exit : Option (ℕ × Codes)) (r : Result (Unit {0}) × (Locals × Desk))
        → Kept r.1
        → Kept (prompts_exit c id match_prompt exit r).1
    prompts_exit-Kept exit (err e, p) k = k
    prompts_exit-Kept none (ok _, p) k = k
    prompts_exit-Kept (some (status, trailing)) (ok _, p) k =
        prompts_exit_with-Kept status (take_output c id match_prompt trailing p)
          (take_output-Kept trailing p k)

    prompts_answer-Kept :
        (exit : Option (ℕ × Codes)) (s : Session) (r : Result (Unit {0}) × (Locals × Desk))
        → Kept r.1
        → Kept (prompts_answer c id match_prompt exit s r).1
    prompts_answer-Kept exit s (err e, p) k = k
    prompts_answer-Kept exit s (ok _, p) k = prompts_exit-Kept exit _ (give_answer-Kept s p k)

    prompts_on-Kept :
        (t : Tick) (l : Locals) (d : Desk) (o : Ending ⊎ Session)
        → IsBystander id t.during
        → Kept (l, d)
        → Kept (prompts_on c id match_prompt t l d o).1
    prompts_on-Kept t l d (inl e) b k = k
    prompts_on-Kept t l d (inr s) b (g, h) =
        prompts_answer-Kept t.exit s _
          (take_output-Kept t.output (l, t.during d) (g, same-Hidden d (t.during d) (b d) h))

    poll_prompts-Kept :
        (t : Tick) (p : Locals × Desk)
        → IsBystander id t.before × IsBystander id t.during
        → Kept p
        → Kept (poll_prompts c id match_prompt t p).1
    unfolding poll_prompts
    poll_prompts-Kept t (l, d) (b, b') (g, h) =
        let u = t.before d in
        prompts_on-Kept t l u (control u.clock (session_of id u)) b' (g, same-Hidden d u (b d) h)

    go_on-Kept :
        (r : Polled c id match_prompt) (next : Locals × Desk → Polled c id match_prompt)
        → ((p : Locals × Desk) → Kept p → Kept (next p).1)
        → Kept r.1
        → Kept (go_on_prompts c id match_prompt r next).1
    go_on-Kept (some e, p) next step k = k
    go_on-Kept (none, p) next step k = step p k

    run_prompts-Kept :
        (ts : List Tick) (p : Locals × Desk)
        → AreBystanders id ts
        → Kept p
        → Kept (run_prompts c id match_prompt ts p).1
    unfolding run_prompts
    run_prompts-Kept [] p b k = k
    run_prompts-Kept (t ∷ ts) p (b, bs) k =
        go_on-Kept (poll_prompts c id match_prompt t p) (run_prompts c id match_prompt ts)
          (λ q k'. run_prompts-Kept ts q bs k') (poll_prompts-Kept t p b k)

module _ (c : Settings) (id : String) (match_prompt : Codes → Option PromptMatch) where
  read_answer-Kept :
      (s : Session) (answer : Codes) (l : Locals) (d : Desk)
      → is_awaiting s.status ≡ true
      → s.awaiting_prompt_secret ≡ true
      → (take_answer c id d).0 ≡ ok (some answer)
      → is_empty (strip answer) ≡ false
      → Kept c id
          (strip answer)
          (length (outputs id d.events))
          (give_answer c id match_prompt s (l, d)).1
  unfolding give_answer
  read_answer-Kept s answer l d awaits asked took h =
      let start : Hidden id (strip answer) (length (outputs id d.events)) d =
        rw (drop_all (outputs id d.events)) refl in
      rw (awaits, asked, took, h)
        (
          Guards-cons (strip answer) l.sensitive_values h,
          take_answer-Hidden c id (strip answer) (length (outputs id d.events)) d start,
        )

  -- From the moment the loop reads the answer to a secret prompt, every line that the session shows
  -- is either the redaction or does not hold the answer, whatever the command prints, over the rest
  -- of this poll and all polls that follow. For an answer that is not blank, and as long as no other
  -- process shows lines of this session. The texts of later prompts are not lines in this sense.
  pub prompts_answer-Hidden :
      (s : Session) (answer : Codes) (l : Locals) (d : Desk) (exit : Option (ℕ × Codes))
      (ts : List Tick)
      → is_awaiting s.status ≡ true
      → s.awaiting_prompt_secret ≡ true
      → (take_answer c id d).0 ≡ ok (some answer)
      → is_empty (strip answer) ≡ false
      → AreBystanders id ts
      → Hidden id
          (strip answer)
          (length (outputs id d.events))
          (go_on_prompts c id match_prompt
            (prompts_answer c id match_prompt exit s (ok tt, (l, d)))
            (run_prompts c id match_prompt ts)).1.1
  prompts_answer-Hidden s answer l d exit ts awaits asked took h quiet =
      let secret = strip answer in
      let n = length (outputs id d.events) in
      (go_on-Kept c id secret n match_prompt _ (run_prompts c id match_prompt ts)
        (λ p k. run_prompts-Kept c id secret n match_prompt ts p quiet k)
        (prompts_exit-Kept c id secret n match_prompt exit (give_answer c id match_prompt s (l, d))
          (read_answer-Kept s answer l d awaits asked took h))).1
