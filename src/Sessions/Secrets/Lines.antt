-- ===== src/Sessions/Secrets/Lines.antt =====
-- The lines that a session shows, and which values guard them.
use fabroku_back_end.Base.{
  ℕ, zero, suc, String, Bool, true, false, not, ◌&&◌, ◌||◌, List, [], ◌∷◌, ◌++◌, ◌≡◌, refl, arith,
  all, drop, keep_if, map, length, Codes, text_eq, str_eq, inl, inr, Bool-cases,
}
use fabroku_back_end.Sessions.Model.{Event, EventType, Desk}
use fabroku_back_end.Sessions.Strip.{strip, occurs_in}
use fabroku_back_end.Sessions.Terminal.{
  Locals, remember, is_empty, is_sensitive, is_skipped, safe_line, shown_lines,
  sensitive_output_redaction,
}
use fabroku_back_end.Sessions.Loop.{Tick}

-- A line that is the redaction, or in which the text does not occur
abbrev pub hides : Codes → Codes → Bool
hides secret line = text_eq line sensitive_output_redaction || not (occurs_in secret line)

abbrev is_output : EventType → Bool
is_output EventType.output_event = true
is_output _ = false

abbrev pub is_output_of : String → Event → Bool
is_output_of id e = str_eq e.session_id id && is_output e.event_type

-- The lines of the OUTPUT events of a session
unfoldable pub outputs : String → List Event → List Codes
outputs id events = map (λ e. e.message) (keep_if (is_output_of id) events)

-- The lines that a session shows after its first `n` hide the text.
abbrev pub Hidden : String → Codes → ℕ → Desk → Type 0
Hidden id secret n d = all (hides secret) (drop n (outputs id d.events)) ≡ true

-- What other processes do during a poll shows no line of the session.
abbrev pub IsBystander : String → (Desk → Desk) → Type 0
IsBystander id f = (d : Desk) → outputs id (f d).events ≡ outputs id d.events

abbrev pub AreBystanders : String → List Tick → Type 0
AreBystanders id [] = Unit {0}
AreBystanders id (t ∷ ts) =
    (IsBystander id t.before × IsBystander id t.during) × AreBystanders id ts

text_eq_self : (t : Codes) → text_eq t t ≡ true
text_eq_self [] = refl
text_eq_self (k ∷ t) = ground (arith, text_eq_self t)

-- Every line in which the text occurs is sensitive.
abbrev pub Guards : Codes → List Codes → Type 0
Guards secret secrets =
    (line : Codes) → occurs_in secret line ≡ true → is_sensitive secrets line ≡ true

pub Guards-cons :
    (secret : Codes) (secrets : List Codes)
    → is_empty secret ≡ false
    → Guards secret (secret ∷ secrets)
unfolding is_sensitive
Guards-cons secret secrets h line e = rw (h, e) refl

Guards-more :
    (secret other : Codes) (secrets : List Codes)
    → Guards secret secrets
    → Guards secret (other ∷ secrets)
unfolding is_sensitive
Guards-more secret other secrets g line e = ground (arith, g line e)

pub Guards-remember :
    (secret answer : Codes) (b : Bool) (l : Locals)
    → Guards secret l.sensitive_values
    → Guards secret (remember b answer l).sensitive_values
Guards-remember secret answer b l g = elim (Bool-cases (is_empty (strip answer))) [
  | inl e ↦ rw e g
  | inr e ↦ elim (Bool-cases b) [
    | inl e' ↦ rw (e, e') (Guards-more secret (strip answer) l.sensitive_values g)
    | inr e' ↦ rw (e, e') g
  ]
]

hides-safe_line :
    (secret : Codes) (secrets : List Codes) (line : Codes)
    → Guards secret secrets
    → hides secret (safe_line secrets line) ≡ true
hides-safe_line secret secrets line g = elim (Bool-cases (occurs_in secret line)) [
  | inl e ↦ rw (g line e, text_eq_self sensitive_output_redaction) refl
  | inr e ↦ elim (Bool-cases (is_sensitive secrets line)) [
    | inl e' ↦ rw (e', text_eq_self sensitive_output_redaction) refl
    | inr e' ↦ rw e' (ground arith)
  ]
]

pub all_hide :
    (secret : Codes) (secrets echoes : List Codes) (lines : List Codes)
    → Guards secret secrets
    → all (hides secret) (shown_lines secrets echoes lines) ≡ true
unfolding shown_lines
all_hide secret secrets echoes [] g = refl
all_hide secret secrets echoes (raw ∷ lines) g =
    let line = strip raw in
    elim (Bool-cases (is_skipped echoes line)) [
      | inl e ↦ rw e (all_hide secret secrets echoes lines g)
      | inr e ↦
          rw (e, hides-safe_line secret secrets line g) (all_hide secret secrets echoes lines g)
    ]

pub drop-append :
    (p : Codes → Bool) (n : ℕ) (xs : List Codes) (x : Codes)
    → p x ≡ true
    → all p (drop n xs) ≡ true
    → all p (drop n (xs ++ (x ∷ []))) ≡ true
drop-append p zero [] x h a = rw h refl
drop-append p zero (y ∷ xs) x h a = ground (arith, drop-append p zero xs x h (ground arith))
drop-append p (suc zero) [] x h a = refl
drop-append p (suc (suc n)) [] x h a = refl
drop-append p (suc n) (y ∷ xs) x h a = drop-append p n xs x h a

pub drop_all : (xs : List Codes) → drop (length xs) xs ≡ []
drop_all [] = refl
drop_all (x ∷ xs) = drop_all xs

pub outputs-append :
    (id : String) (es : List Event) (e : Event)
    → is_output_of id e ≡ true
    → outputs id (es ++ (e ∷ [])) ≡ outputs id es ++ (e.message ∷ [])
unfolding outputs
outputs-append id [] e h = ground arith
outputs-append id (x ∷ es) e h = ground (arith, outputs-append id es e h)

pub outputs-append_other :
    (id : String) (es : List Event) (e : Event)
    → is_output_of id e ≡ false
    → outputs id (es ++ (e ∷ [])) ≡ outputs id es
unfolding outputs
outputs-append_other id [] e h = ground arith
outputs-append_other id (x ∷ es) e h = ground (arith, outputs-append_other id es e h)
