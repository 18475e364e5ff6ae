-- ===== src/Services/EnvKeys/Numbers.antt =====
-- The number in a key or a name can be read back, so those with different numbers differ.
use Prim.Native.Nat.{◌*◌, ◌/◌, ◌%◌, ◌-◌}
use Prim.Native.Char.{code}
use text.Mathlib.TextLemmas.{nil-append, cons-append, append_assoc}
use fabroku_back_end.Base.{
  ℕ, zero, suc, ◌+◌, ◌<◌, String, ◌<>◌, ◌≡◌, refl, ap, ◌∙◌, ◌||◌, [], ◌∷◌, ◌++◌, ◌==◌, codes, Codes,
  arith, if◌then◌else◌, Bool-cases, inl, inr,
}
use fabroku_back_end.Models.Errors.{decimal, decimal_loop, digit}
use fabroku_back_end.Services.EnvKeys.{numbered_key, numbered_name}

pub codes-append : (s t : String) → codes (s <> t) ≡ codes s ++ codes t
codes-append String.[] t = rw (nil-append t) refl
codes-append (String.◌∷◌ c s) t =
    rw (cons-append c s t) (ap (λ (r : Codes). code c ∷ r) (codes-append s t))

-- The number before the last underscore or hyphen, and the one after it.
abbrev Reading : Type 0
Reading = ℕ × ℕ

abbrev read_char : Reading → ℕ → Reading
read_char (before, after) c =
    if (c == b'_') || (c == b'-') then (after, 0) else (before, after * 10 + (c - 48))

abbrev read : Reading → Codes → Reading
read r [] = r
read r (c ∷ s) = read (read_char r c) s

pub number_of : String → ℕ
number_of s = (read (0, 0) (codes s)).0

read-append : (r : Reading) (s t : Codes) → read r (s ++ t) ≡ read (read r s) t
read-append r [] t = refl
read-append r (c ∷ s) t = read-append (read_char r c) s t

pub code_digit : (d : ℕ) → d < 10 → codes (digit d) ≡ (d + 48) ∷ []
code_digit zero h = refl
code_digit (suc zero) h = refl
code_digit (suc (suc zero)) h = refl
code_digit (suc (suc (suc zero))) h = refl
code_digit (suc (suc (suc (suc zero)))) h = refl
code_digit (suc (suc (suc (suc (suc zero))))) h = refl
code_digit (suc (suc (suc (suc (suc (suc zero)))))) h = refl
code_digit (suc (suc (suc (suc (suc (suc (suc zero))))))) h = refl
code_digit (suc (suc (suc (suc (suc (suc (suc (suc zero)))))))) h = refl
code_digit (suc (suc (suc (suc (suc (suc (suc (suc (suc zero))))))))) h = refl
code_digit (suc (suc (suc (suc (suc (suc (suc (suc (suc (suc n)))))))))) h = absurd (omega arith)

read_char-digit : (p a d : ℕ) → d < 10 → Path Reading (read_char (p, a) (d + 48)) (p, a * 10 + d)
read_char-digit p a d h = ground arith

read-digit :
    (p a d : ℕ) (rest : String)
    → d < 10
    → read (p, a) (codes (digit d <> rest)) ≡ read (p, a * 10 + d) (codes rest)
read-digit p a d rest h =
    rw (codes-append (digit d) rest, code_digit d h)
      (ap (λ (r : Reading). read r (codes rest)) (read_char-digit p a d h))

read-decimal_loop :
    (fuel n p : ℕ) (rest : String)
    → n < fuel
    → read (p, 0) (codes (decimal_loop fuel n rest)) ≡ read (p, n) (codes rest)
unfolding decimal_loop
read-decimal_loop zero n p rest h = absurd (omega arith)
read-decimal_loop (suc fuel) n p rest h = elim (Bool-cases ((n / 10) == 0)) [
  | inl e ↦ rw e (
      read-digit p 0 (n % 10) rest (omega arith)
      ∙ ap (λ (a : ℕ). read (p, a) (codes rest)) (ground arith))
  | inr e ↦ rw e (
      read-decimal_loop fuel (n / 10) p (digit (n % 10) <> rest) (ground arith)
      ∙ (read-digit p (n / 10) (n % 10) rest (omega arith)
          ∙ ap (λ (a : ℕ). read (p, a) (codes rest)) (omega arith)))
]

read-decimal : (p n : ℕ) → Path Reading (read (p, 0) (codes (decimal n))) (p, n)
unfolding decimal
read-decimal p n = read-decimal_loop (n + 1) n p "" (omega arith)

-- What stands before the number does not count.
read-numbered : (r : Reading) (n : ℕ) → (read r (codes (("_" <> decimal n) <> "_URL"))).0 ≡ n
read-numbered (p, a) n =
    rw
      (
        codes-append ("_" <> decimal n) "_URL",
        codes-append "_" (decimal n),
        read-append (a, 0) (codes (decimal n)) (codes "_URL"),
        read-decimal a n,
      )
      refl

read-number :
    (s : String) (n : ℕ) → (read (0, 0) (codes (s <> (("_" <> decimal n) <> "_URL")))).0 ≡ n
read-number s n =
    rw
      (
        codes-append s (("_" <> decimal n) <> "_URL"),
        read-append (0, 0) (codes s) (codes (("_" <> decimal n) <> "_URL")),
      )
      (read-numbered (read (0, 0) (codes s)) n)

pub number_of-numbered_key : (base : String) (n : ℕ) → number_of (numbered_key base n) ≡ n
unfolding numbered_key number_of
number_of-numbered_key base n = read-number _ n

pub number_after : String → ℕ
number_after s = (read (0, 0) (codes s)).1

number_read : (r : Reading) (n : ℕ) → (read r (codes ("-" <> decimal n))).1 ≡ n
number_read (p, a) n = rw (codes-append "-" (decimal n), read-decimal a n) refl

number_read_after :
    (base : String) (n : ℕ) → (read (0, 0) (codes (base <> ("-" <> decimal n)))).1 ≡ n
number_read_after base n =
    rw
      (
        codes-append base ("-" <> decimal n),
        read-append (0, 0) (codes base) (codes ("-" <> decimal n)),
      )
      (number_read (read (0, 0) (codes base)) n)

pub number_after-numbered_name : (base : String) (n : ℕ) → number_after (numbered_name base n) ≡ n
unfolding numbered_name number_after
number_after-numbered_name base n =
    rw (append_assoc base "-" (decimal n)) (number_read_after base n)
