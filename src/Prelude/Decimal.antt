-- ===== src/Prelude/Decimal.antt =====
-- Natural numbers in decimal: `BigInt(text)`, `value.toString()` and the test
-- `/^(0|[1-9][0-9]*)$/`.
use Prim.Native.Nat.{ℕ, zero, suc, ◌+◌, ◌-◌, ◌*◌, ◌/◌, ◌%◌, ◌≤◌, ◌<◌}
use mathlib.Core.Path.{◌≡◌, refl, ap, ◌∙◌}
use mathlib.Core.Logic.{inl, inr}
use mathlib.Core.Bool.{Bool, true, false, ◌&&◌}
use mathlib.Core.List.{[], ◌∷◌}
use native.Mathlib.Omega.{arith}
use enclave_developer.Prelude.Tests.{ltb, leb, if◌then◌else◌, Bool-cases}
use enclave_developer.Prelude.Lists.{all}
use enclave_developer.Prelude.Text.{Text, is_digit}

-- The digits of `n`, before `rest`; the fuel is more than `n`.
digits : ℕ → ℕ → Text → Text
digits zero n rest = rest
digits (suc f) n rest =
    let more = digits f (n / 10) ((b'0' + n % 10) ∷ rest) in
    if ltb n 10 then (b'0' + n) ∷ rest else more

unfoldable pub decimal : ℕ → Text
unfolding digits
decimal n = digits (suc n) n []

read : ℕ → Text → ℕ
read acc [] = acc
read acc (c ∷ s) = read (acc * 10 + (c - b'0')) s

unfoldable pub number : Text → ℕ
unfolding read
number s = read 0 s

-- `/^(0|[1-9][0-9]*)$/`
unfoldable pub is_decimal : Text → Bool
is_decimal [] = false
is_decimal (c ∷ []) = is_digit c
is_decimal (c ∷ d ∷ s) = leb b'1' c && leb c b'9' && all is_digit (d ∷ s)

-- One round of `digits` read back.
read_digit :
    (f n : ℕ) (rest : Text)
    → ltb n 10 ≡ false
    → read 0 (digits f (n / 10) ((b'0' + n % 10) ∷ rest)) ≡ read (n / 10) ((b'0' + n % 10) ∷ rest)
    → read 0 (digits f (n / 10) ((b'0' + n % 10) ∷ rest)) ≡ read n rest
unfolding read
read_digit f n rest big ih =
    ih ∙ ap (λ k. read k rest) (let e : n / 10 * 10 + (b'0' + n % 10 - b'0') ≡ n = omega arith in e)

read-digits : (f n : ℕ) (rest : Text) → n < f → read 0 (digits f n rest) ≡ read n rest
unfolding digits read
read-digits zero n rest h = elim h [ ]
read-digits (suc f) n rest h = elim (Bool-cases (ltb n 10)) [
  | inl small ↦
      rw small (ap (λ k. read k rest) (let e : 0 * 10 + (b'0' + n - b'0') ≡ n = omega arith in e))
  | inr big ↦
      rw big
        (read_digit f n rest big (read-digits f (n / 10) ((b'0' + n % 10) ∷ rest) (ground arith)))
]

-- Printing and reading a number gives it back.
pub number-decimal : (n : ℕ) → number (decimal n) ≡ n
unfolding number decimal read
number-decimal n = read-digits (suc n) n [] (omega arith)

-- What is printed is a decimal number with no leading zero, whatever digits follow.
abbrev FirstNonzero : Text → Type 0
FirstNonzero [] = ⊥
FirstNonzero (c ∷ s) = (b'1' ≤ c) × (c ≤ b'9') × (all is_digit s ≡ true)

digits_nonzero :
    (f n : ℕ) (rest : Text)
    → n < f
    → 0 < n
    → all is_digit rest ≡ true
    → FirstNonzero (digits f n rest)
unfolding digits
digits_nonzero zero n rest h p r = elim h [ ]
digits_nonzero (suc f) n rest h p r = elim (Bool-cases (ltb n 10)) [
  | inl small ↦ rw small (ground arith, ground arith, r)
  | inr big ↦ rw big (
      digits_nonzero f (n / 10) ((b'0' + n % 10) ∷ rest) (ground arith) (ground arith)
        (ground arith))
]

is_decimal_of_FirstNonzero : (s : Text) → FirstNonzero s → is_decimal s ≡ true
unfolding is_decimal
is_decimal_of_FirstNonzero [] h = absurd h
is_decimal_of_FirstNonzero (c ∷ []) h = ground arith
is_decimal_of_FirstNonzero (c ∷ d ∷ s) h = ground arith

pub is_decimal-decimal : (n : ℕ) → is_decimal (decimal n) ≡ true
unfolding decimal is_decimal
is_decimal-decimal zero = refl
is_decimal-decimal (suc n) =
    is_decimal_of_FirstNonzero _
      (digits_nonzero (suc (suc n)) (suc n) [] (omega arith) (omega arith) refl)
