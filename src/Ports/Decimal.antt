-- ===== src/Ports/Decimal.antt =====
-- Decimal text: reading what was printed.
use Prim.Native.Char.{Char, code}
use Prim.Native.String.{[] as nil, ◌∷◌ as ◌▸◌}
use text.Mathlib.TextLemmas.{cons-append, nil-append}
use aurelith.Base.{
  ℕ, zero, suc, ◌+◌, ◌*◌, ◌-◌, ◌/◌, ◌%◌, ◌<◌, ◌≡◌, ◌≢◌, refl, sym, ap, ◌∙◌, String, Bool, true,
  false, ◌&&◌, some, arith, ltb, leb, Bool-cases, ◌==◌, nat_eq, inl, inr,
}
use aurelith.Base.Text.{◌<>◌, digit, hex_value, decimal_from, show_from, show_ℕ}
use aurelith.Revert.Hex.{digit-IsDigit}
use aurelith.Ports.{pos, atoi, positive}

-- The character of a decimal digit.
digit-code : (d : ℕ) → d < 10 → (c : Char) × (digit d ≡ c ▸ nil) × (code c ≡ 48 + d)
unfolding hex_value
digit-code d small =
    let (c, text, value) = digit-IsDigit d (omega arith) in (c, text, ground (arith, value))

decimal_from-digit : (acc d : ℕ) → d < 10 → decimal_from acc (digit d) ≡ some (10 * acc + d)
unfolding decimal_from
decimal_from-digit acc d small =
    let (c, text, value) = digit-code d small in ap (decimal_from acc) text ∙ ground (arith, value)

decimal_from-snoc :
    (acc v : ℕ) (s : String) (d : ℕ)
    → d < 10
    → decimal_from acc s ≡ some v
    → decimal_from acc (s <> digit d) ≡ some (10 * v + d)
unfolding decimal_from
decimal_from-snoc acc v nil d small h =
    ap (decimal_from acc) (nil-append (digit d))
    ∙ decimal_from-digit acc d small
    ∙ ground (arith, h)
decimal_from-snoc acc v (c ▸ s) d small h =
    let in_range : (leb b'0' (code c) && leb (code c) b'9') ≡ true = ground (arith, h) in
    let rest : decimal_from (10 * acc + (code c - b'0')) s ≡ some v = ground (arith, h) in
    ap (decimal_from acc) (cons-append c s (digit d))
    ∙ rw in_range (decimal_from-snoc (10 * acc + (code c - b'0')) v s d small rest)

-- One more round than the number is enough for all its digits.
decimal_from-show_from : (fuel n : ℕ) → n < fuel → decimal_from 0 (show_from fuel n) ≡ some n
unfolding show_from
decimal_from-show_from zero n enough = absurd (omega arith)
decimal_from-show_from (suc fuel) n enough = elim (Bool-cases (ltb n 10)) [
  | inl small ↦
      rw small (decimal_from-digit 0 n (ground (arith, small)) ∙ ap (λ z. some z) (omega arith))
  | inr large ↦
      let smaller : n / 10 < fuel = ground (arith, large) in
      rw large (
        decimal_from-snoc 0 (n / 10) (show_from fuel (n / 10)) (n % 10) (omega arith)
          (decimal_from-show_from fuel (n / 10) smaller)
        ∙ ap (λ z. some z) (omega arith))
]

positive-small : (n : ℕ) → n < 9223372036854775808 → positive (some n) ≡ some (pos n)
positive-small n small = ground (arith, small)

is_empty : String → Bool
is_empty nil = true
is_empty (c ▸ s) = false

zero_text-some : show_from 1 0 ≢ ""
unfolding show_from is_empty
zero_text-some h =
    let (c, text, value) = digit-code 0 (omega arith) in
    absurd (ground (arith, ap is_empty (sym text ∙ h)))

-- A number that starts with a digit has no sign.
atoi-digits :
    (s : String) (n : ℕ)
    → s ≢ ""
    → decimal_from 0 s ≡ some n
    → n < 9223372036854775808
    → atoi s ≡ some (pos n)
unfolding atoi decimal_from
atoi-digits nil n some_text h small = absurd (some_text refl)
atoi-digits (c ▸ s) n some_text h small =
    let no_minus : (code c == b'-') ≡ false = ground (arith, h) in
    let no_plus : (code c == b'+') ≡ false = ground (arith, h) in
    rw no_minus (rw no_plus (ap positive h ∙ positive-small n small))

show_from-some : (n : ℕ) → show_from (suc n) n ≢ ""
unfolding decimal_from
show_from-some n h =
    let read : some n ≡ some 0 =
      sym (decimal_from-show_from (suc n) n (omega arith)) ∙ ap (decimal_from 0) h in
    let is_zero : n ≡ 0 = ground (arith, read) in
    zero_text-some (sym (ap (λ k. show_from (suc k) k) is_zero) ∙ h)

-- `strconv.Atoi` reads what `%d` prints of a number below 2^63.
pub atoi-show_ℕ : (n : ℕ) → n < 9223372036854775808 → atoi (show_ℕ n) ≡ some (pos n)
unfolding show_ℕ
atoi-show_ℕ n small =
    atoi-digits (show_ℕ n) n (show_from-some n) (decimal_from-show_from (suc n) n (omega arith))
      small

pub show_ℕ-some : (n : ℕ) → show_ℕ n ≢ ""
unfolding show_ℕ
show_ℕ-some n = show_from-some n
