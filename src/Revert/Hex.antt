-- ===== src/Revert/Hex.antt =====
-- Hexadecimal text: decoding what was encoded.
use Prim.Native.Char.{Char, code}
use Prim.Native.String.{[] as nil, ◌∷◌ as ◌▸◌}
use text.Mathlib.TextLemmas.{cons-append, nil-append}
use aurelith.Base.{
  ℕ, zero, suc, ◌+◌, ◌*◌, ◌/◌, ◌%◌, ◌<◌, ◌≡◌, ◌≢◌, refl, sym, ap, ◌∙◌, String, Bool, true, ◌&&◌,
  ◌==◌, nat_eq, some, none, List, [], ◌∷◌, arith, All, ℕ_discrete, Option-cases, inl, inr,
}
use aurelith.Base.Text.{◌<>◌, digit, hex_value, decode_hex, encode_hex, trim_0x}

-- The value of a text of one digit, and 16 for any other text.
digit_value : String → ℕ
digit_value nil = 16
digit_value (c ▸ nil) = elim (hex_value (code c)) [ none ↦ 16 | some v ↦ v ]
digit_value (c ▸ d ▸ s) = 16

below : (ℕ → Bool) → ℕ → Bool
below p zero = true
below p (suc n) = p n && below p n

below_all : (p : ℕ → Bool) (n k : ℕ) → below p n ≡ true → k < n → p k ≡ true
unfolding below
below_all p zero k h lt = absurd (omega arith)
below_all p (suc n) k h lt = elim (nat_eq.dec k n) [
  | yes same ↦ rw same (ground arith)
  | no differ ↦ below_all p n k (ground arith) (omega arith)
]

digits_below : below (λ n. digit_value (digit n) == n) 16 ≡ true
unfolding below digit_value digit hex_value ℕ_discrete
digits_below = refl

digit_value-digit : (n : ℕ) → n < 16 → digit_value (digit n) ≡ n
digit_value-digit n small =
    let same : (digit_value (digit n) == n) ≡ true =
      below_all (λ k. digit_value (digit k) == k) 16 n digits_below small in
    ground arith

-- A character that stands for a digit.
abbrev pub IsDigit : String → ℕ → Type 0
IsDigit s n = (c : Char) × (s ≡ c ▸ nil) × (hex_value (code c) ≡ some n)

digit_value_cases : (s : String) (n : ℕ) → digit_value s ≡ n → n < 16 → IsDigit s n
unfolding digit_value
digit_value_cases nil n h small = absurd (omega (arith, h))
digit_value_cases (c ▸ nil) n h small = elim (Option-cases (hex_value (code c))) [
  | inl none_read ↦ absurd (ground arith)
  | inr (v, e) ↦ (c, refl, ground arith)
]
digit_value_cases (c ▸ d ▸ s) n h small = absurd (omega (arith, h))

pub digit-IsDigit : (n : ℕ) → n < 16 → IsDigit (digit n) n
digit-IsDigit n small = digit_value_cases (digit n) n (digit_value-digit n small) small

-- A digit before a text.
one_char : (c : Char) (s : String) → (c ▸ nil) <> s ≡ c ▸ s
one_char c s = cons-append c nil s ∙ ap (λ t. c ▸ t) (nil-append s)

abbrev pub IsByte : ℕ → Type 0
IsByte b = b < 256

-- The text of a byte string with one byte more.
encode_hex_cons :
    (b : ℕ) (bs : List ℕ)
    → b < 256
    → (c : Char) × (d : Char) × (encode_hex (b ∷ bs) ≡ c ▸ (d ▸ encode_hex bs))
      × (hex_value (code c) ≡ some (b / 16))
      × (hex_value (code d) ≡ some (b % 16))
unfolding encode_hex
encode_hex_cons b bs small =
    let (c, c_text, c_value) = digit-IsDigit (b / 16) (omega arith) in
    let (d, d_text, d_value) = digit-IsDigit (b % 16) (omega arith) in
    (
      c,
      d,
      rw (c_text, d_text)
          (one_char c ((d ▸ nil) <> encode_hex bs) ∙ ap (λ t. c ▸ t) (one_char d (encode_hex bs))),
      c_value,
      d_value,
    )

decode_hex_cons :
    (c d : Char) (s : String) (hi lo : ℕ) (bs : List ℕ)
    → hex_value (code c) ≡ some hi
    → hex_value (code d) ≡ some lo
    → decode_hex s ≡ some bs
    → decode_hex (c ▸ (d ▸ s)) ≡ some ((16 * hi + lo) ∷ bs)
unfolding decode_hex
decode_hex_cons c d s hi lo bs p q r = rw (p, q, r) refl

pub decode_hex-encode_hex : (bs : List ℕ) → All IsByte bs → decode_hex (encode_hex bs) ≡ some bs
unfolding decode_hex encode_hex
decode_hex-encode_hex [] small = refl
decode_hex-encode_hex (b ∷ bs) (head, tail) =
    let (c, d, text, p, q) = encode_hex_cons b bs head in
    let byte : 16 * (b / 16) + b % 16 ≡ b = omega arith in
    ap decode_hex text
    ∙ decode_hex_cons c d (encode_hex bs) (b / 16) (b % 16) bs p q (decode_hex-encode_hex bs tail)
    ∙ ap (λ n. some (n ∷ bs)) byte

x_is_no_digit : (c : ℕ) (v : ℕ) → hex_value c ≡ some v → c ≢ b'x'
unfolding hex_value
x_is_no_digit c v h same = absurd (ground arith)

trim_0x_digits :
    (c d : Char) (s : String) (v : ℕ)
    → hex_value (code d) ≡ some v
    → trim_0x (c ▸ (d ▸ s)) ≡ c ▸ (d ▸ s)
unfolding trim_0x
trim_0x_digits c d s v h = ground (arith, x_is_no_digit (code d) v h)

pub trim_0x-encode_hex : (bs : List ℕ) → All IsByte bs → trim_0x (encode_hex bs) ≡ encode_hex bs
unfolding trim_0x encode_hex
trim_0x-encode_hex [] small = refl
trim_0x-encode_hex (b ∷ bs) (head, tail) =
    let (c, d, text, p, q) = encode_hex_cons b bs head in
    ap trim_0x text ∙ trim_0x_digits c d (encode_hex bs) (b % 16) q ∙ sym text

trim_0x_marks : (s : String) → trim_0x ("0" ▸ ("x" ▸ s)) ≡ s
unfolding trim_0x ℕ_discrete
trim_0x_marks s = refl

pub trim_0x_prefix : (s : String) → trim_0x ("0x" <> s) ≡ s
trim_0x_prefix s =
    ap trim_0x (cons-append "0" "x" s ∙ ap (λ t. "0" ▸ t) (one_char "x" s)) ∙ trim_0x_marks s
