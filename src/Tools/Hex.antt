-- ===== src/Tools/Hex.antt =====
-- Numbers printed with a fixed number of hexadecimal digits.
use Prim.Native.Char.{code}
use Prim.Native.String.{[] as nil, ◌∷◌ as ◌▸◌}
use text.Mathlib.TextLemmas.{cons-append, nil-append}
use native.Mathlib.Nat.{pow-suc, mul_assoc}
use aurelith.Base.{
  ℕ, zero, suc, ◌+◌, ◌*◌, ◌/◌, ◌%◌, ◌^◌, ◌<◌, ◌≡◌, refl, sym, ap, ◌∙◌, String, true, arith,
  ℕ_discrete,
}
use aurelith.Base.Text.{◌<>◌, digit, hex_value, value_or_zero, show_hex, parse_hex_from, parse_hex}
use aurelith.EnvFile.{is_hex_digits, matches_hex, is_extension_id, drop_two}
use aurelith.Revert.Hex.{digit-IsDigit}
use aurelith.Tools.{id_text}

parse_hex_from-append :
    (acc : ℕ) (s t : String) → parse_hex_from acc (s <> t) ≡ parse_hex_from (parse_hex_from acc s) t
unfolding parse_hex_from
parse_hex_from-append acc nil t = ap (parse_hex_from acc) (nil-append t)
parse_hex_from-append acc (c ▸ s) t =
    ap (parse_hex_from acc) (cons-append c s t)
    ∙ parse_hex_from-append (16 * acc + value_or_zero (hex_value (code c))) s t

parse_hex_from-digit : (acc d : ℕ) → d < 16 → parse_hex_from acc (digit d) ≡ 16 * acc + d
unfolding parse_hex_from
parse_hex_from-digit acc d small =
    let (c, text, value) = digit-IsDigit d small in
    ap (parse_hex_from acc) text ∙ ap (λ v. 16 * acc + value_or_zero v) value

-- The digits stand for the number, after those that have been read.
parse_hex_from-show_hex :
    (k acc n : ℕ) → n < 16 ^ k → parse_hex_from acc (show_hex k n) ≡ acc * 16 ^ k + n
unfolding show_hex parse_hex_from
parse_hex_from-show_hex zero acc n small = omega (arith, small)
parse_hex_from-show_hex (suc k) acc n small =
    parse_hex_from-append acc (show_hex k (n / 16)) (digit (n % 16))
    ∙ ap (λ z. parse_hex_from z (digit (n % 16)))
        (parse_hex_from-show_hex k acc (n / 16) (omega (arith, pow-suc 16 k, small)))
    ∙ parse_hex_from-digit (acc * 16 ^ k + n / 16) (n % 16) (omega arith)
    ∙ omega (arith, ap (λ z. acc * z) (pow-suc 16 k) ∙ sym (mul_assoc acc (16 ^ k) 16))

is_hex_digits-snoc :
    (k : ℕ) (s : String) (d : ℕ)
    → d < 16
    → is_hex_digits k s ≡ true
    → is_hex_digits (suc k) (s <> digit d) ≡ true
unfolding is_hex_digits
is_hex_digits-snoc zero nil d small h =
    let (c, text, value) = digit-IsDigit d small in
    ap (is_hex_digits 1) (nil-append (digit d) ∙ text) ∙ ground (arith, value)
is_hex_digits-snoc zero (c ▸ s) d small h = absurd (ground (arith, h))
is_hex_digits-snoc (suc k) nil d small h = absurd (ground (arith, h))
is_hex_digits-snoc (suc k) (c ▸ s) d small h =
    let rest : is_hex_digits k s ≡ true = ground (arith, h) in
    ap (is_hex_digits (suc (suc k))) (cons-append c s (digit d))
    ∙ ground (arith, h, is_hex_digits-snoc k s d small rest)

is_hex_digits-show_hex : (k n : ℕ) → is_hex_digits k (show_hex k n) ≡ true
unfolding show_hex is_hex_digits
is_hex_digits-show_hex zero n = refl
is_hex_digits-show_hex (suc k) n =
    is_hex_digits-snoc k (show_hex k (n / 16)) (n % 16) (omega arith)
      (is_hex_digits-show_hex k (n / 16))

marked : (s : String) → "0x" <> s ≡ "0" ▸ "x" ▸ s
marked s =
    cons-append "0" "x" s
    ∙ ap (λ t. "0" ▸ t) (cons-append "x" "" s ∙ ap (λ t. "x" ▸ t) (nil-append s))

matches_hex-marked :
    (n : ℕ) (s : String) → is_hex_digits n s ≡ true → matches_hex n ("0" ▸ "x" ▸ s) ≡ true
unfolding matches_hex ℕ_discrete
matches_hex-marked n s h = h

-- The text that register-extension prints for an id of 256 bits has the format that
-- `extensionIDRegex` asks of the `EXTENSION_ID` that pre-build.sh makes of it, and the digits
-- after its prefix are read back as the id.
pub id_text-is_extension_id :
    (id : ℕ)
    → id < 2 ^ 256
    → (is_extension_id (id_text id) ≡ true) × (parse_hex (drop_two (id_text id)) ≡ id)
unfolding id_text is_extension_id parse_hex
id_text-is_extension_id id small =
    let split = marked (show_hex 64 id) in
    (
      ap (matches_hex 64) split
          ∙ matches_hex-marked 64 (show_hex 64 id) (is_hex_digits-show_hex 64 id),
      ap (λ t. parse_hex (drop_two t)) split
          ∙ parse_hex_from-show_hex 64 0 id (omega (arith, small))
          ∙ omega arith,
    )
