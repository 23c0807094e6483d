-- ===== src/EnvFile/Hex.antt =====
-- What the two regular expressions promise of a text that they match.
use Prim.Native.Char.{code}
use Prim.Native.String.{[] as nil, ◌∷◌ as ◌▸◌}
use native.Mathlib.Nat.{pow-suc, mul-le-mul_right}
use aurelith.Base.{ℕ, zero, suc, ◌+◌, ◌*◌, ◌^◌, ◌≤◌, ◌<◌, ◌≡◌, String, true, arith}
use aurelith.Base.Text.{hex_value, value_or_zero, parse_hex_from, parse_hex}
use aurelith.EnvFile.{is_hex_digits, matches_hex, is_extension_id, drop_two}

hex_value-lt : (c : ℕ) → value_or_zero (hex_value c) < 16
unfolding hex_value
hex_value-lt c = ground arith

shift_lt : (acc v p r : ℕ) → v < 16 → r < (16 * acc + v + 1) * p → r < (acc + 1) * (p * 16)
shift_lt acc v p r small h =
    let scaled : (16 * acc + v + 1) * p ≤ (16 * (acc + 1)) * p = mul-le-mul_right p (omega arith) in
    omega arith

parse_hex_from-lt :
    (n acc : ℕ) (s : String) → is_hex_digits n s ≡ true → parse_hex_from acc s < (acc + 1) * 16 ^ n
unfolding is_hex_digits parse_hex_from
parse_hex_from-lt zero acc nil h = omega arith
parse_hex_from-lt zero acc (c ▸ s) h = absurd (cc)
parse_hex_from-lt (suc n) acc nil h = absurd (cc)
parse_hex_from-lt (suc n) acc (c ▸ s) h =
    let v = value_or_zero (hex_value (code c)) in
    rw (pow-suc 16 n) (
      shift_lt acc v (16 ^ n) (parse_hex_from (16 * acc + v) s) (hex_value-lt (code c))
        (parse_hex_from-lt n (16 * acc + v) s (ground arith)))

matches_hex-lt : (n : ℕ) (s : String) → matches_hex n s ≡ true → parse_hex (drop_two s) < 16 ^ n
unfolding matches_hex parse_hex
matches_hex-lt n nil h = absurd (cc)
matches_hex-lt n (c ▸ nil) h = absurd (cc)
matches_hex-lt n (c ▸ d ▸ s) h = omega (arith, parse_hex_from-lt n 0 s (ground arith))

-- An `EXTENSION_ID` that `extensionIDRegex` accepts is a number that fits a `uint256`.
pub is_extension_id-lt : (s : String) → is_extension_id s ≡ true → parse_hex (drop_two s) < 2 ^ 256
unfolding is_extension_id
is_extension_id-lt s h = omega (arith, matches_hex-lt 64 s h)
