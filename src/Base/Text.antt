-- ===== src/Base/Text.antt =====
-- The calls of Go's `strings`, `strconv`, `encoding/hex` and `fmt` that the program makes. A Go
-- string is a sequence of characters here: the text is valid UTF-8.
use Prim.Native.Char.{Char, code}
use Prim.Native.Nat.{ℕ, zero, suc, ◌+◌, ◌*◌, ◌-◌, ◌/◌, ◌%◌}
use Prim.Native.String.{String, slice, [] as nil, ◌∷◌ as ◌▸◌, ◌++◌ as ◌<>◌}
use mathlib.Core.Bool.{Bool, ◌&&◌, ◌||◌}
use mathlib.Core.Option.{Option, none, some}
use mathlib.Core.List.{List, [], ◌∷◌}
use text.Mathlib.Text.{starts_with}
use aurelith.Base.Logic.{◌==◌, nat_eq, ltb, leb, if◌then◌else◌}
pub use Prim.Native.String.{◌++◌ as ◌<>◌, len}

-- `unicode.IsSpace`
unfoldable pub is_space : ℕ → Bool
is_space c =
    (leb 9 c && leb c 13)
    || c == 32
    || c == 0x85
    || c == 0xa0
    || c == 0x1680
    || (leb 0x2000 c && leb c 0x200a)
    || c == 0x2028
    || c == 0x2029
    || c == 0x202f
    || c == 0x205f
    || c == 0x3000

unfoldable pub trim_left : String → String
trim_left nil = nil
trim_left (c ▸ s) = let rest = trim_left s in if is_space (code c) then rest else c ▸ s

abbrev pub cons_trimmed : Char → String → String
cons_trimmed c nil = if is_space (code c) then nil else c ▸ nil
cons_trimmed c s = c ▸ s

unfoldable pub trim_right : String → String
trim_right nil = nil
trim_right (c ▸ s) = cons_trimmed c (trim_right s)

-- `strings.TrimSpace`
unfoldable pub trim_space : String → String
unfolding trim_left trim_right
trim_space s = trim_right (trim_left s)

-- `strings.TrimPrefix(s, "0x")`
unfoldable pub trim_0x : String → String
trim_0x (c ▸ d ▸ s) = if code c == b'0' && code d == b'x' then s else c ▸ d ▸ s
trim_0x s = s

-- `strings.Contains`
unfoldable pub has_substring : String → String → Bool
has_substring nil t = starts_with nil t
has_substring (c ▸ s) t = starts_with (c ▸ s) t || has_substring s t

-- `strings.SplitN(s, sep, 2)` for a separator of one byte: the text around its first occurrence.
unfoldable pub split_at : ℕ → String → Option (String × String)
split_at sep nil = none
split_at sep (c ▸ s) =
    let rest : Option (String × String) = elim (split_at sep s) [
      | none ↦ none
      | some (before, after) ↦ some (c ▸ before, after)
    ] in
    if code c == sep then some (nil, s) else rest

abbrev pub cons_part : Char → List String → List String
cons_part c [] = (c ▸ nil) ∷ []
cons_part c (p ∷ ps) = (c ▸ p) ∷ ps

-- `strings.Split` for a separator of one byte.
unfoldable pub split : ℕ → String → List String
split sep nil = nil ∷ []
split sep (c ▸ s) = let rest = split sep s in if code c == sep then nil ∷ rest else cons_part c rest

-- `strings.Join`
unfoldable pub join : String → List String → String
join sep [] = ""
join sep (p ∷ []) = p
join sep (p ∷ q ∷ ps) = p <> sep <> join sep (q ∷ ps)

-- The digit of a number below 16.
unfoldable pub digit : ℕ → String
digit n = slice "0123456789abcdef" n (suc n)

unfoldable pub show_from : ℕ → ℕ → String
show_from zero n = ""
show_from (suc fuel) n =
    let rest = show_from fuel (n / 10) in if ltb n 10 then digit n else rest <> digit (n % 10)

-- `%d`; every round divides by ten, so `n` and one more are enough.
unfoldable pub show_ℕ : ℕ → String
unfolding show_from digit
show_ℕ n = show_from (suc n) n

-- `%0kx`
unfoldable pub show_hex : ℕ → ℕ → String
show_hex zero n = ""
show_hex (suc k) n = show_hex k (n / 16) <> digit (n % 16)

-- `hex.EncodeToString` and `%x`
unfoldable pub encode_hex : List ℕ → String
encode_hex [] = ""
encode_hex (b ∷ bs) = digit (b / 16) <> digit (b % 16) <> encode_hex bs

unfoldable pub hex_value : ℕ → Option ℕ
hex_value c =
    if leb b'0' c && leb c b'9'
    then some (c - b'0')
    else if leb b'a' c && leb c b'f'
    then some (c - b'a' + 10)
    else if leb b'A' c && leb c b'F'
    then some (c - b'A' + 10)
    else none

abbrev pub cons_byte : Option ℕ → Option ℕ → Option (List ℕ) → Option (List ℕ)
cons_byte (some hi) (some lo) (some bs) = some ((16 * hi + lo) ∷ bs)
cons_byte _ _ _ = none

-- `hex.DecodeString`: `none` for an odd number of digits and for any other character.
unfoldable pub decode_hex : String → Option (List ℕ)
unfolding hex_value
decode_hex nil = some []
decode_hex (_ ▸ nil) = none
decode_hex (c ▸ d ▸ s) = cons_byte (hex_value (code c)) (hex_value (code d)) (decode_hex s)

abbrev pub value_or_zero : Option ℕ → ℕ
value_or_zero none = 0
value_or_zero (some v) = v

-- `big.Int.SetString(s, 16)` on digits; any other character counts as 0.
unfoldable pub parse_hex_from : ℕ → String → ℕ
parse_hex_from acc nil = acc
parse_hex_from acc (c ▸ s) = parse_hex_from (16 * acc + value_or_zero (hex_value (code c))) s

unfoldable pub parse_hex : String → ℕ
unfolding parse_hex_from hex_value
parse_hex s = parse_hex_from 0 s

-- `is_print` is `strconv.IsPrint`, a table of the Unicode standard.
module _ (is_print : ℕ → Bool) where
  escape : Char → String
  escape c =
      if code c == b'"'
      then "\\\""
      else if code c == b'\\'
      then "\\\\"
      else if is_print (code c)
      then c ▸ nil
      else if code c == 7
      then "\\a"
      else if code c == 8
      then "\\b"
      else if code c == 12
      then "\\f"
      else if code c == 10
      then "\\n"
      else if code c == 13
      then "\\r"
      else if code c == 9
      then "\\t"
      else if code c == 11
      then "\\v"
      else if ltb (code c) 32 || code c == 0x7f
      then "\\x" <> show_hex 2 (code c)
      else if ltb (code c) 0x10000
      then "\\u" <> show_hex 4 (code c)
      else "\\U" <> show_hex 8 (code c)

  escape_all : String → String
  escape_all nil = ""
  escape_all (c ▸ s) = escape c <> escape_all s

  -- `%q`
  unfoldable pub quote : String → String
  unfolding escape escape_all show_hex digit
  quote s = "\"" <> escape_all s <> "\""

unfoldable pub decimal_from : ℕ → String → Option ℕ
decimal_from acc nil = some acc
decimal_from acc (c ▸ s) =
    let rest = decimal_from (10 * acc + (code c - b'0')) s in
    if leb b'0' (code c) && leb (code c) b'9' then rest else none

-- `strconv.ParseUint(s, 10, 64)`: `none` for its error, also out of range.
unfoldable pub parse_uint : String → Option ℕ
unfolding decimal_from
parse_uint nil = none
parse_uint s = elim (decimal_from 0 s) [
  | none ↦ none
  | some v ↦ if ltb v 18446744073709551616 then some v else none
]
