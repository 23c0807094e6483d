-- ===== src/Versions/Bytes.antt =====
-- A version's text in 32 bytes, and back.
use mathlib.Core.List.{reverse, reverse-reverse}
use aurelith.Base.{
  ℕ, zero, suc, ◌≤◌, ◌≡◌, ◌≢◌, refl, ap, ◌∙◌, String, Bool, List, [], ◌∷◌, ok, nat_eq, length,
  arith, ℕ_discrete,
}
use aurelith.Versions.{
  utf8, pad, string_to_bytes32, cons_unless_zero, trim_zeros, first_space, last_space, drop_spaces,
  trim_space_bytes, bytes32_to_string,
}

length-pad : (n : ℕ) (bytes : List ℕ) → length (pad n bytes) ≡ n
unfolding pad
length-pad zero bytes = refl
length-pad (suc n) [] = omega (arith, length-pad n [])
length-pad (suc n) (b ∷ bytes) = omega (arith, length-pad n bytes)

trim_zeros-zeros : (n : ℕ) → trim_zeros (pad n []) ≡ []
unfolding pad trim_zeros ℕ_discrete
trim_zeros-zeros zero = refl
trim_zeros-zeros (suc n) = ap (cons_unless_zero 0) (trim_zeros-zeros n)

-- The bytes do not end in a zero.
abbrev pub EndsWell : List ℕ → Type 0
EndsWell [] = Unit
EndsWell (b ∷ []) = b ≢ 0
EndsWell (b ∷ c ∷ bytes) = EndsWell (c ∷ bytes)

trim_zeros-pad :
    (n : ℕ) (bytes : List ℕ) → length bytes ≤ n → EndsWell bytes → trim_zeros (pad n bytes) ≡ bytes
unfolding pad trim_zeros
trim_zeros-pad n [] short well = trim_zeros-zeros n
trim_zeros-pad zero (b ∷ bytes) short well = absurd (omega arith)
trim_zeros-pad (suc n) (b ∷ []) short well =
    ap (cons_unless_zero b) (trim_zeros-zeros n) ∙ ground (arith, well)
trim_zeros-pad (suc n) (b ∷ c ∷ bytes) short well =
    ap (cons_unless_zero b) (trim_zeros-pad n (c ∷ bytes) (omega arith) well)

drop_spaces-keeps :
    (width : List ℕ → ℕ) (bytes : List ℕ) → width bytes ≡ 0 → drop_spaces width 0 bytes ≡ bytes
unfolding drop_spaces
drop_spaces-keeps width [] none_there = refl
drop_spaces-keeps width (b ∷ bytes) none_there = ground (arith, none_there)

trim_space_bytes-keeps :
    (bytes : List ℕ)
    → first_space bytes ≡ 0
    → last_space (reverse bytes) ≡ 0
    → trim_space_bytes bytes ≡ bytes
unfolding trim_space_bytes
trim_space_bytes-keeps bytes first last =
    rw (drop_spaces-keeps first_space bytes first)
      (rw (drop_spaces-keeps last_space (reverse bytes) last) (reverse-reverse bytes))

-- A text of at most 32 bytes has an array of exactly 32 bytes. If the text does not begin or end
-- with a space and does not end in a zero byte, `bytes32ToString` of audit-deploy gives back its
-- bytes.
pub string_to_bytes32_back :
    (is_print : ℕ → Bool) (s : String)
    → length (utf8 s) ≤ 32
    → EndsWell (utf8 s)
    → first_space (utf8 s) ≡ 0
    → last_space (reverse (utf8 s)) ≡ 0
    → (bytes : List ℕ) × (string_to_bytes32 is_print s ≡ ok bytes)
      × (length bytes ≡ 32)
      × (bytes32_to_string bytes ≡ utf8 s)
unfolding string_to_bytes32 bytes32_to_string
string_to_bytes32_back is_print s short well first last = (
  pad 32 (utf8 s),
  ground arith,
  length-pad 32 (utf8 s),
  ap trim_space_bytes (trim_zeros-pad 32 (utf8 s) short well)
      ∙ trim_space_bytes-keeps (utf8 s) first last,
)
