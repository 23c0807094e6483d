-- ===== src/EnvFile/Words.antt =====
-- Lines and entries made of words: text with no space, which trimming and splitting leave alone.
use Prim.Native.Char.{Char, code, len_utf8, len_utf8_def, width}
use Prim.Native.Nat.{compare}
use Prim.Native.String.len
use Prim.Native.String.{[] as nil, ◌∷◌ as ◌▸◌}
use text.Mathlib.TextLemmas.{cons-append, nil-append, cons≢nil}
use aurelith.Base.{
  ℕ, zero, suc, ◌+◌, ◌<◌, ◌≡◌, refl, ◌∙◌, ap, ◌⊎◌, String, Bool, true, false, not, ◌&&◌, some, ◌∷◌,
  arith, ◌==◌, ℕ_discrete, nat_eq, string_eq,
}
use aurelith.Base.Text.{◌<>◌, is_space, len, trim_left, trim_right, trim_space, split_at, hex_value}
use aurelith.EnvFile.{
  raw_lines, drop_cr, is_hex, begins_with, parse_line, entry_line, is_hex_digits, matches_hex,
}

abbrev pub all_chars : (ℕ → Bool) → String → Bool
all_chars p nil = true
all_chars p (c ▸ s) = p (code c) && all_chars p s

module _ (p : ℕ → Bool) where
  pub all_chars-append : (s t : String) → all_chars p (s <> t) ≡ (all_chars p s && all_chars p t)
  all_chars-append nil t = rw nil-append
  all_chars-append (c ▸ s) t = rw cons-append (ground (arith, all_chars-append s t))

  pub all_chars_mono :
      (q : ℕ → Bool) (s : String)
      → ((c : ℕ) → p c ≡ true → q c ≡ true)
      → all_chars p s ≡ true
      → all_chars q s ≡ true
  all_chars_mono q nil h k = refl
  all_chars_mono q (c ▸ s) h k = ground (arith, h (code c), all_chars_mono q s h)

abbrev pub in_line : ℕ → Bool
in_line c = not (c == 10)

abbrev pub in_word : ℕ → Bool
in_word c = not (is_space c)

abbrev pub in_key : ℕ → Bool
in_key c = not (c == b'=')

pub in_word-in_line : (c : ℕ) → in_word c ≡ true → in_line c ≡ true
unfolding is_space
in_word-in_line c h = ground arith

pub newline-append : (s : String) → "\n" <> s ≡ "\n" ▸ s
newline-append s = cons-append "\n" "" s ∙ ap (λ t. "\n" ▸ t) (nil-append s)

pub raw_lines-append :
    (l rest : String)
    → all_chars in_line l ≡ true
    → raw_lines (l <> ("\n" <> rest)) ≡ l ∷ raw_lines rest
unfolding raw_lines ℕ_discrete
raw_lines-append nil rest h = rw (nil-append ("\n" <> rest), newline-append rest) refl
raw_lines-append (c ▸ l) rest h =
    rw (cons-append c l ("\n" <> rest), raw_lines-append l rest (ground arith)) (ground arith)

pub drop_cr-word : (l : String) → all_chars in_word l ≡ true → drop_cr l ≡ l
unfolding drop_cr is_space
drop_cr-word nil h = refl
drop_cr-word (c ▸ nil) h = ground arith
drop_cr-word (c ▸ d ▸ s) h = ap (λ t. c ▸ t) (drop_cr-word (d ▸ s) (ground arith))

pub trim_right-word : (l : String) → all_chars in_word l ≡ true → trim_right l ≡ l
unfolding trim_right
trim_right-word nil h = refl
trim_right-word (c ▸ nil) h = ground arith
trim_right-word (c ▸ d ▸ s) h = rw (trim_right-word (d ▸ s) (ground arith)) refl

pub trim_left-word : (c : Char) (s : String) → in_word (code c) ≡ true → trim_left (c ▸ s) ≡ c ▸ s
unfolding trim_left
trim_left-word c s h = ground arith

pub trim_space-word : (l : String) → all_chars in_word l ≡ true → trim_space l ≡ l
unfolding trim_space
trim_space-word nil h = refl
trim_space-word (c ▸ s) h = rw (trim_left-word c s (ground arith)) (trim_right-word (c ▸ s) h)

pub equals-append : (s : String) → "=" <> s ≡ "=" ▸ s
equals-append s = cons-append "=" "" s ∙ ap (λ t. "=" ▸ t) (nil-append s)

pub split_at-append :
    (k v : String) → all_chars in_key k ≡ true → split_at b'=' (entry_line k v) ≡ some (k, v)
unfolding split_at ℕ_discrete
split_at-append nil v h = rw (nil-append ("=" <> v), equals-append v) refl
split_at-append (c ▸ k) v h =
    rw (cons-append c k ("=" <> v), split_at-append k v (ground arith)) (ground arith)

pub entry_line-word :
    (k v : String)
    → all_chars in_word k ≡ true
    → all_chars in_word v ≡ true
    → all_chars in_word (entry_line k v) ≡ true
unfolding is_space
entry_line-word k v hk hv =
    rw (equals-append v, all_chars-append in_word k ("=" ▸ v)) (ground arith)

-- A key that is not empty and holds no space, no `=` and no leading `#`, and a value with no
-- space, are read back from their line.
pub parse_line-entry_line :
    (c : Char) (k v : String)
    → begins_with b'#' (c ▸ k) ≡ false
    → all_chars in_key (c ▸ k) ≡ true
    → all_chars in_word (c ▸ k) ≡ true
    → all_chars in_word v ≡ true
    → parse_line (entry_line (c ▸ k) v) ≡ some (c ▸ k, v)
unfolding parse_line
parse_line-entry_line c k v comment key word value =
    rw
      (
        trim_space-word _ (entry_line-word (c ▸ k) v word value),
        split_at-append (c ▸ k) v key,
        trim_space-word (c ▸ k) word,
        trim_space-word v value,
        cons-append c k ("=" <> v),
      )
      (ground (arith, cons≢nil {x = c} {xs = k <> "=" <> v}))

pub is_hex-ascii : (c : ℕ) → is_hex c ≡ true → c < 128
unfolding hex_value
is_hex-ascii c h = ground arith

pub is_hex-in_word : (c : ℕ) → is_hex c ≡ true → in_word c ≡ true
unfolding hex_value is_space
is_hex-in_word c h = ground arith

pub ascii_width :
    (c : Char)
    → code c < 128
    → width (compare (code c) 128) (compare (code c) 2048) (compare (code c) 65536) ≡ 1
ascii_width c h = ground arith

pub len_utf8-ascii : (c : Char) → code c < 128 → len_utf8 c ≡ 1
len_utf8-ascii c h = (λ i. len_utf8_def c i) ∙ ascii_width c h

pub len-cons : (c : Char) (s : String) → len (c ▸ s) ≡ len_utf8 c + len s
len-cons c s = λ i. len.cons c s i

pub len-is_hex_digits : (n : ℕ) (s : String) → is_hex_digits n s ≡ true → len s ≡ n
unfolding is_hex_digits
len-is_hex_digits zero nil h = refl
len-is_hex_digits zero (c ▸ s) h = absurd (cc)
len-is_hex_digits (suc n) nil h = absurd (cc)
len-is_hex_digits (suc n) (c ▸ s) h = omega (
  arith,
  len-cons c s,
  len_utf8-ascii c (is_hex-ascii (code c) (ground arith)),
  len-is_hex_digits n s (ground arith),
)

pub is_hex_digits-word :
    (n : ℕ) (s : String) → is_hex_digits n s ≡ true → all_chars in_word s ≡ true
unfolding is_hex_digits
is_hex_digits-word zero nil h = refl
is_hex_digits-word zero (c ▸ s) h = absurd (cc)
is_hex_digits-word (suc n) nil h = absurd (cc)
is_hex_digits-word (suc n) (c ▸ s) h =
    ground (arith, is_hex-in_word (code c), is_hex_digits-word n s)

pub prefix_chars : (c : ℕ) → (c ≡ b'0') ⊎ (c ≡ b'x') → (c < 128) × (in_word c ≡ true)
unfolding is_space
prefix_chars c h = ground arith

-- A text that matches is a word of a known length.
pub matches_hex-word :
    (n : ℕ) (s : String) → matches_hex n s ≡ true → (len s ≡ 2 + n) × (all_chars in_word s ≡ true)
unfolding matches_hex
matches_hex-word n nil h = absurd (cc)
matches_hex-word n (c ▸ nil) h = absurd (cc)
matches_hex-word n (c ▸ d ▸ s) h =
    let (c_ascii, c_word) = prefix_chars (code c) (ground arith) in
    let (d_ascii, d_word) = prefix_chars (code d) (ground arith) in
    let digits : is_hex_digits n s ≡ true = ground arith in
    (
      omega (
        arith,
        len-cons c (d ▸ s),
        len-cons d s,
        len_utf8-ascii c c_ascii,
        len_utf8-ascii d d_ascii,
        len-is_hex_digits n s digits,
      ),
      ground (arith, is_hex_digits-word n s digits),
    )
