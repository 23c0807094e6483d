-- ===== src/Versions.antt =====
-- `AddTeeVersion` and `StringToBytes32` of `fcc-extension/tools/pkg/fccutils/registration.go`, and
-- `fcc-extension/tools/cmd/allow-tee-version/main.go`: the versions of an extension's code.
pub mod Bytes
pub mod Laws
use Prim.Native.Char.{code}
use Prim.Native.String.{[] as nil, ◌∷◌ as ◌▸◌}
use mathlib.Core.List.{reverse}
use aurelith.Base.{
  ℕ, zero, suc, ◌+◌, ◌-◌, ◌&&◌, ◌||◌, ◌*◌, ◌/◌, ◌%◌, String, Bool, true, false, List, [], ◌∷◌, ◌++◌,
  Error, Result, ok, err, none, some, ◌==◌, string_eq, nat_eq, ltb, length, if◌then◌else◌,
}
use aurelith.Base.Text.{◌<>◌, quote, has_substring}
use aurelith.World.{Address, Hash, World}
use aurelith.Chain.{Call, in_context, and_then, Node, check_tx}
use aurelith.Chain.Support.{Library, trim_key_prefix, default_support, ToolSupport}
use aurelith.TeeCalls.{tee_info}
use aurelith.TeeCalls.Identity.{SignedTeeInfo, Crypto, tee_proxy_id}

-- The bytes of a character in UTF-8.
unfoldable pub utf8_char : ℕ → List ℕ
utf8_char c =
    if ltb c 0x80
    then c ∷ []
    else if ltb c 0x800
    then (0xc0 + c / 64) ∷ (0x80 + c % 64) ∷ []
    else if ltb c 0x10000
    then (0xe0 + c / 4096) ∷ (0x80 + c / 64 % 64) ∷ (0x80 + c % 64) ∷ []
    else (0xf0 + c / 262144) ∷ (0x80 + c / 4096 % 64) ∷ (0x80 + c / 64 % 64) ∷ (0x80 + c % 64) ∷ []

-- The bytes of a Go string.
unfoldable pub utf8 : String → List ℕ
unfolding utf8_char
utf8 nil = []
utf8 (c ▸ s) = utf8_char (code c) ++ utf8 s

-- `copy` into an array of zeros.
unfoldable pub pad : ℕ → List ℕ → List ℕ
pad zero bytes = []
pad (suc n) [] = 0 ∷ pad n []
pad (suc n) (b ∷ bytes) = b ∷ pad n bytes

-- `StringToBytes32`
unfoldable pub string_to_bytes32 : (ℕ → Bool) → String → Result (List ℕ)
unfolding utf8 pad quote
string_to_bytes32 is_print s =
    if ltb 32 (length (utf8 s))
    then err ("version " <> quote is_print s <> " exceeds 32 bytes")
    else ok (pad 32 (utf8 s))

abbrev pub cons_unless_zero : ℕ → List ℕ → List ℕ
cons_unless_zero b [] = if b == 0 then [] else b ∷ []
cons_unless_zero b (c ∷ bytes) = b ∷ c ∷ bytes

-- The loop of `bytes32ToString`, which drops the zeros at the end.
unfoldable pub trim_zeros : List ℕ → List ℕ
trim_zeros [] = []
trim_zeros (b ∷ bytes) = cons_unless_zero b (trim_zeros bytes)

-- The spaces outside ASCII: U+0085, U+00A0, U+1680, U+2000 to U+200A, U+2028, U+2029, U+202F,
-- U+205F and U+3000, from their first byte.
is_wide_space : ℕ → ℕ → ℕ → Bool
is_wide_space b c d =
    (b == 0xe1 && c == 0x9a && d == 0x80)
    || (b == 0xe2 && c == 0x80 && ltb 0x7f d && ltb d 0x8b)
    || (b == 0xe2 && c == 0x80 && (d == 0xa8 || d == 0xa9 || d == 0xaf))
    || (b == 0xe2 && c == 0x81 && d == 0x9f)
    || (b == 0xe3 && c == 0x80 && d == 0x80)

is_narrow_space : ℕ → ℕ → Bool
is_narrow_space b c = b == 0xc2 && (c == 0x85 || c == 0xa0)

wide_space : ℕ → List ℕ → ℕ
unfolding is_wide_space is_narrow_space
wide_space b [] = 0
wide_space b (c ∷ []) = if is_narrow_space b c then 2 else 0
wide_space b (c ∷ d ∷ bytes) =
    if is_narrow_space b c then 2 else if is_wide_space b c d then 3 else 0

wide_space_back : ℕ → List ℕ → ℕ
unfolding is_wide_space is_narrow_space
wide_space_back d [] = 0
wide_space_back d (c ∷ []) = if is_narrow_space c d then 2 else 0
wide_space_back d (c ∷ b ∷ bytes) =
    if is_narrow_space c d then 2 else if is_wide_space b c d then 3 else 0

-- The number of bytes of the space of `unicode.IsSpace` that a string starts with; 0 without one.
unfoldable pub first_space : List ℕ → ℕ
unfolding wide_space
first_space [] = 0
first_space (b ∷ bytes) = if b == 32 || (ltb 8 b && ltb b 14) then 1 else wide_space b bytes

-- The same for the end of a string, whose bytes are given from the last to the first.
unfoldable pub last_space : List ℕ → ℕ
unfolding wide_space_back
last_space [] = 0
last_space (b ∷ bytes) = if b == 32 || (ltb 8 b && ltb b 14) then 1 else wide_space_back b bytes

-- Drops spaces from the start; the first number is that of the bytes still to drop of one.
unfoldable pub drop_spaces : (List ℕ → ℕ) → ℕ → List ℕ → List ℕ
drop_spaces width k [] = []
drop_spaces width (suc k) (b ∷ bytes) = drop_spaces width k bytes
drop_spaces width zero (b ∷ bytes) =
    let rest = drop_spaces width (width (b ∷ bytes) - 1) bytes in
    if width (b ∷ bytes) == 0 then b ∷ bytes else rest

-- `strings.TrimSpace` on the bytes of a string.
unfoldable pub trim_space_bytes : List ℕ → List ℕ
unfolding drop_spaces first_space last_space
trim_space_bytes bytes =
    reverse (drop_spaces last_space 0 (reverse (drop_spaces first_space 0 bytes)))

-- `bytes32ToString`
unfoldable pub bytes32_to_string : List ℕ → List ℕ
unfolding trim_zeros trim_space_bytes
bytes32_to_string bytes = trim_space_bytes (trim_zeros bytes)

-- The calls of the `ExtensionManager` binding on the states `C` of a chain.
pub record Versions (C : Type 0) : Type 0 where
  pub node : Node C
  -- the error of `bind.NewKeyedTransactorWithChainID` for a key
  pub transactor : ℕ → Error
  -- `IsCodeHashPlatformSupported`
  pub is_supported : Hash → Hash → Hash → C → Result Bool
  -- the binding's `AddTeeVersion`, for a key
  pub send_add_version : ℕ → Hash → List ℕ → Hash → List Hash → Call C Hash

-- The error that `main` takes for a success.
abbrev pub already_exists : String → Bool
already_exists e = has_substring e "VersionAlreadyExists"

tolerate : {C : Type 0} → C × Result (Unit {0}) → C × Result (Unit {0})
tolerate (c, ok u) = (c, ok u)
tolerate (c, err e) = (c, if already_exists e then ok tt else err e)

module _ {C : Type 0} (k : Versions C) (w : World) where
  -- The transaction of `AddTeeVersion`.
  send_version : ℕ → Hash → Hash → Hash → List ℕ → Call C (Unit {0})
  send_version key extension code_hash platform version c =
      and_then
        (in_context "TeeExtensionRegistry.AddTeeVersion failed: "
          (k.send_add_version key extension version code_hash (platform ∷ []) c))
        λ tx c₁. and_then (check_tx k.node tx c₁) λ receipt c₂. (c₂, ok tt)

  -- `AddTeeVersion`
  unfoldable pub add_tee_version : ℕ → Hash → Hash → Hash → String → Call C (Unit {0})
  unfolding send_version string_to_bytes32
  add_tee_version key extension code_hash platform version c = elim (k.transactor key) [
    | some e ↦ (c, err e)
    | none ↦ elim (string_to_bytes32 w.is_print version) [
      | err e ↦ (c, err e)
      | ok bytes ↦ send_version key extension code_hash platform bytes c
    ]
  ]

  -- `main` from the query on.
  unfoldable pub allow_version : ℕ → SignedTeeInfo → String → Call C (Unit {0})
  unfolding add_tee_version tolerate
  allow_version key info version c =
      let extension = info.machine_data.extension_id in
      let code_hash = info.machine_data.code_hash in
      let platform = info.machine_data.platform in
      elim (k.is_supported extension code_hash platform c) [
        | err e ↦ (c, err e)
        | ok true ↦ (c, ok tt)
        | ok false ↦ tolerate (add_tee_version key extension code_hash platform version c)
      ]

  -- The key of the extension's owner, or else that of the deployer.
  unfoldable pub owner_key : Library → ToolSupport → Result ℕ
  unfolding trim_key_prefix
  owner_key lib support =
      let raw = w.getenv "EXTENSION_OWNER_KEY" in
      if raw == "" then ok support.prv else lib.hex_to_ecdsa (trim_key_prefix raw)

  -- `main` of allow-tee-version, with the error of `FatalWithCause`.
  unfoldable pub allow_tee_version :
      Library
      → Crypto
      → (String → Result SignedTeeInfo)
      → String
      → String
      → String
      → String
      → Call C (Unit {0})
  unfolding allow_version owner_key
  allow_tee_version lib crypto decode addresses_file node_url proxy_url version c =
      elim (default_support lib w addresses_file node_url) [
        | err e ↦ (c, err e)
        | ok support ↦ elim (tee_info decode w proxy_url) [
          | err e ↦ (c, err e)
          | ok info ↦ elim (owner_key lib support) [
            | err e ↦ (c, err e)
            | ok key ↦ elim (tee_proxy_id crypto info) [
              | err e ↦ (c, err e)
              | ok ids ↦ allow_version key info version c
            ]
          ]
        ]
      ]
