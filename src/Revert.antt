-- ===== src/Revert.antt =====
-- `fcc-extension/tools/pkg/fccutils/revert.go`: the reasons of reverted calls.
pub mod Hex
pub mod Laws
use aurelith.Base.{
  ℕ, String, Option, none, some, List, [], ◌∷◌, ◌==◌, string_eq, nat_eq, ltb, length, ◌||◌, ◌&&◌,
  Bool, true, false, if◌then◌else◌,
}
use aurelith.Base.Text.{◌<>◌, trim_0x, decode_hex, encode_hex}

-- An error of a call: its text, and the text that it carries as `ErrorData`, if it does.
pub record CallError : Type 0 where
  pub message : String
  pub error_data : Option String

-- The answer of `CallContract`.
pub data CallAnswer : Type 0 where
  returned : List ℕ → CallAnswer
  reverted : CallError → CallAnswer

-- An entry of `parsedABI.Errors`: the name, the first four bytes of the id, and the arguments
-- of a payload as `%v` prints them, where `Unpack` can read them.
pub record CustomError : Type 0 where
  pub name : String
  pub selector : List ℕ
  pub arguments : List ℕ → Option String

-- `data[:4]`
abbrev pub four : List ℕ → List ℕ
four (a ∷ b ∷ c ∷ d ∷ rest) = a ∷ b ∷ c ∷ d ∷ []
four bytes = bytes

-- `bytes.Equal`
abbrev pub bytes_equal : List ℕ → List ℕ → Bool
bytes_equal [] [] = true
bytes_equal (a ∷ as₁) (b ∷ bs) = let rest = bytes_equal as₁ bs in a == b && rest
bytes_equal _ _ = false

-- What is returned for an entry whose selector matches.
named : CustomError → List ℕ → String
named e payload = elim (e.arguments payload) [
  | none ↦ e.name
  | some text ↦ if text == "[]" || text == "<nil>" then e.name else e.name <> text
]

-- The loop of `MatchCustomError`; Go chooses the order of the entries.
unfoldable pub match_payload : List CustomError → List ℕ → String
unfolding named
match_payload [] payload = ""
match_payload (e ∷ rest) payload =
    let later = match_payload rest payload in
    if bytes_equal e.selector (four payload) then named e payload else later

-- `MatchCustomError`
unfoldable pub match_custom_error : List CustomError → String → String
unfolding match_payload
match_custom_error errors revert_hex = elim (decode_hex (trim_0x revert_hex)) [
  | none ↦ ""
  | some payload ↦ if ltb (length payload) 4 then "" else match_payload errors payload
]

-- `unpack_revert` is `abi.UnpackRevert`.
module _ (unpack_revert : List ℕ → Option String) where
  -- `decodeRevertHex`
  unfoldable pub decode_revert_hex : String → String
  decode_revert_hex hex_str = elim (decode_hex (trim_0x hex_str)) [
    | none ↦ ""
    | some decoded ↦
        if ltb (length decoded) 4
        then ""
        else elim (unpack_revert decoded) [ some reason ↦ reason | none ↦ "0x" <> trim_0x hex_str ]
  ]

  -- `DecodeRevertReason` on an error that is not nil.
  unfoldable pub decode_revert_reason : CallError → String
  unfolding decode_revert_hex
  decode_revert_reason e = elim e.error_data [
    | none ↦ ""
    | some hex_str ↦ decode_revert_hex hex_str
  ]

  -- `SimulateAndDecodeRevert` on the answer of the replayed call.
  unfoldable pub simulate_and_decode_revert : CallAnswer → String
  unfolding decode_revert_reason decode_revert_hex
  simulate_and_decode_revert (reverted e) =
      let reason = decode_revert_reason e in if reason == "" then e.message else reason
  simulate_and_decode_revert (returned result) =
      if ltb (length result) 4 then "" else decode_revert_hex (encode_hex result)
