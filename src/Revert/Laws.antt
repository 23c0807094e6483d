-- ===== src/Revert/Laws.antt =====
-- A custom error that a node returns as bytes is found by its selector.
use aurelith.Base.{ℕ, ◌≤◌, ◌≡◌, ap, ◌∙◌, String, Option, none, some, List, arith, All, length}
use aurelith.Base.Text.{◌<>◌, decode_hex, encode_hex, trim_0x}
use aurelith.Revert.{
  CustomError, returned, match_payload, match_custom_error, decode_revert_hex,
  simulate_and_decode_revert,
}
use aurelith.Revert.Hex.{IsByte, decode_hex-encode_hex, trim_0x-encode_hex, trim_0x_prefix}

match_custom_error-decoded :
    (errors : List CustomError) (text : String) (payload : List ℕ)
    → decode_hex (trim_0x text) ≡ some payload
    → 4 ≤ length payload
    → match_custom_error errors text ≡ match_payload errors payload
unfolding match_custom_error
match_custom_error-decoded errors text payload read long = ground arith

decode_revert_hex-undecoded :
    (unpack_revert : List ℕ → Option String) (text : String) (payload : List ℕ)
    → decode_hex (trim_0x text) ≡ some payload
    → 4 ≤ length payload
    → unpack_revert payload ≡ none
    → decode_revert_hex unpack_revert text ≡ "0x" <> trim_0x text
unfolding decode_revert_hex
decode_revert_hex-undecoded unpack_revert text payload read long unknown = ground arith

simulate_returned :
    (unpack_revert : List ℕ → Option String) (payload : List ℕ)
    → 4 ≤ length payload
    → simulate_and_decode_revert unpack_revert (returned payload)
      ≡ decode_revert_hex unpack_revert (encode_hex payload)
unfolding simulate_and_decode_revert
simulate_returned unpack_revert payload long = ground arith

-- If a node returns the bytes of a revert, at least four, and `abi.UnpackRevert` cannot read
-- them, then `MatchCustomError` on the text that `SimulateAndDecodeRevert` makes of them gives
-- what the search by selector gives on the bytes themselves: the text loses nothing.
pub match_custom_error-simulate_and_decode_revert :
    (unpack_revert : List ℕ → Option String) (errors : List CustomError) (payload : List ℕ)
    → All IsByte payload
    → 4 ≤ length payload
    → unpack_revert payload ≡ none
    → match_custom_error errors (simulate_and_decode_revert unpack_revert (returned payload))
      ≡ match_payload errors payload
match_custom_error-simulate_and_decode_revert unpack_revert errors payload small long unknown =
    let text = encode_hex payload in
    let trimmed : trim_0x text ≡ text = trim_0x-encode_hex payload small in
    let decoded : decode_hex text ≡ some payload = decode_hex-encode_hex payload small in
    let undecoded : decode_revert_hex unpack_revert text ≡ "0x" <> text =
      decode_revert_hex-undecoded unpack_revert text payload (ap decode_hex trimmed ∙ decoded) long
        unknown
      ∙ ap (λ t. "0x" <> t) trimmed in
    ap (match_custom_error errors) (simulate_returned unpack_revert payload long ∙ undecoded)
    ∙ match_custom_error-decoded errors ("0x" <> text) payload
        (ap decode_hex (trim_0x_prefix text) ∙ decoded) long
