-- ===== src/Diagnosis.antt =====
-- `fcc-extension/tools/pkg/fccutils/diag.go` and `fcc-extension/tools/cmd/audit-deploy/main.go`: what a refused call is said to
-- have been refused for, and the audit of a deployment.
pub mod Laws
use aurelith.Base.{
  ℕ, zero, suc, String, Bool, true, false, Option, none, some, List, [], ◌∷◌, Error, Result, ok,
  err, ◌==◌, nat_eq, string_eq, ltb, length, if◌then◌else◌,
}
use aurelith.Base.Text.{◌<>◌, encode_hex, quote, show_ℕ}
use aurelith.World.{Address, Hash, World, zero_address}
use aurelith.Revert.{CustomError, four, bytes_equal}
use aurelith.Versions.{string_to_bytes32}
use aurelith.Chain.Support.{Addresses}

-- What `rpc.DataError.ErrorData` holds.
pub data ErrorData : Type 0 where
  text_data : String → ErrorData
  byte_data : List ℕ → ErrorData
  other_data : ErrorData

-- The error of a call; it need not be an `rpc.DataError`.
pub record RpcError : Type 0 where
  pub message : String
  pub data_ : Option ErrorData

-- The answer of `CallContract`, of which only the error counts here.
abbrev pub CallOutcome : Type 0
CallOutcome = Option RpcError

-- A contract's ABI by its name: its custom errors, or `none` where `GetAbi` fails.
abbrev pub Source : Type 0
Source = String × Option (List CustomError)

-- What `GetAbi` gives for the contracts whose errors are known.
pub record Abis : Type 0 where
  pub verification : Option (List CustomError)
  pub fdc2_hub : Option (List CustomError)
  pub machine_manager : Option (List CustomError)
  pub extension_manager : Option (List CustomError)

-- The contracts that the diagnosis looks at, and those of the audit.
abbrev pub diag_sources : Abis → List Source
diag_sources abis =
    ("Verification", abis.verification)
    ∷ ("Fdc2Hub", abis.fdc2_hub)
    ∷ ("MachineManager", abis.machine_manager)
    ∷ ("ExtensionManager", abis.extension_manager)
    ∷ []

abbrev pub replay_sources : Abis → List Source
replay_sources abis =
    ("ExtensionManager", abis.extension_manager)
    ∷ ("MachineManager", abis.machine_manager)
    ∷ ("Verification", abis.verification)
    ∷ []

-- What is found out about a refused call.
pub data Diagnosis : Type 0 where
  -- the ABI or the arguments could not be encoded
  unpacked : String → Diagnosis
  -- the call succeeds after all
  succeeded : Diagnosis
  no_data : String → Diagnosis
  too_short : List ℕ → Diagnosis
  -- the text of an `Error(string)`
  told : String → Diagnosis
  -- the contract, the error's name, and its arguments if they can be read
  named : String → String → Option String → Diagnosis
  unknown : List ℕ → List ℕ → Diagnosis

-- The selector of `Error(string)`.
abbrev pub error_string : List ℕ
error_string = 0x08 ∷ 0xc3 ∷ 0x79 ∷ 0xa0 ∷ []

-- `revertData[4:]`
abbrev pub after_four : List ℕ → List ℕ
after_four (a ∷ b ∷ c ∷ d ∷ rest) = rest
after_four bytes = []

-- The inner loop over the errors of one contract; Go chooses their order.
unfoldable pub match_error : String → List CustomError → List ℕ → Option Diagnosis
match_error contract [] payload = none
match_error contract (e ∷ rest) payload =
    let later = match_error contract rest payload in
    if bytes_equal e.selector (four payload)
    then some (named contract e.name (e.arguments (after_four payload)))
    else later

-- The loop over the contracts.
unfoldable pub match_sources : List Source → List ℕ → Diagnosis
unfolding match_error
match_sources [] payload = unknown (four payload) payload
match_sources ((contract, none) ∷ rest) payload = match_sources rest payload
match_sources ((contract, some errors) ∷ rest) payload =
    let later = match_sources rest payload in
    elim (match_error contract errors payload) [ some found ↦ found | none ↦ later ]

-- `common.FromHex` and `abi.UnpackRevert`.
pub record Decoders : Type 0 where
  pub from_hex : String → List ℕ
  pub unpack_revert : List ℕ → Option String

module _ (lib : Decoders) where
  -- `ExtractRevertData`
  unfoldable pub extract_revert_data : CallOutcome → List ℕ
  extract_revert_data none = []
  extract_revert_data (some e) = elim e.data_ [
    | none ↦ []
    | some held ↦ elim held [
      | text_data text ↦ lib.from_hex text
      | byte_data bytes ↦ bytes
      | other_data ↦ []
    ]
  ]

  -- A payload of at least four bytes: the text of an `Error(string)`, or a custom error.
  unfoldable pub name_revert : List Source → List ℕ → Diagnosis
  unfolding match_sources
  name_revert sources payload =
      let custom = match_sources sources payload in
      if bytes_equal (four payload) error_string
      then (elim (lib.unpack_revert payload) [ some reason ↦ told reason | none ↦ custom ])
      else custom

  -- What `diagAvailabilityCheckRevert` logs of the error of the replayed call.
  unfoldable pub diagnose : List Source → CallOutcome → Diagnosis
  unfolding extract_revert_data name_revert
  diagnose sources none = succeeded
  diagnose sources (some e) =
      let payload = extract_revert_data (some e) in
      if length payload == 0
      then no_data e.message
      else if ltb (length payload) 4
      then too_short payload
      else name_revert sources payload

  -- `diagAvailabilityCheckRevert`, where `calldata` is what the ABI makes of the arguments, and
  -- `call` replays it.
  unfoldable pub diag_availability_check_revert :
      Abis → Result (List ℕ) → (List ℕ → CallOutcome) → Diagnosis
  unfolding diagnose
  diag_availability_check_revert abis (err e) call = unpacked e
  diag_availability_check_revert abis (ok calldata) call =
      diagnose (diag_sources abis) (call calldata)

  -- `replayAddTeeVersion` from the replayed call on.
  unfoldable pub diagnose_replay : List Source → CallOutcome → Diagnosis
  unfolding extract_revert_data name_revert
  diagnose_replay sources none = succeeded
  diagnose_replay sources (some e) =
      let payload = extract_revert_data (some e) in
      if ltb (length payload) 4 then no_data e.message else name_revert sources payload

  -- What `replayAddTeeVersion` prints, where `pack` encodes the version's bytes with the rest.
  unfoldable pub replay_add_tee_version :
      World
      → Error
      → Abis
      → (List ℕ → Result (List ℕ))
      → (List ℕ → CallOutcome)
      → String
      → Diagnosis
  unfolding diagnose_replay string_to_bytes32
  replay_add_tee_version w (some e) abis pack call version = unpacked e
  replay_add_tee_version w none abis pack call version =
      elim (string_to_bytes32 w.is_print version) [
        | err e ↦ unpacked e
        | ok bytes ↦ elim (pack bytes) [
          | err e ↦ unpacked e
          | ok calldata ↦ diagnose_replay (replay_sources abis) (call calldata)
        ]
      ]

-- The status of an address in the audit.
unfoldable pub address_status : Address → Result (List ℕ) → String
unfolding show_ℕ
address_status a (err e) = "ERROR " <> e
address_status a (ok code) =
    if a == zero_address
    then "ZERO ADDRESS"
    else if length code == 0
    then "NO CODE"
    else "ok (" <> show_ℕ (length code) <> " bytes)"

-- The addresses of the audit with their statuses.
unfoldable pub audit_addresses :
    Addresses → (Address → Result (List ℕ)) → List (String × Address × String)
unfolding address_status
audit_addresses addr code_at =
    let entry : String → Address → String × Address × String =
      λ name a. (name, a, address_status a (code_at a)) in
    entry "FlareTeeManager" addr.flare_tee_manager
    ∷ entry "FlareSystemsManager" addr.flare_system_manager
    ∷ entry "Fdc2Hub" addr.fdc2_hub
    ∷ []
