-- ===== src/Registration.antt =====
-- `fcc-extension/tools/pkg/fccutils/registration.go`: the registration of a TEE machine, in steps that a state file
-- records.
pub mod Calls
pub mod Flow
pub mod File
pub mod Resume
pub mod Continue
pub mod Done
pub mod Attestation
pub mod Tool
use Prim.Native.Char.{code}
use Prim.Native.String.{[] as nil, ◌∷◌ as ◌▸◌}
use aurelith.Base.{
  ℕ, String, Bool, false, ◌||◌, Option, List, [], ◌∷◌, Error, Result, ok, err, ◌==◌, nat_eq, none,
  some, length, ltb, zero, suc, if◌then◌else◌,
}
use aurelith.Base.Text.{◌<>◌}
use aurelith.World.{Address, Hash, Reply, FileState, missing, unreadable, contents}
use aurelith.Revert.{CallError, CustomError}
use aurelith.Chain.{Node, Sent}
use aurelith.TeeCalls.Identity.{MachineData}

-- `registrationState`; the JSON names of the fields are those of the Go struct.
pub record RegistrationState : Type 0 where
  pub completed_steps : String
  pub tee_attest_instruction_id : Hash
  pub instruction_id : Hash

abbrev pub no_steps : RegistrationState
no_steps = record { completed_steps = ""; tee_attest_instruction_id = 0; instruction_id = 0 }

-- `strings.Contains` for a text of one letter.
unfoldable pub mentions : ℕ → String → Bool
mentions letter nil = false
mentions letter (c ▸ s) = code c == letter || mentions letter s

-- `machinemanager.Signature`
pub record Signature : Type 0 where
  pub v : ℕ
  pub r : List ℕ
  pub s : List ℕ

-- What is read of `fdc.ProveResponse`.
pub record ProveResponse : Type 0 where
  pub response_header : List ℕ
  pub request_body : List ℕ
  pub response_body : List ℕ
  pub data_provider_signatures : List (List ℕ)

-- The decoded request; `rest` is what the code only passes on.
pub record AvailabilityRequest : Type 0 where
  pub tee_id : Address
  pub rest : List ℕ

pub record AvailabilityResponse : Type 0 where
  pub status : ℕ
  pub tee_timestamp : ℕ
  pub code_hash : Hash
  pub platform : Hash
  pub initial_signing_policy_id : ℕ
  pub last_signing_policy_id : ℕ
  pub state : List ℕ

-- `machinemanager.ITeeAvailabilityCheckProof`
pub record Proof : Type 0 where
  pub signatures : List (List ℕ)
  pub header : List ℕ
  pub request : AvailabilityRequest
  pub response : AvailabilityResponse

-- The calls of go-ethereum, of the contract bindings, of tee-node and of `os`, on the states `C`
-- of the chain and the disk. A transaction is its hash, and a log of a receipt is a number.
pub record Machines (C : Type 0) : Type 0 where
  pub node : Node C
  -- the error of `bind.NewKeyedTransactorWithChainID`
  pub transactor : Error
  -- the address of the signing key, and that of the FlareTeeManager
  pub own_address : Address
  pub flare_tee_manager : Address
  -- `common.HexToHash`
  pub hex_to_hash : String → Hash
  -- `os.ReadFile`, `os.WriteFile` and `os.Remove`
  pub read_file : String → C → FileState
  pub write_file : String → String → C → C × Error
  pub remove_file : String → C → C × Error
  -- `json.Unmarshal` and `json.MarshalIndent` of a state
  pub parse_state : String → Result RegistrationState
  pub show_state : RegistrationState → Result String
  -- `GetTeeMachine`, of which the `TeeId` is used
  pub get_tee_machine : Address → C → Result Address
  pub transform_signature : List ℕ → Result (List ℕ)
  -- `Register`, with the value of the transaction
  pub register : ℕ → MachineData → Signature → Address → String → Address → C → C × Sent
  -- `MachineManagerMetaData.GetAbi` and `Pack("register", ...)`, with `none` for an error
  pub machine_errors : Option (List CustomError)
  pub pack_register : MachineData → Signature → Address → String → Address → Option (List ℕ)
  pub parse_attestation_requested : ℕ → Result Hash
  pub parse_instructions_sent : ℕ → Result Hash
  -- `RequestTeeAttestation`, with the value of the transaction
  pub send_attestation_request : ℕ → Address → Address → C → C × Result Hash
  -- `RequestAvailabilityCheckAttestation`
  pub send_availability_request :
      ℕ → Address → Hash → Address → Address → Address → C → C × Result Hash
  -- `GetCurrentRewardEpochId`, and the last signing policy id that `TeeInfo` finds at a URL
  pub current_epoch : C → Result (Option ℕ)
  pub proxy_policy_id : String → C → Result ℕ
  -- the answers to the attempts to get a URL
  pub http_attempt : String → C → ℕ → Reply
  -- the JSON of an action's response, of which `Result.Data` is used
  pub decode_action_response : String → Result (List ℕ)
  pub decode_prove_response : List ℕ → Result ProveResponse
  pub decode_header : List ℕ → Result (List ℕ)
  pub decode_request : List ℕ → Result AvailabilityRequest
  pub decode_response : List ℕ → Result AvailabilityResponse
  -- `ToProduction`
  pub send_to_production : Proof → C → C × Result Hash

module _ {C : Type 0} (k : Machines C) where
  -- `loadState`
  unfoldable pub load_state : String → C → Result RegistrationState
  load_state path c = elim (k.read_file path c) [
    | missing ↦ ok no_steps
    | unreadable ↦ err "failed to read state file: cannot be read"
    | contents data_ ↦ elim (k.parse_state data_) [
      | err e ↦ err ("failed to parse state file: " <> e)
      | ok state ↦ ok state
    ]
  ]

  -- `saveState`
  unfoldable pub save_state : String → RegistrationState → C → C × Error
  save_state path state c = elim (k.show_state state) [
    | err e ↦ (c, some ("failed to marshal state: " <> e))
    | ok data_ ↦
        let (c₁, error) = k.write_file path data_ c in
        elim error [ none ↦ (c₁, none) | some e ↦ (c₁, some ("failed to write state file: " <> e)) ]
  ]
