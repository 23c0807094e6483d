-- ===== src/Registration/Calls.antt =====
-- The contract calls of `registration.go`: pre-registration, the two attestations, promotion, and
-- `AddTeeVersion`.
use aurelith.Base.{
  ℕ, zero, suc, String, Option, none, some, List, [], ◌∷◌, Result, ok, err, ◌==◌, nat_eq, string_eq,
  ltb, length, if◌then◌else◌,
}
use aurelith.Base.Text.{◌<>◌}
use aurelith.World.{Address, Hash}
use aurelith.Revert.{
  CallError, CustomError, match_custom_error, decode_revert_reason, simulate_and_decode_revert,
}
use aurelith.TeeCalls.{action_result}
use aurelith.TeeCalls.Identity.{MachineData, SignedTeeInfo}
use aurelith.Chain.{Call, in_context, and_then, sent, not_sent, check_tx}
use aurelith.Registration.{Machines, Signature, ProveResponse, Proof}

-- `opts.Value`
abbrev pub fee : ℕ
fee = 1000000000

-- The bytes of a slice from a place on, and the first of them.
abbrev pub drop : ℕ → List ℕ → List ℕ
drop zero bytes = bytes
drop (suc n) [] = []
drop (suc n) (b ∷ bytes) = drop n bytes

abbrev pub take : ℕ → List ℕ → List ℕ
take zero bytes = []
take (suc n) [] = []
take (suc n) (b ∷ bytes) = b ∷ take n bytes

-- The parts of `sigVRS`; a slice out of range, which is a panic, is `none`.
unfoldable pub signature_of : List ℕ → Option Signature
signature_of [] = none
signature_of (v ∷ rest) =
    if ltb (length rest) 64
    then none
    else some (record { v = v; r = take 32 rest; s = take 32 (drop 32 rest) })

module _ {C : Type 0} (k : Machines C) where
  -- A call of a contract, after the transactor has been made.
  unfoldable pub with_transactor : {A : Type 0} → Call C A → Call C A
  with_transactor call c = elim k.transactor [ some e ↦ (c, err e) | none ↦ call c ]

  -- The replayed call, named by the custom errors, or else `reason`.
  replayed_reason :
      MachineData → Signature → Address → String → String → List CustomError → C → String
  replayed_reason machine signature proxy host reason errors c =
      elim (k.pack_register machine signature proxy host k.own_address) [
        | none ↦ reason
        | some call_data ↦
            let raw = simulate_and_decode_revert k.node.unpack_revert (
              k.node.call_contract
                (record {
                  from = k.own_address;
                  to = some k.flare_tee_manager;
                  gas = 0;
                  gas_price = 0;
                  value = fee;
                  data_ = call_data;
                })
                c) in
            let named = match_custom_error errors raw in
            if named == "" then (if reason == "" then raw else reason) else named
      ]

  -- The reason of a refused `Register`.
  unfoldable pub register_reason :
      MachineData → Signature → Address → String → CallError → C → String
  unfolding replayed_reason
  register_reason machine signature proxy host e c =
      let reason = decode_revert_reason k.node.unpack_revert e in
      let named : String = elim k.machine_errors [
        | none ↦ reason
        | some errors ↦ replayed_reason machine signature proxy host reason errors c
      ] in
      if named == "" then e.message else named

  -- The logs of a receipt as the challenge and the id of the instruction.
  read_registration : List ℕ → Call C (Hash × Hash)
  read_registration (first ∷ second ∷ logs) c = elim (k.parse_attestation_requested second) [
    | err e ↦ (c, err ("failed to parse TeeAttestationRequested event: " <> e))
    | ok challenge ↦ elim (k.parse_instructions_sent first) [
      | err e ↦ (c, err ("failed to parse TeeInstructionsSent event: " <> e))
      | ok id ↦ (c, ok (challenge, id))
    ]
  ]
  read_registration logs c = (c, err "unexpected logs, this should not happen")

  send_register : MachineData → Signature → Address → String → Call C Hash
  unfolding register_reason
  send_register machine signature proxy host c =
      let (c₁, answer) = k.register fee machine signature proxy host k.own_address c in
      elim answer [
        | sent tx ↦ (c₁, ok tx)
        | not_sent e ↦
            let reason = register_reason machine signature proxy host e c₁ in
            (c₁, err ("register() reverted: " <> reason))
      ]

  register_signed : MachineData → Signature → Address → String → Call C (Hash × Hash)
  unfolding send_register read_registration
  register_signed machine signature proxy host c =
      and_then (send_register machine signature proxy host c)
        λ tx c₁. and_then (check_tx k.node tx c₁) λ receipt. read_registration receipt.logs

  -- `PreRegistration`
  unfoldable pub pre_registration : String → Address → SignedTeeInfo → Call C (Hash × Hash)
  unfolding with_transactor register_signed signature_of
  pre_registration host proxy info = with_transactor λ c.
      if length info.data_signature == 65
      then (elim (k.transform_signature info.data_signature) [
        | err e ↦ (c, err e)
        | ok vrs ↦ elim (signature_of vrs) [
          | none ↦ (c, err "runtime error: slice bounds out of range")
          | some signature ↦ register_signed info.machine_data signature proxy host c
        ]
      ])
      else (c, err "signature error")

  -- The id in the first log.
  read_instruction : ℕ → Call C Hash
  read_instruction first c = elim (k.parse_instructions_sent first) [
    | err e ↦ (c, err ("failed to parse TeeInstructionsSent event: " <> e))
    | ok id ↦ (c, ok id)
  ]

  attestation_logs : List ℕ → Call C Hash
  unfolding read_instruction
  attestation_logs (first ∷ second ∷ logs) c = read_instruction first c
  attestation_logs logs c = (c, err "unexpected logs, this should not happen")

  -- `RequestTeeAttestation`
  unfoldable pub request_tee_attestation : Address → Call C Hash
  unfolding with_transactor attestation_logs
  request_tee_attestation tee = with_transactor λ c.
      and_then (in_context "error: " (k.send_attestation_request fee tee k.own_address c))
        λ tx c₁. and_then (check_tx k.node tx c₁) λ receipt. attestation_logs receipt.logs

  unfoldable pub availability_logs : List ℕ → Call C Hash
  unfolding read_instruction
  availability_logs [] c = (c, err "no logs found in receipt")
  availability_logs (first ∷ logs) c = read_instruction first c

  -- `RequestFTDCAvailabilityCheck`; its diagnosis of a refusal only logs.
  unfoldable pub request_ftdc_availability_check : Address → Address → Hash → Call C Hash
  unfolding with_transactor availability_logs
  request_ftdc_availability_check tee external attestation = with_transactor λ c.
      and_then
        (k.send_availability_request fee tee attestation external k.own_address k.own_address c)
        λ tx c₁. and_then (check_tx k.node tx c₁) λ receipt. availability_logs receipt.logs

  -- The proof that a response of the provers makes.
  read_proof : ProveResponse → Result Proof
  read_proof prove = elim (k.decode_header prove.response_header) [
    | err e ↦ err e
    | ok header ↦ elim (k.decode_request prove.request_body) [
      | err e ↦ err e
      | ok request ↦ elim (k.decode_response prove.response_body) [
        | err e ↦ err e
        | ok response ↦ ok (record {
          signatures = prove.data_provider_signatures;
          header = header;
          request = request;
          response = response;
        })
      ]
    ]
  ]

  -- `GetFTDCAvailabilityCheckResult`
  unfoldable pub get_ftdc_availability_check_result : String → Hash → C → Result Proof
  unfolding read_proof
  get_ftdc_availability_check_result host id c =
      let url = host <> "/action/result/" <> k.node.hash_hex id in
      elim (action_result k.decode_action_response (k.http_attempt url c)) [
        | err e ↦ err e
        | ok data_ ↦ elim (k.decode_prove_response data_) [
          | err e ↦ err e
          | ok prove ↦ read_proof prove
        ]
      ]

  -- The check of `ToProduction` after its transaction.
  unfoldable pub check_machine : Address → Call C (Unit {0})
  check_machine tee c = elim (k.get_tee_machine tee c) [
    | err e ↦ (c, err e)
    | ok found ↦ (c, if found == tee then ok tt else err "tee machine not set up correctly")
  ]

  -- `ToProduction`
  unfoldable pub to_production : Proof → Call C (Unit {0})
  unfolding with_transactor check_machine
  to_production proof = with_transactor λ c.
      and_then (k.send_to_production proof c)
        λ tx c₁. and_then (check_tx k.node tx c₁) λ receipt. check_machine proof.request.tee_id
