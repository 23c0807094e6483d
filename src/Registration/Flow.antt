-- ===== src/Registration/Flow.antt =====
-- `RegisterNode` of `registration.go`: the steps of a command, each skipped if the state file has it.
-- The pauses between the steps have no effect here.
use aurelith.Base.{String, ok, err, ◌==◌, nat_eq, none, some, if◌then◌else◌}
use aurelith.Base.Text.{◌<>◌}
use aurelith.World.{Address, Hash}
use aurelith.Policy.{check_ftdc_proxy_policy_consistency}
use aurelith.TeeCalls.Identity.{SignedTeeInfo, Crypto, tee_proxy_id}
use aurelith.Chain.{Call, and_then}
use aurelith.Registration.{Machines, RegistrationState, mentions, load_state, save_state}
use aurelith.Registration.Calls.{
  pre_registration, request_tee_attestation, request_ftdc_availability_check,
  get_ftdc_availability_check_result, to_production,
}

-- The arguments of `RegisterNode` that do not change on the way.
pub record Registering : Type 0 where
  pub info : SignedTeeInfo
  pub host_url : String
  pub ftdc_tee_url : String
  pub ftdc_tee : Address
  pub command : String
  pub instruction_id_string : String
  pub state_file_path : String

-- The state of the registration, and the id that the latest step has given.
abbrev pub Progress : Type 0
Progress = RegistrationState × Hash

module _ {C : Type 0} (k : Machines C) (a : Registering) where
  -- A failure to save is only warned about.
  abbrev pub saved : RegistrationState → C → C
  saved state c = (save_state k a.state_file_path state c).0

  -- A step has given the id of an attestation, which the state keeps with the step's letter.
  abbrev pub note_attestation : String → RegistrationState → Hash → Call C Progress
  note_attestation letter state id c =
      let next = record state {
        completed_steps = state.completed_steps <> letter;
        tee_attest_instruction_id = id;
      } in
      (saved next c, ok (next, id))

  -- The availability check has been requested, and the state keeps its instruction.
  abbrev pub note_availability : RegistrationState → Hash → Call C Hash
  note_availability state instruction c =
      let next = record state {
        completed_steps = state.completed_steps <> "a";
        instruction_id = instruction;
      } in
      (saved next c, ok instruction)

  module _ (tee proxy : Address) where
    -- A fresh attestation if the machine is known, or else its pre-registration.
    unfoldable pub first_attestation : Call C Hash
    first_attestation c =
        let register =
          and_then (pre_registration k a.host_url proxy a.info c) λ pair c₁. (c₁, ok pair.1) in
        elim (k.get_tee_machine tee c) [
          | err e ↦ register
          | ok found ↦ if found == 0 then register else request_tee_attestation k tee c
        ]

    -- Step r
    unfoldable pub step_register : RegistrationState → Call C Progress
    unfolding first_attestation
    step_register state c =
        if mentions b'r' a.command
        then (if mentions b'r' state.completed_steps
            then (c, ok (state, state.tee_attest_instruction_id))
            else and_then (first_attestation c) (note_attestation "r" state))
        else (c, ok (state, 0))

    -- Step R
    unfoldable pub step_attest : Progress → Call C Progress
    step_attest (state, id) c =
        if mentions b'R' a.command
        then (if mentions b'R' state.completed_steps
            then (c, ok (state, state.tee_attest_instruction_id))
            else and_then (request_tee_attestation k tee c) (note_attestation "R" state))
        else (c, ok (state, id))

    -- The state file, and steps r and R.
    unfoldable pub attest_steps : Call C Progress
    unfolding step_register step_attest
    attest_steps c = elim (load_state k a.state_file_path c) [
      | err e ↦ (c, err e)
      | ok state ↦ and_then (step_register state c) step_attest
    ]

    -- Step a, after the check of the signing policy.
    unfoldable pub request_availability : Progress → Call C Hash
    request_availability (state, id) c =
        elim (check_ftdc_proxy_policy_consistency (k.current_epoch c)
          (k.proxy_policy_id a.ftdc_tee_url c)) [
            | some e ↦ (c, err e)
            | none ↦
                and_then (request_ftdc_availability_check k tee a.ftdc_tee id c)
                  (note_availability state)
          ]

    unfoldable pub step_availability : Progress → Call C Hash
    unfolding request_availability
    step_availability (state, id) c =
        if mentions b'a' a.command
        then (if mentions b'a' state.completed_steps
            then (c, ok state.instruction_id)
            else request_availability (state, id) c)
        else (c, ok (k.hex_to_hash a.instruction_id_string))

    -- Step p
    unfoldable pub step_promote : Hash → Call C (Unit {0})
    step_promote instruction c =
        if mentions b'p' a.command
        then (elim (get_ftdc_availability_check_result k a.ftdc_tee_url instruction c) [
          | err e ↦ (c, err e)
          | ok proof ↦ to_production k proof c
        ])
        else (c, ok tt)

    -- The end of a registration: the state file goes.
    abbrev pub forget_state : C → C
    forget_state c = (k.remove_file a.state_file_path c).0

    unfoldable pub register_steps : Call C (Unit {0})
    unfolding attest_steps step_availability step_promote
    register_steps c = and_then (attest_steps c) λ progress c₁.
        and_then (step_availability progress c₁)
          λ instruction c₂. and_then (step_promote instruction c₂) λ _ c₃. (forget_state c₃, ok tt)

  -- `RegisterNode`
  unfoldable pub register_node : Crypto → Call C (Unit {0})
  unfolding register_steps
  register_node lib c = elim (tee_proxy_id lib a.info) [
    | err e ↦ (c, err e)
    | ok ids ↦ register_steps ids.0 ids.1 c
  ]
