-- ===== src/Checks/Register.antt =====
-- Step 2: `RegisterRegistrationChecks`, R1 to R7.
pub mod Frames
pub mod Sound
pub mod Unique
use aurelith.Base.{
  ℕ, zero, suc, ◌+◌, ◌%◌, String, Bool, true, false, not, ◌&&◌, Option, none, some, List, [], ◌∷◌,
  map, Result, ok, err, ◌==◌, string_eq, nat_eq, ltb, length, if◌then◌else◌,
}
use aurelith.Base.Text.{◌<>◌, show_ℕ, quote, join, parse_hex}
use aurelith.World.{World, Client, Registry, Allowlist, Address, Hash}
use aurelith.Report.{Report, CheckResult, Status, pass, warn, fail, skip, add, add_if}
use aurelith.EnvFile.{parse_extension_env, is_address, is_extension_id, drop_two}
use aurelith.Checks.{result, result_with_fix}

-- R1 on the answer of `NextPublicExtensionId`.
check_next_id : Result ℕ → CheckResult
check_next_id (err e) =
    result "register" "R1" "next public extension id" fail
      ("failed to query nextPublicExtensionId: " <> e)
check_next_id (ok counter) =
    if counter == 0
    then result "register" "R1" "next public extension id" warn
        "nextPublicExtensionId is 0 — no public extensions registered yet"
    else result "register" "R1" "next public extension id" pass
        ("nextPublicExtensionId = " <> show_ℕ counter)

-- The variable `counter`: nil after an error.
abbrev pub counter_of : Result ℕ → Option ℕ
counter_of (err e) = none
counter_of (ok counter) = some counter

-- R4 on the answer of `IsKeyTypeSupported`.
check_key_type : Result Bool → CheckResult
check_key_type (err e) =
    result "register" "R4" "EVM key type supported" fail ("failed to query key type support: " <> e)
check_key_type (ok true) =
    result "register" "R4" "EVM key type supported" pass
      "EVM key type is supported for this extension"
check_key_type (ok false) =
    result_with_fix "register" "R4" "EVM key type supported" fail
      "EVM key type is NOT supported for this extension"
      "Run the register step to add EVM key type support"

-- R3 on the answer of `IsAllowedTeeMachineOwner`.
check_owner_allowed : Result Bool → CheckResult
check_owner_allowed (err e) =
    result "register" "R3" "deployer is allowed TEE machine owner" fail
      ("failed to query allowlist: " <> e)
check_owner_allowed (ok true) =
    result "register" "R3" "deployer is allowed TEE machine owner" pass
      "deployer is on the TEE machine owner allowlist"
check_owner_allowed (ok false) =
    result_with_fix "register" "R3" "deployer is allowed TEE machine owner" fail
      "deployer is NOT on the TEE machine owner allowlist"
      "Run the register step to add the deployer as a TEE machine owner"

-- The rounds of `for i := int64(0); i < counter.Int64(); i++`: `Int64` keeps the low 64 bits and
-- reads them as a signed number.
abbrev pub rounds : ℕ → ℕ
rounds counter =
    let low = counter % 18446744073709551616 in if ltb low 9223372036854775808 then low else 0

module _ (sender : ℕ → Result Address) (expected : Address) where
  -- The loop of R7 with `n` rounds left, from `i`; an id that cannot be queried is passed over.
  unfoldable pub matching_ids : ℕ → ℕ → List ℕ
  matching_ids zero i = []
  matching_ids (suc n) i =
      let rest = matching_ids n (i + 1) in
      elim (sender i) [ err e ↦ rest | ok a ↦ if a == expected then i ∷ rest else rest ]

  -- R7
  unfoldable pub check_unique_sender : String → ℕ → CheckResult
  unfolding matching_ids
  check_unique_sender instr_sender counter =
      let ids = matching_ids (rounds counter) 0 in
      if ltb 1 (length ids)
      then result "register" "R7" "unique instruction sender" warn (
          "INSTRUCTION_SENDER "
          <> instr_sender
          <> " is used by multiple extensions: "
          <> join ", " (map show_ℕ ids))
      else result "register" "R7" "unique instruction sender" pass
          "instruction sender is unique across registered extensions"

abbrev no_config : CheckResult
no_config = result "register" "R1-R7" "registration checks" skip "no --config path provided"

abbrev no_env_file : CheckResult
no_env_file =
    result "register" "R1-R7" "registration checks" skip
      "config/extension.env not found — run pre-build.sh first"

abbrev malformed_id : World → String → CheckResult
malformed_id w ext_id =
    result_with_fix "register" "R2" "EXTENSION_ID format" fail
      ("malformed EXTENSION_ID: " <> quote w.is_print ext_id)
      "Delete config/extension.env and re-run scripts/pre-build.sh"

-- What stands under `registry != nil && client != nil`.
abbrev when_connected :
    Option Registry → Option Client → (Registry → Report → Report) → Report → Report
when_connected (some registry) (some client) body r = body registry r
when_connected _ _ body r = r

-- `evm_type` is `wallets.EVMType` of the tee-node module.
module _ (w : World) (evm_type : Hash) where
  -- R2 on the answer of `GetTeeExtensionInstructionsSender`.
  check_sender_on_chain : String → Result Address → CheckResult
  check_sender_on_chain instr_sender (err e) =
      result "register" "R2" "instruction sender matches on-chain" fail
        ("failed to query instruction sender: " <> e)
  check_sender_on_chain instr_sender (ok on_chain) =
      if on_chain == w.hex_to_address instr_sender
      then result "register" "R2" "instruction sender matches on-chain" pass
          ("on-chain sender " <> w.address_hex on_chain <> " matches extension.env")
      else result_with_fix "register" "R2" "instruction sender matches on-chain" fail
          ("on-chain sender " <> w.address_hex on_chain <> " != extension.env " <> instr_sender)
          "Re-register the extension or update extension.env"

  add_sender_on_chain : ℕ → String → Registry → Report → Report
  add_sender_on_chain extension_id instr_sender registry r =
      add_if (is_address instr_sender)
        (check_sender_on_chain instr_sender (registry.instructions_sender extension_id)) r

  add_owner_allowed : Option Client → Option ℕ → Option Allowlist → ℕ → Report → Report
  add_owner_allowed (some client) (some key) (some allowlist) extension_id r =
      add
        (check_owner_allowed
          (allowlist.is_allowed_tee_machine_owner extension_id (w.pubkey_to_address key)))
        r
  add_owner_allowed _ _ _ extension_id r = r

  add_key_type : ℕ → Registry → Report → Report
  add_key_type extension_id registry r =
      add (check_key_type (registry.is_key_type_supported extension_id evm_type)) r

  add_unique_sender : Option ℕ → String → Registry → Report → Report
  add_unique_sender none instr_sender registry r = r
  add_unique_sender (some counter) instr_sender registry r =
      add_if (ltb 0 counter && is_address instr_sender)
        (check_unique_sender registry.instructions_sender (w.hex_to_address instr_sender)
          instr_sender counter)
        r

  -- Everything after the format of `EXTENSION_ID` has been accepted.
  add_extension_checks :
      Option Client
      → Option ℕ
      → Option Registry
      → Option Allowlist
      → Option ℕ
      → ℕ
      → String
      → Report
      → Report
  add_extension_checks client key registry allowlist counter extension_id instr_sender r =
      let r₂ = when_connected registry client (add_sender_on_chain extension_id instr_sender) r in
      let r₃ = add_owner_allowed client key allowlist extension_id r₂ in
      let r₄ = when_connected registry client (add_key_type extension_id) r₃ in
      when_connected registry client (add_unique_sender counter instr_sender) r₄

  add_next_id : Option Registry → Option Client → Report → Option ℕ × Report
  add_next_id (some registry) (some client) r =
      let answer = registry.next_public_extension_id in
      (counter_of answer, add (check_next_id answer) r)
  add_next_id _ _ r = (none, r)

  -- Everything after the file has been parsed.
  add_parsed_checks :
      Option Client
      → Option ℕ
      → Option Registry
      → Option Allowlist
      → String
      → String
      → Report
      → Report
  add_parsed_checks client key registry allowlist ext_id instr_sender r =
      let (counter, r₁) = add_next_id registry client r in
      if not (is_extension_id ext_id)
      then add (malformed_id w ext_id) r₁
      else add_extension_checks client key registry allowlist counter (parse_hex (drop_two ext_id))
          instr_sender r₁

  -- `RegisterRegistrationChecks`; `parseExtensionEnv` never fails, so its error branch is dead.
  unfoldable pub register_registration_checks :
      Option Client → Option ℕ → Option Registry → Option Allowlist → String → Report → Report
  unfolding add_parsed_checks add_next_id add_extension_checks add_unique_sender add_key_type
      add_owner_allowed add_sender_on_chain check_sender_on_chain check_owner_allowed check_key_type
      check_next_id
  register_registration_checks client key registry allowlist path r =
      let (ext_id, instr_sender) = parse_extension_env w path in
      if path == ""
      then add no_config r
      else if ext_id == "" && instr_sender == ""
      then add no_env_file r
      else add_parsed_checks client key registry allowlist ext_id instr_sender r
