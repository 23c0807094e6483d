-- ===== src/Tools.antt =====
-- `fcc-extension/tools/cmd/register-extension/main.go` and `fcc-extension/tools/cmd/deploy-contract/main.go`: the commands that
-- deploy the instruction sender and register the extension.
pub mod Hex
pub mod Laws
use aurelith.Base.{
  ℕ, String, Bool, Option, none, some, Error, Result, ok, err, ◌==◌, nat_eq, string_eq,
  if◌then◌else◌,
}
use aurelith.Base.Text.{◌<>◌, show_hex}
use aurelith.World.{Address, Hash, World, Client}
use aurelith.Validate.{min_deploy_balance, address_not_zero, address_has_code, key_has_funds}
use aurelith.Chain.{Call, and_then}
use aurelith.Setup.{Contracts, setup_extension}
use aurelith.Instructions.{Senders, deploy_instruction_sender}

-- `fmt.Sprintf("0x%064x", extensionID)`
unfoldable pub id_text : ℕ → String
unfolding show_hex
id_text id = "0x" <> show_hex 64 id

-- The checks of deploy-contract before the deployment.
unfoldable pub preflight_checks : World → Client → ℕ → Address → Error
unfolding address_not_zero address_has_code key_has_funds
preflight_checks w client key manager = elim (address_not_zero w manager "FlareTeeManager") [
  | some e ↦ some e
  | none ↦ elim (address_has_code w (some client) manager "FlareTeeManager") [
    | some e ↦ some e
    | none ↦ key_has_funds w (some client) key min_deploy_balance
  ]
]

module _ (w : World) {C : Type 0} where
  -- `main` of register-extension after `DefaultSupport`: the text that it prints, or the error
  -- of `FatalWithCause`. The governance hash of the flags is not used by `SetupExtension`.
  unfoldable pub register_extension_tool :
      Contracts C → (C → Client) → Address → Hash → String → Call C String
  unfolding id_text setup_extension address_has_code
  register_extension_tool k client deployer evm_type flag c =
      let sender = w.hex_to_address flag in
      if flag == ""
      then (c, err "--instructionSender flag is required")
      else (elim (address_has_code w (some (client c)) sender "InstructionSender") [
        | some e ↦ (c, err e)
        | none ↦
            and_then (setup_extension k deployer evm_type sender 0 c) λ id c₁. (c₁, ok (id_text id))
      ])

  -- The deployment, and the address in the file of `-o`, if there is one.
  abbrev pub note_address : (String → String → C → C) → String → Address → Call C (Option Address)
  note_address write out address c =
      (if out == "" then c else write out (w.address_hex address) c, ok (some address))

  unfoldable pub deploy_and_write :
      Senders C → (String → String → C → C) → String → Call C (Option Address)
  unfolding deploy_instruction_sender
  deploy_and_write k write out c = and_then (deploy_instruction_sender k c) (note_address write out)

  -- `main` of deploy-contract after `DefaultSupport`: the address that it prints, if it gets so
  -- far, or the error of `FatalWithCause`. `write` keeps the address in the file of `-o`, whose
  -- errors are passed over.
  unfoldable pub deploy_contract_tool :
      Senders C
      → (C → Client)
      → ℕ
      → Bool
      → (String → String → C → C)
      → String
      → Call C (Option Address)
  unfolding preflight_checks deploy_and_write
  deploy_contract_tool k client key preflight_only write out c =
      elim (preflight_checks w (client c) key k.flare_tee_manager) [
        | some e ↦ (c, err e)
        | none ↦ if preflight_only then (c, ok none) else deploy_and_write k write out c
      ]
