-- ===== src/Instructions.antt =====
-- `fcc-extension/tools/pkg/utils/instructions.go`: the deployment of the instruction sender, and the instructions
-- that are sent through it.
pub mod Laws
use aurelith.Base.{
  ℕ, String, Option, none, some, List, [], ◌∷◌, Error, Result, ok, err, ◌==◌, nat_eq, string_eq,
  if◌then◌else◌,
}
use aurelith.Base.Text.{◌<>◌, show_ℕ}
use aurelith.World.{Address, Hash}
use aurelith.Revert.{CallError, decode_revert_reason, simulate_and_decode_revert}
use aurelith.Chain.{Call, in_context, query_context, and_then, Receipt, Node, Sent, sent, not_sent}

-- The fee of an instruction, in wei.
abbrev pub instruction_fee : ℕ
instruction_fee = 1000000

-- The calls of go-ethereum and of the contract bindings, on the states `C` of a chain.
pub record Senders (C : Type 0) : Type 0 where
  pub node : Node C
  -- the error of `bind.NewKeyedTransactorWithChainID`
  pub transactor : Error
  pub own_address : Address
  pub flare_tee_manager : Address
  -- `DeployHelloWorldInstructionSender`: the address and the transaction
  pub deploy : Address → Address → Call C (Address × Hash)
  -- the error of `NewHelloWorldInstructionSender`
  pub bind_sender : Address → Error
  -- `SetExtensionId`, `SendSayHello` and `SendSayGoodbye`, the last two with a value
  pub set_id : Address → C → C × Sent
  pub hello : ℕ → Address → List ℕ → C → C × Sent
  pub goodbye : ℕ → Address → String → String → Call C Hash
  -- `GetAbi` and `Pack`, with `none` where either fails
  pub pack_set_id : Option (List ℕ)
  pub pack_hello : List ℕ → Option (List ℕ)
  pub parse_instructions_sent : ℕ → Result Hash

module _ {C : Type 0} (k : Senders C) where
  abbrev pub failed_transactor : {A : Type 0} → C → Call C A → C × Result A
  failed_transactor c rest = elim k.transactor [
    | some e ↦ (c, err ("failed to create transactor: " <> e))
    | none ↦ rest c
  ]

  -- The binding of a sender, and the transactor.
  unfoldable pub with_sender : {A : Type 0} → Address → Call C A → Call C A
  with_sender sender rest c = elim (k.bind_sender sender) [
    | some e ↦ (c, err ("failed to bind contract: " <> e))
    | none ↦ failed_transactor c rest
  ]

  -- The reason of the replayed call, if its data can be packed.
  unfoldable pub replay_reason : Option (List ℕ) → Address → ℕ → C → String
  replay_reason none sender value c = ""
  replay_reason (some call_data) sender value c = simulate_and_decode_revert k.node.unpack_revert (
      k.node.call_contract
        (record {
          from = k.own_address;
          to = some sender;
          gas = 0;
          gas_price = 0;
          value = value;
          data_ = call_data;
        })
        c)

  -- A refused call as an error.
  unfoldable pub refusal : String → Option (List ℕ) → Address → ℕ → CallError → C → String
  unfolding replay_reason
  refusal what packed sender value e c =
      let told = decode_revert_reason k.node.unpack_revert e in
      let reason = if told == "" then replay_reason packed sender value c else told in
      if reason == ""
      then what <> ": " <> e.message
      else what <> ": " <> e.message <> " (revert reason: " <> reason <> ")"

  -- The transaction that a node has accepted.
  submitted : String → Option (List ℕ) → Address → ℕ → C × Sent → C × Result Hash
  unfolding refusal
  submitted what packed sender value (c, sent tx) = (c, ok tx)
  submitted what packed sender value (c, not_sent e) =
      (c, err (refusal what packed sender value e c))

  -- A call of a contract that a node may refuse.
  unfoldable pub submit : String → Option (List ℕ) → Address → ℕ → (C → C × Sent) → Call C Hash
  unfolding submitted
  submit what packed sender value call c = submitted what packed sender value (call c)

  -- `bind.WaitMined` without a limit
  unfoldable pub wait : Hash → Call C Receipt
  wait tx c = in_context "failed waiting for transaction: " (k.node.wait_mined tx c)

  -- A receipt must have the status 1.
  unfoldable pub require_status :
      String → String → Option (List ℕ) → Address → ℕ → Receipt → Call C Receipt
  unfolding replay_reason
  require_status plain with_reason packed sender value receipt c =
      let reason = replay_reason packed sender value c in
      if receipt.status == 1
      then (c, ok receipt)
      else if reason == ""
      then (c, err plain)
      else (c, err (with_reason <> " (revert reason: " <> reason <> ")"))

  deployed : Address → Receipt → Call C Address
  deployed address receipt c =
      (c, if receipt.status == 1 then ok address else err "contract deployment failed")

  -- `DeployInstructionSender`
  unfoldable pub deploy_instruction_sender : Call C Address
  unfolding deployed
  deploy_instruction_sender c = failed_transactor c λ c.
      and_then
        (in_context "failed to deploy contract: "
          (k.deploy k.flare_tee_manager k.flare_tee_manager c))
        λ pair c₁.
          and_then
            (in_context
              ("deployment tx not mined within 2 minutes (tx: " <> k.node.hash_hex pair.1 <> "): ")
              (k.node.wait_mined pair.1 c₁))
            (deployed pair.0)

  confirm_id : Address → Hash → Call C (Unit {0})
  unfolding wait require_status
  confirm_id sender tx c = and_then (wait tx c) λ receipt c₁.
      and_then
        (require_status "setExtensionId transaction failed" "setExtensionId transaction failed"
          k.pack_set_id sender 0 receipt c₁)
        λ receipt c₂. (c₂, ok tt)

  -- `SetExtensionId`
  unfoldable pub set_extension_id : Address → Call C (Unit {0})
  unfolding with_sender submit confirm_id
  set_extension_id sender = with_sender sender λ c.
      and_then (submit "failed to call setExtensionId" k.pack_set_id sender 0 (k.set_id sender) c)
        (confirm_id sender)

  -- The id of the instruction in the first log, and the transaction.
  read_sent : Hash → List ℕ → Call C (Hash × Hash)
  read_sent tx [] c = (c, err "no logs found in receipt")
  read_sent tx (first ∷ logs) c = elim (k.parse_instructions_sent first) [
    | err e ↦ (c, err ("failed to parse TeeInstructionsSent event: " <> e))
    | ok id ↦ (c, ok (id, tx))
  ]

  confirm_sent : Option (List ℕ) → Address → Hash → Call C (Hash × Hash)
  unfolding wait require_status read_sent show_ℕ
  confirm_sent packed sender tx c = and_then (wait tx c) λ receipt c₁.
      and_then
        (require_status ("transaction failed with status: " <> show_ℕ receipt.status)
          ("transaction failed with status " <> show_ℕ receipt.status) packed sender instruction_fee
          receipt c₁)
        λ receipt. read_sent receipt.tx_hash receipt.logs

  -- `SendSayHello`
  unfoldable pub send_say_hello : Address → List ℕ → Call C (Hash × Hash)
  unfolding with_sender submit confirm_sent
  send_say_hello sender message = with_sender sender λ c.
      and_then
        (submit "failed to send instruction" (k.pack_hello message) sender instruction_fee
          (k.hello instruction_fee sender message) c)
        (confirm_sent (k.pack_hello message) sender)

  -- `SendSayGoodbye`, which gives no reasons.
  unfoldable pub send_say_goodbye : Address → String → String → Call C (Hash × Hash)
  unfolding with_sender confirm_sent
  send_say_goodbye sender name reason = with_sender sender λ c.
      and_then
        (in_context "failed to send instruction: " (k.goodbye instruction_fee sender name reason c))
        (confirm_sent none sender)
