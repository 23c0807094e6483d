-- ===== src/Chain.antt =====
-- `CheckTx` of `fcc-extension/tools/pkg/support/support.go`, and what the tools that call contracts share: calls on the
-- states of a chain, and the errors that they pass on.
pub mod Steps
pub mod Laws
pub mod Support
pub mod Addresses
use aurelith.Base.{
  ℕ, String, Bool, true, false, Option, none, some, List, [], ◌∷◌, Error, Result, ok, err, ◌==◌,
  nat_eq, string_eq, if◌then◌else◌,
}
use aurelith.Base.Text.{◌<>◌, decode_hex, encode_hex, trim_0x}
use aurelith.World.{Address, Hash}
use aurelith.Revert.{CallError, CallAnswer, returned, reverted}

-- A call on the states `C` of a chain: the state after it, and its answer.
abbrev pub Call : Type 0 → Type 0 → Type 0
Call C A = C → C × Result A

-- `if err != nil { return errors.Errorf(context + "%s", err) }`
abbrev pub in_context : {C A : Type 0} → String → C × Result A → C × Result A
in_context context (c, ok a) = (c, ok a)
in_context context (c, err e) = (c, err (context <> e))

-- The same on the answer of a query, which leaves the state alone.
abbrev pub query_context : {A : Type 0} → String → Result A → Result A
query_context context (ok a) = ok a
query_context context (err e) = err (context <> e)

-- The rest of a function after a call, which an error skips.
abbrev pub and_then : {C A B : Type 0} → C × Result A → (A → Call C B) → C × Result B
and_then (c, ok a) rest = rest a c
and_then (c, err e) rest = (c, err e)

-- The error of a call whose value is dropped.
abbrev pub outcome : {C A : Type 0} → C × Result A → C × Error
outcome (c, ok a) = (c, none)
outcome (c, err e) = (c, some e)

-- `types.Receipt`; a log is a number.
pub record Receipt : Type 0 where
  pub tx_hash : Hash
  pub status : ℕ
  pub logs : List ℕ

-- What is read of a `types.Transaction`; a nil address is `none`.
pub record Transaction : Type 0 where
  pub tx_to : Option Address
  pub tx_gas : ℕ
  pub tx_gas_price : ℕ
  pub tx_value : ℕ
  pub tx_data : List ℕ

-- `ethereum.CallMsg`
pub record CallMsg : Type 0 where
  pub from : Address
  pub to : Option Address
  pub gas : ℕ
  pub gas_price : ℕ
  pub value : ℕ
  pub data_ : List ℕ

-- The answer of a contract call that sends a transaction.
pub data Sent : Type 0 where
  sent : Hash → Sent
  not_sent : CallError → Sent

-- The calls of go-ethereum. A transaction that has been sent is its hash.
pub record Node (C : Type 0) : Type 0 where
  -- `bind.WaitMined`, which the context ends after two minutes
  pub wait_mined : Hash → Call C Receipt
  -- `Hash.Hex`
  pub hash_hex : Hash → String
  pub transaction_by_hash : Hash → C → Result Transaction
  -- `types.Sender` with the signer of the transaction's chain
  pub sender : Transaction → Result Address
  pub call_contract : CallMsg → C → CallAnswer
  -- `abi.UnpackRevert`
  pub unpack_revert : List ℕ → Option String

-- The call that a transaction was.
abbrev pub replay_msg : Transaction → Address → CallMsg
replay_msg tx from = record {
  from = from;
  to = tx.tx_to;
  gas = tx.tx_gas;
  gas_price = tx.tx_gas_price;
  value = tx.tx_value;
  data_ = tx.tx_data;
}

module _ {C : Type 0} (node : Node C) where
  -- `decodeRevertFromError`
  unfoldable pub decode_revert_from_error : CallError → String
  decode_revert_from_error e = elim e.error_data [
    | none ↦ ""
    | some hex_str ↦ elim (decode_hex (trim_0x hex_str)) [
      | none ↦ ""
      | some decoded ↦ elim (node.unpack_revert decoded) [ none ↦ "" | some reason ↦ reason ]
    ]
  ]

  -- The answer of the replayed call as a message.
  unfoldable pub answer_message : CallAnswer → String
  unfolding decode_revert_from_error
  answer_message (reverted e) =
      let reason = decode_revert_from_error e in if reason == "" then e.message else reason
  answer_message (returned res) = elim (node.unpack_revert res) [
    | some reason ↦ reason
    | none ↦ elim res [ [] ↦ "unknown revert reason" | b ∷ bs ↦ "0x" <> encode_hex (b ∷ bs) ]
  ]

  -- `getFailingMessage`
  unfoldable pub get_failing_message : Hash → C → Result String
  unfolding answer_message
  get_failing_message hash c = elim (node.transaction_by_hash hash c) [
    | err e ↦ err e
    | ok tx ↦ elim (node.sender tx) [
      | err e ↦ err e
      | ok from ↦ ok (answer_message (node.call_contract (replay_msg tx from) c))
    ]
  ]

  fail_with : Hash → C → Result Receipt
  unfolding get_failing_message
  fail_with tx c = elim (get_failing_message tx c) [
    | err e ↦ err e
    | ok reason ↦ err ("error: Transaction fail: " <> reason)
  ]

  -- The answer on a receipt.
  judge : Hash → Receipt → C → Result Receipt
  unfolding fail_with
  judge tx receipt c = if receipt.status == 0 then fail_with tx c else ok receipt

  -- `CheckTx`
  unfoldable pub check_tx : Hash → Call C Receipt
  unfolding judge
  check_tx tx c =
      and_then
        (in_context ("transaction not mined within 2 minutes (tx: " <> node.hash_hex tx <> "): ")
          (node.wait_mined tx c))
        λ receipt c₁. (c₁, judge tx receipt c₁)
