-- ===== src/Chain/Laws.antt =====
-- When a transaction counts as done, and the reason that a failed one gives.
use aurelith.Base.{
  ℕ, ◌≡◌, ◌≢◌, ◌↔◌, ◌⊎◌, inl, inr, refl, ap, ◌∙◌, String, some, List, ok, err, arith, All, nat_eq,
  Result-cases,
}
use aurelith.Base.Text.{◌<>◌, encode_hex, decode_hex}
use aurelith.World.{Address, Hash}
use aurelith.Revert.{CallAnswer, returned, reverted}
use aurelith.Revert.Hex.{IsByte, decode_hex-encode_hex, trim_0x_prefix}
use aurelith.Chain.{
  in_context, Receipt, Transaction, Node, decode_revert_from_error, answer_message, replay_msg,
  get_failing_message, fail_with, judge, check_tx,
}
use aurelith.Chain.Steps.{in_context_ok, and_then_ok}

module _ {C : Type 0} (node : Node C) where
  fail_with-err : (tx : Hash) (c : C) → (e : String) × (fail_with node tx c ≡ err e)
  unfolding fail_with
  fail_with-err tx c = elim (Result-cases (get_failing_message node tx c)) [
    | inl (reason, found) ↦ ("error: Transaction fail: " <> reason, ground arith)
    | inr (e, failed) ↦ (e, ground arith)
  ]

  judge_ok :
      (tx : Hash) (c : C) (found r : Receipt)
      → judge node tx found c ≡ ok r
      → (found ≡ r) × (found.status ≢ 0)
  unfolding judge
  judge_ok tx c found r h = elim (nat_eq.dec found.status 0) [
    | yes failed_status ↦ let (e, failed) = fail_with-err tx c in absurd (ground (arith, failed))
    | no positive ↦ (ground arith, positive)
  ]

  check_tx_mined :
      (tx : Hash) (c t : C) (r : Receipt)
      → node.wait_mined tx c ≡ (t, ok r)
      → check_tx node tx c ≡ (t, judge node tx r t)
  unfolding check_tx
  check_tx_mined tx c t r mined = rw mined refl

  -- `CheckTx` returns a receipt exactly when the transaction is mined with it and its status is
  -- not 0; then the chain is that of the moment it was mined.
  pub check_tx_ok :
      (tx : Hash) (c t : C) (r : Receipt)
      → (check_tx node tx c ≡ (t, ok r)) ↔ ((node.wait_mined tx c ≡ (t, ok r)) × (r.status ≢ 0))
  unfolding check_tx judge
  check_tx_ok tx c t r = (
    λ h.
        let context = "transaction not mined within 2 minutes (tx: " <> node.hash_hex tx <> "): " in
        let waited = in_context context (node.wait_mined tx c) in
        let (c₁, found, mined, rest) =
          and_then_ok waited (λ receipt c₁. (c₁, judge node tx receipt c₁)) t r h in
        let (same, positive) = judge_ok tx c₁ found r (ap (λ q. q.1) rest) in
        (
          in_context_ok context (node.wait_mined tx c) c₁ found mined
              ∙ ap (λ z. (z, ok found)) (ap (λ q. q.0) rest)
              ∙ ap (λ z. (t, ok z)) same,
          λ h. positive (ap (λ z. z.status) same ∙ h),
        ),
    λ (mined, positive).
        check_tx_mined tx c t r mined ∙ ap (λ z. (t, z)) (ground (arith, positive)),
  )

  answer_message-payload :
      (payload : List ℕ) (reason message : String)
      → All IsByte payload
      → node.unpack_revert payload ≡ some reason
      → reason ≢ ""
      → answer_message node
          (reverted (record { message = message; error_data = some ("0x" <> encode_hex payload) }))
        ≡ reason
  unfolding answer_message decode_revert_from_error
  answer_message-payload payload reason message small unpacked some_text =
      let trimmed = trim_0x_prefix (encode_hex payload) in
      let decoded = ap decode_hex trimmed ∙ decode_hex-encode_hex payload small in
      ground (arith, decoded)

  get_failing_message-answer :
      (tx : Hash) (c : C) (sent : Transaction) (from : Address)
      → node.transaction_by_hash tx c ≡ ok sent
      → node.sender sent ≡ ok from
      → get_failing_message node tx c
        ≡ ok (answer_message node (node.call_contract (replay_msg sent from) c))
  unfolding get_failing_message
  get_failing_message-answer tx c sent from known sender = ground arith

  judge_failed :
      (tx : Hash) (c : C) (r : Receipt) (sent : Transaction) (from : Address)
      → r.status ≡ 0
      → node.transaction_by_hash tx c ≡ ok sent
      → node.sender sent ≡ ok from
      → judge node tx r c
        ≡ err (
            "error: Transaction fail: "
            <> answer_message node (node.call_contract (replay_msg sent from) c))
  unfolding judge fail_with
  judge_failed tx c r sent from failed known sender =
      let found = get_failing_message-answer tx c sent from known sender in ground (arith, found)

  -- The answer of a replayed call that fails with a payload: the node returns the payload, or
  -- attaches it to its error as hexadecimal text.
  abbrev pub Fails : List ℕ → CallAnswer → Type 0
  Fails payload answer =
      (answer ≡ returned payload)
      ⊎ ((message : String) × (answer
            ≡ reverted
                (record { message = message; error_data = some ("0x" <> encode_hex payload) })))

  answer_message_read :
      (payload : List ℕ) (reason : String) (answer : CallAnswer)
      → Fails payload answer
      → All IsByte payload
      → node.unpack_revert payload ≡ some reason
      → reason ≢ ""
      → answer_message node answer ≡ reason
  unfolding answer_message
  answer_message_read payload reason answer (inl back) small unpacked some_text =
      rw back (rw (unpacked, answer_message) refl)
  answer_message_read payload reason answer (inr (message, thrown)) small unpacked some_text =
      ap (answer_message node) thrown
      ∙ answer_message-payload payload reason message small unpacked some_text

  -- A transaction that is mined with status 0, is known to the node and fails again when it is
  -- replayed gives as its reason what `abi.UnpackRevert` reads of the payload, if that is not
  -- empty, whether the node returns the payload or attaches it to its error as hexadecimal text.
  pub check_tx_reason :
      (tx : Hash) (c c₁ : C) (r : Receipt) (sent : Transaction) (from : Address) (payload : List ℕ)
      (reason : String)
      → node.wait_mined tx c ≡ (c₁, ok r)
      → r.status ≡ 0
      → node.transaction_by_hash tx c₁ ≡ ok sent
      → node.sender sent ≡ ok from
      → Fails payload (node.call_contract (replay_msg sent from) c₁)
      → All IsByte payload
      → node.unpack_revert payload ≡ some reason
      → reason ≢ ""
      → check_tx node tx c ≡ (c₁, err ("error: Transaction fail: " <> reason))
  check_tx_reason tx c c₁ r sent from payload reason mined failed known sender fails small unpacked
        some_text =
      let read = answer_message_read payload reason _ fails small unpacked some_text in
      check_tx_mined tx c c₁ r mined
      ∙ ap (λ z. (c₁, z)) (judge_failed tx c₁ r sent from failed known sender)
      ∙ ap (λ z. (c₁, err ("error: Transaction fail: " <> z))) read
