-- ===== src/Instructions/Laws.antt =====
-- What an instruction that has been sent tells.
use mathlib.Core.Path.{subst}
use aurelith.Base.{
  ℕ, ◌≡◌, refl, sym, ap, ◌∙◌, String, Option, none, List, [], ◌∷◌, ok, nat_eq, string_eq,
  Option-cases, Result-cases, inl, inr, arith,
}
use aurelith.Base.Text.{◌<>◌, show_ℕ}
use aurelith.World.{Address, Hash}
use aurelith.Chain.{Call, in_context, and_then, Receipt, Sent, sent, not_sent}
use aurelith.Chain.Steps.{in_context_ok, and_then_ok}
use aurelith.Instructions.{
  Senders, deployed, deploy_instruction_sender, with_sender, submitted, submit, wait,
  require_status, read_sent, confirm_sent, send_say_hello, send_say_goodbye, instruction_fee,
}

module _ {C : Type 0} (k : Senders C) where
  with_sender_ok :
      {A : Type 0} (sender : Address) (rest : Call C A) (c t : C) (a : A)
      → with_sender k sender rest c ≡ (t, ok a)
      → rest c ≡ (t, ok a)
  unfolding with_sender
  with_sender_ok sender rest c t a h = elim (Option-cases (k.bind_sender sender)) [
    | inr (e, unbound) ↦ absurd (ground (arith, ap (λ q. q.1) h))
    | inl bound ↦ elim (Option-cases k.transactor) [
      | inr (e, refused) ↦ absurd (ground (arith, ap (λ q. q.1) h))
      | inl ready ↦ sym (rw (bound, with_sender) (rw ready refl)) ∙ h
    ]
  ]

  submitted_ok :
      (what : String) (packed : Option (List ℕ)) (sender : Address) (value : ℕ) (p : C × Sent)
      (t : C) (tx : Hash)
      → submitted k what packed sender value p ≡ (t, ok tx)
      → p ≡ (t, sent tx)
  unfolding submitted
  submitted_ok what packed sender value (c, sent found) t tx h =
      ap (λ z. (z, sent found)) (ap (λ q. q.0) h)
      ∙ ap (λ z. (t, sent z)) (ground (arith, ap (λ q. q.1) h))
  submitted_ok what packed sender value (c, not_sent e) t tx h =
      absurd (ground (arith, ap (λ q. q.1) h))

  require_status_ok :
      (plain with_reason : String) (packed : Option (List ℕ)) (sender : Address) (value : ℕ)
      (receipt r : Receipt) (c t : C)
      → require_status k plain with_reason packed sender value receipt c ≡ (t, ok r)
      → (receipt.status ≡ 1) × (c ≡ t) × (receipt ≡ r)
  unfolding require_status
  require_status_ok plain with_reason packed sender value receipt r c t h =
      elim (nat_eq.dec receipt.status 1) [
        | yes one ↦ (one, ground (arith, ap (λ q. q.0) h), ground (arith, ap (λ q. q.1) h))
        | no other ↦ absurd (ground (arith, ap (λ q. q.1) h))
      ]

  -- A transaction has been mined with the status 1, its receipt has the hash that is told, and its
  -- first log names the instruction.
  abbrev pub Instructed : Hash → Hash → Hash → C → C → Type 0
  Instructed tx told id c t =
      (receipt : Receipt) × (first : ℕ) × (logs : List ℕ) × (k.node.wait_mined tx c
        ≡ (t, ok receipt))
      × (receipt.status ≡ 1)
      × (receipt.tx_hash ≡ told)
      × (receipt.logs ≡ first ∷ logs)
      × (k.parse_instructions_sent first ≡ ok id)

  read_sent-known :
      (tx : Hash) (first : ℕ) (rest : List ℕ) (c : C) (id : Hash)
      → k.parse_instructions_sent first ≡ ok id
      → read_sent k tx (first ∷ rest) c ≡ (c, ok (id, tx))
  unfolding read_sent
  read_sent-known tx first rest c id known = rw (known, read_sent) refl

  read_sent_ok :
      (tx : Hash) (logs : List ℕ) (c t : C) (id found : Hash)
      → read_sent k tx logs c ≡ (t, ok (id, found))
      → (first : ℕ) × (rest : List ℕ) × (logs ≡ first ∷ rest)
        × (k.parse_instructions_sent first ≡ ok id)
        × (c ≡ t)
        × (tx ≡ found)
  unfolding read_sent
  read_sent_ok tx [] c t id found h = absurd (ground (arith, ap (λ q. q.1) h))
  read_sent_ok tx (first ∷ rest) c t id found h =
      elim (Result-cases (k.parse_instructions_sent first)) [
        | inr (e, failed) ↦ absurd (ground (arith, ap (λ q. q.1) h))
        | inl (i, known) ↦
            let same = sym (read_sent-known tx first rest c i known) ∙ h in
            (
              first,
              rest,
              refl,
              known ∙ ap (λ z. ok z) (ground (arith, ap (λ q. q.1) same)),
              ap (λ q. q.0) same,
              ground (arith, ap (λ q. q.1) same),
            )
      ]

  confirm_sent-Instructed :
      (packed : Option (List ℕ)) (sender : Address) (tx : Hash) (c t : C) (id found : Hash)
      → confirm_sent k packed sender tx c ≡ (t, ok (id, found))
      → Instructed tx found id c t
  unfolding confirm_sent wait
  confirm_sent-Instructed packed sender tx c t id found h =
      let (c₁, receipt, mined, rest) = and_then_ok (wait k tx c) _ t (id, found) h in
      let plain : String = "transaction failed with status: " <> show_ℕ receipt.status in
      let with_reason : String = "transaction failed with status " <> show_ℕ receipt.status in
      let judged = require_status k plain with_reason packed sender instruction_fee receipt c₁ in
      let (c₂, r, passed, last) =
        and_then_ok judged (λ receipt. read_sent k receipt.tx_hash receipt.logs) t (id, found)
          rest in
      let (one, same_chain, same) =
        require_status_ok plain with_reason packed sender instruction_fee receipt r c₁ c₂ passed in
      let (first, logs, present, known, same_end, same_tx) =
        read_sent_ok r.tx_hash r.logs c₂ t id found last in
      (
        receipt,
        first,
        logs,
        in_context_ok "failed waiting for transaction: " (k.node.wait_mined tx c) c₁ receipt mined
            ∙ ap (λ z. (z, ok receipt)) (same_chain ∙ same_end),
        one,
        ap (λ z. z.tx_hash) same ∙ same_tx,
        ap (λ z. z.logs) same ∙ present,
        known,
      )

  pub send_say_hello_sent :
      (sender : Address) (message : List ℕ) (c t : C) (id told : Hash)
      → send_say_hello k sender message c ≡ (t, ok (id, told))
      → (c₁ : C) × (tx : Hash) × (k.hello instruction_fee sender message c ≡ (c₁, sent tx))
        × Instructed tx told id c₁ t
  unfolding send_say_hello submit
  send_say_hello_sent sender message c t id told h =
      let packed = k.pack_hello message in
      let call = k.hello instruction_fee sender message in
      let what : String = "failed to send instruction" in
      let submission : Call C Hash = submit k what packed sender instruction_fee call in
      let send : Call C (Hash × Hash) =
        λ c. and_then (submission c) (confirm_sent k packed sender) in
      let run = with_sender_ok sender send c t (id, told) h in
      let (c₁, tx, accepted, rest) =
        and_then_ok (submission c) (confirm_sent k packed sender) t (id, told) run in
      (
        c₁,
        tx,
        submitted_ok what packed sender instruction_fee (call c) c₁ tx accepted,
        confirm_sent-Instructed packed sender tx c₁ t id told rest,
      )

  -- The receipt that is waited for is that of the transaction.
  abbrev pub NamesReceipts : Type 0
  NamesReceipts =
      (tx : Hash) (c t : C) (r : Receipt) → k.node.wait_mined tx c ≡ (t, ok r) → r.tx_hash ≡ tx

  -- When `SendSayHello` gives the id of an instruction and its transaction, it has sent the
  -- message to the contract with the fee, in that transaction, which was mined with the status 1;
  -- and the id is what the first log of the receipt tells. This holds where a receipt has the hash
  -- of the transaction that was waited for.
  pub send_say_hello_done :
      (sender : Address) (message : List ℕ) (c t : C) (id tx : Hash)
      → NamesReceipts
      → send_say_hello k sender message c ≡ (t, ok (id, tx))
      → (c₁ : C) × (k.hello instruction_fee sender message c ≡ (c₁, sent tx))
        × Instructed tx tx id c₁ t
  send_say_hello_done sender message c t id tx names h =
      let (c₁, found, called, instructed) = send_say_hello_sent sender message c t id tx h in
      let (receipt, first, logs, mined, one, hash, rest, known) = instructed in
      let same : found ≡ tx = sym (names found c₁ t receipt mined) ∙ hash in
      (
        c₁,
        called ∙ ap (λ z. (c₁, sent z)) same,
        subst (λ z. Instructed z tx id c₁ t) same instructed,
      )

  -- `SendSayGoodbye` likewise, with the name and the reason.
  pub send_say_goodbye_sent :
      (sender : Address) (name reason : String) (c t : C) (id told : Hash)
      → send_say_goodbye k sender name reason c ≡ (t, ok (id, told))
      → (c₁ : C) × (tx : Hash) × (k.goodbye instruction_fee sender name reason c ≡ (c₁, ok tx))
        × Instructed tx told id c₁ t
  unfolding send_say_goodbye
  send_say_goodbye_sent sender name reason c t id told h =
      let context : String = "failed to send instruction: " in
      let call : Call C Hash = k.goodbye instruction_fee sender name reason in
      let send : Call C (Hash × Hash) =
        λ c. and_then (in_context context (call c)) (confirm_sent k none sender) in
      let run = with_sender_ok sender send c t (id, told) h in
      let (c₁, tx, accepted, rest) =
        and_then_ok (in_context context (call c)) (confirm_sent k none sender) t (id, told) run in
      (
        c₁,
        tx,
        in_context_ok context (call c) c₁ tx accepted,
        confirm_sent-Instructed none sender tx c₁ t id told rest,
      )

  -- The contract has been deployed: its transaction was mined with the status 1.
  abbrev pub Deployed : Address → C → C → Type 0
  Deployed address c t =
      (c₁ : C) × (tx : Hash) × (receipt : Receipt) × (k.deploy k.flare_tee_manager
          k.flare_tee_manager c
        ≡ (c₁, ok (address, tx)))
      × (k.node.wait_mined tx c₁ ≡ (t, ok receipt))
      × (receipt.status ≡ 1)

  deployed_ok :
      (address found : Address) (receipt : Receipt) (c t : C)
      → deployed k address receipt c ≡ (t, ok found)
      → (receipt.status ≡ 1) × (c ≡ t) × (address ≡ found)
  unfolding deployed
  deployed_ok address found receipt c t h = elim (nat_eq.dec receipt.status 1) [
    | yes one ↦ (one, ap (λ q. q.0) h, ground (arith, one, ap (λ q. q.1) h))
    | no other ↦ absurd (ground (arith, other, ap (λ q. q.1) h))
  ]

  pub deploy_instruction_sender-Deployed :
      (c t : C) (address : Address)
      → deploy_instruction_sender k c ≡ (t, ok address)
      → Deployed address c t
  unfolding deploy_instruction_sender
  deploy_instruction_sender-Deployed c t address h = elim (Option-cases k.transactor) [
    | inr (e, refused) ↦ absurd (ground (arith, ap (λ q. q.1) h))
    | inl ready ↦
        let call = k.deploy k.flare_tee_manager k.flare_tee_manager c in
        let wait_for : Hash → String =
          λ tx. "deployment tx not mined within 2 minutes (tx: " <> k.node.hash_hex tx <> "): " in
        let confirm : Address × Hash → Call C Address = λ pair c₁.
          and_then (in_context (wait_for pair.1) (k.node.wait_mined pair.1 c₁))
            (deployed k pair.0) in
        let same : deploy_instruction_sender k c
            ≡ and_then (in_context "failed to deploy contract: " call) confirm =
          rw (ready, deploy_instruction_sender) refl in
        let (c₁, pair, accepted, rest) =
          and_then_ok (in_context "failed to deploy contract: " call) confirm t address
            (sym same ∙ h) in
        let (c₂, receipt, mined, last) =
          and_then_ok (in_context (wait_for pair.1) (k.node.wait_mined pair.1 c₁))
            (deployed k pair.0) t address rest in
        let (one, same_end, same) = deployed_ok pair.0 address receipt c₂ t last in
        (
          c₁,
          pair.1,
          receipt,
          in_context_ok "failed to deploy contract: " call c₁ pair accepted
              ∙ ap (λ z. (c₁, ok (z, pair.1))) same,
          in_context_ok (wait_for pair.1) (k.node.wait_mined pair.1 c₁) c₂ receipt mined
              ∙ ap (λ z. (z, ok receipt)) same_end,
          one,
        )
  ]
