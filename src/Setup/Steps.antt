-- ===== src/Setup/Steps.antt =====
-- What the steps of `SetupExtension` have done when they succeed.
use mathlib.Core.Option.{none, some}
use aurelith.Base.{
  ℕ, ◌≡◌, ◌⊎◌, inl, inr, refl, sym, ap, ◌∙◌, String, Bool, true, false, List, [], ◌∷◌, Error,
  Result, ok, err, Option-cases, arith,
}
use aurelith.Base.Text.{◌<>◌}
use aurelith.World.{Address, Hash}
use aurelith.Chain.{Call, in_context, query_context, Receipt, check_tx}
use aurelith.Chain.Steps.{query_context_ok, in_context_ok, and_then_ok}
use aurelith.Setup.{
  Contracts, parsed, read_event, allow_owners, allow_machine_owners, allow_project_owners,
  send_key_types, add_key_types, ensure, ensure_machine_owner, ensure_project_owner,
  ensure_key_type,
}

module _ {C : Type 0} where
  parsed_ok :
      (context : String) (e : Error) (c t : C) (u : Unit {0})
      → parsed context e c ≡ (t, ok u)
      → c ≡ t
  unfolding parsed
  parsed_ok context none c t u h = ap (λ q. q.0) h
  parsed_ok context (some e) c t u h = absurd (ground (arith, ap (λ q. q.1) h))

  read_event_ok :
      (what event : String) (parse : ℕ → Error) (logs : List ℕ) (c t : C) (u : Unit {0})
      → read_event what event parse logs c ≡ (t, ok u)
      → c ≡ t
  unfolding read_event
  read_event_ok what event parse [] c t u h = absurd (ground (arith, ap (λ q. q.1) h))
  read_event_ok what event parse (first ∷ rest) c t u h =
      parsed_ok ("failed to parse " <> event <> " event: ") (parse first) c t u h

module _ {C : Type 0} (k : Contracts C) where
  -- A transaction has been sent and its receipt has come.
  abbrev pub Confirmed : Call C Hash → C → C → Type 0
  Confirmed call c t =
      (c₁ : C) × (tx : Hash) × (receipt : Receipt) × (call c ≡ (c₁, ok tx))
      × (check_tx k.node tx c₁ ≡ (t, ok receipt))

  allow_owners-Confirmed :
      (what event : String) (add : Call C Hash) (parse : ℕ → Error) (c t : C) (u : Unit {0})
      → allow_owners k what event add parse c ≡ (t, ok u)
      → Confirmed add c t
  unfolding allow_owners
  allow_owners-Confirmed what event add parse c t u h =
      let failed = in_context (what <> " failed: ") (add c) in
      let (c₁, tx, sent, rest) = and_then_ok failed _ t u h in
      let mined = in_context (what <> " transaction failed: ") (check_tx k.node tx c₁) in
      let (c₂, receipt, reached, last) = and_then_ok mined _ t u rest in
      let same = read_event_ok what event parse receipt.logs c₂ t u last in
      (
        c₁,
        tx,
        receipt,
        in_context_ok (what <> " failed: ") (add c) c₁ tx sent,
        in_context_ok (what <> " transaction failed: ") (check_tx k.node tx c₁) c₂ receipt reached
            ∙ ap (λ z. (z, ok receipt)) same,
      )

  allow_machine_owners-Confirmed :
      (id : ℕ) (owners : List Address) (c t : C) (u : Unit {0})
      → allow_machine_owners k id owners c ≡ (t, ok u)
      → Confirmed (k.add_machine_owners id owners) c t
  unfolding allow_machine_owners
  allow_machine_owners-Confirmed id owners c t u h =
      allow_owners-Confirmed "AddAllowedTeeMachineOwners" "AllowedTeeMachineOwnersAdded"
        (k.add_machine_owners id owners) k.parse_machine_owners_added c t u h

  allow_project_owners-Confirmed :
      (id : ℕ) (owners : List Address) (c t : C) (u : Unit {0})
      → allow_project_owners k id owners c ≡ (t, ok u)
      → Confirmed (k.add_project_owners id owners) c t
  unfolding allow_project_owners
  allow_project_owners-Confirmed id owners c t u h =
      allow_owners-Confirmed "AddAllowedTeeWalletProjectOwners" "AllowedTeeWalletProjectOwnersAdded"
        (k.add_project_owners id owners) k.parse_project_owners_added c t u h

  send_key_types-Confirmed :
      (id : ℕ) (types : List Hash) (c t : C) (u : Unit {0})
      → send_key_types k id types c ≡ (t, ok u)
      → Confirmed (k.add_supported_key_types id types) c t
  unfolding send_key_types
  send_key_types-Confirmed id types c t u h =
      let (c₁, tx, sent, rest) = and_then_ok (k.add_supported_key_types id types c) _ t u h in
      let (c₂, receipt, reached, last) = and_then_ok (check_tx k.node tx c₁) _ t u rest in
      (c₁, tx, receipt, sent, reached ∙ ap (λ q. (q.0, ok receipt)) last)

  add_key_types-Confirmed :
      (id : ℕ) (types : List Hash) (c t : C) (u : Unit {0})
      → add_key_types k id types c ≡ (t, ok u)
      → Confirmed (k.add_supported_key_types id types) c t
  unfolding add_key_types
  add_key_types-Confirmed id types c t u h = elim (Option-cases k.transactor) [
    | inr (e, refused) ↦ absurd (ground (arith, ap (λ q. q.1) h))
    | inl ready ↦ send_key_types-Confirmed id types c t u (ground arith)
  ]

  ensure_ok :
      (answer : Result Bool) (call : Call C (Unit {0})) (c t : C) (u : Unit {0})
      → ensure k answer call c ≡ (t, ok u)
      → ((answer ≡ ok true) × (c ≡ t)) ⊎ (call c ≡ (t, ok u))
  unfolding ensure
  ensure_ok (err e) call c t u h = absurd (ground (arith, ap (λ q. q.1) h))
  ensure_ok (ok true) call c t u h = inl (refl, ap (λ q. q.0) h)
  ensure_ok (ok false) call c t u h = inr h

  -- A step that a query skips has found its fact; another one has sent its transaction.
  abbrev pub Ensured : (C → Result Bool) → Call C Hash → C → C → Type 0
  Ensured query call c t = ((query t ≡ ok true) × (c ≡ t)) ⊎ Confirmed call c t

  module _ (deployer : Address) (evm_type : Hash) where
    pub ensure_machine_owner-Ensured :
        (id : ℕ) (c t : C) (u : Unit {0})
        → ensure_machine_owner k deployer evm_type id c ≡ (t, ok u)
        → Ensured
            (k.is_allowed_machine_owner id deployer)
            (k.add_machine_owners id (deployer ∷ []))
            c
            t
    unfolding ensure_machine_owner
    ensure_machine_owner-Ensured id c t u h =
        let query = k.is_allowed_machine_owner id deployer in
        elim (ensure_ok (query_context _ (query c)) _ c t u h) [
          | inl (yes_told, same) ↦
              inl (ap query (sym same) ∙ query_context_ok _ (query c) true yes_told, same)
          | inr sent ↦ inr (
              allow_machine_owners-Confirmed id (deployer ∷ []) c t u
                (in_context_ok _ (allow_machine_owners k id (deployer ∷ []) c) t u sent))
        ]

    pub ensure_project_owner-Ensured :
        (id : ℕ) (c t : C) (u : Unit {0})
        → ensure_project_owner k deployer evm_type id c ≡ (t, ok u)
        → Ensured
            (k.is_allowed_project_owner id deployer)
            (k.add_project_owners id (deployer ∷ []))
            c
            t
    unfolding ensure_project_owner
    ensure_project_owner-Ensured id c t u h =
        let query = k.is_allowed_project_owner id deployer in
        elim (ensure_ok (query_context _ (query c)) _ c t u h) [
          | inl (yes_told, same) ↦
              inl (ap query (sym same) ∙ query_context_ok _ (query c) true yes_told, same)
          | inr sent ↦ inr (
              allow_project_owners-Confirmed id (deployer ∷ []) c t u
                (in_context_ok _ (allow_project_owners k id (deployer ∷ []) c) t u sent))
        ]

    pub ensure_key_type-Ensured :
        (id : ℕ) (c t : C) (u : Unit {0})
        → ensure_key_type k deployer evm_type id c ≡ (t, ok u)
        → Ensured
            (k.is_key_type_supported id evm_type)
            (k.add_supported_key_types id (evm_type ∷ []))
            c
            t
    unfolding ensure_key_type
    ensure_key_type-Ensured id c t u h =
        let query = k.is_key_type_supported id evm_type in
        elim (ensure_ok (query c) _ c t u h) [
          | inl (yes_told, same) ↦ inl (ap query (sym same) ∙ yes_told, same)
          | inr sent ↦ inr (add_key_types-Confirmed id (evm_type ∷ []) c t u sent)
        ]
