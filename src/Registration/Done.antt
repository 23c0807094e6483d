-- ===== src/Registration/Done.antt =====
-- What a success of `RegisterNode` has done.
use mathlib.Core.Path.{subst}
use aurelith.Base.{
  ◌≡◌, sym, ap, ◌∙◌, String, true, ok, err, ◌==◌, nat_eq, Bool-cases, Result-cases, inl, inr, arith,
}
use aurelith.World.{Address, Hash, missing}
use aurelith.TeeCalls.Identity.{Crypto, tee_proxy_id}
use aurelith.Chain.{Call, and_then, Receipt, check_tx}
use aurelith.Chain.Steps.{and_then_ok}
use aurelith.Registration.{Machines, Proof, mentions}
use aurelith.Registration.Calls.{check_machine, to_production, get_ftdc_availability_check_result}
use aurelith.Registration.Attestation.{with_transactor_ok}
use aurelith.Registration.Flow.{
  Registering, Progress, attest_steps, step_availability, step_promote, forget_state,
  register_steps, register_node,
}

module _ {C : Type 0} (k : Machines C) where
  -- The chain has the machine.
  abbrev pub HasMachine : Address → C → Type 0
  HasMachine tee c = k.get_tee_machine tee c ≡ ok tee

  check_machine_ok :
      (tee : Address) (c t : C) → check_machine k tee c ≡ (t, ok tt) → (c ≡ t) × HasMachine tee c
  unfolding check_machine
  check_machine_ok tee c t h = elim (Result-cases (k.get_tee_machine tee c)) [
    | inr (e, failed) ↦ absurd (ground (arith, ap (λ q. q.1) h))
    | inl (found, known) ↦ elim (Bool-cases (found == tee)) [
      | inl same ↦ (ground (arith, ap (λ q. q.0) h), known ∙ ap (λ z. ok z) (ground (arith, same)))
      | inr differ ↦ absurd (ground (arith, differ, ap (λ q. q.1) h))
    ]
  ]

  -- The promotion of the machine that a proof is about has been sent in a transaction that
  -- `CheckTx` has found done, and the chain then gives the machine.
  abbrev pub InProduction : Proof → C → C → Type 0
  InProduction proof c t =
      (c₁ : C) × (tx : Hash) × (receipt : Receipt) × (k.send_to_production proof c ≡ (c₁, ok tx))
      × (check_tx k.node tx c₁ ≡ (t, ok receipt))
      × HasMachine proof.request.tee_id t

  to_production-InProduction :
      (proof : Proof) (c t : C) → to_production k proof c ≡ (t, ok tt) → InProduction proof c t
  unfolding to_production
  to_production-InProduction proof c t h =
      let tee = proof.request.tee_id in
      let confirm : Hash → Call C (Unit {0}) =
        λ tx c₁. and_then (check_tx k.node tx c₁) λ receipt. check_machine k tee in
      let run =
        with_transactor_ok k (λ c. and_then (k.send_to_production proof c) confirm) c t tt h in
      let (c₁, tx, accepted, rest) = and_then_ok (k.send_to_production proof c) confirm t tt run in
      let (c₂, receipt, mined, last) =
        and_then_ok (check_tx k.node tx c₁) (λ receipt. check_machine k tee) t tt rest in
      let (same, has) = check_machine_ok tee c₂ t last in
      (
        c₁,
        tx,
        receipt,
        accepted,
        mined ∙ ap (λ z. (z, ok receipt)) same,
        subst (HasMachine tee) same has,
      )

  module _ (a : Registering) (tee proxy : Address) where
    -- From `c` the steps up to a have given an instruction; the FTDC proxy has a proof for it;
    -- and the machine that the proof is about has been promoted with that proof.
    abbrev pub Promoted : C → C → Type 0
    Promoted c t =
        (c₁ : C) × (instruction : Hash) × (proof : Proof) × (and_then (attest_steps k a tee proxy c)
            (step_availability k a tee proxy)
          ≡ (c₁, ok instruction))
        × (get_ftdc_availability_check_result k a.ftdc_tee_url instruction c₁ ≡ ok proof)
        × InProduction proof c₁ t

    step_promote-proof :
        (instruction : Hash) (c : C) (proof : Proof)
        → mentions b'p' a.command ≡ true
        → get_ftdc_availability_check_result k a.ftdc_tee_url instruction c ≡ ok proof
        → step_promote k a tee proxy instruction c ≡ to_production k proof c
    unfolding step_promote
    step_promote-proof instruction c proof named found = ground arith

    step_promote-failed :
        (instruction : Hash) (c : C) (e : String)
        → mentions b'p' a.command ≡ true
        → get_ftdc_availability_check_result k a.ftdc_tee_url instruction c ≡ err e
        → step_promote k a tee proxy instruction c ≡ (c, err e)
    unfolding step_promote
    step_promote-failed instruction c e named failed = ground arith

    step_promote-InProduction :
        (instruction : Hash) (c t : C)
        → mentions b'p' a.command ≡ true
        → step_promote k a tee proxy instruction c ≡ (t, ok tt)
        → (proof : Proof) × (get_ftdc_availability_check_result k a.ftdc_tee_url instruction c
            ≡ ok proof)
          × InProduction proof c t
    step_promote-InProduction instruction c t named h =
        elim (Result-cases (get_ftdc_availability_check_result k a.ftdc_tee_url instruction c)) [
          | inr (e, failed) ↦
              let refused = sym (step_promote-failed instruction c e named failed) ∙ h in
              absurd (ground (arith, ap (λ q. q.1) refused))
          | inl (proof, found) ↦ (
            proof,
            found,
            to_production-InProduction proof c t
                (sym (step_promote-proof instruction c proof named found) ∙ h),
          )
        ]

    register_steps-Promoted :
        (c t : C)
        → register_steps k a tee proxy c ≡ (t, ok tt)
        → (c₁ : C) × (t ≡ forget_state k a tee proxy c₁)
          × (mentions b'p' a.command ≡ true → Promoted c c₁)
    unfolding register_steps
    register_steps-Promoted c t h =
        let available : Progress → Call C Hash = step_availability k a tee proxy in
        let (c₁, progress, attested, h₁) = and_then_ok (attest_steps k a tee proxy c) _ t tt h in
        let (c₂, instruction, checked, h₂) = and_then_ok (available progress c₁) _ t tt h₁ in
        let (c₃, u, promoted, h₃) =
          and_then_ok (step_promote k a tee proxy instruction c₂)
            (λ _ c. (forget_state k a tee proxy c, ok tt)) t tt h₂ in
        (
          c₃,
          ap (λ q. q.0) (sym h₃),
          λ named.
              let (proof, found, done) =
                step_promote-InProduction instruction c₂ c₃ named promoted in
              (
                c₂,
                instruction,
                proof,
                ap (λ r. and_then r available) attested ∙ checked,
                found,
                done,
              ),
        )

  -- A file that is removed is missing, and the machines of the chain are as before.
  abbrev pub Removes : Type 0
  Removes =
      (path : String) (c : C)
      → (k.read_file path (k.remove_file path c).0 ≡ missing)
        × ((tee : Address)
            → k.get_tee_machine tee (k.remove_file path c).0 ≡ k.get_tee_machine tee c)

  -- The promotion, and since then the machines of the chain are the same.
  abbrev pub PromotedAt : Registering → Address → Address → C → C → Type 0
  PromotedAt a tee proxy c t =
      (c₁ : C) × Promoted a tee proxy c c₁
      × ((machine : Address) → k.get_tee_machine machine t ≡ k.get_tee_machine machine c₁)

  -- When `RegisterNode` succeeds, the state file is gone. If the command has the letter p, the
  -- steps before have given an instruction, the FTDC proxy has a proof for it, the promotion with
  -- that proof has been sent in a transaction that `CheckTx` has found done, and the chain gives
  -- the machine that the proof is about, then and at the end. This holds where removing a file
  -- makes it missing and leaves the machines alone.
  pub register_node_done :
      (lib : Crypto) (a : Registering) (c t : C)
      → Removes
      → register_node k a lib c ≡ (t, ok tt)
      → (tee : Address) × (proxy : Address) × (tee_proxy_id lib a.info ≡ ok (tee, proxy))
        × (k.read_file a.state_file_path t ≡ missing)
        × (mentions b'p' a.command ≡ true → PromotedAt a tee proxy c t)
  unfolding register_node
  register_node_done lib a c t removes h = elim (Result-cases (tee_proxy_id lib a.info)) [
    | inr (e, failed) ↦ absurd (ground (arith, ap (λ q. q.1) h))
    | inl (ids, known) ↦
        let run : register_steps k a ids.0 ids.1 c ≡ (t, ok tt) = ground arith in
        let (c₃, same, promoted) = register_steps-Promoted a ids.0 ids.1 c t run in
        let (gone, machines) = removes a.state_file_path c₃ in
        (
          ids.0,
          ids.1,
          known,
          ap (k.read_file a.state_file_path) same ∙ gone,
          λ named. (c₃, promoted named, λ tee. ap (k.get_tee_machine tee) same ∙ machines tee),
        )
  ]
