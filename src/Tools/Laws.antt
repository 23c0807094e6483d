-- ===== src/Tools/Laws.antt =====
-- When deploy-contract deploys.
use aurelith.Base.{
  ℕ, ◌≡◌, ◌≢◌, inl, inr, refl, sym, ap, ◌∙◌, String, Bool, true, false, Option, none, some, ok,
  Option-cases, nat_eq, arith, if◌then◌else◌, string_eq, ◌==◌,
}
use aurelith.World.{Address, World, Client, zero_address}
use aurelith.Validate.{min_deploy_balance, address_not_zero, address_has_code, key_has_funds}
use aurelith.Validate.Laws.{
  HasCode, HasFunds, address_not_zero-eq-none, address_has_code-HasCode, key_has_funds-HasFunds,
}
use aurelith.Chain.Steps.{and_then_ok}
use aurelith.Instructions.{Senders, deploy_instruction_sender}
use aurelith.Instructions.Laws.{Deployed, deploy_instruction_sender-Deployed}
use aurelith.Tools.{preflight_checks, note_address, deploy_and_write, deploy_contract_tool}

module _ (w : World) where
  preflight_checks-none :
      (client : Client) (key : ℕ) (manager : Address)
      → preflight_checks w client key manager ≡ none
      → (address_not_zero w manager "FlareTeeManager" ≡ none)
        × (address_has_code w (some client) manager "FlareTeeManager" ≡ none)
        × (key_has_funds w (some client) key min_deploy_balance ≡ none)
  unfolding preflight_checks
  preflight_checks-none client key manager h =
      elim (Option-cases (address_not_zero w manager "FlareTeeManager")) [
        | inr (e, bad) ↦ absurd (ground arith)
        | inl first ↦
            elim (Option-cases (address_has_code w (some client) manager "FlareTeeManager")) [
              | inr (e, bad) ↦ absurd (ground arith)
              | inl second ↦ (first, second, ground arith)
            ]
      ]

  -- Everything that `preflight_checks` asks for.
  abbrev pub IsReady : Client → ℕ → Address → Type 0
  IsReady client key manager =
      (manager ≢ zero_address)
      × HasCode (some client) manager
      × HasFunds w (some client) key min_deploy_balance

  preflight_checks-IsReady :
      (client : Client) (key : ℕ) (manager : Address)
      → preflight_checks w client key manager ≡ none
      → IsReady client key manager
  preflight_checks-IsReady client key manager h =
      let (not_zero, code, funds) = preflight_checks-none client key manager h in
      (
        (address_not_zero-eq-none w manager "FlareTeeManager").0 not_zero,
        address_has_code-HasCode w (some client) manager "FlareTeeManager" code,
        key_has_funds-HasFunds w (some client) key min_deploy_balance funds,
      )

  module _ {C : Type 0} (k : Senders C) (client : C → Client) (key : ℕ)
      (write : String → String → C → C) (out : String) where
    deploy_contract_tool-passed :
        (preflight_only : Bool) (c : C)
        → preflight_checks w (client c) key k.flare_tee_manager ≡ none
        → deploy_contract_tool w k client key preflight_only write out c
          ≡ (if preflight_only then (c, ok none) else deploy_and_write w k write out c)
    unfolding deploy_contract_tool
    deploy_contract_tool-passed preflight_only c passed = rw (passed, deploy_contract_tool) refl

    -- The contract has been deployed at the address that is printed, and the address is then
    -- written to the file of `-o`, if one is given.
    abbrev pub Printed : C → C → Option Address → Type 0
    Printed c t printed =
        (c₁ : C) × (address : Address) × Deployed k address c c₁
        × (t ≡ (if out == "" then c₁ else write out (w.address_hex address) c₁))
        × (printed ≡ some address)

    after_preflight :
        (preflight_only : Bool) (c t : C) (printed : Option Address)
        → (if preflight_only then (c, ok none) else deploy_and_write w k write out c)
          ≡ (t, ok printed)
        → (preflight_only ≡ true → (t ≡ c) × (printed ≡ none))
          × (preflight_only ≡ false → Printed c t printed)
    unfolding deploy_and_write
    after_preflight true c t printed h = (
      λ _. (ap (λ q. q.0) (sym h), ground (arith, ap (λ q. q.1) h)),
      λ deploys. absurd (ground arith),
    )
    after_preflight false c t printed h =
        let (c₁, address, deployed, noted) =
          and_then_ok (deploy_instruction_sender k c) (note_address w write out) t printed h in
        (
          λ only. absurd (ground arith),
          λ _. (
            c₁,
            address,
            deploy_instruction_sender-Deployed k c c₁ address deployed,
            ap (λ q. q.0) (sym noted),
            ground (arith, ap (λ q. q.1) noted),
          ),
        )

    -- When deploy-contract succeeds, the address of the FlareTeeManager is not zero, the chain
    -- has code there, and the deployer has the minimum balance. With `-preflight-only` it prints
    -- no address and leaves the chain alone. Without it, it has sent a deployment with the
    -- FlareTeeManager for both registries, in a transaction that was mined with the status 1; it
    -- prints the address of that deployment, and writes it to the file of `-o`, if one is given.
    pub deploy_contract_done :
        (preflight_only : Bool) (c t : C) (printed : Option Address)
        → deploy_contract_tool w k client key preflight_only write out c ≡ (t, ok printed)
        → IsReady (client c) key k.flare_tee_manager
          × (preflight_only ≡ true → (t ≡ c) × (printed ≡ none))
          × (preflight_only ≡ false → Printed c t printed)
    unfolding deploy_contract_tool
    deploy_contract_done preflight_only c t printed h =
        elim (Option-cases (preflight_checks w (client c) key k.flare_tee_manager)) [
          | inr (e, bad) ↦ absurd (ground (arith, ap (λ q. q.1) h))
          | inl passed ↦
              let run = sym (deploy_contract_tool-passed preflight_only c passed) ∙ h in
              let (only, deploys) = after_preflight preflight_only c t printed run in
              (preflight_checks-IsReady (client c) key k.flare_tee_manager passed, only, deploys)
        ]
