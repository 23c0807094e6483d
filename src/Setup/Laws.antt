-- ===== src/Setup/Laws.antt =====
-- What a success of `SetupExtension` establishes on the chain.
use aurelith.Base.{ℕ, ◌≡◌, inl, inr, ap, true, [], ◌∷◌, ok, Option-cases, arith}
use mathlib.Core.Path.{subst}
use aurelith.World.{Address, Hash}
use aurelith.Chain.Steps.{and_then_ok}
use aurelith.Setup.{
  Contracts, register_extension, ensure_machine_owner, ensure_project_owner, ensure_key_type,
  setup_steps, setup_extension,
}
use aurelith.Setup.Steps.{
  Confirmed, ensure_machine_owner-Ensured, ensure_project_owner-Ensured, ensure_key_type-Ensured,
}

module _ {C : Type 0} (k : Contracts C) where
  module _ (deployer : Address) (evm_type : Hash) where
    abbrev pub IsMachineOwner : ℕ → C → Type 0
    IsMachineOwner id c = k.is_allowed_machine_owner id deployer c ≡ ok true

    abbrev pub IsProjectOwner : ℕ → C → Type 0
    IsProjectOwner id c = k.is_allowed_project_owner id deployer c ≡ ok true

    abbrev pub IsSupported : ℕ → C → Type 0
    IsSupported id c = k.is_key_type_supported id evm_type c ≡ ok true

    -- A confirmed transaction grants what it asks for, and takes nothing away.
    abbrev pub Honours : Type 0
    Honours =
        (id : ℕ) (c t : C)
        → (Confirmed k (k.add_machine_owners id (deployer ∷ [])) c t → IsMachineOwner id t)
          × (Confirmed k (k.add_project_owners id (deployer ∷ [])) c t
              → IsProjectOwner id t × (IsMachineOwner id c → IsMachineOwner id t))
          × (Confirmed k (k.add_supported_key_types id (evm_type ∷ [])) c t
              → IsSupported id t
                × (IsMachineOwner id c → IsMachineOwner id t)
                × (IsProjectOwner id c → IsProjectOwner id t))

    module _ (honours : Honours) (id : ℕ) (c t : C) (u : Unit {0}) where
      after_step_two :
          ensure_machine_owner k deployer evm_type id c ≡ (t, ok u) → IsMachineOwner id t
      after_step_two h = elim (ensure_machine_owner-Ensured k deployer evm_type id c t u h) [
        | inl (found, same) ↦ found
        | inr sent ↦ (honours id c t).0 sent
      ]

      after_step_three :
          ensure_project_owner k deployer evm_type id c ≡ (t, ok u)
          → IsMachineOwner id c
          → IsProjectOwner id t × IsMachineOwner id t
      after_step_three h machine =
          elim (ensure_project_owner-Ensured k deployer evm_type id c t u h) [
            | inl (found, same) ↦ (found, subst (IsMachineOwner id) same machine)
            | inr sent ↦ let (project, keeps) = (honours id c t).1 sent in (project, keeps machine)
          ]

      after_step_four :
          ensure_key_type k deployer evm_type id c ≡ (t, ok u)
          → IsMachineOwner id c
          → IsProjectOwner id c
          → IsMachineOwner id t × IsProjectOwner id t × IsSupported id t
      after_step_four h machine project =
          elim (ensure_key_type-Ensured k deployer evm_type id c t u h) [
            | inl (found, same) ↦ (
              subst (IsMachineOwner id) same machine,
              subst (IsProjectOwner id) same project,
              found,
            )
            | inr sent ↦
                let (supported, keeps_machine, keeps_project) = (honours id c t).2 sent in
                (keeps_machine machine, keeps_project project, supported)
          ]

    setup_steps_done :
        (sender verifier : Address) (c t : C) (id : ℕ)
        → Honours
        → setup_steps k deployer evm_type sender verifier c ≡ (t, ok id)
        → IsMachineOwner id t × IsProjectOwner id t × IsSupported id t
    unfolding setup_steps
    setup_steps_done sender verifier c t id honours h =
        let (c₁, id₁, registered, h₁) =
          and_then_ok (register_extension k sender verifier c) _ t id h in
        let (c₂, u₂, machine, h₂) =
          and_then_ok (ensure_machine_owner k deployer evm_type id₁ c₁) _ t id h₁ in
        let (c₃, u₃, project, h₃) =
          and_then_ok (ensure_project_owner k deployer evm_type id₁ c₂) _ t id h₂ in
        let (c₄, u₄, key_type, h₄) =
          and_then_ok (ensure_key_type k deployer evm_type id₁ c₃) _ t id h₃ in
        let is_machine = after_step_two honours id₁ c₁ c₂ u₂ machine in
        let (is_project, is_machine₃) = after_step_three honours id₁ c₂ c₃ u₃ project is_machine in
        let (end_machine, end_project, end_key) =
          after_step_four honours id₁ c₃ c₄ u₄ key_type is_machine₃ is_project in
        let same_chain : c₄ ≡ t = ap (λ q. q.0) h₄ in
        let same_id : id₁ ≡ id = ground (arith, ap (λ q. q.1) h₄) in
        subst (λ i. IsMachineOwner i t × IsProjectOwner i t × IsSupported i t) same_id
          (subst (λ z. IsMachineOwner id₁ z × IsProjectOwner id₁ z × IsSupported id₁ z) same_chain
            (end_machine, end_project, end_key))

  -- If `SetupExtension` returns an id without an error, then at the end the deployer is an
  -- allowed machine owner and an allowed wallet project owner of that extension, and the
  -- extension supports the EVM key type, where a confirmed transaction grants what it asks for
  -- and takes nothing away.
  pub setup_extension_done :
      (deployer : Address) (evm_type : Hash) (sender verifier : Address) (c t : C) (id : ℕ)
      → Honours deployer evm_type
      → setup_extension k deployer evm_type sender verifier c ≡ (t, ok id)
      → IsMachineOwner deployer evm_type id t
        × IsProjectOwner deployer evm_type id t
        × IsSupported deployer evm_type id t
  unfolding setup_extension
  setup_extension_done deployer evm_type sender verifier c t id honours h =
      elim (Option-cases k.transactor) [
        | inr (e, refused) ↦ absurd (ground (arith, ap (λ q. q.1) h))
        | inl ready ↦
            setup_steps_done deployer evm_type sender verifier c t id honours (ground arith)
      ]
