-- ===== src/Registration/Attestation.antt =====
-- Which attestation `RegisterNode` asks the availability check for.
use aurelith.Base.{
  ◌≡◌, refl, sym, ap, ◌∙◌, true, false, ok, Option-cases, Result-cases, inl, inr, arith,
}
use aurelith.World.{Address, Hash}
use aurelith.TeeCalls.Identity.{Crypto, tee_proxy_id}
use aurelith.Policy.{check_ftdc_proxy_policy_consistency}
use aurelith.Chain.{Call, and_then, Receipt, check_tx}
use aurelith.Chain.Steps.{and_then_ok}
use aurelith.Registration.{Machines, RegistrationState, mentions, load_state}
use aurelith.Registration.Calls.{
  with_transactor, fee, request_ftdc_availability_check, availability_logs,
}
use aurelith.Registration.Flow.{
  Registering, Progress, note_availability, step_register, step_attest, attest_steps,
  request_availability, step_availability, register_steps, register_node,
}

module _ {C : Type 0} (k : Machines C) where
  -- The availability check has been sent and confirmed for an attestation.
  abbrev pub Checked : Address → Address → Hash → C → Type 0
  Checked tee external attestation c =
      (sent : C) × (tx : Hash) × (k.send_availability_request fee tee attestation external
          k.own_address k.own_address c
        ≡ (sent, ok tx))
      × (mined : C) × (receipt : Receipt) × (check_tx k.node tx sent ≡ (mined, ok receipt))

  pub with_transactor_ok :
      {A : Type 0} (call : Call C A) (c t : C) (a : A)
      → with_transactor k call c ≡ (t, ok a)
      → call c ≡ (t, ok a)
  unfolding with_transactor
  with_transactor_ok call c t a h = elim (Option-cases k.transactor) [
    | inr (e, refused) ↦ absurd (ground (arith, ap (λ q. q.1) h))
    | inl ready ↦ sym (rw (ready, with_transactor) refl) ∙ h
  ]

  request_ftdc_availability_check-Checked :
      (tee external : Address) (attestation : Hash) (c t : C) (id : Hash)
      → request_ftdc_availability_check k tee external attestation c ≡ (t, ok id)
      → Checked tee external attestation c
  unfolding request_ftdc_availability_check
  request_ftdc_availability_check-Checked tee external attestation c t id h =
      let send : Call C Hash =
        k.send_availability_request fee tee attestation external k.own_address k.own_address in
      let confirm : Hash → Call C Hash =
        λ tx c₁. and_then (check_tx k.node tx c₁) λ receipt. availability_logs k receipt.logs in
      let run = with_transactor_ok (λ c. and_then (send c) confirm) c t id h in
      let (c₁, tx, answer, rest) = and_then_ok (send c) confirm t id run in
      let (c₂, receipt, mined, last) =
        and_then_ok (check_tx k.node tx c₁) (λ receipt. availability_logs k receipt.logs) t id
          rest in
      (c₁, tx, answer, c₂, receipt, mined)

  module _ (a : Registering) (tee proxy : Address) where
    step_availability-Checked :
        (progress : Progress) (c t : C) (id : Hash)
        → step_availability k a tee proxy progress c ≡ (t, ok id)
        → mentions b'a' a.command ≡ true
        → mentions b'a' progress.0.completed_steps ≡ false
        → Checked tee a.ftdc_tee progress.1 c
    unfolding step_availability request_availability
    step_availability-Checked (state, attestation) c t id h named new =
        let policy =
          check_ftdc_proxy_policy_consistency (k.current_epoch c)
            (k.proxy_policy_id a.ftdc_tee_url c) in
        elim (Option-cases policy) [
          | inr (e, refused) ↦ absurd (ground (arith, ap (λ q. q.1) h))
          | inl in_sync ↦
              let request = request_ftdc_availability_check k tee a.ftdc_tee attestation c in
              let run : and_then request (note_availability k a state) ≡ (t, ok id) =
                ground arith in
              let (c₁, found, answer, rest) =
                and_then_ok request (note_availability k a state) t id run in
              request_ftdc_availability_check-Checked tee a.ftdc_tee attestation c c₁ found answer
        ]

    attest_steps-neither :
        (c : C) (state : RegistrationState)
        → load_state k a.state_file_path c ≡ ok state
        → mentions b'r' a.command ≡ false
        → mentions b'R' a.command ≡ false
        → attest_steps k a tee proxy c ≡ (c, ok (state, 0))
    unfolding attest_steps step_register step_attest
    attest_steps-neither c state held no_r no_R = rw (held, attest_steps) (rw no_r (rw no_R refl))

    unattested :
        (c t : C) (progress : Progress)
        → attest_steps k a tee proxy c ≡ (t, ok progress)
        → mentions b'r' a.command ≡ false
        → mentions b'R' a.command ≡ false
        → progress.1 ≡ 0
    unfolding attest_steps
    unattested c t progress h no_r no_R = elim (Result-cases (load_state k a.state_file_path c)) [
      | inr (e, failed) ↦ absurd (ground (arith, ap (λ q. q.1) h))
      | inl (state, held) ↦
          let same = sym h ∙ attest_steps-neither c state held no_r no_R in
          ground (arith, ap (λ q. q.1) same)
    ]

    -- The attestation of the steps r and R, and the check that has been asked for it.
    abbrev pub CheckedAfter : C → Type 0
    CheckedAfter c =
        (c₁ : C) × (progress : Progress) × (attest_steps k a tee proxy c ≡ (c₁, ok progress))
        × (mentions b'a' progress.0.completed_steps ≡ false → Checked tee a.ftdc_tee progress.1 c₁)
        × (mentions b'r' a.command ≡ false → mentions b'R' a.command ≡ false → progress.1 ≡ 0)

    register_steps-CheckedAfter :
        (c t : C)
        → register_steps k a tee proxy c ≡ (t, ok tt)
        → mentions b'a' a.command ≡ true
        → CheckedAfter c
    unfolding register_steps
    register_steps-CheckedAfter c t h named =
        let (c₁, progress, attested, h₁) = and_then_ok (attest_steps k a tee proxy c) _ t tt h in
        let (c₂, instruction, available, h₂) =
          and_then_ok (step_availability k a tee proxy progress c₁) _ t tt h₁ in
        (
          c₁,
          progress,
          attested,
          λ new. step_availability-Checked progress c₁ c₂ instruction available named new,
          unattested c c₁ progress attested,
        )

  -- When `RegisterNode` succeeds with a command that has the letter a, it has sent the request for
  -- the availability check in a transaction that `CheckTx` has found done, unless the state file
  -- had it already, with the attestation that the steps r and R gave or found in the file. With
  -- neither of these letters in the command, that attestation is zero, whatever the file says.
  pub register_node_attestation :
      (lib : Crypto) (a : Registering) (c t : C)
      → register_node k a lib c ≡ (t, ok tt)
      → mentions b'a' a.command ≡ true
      → (tee : Address) × (proxy : Address) × (tee_proxy_id lib a.info ≡ ok (tee, proxy))
        × CheckedAfter a tee proxy c
  unfolding register_node
  register_node_attestation lib a c t h named = elim (Result-cases (tee_proxy_id lib a.info)) [
    | inr (e, failed) ↦ absurd (ground (arith, ap (λ q. q.1) h))
    | inl (ids, known) ↦
        (ids.0, ids.1, known, register_steps-CheckedAfter a ids.0 ids.1 c t (ground arith) named)
  ]
