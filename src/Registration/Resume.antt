-- ===== src/Registration/Resume.antt =====
-- A registration that is run again goes on after the attestation that the state file has.
use aurelith.Base.{
  ◌≡◌, refl, sym, ap, ◌∙◌, true, false, ok, nat_eq, Bool-cases, inl, inr, arith, Result-cases,
}
use aurelith.World.{Address, Hash}
use aurelith.Chain.{and_then}
use aurelith.Chain.Steps.{Ensures, Ensures-ok, and_then-Ensures, Ensures-nothing}
use aurelith.Registration.{Machines, RegistrationState, mentions, load_state}
use aurelith.Registration.Calls.{request_tee_attestation}
use aurelith.Registration.Flow.{
  Registering, Progress, note_attestation, first_attestation, step_register, step_attest,
  attest_steps,
}
use aurelith.Registration.File.{mentions-append, KeepsFiles, load_state-save_state}

module _ {C : Type 0} (k : Machines C) where
  module _ (a : Registering) (tee proxy : Address) (files : KeepsFiles k) where
    -- The file has the state.
    abbrev pub Holds : RegistrationState → C → Type 0
    Holds state c = load_state k a.state_file_path c ≡ ok state

    -- What the steps r and R have settled: each that the command names is in the state, and the
    -- id is that of the state, or 0 without either.
    abbrev pub Attested : Progress → Type 0
    Attested (state, id) =
        (mentions b'r' a.command ≡ true
          → (mentions b'r' state.completed_steps ≡ true) × (id ≡ state.tee_attest_instruction_id))
        × (mentions b'r' a.command ≡ false → mentions b'R' a.command ≡ false → id ≡ 0)
        × (mentions b'R' a.command ≡ true
            → (mentions b'R' state.completed_steps ≡ true) × (id ≡ state.tee_attest_instruction_id))

    -- What step r ensures.
    abbrev Registered : C → Progress → Type 0
    Registered t (state, id) =
        Holds state t
        × (mentions b'r' a.command ≡ true
            → (mentions b'r' state.completed_steps ≡ true) × (id ≡ state.tee_attest_instruction_id))
        × (mentions b'r' a.command ≡ false → id ≡ 0)

    -- What steps r and R ensure.
    abbrev pub Settled : C → Progress → Type 0
    Settled t progress = Holds progress.0 t × Attested progress

    note_register :
        (state : RegistrationState) (id : Hash) (c : C)
        → mentions b'r' a.command ≡ true
        → Ensures Registered (note_attestation k a "r" state id c)
    unfolding mentions
    note_register state id c named = (
      (load_state-save_state k a.state_file_path _ c files).1,
      λ h. (mentions-append b'r' state.completed_steps "r" ∙ ground arith, refl),
      λ h. absurd (ground arith),
    )

    step_register-Registered :
        (state : RegistrationState) (c : C)
        → Holds state c
        → Ensures Registered (step_register k a tee proxy state c)
    unfolding step_register
    step_register-Registered state c held = elim (Bool-cases (mentions b'r' a.command)) [
      | inr absent ↦ rw absent (held, λ h. absurd (ground arith), λ h. refl)
      | inl named ↦ elim (Bool-cases (mentions b'r' state.completed_steps)) [
        | inl found ↦ rw named (rw found (held, λ h. (found, refl), λ h. absurd (ground arith)))
        | inr new ↦ rw named (
            rw new (
              and_then-Ensures (λ c id. Unit) Registered (first_attestation k a tee proxy c)
                (note_attestation k a "r" state)
                (Ensures-nothing (first_attestation k a tee proxy c))
                λ c₁ id _. note_register state id c₁ named))
      ]
    ]

    note_attest :
        (state : RegistrationState) (id : Hash) (c : C)
        → (mentions b'r' a.command ≡ true → mentions b'r' state.completed_steps ≡ true)
        → mentions b'R' a.command ≡ true
        → Ensures Settled (note_attestation k a "R" state id c)
    unfolding mentions
    note_attest state id c earlier named = (
      (load_state-save_state k a.state_file_path _ c files).1,
      (
        λ h. (mentions-append b'r' state.completed_steps "R" ∙ ground (arith, earlier h), refl),
        λ h g. absurd (ground arith),
        λ h. (mentions-append b'R' state.completed_steps "R" ∙ ground arith, refl),
      ),
    )

    step_attest-Settled :
        (c : C) (progress : Progress)
        → Registered c progress
        → Ensures Settled (step_attest k a tee proxy progress c)
    unfolding step_attest
    step_attest-Settled c (state, id) (held, if_r, unless_r) =
        elim (Bool-cases (mentions b'R' a.command)) [
          | inr absent ↦
              rw absent (held, (if_r, λ h g. unless_r h, λ h. absurd (ground (arith, absent, h))))
          | inl named ↦ elim (Bool-cases (mentions b'R' state.completed_steps)) [
            | inl found ↦ rw named (
                rw found (
                  held,
                  (
                    λ h. ((if_r h).0, refl),
                    λ h g. absurd (ground (arith, named, g)),
                    λ h. (found, refl),
                  ),
                ))
            | inr new ↦ rw named (
                rw new (
                  and_then-Ensures (λ c id. Unit) Settled (request_tee_attestation k tee c)
                    (note_attestation k a "R" state)
                    (Ensures-nothing (request_tee_attestation k tee c))
                    λ c₁ fresh _. note_attest state fresh c₁ (λ h. (if_r h).0) named))
          ]
        ]

    pub attest_steps-Settled : (c : C) → Ensures Settled (attest_steps k a tee proxy c)
    unfolding attest_steps
    attest_steps-Settled c = elim (Result-cases (load_state k a.state_file_path c)) [
      | inr (e, failed) ↦ rw (failed, attest_steps) tt
      | inl (state, held) ↦
          rw (held, attest_steps)
            (and_then-Ensures Registered Settled (step_register k a tee proxy state c)
              (step_attest k a tee proxy) (step_register-Registered state c held)
              step_attest-Settled)
    ]

    -- The steps r and R find their letters in the state, and call nothing.
    step_register-skips :
        (c : C) (state : RegistrationState) (id : Hash)
        → Attested (state, id)
        → (found : Hash) × (step_register k a tee proxy state c ≡ (c, ok (state, found)))
          × (mentions b'R' a.command ≡ false → found ≡ id)
    unfolding step_register
    step_register-skips c state id (if_r, if_none, if_R) =
        elim (Bool-cases (mentions b'r' a.command)) [
          | inr absent ↦ (0, ground arith, λ h. sym (if_none absent h))
          | inl named ↦
              let (found, known) = if_r named in
              (state.tee_attest_instruction_id, ground arith, λ h. sym known)
        ]

    step_attest-skips :
        (c : C) (state : RegistrationState) (found id : Hash)
        → Attested (state, id)
        → (mentions b'R' a.command ≡ false → found ≡ id)
        → step_attest k a tee proxy (state, found) c ≡ (c, ok (state, id))
    unfolding step_attest
    step_attest-skips c state found id (if_r, if_none, if_R) same =
        elim (Bool-cases (mentions b'R' a.command)) [
          | inr absent ↦ ground (arith, same absent)
          | inl named ↦ let (done, known) = if_R named in ground arith
        ]

    attest_steps-loaded :
        (c : C) (state : RegistrationState)
        → Holds state c
        → attest_steps k a tee proxy c
          ≡ and_then (step_register k a tee proxy state c) (step_attest k a tee proxy)
    unfolding attest_steps
    attest_steps-loaded c state held = rw (held, attest_steps) refl

    -- Where the state has them all, the steps r and R give what it has and change nothing.
    pub attest_steps-held :
        (c : C) (state : RegistrationState) (id : Hash)
        → Holds state c
        → Attested (state, id)
        → attest_steps k a tee proxy c ≡ (c, ok (state, id))
    attest_steps-held c state id held attested =
        let (found, registers, agrees) = step_register-skips c state id attested in
        attest_steps-loaded c state held
        ∙ ap (λ p. and_then p (step_attest k a tee proxy)) registers
        ∙ step_attest-skips c state found id attested agrees

    -- If the steps r and R have succeeded, then in any later state of the chain and the disk in
    -- which the state file is as they left it, they succeed again, with the same state and the
    -- same attestation, and without a transaction or any other change; where files keep what is
    -- written to them.
    pub attest_steps_again :
        (c t later : C) (progress : Progress)
        → attest_steps k a tee proxy c ≡ (t, ok progress)
        → load_state k a.state_file_path later ≡ load_state k a.state_file_path t
        → attest_steps k a tee proxy later ≡ (later, ok progress)
    attest_steps_again c t later progress h same =
        let (held, attested) = Ensures-ok Settled _ t progress (attest_steps-Settled c) h in
        attest_steps-held later progress.0 progress.1 (same ∙ held) attested
