-- ===== src/Registration/Continue.antt =====
-- A registration that has failed at its last step is run again.
use aurelith.Base.{◌≡◌, refl, ◌∙◌, true, false, ok, Bool-cases, inl, inr, arith, Option-cases}
use aurelith.Base.Text.{◌<>◌}
use aurelith.World.{Address, Hash}
use aurelith.Policy.{check_ftdc_proxy_policy_consistency}
use aurelith.Chain.{and_then}
use aurelith.Chain.Steps.{Ensures, Ensures-ok, and_then-Ensures, Ensures-nothing}
use aurelith.Registration.{Machines, RegistrationState, mentions, load_state}
use aurelith.Registration.Calls.{request_ftdc_availability_check}
use aurelith.Registration.Flow.{
  Registering, Progress, note_availability, attest_steps, request_availability, step_availability,
  step_promote, forget_state, register_steps,
}
use aurelith.Registration.File.{mentions-append, KeepsFiles, load_state-save_state}
use aurelith.Registration.Resume.{Holds, Attested, Settled, attest_steps-Settled, attest_steps-held}

module _ {C : Type 0} (k : Machines C) (a : Registering) (tee proxy : Address)
    (files : KeepsFiles k) where
  -- What the steps up to a have settled: the state has each that the command names, and the
  -- instruction is that of the state, or without the letter a that of the command line.
  abbrev Available : RegistrationState → Hash → Type 0
  Available state instruction =
      (mentions b'a' a.command ≡ true
        → (mentions b'a' state.completed_steps ≡ true) × (instruction ≡ state.instruction_id))
      × (mentions b'a' a.command ≡ false → instruction ≡ k.hex_to_hash a.instruction_id_string)

  abbrev Reached : C → Hash → Type 0
  Reached t instruction =
      (state : RegistrationState) × (id : Hash) × Holds k a tee proxy files state t
      × Attested k a tee proxy files (state, id)
      × Available state instruction

  note_availability-Reached :
      (state : RegistrationState) (id instruction : Hash) (c : C)
      → Attested k a tee proxy files (state, id)
      → mentions b'a' a.command ≡ true
      → Ensures Reached (note_availability k a state instruction c)
  unfolding mentions
  note_availability-Reached state id instruction c (if_r, if_none, if_R) named = (
    record state { completed_steps = state.completed_steps <> "a"; instruction_id = instruction },
    id,
    (load_state-save_state k a.state_file_path _ c files).1,
    (
      λ h.
          (mentions-append b'r' state.completed_steps "a" ∙ ground (arith, (if_r h).0), (if_r h).1),
      if_none,
      λ h.
          (mentions-append b'R' state.completed_steps "a" ∙ ground (arith, (if_R h).0), (if_R h).1),
    ),
    (
      λ h. (mentions-append b'a' state.completed_steps "a" ∙ ground arith, refl),
      λ h. absurd (ground (arith, named, h)),
    ),
  )

  request_availability-Reached :
      (state : RegistrationState) (id : Hash) (c : C)
      → Attested k a tee proxy files (state, id)
      → mentions b'a' a.command ≡ true
      → Ensures Reached (request_availability k a tee proxy (state, id) c)
  unfolding request_availability
  request_availability-Reached state id c attested named =
      let policy =
        check_ftdc_proxy_policy_consistency (k.current_epoch c)
          (k.proxy_policy_id a.ftdc_tee_url c) in
      elim (Option-cases policy) [
        | inr (e, refused) ↦ rw (refused, request_availability) tt
        | inl in_sync ↦
            let request = request_ftdc_availability_check k tee a.ftdc_tee id c in
            rw (in_sync, request_availability)
              (and_then-Ensures (λ c i. Unit) Reached request (note_availability k a state)
                (Ensures-nothing request)
                λ c₁ i _. note_availability-Reached state id i c₁ attested named)
      ]

  step_availability-Reached :
      (c : C) (progress : Progress)
      → Settled k a tee proxy files c progress
      → Ensures Reached (step_availability k a tee proxy progress c)
  unfolding step_availability
  step_availability-Reached c (state, id) (held, attested) =
      elim (Bool-cases (mentions b'a' a.command)) [
        | inr absent ↦
            rw absent
              (state, id, held, attested, (λ h. absurd (ground (arith, absent, h)), λ h. refl))
        | inl named ↦ elim (Bool-cases (mentions b'a' state.completed_steps)) [
          | inl found ↦ rw named (
              rw found (
                state,
                id,
                held,
                attested,
                (λ h. (found, refl), λ h. absurd (ground (arith, named, h))),
              ))
          | inr new ↦ rw named (rw new (request_availability-Reached state id c attested named))
        ]
      ]

  step_availability-skips :
      (c : C) (state : RegistrationState) (id instruction : Hash)
      → Available state instruction
      → step_availability k a tee proxy (state, id) c ≡ (c, ok instruction)
  unfolding step_availability
  step_availability-skips c state id instruction (if_a, unless_a) =
      elim (Bool-cases (mentions b'a' a.command)) [
        | inr absent ↦ ground (arith, absent, unless_a absent)
        | inl named ↦ let (done, same) = if_a named in ground (arith, done, same)
      ]

  -- If the steps r, R and a of a registration have succeeded, then the same command, run again in
  -- any later state of the chain and the disk in which the state file is as they left it, goes at
  -- once to the step p, with the instruction that they have given; where files keep what is
  -- written to them.
  pub register_steps_resumed :
      (c t later : C) (instruction : Hash)
      → and_then (attest_steps k a tee proxy c) (step_availability k a tee proxy)
        ≡ (t, ok instruction)
      → load_state k a.state_file_path later ≡ load_state k a.state_file_path t
      → register_steps k a tee proxy later
        ≡ and_then
            (step_promote k a tee proxy instruction later)
            (λ _ c₁. (forget_state k a tee proxy c₁, ok tt))
  unfolding register_steps
  register_steps_resumed c t later instruction h same =
      let (state, id, held, attested, available) =
        Ensures-ok Reached _ t instruction
          (and_then-Ensures (Settled k a tee proxy files) Reached (attest_steps k a tee proxy c)
            (step_availability k a tee proxy) (attest_steps-Settled k a tee proxy files c)
            step_availability-Reached)
          h in
      let first = attest_steps-held k a tee proxy files later state id (same ∙ held) attested in
      let second = step_availability-skips later state id instruction available in
      rw first (rw second refl)
