-- ===== src/Extension/Locked/Refinement.antt =====
-- The handlers with the lock refine a server that serves each request in one step.
use aurelith.Base.{
  ℕ, zero, suc, ◌≤◌, ◌<◌, ◌≡◌, ◌⊎◌, refl, sym, ap, ◌∙◌, Bool, true, false, List, [], ◌∷◌, map,
  arith, All, inl, inr, Bool-cases, string_eq, nat_eq,
}
use aurelith.Extension.{State, Wire, Action, process_action}
use aurelith.Extension.Schedule.Atomic.{Job, todo, done, serve_at, serve_all}
use aurelith.Extension.Locked.{
  Phase, arrived, locking, counting, noting, unlocking, building, served, Shared, counted, count_up,
  job_text, note_text, prepare, answer, step_phase, step_place, run_locked, starting,
}
use aurelith.Extension.Locked.Exclusion.{
  under_lock, total, bit, IsExclusive, step_place-IsExclusive, starting-IsExclusive,
}
use aurelith.Extension.Locked.Decoding.{Explains, IsSure, prepare-Explains, Explains-IsSure}

-- The text that a request under the lock is about to write.
abbrev pub settle_one : Phase → State → State
settle_one (noting a df task n) s = note_text task s
settle_one (arrived a) s = s
settle_one (locking a df task) s = s
settle_one (counting a df task) s = s
settle_one (unlocking a df task n text) s = s
settle_one (building a df task n text) s = s
settle_one (served r) s = s

abbrev pub settle : List Phase → State → State
settle [] s = s
settle (q ∷ qs) s = settle_one q (settle qs s)

settle_one-outside : (q : Phase) (s : State) → under_lock q ≡ 0 → settle_one q s ≡ s
settle_one-outside (noting a df task n) s h = absurd (omega (arith, h))
settle_one-outside (arrived a) s h = refl
settle_one-outside (locking a df task) s h = refl
settle_one-outside (counting a df task) s h = refl
settle_one-outside (unlocking a df task n text) s h = refl
settle_one-outside (building a df task n text) s h = refl
settle_one-outside (served r) s h = refl

settle-outside : (qs : List Phase) (s : State) → total under_lock qs ≡ 0 → settle qs s ≡ s
settle-outside [] s h = refl
settle-outside (q ∷ qs) s h =
    ap (settle_one q) (settle-outside qs s (omega (arith, h)))
    ∙ settle_one-outside q s (omega (arith, h))

bit-le : (held : Bool) → bit held ≤ 1
bit-le true = omega arith
bit-le false = omega arith

-- With one request under the lock, no other is.
lone :
    (q : Phase) (sh : Shared) (qs : List Phase)
    → total under_lock (q ∷ qs) ≤ bit sh.held
    → under_lock q ≡ 1
    → total under_lock qs ≡ 0
lone q sh qs few here = omega (arith, few, here, bit-le sh.held)

module _ (wire : Wire) where
  -- A request as the server that serves in one step sees it: served from its counter on.
  abbrev pub job_of : Phase → Job
  job_of (arrived a) = todo a
  job_of (locking a df task) = todo a
  job_of (counting a df task) = todo a
  job_of (noting a df task n) = done (answer wire a df task n (job_text task))
  job_of (unlocking a df task n text) = done (answer wire a df task n text)
  job_of (building a df task n text) = done (answer wire a df task n text)
  job_of (served r) = done r

  -- The server as it is seen: the text that is about to be written is there already.
  abbrev pub seen : Shared × List Phase → State × List Job
  seen (sh, qs) = (settle qs sh.state, map job_of qs)

  -- What a turn does as it is seen: nothing; an answer without the state; or a whole handler, of
  -- the request under the lock.
  abbrev Seen : ℕ → Shared → List Phase → Type 0
  Seen i sh qs =
      let before = seen (sh, qs) in
      let after = seen (step_place wire i sh qs) in
      (after ≡ before)
      ⊎ ((after.0 ≡ before.0) × ((s : State) → serve_at wire i s before.1 ≡ (s, after.1)))
      ⊎ ((0 < total under_lock qs) × (after ≡ serve_at wire i before.0 before.1))

  arrived-Seen :
      (a : Action) (q : Phase) (qs : List Phase) (sh : Shared)
      → Explains wire (process_action wire a) a q
      → (seen (sh, q ∷ qs) ≡ seen (sh, arrived a ∷ qs))
        ⊎ ((settle (q ∷ qs) sh.state ≡ settle qs sh.state)
            × ((s : State)
                → serve_at wire 0 s (todo a ∷ map job_of qs) ≡ (s, job_of q ∷ map job_of qs)))
  unfolding serve_at
  arrived-Seen a (served r) qs sh h =
      inr (refl, λ s. ap (λ p. (p.0, done p.1 ∷ map job_of qs)) (h s))
  arrived-Seen a (locking b df task) qs sh (same, h) =
      inl (ap (λ z. (settle qs sh.state, todo z ∷ map job_of qs)) (sym same))
  arrived-Seen a (arrived b) qs sh h = absurd (ground (arith, h))
  arrived-Seen a (counting b df task) qs sh h = absurd (ground (arith, h))
  arrived-Seen a (noting b df task n) qs sh h = absurd (ground (arith, h))
  arrived-Seen a (unlocking b df task n text) qs sh h = absurd (ground (arith, h))
  arrived-Seen a (building b df task n text) qs sh h = absurd (ground (arith, h))

  here-Seen :
      (q : Phase) (sh : Shared) (qs : List Phase)
      → total under_lock (q ∷ qs) ≤ bit sh.held
      → IsSure wire q
      → Seen 0 sh (q ∷ qs)
  unfolding step_place step_phase serve_at
  here-Seen (arrived a) sh qs few sure =
      elim (arrived-Seen a (prepare wire a) qs sh (prepare-Explains wire a)) [
        | inl same ↦ inl same
        | inr answered ↦ inr (inl answered)
      ]
  here-Seen (locking a df task) sh qs few sure = elim (Bool-cases sh.held) [
    | inl taken ↦ inl (rw taken refl)
    | inr free ↦ inl (rw free refl)
  ]
  here-Seen (counting a df task) sh qs few sure =
      let alone : total under_lock qs ≡ 0 = lone (counting a df task) sh qs few refl in
      let js = map job_of qs in
      inr (
        inr (
          omega arith,
          ap
                (λ z. (
                  note_text task z,
                  done (answer wire a df task (counted task sh.state) (job_text task)) ∷ js,
                ))
                (settle-outside qs (count_up task sh.state) alone)
              ∙ sym (
                  ap (λ p. (p.0, done p.1 ∷ js))
                    (ap (process_action wire a) (settle-outside qs sh.state alone)
                      ∙ sure sh.state)),
        ))
  here-Seen (noting a df task n) sh qs few sure =
      let alone : total under_lock qs ≡ 0 = lone (noting a df task n) sh qs few refl in
      inl (
        ap (λ z. (z, job_of (noting a df task n) ∷ map job_of qs))
          (settle-outside qs (note_text task sh.state) alone
            ∙ sym (ap (note_text task) (settle-outside qs sh.state alone))))
  here-Seen (unlocking a df task n text) sh qs few sure = inl refl
  here-Seen (building a df task n text) sh qs few sure = inl refl
  here-Seen (served r) sh qs few sure = inl refl

  later-Seen :
      (i : ℕ) (q : Phase) (sh : Shared) (qs : List Phase)
      → total under_lock (q ∷ qs) ≤ bit sh.held
      → Seen i sh qs
      → Seen (suc i) sh (q ∷ qs)
  unfolding step_place serve_at
  later-Seen i q sh qs few (inl same) = inl (ap (λ p. (settle_one q p.0, job_of q ∷ p.1)) same)
  later-Seen i q sh qs few (inr (inl (same, answers))) =
      inr (inl (ap (settle_one q) same, λ s. ap (λ p. (p.0, job_of q ∷ p.1)) (answers s)))
  later-Seen i q sh qs few (inr (inr (busy, serves))) =
      let outside : under_lock q ≡ 0 = omega (arith, few, busy, bit-le sh.held) in
      let after = step_place wire i sh qs in
      inr (
        inr (
          omega (arith, busy),
          ap (λ z. (z, job_of q ∷ map job_of after.1))
                (settle_one-outside q (settle after.1 after.0.state) outside)
              ∙ ap (λ p. (p.0, job_of q ∷ p.1)) serves
              ∙ sym (
                  ap (λ z. let (t, ks) = serve_at wire i z (map job_of qs) in (t, job_of q ∷ ks))
                    (settle_one-outside q (settle qs sh.state) outside)),
        ))

  step_place-Seen :
      (i : ℕ) (sh : Shared) (qs : List Phase)
      → total under_lock qs ≤ bit sh.held
      → All (IsSure wire) qs
      → Seen i sh qs
  unfolding step_place
  step_place-Seen i sh [] few sure = inl refl
  step_place-Seen zero sh (q ∷ qs) few (here, rest) = here-Seen q sh qs few here
  step_place-Seen (suc i) sh (q ∷ qs) few (here, rest) =
      later-Seen i q sh qs few (step_place-Seen i sh qs (omega (arith, few)) rest)

  step_phase-IsSure :
      (q : Phase) (sh : Shared) → IsSure wire q → IsSure wire (step_phase wire q sh).1
  unfolding step_phase
  step_phase-IsSure (arrived a) sh h =
      Explains-IsSure wire a (prepare wire a) (prepare-Explains wire a)
  step_phase-IsSure (locking a df task) sh h = elim (Bool-cases sh.held) [
    | inl taken ↦ rw taken h
    | inr free ↦ rw free h
  ]
  step_phase-IsSure (counting a df task) sh h = tt
  step_phase-IsSure (noting a df task n) sh h = tt
  step_phase-IsSure (unlocking a df task n text) sh h = tt
  step_phase-IsSure (building a df task n text) sh h = tt
  step_phase-IsSure (served r) sh h = tt

  step_place-IsSure :
      (i : ℕ) (sh : Shared) (qs : List Phase)
      → All (IsSure wire) qs
      → All (IsSure wire) (step_place wire i sh qs).1
  unfolding step_place
  step_place-IsSure i sh [] h = tt
  step_place-IsSure zero sh (q ∷ qs) (here, rest) = (step_phase-IsSure q sh here, rest)
  step_place-IsSure (suc i) sh (q ∷ qs) (here, rest) = (here, step_place-IsSure i sh qs rest)

  run_locked-seen :
      (is : List ℕ) (sys : Shared × List Phase)
      → IsExclusive sys
      → All (IsSure wire) sys.1
      → (moments : List ℕ) × (seen (run_locked wire is sys) ≡ serve_all wire moments (seen sys))
  unfolding run_locked serve_all
  run_locked-seen [] sys exclusive sure = ([], refl)
  run_locked-seen (i ∷ is) (sh, qs) exclusive sure =
      let next = step_place wire i sh qs in
      let (moments, rest) =
        run_locked-seen is next (step_place-IsExclusive wire i sh qs exclusive)
          (step_place-IsSure i sh qs sure) in
      elim (step_place-Seen i sh qs (omega (arith, exclusive)) sure) [
        | inl same ↦ (moments, rest ∙ ap (serve_all wire moments) same)
        | inr (inl (same, answers)) ↦ (
          i ∷ moments,
          rest
              ∙ ap (serve_all wire moments)
                  (ap (λ z. (z, (seen next).1)) same ∙ sym (answers (settle qs sh.state))),
        )
        | inr (inr (busy, serves)) ↦ (i ∷ moments, rest ∙ ap (serve_all wire moments) serves)
      ]

  arrived-IsSure : (actions : List Action) → All (IsSure wire) (map arrived actions)
  arrived-IsSure [] = tt
  arrived-IsSure (a ∷ actions) = (tt, arrived-IsSure actions)

  settle-arrived : (actions : List Action) (s : State) → settle (map arrived actions) s ≡ s
  settle-arrived [] s = refl
  settle-arrived (a ∷ actions) s = settle-arrived actions s

  job_of-arrived : (actions : List Action) → map job_of (map arrived actions) ≡ map todo actions
  job_of-arrived [] = refl
  job_of-arrived (a ∷ actions) = ap (λ js. todo a ∷ js) (job_of-arrived actions)

  -- Whatever turns the requests to a server with a free lock are given, there are moments at which
  -- a server that serves each request in one step by the whole handler has the same state and has
  -- given the same answers: a request counts as served from its counter on, with the answer it
  -- will give, and the text that the request under the lock is about to write as written.
  pub run_locked-serve_all :
      (s : State) (actions : List Action) (is : List ℕ)
      → (moments : List ℕ) × (seen (run_locked wire is (starting s actions))
          ≡ serve_all wire moments (s, map todo actions))
  run_locked-serve_all s actions is =
      let (moments, same) =
        run_locked-seen is (starting s actions) (starting-IsExclusive wire s actions)
          (arrived-IsSure actions) in
      (
        moments,
        same
            ∙ ap (λ z. serve_all wire moments (z, map job_of (map arrived actions)))
                (settle-arrived actions s)
            ∙ ap (λ js. serve_all wire moments (s, js)) (job_of-arrived actions),
      )
