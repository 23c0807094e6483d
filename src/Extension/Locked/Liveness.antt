-- ===== src/Extension/Locked/Liveness.antt =====
-- Requests that are given turns are answered: none waits for the lock for ever.
use mathlib.Core.Path.{subst}
use aurelith.Base.{
  ℕ, zero, suc, ◌*◌, ◌≤◌, ◌<◌, ◌≡◌, refl, sym, ap, ◌∙◌, ◌⊎◌, Bool, true, false, List, [], ◌∷◌,
  arith, count, length, All, Bool-cases, inl, inr, ◌==◌, nat_eq,
}
use aurelith.Extension.{State, Wire, Action}
use aurelith.Extension.Locked.{
  Phase, arrived, locking, counting, noting, unlocking, building, served, Shared, step_phase,
  step_place, run_locked, starting,
}
use aurelith.Extension.Locked.Exclusion.{
  steps_left, total, bit, under_lock, IsExclusive, prepare-IsPrepared, IsExclusive-run_locked,
  starting-IsExclusive,
}
use aurelith.Extension.Locked.Progress.{
  IsServed, stuck, stuck_at, work, no_deadlock, work-IsServed, work-arrived, length-arrived,
}

-- The turns of a place in a round.
abbrev pub turns : ℕ → List ℕ → ℕ
turns place round = count (λ j. j == place) round

at_turn :
    (P : ℕ → Type 0) (place : ℕ) (round : List ℕ) → All P round → 0 < turns place round → P place
at_turn P place [] all h = absurd (omega (arith, h))
at_turn P place (i ∷ round) (here, rest) h = elim (nat_eq.dec i place) [
  | yes same ↦ subst P same here
  | no other ↦ at_turn P place round rest (ground (arith, h, other))
]

module _ (wire : Wire) where
  step_phase-stuck :
      (q : Phase) (sh : Shared) → stuck sh.held q ≡ true → step_phase wire q sh ≡ (sh, q)
  unfolding step_phase
  step_phase-stuck (arrived a) sh h = absurd (ground (arith, h))
  step_phase-stuck (locking a df job) sh h = rw (h, step_phase) refl
  step_phase-stuck (counting a df job) sh h = absurd (ground (arith, h))
  step_phase-stuck (noting a df job n) sh h = absurd (ground (arith, h))
  step_phase-stuck (unlocking a df job n text) sh h = absurd (ground (arith, h))
  step_phase-stuck (building a df job n text) sh h = absurd (ground (arith, h))
  step_phase-stuck (served r) sh h = refl

  step_phase-left :
      (q : Phase) (sh : Shared)
      → stuck sh.held q ≡ false
      → steps_left (step_phase wire q sh).1 < steps_left q
  unfolding step_phase
  step_phase-left (arrived a) sh h = omega (arith, (prepare-IsPrepared wire a).1)
  step_phase-left (locking a df job) sh h = rw (h, step_phase) (omega arith)
  step_phase-left (counting a df job) sh h = omega arith
  step_phase-left (noting a df job n) sh h = omega arith
  step_phase-left (unlocking a df job n text) sh h = omega arith
  step_phase-left (building a df job n text) sh h = omega arith
  step_phase-left (served r) sh h = absurd (ground (arith, h))

  step_place-stuck :
      (i : ℕ) (sh : Shared) (qs : List Phase)
      → stuck_at i sh.held qs ≡ true
      → step_place wire i sh qs ≡ (sh, qs)
  unfolding step_place
  step_place-stuck i sh [] h = refl
  step_place-stuck zero sh (q ∷ qs) h = ap (λ p. (p.0, p.1 ∷ qs)) (step_phase-stuck q sh h)
  step_place-stuck (suc i) sh (q ∷ qs) h = ap (λ p. (p.0, q ∷ p.1)) (step_place-stuck i sh qs h)

  step_place-work :
      (i : ℕ) (sh : Shared) (qs : List Phase)
      → stuck_at i sh.held qs ≡ false
      → work (step_place wire i sh qs).1 < work qs
  unfolding step_place
  step_place-work i sh [] h = absurd (ground (arith, h))
  step_place-work zero sh (q ∷ qs) h = omega (arith, step_phase-left q sh h)
  step_place-work (suc i) sh (q ∷ qs) h = omega (arith, step_place-work i sh qs h)

  length-step_place :
      (i : ℕ) (sh : Shared) (qs : List Phase) → length (step_place wire i sh qs).1 ≡ length qs
  unfolding step_place
  length-step_place i sh [] = refl
  length-step_place zero sh (q ∷ qs) = refl
  length-step_place (suc i) sh (q ∷ qs) = omega (arith, length-step_place i sh qs)

  length-run_locked :
      (is : List ℕ) (sys : Shared × List Phase) → length (run_locked wire is sys).1 ≡ length sys.1
  unfolding run_locked
  length-run_locked [] sys = refl
  length-run_locked (i ∷ is) (sh, qs) =
      length-run_locked is (step_place wire i sh qs) ∙ length-step_place i sh qs

  -- Turns that do no work find every request of theirs stuck; in any case no work is added.
  run_locked-work :
      (is : List ℕ) (sys : Shared × List Phase)
      → All (λ i. stuck_at i sys.0.held sys.1 ≡ true) is
          × (work (run_locked wire is sys).1 ≡ work sys.1)
        ⊎ (work (run_locked wire is sys).1 < work sys.1)
  unfolding run_locked
  run_locked-work [] sys = inl (tt, refl)
  run_locked-work (i ∷ is) (sh, qs) = elim (Bool-cases (stuck_at i sh.held qs)) [
    | inl blocked ↦
        let same = step_place-stuck i sh qs blocked in
        let run = ap (λ p. work (run_locked wire is p).1) same in
        elim (run_locked-work is (sh, qs)) [
          | inl (all, equal) ↦ inl ((blocked, all), run ∙ equal)
          | inr less ↦ inr (omega (arith, run, less))
        ]
    | inr moves ↦
        let next = step_place wire i sh qs in
        let first = step_place-work i sh qs moves in
        elim (run_locked-work is next) [
          | inl (all, equal) ↦ inr (omega (arith, first, equal))
          | inr less ↦ inr (omega (arith, first, less))
        ]
  ]

  -- The turns of several rounds, one after the other.
  abbrev pub run_rounds : List (List ℕ) → Shared × List Phase → Shared × List Phase
  run_rounds [] sys = sys
  run_rounds (round ∷ rounds) sys = run_rounds rounds (run_locked wire round sys)

  -- Every place has a turn in the round.
  abbrev pub VisitsAll : ℕ → List ℕ → Type 0
  VisitsAll n round = (place : ℕ) → place < n → 0 < turns place round

  round-works :
      (round : List ℕ) (sys : Shared × List Phase)
      → IsExclusive sys
      → VisitsAll (length sys.1) round
      → 0 < work sys.1
      → work (run_locked wire round sys).1 < work sys.1
  round-works round (sh, qs) h visits busy =
      let (i, small, moves) = no_deadlock sh qs h busy in
      elim (run_locked-work round (sh, qs)) [
        | inr less ↦ less
        | inl (all, equal) ↦
            let blocked =
              at_turn (λ j. stuck_at j sh.held qs ≡ true) i round all (visits i small) in
            absurd (ground (arith, blocked, moves))
      ]

  run_rounds-work :
      (n : ℕ) (rounds : List (List ℕ)) (sys : Shared × List Phase)
      → IsExclusive sys
      → length sys.1 ≡ n
      → All (VisitsAll n) rounds
      → work sys.1 ≤ length rounds
      → IsExclusive (run_rounds rounds sys) × (work (run_rounds rounds sys).1 ≡ 0)
  run_rounds-work n [] sys h same visits enough = (h, omega (arith, enough))
  run_rounds-work n (round ∷ rounds) sys h same (here, rest) enough =
      let next = run_locked wire round sys in
      let works : 0 < work sys.1 → work next.1 < work sys.1 =
        round-works round sys h (λ place small. here place (omega (arith, small, same))) in
      let fewer : work next.1 ≤ length rounds = elim (nat_eq.dec (work sys.1) 0) [
        | no busy ↦ omega (arith, works (omega (arith, busy)), enough)
        | yes idle ↦ elim (run_locked-work round sys) [
          | inl (all, equal) ↦ omega (arith, equal, idle)
          | inr less ↦ absurd (omega (arith, less, idle))
        ]
      ] in
      run_rounds-work n rounds next (IsExclusive-run_locked wire round sys h)
        (length-run_locked round sys ∙ same) rest fewer

  bit-zero : (held : Bool) → bit held ≡ 0 → held ≡ false
  bit-zero true h = absurd (omega (arith, h))
  bit-zero false h = refl

  under_lock-work : (qs : List Phase) → work qs ≡ 0 → total under_lock qs ≡ 0
  under_lock-work [] h = refl
  under_lock-work (served r ∷ qs) h = omega (arith, under_lock-work qs (omega (arith, h)))
  under_lock-work (arrived a ∷ qs) h = absurd (omega (arith, h))
  under_lock-work (locking a df job ∷ qs) h = absurd (omega (arith, h))
  under_lock-work (counting a df job ∷ qs) h = absurd (omega (arith, h))
  under_lock-work (noting a df job n ∷ qs) h = absurd (omega (arith, h))
  under_lock-work (unlocking a df job n text ∷ qs) h = absurd (omega (arith, h))
  under_lock-work (building a df job n text ∷ qs) h = absurd (omega (arith, h))

  -- Six rounds for each request, in each of which every request has a turn, in any order and
  -- among any other turns, leave every request to a server with a free lock answered, and the
  -- lock free again; a turn of a request that waits for the lock is lost.
  pub run_rounds-IsServed :
      (s : State) (actions : List Action) (rounds : List (List ℕ))
      → All (VisitsAll (length actions)) rounds
      → 6 * length actions ≤ length rounds
      → All IsServed (run_rounds rounds (starting s actions)).1
        × ((run_rounds rounds (starting s actions)).0.held ≡ false)
  run_rounds-IsServed s actions rounds visits enough =
      let sys = starting s actions in
      let (exclusive, done) =
        run_rounds-work (length actions) rounds sys (starting-IsExclusive wire s actions)
          (length-arrived actions) visits (omega (arith, work-arrived actions, enough)) in
      let end = run_rounds rounds sys in
      (work-IsServed end.1 done, bit-zero end.0.held (sym exclusive ∙ under_lock-work end.1 done))
