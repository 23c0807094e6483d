-- ===== src/Extension/Locked/Exclusion.antt =====
-- At most one request is under the lock, and the lock is held exactly then.
use aurelith.Base.{
  ℕ, zero, suc, ◌+◌, ◌≤◌, ◌≡◌, refl, Bool, true, false, List, [], ◌∷◌, map, arith, Bool-cases, inl,
  inr, string_eq, nat_eq, Result-cases,
}
use aurelith.Extension.{State, Wire, Action, DataFixed}
use aurelith.Extension.Locked.{
  Phase, arrived, locking, counting, noting, unlocking, building, served, Shared, prepare_hello,
  prepare_goodbye, prepare, step_phase, step_place, run_locked, starting,
}

-- Whether a request is under the lock, as a number.
abbrev pub under_lock : Phase → ℕ
under_lock (arrived a) = 0
under_lock (locking a df job) = 0
under_lock (counting a df job) = 1
under_lock (noting a df job n) = 1
under_lock (unlocking a df job n text) = 1
under_lock (building a df job n text) = 0
under_lock (served r) = 0

-- The steps that a request has still to take.
abbrev pub steps_left : Phase → ℕ
steps_left (arrived a) = 6
steps_left (locking a df job) = 5
steps_left (counting a df job) = 4
steps_left (noting a df job n) = 3
steps_left (unlocking a df job n text) = 2
steps_left (building a df job n text) = 1
steps_left (served r) = 0

abbrev pub total : (Phase → ℕ) → List Phase → ℕ
total f [] = 0
total f (q ∷ qs) = f q + total f qs

abbrev pub bit : Bool → ℕ
bit true = 1
bit false = 0

-- The requests under the lock are one if it is held, and none if it is free.
abbrev pub IsExclusive : Shared × List Phase → Type 0
IsExclusive sys = total under_lock sys.1 ≡ bit sys.0.held

total-arrived : (actions : List Action) → total under_lock (map arrived actions) ≡ 0
total-arrived [] = refl
total-arrived (a ∷ actions) = omega (arith, total-arrived actions)

module _ (wire : Wire) where
  -- A request that has been decoded is not under the lock, and has a step less to take.
  abbrev pub IsPrepared : Phase → Type 0
  IsPrepared q = (under_lock q ≡ 0) × (steps_left q ≤ 5)

  prepare_hello-IsPrepared : (a : Action) (df : DataFixed) → IsPrepared (prepare_hello wire a df)
  unfolding prepare_hello
  prepare_hello-IsPrepared a df = elim (Result-cases (wire.decode_hello df.original_message)) [
    | inl (req, e) ↦ elim (string_eq.dec req.name "") [
      | yes blank ↦ (ground arith, ground arith)
      | no named ↦ (ground arith, ground arith)
    ]
    | inr (message, e) ↦ (ground arith, ground arith)
  ]

  prepare_goodbye-IsPrepared :
      (a : Action) (df : DataFixed) → IsPrepared (prepare_goodbye wire a df)
  unfolding prepare_goodbye
  prepare_goodbye-IsPrepared a df = elim (Result-cases (wire.decode_goodbye df.original_message)) [
    | inl (req, e) ↦ elim (string_eq.dec req.name "") [
      | yes blank ↦ (ground arith, ground arith)
      | no named ↦ (ground arith, ground arith)
    ]
    | inr (message, e) ↦ (ground arith, ground arith)
  ]

  pub prepare-IsPrepared : (a : Action) → IsPrepared (prepare wire a)
  unfolding prepare
  prepare-IsPrepared a = elim (Result-cases (wire.parse_data_fixed a.message)) [
    | inl (df, e) ↦
        let (hello, hello_left) = prepare_hello-IsPrepared a df in
        let (goodbye, goodbye_left) = prepare_goodbye-IsPrepared a df in
        (ground (arith, hello, goodbye), ground (arith, hello_left, goodbye_left))
    | inr (message, e) ↦ (ground arith, ground arith)
  ]

  -- A step takes the lock or gives it back as the request comes under it or leaves it.
  step_phase-bit :
      (q : Phase) (sh : Shared)
      → under_lock q ≤ bit sh.held
      → bit (step_phase wire q sh).0.held + under_lock q
        ≡ bit sh.held + under_lock (step_phase wire q sh).1
  unfolding step_phase
  step_phase-bit (arrived a) sh h = omega (arith, (prepare-IsPrepared a).0)
  step_phase-bit (locking a df job) sh h = elim (Bool-cases sh.held) [
    | inl taken ↦ ground (arith, taken)
    | inr free ↦ ground (arith, free)
  ]
  step_phase-bit (counting a df job) sh h = refl
  step_phase-bit (noting a df job n) sh h = refl
  step_phase-bit (unlocking a df job n text) sh h = elim (Bool-cases sh.held) [
    | inl taken ↦ ground (arith, taken)
    | inr free ↦ absurd (ground (arith, free, h))
  ]
  step_phase-bit (building a df job n text) sh h = refl
  step_phase-bit (served r) sh h = refl

  step_place-bit :
      (i : ℕ) (sh : Shared) (qs : List Phase)
      → total under_lock qs ≤ bit sh.held
      → bit (step_place wire i sh qs).0.held + total under_lock qs
        ≡ bit sh.held + total under_lock (step_place wire i sh qs).1
  unfolding step_place
  step_place-bit i sh [] h = refl
  step_place-bit zero sh (q ∷ qs) h = omega (arith, step_phase-bit q sh (omega (arith, h)))
  step_place-bit (suc i) sh (q ∷ qs) h = omega (arith, step_place-bit i sh qs (omega (arith, h)))

  pub step_place-IsExclusive :
      (i : ℕ) (sh : Shared) (qs : List Phase)
      → IsExclusive (sh, qs)
      → IsExclusive (step_place wire i sh qs)
  step_place-IsExclusive i sh qs h = omega (arith, h, step_place-bit i sh qs (omega (arith, h)))

  pub IsExclusive-run_locked :
      (is : List ℕ) (sys : Shared × List Phase)
      → IsExclusive sys
      → IsExclusive (run_locked wire is sys)
  unfolding run_locked
  IsExclusive-run_locked [] sys h = h
  IsExclusive-run_locked (i ∷ is) (sh, qs) h =
      IsExclusive-run_locked is (step_place wire i sh qs) (step_place-IsExclusive i sh qs h)

  pub starting-IsExclusive : (s : State) (actions : List Action) → IsExclusive (starting s actions)
  starting-IsExclusive s actions = total-arrived actions

  -- Whatever turns the requests to a server with a free lock are given, one of them is under the
  -- lock if it is held, and none if it is free, so no two are ever under it together.
  pub run_locked-IsExclusive :
      (s : State) (actions : List Action) (is : List ℕ)
      → IsExclusive (run_locked wire is (starting s actions))
  run_locked-IsExclusive s actions is =
      IsExclusive-run_locked is (starting s actions) (starting-IsExclusive s actions)
