-- ===== src/Extension/Schedule/Numbers.antt =====
-- The greeting numbers of concurrent requests.
use mathlib.Core.List.{Perm, perm_middle}
use mathlib.Core.List.Perm
use aurelith.Base.{
  ℕ, zero, suc, ◌+◌, ◌<◌, ◌≤◌, ◌≡◌, ◌⊎◌, inl, inr, refl, List, [], ◌∷◌, ◌++◌, map, arith, length,
  string_eq, nat_eq, Result-cases,
}
use aurelith.Extension.{State, new, Wire, Action, DataFixed, greet, take_leave, increment}
use aurelith.Extension.Schedule.{
  Request, System, waiting, greeted, farewelled, answered, enter_hello, enter_goodbye, enter,
  step_request, step_at, run,
}

-- The greeting numbers that a request holds.
abbrev numbers_of : Request → List ℕ
numbers_of (waiting a) = []
numbers_of (greeted a df resp) = resp.greeting_number ∷ []
numbers_of (farewelled a df resp) = []
numbers_of (answered ns r) = ns

abbrev pub numbers : List Request → List ℕ
numbers [] = []
numbers (q ∷ qs) = numbers_of q ++ numbers qs

abbrev unstarted_of : Request → ℕ
unstarted_of (waiting a) = 1
unstarted_of (greeted a df resp) = 0
unstarted_of (farewelled a df resp) = 0
unstarted_of (answered ns r) = 0

abbrev unstarted : List Request → ℕ
unstarted [] = 0
unstarted (q ∷ qs) = unstarted_of q + unstarted qs

-- n, …, 2, 1
abbrev pub down_from : ℕ → List ℕ
down_from zero = []
down_from (suc n) = suc n ∷ down_from n

-- What one request's step does to the count, the numbers and the waiting requests.
abbrev Effect : State → Request → State × Request → Type 0
Effect s q (t, p) =
    ((t.greeting_count ≡ s.greeting_count)
      × (numbers_of p ≡ numbers_of q)
      × (unstarted_of p ≤ unstarted_of q))
    ⊎ ((t.greeting_count ≡ increment s.greeting_count)
        × (numbers_of q ≡ [])
        × (numbers_of p ≡ t.greeting_count ∷ [])
        × (unstarted_of p + 1 ≡ unstarted_of q))

module _ (wire : Wire) (s : State) where
  enter_hello-Effect :
      (a : Action) (df : DataFixed) → Effect s (waiting a) (enter_hello wire a df s)
  unfolding enter_hello greet
  enter_hello-Effect a df = elim (Result-cases (wire.decode_hello df.original_message)) [
    | inl (req, e) ↦ elim (string_eq.dec req.name "") [
      | yes blank ↦ ground arith
      | no named ↦ ground arith
    ]
    | inr (message, e) ↦ ground arith
  ]

  enter_goodbye-Effect :
      (a : Action) (df : DataFixed) → Effect s (waiting a) (enter_goodbye wire a df s)
  unfolding enter_goodbye take_leave
  enter_goodbye-Effect a df = elim (Result-cases (wire.decode_goodbye df.original_message)) [
    | inl (req, e) ↦ elim (string_eq.dec req.name "") [
      | yes blank ↦ ground arith
      | no named ↦ ground arith
    ]
    | inr (message, e) ↦ ground arith
  ]

  enter-Effect : (a : Action) → Effect s (waiting a) (enter wire a s)
  unfolding enter
  enter-Effect a = elim (Result-cases (wire.parse_data_fixed a.message)) [
    | inl (df, e) ↦ ground (arith, enter_hello-Effect a df, enter_goodbye-Effect a df)
    | inr (message, e) ↦ ground arith
  ]

  step_request-Effect : (q : Request) → Effect s q (step_request wire q s)
  unfolding step_request
  step_request-Effect (waiting a) = enter-Effect a
  step_request-Effect (greeted a df resp) = inl (refl, refl, omega arith)
  step_request-Effect (farewelled a df resp) = inl (refl, refl, omega arith)
  step_request-Effect (answered ns r) = inl (refl, refl, omega arith)

  -- The same of a list of requests.
  abbrev Moved : List Request → State × List Request → Type 0
  Moved qs (t, ps) =
      ((t.greeting_count ≡ s.greeting_count)
        × Perm (numbers ps) (numbers qs)
        × (unstarted ps ≤ unstarted qs))
      ⊎ ((t.greeting_count ≡ increment s.greeting_count)
          × Perm (numbers ps) (t.greeting_count ∷ numbers qs)
          × (unstarted ps + 1 ≡ unstarted qs))

module _ (wire : Wire) where
  step_at-Moved : (i : ℕ) (s : State) (qs : List Request) → Moved wire s qs (step_at wire i s qs)
  unfolding step_at
  step_at-Moved i s [] = inl (refl, Perm.refl [], omega arith)
  step_at-Moved zero s (q ∷ qs) = elim (step_request-Effect wire s q) [
    | inl (same, ns, fewer) ↦ inl (same, rw ns (Perm.refl _), omega (arith, fewer))
    | inr (more, none_yet, ns, fewer) ↦
        inr (more, rw (ns, none_yet) (Perm.refl _), omega (arith, fewer))
  ]
  step_at-Moved (suc i) s (q ∷ qs) = elim (step_at-Moved i s qs) [
    | inl (same, ns, fewer) ↦ inl (same, Perm.append_left (numbers_of q) ns, omega (arith, fewer))
    | inr (more, ns, fewer) ↦ inr (
      more,
      Perm.trans (Perm.append_left (numbers_of q) ns) (perm_middle (numbers_of q) (numbers qs)),
      omega (arith, fewer),
    )
  ]

  -- The numbers are those up to the count, which the waiting requests cannot bring to `limit`.
  abbrev Numbered : ℕ → System → Type 0
  Numbered limit sys =
      Perm (numbers sys.requests) (down_from sys.state.greeting_count)
      × (sys.state.greeting_count + unstarted sys.requests ≤ limit)

  step_at-Numbered :
      (limit i : ℕ) (s : State) (qs : List Request)
      → limit < 18446744073709551616
      → Numbered limit (record { state = s; requests = qs })
      → let (t, ps) = step_at wire i s qs in Numbered limit (record { state = t; requests = ps })
  step_at-Numbered limit i s qs small (perm, room) = elim (step_at-Moved i s qs) [
    | inl (same, ns, fewer) ↦ (rw same (Perm.trans ns perm), omega (arith, same, fewer))
    | inr (more, ns, fewer) ↦
        let next : (step_at wire i s qs).0.greeting_count ≡ suc s.greeting_count = ground arith in
        (Perm.trans ns (rw next (Perm.cons _ perm)), omega (arith, next, fewer))
  ]

  run-Numbered :
      (limit : ℕ) (is : List ℕ) (sys : System)
      → limit < 18446744073709551616
      → Numbered limit sys
      → Numbered limit (run wire is sys)
  unfolding run
  run-Numbered limit [] sys small h = h
  run-Numbered limit (i ∷ is) sys small h =
      let (t, ps) = step_at wire i sys.state sys.requests in
      run-Numbered limit is (record { state = t; requests = ps }) small
        (step_at-Numbered limit i sys.state sys.requests small h)

unstarted_waiting : (actions : List Action) → unstarted (map waiting actions) ≡ length actions
unstarted_waiting [] = refl
unstarted_waiting (a ∷ actions) = omega (arith, unstarted_waiting actions)

numbers_waiting : (actions : List Action) → numbers (map waiting actions) ≡ []
numbers_waiting [] = refl
numbers_waiting (a ∷ actions) = numbers_waiting actions

-- Whatever the interleaving of fewer than 2^64 requests to a new server, the greeting numbers
-- that the requests hold are 1 up to the greeting count, each once; and the count is at most
-- the number of requests.
pub run-numbers :
    (wire : Wire) (actions : List Action) (is : List ℕ)
    → length actions < 18446744073709551616
    → let sys = run wire is (record { state = new; requests = map waiting actions }) in
      Perm (numbers sys.requests) (down_from sys.state.greeting_count)
      × (sys.state.greeting_count ≤ length actions)
run-numbers wire actions is small =
    let (perm, room) =
      run-Numbered wire (length actions) is (record { state = new; requests = map waiting actions })
        small
        (rw (numbers_waiting actions) (Perm.refl []), omega (arith, unstarted_waiting actions)) in
    (perm, omega (arith, room))
