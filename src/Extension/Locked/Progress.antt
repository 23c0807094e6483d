-- ===== src/Extension/Locked/Progress.antt =====
-- Concurrent requests come to an end: none waits for the lock for ever.
use aurelith.Base.{
  ℕ, zero, suc, ◌*◌, ◌<◌, ◌≡◌, refl, ap, ◌∙◌, Bool, true, false, List, [], ◌∷◌, map, arith, length,
  All, Bool-cases, inl, inr, nat_eq, string_eq,
}
use aurelith.Extension.{Action, Response}
use aurelith.Extension.Locked.{
  Phase, arrived, locking, counting, noting, unlocking, building, served, Shared,
}
use aurelith.Extension.Locked.Exclusion.{under_lock, steps_left, total, bit, IsExclusive}

-- A request has its answer.
abbrev pub IsServed : Phase → Type 0
IsServed q = (r : Response) × (q ≡ served r)

-- A request with nothing to do, or that waits for a lock that is held.
abbrev pub stuck : Bool → Phase → Bool
stuck held (locking a df job) = held
stuck held (served r) = true
stuck held (arrived a) = false
stuck held (counting a df job) = false
stuck held (noting a df job n) = false
stuck held (unlocking a df job n text) = false
stuck held (building a df job n text) = false

abbrev pub stuck_at : ℕ → Bool → List Phase → Bool
stuck_at i held [] = true
stuck_at zero held (q ∷ qs) = stuck held q
stuck_at (suc i) held (q ∷ qs) = stuck_at i held qs

-- The steps that all requests have still to take.
abbrev pub work : List Phase → ℕ
work qs = total steps_left qs

stuck-outside : (q : Phase) → stuck true q ≡ true → under_lock q ≡ 0
stuck-outside (arrived a) h = refl
stuck-outside (locking a df job) h = refl
stuck-outside (counting a df job) h = absurd (ground (arith, h))
stuck-outside (noting a df job n) h = absurd (ground (arith, h))
stuck-outside (unlocking a df job n text) h = absurd (ground (arith, h))
stuck-outside (building a df job n text) h = refl
stuck-outside (served r) h = refl

find_holder :
    (qs : List Phase)
    → 0 < total under_lock qs
    → (i : ℕ) × (i < length qs) × (stuck_at i true qs ≡ false)
find_holder [] h = absurd (omega (arith, h))
find_holder (q ∷ qs) h = elim (Bool-cases (stuck true q)) [
  | inr free ↦ (0, omega arith, free)
  | inl blocked ↦
      let none_here : under_lock q ≡ 0 = stuck-outside q blocked in
      let (i, small, moves) = find_holder qs (omega (arith, h, none_here)) in
      (suc i, omega (arith, small), moves)
]

stuck-served : (q : Phase) → stuck false q ≡ true → steps_left q ≡ 0
stuck-served (arrived a) h = absurd (ground (arith, h))
stuck-served (locking a df job) h = absurd (ground (arith, h))
stuck-served (counting a df job) h = absurd (ground (arith, h))
stuck-served (noting a df job n) h = absurd (ground (arith, h))
stuck-served (unlocking a df job n text) h = absurd (ground (arith, h))
stuck-served (building a df job n text) h = absurd (ground (arith, h))
stuck-served (served r) h = refl

find_unserved :
    (qs : List Phase) → 0 < work qs → (i : ℕ) × (i < length qs) × (stuck_at i false qs ≡ false)
find_unserved [] h = absurd (omega (arith, h))
find_unserved (q ∷ qs) h = elim (Bool-cases (stuck false q)) [
  | inr free ↦ (0, omega arith, free)
  | inl done ↦
      let (i, small, moves) = find_unserved qs (omega (arith, h, stuck-served q done)) in
      (suc i, omega (arith, small), moves)
]

-- There is no deadlock: while a request is not answered, one has a step to take.
pub no_deadlock :
    (sh : Shared) (qs : List Phase)
    → IsExclusive (sh, qs)
    → 0 < work qs
    → (i : ℕ) × (i < length qs) × (stuck_at i sh.held qs ≡ false)
no_deadlock sh qs h busy = elim (Bool-cases sh.held) [
  | inl taken ↦
      let (i, small, moves) = find_holder qs (omega (arith, h, ap bit taken)) in
      (i, small, ap (λ b. stuck_at i b qs) taken ∙ moves)
  | inr free ↦
      let (i, small, moves) = find_unserved qs busy in
      (i, small, ap (λ b. stuck_at i b qs) free ∙ moves)
]

pub work-IsServed : (qs : List Phase) → work qs ≡ 0 → All IsServed qs
work-IsServed [] h = tt
work-IsServed (served r ∷ qs) h = ((r, refl), work-IsServed qs (omega (arith, h)))
work-IsServed (arrived a ∷ qs) h = absurd (omega (arith, h))
work-IsServed (locking a df job ∷ qs) h = absurd (omega (arith, h))
work-IsServed (counting a df job ∷ qs) h = absurd (omega (arith, h))
work-IsServed (noting a df job n ∷ qs) h = absurd (omega (arith, h))
work-IsServed (unlocking a df job n text ∷ qs) h = absurd (omega (arith, h))
work-IsServed (building a df job n text ∷ qs) h = absurd (omega (arith, h))

pub work-arrived : (actions : List Action) → work (map arrived actions) ≡ 6 * length actions
work-arrived [] = omega arith
work-arrived (a ∷ actions) = omega (arith, work-arrived actions)

pub length-arrived : (actions : List Action) → length (map arrived actions) ≡ length actions
length-arrived [] = refl
length-arrived (a ∷ actions) = omega (arith, length-arrived actions)
