-- ===== src/Checks/Register/Unique.antt =====
-- R7: the warning is given exactly when two public extensions share the instruction sender.
use aurelith.Base.{
  ℕ, zero, suc, ◌+◌, ◌<◌, ◌≤◌, ◌≡◌, ◌≢◌, ◌↔◌, refl, sym, ◌∙◌, String, false, List, [], ◌∷◌, Result,
  ok, arith, length, Result-cases, inl, inr, ltb, lt→ltb, nat_eq, ◌⊎◌,
}
use native.Mathlib.Decide.{dec_lt}
use aurelith.World.{Address}
use aurelith.Report.{warn, pass, status_eq}
use aurelith.Checks.Register.{rounds, matching_ids, check_unique_sender}

module _ (sender : ℕ → Result Address) (expected : Address) where
  -- A listed id, with what the loop still does after it.
  abbrev FoundAt : ℕ → ℕ → ℕ → List ℕ → Type 0
  FoundAt n i k ks =
      (i ≤ k)
      × (k < i + n)
      × (sender k ≡ ok expected)
      × ((m : ℕ) × (k + 1 + m ≡ i + n) × (ks ≡ matching_ids sender expected m (k + 1)))

  matching_ids_skip :
      (n i : ℕ)
      → sender i ≢ ok expected
      → matching_ids sender expected (suc n) i ≡ matching_ids sender expected n (i + 1)
  unfolding matching_ids
  matching_ids_skip n i h = elim (Result-cases (sender i)) [
    | inl (a, e) ↦ ground arith
    | inr (m, e) ↦ ground arith
  ]

  matching_ids_hit :
      (n i : ℕ)
      → sender i ≡ ok expected
      → matching_ids sender expected (suc n) i ≡ i ∷ matching_ids sender expected n (i + 1)
  unfolding matching_ids
  matching_ids_hit n i h = ground arith

  sender_cases : (i : ℕ) → (sender i ≡ ok expected) ⊎ (sender i ≢ ok expected)
  sender_cases i = elim (Result-cases (sender i)) [
    | inl (a, e) ↦ elim (nat_eq.dec a expected) [
      | yes same ↦ inl (ground arith)
      | no differ ↦ inr (λ h. ground arith)
    ]
    | inr (m, e) ↦ inr (λ h. ground arith)
  ]

  matching_ids-zero : (i : ℕ) → matching_ids sender expected zero i ≡ []
  unfolding matching_ids
  matching_ids-zero i = refl

  -- An empty list: no id of the range has the sender.
  matching_ids-nil :
      (n i : ℕ)
      → matching_ids sender expected n i ≡ []
      → (k : ℕ) → i ≤ k
      → k < i + n
      → sender k ≢ ok expected
  matching_ids-nil zero i h k lo hi = absurd (omega arith)
  matching_ids-nil (suc n) i h k lo hi = elim (sender_cases i) [
    | inl hit ↦ absurd (cc (matching_ids_hit n i hit))
    | inr miss ↦ elim (nat_eq.dec k i) [
      | yes same ↦ rw same miss
      | no differ ↦
          matching_ids-nil n (i + 1) (sym (matching_ids_skip n i miss) ∙ h) k (omega arith)
            (omega arith)
    ]
  ]

  matching_ids-cons :
      (n i k : ℕ) (ks : List ℕ) → matching_ids sender expected n i ≡ k ∷ ks → FoundAt n i k ks
  matching_ids-cons zero i k ks h = absurd (cc (matching_ids-zero i))
  matching_ids-cons (suc n) i k ks h = elim (sender_cases i) [
    | inl hit ↦
        let both : i ∷ matching_ids sender expected n (i + 1) ≡ k ∷ ks =
          sym (matching_ids_hit n i hit) ∙ h in
        let same : i ≡ k = cc in
        let rest : ks ≡ matching_ids sender expected n (i + 1) = cc in
        (omega arith, omega arith, rw (← same) hit, (n, omega arith, rw (← same) rest))
    | inr miss ↦
        let (lo, hi, found, (m, e, rest)) =
          matching_ids-cons n (i + 1) k ks (sym (matching_ids_skip n i miss) ∙ h) in
        (omega arith, omega arith, found, (m, omega arith, rest))
  ]

  before_first_from :
      (n s k : ℕ) (ks : List ℕ)
      → matching_ids sender expected n s ≡ k ∷ ks
      → (i : ℕ) → s ≤ i
      → i < k
      → sender i ≢ ok expected
  before_first_from zero s k ks e i lo lt = absurd (cc (matching_ids-zero s))
  before_first_from (suc n) s k ks e i lo lt = elim (sender_cases s) [
    | inl hit ↦
        let both : s ∷ matching_ids sender expected n (s + 1) ≡ k ∷ ks =
          sym (matching_ids_hit n s hit) ∙ e in
        let same : s ≡ k = cc in absurd (omega arith)
    | inr miss ↦ elim (nat_eq.dec i s) [
      | yes same ↦ rw same miss
      | no differ ↦
          before_first_from n (s + 1) k ks (sym (matching_ids_skip n s miss) ∙ e) i (omega arith) lt
    ]
  ]

  -- The first listed id is the first with the sender.
  before_first :
      (n k : ℕ) (ks : List ℕ)
      → matching_ids sender expected n 0 ≡ k ∷ ks
      → (i : ℕ) → i < k
      → sender i ≢ ok expected
  before_first n k ks e i lt = before_first_from n 0 k ks e i (omega arith) lt

  -- Two ids below the bound with the expected sender.
  abbrev pub IsShared : ℕ → Type 0
  IsShared n =
      (i : ℕ) × (j : ℕ) × (i < j) × (j < n) × (sender i ≡ ok expected) × (sender j ≡ ok expected)

  IsShared-of_two :
      (n : ℕ) (ids : List ℕ) → matching_ids sender expected n 0 ≡ ids → 1 < length ids → IsShared n
  IsShared-of_two n [] e h = absurd (omega arith)
  IsShared-of_two n (i ∷ []) e h = absurd (omega arith)
  IsShared-of_two n (i ∷ j ∷ ids) e h =
      let (_, _, first, (m, range, rest)) = matching_ids-cons n 0 i (j ∷ ids) e in
      let (lo, hi, second, _) = matching_ids-cons m (i + 1) j ids (sym rest) in
      (i, j, omega arith, omega arith, first, second)

  two_of_shared :
      (n : ℕ) (ids : List ℕ) → matching_ids sender expected n 0 ≡ ids → IsShared n → 1 < length ids
  two_of_shared n [] e (i, j, lt, below, first, second) =
      absurd (matching_ids-nil n 0 e j (omega arith) (omega arith) second)
  two_of_shared n (k ∷ []) e (i, j, lt, below, first, second) =
      let (_, _, _, (m, range, rest)) = matching_ids-cons n 0 k [] e in
      elim (nat_eq.dec j k) [
        | yes same ↦ absurd (before_first n k [] e i (omega arith) first)
        | no differ ↦ elim (dec_lt j k) [
          | yes early ↦ absurd (before_first n k [] e j early second)
          | no late ↦
              absurd (matching_ids-nil m (k + 1) (sym rest) j (omega arith) (omega arith) second)
        ]
      ]
  two_of_shared n (k ∷ l ∷ ids) e shared = omega arith

rounds_small : (counter : ℕ) → counter < 9223372036854775808 → rounds counter ≡ counter
rounds_small counter small = ground arith

-- On a counter that an `int64` holds, R7 warns exactly when two ids below the counter have the
-- expected instruction sender, and otherwise it passes.
pub check_unique_sender_status :
    (sender : ℕ → Result Address) (expected : Address) (instr_sender : String) (counter : ℕ)
    → counter < 9223372036854775808
    → let status = (check_unique_sender sender expected instr_sender counter).status in
      ((status ≡ warn) ↔ IsShared sender expected counter) × ((status ≡ warn) ⊎ (status ≡ pass))
unfolding check_unique_sender
check_unique_sender_status sender expected instr_sender counter small =
    rw (rounds_small counter small) (
      let ids = matching_ids sender expected counter 0 in
      elim (dec_lt 1 (length ids)) [
        | yes two ↦
            rw (lt→ltb 1 (length ids) two)
              ((λ _. IsShared-of_two sender expected counter ids refl two, λ _. refl), inl refl)
        | no alone ↦
            let few : ltb 1 (length ids) ≡ false = ground arith in
            rw few (
              (
                λ e. absurd (cc),
                λ shared. absurd (alone (two_of_shared sender expected counter ids refl shared)),
              ),
              inr refl,
            )
      ])
