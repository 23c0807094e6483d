-- ===== src/Report/Groups.antt =====
-- `Fprint` groups the results by step: none is lost, repeated or reordered within its step.
use mathlib.Core.List.{Perm, perm_middle}
use mathlib.Core.List.Perm
use aurelith.Base.{
  ◌≡◌, refl, ap, if◌then◌else◌, ◌≢◌, Bool, true, false, ◌||◌, String, List, [], ◌∷◌, ◌++◌, arith,
  ◌==◌, string_eq, contains, select,
}
use aurelith.Base.Text.{◌<>◌}
use aurelith.Report.{
  CheckResult, Report, note_step, steps, steps_from, step_label, summary, print_step, print_steps,
  print_result, fprint,
}

abbrev pub of_step : String → CheckResult → Bool
of_step step res = res.step == step

-- The results in the order in which `Fprint` writes them.
abbrev pub grouped : List String → List CheckResult → List CheckResult
grouped [] l = []
grouped (step ∷ rest) l = select (of_step step) l ++ grouped rest l

-- Every step of the results is among the listed ones.
abbrev pub Covers : List String → List CheckResult → Type 0
Covers names [] = Unit
Covers names (res ∷ l) = (contains names res.step ≡ true) × Covers names l

-- No name stands twice.
abbrev pub Distinct : List String → Type 0
Distinct [] = Unit
Distinct (n ∷ names) = (contains names n ≡ false) × Distinct names

grouped_nil : (names : List String) → grouped names [] ≡ []
grouped_nil [] = refl
grouped_nil (n ∷ names) = grouped_nil names

grouped_skip :
    (names : List String) (res : CheckResult) (l : List CheckResult)
    → contains names res.step ≡ false
    → grouped names (res ∷ l) ≡ grouped names l
grouped_skip [] res l h = refl
grouped_skip (n ∷ names) res l h = ground (arith, grouped_skip names res l)

module _ (n : String) (names : List String) (res : CheckResult) (l : List CheckResult) where
  grouped_here :
      res.step ≡ n
      → contains names n ≡ false
      → grouped (n ∷ names) (res ∷ l) ≡ res ∷ grouped (n ∷ names) l
  grouped_here p h = ground (arith, grouped_skip names res l)

  grouped_later :
      res.step ≢ n → grouped (n ∷ names) (res ∷ l) ≡ select (of_step n) l ++ grouped names (res ∷ l)
  grouped_later p = ground arith

grouped_cons :
    (names : List String) (res : CheckResult) (l : List CheckResult)
    → Distinct names
    → contains names res.step ≡ true
    → Perm (grouped names (res ∷ l)) (res ∷ grouped names l)
grouped_cons [] res l d h = absurd (cc)
grouped_cons (n ∷ names) res l d h = elim (string_eq.dec res.step n) [
  | yes p ↦ rw (grouped_here n names res l p d.0) (Perm.refl _)
  | no p ↦ rw (grouped_later n names res l p) (
      Perm.trans
        (Perm.append_left (select (of_step n) l) (grouped_cons names res l d.1 (ground arith)))
        (perm_middle (select (of_step n) l) (grouped names l)))
]

grouped-perm :
    (names : List String) (l : List CheckResult)
    → Distinct names
    → Covers names l
    → Perm (grouped names l) l
grouped-perm names [] d c = rw (grouped_nil names) (Perm.refl [])
grouped-perm names (res ∷ l) d c =
    Perm.trans (grouped_cons names res l d c.0) (Perm.cons res (grouped-perm names l d c.1))

contains-snoc :
    (names : List String) (n m : String)
    → contains (names ++ n ∷ []) m ≡ (contains names m || m == n)
contains-snoc [] n m = ground arith
contains-snoc (k ∷ names) n m = ground (arith, contains-snoc names n m)

Distinct-snoc :
    (names : List String) (n : String)
    → Distinct names
    → contains names n ≡ false
    → Distinct (names ++ n ∷ [])
Distinct-snoc [] n d h = (refl, tt)
Distinct-snoc (k ∷ names) n d h =
    (ground (arith, contains-snoc names n k), Distinct-snoc names n d.1 (ground arith))

-- `steps_from` keeps the names that it was given.
contains-steps_from :
    (names : List String) (l : List CheckResult) (n : String)
    → contains names n ≡ true
    → contains (steps_from names l) n ≡ true
unfolding steps_from
contains-steps_from names [] n h = h
contains-steps_from names (res ∷ l) n h =
    contains-steps_from (note_step names res.step) l n
      (ground (arith, contains-snoc names res.step n))

steps_from-Distinct :
    (names : List String) (l : List CheckResult) → Distinct names → Distinct (steps_from names l)
unfolding steps_from
steps_from-Distinct names [] d = d
steps_from-Distinct names (res ∷ l) d =
    steps_from-Distinct (note_step names res.step) l
      (ground (arith, Distinct-snoc names res.step d))

steps_from-Covers : (names : List String) (l : List CheckResult) → Covers (steps_from names l) l
unfolding steps_from
steps_from-Covers names [] = tt
steps_from-Covers names (res ∷ l) = (
  contains-steps_from (note_step names res.step) l res.step
      (ground (arith, contains-snoc names res.step res.step)),
  steps_from-Covers (note_step names res.step) l,
)

-- The text of a list of results.
pub print_all : List CheckResult → String
print_all [] = ""
print_all (res ∷ l) = print_result res <> print_all l

-- The block of a step is the text of the results of that step, in their order.
pub print_step-select :
    (step : String) (l : List CheckResult) → print_step step l ≡ print_all (select (of_step step) l)
unfolding print_step print_all
print_step-select step [] = refl
print_step-select step (res ∷ l) = ground (arith, print_step-select step l)

-- The label of a step, or its name where it has none.
abbrev pub title : String → String
title step = if step_label step == "" then step else step_label step

-- The text of groups of results, each under its title.
pub print_groups : List (String × List CheckResult) → String
print_groups [] = ""
print_groups ((name, group) ∷ rest) = name <> ":\n" <> print_all group <> "\n" <> print_groups rest

-- The results of each step.
abbrev pub groups : List String → List CheckResult → List (String × List CheckResult)
groups [] l = []
groups (step ∷ rest) l = (title step, select (of_step step) l) ∷ groups rest l

-- All results of some groups.
abbrev pub members : List (String × List CheckResult) → List CheckResult
members [] = []
members ((name, group) ∷ rest) = group ++ members rest

members-groups :
    (names : List String) (l : List CheckResult) → members (groups names l) ≡ grouped names l
members-groups [] l = refl
members-groups (n ∷ names) l = ap (λ z. select (of_step n) l ++ z) (members-groups names l)

print_steps-groups :
    (names : List String) (r : Report) → print_steps names r ≡ print_groups (groups names r.results)
unfolding print_steps print_groups
print_steps-groups [] r = refl
print_steps-groups (n ∷ names) r =
    rw (print_step-select n r.results) (rw (print_steps-groups names r) refl)

-- What `Fprint` writes between its first line and its summary is the text of groups of results,
-- one for each of the distinct steps under its title; the groups together are a permutation of the
-- results, so that none is lost and none is printed twice.
pub fprint-groups :
    (r : Report)
    → (fprint r
        ≡ "\n"
          <> "\u{1b}[36m"
          <> "=== Deployment Verification Report ==="
          <> "\u{1b}[0m"
          <> "\n\n"
          <> print_groups (groups (steps r) r.results)
          <> summary r
          <> "\n")
      × Distinct (steps r)
      × Perm (members (groups (steps r) r.results)) r.results
unfolding fprint steps
fprint-groups r =
    let d = steps_from-Distinct [] r.results tt in
    let all = grouped-perm _ r.results d (steps_from-Covers [] r.results) in
    (rw (print_steps-groups (steps r) r) refl, d, rw (members-groups (steps r) r.results) all)
