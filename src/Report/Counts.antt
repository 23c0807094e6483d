-- ===== src/Report/Counts.antt =====
-- Every result is counted once, and a report has failures exactly when it counts one.
use aurelith.Base.{
  ◌+◌, ◌<◌, ◌≡◌, refl, ◌↔◌, Bool, Bool, true, false, ◌||◌, ◌∙◌, List, [], ◌∷◌, ◌++◌, arith, ◌==◌,
  length, count, any, any-append,
}
use aurelith.Report.{
  Status, pass, warn, fail, skip, status_eq, CheckResult, Report, add, add_if, any_failed,
  has_failures, Tally, bump, tally_from, tally,
}

abbrev pub has_status : Status → CheckResult → Bool
has_status s res = res.status == s

tally_from-counts :
    (t : Tally) (l : List CheckResult)
    → tally_from t l ≡ record {
      passed = t.passed + count (has_status pass) l;
      warning = t.warning + count (has_status warn) l;
      failed = t.failed + count (has_status fail) l;
      skipped = t.skipped + count (has_status skip) l;
    }
unfolding tally_from bump
tally_from-counts t [] = ground arith
tally_from-counts t (res ∷ l) = ground (arith, tally_from-counts (bump res.status t) l)

count_total :
    (l : List CheckResult)
    → count (has_status pass) l
        + count (has_status warn) l
        + count (has_status fail) l
        + count (has_status skip) l
      ≡ length l
count_total [] = refl
count_total (res ∷ l) = ground (arith, count_total l)

tally_counts :
    (r : Report)
    → tally r ≡ record {
      passed = count (has_status pass) r.results;
      warning = count (has_status warn) r.results;
      failed = count (has_status fail) r.results;
      skipped = count (has_status skip) r.results;
    }
unfolding tally
tally_counts r =
    tally_from-counts (record { passed = 0; warning = 0; failed = 0; skipped = 0 }) r.results
    ∙ ground arith

-- Each counter of the summary is the number of results with its status, and the four counters
-- add up to the number of results.
pub tally_lem :
    (r : Report)
    → let t = tally r in
      (t.passed ≡ count (has_status pass) r.results)
      × (t.warning ≡ count (has_status warn) r.results)
      × (t.failed ≡ count (has_status fail) r.results)
      × (t.skipped ≡ count (has_status skip) r.results)
      × (t.passed + t.warning + t.failed + t.skipped ≡ length r.results)
tally_lem r = rw (tally_counts r) (refl, refl, refl, refl, count_total r.results)

any_failed-eq-any : (l : List CheckResult) → any_failed l ≡ any (has_status fail) l
unfolding any_failed
any_failed-eq-any [] = refl
any_failed-eq-any (res ∷ l) = ground (arith, any_failed-eq-any l)

pub has_failures-any : (r : Report) → has_failures r ≡ any (has_status fail) r.results
unfolding has_failures
has_failures-any r = any_failed-eq-any r.results

any_failed-count : (l : List CheckResult) → (any_failed l ≡ true) ↔ (0 < count (has_status fail) l)
unfolding any_failed
any_failed-count [] = ground arith
any_failed-count (res ∷ l) = ground (arith, any_failed-count l)

-- A report has failures exactly when its summary counts at least one, so the exit status of
-- the tool agrees with the printed line.
pub has_failures-tally : (r : Report) → (has_failures r ≡ true) ↔ (0 < (tally r).failed)
unfolding has_failures
has_failures-tally r = rw (tally_counts r) (any_failed-count r.results)

-- A report has failures after `Add` exactly when it had some or the new result is one.
pub has_failures-add :
    (res : CheckResult) (r : Report)
    → has_failures (add res r) ≡ (has_failures r || has_status fail res)
unfolding has_failures add
has_failures-add res r =
    rw (any_failed-eq-any (r.results ++ res ∷ []), any_failed-eq-any r.results, any-append)
      (ground arith)

-- Without a failure after `Add` there was none before, and the new result is none.
pub has_failures-add-false :
    (res : CheckResult) (r : Report)
    → has_failures (add res r) ≡ false
    → (has_failures r ≡ false) × (has_status fail res ≡ false)
has_failures-add-false res r h = ground (arith, has_failures-add res r)

pub has_failures-add_if-false :
    (b : Bool) (res : CheckResult) (r : Report)
    → has_failures (add_if b res r) ≡ false
    → (has_failures r ≡ false) × (b ≡ true → has_status fail res ≡ false)
unfolding add_if
has_failures-add_if-false true res r h =
    let (before, new) = has_failures-add-false res r h in (before, λ _. new)
has_failures-add_if-false false res r h = (h, λ e. absurd (cc))
