-- ===== src/Report/Extend.antt =====
-- A report behind another one: what a check appends does not depend on what is there.
use mathlib.Core.List.{append_assoc, append-nil}
use aurelith.Base.{◌≡◌, refl, Bool, true, false, [], ◌∷◌, ◌++◌, All, All-append}
use aurelith.Report.{Report, CheckResult, empty_report, add, add_if}

abbrev pub extend : Report → Report → Report
extend r s = record { results = r.results ++ s.results }

pub add-extend : (res : CheckResult) (r s : Report) → add res (extend r s) ≡ extend r (add res s)
unfolding add
add-extend res r s = rw append_assoc

pub add_if-extend :
    (b : Bool) (res : CheckResult) (r s : Report)
    → add_if b res (extend r s) ≡ extend r (add_if b res s)
unfolding add_if
add_if-extend true res r s = add-extend res r s
add_if-extend false res r s = refl

pub extend_assoc : (r s t : Report) → extend (extend r s) t ≡ extend r (extend s t)
extend_assoc r s t = rw append_assoc

pub extend_empty : (r : Report) → extend r empty_report ≡ r
extend_empty r = rw append-nil

pub All-add {κ} :
    (P : CheckResult → Type κ) (res : CheckResult) (r : Report)
    → P res
    → All P r.results
    → All P (add res r).results
unfolding add
All-add P res r p h = All-append P r.results (res ∷ []) h (p, tt)

pub All-add_if {κ} :
    (P : CheckResult → Type κ) (b : Bool) (res : CheckResult) (r : Report)
    → P res
    → All P r.results
    → All P (add_if b res r).results
unfolding add_if
All-add_if P true res r p h = All-add P res r p h
All-add_if P false res r p h = h
