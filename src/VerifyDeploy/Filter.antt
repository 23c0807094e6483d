-- ===== src/VerifyDeploy/Filter.antt =====
-- What is printed and what the exit status says.
use aurelith.Base.{
  ◌≡◌, ap, ◌∙◌, ◌&&◌, ◌||◌, ◌↔◌, refl, String, Bool, true, false, List, [], ◌∷◌, arith, ◌==◌,
  string_eq, contains, select, any, Result, ok, err,
}
use aurelith.World.{World, Hash}
use aurelith.Report.{Report, CheckResult, has_failures, fail, status_eq}
use aurelith.Report.Counts.{has_status, has_failures-any}
use aurelith.VerifyDeploy.{
  Flags, Support, allowed_ids, filter_report, finish, run_chain_step, verify_deploy,
}

-- A result whose id a filter lets through.
abbrev pub is_shown : String → CheckResult → Bool
is_shown filter res = filter == "" || contains (allowed_ids filter) res.id

select_all : {A : Type 0} (l : List A) → select (λ _. true) l ≡ l
select_all [] = refl
select_all (x ∷ l) = ap (λ t. x ∷ t) (select_all l)

filter_report_results :
    (filter : String) (r : Report)
    → (filter_report filter r).results ≡ select (is_shown filter) r.results
unfolding filter_report
filter_report_results filter r = elim (string_eq.dec filter "") [
  | yes unset ↦ ground (arith, select_all r.results)
  | no given ↦ ground arith
]

any-select :
    {A : Type 0} (p q : A → Bool) (l : List A) → any p (select q l) ≡ any (λ x. q x && p x) l
any-select p q [] = refl
any-select p q (x ∷ l) = ground (arith, any-select p q l)

has_failures-filter :
    (filter : String) (r : Report)
    → has_failures (filter_report filter r)
      ≡ any (λ res. is_shown filter res && has_status fail res) r.results
has_failures-filter filter r =
    has_failures-any (filter_report filter r)
    ∙ ap (any (has_status fail)) (filter_report_results filter r)
    ∙ any-select (has_status fail) (is_shown filter) r.results

-- The exit status is 0 exactly when no result that the `-checks` filter shows has failed, and 1
-- exactly when one has. Without a filter every result is shown, with one those whose id it names.
pub finish_status :
    (f : Flags) (r : Report)
    → ((finish f r).status ≡ 0
        ↔ any (λ res. is_shown f.checks res && has_status fail res) r.results ≡ false)
      × ((finish f r).status ≡ 1
          ↔ any (λ res. is_shown f.checks res && has_status fail res) r.results ≡ true)
unfolding finish
finish_status f r = ground (arith, has_failures-filter f.checks r)

abbrev pub chain_steps : List String
chain_steps = "deploy" ∷ "register" ∷ "all" ∷ []

abbrev pub known_steps : List String
known_steps = "services" ∷ "tee-version" ∷ "tee-machine" ∷ "test" ∷ chain_steps

run_chain_step_err :
    (w : World) (evm_type : Hash) (e : String) (f : Flags)
    → (run_chain_step w evm_type (err e) f).status ≡ 1
unfolding run_chain_step
run_chain_step_err w evm_type e f = refl

-- The tool exits with 0 only for one of the seven steps, and for a step that needs the chain
-- only when the support could be built.
pub verify_deploy_known :
    (w : World) (evm_type : Hash) (support : Result Support) (f : Flags)
    → (verify_deploy w evm_type support f).status ≡ 0
    → (contains known_steps f.step ≡ true)
      × (contains chain_steps f.step ≡ true → (s : Support) × (support ≡ ok s))
unfolding verify_deploy
verify_deploy_known w evm_type (ok s) f h = (ground arith, λ _. (s, refl))
verify_deploy_known w evm_type (err e) f h = (
  ground (arith, run_chain_step_err w evm_type e f),
  λ c. absurd (ground (arith, run_chain_step_err w evm_type e f)),
)
