-- ===== src/VerifyDeploy/Frames.antt =====
-- `-step all` gives what the single steps give.
use aurelith.Base.{◌≡◌, refl, sym, ap, ◌∙◌, String, ◌++◌, some}
use aurelith.World.{World, Hash}
use aurelith.Report.{Report, empty_report}
use aurelith.Report.Extend.{extend, add-extend, extend_empty}
use aurelith.Checks.Deploy.Frames.{register_deploy_checks-extend}
use aurelith.Checks.Register.Frames.{register_registration_checks-extend}
use aurelith.Checks.Services.{register_services_checks}
use aurelith.Checks.TeeVersion.{register_tee_version_checks}
use aurelith.Checks.TeeMachine.{register_tee_machine_checks}
use aurelith.Checks.Testing.{register_test_checks}
use aurelith.VerifyDeploy.{Support, addresses, deploy_step, register_step, all_steps}

-- Checks that commute with `extend` append what they give on the empty report.
appended :
    (f : Report → Report) (r : Report)
    → ((s : Report) → f (extend r s) ≡ extend r (f s))
    → f r ≡ extend r (f empty_report)
appended f r h = ap f (sym (extend_empty r)) ∙ h empty_report

module _ (w : World) (path : String) (evm_type : Hash) (r : Report) where
  services_appended :
      register_services_checks w path r ≡ extend r (register_services_checks w path empty_report)
  unfolding register_services_checks
  services_appended = appended (register_services_checks w path) r (λ s. simp add-extend)

  tee_version_appended :
      register_tee_version_checks w path r
      ≡ extend r (register_tee_version_checks w path empty_report)
  unfolding register_tee_version_checks
  tee_version_appended = appended (register_tee_version_checks w path) r (λ s. simp add-extend)

  tee_machine_appended :
      register_tee_machine_checks w path r
      ≡ extend r (register_tee_machine_checks w path empty_report)
  unfolding register_tee_machine_checks
  tee_machine_appended = appended (register_tee_machine_checks w path) r (λ s. simp add-extend)

  test_appended :
      register_test_checks w path r ≡ extend r (register_test_checks w path empty_report)
  unfolding register_test_checks
  test_appended = appended (register_test_checks w path) r (λ s. simp add-extend)

  register_appended :
      (s : Support)
      → register_step w evm_type s path r ≡ extend r (register_step w evm_type s path empty_report)
  unfolding register_step
  register_appended s = appended (register_step w evm_type s path) r λ t.
      register_registration_checks-extend w evm_type (some s.client) (some s.key) (some s.registry)
        (some s.allowlist) r t path

  deploy_appended :
      (s : Support)
      → deploy_step w evm_type s path r ≡ extend r (deploy_step w evm_type s path empty_report)
  unfolding deploy_step
  deploy_appended s = appended (deploy_step w evm_type s path) r λ t.
      register_deploy_checks-extend w (some s.client) (some s.key) (addresses w evm_type s)
        (addresses w evm_type s) path r t

-- `-step all` adds to any report the results that the six steps give alone, in the order deploy,
-- register, services, tee-version, tee-machine, test.
pub all_steps-results :
    (w : World) (evm_type : Hash) (s : Support) (path : String) (r : Report)
    → (all_steps w evm_type s path r).results ≡ (
        (((((r.results ++ (deploy_step w evm_type s path empty_report).results)
                ++ (register_step w evm_type s path empty_report).results)
              ++ (register_services_checks w path empty_report).results)
            ++ (register_tee_version_checks w path empty_report).results)
          ++ (register_tee_machine_checks w path empty_report).results)
        ++ (register_test_checks w path empty_report).results)
unfolding all_steps
all_steps-results w evm_type s path r =
    let r₁ = deploy_step w evm_type s path r in
    let r₂ = register_step w evm_type s path r₁ in
    let r₃ = register_services_checks w path r₂ in
    let r₄ = register_tee_version_checks w path r₃ in
    let r₅ = register_tee_machine_checks w path r₄ in
    rw
      (
        test_appended w path evm_type r₅,
        tee_machine_appended w path evm_type r₄,
        tee_version_appended w path evm_type r₃,
        services_appended w path evm_type r₂,
        register_appended w path evm_type r₁ s,
        deploy_appended w path evm_type r s,
      )
      refl
