-- ===== src/Tests/Reporting.antt =====
-- Reports, their printing and the tool's exit status.
use mathlib.Core.List.{Perm}
use aurelith.Base.{
  ◌≡◌, ◌↔◌, ◌++◌, ◌&&◌, refl, true, false, String, Result, ok, err, any, contains, ℕ_discrete,
  string_eq,
}
use aurelith.Base.Text.{◌<>◌}
use aurelith.Report.{fprint, summary, Status-discrete, fail, empty_report, has_failures, steps, add}
use aurelith.Report.Counts.{has_status}
use aurelith.Report.Groups.{Distinct, groups, members, print_groups, fprint-groups}
use aurelith.VerifyDeploy.{
  Flags, Support, finish, filter_report, verify_deploy, all_steps, deploy_step, register_step,
}
use aurelith.VerifyDeploy.Filter.{
  is_shown, known_steps, chain_steps, finish_status, verify_deploy_known,
}
use aurelith.VerifyDeploy.Frames.{all_steps-results}
use aurelith.Checks.Services.{
  register_services_checks, check_services_extension_id, check_extension_port,
  check_port_configuration, check_ext_proxy_url, check_proxy_private_key,
}
use aurelith.Checks.TeeVersion.{register_tee_version_checks}
use aurelith.Checks.TeeMachine.{register_tee_machine_checks}
use aurelith.Checks.Testing.{register_test_checks}
use aurelith.Tests.{test_world, test_client, test_registry, test_allowlist, two_results}

fprint-groups_example :
    (fprint two_results
      ≡ "\n"
        <> "\u{1b}[36m"
        <> "=== Deployment Verification Report ==="
        <> "\u{1b}[0m"
        <> "\n\n"
        <> print_groups (groups (steps two_results) two_results.results)
        <> summary two_results
        <> "\n")
    × Distinct (steps two_results)
    × Perm (members (groups (steps two_results) two_results.results)) two_results.results
fprint-groups_example = fprint-groups two_results

abbrev only_d1 : Flags
only_d1 = record { config = ""; step = "all"; checks = "D1, R2"; json = false }

finish_status_example :
    ((finish only_d1 two_results).status ≡ 0
      ↔ any (λ res. is_shown only_d1.checks res && has_status fail res) two_results.results ≡ false)
    × ((finish only_d1 two_results).status ≡ 1
        ↔ any (λ res. is_shown only_d1.checks res && has_status fail res) two_results.results
          ≡ true)
finish_status_example = finish_status only_d1 two_results

abbrev services : Flags
services = record { config = ""; step = "services"; checks = ""; json = true }

no_chain : Result Support
no_chain = err "no chain node"

services_pass : (verify_deploy test_world 3 no_chain services).status ≡ 0
unfolding verify_deploy finish filter_report register_services_checks add has_failures
    Status-discrete ℕ_discrete string_eq check_services_extension_id check_extension_port
    check_port_configuration check_ext_proxy_url check_proxy_private_key
services_pass = refl

verify_deploy_known_example :
    (contains known_steps services.step ≡ true)
    × (contains chain_steps services.step ≡ true → (s : Support) × (no_chain ≡ ok s))
verify_deploy_known_example = verify_deploy_known test_world 3 no_chain services services_pass

abbrev test_support : Support
test_support = record {
  client = test_client;
  key = 5;
  registry = test_registry;
  allowlist = test_allowlist;
  flare_tee_manager = 7;
}

abbrev path : String
path = "extension.env"

all_steps-results_example : (all_steps test_world 3 test_support path two_results).results ≡ (
    (((((two_results.results ++ (deploy_step test_world 3 test_support path empty_report).results)
            ++ (register_step test_world 3 test_support path empty_report).results)
          ++ (register_services_checks test_world path empty_report).results)
        ++ (register_tee_version_checks test_world path empty_report).results)
      ++ (register_tee_machine_checks test_world path empty_report).results)
    ++ (register_test_checks test_world path empty_report).results)
all_steps-results_example = all_steps-results test_world 3 test_support path two_results
