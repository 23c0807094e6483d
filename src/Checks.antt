-- ===== src/Checks.antt =====
-- `fcc-extension/tools/pkg/validate/checks.go`: the checks of the deployment steps. Each adds its results to a
-- report; a check that makes no call of its own world is a plain function.
pub mod Deploy
pub mod Register
pub mod Services
pub mod TeeVersion
pub mod TeeMachine
pub mod Testing
pub mod Outcomes
use aurelith.Base.{String}
use aurelith.Report.{Report, Status, CheckResult, skip, add}

-- A `CheckResult` literal that sets no `Fix`.
abbrev pub result : String → String → String → Status → String → CheckResult
result step id name status message = record {
  step = step;
  id = id;
  name = name;
  status = status;
  message = message;
  fix = "";
}

-- A `CheckResult` literal with a `Fix`.
abbrev pub result_with_fix : String → String → String → Status → String → String → CheckResult
result_with_fix step id name status message fix = record {
  step = step;
  id = id;
  name = name;
  status = status;
  message = message;
  fix = fix;
}

-- `RegisterStubChecks`
unfoldable pub register_stub_checks : String → String → String → Report → Report
register_stub_checks step id_range name r =
    add (result step id_range name skip "not yet implemented") r
