-- ===== src/Checks/Testing.antt =====
-- `RegisterTestChecks`: E1, E3 and E6.
use aurelith.Base.{String, not, ◌==◌, string_eq, if◌then◌else◌}
use aurelith.World.{World, missing, unreadable, contents}
use aurelith.Report.{Report, CheckResult, pass, warn, fail, skip, add}
use aurelith.EnvFile.{parse_extension_env, is_address}
use aurelith.Checks.{result, result_with_fix}
use aurelith.Checks.Services.{info_reachable}

-- E1 for the value found in a file that exists.
check_sender_value : String → CheckResult
check_sender_value instr_sender =
    if instr_sender == ""
    then result_with_fix "test" "E1" "INSTRUCTION_SENDER valid" fail
        "INSTRUCTION_SENDER not set — run pre-build.sh"
        "Run scripts/pre-build.sh to deploy and register the extension"
    else if not (is_address instr_sender)
    then result_with_fix "test" "E1" "INSTRUCTION_SENDER valid" fail "INSTRUCTION_SENDER malformed"
        "Delete config/extension.env and re-run scripts/pre-build.sh"
    else result "test" "E1" "INSTRUCTION_SENDER valid" pass instr_sender

-- E6
abbrev alignment_info : CheckResult
alignment_info =
    result "test" "E6" "OPType/OPCommand alignment info" pass
      "OPType/OPCommand hashes are validated at runtime — if a 501 error occurs, check the hash values in the error message"

module _ (w : World) where
  -- E1
  unfoldable pub check_instruction_sender : String → CheckResult
  unfolding check_sender_value
  check_instruction_sender path =
      let instr_sender = (parse_extension_env w path).1 in
      if path == ""
      then result "test" "E1" "INSTRUCTION_SENDER valid" skip "no --config provided"
      else elim (w.file path) [
        | missing ↦
            result "test" "E1" "INSTRUCTION_SENDER valid" skip
              "extension.env not found — run pre-build.sh first"
        | unreadable ↦ check_sender_value instr_sender
        | contents text ↦ check_sender_value instr_sender
      ]

  -- E3
  unfoldable pub check_result_proxy : CheckResult
  check_result_proxy =
      let proxy_url = w.getenv "EXT_PROXY_URL" in
      let name : String = "proxy reachable for test results" in
      if proxy_url == ""
      then result "test" "E3" name skip "EXT_PROXY_URL not set"
      else if info_reachable w proxy_url
      then result "test" "E3" name pass "proxy reachable for test result polling"
      else result_with_fix "test" "E3" name warn
          "proxy not reachable — test results cannot be polled"
          "Start the proxy or check EXT_PROXY_URL"

  -- `RegisterTestChecks`
  unfoldable pub register_test_checks : String → Report → Report
  register_test_checks path r =
      add alignment_info (add check_result_proxy (add (check_instruction_sender path) r))
