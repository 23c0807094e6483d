-- ===== src/Checks/TeeMachine.antt =====
-- `RegisterTeeMachineChecks`: T1, T5 and T10.
use aurelith.Base.{String, ◌&&◌, ◌==◌, string_eq, if◌then◌else◌}
use aurelith.Base.Text.{◌<>◌}
use aurelith.World.{World}
use aurelith.Report.{Report, CheckResult, pass, warn, skip, add}
use aurelith.Checks.{result, result_with_fix}
use aurelith.Checks.Services.{info_reachable}

module _ (w : World) where
  -- T1
  unfoldable pub check_simulated_tee : CheckResult
  check_simulated_tee =
      let simulated_tee = w.getenv "SIMULATED_TEE" in
      if simulated_tee == "true" && w.getenv "LOCAL_MODE" == "false"
      then result_with_fix "tee-machine" "T1" "SIMULATED_TEE mode" warn
          "SIMULATED_TEE=true on non-local deployment — machine will be registered with test attestation values. Set SIMULATED_TEE=false for real TEE hardware"
          "Set SIMULATED_TEE=false in .env when deploying to a real GCP TEE"
      else if simulated_tee == "true"
      then result "tee-machine" "T1" "SIMULATED_TEE mode" pass "simulated TEE mode (local)"
      else result "tee-machine" "T1" "SIMULATED_TEE mode" pass "real attestation mode"

  -- T5
  unfoldable pub check_normal_proxy : CheckResult
  check_normal_proxy =
      let normal_proxy_url = w.getenv "NORMAL_PROXY_URL" in
      let name : String = "NORMAL_PROXY_URL reachable" in
      if normal_proxy_url == ""
      then result "tee-machine" "T5" name skip "NORMAL_PROXY_URL not set"
      else if info_reachable w normal_proxy_url
      then result "tee-machine" "T5" name pass ("normal proxy reachable at " <> normal_proxy_url)
      else result_with_fix "tee-machine" "T5" name warn
          ("normal proxy not reachable at " <> normal_proxy_url
            <> " — required for FTDC availability check")
          "Ensure the normal/FTDC proxy is running and NORMAL_PROXY_URL is correct in .env"

  -- T10
  unfoldable pub check_host_url : CheckResult
  check_host_url =
      let ext_proxy_url = w.getenv "EXT_PROXY_URL" in
      if ext_proxy_url == ""
      then result "tee-machine" "T10" "host URL reachable" skip "EXT_PROXY_URL not set"
      else if info_reachable w ext_proxy_url
      then result "tee-machine" "T10" "host URL reachable" pass
          ("host URL reachable at " <> ext_proxy_url)
      else result_with_fix "tee-machine" "T10" "host URL reachable" warn
          ("host URL not reachable at " <> ext_proxy_url
            <> " — machine will be registered with unreachable host. Data providers can't relay instructions")
          "Ensure the host is accessible and EXT_PROXY_URL or -h flag points to the right URL"

  -- `RegisterTeeMachineChecks`; the path of `extension.env` is not used.
  unfoldable pub register_tee_machine_checks : String → Report → Report
  register_tee_machine_checks path r =
      add check_host_url (add check_normal_proxy (add check_simulated_tee r))
