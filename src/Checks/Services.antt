-- ===== src/Checks/Services.antt =====
-- `RegisterServicesChecks`: S2, S5, S7, S9 and S10.
use aurelith.Base.{String, Bool, false, ◌&&◌, ◌||◌, not, ◌==◌, string_eq, nat_eq, if◌then◌else◌}
use aurelith.Base.Text.{◌<>◌, quote}
use aurelith.World.{World, failed, reply}
use aurelith.Report.{Report, CheckResult, pass, warn, fail, skip, add}
use aurelith.EnvFile.{parse_extension_env, is_extension_id}
use aurelith.Checks.{result, result_with_fix}

module _ (w : World) where
  -- `err == nil && resp.StatusCode == http.StatusOK` after `httpClient.Get(url + "/info")`
  unfoldable pub info_reachable : String → Bool
  info_reachable url = elim (w.http_get (url <> "/info")) [
    | failed e ↦ false
    | reply status body ↦ status == 200
  ]

  -- S2
  unfoldable pub check_services_extension_id : String → CheckResult
  check_services_extension_id path =
      let name : String = "EXTENSION_ID is set and well-formed" in
      let fix : String = "Delete config/extension.env and re-run scripts/pre-build.sh" in
      let ext_id = (parse_extension_env w path).0 in
      if path == ""
      then result "services" "S2" name skip "run pre-build.sh first"
      else if ext_id == ""
      then result_with_fix "services" "S2" name fail
          "EXTENSION_ID is empty or not found in extension.env" fix
      else if not (is_extension_id ext_id)
      then result_with_fix "services" "S2" name fail
          ("EXTENSION_ID has invalid format: " <> quote w.is_print ext_id) fix
      else result "services" "S2" name pass ext_id

  -- The port of S5.
  abbrev pub extension_port : String
  extension_port = if w.getenv "EXTENSION_PORT" == "" then "7702" else w.getenv "EXTENSION_PORT"

  -- S5
  unfoldable pub check_extension_port : CheckResult
  check_extension_port =
      if w.dial ("localhost:" <> extension_port)
      then result_with_fix "services" "S5" "extension port not in use" warn
          ("port " <> extension_port <> " is already in use — extension server will fail to bind")
          "Stop the process using that port or change EXTENSION_PORT"
      else result "services" "S5" "extension port not in use" pass "port available"

  -- S7
  unfoldable pub check_port_configuration : CheckResult
  check_port_configuration =
      let ext_port = w.getenv "EXTENSION_PORT" in
      let sign_port = w.getenv "SIGN_PORT" in
      result "services" "S7" "port configuration" pass (
        if not (ext_port == "") || not (sign_port == "")
        then "EXTENSION_PORT=" <> ext_port <> ", SIGN_PORT=" <> sign_port
        else "using defaults (standalone: 8080/9090, Docker: 7702/7701)")

  -- S9
  unfoldable pub check_ext_proxy_url : CheckResult
  check_ext_proxy_url =
      let proxy_url = w.getenv "EXT_PROXY_URL" in
      let name : String = "EXT_PROXY_URL reachable" in
      if proxy_url == ""
      then result "services" "S9" name skip "EXT_PROXY_URL not set"
      else if info_reachable proxy_url
      then result "services" "S9" name pass ("proxy reachable at " <> proxy_url)
      else result_with_fix "services" "S9" name warn
          ("proxy not reachable at " <> proxy_url <> " — is the proxy running?")
          "Start the proxy or check EXT_PROXY_URL"

  -- S10
  unfoldable pub check_proxy_private_key : CheckResult
  check_proxy_private_key =
      let local_mode = w.getenv "LOCAL_MODE" in
      let private_key = w.getenv "PROXY_PRIVATE_KEY" in
      let name : String = "PROXY_PRIVATE_KEY set on non-local" in
      if local_mode == "true" || local_mode == ""
      then result "services" "S10" name pass "local mode, dev key OK"
      else if local_mode == "false" && private_key == ""
      then result_with_fix "services" "S10" name warn
          "PROXY_PRIVATE_KEY not set in non-local mode — proxy will use default key"
          "Set PROXY_PRIVATE_KEY in .env for non-local deployments"
      else result "services" "S10" name pass "PROXY_PRIVATE_KEY is configured"

  -- `RegisterServicesChecks`
  unfoldable pub register_services_checks : String → Report → Report
  register_services_checks path r = add check_proxy_private_key (
      add check_ext_proxy_url (
        add check_port_configuration
          (add check_extension_port (add (check_services_extension_id path) r))))
