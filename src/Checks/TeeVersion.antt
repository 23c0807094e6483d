-- ===== src/Checks/TeeVersion.antt =====
-- `RegisterTeeVersionChecks`: V2, V4 and V6.
use aurelith.Base.{String, ◌&&◌, not, ◌==◌, string_eq, if◌then◌else◌}
use aurelith.Base.Text.{◌<>◌}
use aurelith.World.{World, missing, unreadable, contents}
use aurelith.Report.{Report, CheckResult, pass, warn, fail, skip, add}
use aurelith.EnvFile.{parse_extension_env, is_extension_id}
use aurelith.Checks.{result, result_with_fix}
use aurelith.Checks.Services.{info_reachable}

module _ (w : World) where
  -- V2
  unfoldable pub check_owner_key : CheckResult
  check_owner_key =
      let local_mode = w.getenv "LOCAL_MODE" in
      let name : String = "extension owner key" in
      if not (w.getenv "EXTENSION_OWNER_KEY" == "")
      then result "tee-version" "V2" name pass "EXTENSION_OWNER_KEY is configured"
      else if not (w.getenv "DEPLOYMENT_PRIVATE_KEY" == "")
      then result "tee-version" "V2" name pass
          "using DEPLOYMENT_PRIVATE_KEY (EXTENSION_OWNER_KEY not set)"
      else if not (local_mode == "true") && not (local_mode == "")
      then result_with_fix "tee-version" "V2" name warn
          "neither EXTENSION_OWNER_KEY nor DEPLOYMENT_PRIVATE_KEY set — AddTeeVersion will use dev key which isn't the extension owner on Coston2"
          "Set EXTENSION_OWNER_KEY or DEPLOYMENT_PRIVATE_KEY in .env"
      else result "tee-version" "V2" name pass "using dev key (local mode)"

  -- V4 where the file gives no extension id: `os.IsNotExist` of `os.Stat` tells why.
  check_no_extension_id : String → CheckResult
  check_no_extension_id path =
      let unset =
        result_with_fix "tee-version" "V4" "EXTENSION_ID valid" fail "EXTENSION_ID not set"
          "Delete config/extension.env and re-run scripts/pre-build.sh" in
      elim (w.file path) [
        | missing ↦
            result "tee-version" "V4" "EXTENSION_ID valid" skip
              "extension.env not found — run pre-build.sh first"
        | unreadable ↦ unset
        | contents text ↦ unset
      ]

  -- V4
  unfoldable pub check_version_extension_id : String → CheckResult
  unfolding check_no_extension_id
  check_version_extension_id path =
      let ext_id = (parse_extension_env w path).0 in
      if path == ""
      then result "tee-version" "V4" "EXTENSION_ID valid" skip "no --config provided"
      else if ext_id == ""
      then check_no_extension_id path
      else if not (is_extension_id ext_id)
      then result_with_fix "tee-version" "V4" "EXTENSION_ID valid" fail "EXTENSION_ID malformed"
          "Delete config/extension.env and re-run scripts/pre-build.sh"
      else result "tee-version" "V4" "EXTENSION_ID valid" pass ext_id

  -- V6
  unfoldable pub check_version_proxy : CheckResult
  check_version_proxy =
      let proxy_url = w.getenv "EXT_PROXY_URL" in
      if proxy_url == ""
      then result "tee-version" "V6" "proxy reachable" skip
          "EXT_PROXY_URL not set — allow-tee-version uses -p flag"
      else if info_reachable w proxy_url
      then result "tee-version" "V6" "proxy reachable" pass ("proxy reachable at " <> proxy_url)
      else result_with_fix "tee-version" "V6" "proxy reachable" warn
          ("proxy not reachable at " <> proxy_url <> " — start services first")
          "Start the proxy or check EXT_PROXY_URL"

  -- `RegisterTeeVersionChecks`
  unfoldable pub register_tee_version_checks : String → Report → Report
  register_tee_version_checks path r =
      add check_version_proxy (add (check_version_extension_id path) (add check_owner_key r))
