-- ===== src/Checks/Outcomes.antt =====
-- When the steps that only read the environment fail, on every branch.
use aurelith.Base.{◌≡◌, refl, String, Bool, true, false, not, arith, ◌==◌, string_eq, ◌||◌, ◌&&◌}
use aurelith.World.{World, FileState, missing, unreadable, contents}
use aurelith.Report.{Report, has_failures, fail, status_eq}
use aurelith.Report.Counts.{has_status, has_failures-add}
use aurelith.EnvFile.{parse_extension_env, is_extension_id, is_address}
use aurelith.Checks.Services.{
  register_services_checks, check_services_extension_id, check_extension_port,
  check_port_configuration, check_ext_proxy_url, check_proxy_private_key,
}
use aurelith.Checks.TeeVersion.{
  register_tee_version_checks, check_owner_key, check_version_extension_id, check_version_proxy,
}
use aurelith.Checks.TeeMachine.{
  register_tee_machine_checks, check_simulated_tee, check_normal_proxy, check_host_url,
}
use aurelith.Checks.Testing.{register_test_checks, check_instruction_sender, check_result_proxy}

is_extension_id_empty : is_extension_id "" ≡ false
unfolding is_extension_id
is_extension_id_empty = refl

is_address_empty : is_address "" ≡ false
unfolding is_address
is_address_empty = refl

-- Whether `os.Stat` finds the file.
abbrev pub is_present : FileState → Bool
is_present missing = false
is_present unreadable = true
is_present (contents text) = true

module _ (w : World) (path : String) (r : Report) where
  services_tail :
      (has_status fail (check_extension_port w) ≡ false)
      × (has_status fail (check_port_configuration w) ≡ false)
      × (has_status fail (check_ext_proxy_url w) ≡ false)
      × (has_status fail (check_proxy_private_key w) ≡ false)
  unfolding check_extension_port check_port_configuration check_ext_proxy_url
      check_proxy_private_key
  services_tail = (ground arith, ground arith, ground arith, ground arith)

  services_head :
      has_status fail (check_services_extension_id w path)
      ≡ (not (path == "") && not (is_extension_id (parse_extension_env w path).0))
  unfolding check_services_extension_id
  services_head = ground (arith, is_extension_id_empty)

  -- The services step adds a failure exactly when a config path is given and `extension.env`
  -- holds no well-formed `EXTENSION_ID`, be it for want of the file.
  pub services_fails : has_failures (register_services_checks w path r) ≡ (
      has_failures r || (not (path == "") && not (is_extension_id (parse_extension_env w path).0)))
  unfolding register_services_checks
  services_fails =
      let (port, ports, proxy, key) = services_tail in
      simp (has_failures-add, services_head, port, ports, proxy, key) (ground arith)

  tee_version_tail :
      (has_status fail (check_owner_key w) ≡ false)
      × (has_status fail (check_version_proxy w) ≡ false)
  unfolding check_owner_key check_version_proxy
  tee_version_tail = (ground arith, ground arith)

  tee_version_head : has_status fail (check_version_extension_id w path) ≡ (
      not (path == "")
      && (is_present (w.file path) && not (is_extension_id (parse_extension_env w path).0)))
  unfolding check_version_extension_id parse_extension_env
  tee_version_head = ground (arith, is_extension_id_empty)

  -- The tee-version step adds a failure exactly when a config path is given, the file is there
  -- and it holds no well-formed `EXTENSION_ID`.
  pub tee_version_fails : has_failures (register_tee_version_checks w path r) ≡ (
      has_failures r
      || (not (path == "")
          && (is_present (w.file path) && not (is_extension_id (parse_extension_env w path).0))))
  unfolding register_tee_version_checks
  tee_version_fails =
      let (owner, proxy) = tee_version_tail in
      simp (has_failures-add, tee_version_head, owner, proxy) (ground arith)

  -- The tee-machine step adds no failure.
  pub tee_machine_fails : has_failures (register_tee_machine_checks w path r) ≡ has_failures r
  unfolding register_tee_machine_checks check_simulated_tee check_normal_proxy check_host_url
  tee_machine_fails = simp has_failures-add (ground arith)

  test_head : has_status fail (check_instruction_sender w path) ≡ (
      not (path == "")
      && (is_present (w.file path) && not (is_address (parse_extension_env w path).1)))
  unfolding check_instruction_sender parse_extension_env
  test_head = ground (arith, is_address_empty)

  -- The test step adds a failure exactly when a config path is given, the file is there and it
  -- holds no well-formed `INSTRUCTION_SENDER`.
  pub test_fails : has_failures (register_test_checks w path r) ≡ (
      has_failures r
      || (not (path == "")
          && (is_present (w.file path) && not (is_address (parse_extension_env w path).1))))
  unfolding register_test_checks check_result_proxy
  test_fails = simp (has_failures-add, test_head) (ground arith)
