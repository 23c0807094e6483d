-- ===== src/Tests/Machines.antt =====
-- The registration of a machine on a chain that accepts everything.
use aurelith.Base.{ℕ, ◌≡◌, ◌≢◌, refl, String, true, Result, ok, nat_eq, string_eq, ℕ_discrete}
use aurelith.World.{World, Address, Hash, missing, contents, reply}
use aurelith.Chain.{and_then, check_tx}
use aurelith.TeeCalls.{
  tee_info, action_result, get_code_hash_and_platform, tee_code_hash, test_platform,
}
use aurelith.TeeCalls.Identity.{
  SignedTeeInfo, Claims, code_hash_and_platform, tee_proxy_id, get_tee_proxy_id,
}
use aurelith.Registration.{RegistrationState, load_state, save_state, mentions}
use aurelith.Policy.{check_ftdc_proxy_policy_consistency}
use aurelith.Registration.Calls.{
  request_tee_attestation, request_ftdc_availability_check, get_ftdc_availability_check_result,
  to_production,
}
use aurelith.Registration.Flow.{
  Registering, attest_steps, step_availability, step_promote, forget_state, register_steps,
  register_node,
}
use aurelith.Registration.Continue.{register_steps_resumed}
use aurelith.Registration.Done.{PromotedAt}
use aurelith.Registration.Attestation.{CheckedAfter, register_node_attestation}
use aurelith.Registration.Tool.{RegisterFlags, told, arguments, register_tee, register_tee_done}
use aurelith.Chain.Support.{default_support}
use aurelith.Tests.Chains.{test_library, found_world}
use aurelith.Tests.Disk.{
  Disk, test_machines, test_keeps, test_removes, test_info, test_crypto, show_registration, ones,
}

-- The machine is known to the chain.
abbrev known : Disk
known = (missing, 77)

abbrev registering : String → Registering
registering command = record {
  info = test_info;
  host_url = "http://host";
  ftdc_tee_url = "http://ftdc";
  ftdc_tee = 77;
  command = command;
  instruction_id_string = "";
  state_file_path = "register-tee.state";
}

abbrev attested : RegistrationState
attested = record { completed_steps = "rR"; tee_attest_instruction_id = 4; instruction_id = 0 }

abbrev checked : RegistrationState
checked = record attested { completed_steps = "rRa"; instruction_id = 4 }

abbrev after_check : Disk
after_check = (contents (show_registration checked), 77)

check_runs :
    and_then
      (attest_steps test_machines (registering "rRap") 77 78 known)
      (step_availability test_machines (registering "rRap") 77 78)
    ≡ (after_check, ok 4)
unfolding attest_steps step_availability mentions load_state save_state request_tee_attestation
    request_ftdc_availability_check check_ftdc_proxy_policy_consistency show_registration ones
    check_tx ℕ_discrete
check_runs = refl

register_steps_resumed_example :
    register_steps test_machines (registering "rRap") 77 78 after_check
    ≡ and_then
        (step_promote test_machines (registering "rRap") 77 78 4 after_check)
        (λ _ c. (forget_state test_machines (registering "rRap") 77 78 c, ok tt))
register_steps_resumed_example =
    register_steps_resumed test_machines (registering "rRap") 77 78 test_keeps known after_check
      after_check 4 check_runs refl

-- Without the letters r and R.
late_runs : register_node test_machines (registering "ap") test_crypto known ≡ (known, ok tt)
unfolding register_node tee_proxy_id mentions load_state save_state request_ftdc_availability_check
    get_ftdc_availability_check_result to_production check_tx ℕ_discrete
    check_ftdc_proxy_policy_consistency action_result
late_runs = refl

names_a : mentions b'a' "ap" ≡ true
unfolding mentions ℕ_discrete
names_a = refl

register_node_attestation_example :
    (tee : Address) × (proxy : Address) × (tee_proxy_id test_crypto test_info ≡ ok (tee, proxy))
    × CheckedAfter test_machines (registering "ap") tee proxy known
register_node_attestation_example =
    register_node_attestation test_machines test_crypto (registering "ap") known known late_runs
      names_a

abbrev tee_world : World
tee_world = record found_world { http_get = λ url. reply 200 "info" }

abbrev test_claims : Claims ℕ
test_claims = record {
  parse_claims = λ token. ok 1;
  claimed_code_hash = λ claims. ok 8;
  claimed_platform = λ claims. ok 6;
}

decode_info : String → Result SignedTeeInfo
decode_info body = ok test_info

abbrev register_flags : RegisterFlags
register_flags = record {
  addresses_file = "addresses.json";
  node_url = "http://node";
  proxy_url = "http://host";
  host = "";
  external_proxy = "http://ftdc";
  instruction = "";
  command = "ap";
  state_file = "register-tee.state";
  resume = true;
}

abbrev print_hash : Hash → String
print_hash hash = "0xhash"

tool_runs :
    register_tee test_machines tee_world test_library test_crypto test_claims decode_info print_hash
      register_flags known
    ≡ (known, ok tt)
unfolding register_tee register_node default_support tee_info tee_proxy_id get_tee_proxy_id
    get_code_hash_and_platform code_hash_and_platform decode_info mentions load_state save_state
    request_ftdc_availability_check get_ftdc_availability_check_result to_production check_tx
    ℕ_discrete string_eq check_ftdc_proxy_policy_consistency action_result
tool_runs = refl

register_tee_done_example :
    (info : SignedTeeInfo) × (ftdc : Address) × (tee : Address) × (proxy : Address) × (tee_info
        decode_info tee_world "http://host"
      ≡ ok info)
    × (tee_proxy_id test_crypto info ≡ ok (tee, proxy))
    × (tee_world.getenv "SIMULATED_TEE" ≢ "true"
        → code_hash_and_platform test_claims info.attestation ≡ ok (told info))
    × (tee_world.getenv "SIMULATED_TEE" ≡ "true" → told info ≡ (tee_code_hash, test_platform))
    × (test_machines.read_file "register-tee.state" known ≡ missing)
    × (mentions b'p' "ap" ≡ true
        → PromotedAt test_machines (arguments register_flags info ftdc) tee proxy known known)
register_tee_done_example =
    register_tee_done test_machines tee_world test_library test_crypto test_claims decode_info
      print_hash register_flags known known test_removes tool_runs
