-- ===== src/Tests.antt =====
-- The theorems at concrete inputs.
mod Chains
mod Deployment
mod Node
mod Reporting
mod Server
mod Settings
mod Setup
mod Disk
mod Machines
mod Instructing
mod EndToEnd
mod Entry
use aurelith.Base.{
  String, true, false, Option, some, none, List, [], ◌∷◌, ok, err, ◌==◌, string_eq, if◌then◌else◌,
}
use aurelith.World.{World, Client, Registry, Allowlist, missing, contents, failed}
use aurelith.Report.{Report, CheckResult, fail}

abbrev pub test_id : String
test_id = "0x000000000000000000000000000000000000000000000000000000000000a001"

abbrev pub test_sender : String
test_sender = "0x00000000000000000000000000000000000000b2"

abbrev pub env_text : String
env_text =
    "# Auto-generated by pre-build.sh — do not edit manually\nEXTENSION_ID=0x000000000000000000000000000000000000000000000000000000000000a001\nINSTRUCTION_SENDER=0x00000000000000000000000000000000000000b2\n"

-- A machine with one file, no environment and no network.
abbrev pub test_world : World
test_world = record {
  getenv = λ name. "";
  file = λ path. if path == "extension.env" then contents env_text else missing;
  http_get = λ url. failed "no network";
  dial = λ address. false;
  is_print = λ c. true;
  pubkey_to_address = λ key. key;
  hex_to_address = λ text. 178;
  address_hex = λ a. "0xaddress";
}

-- A chain on which extension 40961 is registered.
abbrev pub test_client : Client
test_client = record {
  code_at = λ a. ok (96 ∷ []);
  balance_at = λ a. ok 10_000_000_000_000_000;
  chain_id = ok 114;
}

abbrev pub test_registry : Registry
test_registry = record {
  next_public_extension_id = ok 2;
  instructions_sender = λ id. ok 178;
  is_key_type_supported = λ id type. ok true;
}

abbrev pub test_allowlist : Allowlist
test_allowlist = record { is_allowed_tee_machine_owner = λ id owner. ok true }

abbrev pub one_result : String → CheckResult
one_result step = record {
  step = step;
  id = "D1";
  name = "code";
  status = fail;
  message = "none";
  fix = "";
}

abbrev pub two_results : Report
two_results = record { results = one_result "deploy" ∷ one_result "test" ∷ [] }
