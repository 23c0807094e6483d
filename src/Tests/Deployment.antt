-- ===== src/Tests/Deployment.antt =====
-- The checks on a deployment that is in order, and on some that are not.
use aurelith.Base.{
  ℕ, ap, sym, ◌∙◌, ◌≡◌, ◌≢◌, ◌↔◌, ◌⊎◌, refl, false, true, not, ◌&&◌, ◌||◌, some, [], ◌∷◌, List,
  String, ℕ_discrete, string_eq, arith, All, ok, ◌==◌,
}
use text.Mathlib.TextEquality.{eq_iff}
use aurelith.Base.Text.{is_space, parse_hex}
use aurelith.Report.{empty_report, Status-discrete, has_failures, add, add_if, warn, pass}
use aurelith.World.{zero_address, Client, contents, Address}
use aurelith.Validate.{address_not_zero, address_has_code, key_has_funds, min_deploy_balance}
use aurelith.Validate.Laws.{HasCode, HasFunds}
use aurelith.EnvFile.{
  pair_of, pre_build_env, parse_extension_env, vars_of, is_address, is_extension_id, drop_two,
}
use aurelith.Base.{lookup}
use aurelith.EnvFile.Agreement.{pair_of-lookup, value_or_empty}
use aurelith.EnvFile.RoundTrip.{pair_of-pre_build_env}
use aurelith.Checks.Deploy.{
  register_deploy_checks, check_chain_id, check_deployer_key_source, check_extension_env_format,
  add_all,
}
use aurelith.Checks.Deploy.Sound.{register_deploy_checks_sound, EnvIsValid}
use aurelith.Checks.Register.{register_registration_checks, check_unique_sender}
use aurelith.Checks.Register.Sound.{register_registration_checks_sound, IsRegistered}
use aurelith.Checks.Register.Unique.{check_unique_sender_status, IsShared}
use aurelith.Checks.Services.{register_services_checks}
use aurelith.Checks.Outcomes.{services_fails}
use aurelith.Tests.{
  test_world, test_client, test_registry, test_allowlist, env_text, test_id, test_sender,
}

abbrev env_path : String
env_path = "extension.env"

abbrev missing_path : String
missing_path = "missing.env"

abbrev test_addresses : List (String × Address)
test_addresses = ("FlareTeeManager", 7) ∷ []

deploy_ok :
    has_failures (
      register_deploy_checks test_world
        (some test_client)
        (some 5)
        test_addresses
        test_addresses
        env_path
        empty_report)
    ≡ false
unfolding Status-discrete has_failures register_deploy_checks address_not_zero address_has_code
    key_has_funds check_chain_id check_deployer_key_source check_extension_env_format add_all add
    add_if ℕ_discrete string_eq vars_of is_address is_extension_id is_space
deploy_ok = refl

register_deploy_checks_sound_example :
    All (λ e. e.1 ≢ zero_address) test_addresses
    × All (λ e. HasCode (some test_client) e.1) test_addresses
    × ((c : Client) (k : ℕ)
        → some test_client ≡ some c
        → some 5 ≡ some k
        → HasFunds test_world (some test_client) k min_deploy_balance)
    × ((c : Client) → some test_client ≡ some c → (id : ℕ) × (c.chain_id ≡ ok id))
    × ((text : String) → env_path ≢ "" → test_world.file env_path ≡ contents text → EnvIsValid text)
register_deploy_checks_sound_example =
    register_deploy_checks_sound test_world (some test_client) (some 5) test_addresses
      test_addresses env_path empty_report deploy_ok

path_given : env_path ≢ ""
path_given = ground (arith, eq_iff "extension.env" "")

env_read : parse_extension_env test_world env_path ≡ (test_id, test_sender)
unfolding parse_extension_env string_eq ℕ_discrete is_space
env_read = refl

first_differs : test_id ≢ ""
first_differs = ground (arith, eq_iff test_id "")

env_found : parse_extension_env test_world env_path ≢ ("", "")
env_found h = first_differs (ap (λ p. p.0) (sym env_read ∙ h))

register_ok :
    has_failures (
      register_registration_checks test_world 3
        (some test_client)
        (some 5)
        (some test_registry)
        (some test_allowlist)
        env_path
        empty_report)
    ≡ false
unfolding Status-discrete has_failures register_registration_checks check_unique_sender add add_if
    ℕ_discrete string_eq parse_extension_env is_address is_extension_id is_space
register_ok = refl

register_registration_checks_sound_example :
    let (ext_id, sender) = parse_extension_env test_world env_path in
    (is_extension_id ext_id ≡ true)
    × IsRegistered test_world 3 (parse_hex (drop_two ext_id)) sender test_registry test_allowlist 5
register_registration_checks_sound_example =
    register_registration_checks_sound test_world 3 test_client 5 test_registry test_allowlist
      env_path empty_report path_given env_found register_ok

check_unique_sender_status_example :
    let status = (check_unique_sender (λ id. ok 178) 178 test_sender 2).status in
    ((status ≡ warn) ↔ IsShared (λ id. ok 178) 178 2) × ((status ≡ warn) ⊎ (status ≡ pass))
check_unique_sender_status_example =
    check_unique_sender_status (λ id. ok 178) 178 test_sender 2 (omega arith)

services_fails_example :
    has_failures (register_services_checks test_world missing_path empty_report) ≡ (
      has_failures empty_report
      || (not (missing_path == "")
          && not (is_extension_id (parse_extension_env test_world missing_path).0)))
services_fails_example = services_fails test_world missing_path empty_report

test_id_ok : is_extension_id test_id ≡ true
unfolding is_extension_id ℕ_discrete
test_id_ok = refl

test_sender_ok : is_address test_sender ≡ true
unfolding is_address ℕ_discrete
test_sender_ok = refl

pair_of-pre_build_env_example : pair_of (pre_build_env test_id test_sender) ≡ (test_id, test_sender)
pair_of-pre_build_env_example = pair_of-pre_build_env test_id test_sender test_id_ok test_sender_ok

pair_of-lookup_example : pair_of env_text ≡ (
  value_or_empty (lookup "EXTENSION_ID" (vars_of env_text)),
  value_or_empty (lookup "INSTRUCTION_SENDER" (vars_of env_text)),
)
pair_of-lookup_example = pair_of-lookup env_text
