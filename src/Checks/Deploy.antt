-- ===== src/Checks/Deploy.antt =====
-- Step 1: `RegisterDeployChecks`, `CheckDeployerKeySource`, `CheckExtensionEnvFormat`,
-- `checkChainID` and `chainName`.
pub mod Frames
pub mod Addresses
pub mod Sound
use aurelith.Base.{
  ℕ, String, Bool, Option, none, some, List, [], ◌∷◌, ◌++◌, ◌||◌, not, Result, ok, err, ◌==◌,
  string_eq, nat_eq, lookup, contains, if◌then◌else◌,
}
use aurelith.Base.Text.{◌<>◌, show_ℕ, quote}
use aurelith.World.{World, Client, Address, missing, unreadable, contents}
use aurelith.Report.{Report, CheckResult, Status, pass, warn, fail, skip, add, add_if}
use aurelith.Validate.{min_deploy_balance, address_not_zero, address_has_code, key_has_funds}
use aurelith.EnvFile.{vars_of, is_address, is_extension_id}
use aurelith.Checks.{result, result_with_fix}

-- The loop `for _, res := range results { r.Add(res) }`.
unfoldable pub add_all : List CheckResult → Report → Report
add_all [] r = r
add_all (res ∷ rest) r = add_all rest (add res r)

-- `chainName`
unfoldable pub chain_name : ℕ → String
chain_name id =
    if id == 31337
    then "Hardhat/Anvil (local devnet)"
    else if id == 114
    then "Coston2 (testnet)"
    else if id == 14
    then "Flare (mainnet)"
    else "unknown network"

-- `checkChainID`
unfoldable pub check_chain_id : Client → CheckResult
unfolding chain_name show_ℕ
check_chain_id client = elim client.chain_id [
  | err e ↦
      result_with_fix "deploy" "D6" "chain ID" fail ("failed to get chain ID: " <> e)
        "Check CHAIN_URL"
  | ok id ↦
      result "deploy" "D6" "chain ID" pass
        ("chain ID " <> show_ℕ id <> " (" <> chain_name id <> ")")
]

-- One of the two entries that `CheckExtensionEnvFormat` looks up in its map.
check_entry : (ℕ → Bool) → String → (String → Bool) → Option String → CheckResult
check_entry is_print key format value =
    let name = key <> " in extension.env" in
    let fix : String = "Delete config/extension.env and re-run scripts/pre-build.sh" in
    elim value [
      | none ↦ result_with_fix "deploy" "D7" name fail (key <> " not found in extension.env") fix
      | some val ↦
          if format val
          then result "deploy" "D7" name pass val
          else result_with_fix "deploy" "D7" name fail
              (key <> " has invalid format: " <> quote is_print val) fix
    ]

module _ (w : World) where
  -- `CheckDeployerKeySource`
  unfoldable pub check_deployer_key_source : CheckResult
  check_deployer_key_source =
      let local_mode = w.getenv "LOCAL_MODE" in
      if w.getenv "DEPLOYMENT_PRIVATE_KEY" == ""
      then (if local_mode == "true" || local_mode == ""
          then result "deploy" "D5" "deployer key source" pass "using Hardhat dev key (LOCAL_MODE)"
          else result_with_fix "deploy" "D5" "deployer key source" warn
              "DEPLOYMENT_PRIVATE_KEY not set — using Hardhat dev key which has no funds on Coston2"
              "Set DEPLOYMENT_PRIVATE_KEY in .env to a funded account on the target network")
      else result "deploy" "D5" "deployer key source" pass "DEPLOYMENT_PRIVATE_KEY is set"

  -- `CheckExtensionEnvFormat`
  unfoldable pub check_extension_env_format : String → List CheckResult
  unfolding check_entry vars_of
  check_extension_env_format path =
      let absent =
        result "deploy" "D7" "extension.env exists" skip ("file not found: " <> path) ∷ [] in
      elim (w.file path) [
        | missing ↦ absent
        | unreadable ↦ absent
        | contents text ↦
            let vars = vars_of text in
            check_entry w.is_print "INSTRUCTION_SENDER" is_address
              (lookup "INSTRUCTION_SENDER" vars)
            ∷ check_entry w.is_print "EXTENSION_ID" is_extension_id (lookup "EXTENSION_ID" vars)
            ∷ []
      ]

  -- D3 for one address.
  check_not_zero : String → Address → CheckResult
  check_not_zero label addr = elim (address_not_zero w addr label) [
    | some e ↦
        result_with_fix "deploy" "D3" (label <> " address not zero") fail e
          "Re-run the deploy script or check deployed-addresses.json"
    | none ↦ result "deploy" "D3" (label <> " address not zero") pass (w.address_hex addr)
  ]

  abbrev mark_zero : String → Address → List String → List String
  mark_zero label addr zero_addrs = elim (address_not_zero w addr label) [
    | some e ↦ label ∷ zero_addrs
    | none ↦ zero_addrs
  ]

  -- The first loop over the addresses, with the map `zeroAddrs` by its keys.
  pub not_zero_loop : List (String × Address) → List String → Report → List String × Report
  not_zero_loop [] zero_addrs r = (zero_addrs, r)
  not_zero_loop ((label, addr) ∷ rest) zero_addrs r =
      not_zero_loop rest (mark_zero label addr zero_addrs) (add (check_not_zero label addr) r)

  -- D1 for one address.
  check_code : Option Client → String → Address → CheckResult
  check_code client label addr = elim (address_has_code w client addr label) [
    | some e ↦
        result_with_fix "deploy" "D1" (label <> " has deployed code") fail e
          "Deploy contracts or check CHAIN_URL / deployed-addresses.json"
    | none ↦
        result "deploy" "D1" (label <> " has deployed code") pass
          ("code found at " <> w.address_hex addr)
  ]

  -- The second loop, which skips the addresses marked by the first.
  pub code_loop : Option Client → List String → List (String × Address) → Report → Report
  code_loop client zero_addrs [] r = r
  code_loop client zero_addrs ((label, addr) ∷ rest) r =
      code_loop client zero_addrs rest
        (add_if (not (contains zero_addrs label)) (check_code client label addr) r)

  -- D5: deployer funds.
  check_funds : Client → ℕ → CheckResult
  check_funds client key = elim (key_has_funds w (some client) key min_deploy_balance) [
    | some e ↦
        result_with_fix "deploy" "D5" "deployer has sufficient funds" fail e
          "Fund the deployer account before deploying"
    | none ↦
        result "deploy" "D5" "deployer has sufficient funds" pass "balance above minimum threshold"
  ]

  add_funds : Option Client → Option ℕ → Report → Report
  add_funds (some client) (some key) r = add (check_funds client key) r
  add_funds _ _ r = r

  add_chain_id : Option Client → Report → Report
  add_chain_id none r = r
  add_chain_id (some client) r = add (check_chain_id client) r

  add_env_format : String → Report → Report
  add_env_format path r = if path == "" then r else add_all (check_extension_env_format path) r

  -- `RegisterDeployChecks`. Go ranges over the map of addresses twice, each time in an order of
  -- its own choice: `first` and `second` are the entries in these two orders.
  unfoldable pub register_deploy_checks :
      Option Client
      → Option ℕ
      → List (String × Address)
      → List (String × Address)
      → String
      → Report
      → Report
  unfolding not_zero_loop code_loop add_funds add_chain_id add_env_format check_not_zero check_code
      check_funds
  register_deploy_checks client key first second path r =
      let (zero_addrs, r₁) = not_zero_loop first [] r in
      let r₂ = code_loop client zero_addrs second r₁ in
      let r₃ = add check_deployer_key_source r₂ in
      add_env_format path (add_chain_id client (add_funds client key r₃))
