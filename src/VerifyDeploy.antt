-- ===== src/VerifyDeploy.antt =====
-- `fcc-extension/tools/cmd/verify-deploy/main.go`: chooses the checks of a step, filters the results by id,
-- prints them and exits. What `support.DefaultSupport` returns is an argument.
pub mod Frames
pub mod Filter
use aurelith.Base.{
  ℕ, String, Bool, not, Option, none, some, List, [], ◌∷◌, Result, ok, err, ◌==◌, string_eq,
  contains, select, map, if◌then◌else◌,
}
use aurelith.Base.Text.{◌<>◌, split, trim_space, quote}
use aurelith.World.{World, Client, Registry, Allowlist, Address, Hash}
use aurelith.Report.{
  Report, CheckResult, empty_report, has_failures, fprint, JsonReport, json_report,
}
use aurelith.Checks.Deploy.{register_deploy_checks}
use aurelith.Checks.Register.{register_registration_checks}
use aurelith.Checks.Services.{register_services_checks}
use aurelith.Checks.TeeVersion.{register_tee_version_checks}
use aurelith.Checks.TeeMachine.{register_tee_machine_checks}
use aurelith.Checks.Testing.{register_test_checks}

-- The flags `-config`, `-step`, `-checks` and `-json`.
pub record Flags : Type 0 where
  pub config : String
  pub step : String
  pub checks : String
  pub json : Bool

-- The fields of `support.Support` that the checks use.
pub record Support : Type 0 where
  pub client : Client
  pub key : ℕ
  pub registry : Registry
  pub allowlist : Allowlist
  pub flare_tee_manager : Address

pub data Output : Type 0 where
  -- the error of `DefaultSupport`, with its hints, on stderr
  no_support : String → Output
  unknown_step : String → Output
  terminal : String → Output
  json : JsonReport → Output

pub record Exit : Type 0 where
  pub status : ℕ
  pub output : Output

module _ (w : World) (evm_type : Hash) where
  -- The map of addresses, which has one entry.
  abbrev pub addresses : Support → List (String × Address)
  addresses s = ("FlareTeeManager", s.flare_tee_manager) ∷ []

  unfoldable pub deploy_step : Support → String → Report → Report
  deploy_step s config =
      register_deploy_checks w (some s.client) (some s.key) (addresses s) (addresses s) config

  unfoldable pub register_step : Support → String → Report → Report
  register_step s config =
      register_registration_checks w evm_type (some s.client) (some s.key) (some s.registry)
        (some s.allowlist) config

  -- `case "all"`
  unfoldable pub all_steps : Support → String → Report → Report
  all_steps s config r = register_test_checks w config (
      register_tee_machine_checks w config (
        register_tee_version_checks w config
          (register_services_checks w config (register_step s config (deploy_step s config r)))))

  -- `case "deploy", "register", "all"` once the support is there.
  chain_step : Support → String → String → Report
  chain_step s step config =
      if step == "deploy"
      then deploy_step s config empty_report
      else if step == "register"
      then register_step s config empty_report
      else all_steps s config empty_report

-- The set `allowed`, by its elements.
unfoldable pub allowed_ids : String → List String
allowed_ids filter = select (λ id. not (id == "")) (map trim_space (split b',' filter))

-- The filter of `-checks`.
unfoldable pub filter_report : String → Report → Report
unfolding allowed_ids
filter_report filter r =
    if filter == ""
    then r
    else record r { results = select (λ res. contains (allowed_ids filter) res.id) r.results }

-- Printing and the exit status.
unfoldable pub finish : Flags → Report → Exit
unfolding filter_report
finish f r =
    let shown = filter_report f.checks r in
    record {
      status = if has_failures shown then 1 else 0;
      output = if f.json then json (json_report shown) else terminal (fprint shown);
    }

module _ (w : World) (evm_type : Hash) where
  run_chain_step : Result Support → Flags → Exit
  run_chain_step (err e) f = record { status = 1; output = no_support e }
  run_chain_step (ok s) f = finish f (chain_step w evm_type s f.step f.config)

  -- `main`
  unfoldable pub verify_deploy : Result Support → Flags → Exit
  unfolding run_chain_step chain_step finish
  verify_deploy support f =
      if f.step == "deploy"
      then run_chain_step support f
      else if f.step == "register"
      then run_chain_step support f
      else if f.step == "all"
      then run_chain_step support f
      else if f.step == "services"
      then finish f (register_services_checks w f.config empty_report)
      else if f.step == "tee-version"
      then finish f (register_tee_version_checks w f.config empty_report)
      else if f.step == "tee-machine"
      then finish f (register_tee_machine_checks w f.config empty_report)
      else if f.step == "test"
      then finish f (register_test_checks w f.config empty_report)
      else record { status = 1; output = unknown_step (quote w.is_print f.step) }
