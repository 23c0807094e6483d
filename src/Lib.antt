-- ===== src/Lib.antt =====
-- Verification of the Go code of the Flare Confidential Compute extension of AURELITH, which lies
-- under `fcc-extension/` of the repository.
--
-- The program. The extension is an HTTP server beside a trusted execution environment (TEE): it
-- takes signed actions, greets or takes leave, and reports its state. Tools deploy it: they
-- register the extension and its machines with contracts on a Flare chain, set the governance of
-- the machines, and verify a deployment step by step. `fcc-extension/scripts/pre-build.sh` writes
-- the id of the extension and the address of its instruction sender to `config/extension.env`,
-- which the verification reads.
--
-- The files.
--   Base            Go's conditionals and equality, results of fallible calls, lists, and the
--                   calls of `strings`, `strconv` and `encoding/hex` that the program makes.
--   World           the outside as one value: the environment, files, HTTP, the chain's client
--                   and the contract bindings. An `error` is its text. Two equal calls in one
--                   run get one answer.
--   Report          fcc-extension/tools/pkg/validate/report.go. `Report.Add` is `add`,
--                   `HasFailures` is `has_failures`, `Summary` is `summary` on `tally`, `Fprint`
--                   is `fprint`. Report/Counts, Report/Groups and Report/Extend hold its laws.
--   Validate        fcc-extension/tools/pkg/validate/validate.go.
--   EnvFile         `parseExtensionEnv` (`parse_extension_env`), the parser within
--                   `CheckExtensionEnvFormat` (`vars_of`), the two regular expressions
--                   (`is_address`, `is_extension_id`) and the text that pre-build.sh writes.
--   Checks          fcc-extension/tools/pkg/validate/checks.go, a file per step: Deploy,
--                   Register, Services, TeeVersion, TeeMachine, Testing. `RegisterDeployChecks`
--                   is `register_deploy_checks` and so on. A function that adds to a `*Report`
--                   is a function from reports to reports.
--   VerifyDeploy    fcc-extension/tools/cmd/verify-deploy/main.go: the step, the filter, the
--                   exit status.
--   Extension       fcc-extension/go/internal/extension and fcc-extension/go/pkg/types: the
--                   handlers, `processAction` (`process_action`) and below, with the fields
--                   under the lock as `State`. Extension/Schedule has the requests in any
--                   interleaving: the part of a request up to the end of its critical section is
--                   one step (`enter`), the rest is another, and a schedule is a list of the
--                   places of requests. The specification, a server that serves each request in
--                   one step, is in Extension/Schedule/Atomic.
--                   Extension/Locked has the handlers with the lock `e.mu`: taking it, each of the
--                   two writes under it and giving it back are steps of their own, and a request
--                   that asks for a lock that is held stays where it is; its specification is
--                   the same server as that of Extension/Schedule. The lock of
--                   `stateHandler` for reading is left out.
--   Policy          fcc-extension/tools/pkg/fccutils/policy_consistency.go.
--   Governance      fcc-extension/tools/pkg/fccutils/governance.go and the parsing in
--                   fcc-extension/tools/cmd/set-governance/main.go, on an abstract chain.
--   Revert          fcc-extension/tools/pkg/fccutils/revert.go; an error of a call is its text
--                   and its data.
--   TeeCalls        `ActionResult` and `TeeInfo` of
--                   fcc-extension/tools/pkg/fccutils/tee_calls.go, and `GetCodeHashAndPlatform`
--                   of common.go. The answers to the attempts of the polling are a function of
--                   the attempt's number. TeeCalls/Identity has `TeeProxyId` and
--                   `CodeHashAndPlatform`.
--   Chain           `CheckTx` of fcc-extension/tools/pkg/support/support.go and what it calls: a
--                   call that may err takes and returns the chain. Chain/Support has
--                   `DefaultSupport` and fcc-extension/tools/pkg/configs/configs.go,
--                   Chain/Steps the laws of chained calls.
--   Setup           fcc-extension/tools/pkg/fccutils/extension.go: `SetupExtension` is
--                   `setup_extension`.
--   Registration    fcc-extension/tools/pkg/fccutils/registration.go: the state file
--                   (`load_state`, `save_state`); in Registration/Calls the calls of the steps;
--                   in Registration/Flow `RegisterNode` (`register_node`) with a function per
--                   step; in Registration/Tool fcc-extension/tools/cmd/register-tee/main.go.
--   Versions        `AddTeeVersion` and `StringToBytes32` of registration.go, and
--                   fcc-extension/tools/cmd/allow-tee-version/main.go.
--   Instructions    fcc-extension/tools/pkg/utils/instructions.go.
--   RunTest         fcc-extension/tools/cmd/run-test/main.go; RunTest/Laws and RunTest/Farewell
--                   compose it with the handlers of Extension.
--   Tools           fcc-extension/tools/cmd/register-extension/main.go and
--                   fcc-extension/tools/cmd/deploy-contract/main.go.
--   Diagnosis       fcc-extension/tools/pkg/fccutils/diag.go, and the replay of `addTeeVersion`
--                   and the status of an address in
--                   fcc-extension/tools/cmd/audit-deploy/main.go. What the code logs is a value
--                   of `Diagnosis`.
--   Ports           the ports of fcc-extension/go/internal/config/config.go and of
--                   fcc-extension/go/cmd/docker/main.go, the environment of
--                   fcc-extension/go/cmd/start-tee/main.go, and the search for a configuration
--                   in fcc-extension/tools/cmd/start-proxy/main.go.
--   Tests           the theorems at concrete inputs.
--
-- The components interact so: VerifyDeploy runs Checks, which read files by EnvFile, call
-- Validate and write to Report. Governance, Setup, Versions, Instructions and Registration send
-- transactions and wait for them by Chain; Registration asks Policy and TeeCalls, Instructions
-- decodes errors by Revert, Tools calls Setup and Instructions, and RunTest sends by Instructions
-- and polls by TeeCalls. Extension runs beside the tools; what it answers is what RunTest judges.
--
-- What the tools reach outside is a parameter, a record of functions on a state `C` that stands
-- for the chain and the disk: `Node` (a client of the chain), `Machines` (the contracts of the
-- machines, the proxies and the state file), `Senders` (the instruction sender), `Versions` (the
-- registry of versions), `Library` and `Crypto` (keys, addresses, signatures, hashes) and `Proxy`
-- (the proxy of the end-to-end test). No law is assumed of them but those that a theorem names.
--
-- Numbers. A `*big.Int`, an address and a hash are natural numbers; `int` and `uint64` wrap
-- around where the code computes with them (`increment`, `policy_in_sync`, `rounds`, `show_int`).
-- Loops are by structural recursion. Only the printing of a number has fuel, one more than the
-- number, and each of its rounds divides by ten.
--
-- Not modelled. Timeouts and sleeping (a call that times out is a call that errs), the closing of
-- connections, log lines, the encoders of JSON and of ABI values (parameters), signatures and
-- hashes (parameters), the parsing of flags, and text that is not valid UTF-8. Of the Go code,
-- query-tee and the rest of audit-deploy print the answers of queries, and start-tee, start-proxy
-- and the entry points of the server start processes, wait for signals and serve sockets; none of
-- that is modelled. Nor is code in other languages.
pub mod Base
pub mod World
pub mod Report
pub mod EnvFile
pub mod Validate
pub mod Chain
pub mod Checks
pub mod VerifyDeploy
pub mod Extension
pub mod Policy
pub mod Governance
pub mod Tests
pub mod Revert
pub mod TeeCalls
pub mod Setup
pub mod Registration
pub mod Versions
pub mod Instructions
pub mod RunTest
pub mod Tools
pub mod Ports
pub mod Diagnosis
