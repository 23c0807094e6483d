-- ===== src/Report.antt =====
-- `fcc-extension/tools/pkg/validate/report.go`: the outcomes of the deployment checks, counted and printed.
pub mod Counts
pub mod Groups
pub mod Extend
use aurelith.Base.{
  ℕ, ◌+◌, String, Bool, true, false, ◌||◌, List, [], ◌∷◌, ◌++◌, map, ◌==◌, string_eq, Eq, contains,
  if◌then◌else◌,
}
use aurelith.Base.Text.{◌<>◌, show_ℕ, trim_space}

pub data Status : Type 0 where
  pass warn fail skip : Status

unfoldable pub Status-discrete : Discrete Status
Status-discrete = hlevel

instance abbrev pub status_eq : Eq Status
status_eq = record { dec = Status-discrete }

-- `Status.String`
unfoldable pub status_text : Status → String
status_text pass = "PASS"
status_text warn = "WARN"
status_text fail = "FAIL"
status_text skip = "SKIP"

pub record CheckResult : Type 0 where
  pub step : String
  pub id : String
  pub name : String
  pub status : Status
  pub message : String
  pub fix : String

pub record Report : Type 0 where
  pub results : List CheckResult

abbrev pub empty_report : Report
empty_report = record { results = [] }

-- `Report.Add`
unfoldable pub add : CheckResult → Report → Report
add result r = record r { results = r.results ++ result ∷ [] }

-- `if b { r.Add(result) }`
unfoldable pub add_if : Bool → CheckResult → Report → Report
add_if true result r = add result r
add_if false result r = r

pub any_failed : List CheckResult → Bool
any_failed [] = false
any_failed (res ∷ rest) = let more = any_failed rest in if res.status == fail then true else more

-- `Report.HasFailures`
unfoldable pub has_failures : Report → Bool
unfolding any_failed
has_failures r = any_failed r.results

-- The four counters of `Summary`.
pub record Tally : Type 0 where
  pub passed : ℕ
  pub warning : ℕ
  pub failed : ℕ
  pub skipped : ℕ

bump : Status → Tally → Tally
bump pass t = record t { passed = t.passed + 1 }
bump warn t = record t { warning = t.warning + 1 }
bump fail t = record t { failed = t.failed + 1 }
bump skip t = record t { skipped = t.skipped + 1 }

tally_from : Tally → List CheckResult → Tally
tally_from t [] = t
tally_from t (res ∷ rest) = tally_from (bump res.status t) rest

-- The loop of `Summary`.
unfoldable pub tally : Report → Tally
unfolding tally_from bump
tally r = tally_from (record { passed = 0; warning = 0; failed = 0; skipped = 0 }) r.results

-- `Report.Summary`
unfoldable pub summary : Report → String
unfolding tally show_ℕ
summary r =
    let t = tally r in
    show_ℕ t.passed
    <> " passed, "
    <> show_ℕ t.warning
    <> " warning, "
    <> show_ℕ t.failed
    <> " failed, "
    <> show_ℕ t.skipped
    <> " skipped"

abbrev color_reset : String
color_reset = "\u{1b}[0m"

abbrev color_cyan : String
color_cyan = "\u{1b}[36m"

-- `statusColor`
status_color : Status → String
status_color pass = "\u{1b}[32m"
status_color warn = "\u{1b}[33m"
status_color fail = "\u{1b}[31m"
status_color skip = "\u{1b}[90m"

-- The map `stepLabel`; an absent key reads as the empty text.
unfoldable pub step_label : String → String
step_label step =
    if step == "deploy"
    then "Contract Deployment"
    else if step == "register"
    then "Extension Registration"
    else if step == "services"
    then "Service Startup"
    else if step == "tee-version"
    then "TEE Version Registration"
    else if step == "tee-machine"
    then "TEE Machine Registration"
    else if step == "test"
    then "Testing"
    else ""

abbrev pub note_step : List String → String → List String
note_step steps step = if contains steps step then steps else steps ++ step ∷ []

-- The first loop of `Fprint`; the map `seen` holds what `steps` holds.
steps_from : List String → List CheckResult → List String
steps_from steps [] = steps
steps_from steps (res ∷ rest) = steps_from (note_step steps res.step) rest

unfoldable pub steps : Report → List String
unfolding steps_from
steps r = steps_from [] r.results

abbrev line_unless_empty : String → String → String
line_unless_empty prefix text = if text == "" then "" else "         " <> prefix <> text <> "\n"

-- The lines of one result.
unfoldable pub print_result : CheckResult → String
unfolding status_color status_text
print_result res =
    "  "
    <> status_color res.status
    <> "["
    <> status_text res.status
    <> "]"
    <> color_reset
    <> " "
    <> res.id
    <> "  "
    <> res.name
    <> "\n"
    <> (if res.status == fail || res.status == warn
        then line_unless_empty "" res.message <> line_unless_empty "Fix: " res.fix
        else "")

-- The inner loop of `Fprint`: the results of one step.
unfoldable pub print_step : String → List CheckResult → String
print_step step [] = ""
print_step step (res ∷ rest) =
    let more = print_step step rest in if res.step == step then print_result res <> more else more

print_steps : List String → Report → String
unfolding print_step step_label
print_steps [] r = ""
print_steps (step ∷ rest) r =
    (if step_label step == "" then step else step_label step)
    <> ":\n"
    <> print_step step r.results
    <> "\n"
    <> print_steps rest r

-- `Report.Fprint`: the text written.
unfoldable pub fprint : Report → String
unfolding print_steps print_result steps summary
fprint r =
    "\n"
    <> color_cyan
    <> "=== Deployment Verification Report ==="
    <> color_reset
    <> "\n\n"
    <> print_steps (steps r) r
    <> summary r
    <> "\n"

pub record JsonResult : Type 0 where
  pub step : String
  pub id : String
  pub name : String
  pub status : String
  pub message : String
  pub fix : String

pub record JsonReport : Type 0 where
  pub results : List JsonResult
  pub summary : String

abbrev json_result : CheckResult → JsonResult
json_result res = record {
  step = res.step;
  id = res.id;
  name = res.name;
  status = status_text res.status;
  message = trim_space res.message;
  fix = trim_space res.fix;
}

-- The value that `FprintJSON` hands to the encoder.
unfoldable pub json_report : Report → JsonReport
unfolding status_text summary trim_space
json_report r = record { results = map json_result r.results; summary = summary r }
