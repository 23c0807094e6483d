-- ===== src/Tests/Server.antt =====
-- The server on small requests, with an encoding that is easy to read.
use mathlib.Core.List.{Perm}
use aurelith.Base.{
  All, false, zero, suc, ℕ, ◌≡◌, ◌≢◌, ◌↔◌, ◌≤◌, refl, none, [], ◌∷◌, List, map, length, Result, ok,
  err, arith, ℕ_discrete, string_eq,
}
use aurelith.Base.Text.{len}
use aurelith.Extension.{
  Action, new, Wire, DataFixed, action_handler, process_action, get_log_from_body, process_greeting,
}
use aurelith.Extension.Outcome.{Outcome, action_handler-Outcome}
use aurelith.Extension.Log.{ReadsBack, action_handler_log}
use aurelith.Extension.Schedule.{System, run, waiting}
use aurelith.Extension.Locked.{run_locked, starting}
use aurelith.Extension.Locked.Refinement.{seen, run_locked-serve_all}
use aurelith.Extension.Locked.Progress.{IsServed}
use aurelith.Extension.Locked.Liveness.{VisitsAll, run_rounds, run_rounds-IsServed}
use aurelith.Extension.Schedule.Numbers.{numbers, down_from, run-numbers}
use aurelith.Extension.Schedule.Atomic.{todo, job_of, serve_all, run-serve_all}

-- A message is its command; the hash of a text is its length.
unfoldable pub parse_message : List ℕ → Result DataFixed
parse_message [] = err "empty message"
parse_message (command ∷ rest) =
    ok (record { op_type = 8; op_command = command; original_message = rest })

abbrev pub test_wire : Wire
test_wire = record {
  to_hash = λ text. len text;
  hash_hex = λ hash. "0xhash";
  decode_action = λ bytes. ok (record { id = 1; submission_tag = "submit"; message = bytes });
  parse_data_fixed = parse_message;
  decode_hello = λ bytes. ok (record { name = "Ada" });
  decode_goodbye = λ bytes. ok (record { name = "Ada"; reason = "night" });
  marshal_hello = λ resp. resp.greeting;
  marshal_goodbye = λ resp. resp.farewell;
  marshal_result = λ ar. ar.log;
  unmarshal_result = λ body. ok (record {
    id = 0;
    submission_tag = "";
    version = "";
    op_type = 0;
    op_command = 0;
    data_ = none;
    status = 0;
    log = body;
  });
}

reads_back : ReadsBack test_wire
reads_back ar = (_, refl, refl)

abbrev hello : List ℕ
hello = 9 ∷ []

abbrev goodbye : List ℕ
goodbye = 11 ∷ []

hello_served : (action_handler test_wire hello new).1.status ≡ 200
unfolding action_handler process_action process_greeting parse_message ℕ_discrete
hello_served = refl

action_handler-Outcome_example :
    let (t, r) = action_handler test_wire goodbye new in Outcome test_wire new t r
action_handler-Outcome_example = action_handler-Outcome test_wire new goodbye

action_handler_log_example :
    let (t, r) = action_handler test_wire hello new in
    (get_log_from_body test_wire r.body ≡ "ok") ↔ (t ≢ new)
action_handler_log_example =
    action_handler_log test_wire reads_back new hello (omega arith) (omega arith) hello_served

abbrev three_actions : List Action
three_actions =
    map (λ bytes. record { id = 1; submission_tag = "submit"; message = bytes })
      (hello ∷ goodbye ∷ hello ∷ [])

abbrev pub interleaved : List ℕ
interleaved = 2 ∷ 0 ∷ 1 ∷ 0 ∷ 2 ∷ 1 ∷ []

abbrev pub three_requests : System
three_requests = record { state = new; requests = map waiting three_actions }

run-numbers_example :
    let sys = run test_wire interleaved three_requests in
    Perm (numbers sys.requests) (down_from sys.state.greeting_count)
    × (sys.state.greeting_count ≤ length three_actions)
run-numbers_example = run-numbers test_wire three_actions interleaved (omega arith)

run-serve_all_example :
    let end = run test_wire interleaved three_requests in
    (end.state, map (job_of test_wire) end.requests)
    ≡ serve_all test_wire interleaved (new, map (job_of test_wire) three_requests.requests)
run-serve_all_example = run-serve_all test_wire interleaved three_requests

-- Requests that wait for the lock of each other.
contended : List ℕ
contended = 0 ∷ 1 ∷ 0 ∷ 1 ∷ 0 ∷ 1 ∷ 2 ∷ []

run_locked-serve_all_example :
    (moments : List ℕ) × (seen test_wire
        (run_locked test_wire contended (starting new three_actions))
      ≡ serve_all test_wire moments (new, map todo three_actions))
run_locked-serve_all_example = run_locked-serve_all test_wire new three_actions contended

rounds : ℕ → List (List ℕ)
rounds zero = []
rounds (suc n) = (2 ∷ 0 ∷ 1 ∷ []) ∷ rounds n

rounds-VisitsAll : (n : ℕ) → All (VisitsAll test_wire 3) (rounds n)
unfolding rounds
rounds-VisitsAll zero = tt
rounds-VisitsAll (suc n) = (λ place small. ground arith, rounds-VisitsAll n)

eighteen : length (rounds 18) ≡ 18
unfolding rounds
eighteen = refl

run_rounds-IsServed_example :
    All IsServed (run_rounds test_wire (rounds 18) (starting new three_actions)).1
    × ((run_rounds test_wire (rounds 18) (starting new three_actions)).0.held ≡ false)
run_rounds-IsServed_example =
    run_rounds-IsServed test_wire new three_actions (rounds 18) (rounds-VisitsAll 18)
      (omega (arith, eighteen))
