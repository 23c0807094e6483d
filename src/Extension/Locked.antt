-- ===== src/Extension/Locked.antt =====
-- The handlers of `extension.go` with the lock `e.mu`: a request that asks for a lock that is held
-- stays where it is.
pub mod Exclusion
pub mod Progress
pub mod Liveness
pub mod Decoding
pub mod Refinement
use aurelith.Base.{
  ℕ, zero, suc, ◌+◌, String, Bool, true, false, none, some, List, [], ◌∷◌, ◌++◌, map, ok, err, ◌==◌,
  string_eq, nat_eq, if◌then◌else◌,
}
use aurelith.Base.Text.{◌<>◌}
use aurelith.Extension.{
  State, Wire, Action, DataFixed, Response, SayHelloRequest, SayGoodbyeRequest, SayHelloResponse,
  SayGoodbyeResponse, increment, hello_text, goodbye_text, build_result, refused, accepted,
  unsupported_command, unsupported_type, undecodable, op_type_greeting, op_command_say_hello,
  op_command_say_goodbye,
}

-- What a request does under the lock.
pub data Task : Type 0 where
  greets : SayHelloRequest → Task
  parts : SayGoodbyeRequest → Task

-- Where a request is: before it is decoded; at `e.mu.Lock()`; under the lock before the counter,
-- with its new number before the text, and at `e.mu.Unlock()`; before it builds its result;
-- answered.
pub data Phase : Type 0 where
  arrived : Action → Phase
  locking : Action → DataFixed → Task → Phase
  counting : Action → DataFixed → Task → Phase
  noting : Action → DataFixed → Task → ℕ → Phase
  unlocking : Action → DataFixed → Task → ℕ → String → Phase
  building : Action → DataFixed → Task → ℕ → String → Phase
  served : Response → Phase

-- The fields of `Extension`, with the lock.
pub record Shared : Type 0 where
  pub state : State
  pub held : Bool

-- The counter of a job, its text, and the fields that they are kept in.
abbrev pub counted : Task → State → ℕ
counted (greets req) s = increment s.greeting_count
counted (parts req) s = increment s.farewell_count

abbrev pub count_up : Task → State → State
count_up (greets req) s = record s { greeting_count = increment s.greeting_count }
count_up (parts req) s = record s { farewell_count = increment s.farewell_count }

abbrev pub job_text : Task → String
job_text (greets req) = hello_text req.name
job_text (parts req) = goodbye_text req.name req.reason

abbrev pub note_text : Task → State → State
note_text (greets req) s = record s { last_greeting = hello_text req.name }
note_text (parts req) s = record s { last_farewell = goodbye_text req.name req.reason }

module _ (wire : Wire) where
  prepare_hello : Action → DataFixed → Phase
  prepare_hello a df = elim (wire.decode_hello df.original_message) [
    | err e ↦ served (accepted wire (refused a df ("decoding request: " <> e)))
    | ok req ↦
        if req.name == ""
        then served (accepted wire (refused a df "name must not be empty"))
        else locking a df (greets req)
  ]

  prepare_goodbye : Action → DataFixed → Phase
  prepare_goodbye a df = elim (wire.decode_goodbye df.original_message) [
    | err e ↦ served (accepted wire (refused a df ("decoding request: " <> e)))
    | ok req ↦
        if req.name == ""
        then served (accepted wire (refused a df "name must not be empty"))
        else locking a df (parts req)
  ]

  -- `processAction` up to its call of `Lock`, or to its end where it has none.
  unfoldable pub prepare : Action → Phase
  unfolding prepare_hello prepare_goodbye
  prepare a = elim (wire.parse_data_fixed a.message) [
    | err e ↦ served (undecodable wire e)
    | ok df ↦
        if df.op_type == wire.to_hash op_type_greeting
        then if df.op_command == wire.to_hash op_command_say_hello
          then prepare_hello a df
          else if df.op_command == wire.to_hash op_command_say_goodbye
          then prepare_goodbye a df
          else served (unsupported_command wire df)
        else served (unsupported_type wire df)
  ]

  -- The answer, after the lock has been given back.
  unfoldable pub answer : Action → DataFixed → Task → ℕ → String → Response
  answer a df (greets req) number text =
      let resp : SayHelloResponse = record { greeting = text; greeting_number = number } in
      accepted wire (build_result a df (some (wire.marshal_hello resp)) 1 none)
  answer a df (parts req) number text =
      let resp : SayGoodbyeResponse = record { farewell = text; farewell_number = number } in
      accepted wire (build_result a df (some (wire.marshal_goodbye resp)) 1 none)

  -- The next step of a request. `Lock` waits while the lock is held.
  unfoldable pub step_phase : Phase → Shared → Shared × Phase
  unfolding prepare answer
  step_phase (arrived a) sh = (sh, prepare a)
  step_phase (locking a df job) sh =
      if sh.held then (sh, locking a df job) else (record sh { held = true }, counting a df job)
  step_phase (counting a df job) sh =
      (record sh { state = count_up job sh.state }, noting a df job (counted job sh.state))
  step_phase (noting a df job number) sh =
      (record sh { state = note_text job sh.state }, unlocking a df job number (job_text job))
  step_phase (unlocking a df job number text) sh =
      (record sh { held = false }, building a df job number text)
  step_phase (building a df job number text) sh = (sh, served (answer a df job number text))
  step_phase (served r) sh = (sh, served r)

  -- The step of the request at a place; no step where there is none.
  unfoldable pub step_place : ℕ → Shared → List Phase → Shared × List Phase
  step_place i sh [] = (sh, [])
  step_place zero sh (q ∷ qs) = let (t, p) = step_phase q sh in (t, p ∷ qs)
  step_place (suc i) sh (q ∷ qs) = let (t, ps) = step_place i sh qs in (t, q ∷ ps)

  -- The turns that a scheduler gives, one place a turn.
  unfoldable pub run_locked : List ℕ → Shared × List Phase → Shared × List Phase
  unfolding step_place step_phase
  run_locked [] sys = sys
  run_locked (i ∷ is) (sh, qs) = run_locked is (step_place i sh qs)

-- Requests that have come to a server whose lock is free.
abbrev pub starting : State → List Action → Shared × List Phase
starting s actions = (record { state = s; held = false }, map arrived actions)
