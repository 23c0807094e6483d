-- ===== src/Extension/Schedule.antt =====
-- Requests in any interleaving, with the critical section of each as one step; Extension/Locked has the
-- steps of the lock.
pub mod Numbers
pub mod Atomic
use aurelith.Base.{
  ℕ, zero, suc, ◌+◌, ◌<◌, ◌≡◌, ◌⊎◌, inl, inr, refl, String, Option, none, some, List, [], ◌∷◌, ◌++◌,
  arith, length, ◌==◌, string_eq, nat_eq, ok, err, if◌then◌else◌,
}
use aurelith.Base.Text.{◌<>◌}
use aurelith.Extension.{
  State, new, Wire, Action, DataFixed, ActionResult, Response, SayHelloResponse, SayGoodbyeResponse,
  greet, take_leave, build_result, refused, accepted, unsupported_command, unsupported_type,
  undecodable, process_action, op_type_greeting, op_command_say_hello, op_command_say_goodbye,
}

-- A request between its arrival and its answer: it waits for its turn, it has left the critical
-- section with a response, or it is answered, with the greeting number of the answer if it has
-- one.
pub data Request : Type 0 where
  waiting : Action → Request
  greeted : Action → DataFixed → SayHelloResponse → Request
  farewelled : Action → DataFixed → SayGoodbyeResponse → Request
  answered : List ℕ → Response → Request

pub record System : Type 0 where
  pub state : State
  pub requests : List Request

module _ (wire : Wire) where
  unfoldable pub enter_hello : Action → DataFixed → State → State × Request
  enter_hello a df s = elim (wire.decode_hello df.original_message) [
    | err e ↦ (s, answered [] (accepted wire (refused a df ("decoding request: " <> e))))
    | ok req ↦
        if req.name == ""
        then (s, answered [] (accepted wire (refused a df "name must not be empty")))
        else let (t, resp) = greet req s in (t, greeted a df resp)
  ]

  unfoldable pub enter_goodbye : Action → DataFixed → State → State × Request
  enter_goodbye a df s = elim (wire.decode_goodbye df.original_message) [
    | err e ↦ (s, answered [] (accepted wire (refused a df ("decoding request: " <> e))))
    | ok req ↦
        if req.name == ""
        then (s, answered [] (accepted wire (refused a df "name must not be empty")))
        else let (t, resp) = take_leave req s in (t, farewelled a df resp)
  ]

  -- `processAction` up to the end of its critical section, or to the end where it has none.
  unfoldable pub enter : Action → State → State × Request
  unfolding enter_hello enter_goodbye
  enter a s = elim (wire.parse_data_fixed a.message) [
    | err e ↦ (s, answered [] (undecodable wire e))
    | ok df ↦
        if df.op_type == wire.to_hash op_type_greeting
        then if df.op_command == wire.to_hash op_command_say_hello
          then enter_hello a df s
          else if df.op_command == wire.to_hash op_command_say_goodbye
          then enter_goodbye a df s
          else (s, answered [] (unsupported_command wire df))
        else (s, answered [] (unsupported_type wire df))
  ]

  -- The next step of one request.
  unfoldable pub step_request : Request → State → State × Request
  unfolding enter
  step_request (waiting a) s = enter a s
  step_request (greeted a df resp) s = (
    s,
    answered (resp.greeting_number ∷ [])
        (accepted wire (build_result a df (some (wire.marshal_hello resp)) 1 none)),
  )
  step_request (farewelled a df resp) s =
      (s, answered [] (accepted wire (build_result a df (some (wire.marshal_goodbye resp)) 1 none)))
  step_request (answered numbers r) s = (s, answered numbers r)

  -- The step of the request at a place; no step where there is none.
  unfoldable pub step_at : ℕ → State → List Request → State × List Request
  step_at i s [] = (s, [])
  step_at zero s (q ∷ qs) = let (t, p) = step_request q s in (t, p ∷ qs)
  step_at (suc i) s (q ∷ qs) = let (t, ps) = step_at i s qs in (t, q ∷ ps)

  -- The scheduler's choices, one place a step.
  unfoldable pub run : List ℕ → System → System
  unfolding step_at step_request
  run [] sys = sys
  run (i ∷ is) sys =
      let (t, ps) = step_at i sys.state sys.requests in run is (record { state = t; requests = ps })
