-- ===== src/Extension/Outcome.antt =====
-- What a request does to the state and to its answer, on every branch.
use aurelith.Base.{
  ℕ, ◌≡◌, ◌≢◌, ◌⊎◌, inl, inr, refl, String, none, some, List, ok, err, arith, Result-cases,
  string_eq, nat_eq,
}
use aurelith.Base.Text.{◌<>◌}
use aurelith.Extension.{
  State, Wire, Action, DataFixed, ActionResult, Response, SayHelloRequest, SayGoodbyeRequest,
  increment, hello_text, goodbye_text, greet, take_leave, build_result, refused, accepted,
  process_say_hello, process_say_goodbye, process_greeting, process_action, action_handler,
  op_command_say_hello, op_command_say_goodbye,
}

-- An answer that is no success: an HTTP error, or a result of status 0 without data.
abbrev pub IsRefusal : Wire → Response → Type 0
IsRefusal wire r =
    (r.status ≡ 400)
    ⊎ (r.status ≡ 501)
    ⊎ ((a : Action) × (df : DataFixed) × (message : String) × (r
          ≡ accepted wire (refused a df message)))

-- An answer with the data, the status 1 and the log "ok".
abbrev pub IsSuccess : Wire → String → Response → Type 0
IsSuccess wire payload r =
    (a : Action) × (df : DataFixed) × (r ≡ accepted wire (build_result a df (some payload) 1 none))

-- The greeting of a name is recorded and answered, and the farewells are left alone.
abbrev pub IsGreeting : Wire → State → State → Response → Type 0
IsGreeting wire s t r =
    (name : String) × (name ≢ "")
    × (t
        ≡ record s { greeting_count = increment s.greeting_count; last_greeting = hello_text name })
    × IsSuccess wire
        (wire.marshal_hello
          (record { greeting = t.last_greeting; greeting_number = t.greeting_count }))
        r

abbrev pub IsFarewell : Wire → State → State → Response → Type 0
IsFarewell wire s t r =
    (name : String) × (reason : String) × (name ≢ "")
    × (t ≡ record s {
      farewell_count = increment s.farewell_count;
      last_farewell = goodbye_text name reason;
    })
    × IsSuccess wire
        (wire.marshal_goodbye
          (record { farewell = t.last_farewell; farewell_number = t.farewell_count }))
        r

abbrev pub Outcome : Wire → State → State → Response → Type 0
Outcome wire s t r = ((t ≡ s) × IsRefusal wire r) ⊎ IsGreeting wire s t r ⊎ IsFarewell wire s t r

module _ (wire : Wire) (s : State) (a : Action) (df : DataFixed) where
  -- The state and the result of a handler as those of the server.
  abbrev Handled : State × ActionResult → Type 0
  Handled p = Outcome wire s p.0 (accepted wire p.1)

  refused_outcome : (message : String) → Handled (s, refused a df message)
  refused_outcome message = inl (refl, inr (inr (a, df, message, refl)))

  pub say_hello_refused :
      (e : String)
      → wire.decode_hello df.original_message ≡ err e
      → process_say_hello wire a df s ≡ (s, refused a df ("decoding request: " <> e))
  unfolding process_say_hello
  say_hello_refused e h = ground arith

  pub say_hello_blank :
      (req : SayHelloRequest)
      → wire.decode_hello df.original_message ≡ ok req
      → req.name ≡ ""
      → process_say_hello wire a df s ≡ (s, refused a df "name must not be empty")
  unfolding process_say_hello
  say_hello_blank req h blank = ground arith

  pub say_hello_named :
      (req : SayHelloRequest)
      → wire.decode_hello df.original_message ≡ ok req
      → req.name ≢ ""
      → process_say_hello wire a df s
        ≡ ((greet req s).0, build_result a df (some (wire.marshal_hello (greet req s).1)) 1 none)
  unfolding process_say_hello
  say_hello_named req h named = ground arith

  greeting_outcome :
      (req : SayHelloRequest)
      → req.name ≢ ""
      → Handled
          ((greet req s).0, build_result a df (some (wire.marshal_hello (greet req s).1)) 1 none)
  unfolding greet
  greeting_outcome req named = inr (inl (req.name, named, refl, (a, df, refl)))

  say_hello_outcome : Handled (process_say_hello wire a df s)
  say_hello_outcome = elim (Result-cases (wire.decode_hello df.original_message)) [
    | inl (req, e) ↦ elim (string_eq.dec req.name "") [
      | yes blank ↦ rw (say_hello_blank req e blank) (refused_outcome _)
      | no named ↦ rw (say_hello_named req e named) (greeting_outcome req named)
    ]
    | inr (message, e) ↦ rw (say_hello_refused message e) (refused_outcome _)
  ]

  pub say_goodbye_refused :
      (e : String)
      → wire.decode_goodbye df.original_message ≡ err e
      → process_say_goodbye wire a df s ≡ (s, refused a df ("decoding request: " <> e))
  unfolding process_say_goodbye
  say_goodbye_refused e h = ground arith

  pub say_goodbye_blank :
      (req : SayGoodbyeRequest)
      → wire.decode_goodbye df.original_message ≡ ok req
      → req.name ≡ ""
      → process_say_goodbye wire a df s ≡ (s, refused a df "name must not be empty")
  unfolding process_say_goodbye
  say_goodbye_blank req h blank = ground arith

  pub say_goodbye_named :
      (req : SayGoodbyeRequest)
      → wire.decode_goodbye df.original_message ≡ ok req
      → req.name ≢ ""
      → process_say_goodbye wire a df s ≡ (
        (take_leave req s).0,
        build_result a df (some (wire.marshal_goodbye (take_leave req s).1)) 1 none,
      )
  unfolding process_say_goodbye
  say_goodbye_named req h named = ground arith

  farewell_outcome :
      (req : SayGoodbyeRequest)
      → req.name ≢ ""
      → Handled (
        (take_leave req s).0,
        build_result a df (some (wire.marshal_goodbye (take_leave req s).1)) 1 none,
      )
  unfolding take_leave
  farewell_outcome req named = inr (inr (req.name, req.reason, named, refl, (a, df, refl)))

  say_goodbye_outcome : Handled (process_say_goodbye wire a df s)
  say_goodbye_outcome = elim (Result-cases (wire.decode_goodbye df.original_message)) [
    | inl (req, e) ↦ elim (string_eq.dec req.name "") [
      | yes blank ↦ rw (say_goodbye_blank req e blank) (refused_outcome _)
      | no named ↦ rw (say_goodbye_named req e named) (farewell_outcome req named)
    ]
    | inr (message, e) ↦ rw (say_goodbye_refused message e) (refused_outcome _)
  ]

  abbrev Answered : State × Response → Type 0
  Answered p = Outcome wire s p.0 p.1

  process_greeting_outcome : Answered (process_greeting wire a df s)
  unfolding process_greeting
  process_greeting_outcome = elim (nat_eq.dec df.op_command (wire.to_hash op_command_say_hello)) [
    | yes hello ↦ ground (arith, say_hello_outcome)
    | no other ↦ elim (nat_eq.dec df.op_command (wire.to_hash op_command_say_goodbye)) [
      | yes goodbye ↦ ground (arith, say_goodbye_outcome)
      | no unknown ↦ ground arith
    ]
  ]

process_action-Outcome :
    (wire : Wire) (s : State) (a : Action)
    → let (t, r) = process_action wire a s in Outcome wire s t r
unfolding process_action
process_action-Outcome wire s a = elim (Result-cases (wire.parse_data_fixed a.message)) [
  | inl (df, e) ↦ ground (arith, process_greeting_outcome wire s a df)
  | inr (message, e) ↦ ground arith
]

-- Every request has one of three outcomes. It is refused, by a status 400 or 501 or by a result
-- of status 0, and the state is as before. Or a greeting of a name that is not empty is counted
-- and kept, the farewells are as before, and the answer is a success whose data are the kept
-- greeting and the new count. Or the same with a farewell, and the greetings are as before.
pub action_handler-Outcome :
    (wire : Wire) (s : State) (request : List ℕ)
    → let (t, r) = action_handler wire request s in Outcome wire s t r
unfolding action_handler
action_handler-Outcome wire s request = elim (Result-cases (wire.decode_action request)) [
  | inl (a, e) ↦ ground (arith, process_action-Outcome wire s a)
  | inr (message, e) ↦ ground arith
]
