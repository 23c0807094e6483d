-- ===== src/Extension.antt =====
-- `fcc-extension/go/internal/extension` and `fcc-extension/go/pkg/types`: the HTTP server of the extension, which greets and
-- takes leave. The state has a lock; a handler is given with its critical section in place.
pub mod Outcome
pub mod Log
pub mod Schedule
pub mod Locked
use aurelith.Base.{
  ℕ, ◌+◌, ◌%◌, String, Option, none, some, List, Error, Result, ok, err, ◌==◌, nat_eq, string_eq,
  if◌then◌else◌,
}
use aurelith.Base.Text.{◌<>◌}
use aurelith.World.{Hash}

abbrev pub version : String
version = "0.1.0"

abbrev pub op_type_greeting : String
op_type_greeting = "GREETING"

abbrev pub op_command_say_hello : String
op_command_say_hello = "SAY_HELLO"

abbrev pub op_command_say_goodbye : String
op_command_say_goodbye = "SAY_GOODBYE"

pub record SayHelloRequest : Type 0 where
  pub name : String

pub record SayHelloResponse : Type 0 where
  pub greeting : String
  pub greeting_number : ℕ

pub record SayGoodbyeRequest : Type 0 where
  pub name : String
  pub reason : String

pub record SayGoodbyeResponse : Type 0 where
  pub farewell : String
  pub farewell_number : ℕ

-- The fields of the struct `Extension` that the lock guards, which are those of `types.State`.
-- An `int` is given by its 64 bits.
pub record State : Type 0 where
  pub greeting_count : ℕ
  pub last_greeting : String
  pub farewell_count : ℕ
  pub last_farewell : String

-- The state that `New` makes.
abbrev pub new : State
new = record { greeting_count = 0; last_greeting = ""; farewell_count = 0; last_farewell = "" }

pub record StateResponse : Type 0 where
  pub state_version : Hash
  pub state : State

-- What the handlers read of `instruction.DataFixed`, of `teetypes.Action` and of its `Data`.
pub record DataFixed : Type 0 where
  pub op_type : Hash
  pub op_command : Hash
  pub original_message : List ℕ

pub record Action : Type 0 where
  pub id : Hash
  pub submission_tag : String
  pub message : List ℕ

-- `teetypes.ActionResult`; no data is a nil slice.
pub record ActionResult : Type 0 where
  pub id : Hash
  pub submission_tag : String
  pub version : String
  pub op_type : Hash
  pub op_command : Hash
  pub data_ : Option String
  pub status : ℕ
  pub log : String

-- A status code and a body.
pub record Response : Type 0 where
  pub status : ℕ
  pub body : String

-- The calls of tee-node, go-flare-common and `encoding/json`.
pub record Wire : Type 0 where
  pub to_hash : String → Hash
  pub hash_hex : Hash → String
  pub decode_action : List ℕ → Result Action
  pub parse_data_fixed : List ℕ → Result DataFixed
  pub decode_hello : List ℕ → Result SayHelloRequest
  pub decode_goodbye : List ℕ → Result SayGoodbyeRequest
  pub marshal_hello : SayHelloResponse → String
  pub marshal_goodbye : SayGoodbyeResponse → String
  pub marshal_result : ActionResult → String
  pub unmarshal_result : String → Result ActionResult

show_error : Error → String
show_error none = "<nil>"
show_error (some message) = message

-- The switch of `buildResult`.
unfoldable pub result_log : ℕ → Error → String
unfolding show_error
result_log status error =
    if status == 0 then "error: " <> show_error error else if status == 1 then "ok" else "pending"

unfoldable pub build_result : Action → DataFixed → Option String → ℕ → Error → ActionResult
unfolding result_log
build_result a df payload status error = record {
  id = a.id;
  submission_tag = a.submission_tag;
  version = version;
  op_type = df.op_type;
  op_command = df.op_command;
  data_ = payload;
  status = status;
  log = result_log status error;
}

-- `n++` on an `int`
abbrev pub increment : ℕ → ℕ
increment n = (n + 1) % 18446744073709551616

abbrev pub hello_text : String → String
hello_text name = "Hello, " <> name <> "! Welcome to Flare Confidential Compute."

abbrev pub goodbye_text : String → String → String
goodbye_text name reason = "Goodbye, " <> name <> "! Reason: " <> reason

-- The critical section of `processSayHello`, with the response made of what it has read.
unfoldable pub greet : SayHelloRequest → State → State × SayHelloResponse
greet req s =
    let number = increment s.greeting_count in
    let greeting = hello_text req.name in
    (
      record s { greeting_count = number; last_greeting = greeting },
      record { greeting = greeting; greeting_number = number },
    )

-- The critical section of `processSayGoodbye`.
unfoldable pub take_leave : SayGoodbyeRequest → State → State × SayGoodbyeResponse
take_leave req s =
    let number = increment s.farewell_count in
    let farewell = goodbye_text req.name req.reason in
    (
      record s { farewell_count = number; last_farewell = farewell },
      record { farewell = farewell; farewell_number = number },
    )

abbrev pub refused : Action → DataFixed → String → ActionResult
refused a df message = build_result a df none 0 (some message)

module _ (wire : Wire) where
  -- `stateHandler`: the value handed to the encoder.
  unfoldable pub state_handler : State → StateResponse
  state_handler s = record { state_version = wire.to_hash version; state = s }

  unfoldable pub process_say_hello : Action → DataFixed → State → State × ActionResult
  unfolding build_result greet
  process_say_hello a df s = elim (wire.decode_hello df.original_message) [
    | err e ↦ (s, refused a df ("decoding request: " <> e))
    | ok req ↦
        if req.name == ""
        then (s, refused a df "name must not be empty")
        else let (t, resp) = greet req s in
          (t, build_result a df (some (wire.marshal_hello resp)) 1 none)
  ]

  unfoldable pub process_say_goodbye : Action → DataFixed → State → State × ActionResult
  unfolding build_result take_leave
  process_say_goodbye a df s = elim (wire.decode_goodbye df.original_message) [
    | err e ↦ (s, refused a df ("decoding request: " <> e))
    | ok req ↦
        if req.name == ""
        then (s, refused a df "name must not be empty")
        else let (t, resp) = take_leave req s in
          (t, build_result a df (some (wire.marshal_goodbye resp)) 1 none)
  ]

  -- `http.StatusOK` with the marshalled result.
  abbrev pub accepted : ActionResult → Response
  accepted ar = record { status = 200; body = wire.marshal_result ar }

  abbrev pub unsupported_command : DataFixed → Response
  unsupported_command df = record {
    status = 501;
    body =
        "unsupported op command: received "
        <> wire.hash_hex df.op_command
        <> ", expected one of ["
        <> wire.hash_hex (wire.to_hash op_command_say_hello)
        <> " ("
        <> op_command_say_hello
        <> "), "
        <> wire.hash_hex (wire.to_hash op_command_say_goodbye)
        <> " ("
        <> op_command_say_goodbye
        <> ")]";
  }

  abbrev pub unsupported_type : DataFixed → Response
  unsupported_type df = record {
    status = 501;
    body =
        "unsupported op type: received "
        <> wire.hash_hex df.op_type
        <> ", expected "
        <> wire.hash_hex (wire.to_hash op_type_greeting)
        <> " ("
        <> op_type_greeting
        <> ")";
  }

  abbrev pub undecodable : String → Response
  undecodable e = record { status = 400; body = "decoding fixed data: " <> e }

  unfoldable pub process_greeting : Action → DataFixed → State → State × Response
  unfolding process_say_hello process_say_goodbye
  process_greeting a df s =
      if df.op_command == wire.to_hash op_command_say_hello
      then (let (t, ar) = process_say_hello a df s in (t, accepted ar))
      else if df.op_command == wire.to_hash op_command_say_goodbye
      then (let (t, ar) = process_say_goodbye a df s in (t, accepted ar))
      else (s, unsupported_command df)

  unfoldable pub process_action : Action → State → State × Response
  unfolding process_greeting
  process_action a s = elim (wire.parse_data_fixed a.message) [
    | err e ↦ (s, undecodable e)
    | ok df ↦
        if df.op_type == wire.to_hash op_type_greeting
        then process_greeting a df s
        else (s, unsupported_type df)
  ]

  -- `actionHandler`; `http.Error` ends the body with a newline.
  unfoldable pub action_handler : List ℕ → State → State × Response
  unfolding process_action
  action_handler request s = elim (wire.decode_action request) [
    | err e ↦ (s, record { status = 400; body = "decoding action: " <> e <> "\n" })
    | ok a ↦ process_action a s
  ]

  unfoldable pub get_log_from_body : String → String
  get_log_from_body body = elim (wire.unmarshal_result body) [ err e ↦ body | ok ar ↦ ar.log ]
