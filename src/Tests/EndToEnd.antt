-- ===== src/Tests/EndToEnd.antt =====
-- The end-to-end test, with a chain that accepts everything and proxies that answer.
use Prim.Native.String.{[] as nil, ◌∷◌ as ◌▸◌}
use aurelith.Base.{Bool, ℕ, ◌≡◌, ◌↔◌, ap, String, true, false, none, some, [], ok, err, arith}
use aurelith.World.{reply}
use aurelith.Extension.{
  Wire, Action, DataFixed, SayHelloResponse, new, process_say_hello, SayGoodbyeResponse,
  process_say_goodbye,
}
use aurelith.RunTest.{Proxy, HelloReply, GoodbyeReply, judge_hello, judge_goodbye}
use aurelith.RunTest.Farewell.{ReadsGoodbye, IsGoodbye, judge_goodbye-process_say_goodbye}
use aurelith.RunTest.Laws.{ReadsHello, IsHello, judge_hello-process_say_hello}
use aurelith.Tests.Disk.{ones, unary, unary-ones_zero}
use aurelith.Tests.Server.{test_wire}

-- A greeting as its number in unary and its text.
marshal_reply : SayHelloResponse → String
marshal_reply resp = "{" ▸ ones resp.greeting_number ("," ▸ resp.greeting)

read_reply : String → HelloReply
read_reply nil = record { greeting = ""; greeting_number = 0 }
read_reply (c ▸ s) = let (n, text) = unary 0 s in record { greeting = text; greeting_number = n }

abbrev test_proxy : Proxy ℕ
test_proxy = record {
  http_attempt = λ url c i. reply 200 "";
  decode_action_response = λ body. err body;
  decode_hello_reply = λ text. ok (read_reply text);
  decode_goodbye_reply = λ text. err text;
  hash_hex = λ hash. "0xhash";
  hello_payload = ok [];
}

abbrev hello_wire : Wire
hello_wire = record test_wire { marshal_hello = marshal_reply }

is_empty : String → Bool
is_empty nil = true
is_empty (c ▸ s) = false

reads_hello : ReadsHello test_proxy hello_wire
unfolding marshal_reply read_reply is_empty
reads_hello resp = (
  λ h. absurd (ground (arith, ap is_empty h)),
  ap (λ z. ok (record { greeting = z.1; greeting_number = z.0 }))
      (unary-ones_zero resp.greeting_number resp.greeting),
)

abbrev hello_action : Action
hello_action = record { id = 1; submission_tag = "submit"; message = [] }

abbrev hello_data : DataFixed
hello_data = record { op_type = 8; op_command = 9; original_message = [] }

judge_hello-process_say_hello_example :
    (judge_hello test_proxy (process_say_hello hello_wire hello_action hello_data new).1 ≡ none)
    ↔ IsHello test_proxy hello_wire hello_data
judge_hello-process_say_hello_example =
    judge_hello-process_say_hello test_proxy hello_wire new hello_action hello_data reads_hello
      (omega arith)

-- A farewell in the same way.
marshal_farewell : SayGoodbyeResponse → String
marshal_farewell resp = "{" ▸ ones resp.farewell_number ("," ▸ resp.farewell)

read_farewell : String → GoodbyeReply
read_farewell nil = record { farewell = ""; farewell_number = 0 }
read_farewell (c ▸ s) = let (n, text) = unary 0 s in record { farewell = text; farewell_number = n }

abbrev farewell_proxy : Proxy ℕ
farewell_proxy = record test_proxy { decode_goodbye_reply = λ text. ok (read_farewell text) }

abbrev goodbye_wire : Wire
goodbye_wire = record test_wire { marshal_goodbye = marshal_farewell }

reads_goodbye : ReadsGoodbye farewell_proxy goodbye_wire
unfolding marshal_farewell read_farewell is_empty
reads_goodbye resp = (
  λ h. absurd (ground (arith, ap is_empty h)),
  ap (λ z. ok (record { farewell = z.1; farewell_number = z.0 }))
      (unary-ones_zero resp.farewell_number resp.farewell),
)

abbrev goodbye_data : DataFixed
goodbye_data = record { op_type = 8; op_command = 10; original_message = [] }

judge_goodbye-process_say_goodbye_example :
    (judge_goodbye farewell_proxy (process_say_goodbye goodbye_wire hello_action goodbye_data new).1
      ≡ none)
    ↔ IsGoodbye farewell_proxy goodbye_wire goodbye_data
judge_goodbye-process_say_goodbye_example =
    judge_goodbye-process_say_goodbye farewell_proxy goodbye_wire new hello_action goodbye_data
      reads_goodbye (omega arith)

-- A proxy whose every answer is a success with the number 1 and a text.
abbrev answering_proxy : Proxy ℕ
answering_proxy = record {
  http_attempt = λ url c i. reply 200 "";
  decode_action_response = λ body. ok (record {
    id = 1;
    submission_tag = "submit";
    version = "1";
    op_type = 8;
    op_command = 9;
    data_ = some "{";
    status = 1;
    log = "ok";
  });
  decode_hello_reply = λ text. ok (record { greeting = text; greeting_number = 1 });
  decode_goodbye_reply = λ text. ok (record { farewell = text; farewell_number = 1 });
  hash_hex = λ hash. "0xhash";
  hello_payload = ok [];
}
