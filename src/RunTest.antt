-- ===== src/RunTest.antt =====
-- `fcc-extension/tools/cmd/run-test/main.go`: the end-to-end test, which sends a greeting and a farewell and judges
-- the answers that the proxy has for them.
pub mod Laws
pub mod Farewell
pub mod Done
use aurelith.Base.{
  ℕ, ◌-◌, String, Bool, ◌&&◌, ◌||◌, Option, none, some, List, [], ◌∷◌, Error, Result, ok, err, ◌==◌,
  nat_eq, string_eq, ltb, if◌then◌else◌,
}
use aurelith.Base.Text.{◌<>◌, show_ℕ, has_substring}
use aurelith.World.{Address, Hash, Reply}
use aurelith.TeeCalls.{action_result}
use aurelith.Extension.{ActionResult}
use aurelith.Chain.{Call, and_then}
use aurelith.Instructions.{Senders, set_extension_id, send_say_hello, send_say_goodbye}

-- `sayHelloResponse` and `sayGoodbyeResponse`, which the tool declares for itself: a text and a
-- number. An `int` is given by its 64 bits.
pub record HelloReply : Type 0 where
  pub greeting : String
  pub greeting_number : ℕ

pub record GoodbyeReply : Type 0 where
  pub farewell : String
  pub farewell_number : ℕ

-- `%d` of an `int`
unfoldable pub show_int : ℕ → String
unfolding show_ℕ
show_int n =
    if ltb n 9223372036854775808 then show_ℕ n else "-" <> show_ℕ (18446744073709551616 - n)

-- `n < 1` of an `int`
abbrev pub below_one : ℕ → Bool
below_one n = n == 0 || ltb 9223372036854775807 n

-- `json.Unmarshal` of an answer, and the answers of a proxy on the states `C`.
pub record Proxy (C : Type 0) : Type 0 where
  pub http_attempt : String → C → ℕ → Reply
  pub decode_action_response : String → Result ActionResult
  pub decode_hello_reply : String → Result HelloReply
  pub decode_goodbye_reply : String → Result GoodbyeReply
  pub hash_hex : Hash → String
  -- `json.Marshal` of the name "World"
  pub hello_payload : Result (List ℕ)

-- What both judgements ask of a result before they read its data.
unfoldable pub result_data : ActionResult → Result String
result_data ar =
    if ar.status == 0
    then err ("instruction processing failed: " <> ar.log)
    else if ar.status == 2
    then err "instruction still pending after polling, expected completed"
    else elim ar.data_ [
      | none ↦ err "expected response data but got none"
      | some text ↦ if text == "" then err "expected response data but got none" else ok text
    ]

module _ {C : Type 0} (p : Proxy C) where
  unfoldable pub judge_hello_reply : HelloReply → Error
  unfolding show_int
  judge_hello_reply resp =
      if resp.greeting == ""
      then some "expected non-empty Greeting"
      else if below_one resp.greeting_number
      then some ("expected GreetingNumber >= 1, got " <> show_int resp.greeting_number)
      else none

  unfoldable pub judge_goodbye_reply : GoodbyeReply → Error
  unfolding show_int
  judge_goodbye_reply resp =
      if resp.farewell == ""
      then some "expected non-empty Farewell"
      else if below_one resp.farewell_number
      then some ("expected FarewellNumber >= 1, got " <> show_int resp.farewell_number)
      else none

  -- `verifyHelloResult` on the result of the action.
  unfoldable pub judge_hello : ActionResult → Error
  unfolding result_data judge_hello_reply
  judge_hello ar = elim (result_data ar) [
    | err e ↦ some e
    | ok text ↦ elim (p.decode_hello_reply text) [
      | err e ↦ some ("failed to unmarshal response: " <> e)
      | ok resp ↦ judge_hello_reply resp
    ]
  ]

  -- `verifyGoodbyeResult` on the result of the action.
  unfoldable pub judge_goodbye : ActionResult → Error
  unfolding result_data judge_goodbye_reply
  judge_goodbye ar = elim (result_data ar) [
    | err e ↦ some e
    | ok text ↦ elim (p.decode_goodbye_reply text) [
      | err e ↦ some ("failed to unmarshal response: " <> e)
      | ok resp ↦ judge_goodbye_reply resp
    ]
  ]

  -- The result of an action at the proxy, judged.
  unfoldable pub verify : (ActionResult → Error) → String → Hash → Call C (Unit {0})
  verify judge proxy_url id c =
      let url = proxy_url <> "/action/result/" <> p.hash_hex id in
      elim (action_result p.decode_action_response (p.http_attempt url c)) [
        | err e ↦ (c, err e)
        | ok ar ↦ elim (judge ar) [ some e ↦ (c, err e) | none ↦ (c, ok tt) ]
      ]

  -- `verifyHelloResult`
  unfoldable pub verify_hello_result : String → Hash → Call C (Unit {0})
  unfolding verify judge_hello
  verify_hello_result = verify judge_hello

  -- `verifyGoodbyeResult`
  unfoldable pub verify_goodbye_result : String → Hash → Call C (Unit {0})
  unfolding verify judge_goodbye
  verify_goodbye_result = verify judge_goodbye

  -- The errors of `SetExtensionId` that `main` passes over.
  abbrev pub already_set : String → Bool
  already_set e = has_substring e "already set" || has_substring e "Extension ID already set"

  pass_over : C × Result (Unit {0}) → C × Result (Unit {0})
  pass_over (c, ok u) = (c, ok u)
  pass_over (c, err e) = (
    c,
    if already_set e
        then ok tt
        else err (
            "setExtensionId failed — is the extension registered? Check that pre-build.sh completed successfully. Error: "
            <> e),
  )

  module _ (k : Senders C) (proxy_url : String) (sender : Address) where
    hello_case : List ℕ → Call C (Unit {0})
    unfolding send_say_hello verify_hello_result
    hello_case payload c =
        and_then (send_say_hello k sender payload c) λ ids. verify_hello_result proxy_url ids.0

    goodbye_case : Call C (Unit {0})
    unfolding send_say_goodbye verify_goodbye_result
    goodbye_case c =
        and_then (send_say_goodbye k sender "World" "heading out" c)
          λ ids. verify_goodbye_result proxy_url ids.0

    -- `main` after `DefaultSupport`, with the error of `FatalWithCause`.
    unfoldable pub run_test : Call C (Unit {0})
    unfolding set_extension_id pass_over hello_case goodbye_case
    run_test c = and_then (pass_over (set_extension_id k sender c)) λ _ c₁. elim p.hello_payload [
      | err e ↦ (c₁, err e)
      | ok payload ↦ and_then (hello_case payload c₁) λ _. goodbye_case
    ]
