-- ===== src/RunTest/Laws.antt =====
-- The end-to-end test against the server: which requests pass it.
use Prim.Native.Char.{Char}
use Prim.Native.String.{[] as nil, ◌∷◌ as ◌▸◌}
use text.Mathlib.TextLemmas.{cons-append}
use aurelith.Base.{
  ℕ, ◌+◌, ◌<◌, ◌≡◌, ◌≢◌, ◌↔◌, refl, sym, ap, ◌∙◌, String, none, some, ok, err, arith, string_eq,
  nat_eq, Result-cases, inl, inr, Bool, true, false, ℕ_discrete,
}
use aurelith.Base.Text.{◌<>◌}
use aurelith.Extension.{
  State, Wire, Action, DataFixed, ActionResult, SayHelloResponse, increment, hello_text,
  goodbye_text, greet, build_result, refused, process_say_hello, result_log, SayHelloRequest,
}
use aurelith.Extension.Outcome.{say_hello_refused, say_hello_blank, say_hello_named}
use aurelith.RunTest.{HelloReply, Proxy, result_data, judge_hello_reply, judge_hello}

is_empty : String → Bool
is_empty nil = true
is_empty (c ▸ s) = false

-- A text that starts with a character is not empty.
cons_text : (c : Char) (s t : String) → (c ▸ s) <> t ≢ ""
unfolding is_empty
cons_text c s t h = absurd (ground (arith, ap is_empty (sym (cons-append c s t)), ap is_empty h))

hello_text-some : (name : String) → hello_text name ≢ ""
hello_text-some name = cons_text "H" "ello, " _

pub goodbye_text-some : (name reason : String) → goodbye_text name reason ≢ ""
goodbye_text-some name reason = cons_text "G" "oodbye, " _

-- A count that has not reached the end of `int64`.
increment_small : (n : ℕ) → n + 1 < 9223372036854775808 → increment n ≡ n + 1
increment_small n small = omega arith

pub result_data-ok :
    (ar : ActionResult) (text : String)
    → ar.status ≡ 1
    → ar.data_ ≡ some text
    → text ≢ ""
    → result_data ar ≡ ok text
unfolding result_data
result_data-ok ar text one present some_text = ground arith

pub result_data-refused :
    (a : Action) (df : DataFixed) (message : String)
    → result_data (refused a df message)
      ≡ err ("instruction processing failed: " <> "error: " <> message)
unfolding result_data build_result result_log ℕ_discrete
result_data-refused a df message = refl

module _ {C : Type 0} (p : Proxy C) (wire : Wire) where
  -- The tool reads the JSON that the server writes, which is no empty text.
  abbrev pub ReadsHello : Type 0
  ReadsHello =
      (resp : SayHelloResponse)
      → (wire.marshal_hello resp ≢ "")
        × (p.decode_hello_reply (wire.marshal_hello resp)
            ≡ ok (record { greeting = resp.greeting; greeting_number = resp.greeting_number }))

  judge_hello_reply-ok :
      (resp : HelloReply)
      → resp.greeting ≢ ""
      → 0 < resp.greeting_number
      → resp.greeting_number < 9223372036854775808
      → judge_hello_reply p resp ≡ none
  unfolding judge_hello_reply
  judge_hello_reply-ok resp text positive small = ground arith

  judge_hello-read :
      (ar : ActionResult) (text : String) (resp : HelloReply)
      → result_data ar ≡ ok text
      → p.decode_hello_reply text ≡ ok resp
      → judge_hello p ar ≡ judge_hello_reply p resp
  unfolding judge_hello
  judge_hello-read ar text resp present decoded = ground arith

  judge_hello-err :
      (ar : ActionResult) (e : String) → result_data ar ≡ err e → judge_hello p ar ≡ some e
  unfolding judge_hello
  judge_hello-err ar e failed = ground arith

  -- A request is decoded and names someone.
  abbrev pub IsHello : DataFixed → Type 0
  IsHello df =
      (req : SayHelloRequest) × (wire.decode_hello df.original_message ≡ ok req) × (req.name ≢ "")

  judge_hello-greet :
      (s : State) (a : Action) (df : DataFixed) (req : SayHelloRequest)
      → ReadsHello
      → s.greeting_count + 1 < 9223372036854775808
      → judge_hello p (build_result a df (some (wire.marshal_hello (greet req s).1)) 1 none) ≡ none
  unfolding greet build_result
  judge_hello-greet s a df req reads small =
      let resp = (greet req s).1 in
      let (some_text, decoded) = reads resp in
      let ar = build_result a df (some (wire.marshal_hello resp)) 1 none in
      let present = result_data-ok ar (wire.marshal_hello resp) refl refl some_text in
      judge_hello-read ar (wire.marshal_hello resp) _ present decoded
      ∙ judge_hello_reply-ok _ (hello_text-some req.name) (omega arith) (omega arith)

  judge_hello-refused :
      (a : Action) (df : DataFixed) (message : String) → judge_hello p (refused a df message) ≢ none
  judge_hello-refused a df message h = absurd (
      ground
        (arith, judge_hello-err (refused a df message) _ (result_data-refused a df message), h))

  -- The end-to-end test passes exactly the greetings that the server grants: the tool accepts the
  -- result that `processSayHello` makes of a request if and only if the request can be decoded
  -- and its name is not empty. This holds below the end of the count's type, and where the tool
  -- reads the JSON that the server writes.
  pub judge_hello-process_say_hello :
      (s : State) (a : Action) (df : DataFixed)
      → ReadsHello
      → s.greeting_count + 1 < 9223372036854775808
      → (judge_hello p (process_say_hello wire a df s).1 ≡ none) ↔ IsHello df
  judge_hello-process_say_hello s a df reads small =
      elim (Result-cases (wire.decode_hello df.original_message)) [
        | inr (e, undecoded) ↦ (
          λ h. absurd (
              judge_hello-refused a df _ (
                ap (λ q. judge_hello p q.1) (sym (say_hello_refused wire s a df e undecoded)) ∙ h)),
          λ (req, decoded, named). absurd (ground (arith, undecoded, decoded)),
        )
        | inl (req, decoded) ↦ elim (string_eq.dec req.name "") [
          | yes blank ↦ (
            λ h. absurd (
                judge_hello-refused a df _ (
                  ap (λ q. judge_hello p q.1) (sym (say_hello_blank wire s a df req decoded blank))
                  ∙ h)),
            λ (other, read, named). absurd (ground (arith, read, decoded, blank, named)),
          )
          | no named ↦ (
            λ h. (req, decoded, named),
            λ _.
                ap (λ q. judge_hello p q.1) (say_hello_named wire s a df req decoded named)
                ∙ judge_hello-greet s a df req reads small,
          )
        ]
      ]
