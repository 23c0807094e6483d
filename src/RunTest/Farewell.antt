-- ===== src/RunTest/Farewell.antt =====
-- The end-to-end test against the server: which farewells pass it.
use aurelith.Base.{
  ◌+◌, ◌<◌, ◌≡◌, ◌≢◌, ◌↔◌, refl, sym, ap, ◌∙◌, String, none, some, ok, err, arith, string_eq,
  nat_eq, Result-cases, inl, inr,
}
use aurelith.Extension.{
  State, Wire, Action, DataFixed, ActionResult, SayGoodbyeResponse, take_leave, build_result,
  refused, process_say_goodbye, SayGoodbyeRequest,
}
use aurelith.Extension.Outcome.{say_goodbye_refused, say_goodbye_blank, say_goodbye_named}
use aurelith.RunTest.{GoodbyeReply, Proxy, result_data, judge_goodbye_reply, judge_goodbye}
use aurelith.RunTest.Laws.{goodbye_text-some, result_data-ok, result_data-refused}

module _ {C : Type 0} (p : Proxy C) (wire : Wire) where
  -- The tool reads the JSON that the server writes, which is no empty text.
  abbrev pub ReadsGoodbye : Type 0
  ReadsGoodbye =
      (resp : SayGoodbyeResponse)
      → (wire.marshal_goodbye resp ≢ "")
        × (p.decode_goodbye_reply (wire.marshal_goodbye resp)
            ≡ ok (record { farewell = resp.farewell; farewell_number = resp.farewell_number }))

  judge_goodbye_reply-ok :
      (resp : GoodbyeReply)
      → resp.farewell ≢ ""
      → 0 < resp.farewell_number
      → resp.farewell_number < 9223372036854775808
      → judge_goodbye_reply p resp ≡ none
  unfolding judge_goodbye_reply
  judge_goodbye_reply-ok resp text positive small = ground arith

  judge_goodbye-read :
      (ar : ActionResult) (text : String) (resp : GoodbyeReply)
      → result_data ar ≡ ok text
      → p.decode_goodbye_reply text ≡ ok resp
      → judge_goodbye p ar ≡ judge_goodbye_reply p resp
  unfolding judge_goodbye
  judge_goodbye-read ar text resp present decoded = ground arith

  judge_goodbye-err :
      (ar : ActionResult) (e : String) → result_data ar ≡ err e → judge_goodbye p ar ≡ some e
  unfolding judge_goodbye
  judge_goodbye-err ar e failed = ground arith

  -- A request is decoded and names someone.
  abbrev pub IsGoodbye : DataFixed → Type 0
  IsGoodbye df =
      (req : SayGoodbyeRequest) × (wire.decode_goodbye df.original_message ≡ ok req)
      × (req.name ≢ "")

  judge_goodbye-leave :
      (s : State) (a : Action) (df : DataFixed) (req : SayGoodbyeRequest)
      → ReadsGoodbye
      → s.farewell_count + 1 < 9223372036854775808
      → judge_goodbye p
          (build_result a df (some (wire.marshal_goodbye (take_leave req s).1)) 1 none)
        ≡ none
  unfolding take_leave build_result
  judge_goodbye-leave s a df req reads small =
      let resp = (take_leave req s).1 in
      let (some_text, decoded) = reads resp in
      let ar = build_result a df (some (wire.marshal_goodbye resp)) 1 none in
      let present = result_data-ok ar (wire.marshal_goodbye resp) refl refl some_text in
      judge_goodbye-read ar (wire.marshal_goodbye resp) _ present decoded
      ∙ judge_goodbye_reply-ok _ (goodbye_text-some req.name req.reason) (omega arith) (omega arith)

  judge_goodbye-refused :
      (a : Action) (df : DataFixed) (message : String)
      → judge_goodbye p (refused a df message) ≢ none
  judge_goodbye-refused a df message h = absurd (
      ground
        (arith, judge_goodbye-err (refused a df message) _ (result_data-refused a df message), h))

  -- The end-to-end test passes exactly the farewells that the server grants: the tool accepts the
  -- result that `processSayGoodbye` makes of a request if and only if the request can be decoded
  -- and its name is not empty. This holds below the end of the count's type, and where the tool
  -- reads the JSON that the server writes.
  pub judge_goodbye-process_say_goodbye :
      (s : State) (a : Action) (df : DataFixed)
      → ReadsGoodbye
      → s.farewell_count + 1 < 9223372036854775808
      → (judge_goodbye p (process_say_goodbye wire a df s).1 ≡ none) ↔ IsGoodbye df
  judge_goodbye-process_say_goodbye s a df reads small =
      elim (Result-cases (wire.decode_goodbye df.original_message)) [
        | inr (e, undecoded) ↦ (
          λ h. absurd (
              judge_goodbye-refused a df _ (
                ap (λ q. judge_goodbye p q.1) (sym (say_goodbye_refused wire s a df e undecoded))
                ∙ h)),
          λ (req, decoded, named). absurd (ground (arith, undecoded, decoded)),
        )
        | inl (req, decoded) ↦ elim (string_eq.dec req.name "") [
          | yes blank ↦ (
            λ h. absurd (
                judge_goodbye-refused a df _ (
                  ap (λ q. judge_goodbye p q.1)
                    (sym (say_goodbye_blank wire s a df req decoded blank))
                  ∙ h)),
            λ (other, read, named). absurd (ground (arith, read, decoded, blank, named)),
          )
          | no named ↦ (
            λ h. (req, decoded, named),
            λ _.
                ap (λ q. judge_goodbye p q.1) (say_goodbye_named wire s a df req decoded named)
                ∙ judge_goodbye-leave s a df req reads small,
          )
        ]
      ]
