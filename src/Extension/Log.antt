-- ===== src/Extension/Log.antt =====
-- What the log of an answer says.
use Prim.Native.Char.{code}
use Prim.Native.String.{[] as nil, ◌∷◌ as ◌▸◌}
use text.Mathlib.TextLemmas.{cons-append}
use aurelith.Base.{
  ℕ, ◌≡◌, ◌≢◌, ◌↔◌, ◌<◌, inl, inr, refl, sym, ap, ◌∙◌, String, none, some, List, ok, arith,
  string_eq, nat_eq, ℕ_discrete,
}
use aurelith.Base.Text.{◌<>◌}
use aurelith.Extension.{
  State, Wire, Action, DataFixed, ActionResult, Response, increment, build_result, result_log,
  refused, accepted, action_handler, get_log_from_body,
}
use aurelith.Extension.Outcome.{IsSuccess, action_handler-Outcome}

count_changes : (n : ℕ) → n < 18446744073709551616 → increment n ≢ n
count_changes n small h = ground arith

result_log_lem :
    (message : String)
    → (result_log 1 none ≡ "ok") × (result_log 0 (some message) ≡ "error: " <> message)
unfolding result_log ℕ_discrete
result_log_lem message = (refl, refl)

first_code : String → ℕ
first_code nil = 0
first_code (c ▸ s) = code c

error_log_first : (message : String) → first_code ("error: " <> message) ≡ b'e'
unfolding first_code
error_log_first message = ap first_code (cons-append "e" "rror: " message)

ok_log_first : first_code "ok" ≡ b'o'
unfolding first_code
ok_log_first = refl

error_log_differs : (message : String) → ("error: " <> message) ≢ "ok"
error_log_differs message h =
    let same : first_code ("error: " <> message) ≡ first_code "ok" = ap first_code h in
    omega (arith, same, error_log_first message, ok_log_first)

-- The decoder of results reads back the log that the encoder wrote.
abbrev pub ReadsBack : Wire → Type 0
ReadsBack wire =
    (ar : ActionResult)
    → (b : ActionResult) × (wire.unmarshal_result (wire.marshal_result ar) ≡ ok b)
      × (b.log ≡ ar.log)

module _ (wire : Wire) (reads_back : ReadsBack wire) where
  success_log :
      (payload : String) (r : Response)
      → IsSuccess wire payload r
      → get_log_from_body wire r.body ≡ "ok"
  unfolding get_log_from_body build_result
  success_log payload r (a, df, e) =
      let (b, read, same) = reads_back (build_result a df (some payload) 1 none) in
      ground (arith, read, same, result_log_lem "")

  refused_log :
      (a : Action) (df : DataFixed) (message : String) (r : Response)
      → r ≡ accepted wire (refused a df message)
      → get_log_from_body wire r.body ≡ "error: " <> message
  unfolding get_log_from_body build_result
  refused_log a df message r e =
      let (b, read, same) = reads_back (refused a df message) in
      ground (arith, read, same, result_log_lem message)

  -- Where the decoder of results reads back the log that the encoder wrote and the counters fit 64
  -- bits: an answer of HTTP status 200 has the log "ok" exactly when the request changed the
  -- state.
  pub action_handler_log :
      (s : State) (request : List ℕ)
      → s.greeting_count < 18446744073709551616
      → s.farewell_count < 18446744073709551616
      → let (t, r) = action_handler wire request s in
        r.status ≡ 200 → (get_log_from_body wire r.body ≡ "ok") ↔ (t ≢ s)
  action_handler_log s request small small' served = elim (action_handler-Outcome wire s request) [
    | inl (kept, inl bad) ↦ absurd (omega arith)
    | inl (kept, inr (inl bad)) ↦ absurd (omega arith)
    | inl (kept, inr (inr (a, df, message, e))) ↦ (
      λ fine. absurd (error_log_differs message (sym (refused_log a df message _ e) ∙ fine)),
      λ changed. absurd (changed kept),
    )
    | inr (inl (name, _, e, good)) ↦ (
      λ _ same. count_changes s.greeting_count small (ap State.greeting_count (sym e ∙ same)),
      λ _. success_log _ _ good,
    )
    | inr (inr (name, reason, _, e, good)) ↦ (
      λ _ same. count_changes s.farewell_count small' (ap State.farewell_count (sym e ∙ same)),
      λ _. success_log _ _ good,
    )
  ]
