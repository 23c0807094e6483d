-- ===== src/Tests/Node.antt =====
-- Calls to a node that answers late, and reverts that carry a custom error.
use aurelith.Base.{
  ℕ, ◌+◌, ◌<◌, ◌≡◌, refl, String, false, none, some, List, [], ◌∷◌, Option, Result, ok, err, ltb,
  arith, if◌then◌else◌, ℕ_discrete, string_eq,
}
use aurelith.World.{Reply, failed, reply, Hash}
use aurelith.TeeCalls.{is_ok, action_result, requests_made, repeats, get_code_hash_and_platform}
use aurelith.TeeCalls.Laws.{action_result_first, action_result_none}
use aurelith.Revert.{
  CustomError, returned, match_custom_error, match_payload, simulate_and_decode_revert,
}
use aurelith.Revert.Laws.{match_custom_error-simulate_and_decode_revert}
use aurelith.Tests.{test_world}

-- Two failures, then the result.
late : ℕ → Reply
late i = if ltb i 2 then reply 404 "" else reply 200 "done"

decode_body : String → Result String
decode_body body = ok body

late_found : late 2 ≡ reply 200 "done"
unfolding late
late_found = refl

late_before : (j : ℕ) → j < 2 → is_ok (late j) ≡ false
unfolding late
late_before j lt = ground arith

action_result_first_example :
    (action_result decode_body late ≡ decode_body "done") × (requests_made late ≡ 2 + 1)
action_result_first_example =
    action_result_first decode_body late 2 "done" (omega arith) late_found late_before

abbrev silent : ℕ → Reply
silent i = failed "connection refused"

silent_bad : (j : ℕ) → is_ok (silent j) ≡ false
silent_bad j = refl

action_result_none_example :
    ((e : String) × (action_result decode_body silent ≡ err e)) × (requests_made silent ≡ repeats)
action_result_none_example = action_result_none decode_body silent silent_bad

abbrev print_hash : Hash → String
print_hash hash = "0xhash"

abbrev told_pair : Hash × Hash
told_pair = (5, 6)

abbrev claimed : Result (Hash × Hash)
claimed = ok told_pair

hashes_found : get_code_hash_and_platform test_world print_hash claimed told_pair ≡ ok told_pair
unfolding get_code_hash_and_platform string_eq ℕ_discrete
hashes_found = refl

unknown_revert : List ℕ → Option String
unknown_revert payload = none

abbrev two_errors : List CustomError
two_errors =
    record { name = "Expired"; selector = 1 ∷ 2 ∷ 3 ∷ 4 ∷ []; arguments = λ p. none }
    ∷ record { name = "NotOwner"; selector = 255 ∷ 0 ∷ 17 ∷ 9 ∷ []; arguments = λ p. some "[7]" }
    ∷ []

abbrev payload : List ℕ
payload = 255 ∷ 0 ∷ 17 ∷ 9 ∷ 7 ∷ []

unknown_payload : unknown_revert payload ≡ none
unfolding unknown_revert
unknown_payload = refl

match_custom_error-simulate_and_decode_revert_example :
    match_custom_error two_errors (simulate_and_decode_revert unknown_revert (returned payload))
    ≡ match_payload two_errors payload
match_custom_error-simulate_and_decode_revert_example =
    match_custom_error-simulate_and_decode_revert unknown_revert two_errors payload
      (omega arith, (omega arith, (omega arith, (omega arith, (omega arith, tt))))) (omega arith)
      unknown_payload
