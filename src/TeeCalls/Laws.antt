-- ===== src/TeeCalls/Laws.antt =====
-- The polling makes at most fifteen requests and stops at the first good answer.
use aurelith.Base.{
  ℕ, zero, suc, ◌+◌, ◌<◌, ◌≤◌, ◌≡◌, ◌≢◌, refl, sym, ap, ◌∙◌, ℕ_discrete, String, true, false,
  Result, ok, err, Result-cases, inl, inr, arith, nat_eq, string_eq,
}
use aurelith.Base.Text.{◌<>◌, show_ℕ}
use aurelith.World.{World, Hash, Reply, failed, reply}
use aurelith.TeeCalls.{
  repeats, is_ok, poll, requests_made, read_answer, action_result, compare_hashes,
  get_code_hash_and_platform, tee_code_hash, test_platform,
}

poll_hit :
    (get : ℕ → Reply) (n i : ℕ) (last : Reply)
    → is_ok (get i) ≡ true
    → poll get (suc n) i last ≡ (get i, i + 1)
unfolding poll
poll_hit get n i last h = rw h refl

poll_miss :
    (get : ℕ → Reply) (n i : ℕ) (last : Reply)
    → is_ok (get i) ≡ false
    → poll get (suc n) i last ≡ poll get n (i + 1) (get i)
unfolding poll
poll_miss get n i last h = rw h refl

poll_first :
    (get : ℕ → Reply) (n i k : ℕ) (last : Reply)
    → i ≤ k
    → k < i + n
    → is_ok (get k) ≡ true
    → ((j : ℕ) → j < k → is_ok (get j) ≡ false)
    → poll get n i last ≡ (get k, k + 1)
poll_first get zero i k last lo hi good bad = absurd (omega arith)
poll_first get (suc n) i k last lo hi good bad = elim (nat_eq.dec i k) [
  | yes same ↦ rw (← same) (poll_hit get n i last (rw same good))
  | no differ ↦
      poll_miss get n i last (bad i (omega arith))
      ∙ poll_first get n (i + 1) k (get i) (omega arith) (omega arith) good bad
]

poll_all :
    (get : ℕ → Reply) (n i : ℕ) (last : Reply)
    → ((j : ℕ) → j < i + n → is_ok (get j) ≡ false)
    → is_ok last ≡ false
    → (is_ok (poll get n i last).0 ≡ false) × ((poll get n i last).1 ≡ i + n)
unfolding poll
poll_all get zero i last bad none_yet = (none_yet, omega arith)
poll_all get (suc n) i last bad none_yet =
    let missed = bad i (omega arith) in
    let (answer, count) = poll_all get n (i + 1) (get i) (λ j lt. bad j (omega arith)) missed in
    rw (poll_miss get n i last missed) (answer, omega (arith, count))

is_ok_200 : (body : String) → is_ok (reply 200 body) ≡ true
unfolding ℕ_discrete
is_ok_200 body = refl

read_answer_200 :
    {A : Type 0} (decode : String → Result A) (body : String)
    → read_answer decode (reply 200 body) ≡ decode body
unfolding read_answer ℕ_discrete
read_answer_200 decode body = refl

read_answer_err :
    {A : Type 0} (decode : String → Result A) (r : Reply)
    → is_ok r ≡ false
    → (e : String) × (read_answer decode r ≡ err e)
unfolding read_answer
read_answer_err decode (failed e) h = (e, refl)
read_answer_err decode (reply status body) h =
    ("action result status not ok, got: " <> show_ℕ status, rw h refl)

-- If the first answer with status 200 comes at attempt `k`, before the fifteenth is over,
-- `ActionResult` decodes its body and has made `k + 1` requests.
pub action_result_first :
    {A : Type 0} (decode : String → Result A) (get : ℕ → Reply) (k : ℕ) (body : String)
    → k < repeats
    → get k ≡ reply 200 body
    → ((j : ℕ) → j < k → is_ok (get j) ≡ false)
    → (action_result decode get ≡ decode body) × (requests_made get ≡ k + 1)
unfolding action_result requests_made
action_result_first decode get k body lt found bad =
    let good : is_ok (get k) ≡ true = rw found (is_ok_200 body) in
    let done = poll_first get repeats 0 k (failed "<nil>") (omega arith) lt good bad in
    (
      ap (λ p. read_answer decode p.0) done
          ∙ ap (read_answer decode) found
          ∙ read_answer_200 decode body,
      ap (λ p. p.1) done,
    )

-- If no attempt is answered with status 200, `ActionResult` makes fifteen requests and returns
-- an error.
pub action_result_none :
    {A : Type 0} (decode : String → Result A) (get : ℕ → Reply)
    → ((j : ℕ) → is_ok (get j) ≡ false)
    → ((e : String) × (action_result decode get ≡ err e)) × (requests_made get ≡ repeats)
unfolding action_result requests_made
action_result_none decode get bad =
    let (answer, count) = poll_all get repeats 0 (failed "<nil>") (λ j lt. bad j) refl in
    (read_answer_err decode (poll get repeats 0 (failed "<nil>")).0 answer, count)

compare_hashes_ok :
    (show_hash : Hash → String) (pair machine found : Hash × Hash)
    → compare_hashes show_hash pair machine ≡ ok found
    → (found ≡ machine) × (pair ≡ machine)
unfolding compare_hashes
compare_hashes_ok show_hash (c, p) (mc, mp) found h = elim (nat_eq.dec c mc) [
  | no differ ↦ absurd (ground arith)
  | yes same ↦ elim (nat_eq.dec p mp) [
    | no differ ↦ absurd (ground arith)
    | yes same₂ ↦ (ground arith, ground arith)
  ]
]

-- What `GetCodeHashAndPlatform` returns without an error is what the machine has told, and it is
-- the test pair in the simulated mode and the claims of the attestation otherwise.
pub get_code_hash_and_platform_ok :
    (w : World) (show_hash : Hash → String) (claims : Result (Hash × Hash))
    (machine found : Hash × Hash)
    → get_code_hash_and_platform w show_hash claims machine ≡ ok found
    → (found ≡ machine)
      × (w.getenv "SIMULATED_TEE" ≡ "true" → machine ≡ (tee_code_hash, test_platform))
      × (w.getenv "SIMULATED_TEE" ≢ "true" → claims ≡ ok machine)
unfolding get_code_hash_and_platform
get_code_hash_and_platform_ok w show_hash claims machine found h =
    elim (string_eq.dec (w.getenv "SIMULATED_TEE") "true") [
      | yes simulated ↦
          let test : compare_hashes show_hash (tee_code_hash, test_platform) machine ≡ ok found =
            ground arith in
          let (same, pair) =
            compare_hashes_ok show_hash (tee_code_hash, test_platform) machine found test in
          (same, λ _. sym pair, λ real. absurd (real simulated))
      | no real ↦ elim (Result-cases claims) [
        | inr (e, failed_claims) ↦ absurd (ground arith)
        | inl (pair, told) ↦
            let attested : compare_hashes show_hash pair machine ≡ ok found = ground arith in
            let (same, equal) = compare_hashes_ok show_hash pair machine found attested in
            (same, λ simulated. absurd (real simulated), λ _. told ∙ ap ok equal)
      ]
    ]
