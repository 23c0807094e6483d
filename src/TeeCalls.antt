-- ===== src/TeeCalls.antt =====
-- `fcc-extension/tools/pkg/fccutils/tee_calls.go` and `common.go`: asking a node or a proxy for its info and
-- for the result of an action, and the comparison of code hashes.
pub mod Laws
pub mod Identity
use aurelith.Base.{
  ℕ, zero, suc, ◌+◌, String, Bool, true, false, Option, none, some, Result, ok, err, ◌==◌, nat_eq,
  string_eq, if◌then◌else◌,
}
use aurelith.Base.Text.{◌<>◌, show_ℕ}
use aurelith.World.{World, Hash, Reply, failed, reply}

-- `repeats`
abbrev pub repeats : ℕ
repeats = 15

abbrev pub is_ok : Reply → Bool
is_ok (failed e) = false
is_ok (reply status body) = status == 200

-- What the loop leaves in `result` and `err`, and how many requests it has made. `get` gives the
-- answer to each attempt; `n` attempts are left, `i` are made, and `last` is the latest answer.
unfoldable pub poll : (ℕ → Reply) → ℕ → ℕ → Reply → Reply × ℕ
poll get zero i last = (last, i)
poll get (suc n) i last =
    let rest = poll get n (i + 1) (get i) in if is_ok (get i) then (get i, i + 1) else rest

-- Before the first attempt `result` and `err` are nil; the loop makes at least one.
abbrev no_answer : Reply
no_answer = failed "<nil>"

-- The requests that `ActionResult` makes.
unfoldable pub requests_made : (ℕ → Reply) → ℕ
unfolding poll
requests_made get = (poll get repeats 0 no_answer).1

-- `decode` reads the JSON of a body.
module _ {A : Type 0} (decode : String → Result A) where
  -- What `ActionResult` does with the last answer.
  unfoldable pub read_answer : Reply → Result A
  unfolding show_ℕ
  read_answer (failed e) = err e
  read_answer (reply status body) =
      if status == 200
      then decode body
      else err ("action result status not ok, got: " <> show_ℕ status)

  -- `ActionResult`
  unfoldable pub action_result : (ℕ → Reply) → Result A
  unfolding poll read_answer
  action_result get = read_answer (poll get repeats 0 no_answer).0

  -- `TeeInfo`, which does not look at the status.
  unfoldable pub tee_info : World → String → Result A
  tee_info w node_url = elim (w.http_get (node_url <> "/info")) [
    | failed e ↦ err e
    | reply status body ↦ decode body
  ]

-- `TeeCodeHash` and `TestPlatform` of encoding.go.
abbrev pub tee_code_hash : Hash
tee_code_hash = 0x194844cf417dde867073e5ab7199fa4d21fd82b5dbe2bdea8b3d7fc18d10fdc2

abbrev pub test_platform : Hash
test_platform = 0x544553545f504c4154464f524d00000000000000000000000000000000000000

-- The part of `GetCodeHashAndPlatform` after the two values are found: `show_hash` is how
-- `%s` prints a hash, and `machine` has the values that the node has told.
compare_hashes : (Hash → String) → Hash × Hash → Hash × Hash → Result (Hash × Hash)
compare_hashes show_hash (code_hash, platform) (machine_code_hash, machine_platform) =
    if code_hash == machine_code_hash
    then (if platform == machine_platform
        then ok (code_hash, platform)
        else err
            ("platforms do not matc: " <> show_hash platform <> ", " <> show_hash machine_platform))
    else err
        ("code hashes do not match: " <> show_hash code_hash <> ", " <> show_hash machine_code_hash)

-- `GetCodeHashAndPlatform`; `claims` is what `CodeHashAndPlatform` reads of the attestation.
unfoldable pub get_code_hash_and_platform :
    World → (Hash → String) → Result (Hash × Hash) → Hash × Hash → Result (Hash × Hash)
unfolding compare_hashes
get_code_hash_and_platform w show_hash claims machine =
    if w.getenv "SIMULATED_TEE" == "true"
    then compare_hashes show_hash (tee_code_hash, test_platform) machine
    else elim claims [ err e ↦ err e | ok pair ↦ compare_hashes show_hash pair machine ]
