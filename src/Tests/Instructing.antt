-- ===== src/Tests/Instructing.antt =====
-- Versions, instructions and the deployment on chains that accept everything.
use mathlib.Core.List.{reverse}
use aurelith.Base.{
  ℕ, ◌+◌, ◌≡◌, ◌≤◌, refl, sym, ap, String, true, false, Option, none, some, List, [], ◌∷◌, ok,
  length, arith, ℕ_discrete, string_eq,
}
use aurelith.Base.Text.{parse_hex}
use aurelith.World.{Address}
use aurelith.EnvFile.{is_extension_id, drop_two}
use aurelith.Validate.{address_not_zero, address_has_code, key_has_funds}
use aurelith.Chain.{Node, sent}
use aurelith.Versions.{
  Versions, utf8, string_to_bytes32, first_space, last_space, bytes32_to_string,
}
use aurelith.Versions.Bytes.{EndsWell, string_to_bytes32_back}
use aurelith.Instructions.{Senders, send_say_hello, instruction_fee, deploy_instruction_sender}
use aurelith.Instructions.Laws.{Instructed, NamesReceipts, send_say_hello_done}
use aurelith.Tools.{id_text, deploy_contract_tool, preflight_checks}
use aurelith.Tools.Hex.{id_text-is_extension_id}
use aurelith.Tools.Laws.{IsReady, Printed, deploy_contract_done}
use aurelith.Tests.{test_world, test_client}
use aurelith.Tests.Chains.{test_node, test_receipt}

abbrev test_version : String
test_version = "v0.1.0"

version_short : length (utf8 test_version) ≤ 32
unfolding utf8
version_short = omega arith

version_ends : EndsWell (utf8 test_version)
unfolding utf8
version_ends h = absurd (omega (arith, h))

no_first_space : first_space (utf8 test_version) ≡ 0
unfolding first_space utf8 ℕ_discrete
no_first_space = refl

no_last_space : last_space (reverse (utf8 test_version)) ≡ 0
unfolding last_space utf8 ℕ_discrete
no_last_space = refl

string_to_bytes32_back_example :
    (bytes : List ℕ) × (string_to_bytes32 test_world.is_print test_version ≡ ok bytes)
    × (length bytes ≡ 32)
    × (bytes32_to_string bytes ≡ utf8 test_version)
string_to_bytes32_back_example =
    string_to_bytes32_back test_world.is_print test_version version_short version_ends
      no_first_space no_last_space

-- A chain that counts the versions it has been sent.
abbrev test_versions : Versions ℕ
test_versions = record {
  node = test_node ℕ;
  transactor = λ key. none;
  is_supported = λ extension code_hash platform c. ok false;
  send_add_version = λ key extension bytes code_hash platforms c. (c + 1, ok 2);
}

-- A node whose receipts have the hash that was waited for.
abbrev naming_node : Node ℕ
naming_node = record (test_node ℕ) {
  wait_mined = λ tx c. (c, ok (record test_receipt { tx_hash = tx }));
}

-- A chain that counts the instructions.
abbrev pub test_senders : Senders ℕ
test_senders = record {
  node = naming_node;
  transactor = none;
  own_address = 5;
  flare_tee_manager = 9;
  deploy = λ registry manager c. (c, ok (178, 3));
  bind_sender = λ sender. none;
  set_id = λ sender c. (c, sent 4);
  hello = λ value sender message c. (c + 1, sent 5);
  goodbye = λ value sender name reason c. (c + 1, ok 6);
  pack_set_id = none;
  pack_hello = λ message. none;
  parse_instructions_sent = λ log. ok log;
}

hello_sent : send_say_hello test_senders 178 (1 ∷ []) 0 ≡ (1, ok (21, 5))
unfolding send_say_hello ℕ_discrete
hello_sent = refl

names_receipts : NamesReceipts test_senders
names_receipts tx c t r h =
    let told : ok (record test_receipt { tx_hash = tx }) ≡ ok r = ap (λ q. q.1) h in
    let same : record test_receipt { tx_hash = tx } ≡ r = ground (arith, told) in
    ap (λ z. z.tx_hash) (sym same)

send_say_hello_done_example :
    (c₁ : ℕ) × (test_senders.hello instruction_fee 178 (1 ∷ []) 0 ≡ (c₁, sent 5))
    × Instructed test_senders 5 5 21 c₁ 1
send_say_hello_done_example =
    send_say_hello_done test_senders 178 (1 ∷ []) 0 1 21 5 names_receipts hello_sent

id_text-is_extension_id_example :
    (is_extension_id (id_text 40961) ≡ true) × (parse_hex (drop_two (id_text 40961)) ≡ 40961)
id_text-is_extension_id_example = id_text-is_extension_id 40961 (omega arith)

abbrev printed : Option Address
printed = some 178

deploy_runs :
    deploy_contract_tool test_world test_senders (λ c. test_client) 5 false (λ name text c. c) "" 0
    ≡ (0, ok (some 178))
unfolding deploy_contract_tool preflight_checks address_not_zero address_has_code key_has_funds
    deploy_instruction_sender ℕ_discrete string_eq
deploy_runs = refl

deploy_contract_done_example :
    IsReady test_world test_client 5 9
    × (false ≡ true → ◌≡◌ {A = ℕ} 0 0 × (printed ≡ none))
    × (false ≡ false
        → Printed test_world test_senders (λ c. test_client) 5 (λ name text c. c) "" 0 0 printed)
deploy_contract_done_example =
    deploy_contract_done test_world test_senders (λ c. test_client) 5 (λ name text c. c) "" false 0
      0 printed deploy_runs
