-- ===== src/Tests/Chains.antt =====
-- A node that mines every transaction at once, and one on which every transaction reverts.
use aurelith.Base.{
  ℕ, ◌≡◌, ◌≢◌, ◌↔◌, refl, ap, String, Option, none, some, List, [], ◌∷◌, ok, err, arith, string_eq,
  inr,
}
use aurelith.Base.Text.{◌<>◌, encode_hex, len}
use aurelith.World.{Hash, World, contents}
use aurelith.Revert.{reverted}
use aurelith.Chain.{Receipt, Transaction, Node, check_tx}
use aurelith.Chain.Laws.{check_tx_ok, check_tx_reason}
use aurelith.Chain.Support.{
  Addresses, RawContract, Field, get_field, ToolSupport, Library, parse_addresses, support_bindings,
  default_support,
}
use aurelith.Chain.Addresses.{last_address, tag, parse_addresses_last}
use aurelith.Tests.{test_world}

abbrev pub test_receipt : Receipt
test_receipt = record { tx_hash = 7; status = 1; logs = 21 ∷ 22 ∷ [] }

abbrev test_transaction : Transaction
test_transaction = record {
  tx_to = some 9;
  tx_gas = 21000;
  tx_gas_price = 1;
  tx_value = 0;
  tx_data = [];
}

-- The reason of every revert.
abbrev known_reason : List ℕ → Option String
known_reason bytes = some "paused"

abbrev pub test_node : (C : Type 0) → Node C
test_node C = record {
  wait_mined = λ tx c. (c, ok test_receipt);
  hash_hex = λ hash. "0xhash";
  transaction_by_hash = λ tx c. ok test_transaction;
  sender = λ tx. ok 5;
  call_contract = λ msg c. reverted (record { message = "execution reverted"; error_data = none });
  unpack_revert = known_reason;
}

pub check_tx-mined :
    {C : Type 0} (tx : Hash) (c : C) → check_tx (test_node C) tx c ≡ (c, ok test_receipt)
check_tx-mined {C} tx c =
    (check_tx_ok (test_node C) tx c c test_receipt).1 (refl, λ h. omega (arith, h))

check_tx_ok_example :
    (check_tx (test_node ℕ) 7 3 ≡ (3, ok test_receipt))
    ↔ (((test_node ℕ).wait_mined 7 3 ≡ (3, ok test_receipt)) × (test_receipt.status ≢ 0))
check_tx_ok_example = check_tx_ok (test_node ℕ) 7 3 3 test_receipt

abbrev failed_receipt : Receipt
failed_receipt = record { tx_hash = 7; status = 0; logs = [] }

abbrev revert_payload : List ℕ
revert_payload = 8 ∷ 195 ∷ 121 ∷ 160 ∷ []

abbrev failing_node : Node ℕ
failing_node = record {
  wait_mined = λ tx c. (c, ok failed_receipt);
  hash_hex = λ hash. "0xhash";
  transaction_by_hash = λ tx c. ok test_transaction;
  sender = λ tx. ok 5;
  call_contract = λ msg c. reverted (record {
    message = "execution reverted";
    error_data = some ("0x" <> encode_hex revert_payload);
  });
  unpack_revert = known_reason;
}

abbrev reason : String
reason = "paused"

paused_some : reason ≢ ""
paused_some h = absurd (omega (arith, ap len h))

check_tx_reason_example :
    check_tx failing_node 7 3 ≡ (3, err ("error: Transaction fail: " <> "paused"))
check_tx_reason_example =
    check_tx_reason failing_node 7 3 3 failed_receipt test_transaction 5 revert_payload reason refl
      refl refl refl (inr ("execution reverted", refl))
      (omega arith, (omega arith, (omega arith, (omega arith, tt)))) refl paused_some

-- Two entries for the FlareTeeManager.
abbrev raw_contracts : List RawContract
raw_contracts =
    record { name = "FlareTeeManager"; address = "0x01" }
    ∷ record { name = "Fdc2Hub"; address = "0x02" }
    ∷ record { name = "FlareTeeManager"; address = "0x03" }
    ∷ []

abbrev pub test_library : Library
test_library = record {
  decode_addresses = λ text. err "no object";
  decode_contracts = λ text. ok raw_contracts;
  hex_to_ecdsa = λ text. ok (len text);
  bind_facet = λ facet address. none;
  get_chain_id = ok 114;
  dial_node = λ url. none;
}

abbrev pub found_world : World
found_world = record test_world { file = λ path. contents "[]" }

parse_addresses_last_example :
    (s : Addresses) × (parse_addresses test_library found_world "addresses.json" ≡ ok s)
    × ((f : Field) → get_field f s ≡ last_address found_world (tag f) 0 raw_contracts)
parse_addresses_last_example =
    parse_addresses_last test_library found_world "addresses.json" "[]" raw_contracts refl refl

abbrev found_support : ToolSupport
found_support =
    let addresses : Addresses = record {
      flare_system_manager = 0;
      fdc2_hub = 178;
      flare_tee_manager = 178;
    } in
    record {
      prv = 0x804b01a8c27a65cc694a867be76edae3ccce7a7161cda1f67a8349df696d2207;
      bindings = support_bindings addresses;
      addresses = addresses;
      chain_id = 114;
    }

default_found : default_support test_library found_world "a" "b" ≡ ok found_support
unfolding default_support string_eq
default_found = refl
