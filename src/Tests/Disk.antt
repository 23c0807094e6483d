-- ===== src/Tests/Disk.antt =====
-- A chain that remembers one machine, with a disk of one file.
use Prim.Native.Char.{code}
use Prim.Native.String.{[] as nil, ◌∷◌ as ◌▸◌}
use aurelith.Base.{
  ℕ, zero, suc, ◌+◌, ◌≡◌, refl, ap, ◌∙◌, String, none, [], ok, arith, ◌==◌, nat_eq, string_eq,
  ℕ_discrete, if◌then◌else◌,
}
use aurelith.Base.Text.{len}
use aurelith.World.{Address, FileState, missing, contents, reply}
use aurelith.Chain.{sent}
use aurelith.TeeCalls.Identity.{SignedTeeInfo, Crypto}
use aurelith.Registration.{Machines, RegistrationState}
use aurelith.Registration.File.{KeepsFiles}
use aurelith.Registration.Done.{Removes}
use aurelith.Tests.Chains.{test_node}

-- Numbers in unary, before a text.
unfoldable pub ones : ℕ → String → String
ones zero t = t
ones (suc n) t = "1" ▸ ones n t

unfoldable pub unary : ℕ → String → ℕ × String
unary n nil = (n, nil)
unary n (c ▸ s) = let rest = unary (n + 1) s in if code c == b'1' then rest else (n, s)

unary-ones : (k n : ℕ) (t : String) → unary k (ones n ("," ▸ t)) ≡ (k + n, t)
unfolding unary ones ℕ_discrete
unary-ones k zero t = ap (λ z. (z, t)) (omega arith)
unary-ones k (suc n) t = unary-ones (k + 1) n t ∙ ap (λ z. (z, t)) (omega arith)

pub unary-ones_zero : (n : ℕ) (t : String) → unary 0 (ones n ("," ▸ t)) ≡ (n, t)
unary-ones_zero n t = unary-ones 0 n t ∙ ap (λ z. (z, t)) (omega arith)

unfoldable pub show_registration : RegistrationState → String
show_registration s =
    ones s.tee_attest_instruction_id ("," ▸ ones s.instruction_id ("," ▸ s.completed_steps))

unfoldable pub parse_registration : String → RegistrationState
parse_registration text =
    let (attest, rest) = unary 0 text in
    let (instruction, steps) = unary 0 rest in
    record {
      completed_steps = steps;
      tee_attest_instruction_id = attest;
      instruction_id = instruction;
    }

parse_registration-show_registration :
    (s : RegistrationState) → parse_registration (show_registration s) ≡ s
unfolding parse_registration show_registration
parse_registration-show_registration s =
    let tail = ones s.instruction_id ("," ▸ s.completed_steps) in
    let first = unary-ones_zero s.tee_attest_instruction_id tail in
    let second = unary-ones_zero s.instruction_id s.completed_steps in rw first (rw second refl)

-- The file, and the machine that is registered.
abbrev pub Disk : Type 0
Disk = FileState × Address

abbrev pub test_machines : Machines Disk
test_machines = record {
  node = test_node Disk;
  transactor = none;
  own_address = 5;
  flare_tee_manager = 9;
  hex_to_hash = λ text. len text;
  read_file = λ path c. c.0;
  write_file = λ path text c. ((contents text, c.1), none);
  remove_file = λ path c. ((missing, c.1), none);
  parse_state = λ text. ok (parse_registration text);
  show_state = λ s. ok (show_registration s);
  get_tee_machine = λ tee c. ok c.1;
  transform_signature = λ bytes. ok bytes;
  register = λ value machine signature proxy host owner c. ((c.0, 77), sent 1);
  machine_errors = none;
  pack_register = λ machine signature proxy host owner. none;
  parse_attestation_requested = λ log. ok 31;
  parse_instructions_sent = λ log. ok 4;
  send_attestation_request = λ value tee owner c. (c, ok 2);
  send_availability_request = λ value tee attestation external owner claim c. (c, ok 3);
  current_epoch = λ c. ok none;
  proxy_policy_id = λ url c. ok 0;
  http_attempt = λ url c i. reply 200 "proof";
  decode_action_response = λ body. ok [];
  decode_prove_response = λ bytes. ok (record {
    response_header = [];
    request_body = [];
    response_body = [];
    data_provider_signatures = [];
  });
  decode_header = λ bytes. ok [];
  decode_request = λ bytes. ok (record { tee_id = 77; rest = [] });
  decode_response = λ bytes. ok (record {
    status = 0;
    tee_timestamp = 0;
    code_hash = 0;
    platform = 0;
    initial_signing_policy_id = 0;
    last_signing_policy_id = 0;
    state = [];
  });
  send_to_production = λ proof c. (c, ok 6);
}

pub test_keeps : KeepsFiles test_machines
test_keeps = (
  λ s. (show_registration s, refl, ap (λ z. ok z) (parse_registration-show_registration s)),
  λ path text c. (refl, refl),
)

pub test_removes : Removes test_machines
test_removes path c = (refl, λ tee. refl)

abbrev pub test_info : SignedTeeInfo
test_info = record {
  tee_public_key = (1, 2);
  tee_chain_id = 114;
  tee_info = [];
  machine_data = record {
    extension_id = 1;
    initial_owner = 5;
    code_hash = 8;
    platform = 6;
    public_key = (1, 2);
    governance_hash = 0;
  };
  attestation = "token";
  data_signature = [];
  proxy_signature = [];
}

abbrev pub test_crypto : Crypto
test_crypto = record {
  parse_pub_key = λ key. ok 77;
  pubkey_to_address = λ key. key;
  info_hash = λ info. ok [];
  bytes_to_hash = λ bytes. 0;
  payload_hash = λ chain hash. ok 0;
  text_hash = λ hash. hash;
  sig_to_pub = λ hash signature. ok 78;
}
