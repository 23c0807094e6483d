-- ===== src/Tests/Settings.antt =====
-- The policy and the governance on small chains.
use aurelith.Base.{
  ℕ, ◌≡◌, ◌≢◌, ◌↔◌, ◌<◌, ◌≤◌, ◌+◌, refl, none, some, [], ◌∷◌, List, length, ok, arith, ℕ_discrete,
}
use aurelith.Policy.{check_ftdc_proxy_policy_consistency}
use aurelith.Policy.Laws.{IsMismatch, check_ftdc_proxy_policy_consistency_lem}
use aurelith.Governance.{Chain, set_tee_governance, parse_signers, parse_threshold}
use aurelith.Governance.Laws.{
  Confirms, IsCurrent, set_tee_governance_done, set_tee_governance_again, parse_governance,
}
use aurelith.World.{Address}
use aurelith.Chain.{check_tx}
use aurelith.Tests.{test_world}
use aurelith.Tests.Chains.{test_node}

check_ftdc_proxy_policy_consistency_lem_example :
    (check_ftdc_proxy_policy_consistency (ok (some 7)) (ok 9) ≢ none)
    ↔ IsMismatch (ok (some 7)) (ok 9)
check_ftdc_proxy_policy_consistency_lem_example =
    check_ftdc_proxy_policy_consistency_lem (ok (some 7)) (ok 9) (omega arith)

-- A chain whose state is the latest hash, and a hash that is the threshold and one more.
abbrev test_chain : Chain ℕ
test_chain = record {
  governance_hash = λ signers threshold. ok (threshold + 1);
  latest_governance_hash = λ c. ok c;
  transactor = none;
  set_new_tee_governance = λ signers threshold c. (threshold + 1, ok 99);
  node = test_node ℕ;
}

test_chain_confirms : Confirms test_chain
unfolding check_tx ℕ_discrete
test_chain_confirms signers threshold c h tx hashed answer checked = hashed

abbrev two_signers : List Address
two_signers = 11 ∷ 12 ∷ []

test_chain_done : (set_tee_governance test_chain two_signers 2 0).1 ≡ none
unfolding set_tee_governance check_tx ℕ_discrete
test_chain_done = refl

set_tee_governance_done_example :
    (0 < 2)
    × (2 ≤ length two_signers)
    × IsCurrent test_chain two_signers 2 (set_tee_governance test_chain two_signers 2 0).0
set_tee_governance_done_example =
    set_tee_governance_done test_chain two_signers 2 0 test_chain_confirms test_chain_done

set_tee_governance_again_example :
    let (t, _) = set_tee_governance test_chain two_signers 2 0 in
    set_tee_governance test_chain two_signers 2 t ≡ (t, none)
set_tee_governance_again_example =
    set_tee_governance_again test_chain two_signers 2 0 test_chain_confirms test_chain_done

parse_governance_example :
    (0 < length (parse_signers test_world " , 0xb2" 5))
    × (0 < parse_threshold "zero")
    × (parse_threshold "zero" < 18446744073709551616)
parse_governance_example = parse_governance test_world " , 0xb2" "zero" 5
