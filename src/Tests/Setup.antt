-- ===== src/Tests/Setup.antt =====
-- The setup of an extension on a chain that keeps three facts.
use aurelith.Base.{ℕ_discrete, ◌≡◌, refl, sym, ap, ◌∙◌, Bool, true, false, none, ok}
use aurelith.World.{Hash}
use aurelith.Chain.{Receipt, check_tx}
use aurelith.Chain.Laws.{check_tx_ok}
use aurelith.Tests.Chains.{test_node}
use aurelith.Setup.{Contracts, setup_extension}
use aurelith.Setup.Laws.{Honours, IsMachineOwner, IsProjectOwner, IsSupported, setup_extension_done}

-- Whether the deployer is a machine owner and a project owner, and the key type is supported.
abbrev Facts : Type 0
Facts = Bool × Bool × Bool

abbrev test_contracts : Contracts Facts
test_contracts = record {
  transactor = none;
  node = test_node Facts;
  register = λ verifier sender c. (c, ok 1);
  parse_extension_registered = λ log. ok 7;
  parse_contracts_set = λ log. none;
  is_allowed_machine_owner = λ id a c. ok c.0;
  add_machine_owners = λ id owners c. ((true, c.1, c.2), ok 2);
  parse_machine_owners_added = λ log. none;
  is_allowed_project_owner = λ id a c. ok c.1;
  add_project_owners = λ id owners c. ((c.0, true, c.2), ok 3);
  parse_project_owners_added = λ log. none;
  is_key_type_supported = λ id type c. ok c.2;
  add_supported_key_types = λ id types c. ((c.0, c.1, true), ok 4);
}

-- The test chain is as it was when its transaction was sent.
mined_same :
    (tx : Hash) (c t : Facts) (r : Receipt) → check_tx (test_node Facts) tx c ≡ (t, ok r) → c ≡ t
mined_same tx c t r h = ap (λ q. q.0) ((check_tx_ok (test_node Facts) tx c t r).0 h).0

test_honours : Honours test_contracts 5 6
test_honours id c t = (
  λ (c₁, tx, receipt, sent, mined).
      ap (λ q. ok q.0) (sym (mined_same tx c₁ t receipt mined)) ∙ ap (λ q. ok q.0.0) (sym sent),
  λ (c₁, tx, receipt, sent, mined). (
    ap (λ q. ok q.1) (sym (mined_same tx c₁ t receipt mined)) ∙ ap (λ q. ok q.0.1) (sym sent),
    λ machine.
        ap (λ q. ok q.0) (sym (mined_same tx c₁ t receipt mined))
        ∙ ap (λ q. ok q.0.0) (sym sent)
        ∙ machine,
  ),
  λ (c₁, tx, receipt, sent, mined). (
    ap (λ q. ok q.2) (sym (mined_same tx c₁ t receipt mined)) ∙ ap (λ q. ok q.0.2) (sym sent),
    λ machine.
        ap (λ q. ok q.0) (sym (mined_same tx c₁ t receipt mined))
        ∙ ap (λ q. ok q.0.0) (sym sent)
        ∙ machine,
    λ project.
        ap (λ q. ok q.1) (sym (mined_same tx c₁ t receipt mined))
        ∙ ap (λ q. ok q.0.1) (sym sent)
        ∙ project,
  ),
)

abbrev nothing_yet : Facts
nothing_yet = (false, true, false)

abbrev all_facts : Facts
all_facts = (true, true, true)

setup_runs : setup_extension test_contracts 5 6 11 12 nothing_yet ≡ (all_facts, ok 7)
unfolding setup_extension check_tx ℕ_discrete
setup_runs = refl

setup_extension_done_example :
    IsMachineOwner test_contracts 5 6 7 all_facts
    × IsProjectOwner test_contracts 5 6 7 all_facts
    × IsSupported test_contracts 5 6 7 all_facts
setup_extension_done_example =
    setup_extension_done test_contracts 5 6 11 12 nothing_yet all_facts 7 test_honours setup_runs
