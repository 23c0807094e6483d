-- ===== src/Governance.antt =====
-- `fcc-extension/tools/pkg/fccutils/governance.go` and the parsing of `fcc-extension/tools/cmd/set-governance/main.go`: the
-- signers that govern the TEE machines of an extension, and their threshold.
pub mod Laws
use aurelith.Base.{
  ℕ, String, Bool, not, ◌||◌, Option, none, some, List, [], ◌∷◌, map, Error, Result, ok, err, ◌==◌,
  nat_eq, string_eq, ltb, length, select, if◌then◌else◌,
}
use aurelith.Base.Text.{◌<>◌, show_ℕ, split, trim_space, parse_uint}
use aurelith.World.{Address, Hash, World}
use aurelith.Chain.{Node, outcome, check_tx}

-- The calls that concern one extension, of go-ethereum, of tee-node and of the contract bindings,
-- on the states `C` of a chain. A transaction is its hash.
pub record Chain (C : Type 0) : Type 0 where
  -- `types.GovernanceHash`
  pub governance_hash : List Address → ℕ → Result Hash
  -- `GetLatestTeeGovernanceHash`
  pub latest_governance_hash : C → Result Hash
  -- the error of `bind.NewKeyedTransactorWithChainID`
  pub transactor : Error
  -- `SetNewTeeGovernance`
  pub set_new_tee_governance : List Address → ℕ → C → C × Result Hash
  pub node : Node C

no_signers : String
no_signers = "at least one governance signer is required (set GOVERNANCE_SIGNERS)"

invalid_threshold : ℕ → ℕ → String
unfolding show_ℕ
invalid_threshold threshold signers =
    "invalid GOVERNANCE_THRESHOLD " <> show_ℕ threshold <> " for " <> show_ℕ signers <> " signer(s)"

module _ {C : Type 0} (chain : Chain C) (signers : List Address) (threshold : ℕ) where
  -- From the transactor on.
  send_governance : C → C × Error
  send_governance c = elim chain.transactor [
    | some e ↦ (c, some e)
    | none ↦
        let (sent, answer) = chain.set_new_tee_governance signers threshold c in
        elim answer [
          | err e ↦ (sent, some ("SetNewTeeGovernance failed: " <> e))
          | ok tx ↦ outcome (check_tx chain.node tx sent)
        ]
  ]

  -- After the guards.
  update_governance : C → C × Error
  update_governance c = elim (chain.governance_hash signers threshold) [
    | err e ↦ (c, some ("computing governance hash: " <> e))
    | ok desired ↦ elim (chain.latest_governance_hash c) [
      | err e ↦ send_governance c
      | ok current ↦ if current == desired then (c, none) else send_governance c
    ]
  ]

  -- `SetTeeGovernance`
  unfoldable pub set_tee_governance : C → C × Error
  unfolding update_governance send_governance no_signers invalid_threshold
  set_tee_governance c =
      if length signers == 0
      then (c, some no_signers)
      else if threshold == 0 || ltb (length signers) threshold
      then (c, some (invalid_threshold threshold (length signers)))
      else update_governance c

-- `parseSigners`
unfoldable pub parse_signers : World → String → Address → List Address
parse_signers w raw fallback =
    let signers =
      map w.hex_to_address (select (λ part. not (part == "")) (map trim_space (split b',' raw))) in
    if length signers == 0 then fallback ∷ [] else signers

-- `parseThreshold`
unfoldable pub parse_threshold : String → ℕ
parse_threshold raw = elim (parse_uint (trim_space raw)) [
  | none ↦ 1
  | some v ↦ if ltb 0 v then v else 1
]

-- The last steps of `main` of set-governance, with the default signer in hand.
unfoldable pub set_governance : {C : Type 0} → Chain C → World → Address → C → C × Error
unfolding set_tee_governance parse_signers parse_threshold
set_governance chain w default_signer c =
    set_tee_governance chain (parse_signers w (w.getenv "GOVERNANCE_SIGNERS") default_signer)
      (parse_threshold (w.getenv "GOVERNANCE_THRESHOLD")) c
