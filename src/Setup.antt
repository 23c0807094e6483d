-- ===== src/Setup.antt =====
-- `fcc-extension/tools/pkg/fccutils/extension.go`: the registration of an extension with the contracts.
pub mod Steps
pub mod Laws
use aurelith.Base.{
  ℕ, String, Bool, true, false, Option, none, some, List, [], ◌∷◌, Error, Result, ok, err, length,
}
use aurelith.Base.Text.{◌<>◌, show_ℕ}
use aurelith.World.{Address, Hash}
use aurelith.Chain.{Call, in_context, query_context, and_then, Node, check_tx}

-- The calls of go-ethereum and of the contract bindings. A transaction is its hash, and a log of
-- a receipt is a number.
pub record Contracts (C : Type 0) : Type 0 where
  -- the error of `bind.NewKeyedTransactorWithChainID`
  pub transactor : Error
  pub node : Node C
  pub register : Address → Address → Call C Hash
  pub parse_extension_registered : ℕ → Result ℕ
  pub parse_contracts_set : ℕ → Error
  pub is_allowed_machine_owner : ℕ → Address → C → Result Bool
  pub add_machine_owners : ℕ → List Address → Call C Hash
  pub parse_machine_owners_added : ℕ → Error
  pub is_allowed_project_owner : ℕ → Address → C → Result Bool
  pub add_project_owners : ℕ → List Address → Call C Hash
  pub parse_project_owners_added : ℕ → Error
  pub is_key_type_supported : ℕ → Hash → C → Result Bool
  pub add_supported_key_types : ℕ → List Hash → Call C Hash

-- Success of a parser whose value is not used.
parsed : {C : Type 0} → String → Error → Call C (Unit {0})
parsed context none c = (c, ok tt)
parsed context (some e) c = (c, err (context <> e))

-- The event in the first log of a receipt, of which only the presence counts.
read_event : {C : Type 0} → String → String → (ℕ → Error) → List ℕ → Call C (Unit {0})
unfolding parsed
read_event what event parse [] c = (c, err ("no logs in " <> what <> " transaction — unexpected"))
read_event what event parse (first ∷ rest) c =
    parsed ("failed to parse " <> event <> " event: ") (parse first) c

module _ {C : Type 0} (k : Contracts C) where
  -- The events of `Register`, of which the id is used.
  read_registered : List ℕ → Call C ℕ
  read_registered (first ∷ second ∷ logs) c = elim (k.parse_extension_registered first) [
    | err e ↦ (c, err ("failed to parse TeeExtensionRegistered event: " <> e))
    | ok id ↦ elim (k.parse_contracts_set second) [
      | some e ↦ (c, err ("failed to parse TeeExtensionContractsSet event: " <> e))
      | none ↦ (c, ok id)
    ]
  ]
  read_registered logs c = (
    c,
    err (
        "expected at least 2 logs from Register() transaction, got "
        <> show_ℕ (length logs)
        <> " — the registry contract may have changed or be behind a proxy"),
  )

  -- `registerExtension`
  unfoldable pub register_extension : Address → Address → Call C ℕ
  unfolding read_registered show_ℕ
  register_extension sender verifier c =
      and_then (in_context "TeeExtensionRegistry.Register failed: " (k.register verifier sender c))
        λ tx c₁.
          and_then (in_context "Register transaction failed: " (check_tx k.node tx c₁))
            λ receipt. read_registered receipt.logs

  -- `allowTeeMachineOwners` and `allowTeeProjectManagerOwners`, which differ in the call, the
  -- event and their names.
  allow_owners : String → String → Call C Hash → (ℕ → Error) → Call C (Unit {0})
  unfolding read_event
  allow_owners what event add parse c = and_then (in_context (what <> " failed: ") (add c)) λ tx c₁.
      and_then (in_context (what <> " transaction failed: ") (check_tx k.node tx c₁))
        λ receipt. read_event what event parse receipt.logs

  allow_machine_owners : ℕ → List Address → Call C (Unit {0})
  unfolding allow_owners
  allow_machine_owners id owners =
      allow_owners "AddAllowedTeeMachineOwners" "AllowedTeeMachineOwnersAdded"
        (k.add_machine_owners id owners) k.parse_machine_owners_added

  allow_project_owners : ℕ → List Address → Call C (Unit {0})
  unfolding allow_owners
  allow_project_owners id owners =
      allow_owners "AddAllowedTeeWalletProjectOwners" "AllowedTeeWalletProjectOwnersAdded"
        (k.add_project_owners id owners) k.parse_project_owners_added

  -- `addSupportedKeyTypesTx`
  send_key_types : ℕ → List Hash → Call C (Unit {0})
  send_key_types id types c =
      and_then (k.add_supported_key_types id types c)
        λ tx c₁. and_then (check_tx k.node tx c₁) λ receipt c₂. (c₂, ok tt)

  -- `AddSupportedKeyTypes`
  add_key_types : ℕ → List Hash → Call C (Unit {0})
  unfolding send_key_types
  add_key_types id types c = elim k.transactor [
    | some e ↦ (c, err e)
    | none ↦ send_key_types id types c
  ]

  -- `if done { skip } else { call }` on a query's answer.
  ensure : Result Bool → Call C (Unit {0}) → Call C (Unit {0})
  ensure (err e) call c = (c, err e)
  ensure (ok true) call c = (c, ok tt)
  ensure (ok false) call c = call c

  module _ (deployer : Address) (evm_type : Hash) where
    -- Step 2
    pub ensure_machine_owner : ℕ → Call C (Unit {0})
    unfolding ensure allow_machine_owners
    ensure_machine_owner id c =
        ensure
          (query_context "failed checking TEE machine owner status: "
            (k.is_allowed_machine_owner id deployer c))
          (λ c.
            in_context
              ("failed adding TEE machine owners (extension exists as ID "
                <> show_ℕ id
                <> " but owners not set): ")
              (allow_machine_owners id (deployer ∷ []) c))
          c

    -- Step 3
    pub ensure_project_owner : ℕ → Call C (Unit {0})
    unfolding ensure allow_project_owners
    ensure_project_owner id c =
        ensure
          (query_context "failed checking wallet project owner status: "
            (k.is_allowed_project_owner id deployer c))
          (λ c.
            in_context
              ("failed adding wallet project owners (extension exists as ID "
                <> show_ℕ id
                <> " but owners not set): ")
              (allow_project_owners id (deployer ∷ []) c))
          c

    -- Step 4, with `IsKeyTypeSupported`
    pub ensure_key_type : ℕ → Call C (Unit {0})
    unfolding ensure add_key_types
    ensure_key_type id c =
        ensure (k.is_key_type_supported id evm_type c) (add_key_types id (evm_type ∷ [])) c

    -- The four steps of `SetupExtension`.
    setup_steps : Address → Address → Call C ℕ
    unfolding register_extension ensure_machine_owner ensure_project_owner ensure_key_type
    setup_steps sender verifier c = and_then (register_extension sender verifier c) λ id c₁.
        and_then (ensure_machine_owner id c₁) λ _ c₂.
          and_then (ensure_project_owner id c₂)
            λ _ c₃. and_then (ensure_key_type id c₃) λ _ c₄. (c₄, ok id)

    -- `SetupExtension`
    unfoldable pub setup_extension : Address → Address → Call C ℕ
    unfolding setup_steps
    setup_extension sender verifier c = elim k.transactor [
      | some e ↦ (c, err e)
      | none ↦ setup_steps sender verifier c
    ]
