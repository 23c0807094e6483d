-- ===== src/Validate.antt =====
-- `fcc-extension/tools/pkg/validate/validate.go`: the checks made before a deployment.
pub mod Laws
use aurelith.Base.{
  ℕ, String, Bool, Option, none, some, List, [], ◌∷◌, Error, Result, ok, err, ◌==◌, nat_eq,
  string_eq, ltb, if◌then◌else◌,
}
use aurelith.Base.Text.{◌<>◌, show_ℕ}
use aurelith.World.{World, Client, Address, zero_address}

-- `MinDeployBalance`, in wei
abbrev pub min_deploy_balance : ℕ
min_deploy_balance = 10_000_000_000_000_000

module _ (w : World) where
  unfoldable pub address_not_zero : Address → String → Error
  address_not_zero addr label =
      if addr == zero_address
      then some
          (label <> " is the zero address (" <> w.address_hex addr <> ") in the addresses file")
      else none

  -- `AddressHasCode` once the code is there.
  code_present : Address → String → List ℕ → Error
  code_present addr label [] = some (
      label
      <> " at "
      <> w.address_hex addr
      <> " has no deployed code. This address will be set as immutable in the contract constructor and cannot be changed. Check your deployed-addresses.json file — are you on the right network?")
  code_present addr label (_ ∷ _) = none

  unfoldable pub address_has_code : Option Client → Address → String → Error
  unfolding code_present
  address_has_code none addr label =
      some ("cannot check " <> label <> ": no chain client connected")
  address_has_code (some client) addr label = elim (client.code_at addr) [
    | err e ↦ some ("cannot check " <> label <> ": " <> e)
    | ok code ↦ code_present addr label code
  ]

  -- The private key is a number; only its address is used.
  unfoldable pub key_has_funds : Option Client → ℕ → ℕ → Error
  unfolding show_ℕ
  key_has_funds none key min_wei = some "cannot check deployer balance: no chain client connected"
  key_has_funds (some client) key min_wei =
      let addr = w.pubkey_to_address key in
      elim (client.balance_at addr) [
        | err e ↦ some ("cannot check deployer balance: " <> e)
        | ok balance ↦
            if ltb balance min_wei
            then some (
                "deployer "
                <> w.address_hex addr
                <> " has insufficient funds (balance: "
                <> show_ℕ balance
                <> " wei, minimum required: "
                <> show_ℕ min_wei
                <> " wei). Fund this account before deploying")
            else none
      ]

  unfoldable pub is_using_dev_key : Bool
  is_using_dev_key = w.getenv "DEPLOYMENT_PRIVATE_KEY" == ""
