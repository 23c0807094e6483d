-- ===== src/Chain/Support.antt =====
-- `fcc-extension/tools/pkg/support/support.go` and `fcc-extension/tools/pkg/configs/configs.go`: the addresses of the contracts, the key that
-- signs, and the contract bindings that every tool starts with.
use Prim.Native.Char.{code}
use Prim.Native.String.{◌∷◌ as ◌▸◌}
use aurelith.Base.{
  ℕ, String, ◌&&◌, ◌||◌, Option, none, some, List, [], ◌∷◌, Error, Result, ok, err, ◌==◌, nat_eq,
  string_eq, if◌then◌else◌,
}
use aurelith.World.{Address, World, missing, unreadable, contents, zero_address}

-- `configs.PrvWithFunds`
abbrev pub prv_with_funds : ℕ
prv_with_funds = 0x804b01a8c27a65cc694a867be76edae3ccce7a7161cda1f67a8349df696d2207

pub record Addresses : Type 0 where
  pub flare_system_manager : Address
  pub fdc2_hub : Address
  pub flare_tee_manager : Address

abbrev pub no_addresses : Addresses
no_addresses = record {
  flare_system_manager = zero_address;
  fdc2_hub = zero_address;
  flare_tee_manager = zero_address;
}

-- An entry of the file of addresses; its `contractName` is not used.
pub record RawContract : Type 0 where
  pub name : String
  pub address : String

-- A field of `Addresses` that `fieldMap` points to.
pub data Field : Type 0 where
  system_manager_field hub_field tee_manager_field : Field

-- `fieldMap`: the keys are the JSON tags.
unfoldable pub field_map : String → Option Field
field_map key =
    if key == "FlareSystemsManager"
    then some system_manager_field
    else if key == "Fdc2Hub"
    then some hub_field
    else if key == "FlareTeeManager"
    then some tee_manager_field
    else none

-- `*dest = ...`
unfoldable pub set_field : Field → Address → Addresses → Addresses
set_field system_manager_field a s = record s { flare_system_manager = a }
set_field hub_field a s = record s { fdc2_hub = a }
set_field tee_manager_field a s = record s { flare_tee_manager = a }

abbrev pub get_field : Field → Addresses → Address
get_field system_manager_field s = s.flare_system_manager
get_field hub_field s = s.fdc2_hub
get_field tee_manager_field s = s.flare_tee_manager

-- A facet whose binding `NewSupport` makes.
pub data Binding : Type 0 where
  machine_manager wallet_manager wallet_key_manager wallet_project_manager : Binding
  flare_systems_manager fdc2_hub_contract verification extension_manager : Binding
  owner_allowlist extension_governance : Binding

-- `Support`: the bindings with the addresses they are bound to, in the order they are made.
pub record ToolSupport : Type 0 where
  pub prv : ℕ
  pub bindings : List (Binding × Address)
  pub addresses : Addresses
  pub chain_id : ℕ

-- The calls of `encoding/json`, of `godotenv` with `os`, and of go-ethereum.
pub record Library : Type 0 where
  pub decode_addresses : String → Result Addresses
  pub decode_contracts : String → Result (List RawContract)
  pub hex_to_ecdsa : String → Result ℕ
  -- the constructor of a binding
  pub bind_facet : Binding → Address → Error
  pub get_chain_id : Result ℕ
  -- `ethclient.Dial`
  pub dial_node : String → Error

-- The prefix that `DefaultPrivateKey` cuts.
unfoldable pub trim_key_prefix : String → String
trim_key_prefix (c ▸ d ▸ s) =
    if code c == b'0' && (code d == b'x' || code d == b'X') then s else c ▸ d ▸ s
trim_key_prefix s = s

-- `DefaultPrivateKey`, in the environment that `godotenv.Load` leaves.
unfoldable pub default_private_key : Library → World → Result ℕ
unfolding trim_key_prefix
default_private_key lib w =
    let raw = w.getenv "DEPLOYMENT_PRIVATE_KEY" in
    if raw == "" then ok prv_with_funds else lib.hex_to_ecdsa (trim_key_prefix raw)

-- `os.ReadFile`
unfoldable pub read_file : World → String → Result String
read_file w path = elim (w.file path) [
  | missing ↦ err "no such file or directory"
  | unreadable ↦ err "cannot be read"
  | contents text ↦ ok text
]

unfoldable pub store_contract : World → RawContract → Addresses → Addresses
unfolding field_map set_field
store_contract w c addrs = elim (field_map c.name) [
  | none ↦ addrs
  | some field ↦ set_field field (w.hex_to_address c.address) addrs
]

-- The loop of `ParseAddresses`.
unfoldable pub store_contracts : World → List RawContract → Addresses → Addresses
unfolding store_contract
store_contracts w [] addrs = addrs
store_contracts w (c ∷ cs) addrs = store_contracts w cs (store_contract w c addrs)

-- `ParseAddresses`
unfoldable pub parse_addresses : Library → World → String → Result Addresses
unfolding read_file store_contracts
parse_addresses lib w path = elim (read_file w path) [
  | err e ↦ err e
  | ok text ↦ elim (lib.decode_contracts text) [
    | err e ↦ err e
    | ok raw ↦ ok (store_contracts w raw no_addresses)
  ]
]

-- `configs.ReadAddresses`
unfoldable pub read_addresses : Library → World → String → Result Addresses
unfolding read_file
read_addresses lib w path = elim (read_file w path) [
  | err e ↦ err e
  | ok text ↦ lib.decode_addresses text
]

-- The bindings of `NewSupport`, up to the first error.
unfoldable pub bind_all : Library → List (Binding × Address) → Error
bind_all lib [] = none
bind_all lib ((b, a) ∷ rest) =
    let later = bind_all lib rest in elim (lib.bind_facet b a) [ some e ↦ some e | none ↦ later ]

abbrev pub support_bindings : Addresses → List (Binding × Address)
support_bindings s =
    (machine_manager, s.flare_tee_manager)
    ∷ (wallet_manager, s.flare_tee_manager)
    ∷ (wallet_key_manager, s.flare_tee_manager)
    ∷ (wallet_project_manager, s.flare_tee_manager)
    ∷ (flare_systems_manager, s.flare_system_manager)
    ∷ (fdc2_hub_contract, s.fdc2_hub)
    ∷ (verification, s.flare_tee_manager)
    ∷ (extension_manager, s.flare_tee_manager)
    ∷ (owner_allowlist, s.flare_tee_manager)
    ∷ (extension_governance, s.flare_tee_manager)
    ∷ []

-- `NewSupport`
unfoldable pub new_support : Library → ℕ → Addresses → Result ToolSupport
unfolding bind_all
new_support lib prv addrs = elim (bind_all lib (support_bindings addrs)) [
  | some e ↦ err e
  | none ↦ elim lib.get_chain_id [
    | err e ↦ err e
    | ok id ↦
        ok (record {
          prv = prv;
          bindings = support_bindings addrs;
          addresses = addrs;
          chain_id = id;
        })
  ]
]

-- The addresses of `DefaultSupport`: either format of the file.
unfoldable pub find_addresses : Library → World → String → Result Addresses
unfolding read_addresses parse_addresses
find_addresses lib w path = elim (read_addresses lib w path) [
  | ok addrs ↦ ok addrs
  | err e ↦ parse_addresses lib w path
]

-- `DefaultSupport`
unfoldable pub default_support : Library → World → String → String → Result ToolSupport
unfolding find_addresses default_private_key new_support
default_support lib w path node_url = elim (find_addresses lib w path) [
  | err e ↦ err e
  | ok addrs ↦ elim (lib.dial_node node_url) [
    | some e ↦ err e
    | none ↦ elim (default_private_key lib w) [ err e ↦ err e | ok prv ↦ new_support lib prv addrs ]
  ]
]
