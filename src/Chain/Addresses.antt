-- ===== src/Chain/Addresses.antt =====
-- What the tools have in hand after `ParseAddresses` and `DefaultSupport`.
use mathlib.Core.Path.{subst}
use aurelith.Base.{
  ℕ, String, ◌≡◌, ◌≢◌, inl, inr, refl, sym, ap, ◌∙◌, none, List, [], ◌∷◌, Result, ok, err, ◌==◌,
  string_eq, if◌then◌else◌, arith, All, Result-cases, Option-cases,
}
use aurelith.Base.Text.{len}
use aurelith.World.{Address, World, contents}
use aurelith.Chain.Support.{
  Addresses, no_addresses, RawContract, Field, system_manager_field, hub_field, tee_manager_field,
  field_map, set_field, get_field, Binding, ToolSupport, Library, read_file, store_contract,
  store_contracts, parse_addresses, bind_all, support_bindings, new_support, find_addresses,
  default_private_key, default_support,
}

-- The name that a file gives to a field.
abbrev pub tag : Field → String
tag system_manager_field = "FlareSystemsManager"
tag hub_field = "Fdc2Hub"
tag tee_manager_field = "FlareTeeManager"

-- What a reader of the file finds for a name: its last entry, or else `found`.
abbrev pub last_address : World → String → Address → List RawContract → Address
last_address w key found [] = found
last_address w key found (c ∷ cs) =
    last_address w key (if c.name == key then w.hex_to_address c.address else found) cs

-- The lengths of the names differ.
tags_differ :
    (tag hub_field ≢ tag system_manager_field)
    × (tag tee_manager_field ≢ tag system_manager_field)
    × (tag tee_manager_field ≢ tag hub_field)
tags_differ = (
  λ h. absurd (omega (arith, ap len h)),
  λ h. absurd (omega (arith, ap len h)),
  λ h. absurd (omega (arith, ap len h)),
)

store_contract-get_field :
    (w : World) (c : RawContract) (f : Field) (s : Addresses)
    → get_field f (store_contract w c s)
      ≡ (if c.name == tag f then w.hex_to_address c.address else get_field f s)
unfolding store_contract field_map set_field
store_contract-get_field w c system_manager_field s =
    let (one, two, three) = tags_differ in ground arith
store_contract-get_field w c hub_field s = let (one, two, three) = tags_differ in ground arith
store_contract-get_field w c tee_manager_field s =
    let (one, two, three) = tags_differ in ground arith

store_contracts-last :
    (w : World) (cs : List RawContract) (f : Field) (s : Addresses)
    → get_field f (store_contracts w cs s) ≡ last_address w (tag f) (get_field f s) cs
unfolding store_contracts
store_contracts-last w [] f s = refl
store_contracts-last w (c ∷ cs) f s =
    store_contracts-last w cs f (store_contract w c s)
    ∙ ap (λ a. last_address w (tag f) a cs) (store_contract-get_field w c f s)

none_yet : (f : Field) → get_field f no_addresses ≡ 0
none_yet system_manager_field = refl
none_yet hub_field = refl
none_yet tee_manager_field = refl

-- If the file can be read as a list of contracts, then `ParseAddresses` gives each of the three
-- fields the address of the last entry that has its JSON name, and the zero address where there is
-- none.
pub parse_addresses_last :
    (lib : Library) (w : World) (path text : String) (raw : List RawContract)
    → w.file path ≡ contents text
    → lib.decode_contracts text ≡ ok raw
    → (s : Addresses) × (parse_addresses lib w path ≡ ok s)
      × ((f : Field) → get_field f s ≡ last_address w (tag f) 0 raw)
unfolding parse_addresses read_file
parse_addresses_last lib w path text raw present decoded = (
  store_contracts w raw no_addresses,
  ground arith,
  λ f.
      store_contracts-last w raw f no_addresses
      ∙ ap (λ a. last_address w (tag f) a raw) (none_yet f),
)

bind_all-none :
    (lib : Library) (bindings : List (Binding × Address))
    → bind_all lib bindings ≡ none
    → All (λ p. lib.bind_facet p.0 p.1 ≡ none) bindings
unfolding bind_all
bind_all-none lib [] h = tt
bind_all-none lib ((b, a) ∷ rest) h = elim (Option-cases (lib.bind_facet b a)) [
  | inl bound ↦ (bound, bind_all-none lib rest (ground arith))
  | inr (e, failed) ↦ absurd (ground arith)
]

-- What `NewSupport` has put together when it succeeds.
abbrev Bound : Library → ℕ → Addresses → ToolSupport → Type 0
Bound lib prv addrs s =
    (s.prv ≡ prv)
    × (s.addresses ≡ addrs)
    × (s.bindings ≡ support_bindings addrs)
    × All (λ p. lib.bind_facet p.0 p.1 ≡ none) s.bindings
    × (lib.get_chain_id ≡ ok s.chain_id)

Made : Library → ℕ → Addresses → Result ToolSupport → Type 0
Made lib prv addrs (ok s) = Bound lib prv addrs s
Made lib prv addrs (err e) = Unit {0}

new_support-Bound :
    (lib : Library) (prv : ℕ) (addrs : Addresses) → Made lib prv addrs (new_support lib prv addrs)
unfolding new_support Made
new_support-Bound lib prv addrs = elim (Option-cases (bind_all lib (support_bindings addrs))) [
  | inr (e, failed) ↦ ground arith
  | inl bound ↦ elim (Result-cases lib.get_chain_id) [
    | inr (e, failed) ↦ ground arith
    | inl (id, known) ↦
        let all = bind_all-none lib (support_bindings addrs) bound in ground (arith, all)
  ]
]

-- A `DefaultSupport` without an error has found the addresses in one of the two formats of the
-- file, has the key of the environment, has bound every facet at the address that belongs to it,
-- and has the chain id that the node tells.
pub default_support_done :
    (lib : Library) (w : World) (path node_url : String) (s : ToolSupport)
    → default_support lib w path node_url ≡ ok s
    → (find_addresses lib w path ≡ ok s.addresses)
      × (default_private_key lib w ≡ ok s.prv)
      × (lib.dial_node node_url ≡ none)
      × (s.bindings ≡ support_bindings s.addresses)
      × All (λ p. lib.bind_facet p.0 p.1 ≡ none) s.bindings
      × (lib.get_chain_id ≡ ok s.chain_id)
unfolding default_support Made
default_support_done lib w path node_url s h = elim (Result-cases (find_addresses lib w path)) [
  | inr (e, failed) ↦ absurd (ground arith)
  | inl (addrs, found) ↦ elim (Option-cases (lib.dial_node node_url)) [
    | inr (e, failed) ↦ absurd (ground arith)
    | inl dialled ↦ elim (Result-cases (default_private_key lib w)) [
      | inr (e, failed) ↦ absurd (ground arith)
      | inl (prv, key) ↦
          let new : new_support lib prv addrs ≡ ok s = ground arith in
          let (same_prv, same_addrs, same_bindings, all, id) =
            subst (Made lib prv addrs) new (new_support-Bound lib prv addrs) in
          (
            found ∙ ap (λ z. ok z) (sym same_addrs),
            key ∙ ap (λ z. ok z) (sym same_prv),
            dialled,
            same_bindings ∙ ap support_bindings (sym same_addrs),
            all,
            id,
          )
    ]
  ]
]
