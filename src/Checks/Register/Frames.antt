-- ===== src/Checks/Register/Frames.antt =====
-- The registration checks append to the report, whatever it holds.
use aurelith.Base.{ℕ, ◌≡◌, refl, ◌∙◌, ap, String, Option, none, some, arith, string_eq}
use aurelith.World.{World, Client, Registry, Allowlist, Hash}
use aurelith.Report.{Report}
use aurelith.Report.Extend.{extend, add-extend, add_if-extend}
use aurelith.Base.Text.{parse_hex}
use aurelith.EnvFile.{parse_extension_env, drop_two}
use aurelith.Checks.Register.{
  counter_of, no_config, no_env_file, malformed_id, when_connected, add_sender_on_chain,
  add_owner_allowed, add_key_type, add_unique_sender, add_extension_checks, add_next_id,
  add_parsed_checks, register_registration_checks,
}

when_connected-extend :
    (registry : Option Registry) (client : Option Client) (body : Registry → Report → Report)
    (r s : Report)
    → ((g : Registry) → body g (extend r s) ≡ extend r (body g s))
    → when_connected registry client body (extend r s)
      ≡ extend r (when_connected registry client body s)
when_connected-extend (some registry) (some client) body r s h = h registry
when_connected-extend none client body r s h = refl
when_connected-extend (some registry) none body r s h = refl

module _ (w : World) (evm_type : Hash) where
  add_owner_allowed-extend :
      (client : Option Client) (key : Option ℕ) (allowlist : Option Allowlist) (id : ℕ)
      (r s : Report)
      → add_owner_allowed w evm_type client key allowlist id (extend r s)
        ≡ extend r (add_owner_allowed w evm_type client key allowlist id s)
  unfolding add_owner_allowed
  add_owner_allowed-extend (some client) (some key) (some allowlist) id r s = add-extend _ r s
  add_owner_allowed-extend none key allowlist id r s = refl
  add_owner_allowed-extend (some client) none allowlist id r s = refl
  add_owner_allowed-extend (some client) (some key) none id r s = refl

  add_sender_on_chain-extend :
      (id : ℕ) (sender : String) (r s : Report) (registry : Registry)
      → add_sender_on_chain w evm_type id sender registry (extend r s)
        ≡ extend r (add_sender_on_chain w evm_type id sender registry s)
  unfolding add_sender_on_chain
  add_sender_on_chain-extend id sender r s registry = add_if-extend _ _ r s

  add_key_type-extend :
      (id : ℕ) (r s : Report) (registry : Registry)
      → add_key_type w evm_type id registry (extend r s)
        ≡ extend r (add_key_type w evm_type id registry s)
  unfolding add_key_type
  add_key_type-extend id r s registry = add-extend _ r s

  add_unique_sender-extend :
      (counter : Option ℕ) (sender : String) (registry : Registry) (r s : Report)
      → add_unique_sender w evm_type counter sender registry (extend r s)
        ≡ extend r (add_unique_sender w evm_type counter sender registry s)
  unfolding add_unique_sender
  add_unique_sender-extend none sender registry r s = refl
  add_unique_sender-extend (some counter) sender registry r s = add_if-extend _ _ r s

  add_next_id-extend :
      (registry : Option Registry) (client : Option Client) (r s : Report)
      → add_next_id w evm_type registry client (extend r s) ≡ (
        (add_next_id w evm_type registry client s).0,
        extend r (add_next_id w evm_type registry client s).1,
      )
  unfolding add_next_id
  add_next_id-extend (some registry) (some client) r s =
      ap (λ t. (counter_of registry.next_public_extension_id, t)) (add-extend _ r s)
  add_next_id-extend none client r s = refl
  add_next_id-extend (some registry) none r s = refl

  module _ (client : Option Client) (key : Option ℕ) (registry : Option Registry)
      (allowlist : Option Allowlist) (r s : Report) where
    add_extension_checks-extend :
        (counter : Option ℕ) (id : ℕ) (sender : String) (t : Report)
        → add_extension_checks w evm_type client key registry allowlist counter id sender
            (extend r t)
          ≡ extend r
              (add_extension_checks w evm_type client key registry allowlist counter id sender t)
    unfolding add_extension_checks
    add_extension_checks-extend counter id sender t =
        let on_chain = add_sender_on_chain w evm_type id sender in
        let t₂ = when_connected registry client on_chain t in
        let t₃ = add_owner_allowed w evm_type client key allowlist id t₂ in
        let key_type = add_key_type w evm_type id in
        let t₄ = when_connected registry client key_type t₃ in
        let unique = add_unique_sender w evm_type counter sender in
        ap
          (λ u. when_connected registry client unique (
            when_connected registry client key_type
              (add_owner_allowed w evm_type client key allowlist id u)))
          (when_connected-extend registry client on_chain r t
            (add_sender_on_chain-extend id sender r t))
        ∙ ap
            (λ u. when_connected registry client unique (when_connected registry client key_type u))
            (add_owner_allowed-extend client key allowlist id r t₂)
        ∙ ap (λ u. when_connected registry client unique u)
            (when_connected-extend registry client key_type r t₃ (add_key_type-extend id r t₃))
        ∙ when_connected-extend registry client unique r t₄
            (λ g. add_unique_sender-extend counter sender g r t₄)

    add_parsed_checks-extend :
        (ext_id sender : String)
        → add_parsed_checks w evm_type client key registry allowlist ext_id sender (extend r s)
          ≡ extend r (add_parsed_checks w evm_type client key registry allowlist ext_id sender s)
    unfolding add_parsed_checks
    add_parsed_checks-extend ext_id sender =
        let (counter, s₁) = add_next_id w evm_type registry client s in
        rw (add_next_id-extend registry client r s) (
          ground (
            arith,
            add-extend (malformed_id w ext_id) r s₁,
            add_extension_checks-extend counter (parse_hex (drop_two ext_id)) sender s₁,
          ))

    pub register_registration_checks-extend :
        (path : String)
        → register_registration_checks w evm_type client key registry allowlist path (extend r s)
          ≡ extend r (register_registration_checks w evm_type client key registry allowlist path s)
    unfolding register_registration_checks
    register_registration_checks-extend path =
        let (ext_id, sender) = parse_extension_env w path in
        ground (
          arith,
          add-extend no_config r s,
          add-extend no_env_file r s,
          add_parsed_checks-extend ext_id sender,
        )
