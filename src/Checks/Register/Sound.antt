-- ===== src/Checks/Register/Sound.antt =====
-- What a registration report without a failure has established.
use aurelith.Base.{
  ℕ, ◌≡◌, ◌≢◌, refl, String, Bool, true, false, Option, none, some, arith, string_eq, nat_eq, ok,
  err, inl, inr, Bool-cases, Result,
}
use aurelith.Base.Text.{parse_hex}
use aurelith.World.{World, Client, Registry, Allowlist, Address, Hash}
use aurelith.Report.{Report, fail, add, has_failures}
use aurelith.Report.Counts.{has_status, has_failures-add-false, has_failures-add_if-false}
use aurelith.EnvFile.{parse_extension_env, is_address, is_extension_id, drop_two}
use aurelith.Checks.Register.{
  check_next_id, check_key_type, check_owner_allowed, malformed_id, check_sender_on_chain,
  counter_of, add_sender_on_chain, add_owner_allowed, add_key_type, add_unique_sender,
  add_extension_checks, add_next_id, add_parsed_checks, register_registration_checks,
}

check_key_type_sound :
    (answer : Result Bool) → has_status fail (check_key_type answer) ≡ false → answer ≡ ok true
unfolding check_key_type
check_key_type_sound (ok true) h = refl
check_key_type_sound (ok false) h = absurd (ground arith)
check_key_type_sound (err e) h = absurd (ground arith)

check_owner_allowed_sound :
    (answer : Result Bool) → has_status fail (check_owner_allowed answer) ≡ false → answer ≡ ok true
unfolding check_owner_allowed
check_owner_allowed_sound (ok true) h = refl
check_owner_allowed_sound (ok false) h = absurd (ground arith)
check_owner_allowed_sound (err e) h = absurd (ground arith)

module _ (w : World) (evm_type : Hash) where
  check_sender_on_chain_sound :
      (sender : String) (answer : Result Address)
      → has_status fail (check_sender_on_chain w evm_type sender answer) ≡ false
      → answer ≡ ok (w.hex_to_address sender)
  unfolding check_sender_on_chain
  check_sender_on_chain_sound sender (ok a) h = elim (nat_eq.dec a (w.hex_to_address sender)) [
    | yes same ↦ rw same refl
    | no differ ↦ absurd (ground arith)
  ]
  check_sender_on_chain_sound sender (err e) h = absurd (ground arith)

  add_unique_sender-keeps :
      (counter : Option ℕ) (sender : String) (registry : Registry) (r : Report)
      → has_failures (add_unique_sender w evm_type counter sender registry r) ≡ false
      → has_failures r ≡ false
  unfolding add_unique_sender
  add_unique_sender-keeps none sender registry r h = h
  add_unique_sender-keeps (some counter) sender registry r h = (has_failures-add_if-false _ _ r h).0

  -- What a connected tool has learnt of the extension `id` when R2, R3 and R4 left no failure.
  abbrev pub IsRegistered : ℕ → String → Registry → Allowlist → ℕ → Type 0
  IsRegistered id sender registry allowlist key =
      (is_address sender ≡ true → registry.instructions_sender id ≡ ok (w.hex_to_address sender))
      × (allowlist.is_allowed_tee_machine_owner id (w.pubkey_to_address key) ≡ ok true)
      × (registry.is_key_type_supported id evm_type ≡ ok true)

  module _ (client : Client) (key : ℕ) (registry : Registry) (allowlist : Allowlist) where
    add_extension_checks_sound :
        (counter : Option ℕ) (id : ℕ) (sender : String) (r : Report)
        → has_failures (
            add_extension_checks w evm_type
              (some client)
              (some key)
              (some registry)
              (some allowlist)
              counter
              id
              sender
              r)
          ≡ false
        → (has_failures r ≡ false) × IsRegistered id sender registry allowlist key
    unfolding add_extension_checks add_sender_on_chain add_owner_allowed add_key_type
    add_extension_checks_sound counter id sender r h =
        let r₂ = add_sender_on_chain w evm_type id sender registry r in
        let r₃ = add_owner_allowed w evm_type (some client) (some key) (some allowlist) id r₂ in
        let r₄ = add_key_type w evm_type id registry r₃ in
        let h₄ = add_unique_sender-keeps counter sender registry r₄ h in
        let (h₃, key_type) = has_failures-add-false _ r₃ h₄ in
        let (h₂, owner) = has_failures-add-false _ r₂ h₃ in
        let (h₁, on_chain) = has_failures-add_if-false (is_address sender) _ r h₂ in
        (
          h₁,
          (
            λ well_formed. check_sender_on_chain_sound sender _ (on_chain well_formed),
            check_owner_allowed_sound _ owner,
            check_key_type_sound _ key_type,
          ),
        )

    add_parsed_checks_sound :
        (ext_id sender : String) (r : Report)
        → has_failures (
            add_parsed_checks w evm_type
              (some client)
              (some key)
              (some registry)
              (some allowlist)
              ext_id
              sender
              r)
          ≡ false
        → (is_extension_id ext_id ≡ true)
          × IsRegistered (parse_hex (drop_two ext_id)) sender registry allowlist key
    unfolding add_parsed_checks add_next_id
    add_parsed_checks_sound ext_id sender r h =
        let answer = registry.next_public_extension_id in
        let r₁ = add (check_next_id answer) r in
        elim (Bool-cases (is_extension_id ext_id)) [
          | inl good ↦ (
            good,
            (add_extension_checks_sound (counter_of answer) (parse_hex (drop_two ext_id)) sender r₁
                (ground arith)).1,
          )
          | inr bad ↦
              let left : has_failures (add (malformed_id w ext_id) r₁) ≡ false = ground arith in
              let (_, failed) = has_failures-add-false (malformed_id w ext_id) r₁ left in
              absurd (ground arith)
        ]

    -- If `RegisterRegistrationChecks`, connected to the chain and given a path to a file that has
    -- an id or a sender, leaves no failure, then the `EXTENSION_ID` is well formed and, for the
    -- extension it names, the chain has a well-formed `INSTRUCTION_SENDER` of the file as the
    -- instruction sender, the deployer as an allowed machine owner, and the EVM key type.
    pub register_registration_checks_sound :
        (path : String) (r : Report)
        → path ≢ ""
        → parse_extension_env w path ≢ ("", "")
        → has_failures (
            register_registration_checks w evm_type
              (some client)
              (some key)
              (some registry)
              (some allowlist)
              path
              r)
          ≡ false
        → let (ext_id, sender) = parse_extension_env w path in
          (is_extension_id ext_id ≡ true)
          × IsRegistered (parse_hex (drop_two ext_id)) sender registry allowlist key
    unfolding register_registration_checks
    register_registration_checks_sound path r given found h =
        let (ext_id, sender) = parse_extension_env w path in
        let both_empty : ext_id ≡ "" → sender ≢ "" = λ e f. found (cc) in
        add_parsed_checks_sound ext_id sender r (ground arith)
