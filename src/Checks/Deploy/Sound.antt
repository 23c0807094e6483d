-- ===== src/Checks/Deploy/Sound.antt =====
-- What a deployment report without a failure has established.
use aurelith.Base.{
  ℕ, ◌≡◌, ◌≢◌, refl, String, Bool, true, false, Option, none, some, inl, inr, List, [], ◌∷◌, arith,
  All, lookup, string_eq, ok, Result-cases,
}
use mathlib.Core.Path.{subst}
use mathlib.Core.Option.{some-injective}
use aurelith.World.{World, Client, Address, zero_address, contents}
use aurelith.Report.{Report, CheckResult, fail, add, has_failures}
use aurelith.Report.Counts.{has_status, has_failures-add-false}
use aurelith.Validate.{min_deploy_balance}
use aurelith.Validate.Laws.{HasCode, HasFunds, key_has_funds-eq-none}
use aurelith.EnvFile.{vars_of, is_address, is_extension_id}
use aurelith.Checks.Deploy.{
  add_all, not_zero_loop, code_loop, add_funds, check_funds, add_chain_id, add_env_format,
  check_entry, check_chain_id, check_deployer_key_source, check_extension_env_format,
  register_deploy_checks,
}
use aurelith.Checks.Deploy.Addresses.{not_zero_loop_sound, code_loop-keeps, code_loop_sound}

-- The file has an address and an extension id of the accepted formats.
abbrev pub EnvIsValid : String → Type 0
EnvIsValid text =
    ((v : String) × (lookup "INSTRUCTION_SENDER" (vars_of text) ≡ some v) × (is_address v ≡ true))
    × ((v : String) × (lookup "EXTENSION_ID" (vars_of text) ≡ some v) × (is_extension_id v ≡ true))

module _ (w : World) where
  check_funds_sound :
      (client : Client) (key : ℕ)
      → has_status fail (check_funds w client key) ≡ false
      → HasFunds w (some client) key min_deploy_balance
  unfolding check_funds
  check_funds_sound client key h =
      (key_has_funds-eq-none w (some client) key min_deploy_balance).0 (ground arith)

  add_funds_sound :
      (client : Option Client) (key : Option ℕ) (r : Report)
      → has_failures (add_funds w client key r) ≡ false
      → (has_failures r ≡ false)
        × ((c : Client) (k : ℕ)
            → client ≡ some c
            → key ≡ some k
            → HasFunds w client k min_deploy_balance)
  unfolding add_funds
  add_funds_sound (some client) (some key) r h =
      let (start, new) = has_failures-add-false (check_funds w client key) r h in
      (start, λ c k _ e. rw (← some-injective key k e) (check_funds_sound client key new))
  add_funds_sound none key r h = (h, λ c k e _. absurd (cc))
  add_funds_sound (some client) none r h = (h, λ c k _ e. absurd (cc))

  check_chain_id_sound :
      (client : Client)
      → has_status fail (check_chain_id client) ≡ false
      → (id : ℕ) × (client.chain_id ≡ ok id)
  unfolding check_chain_id
  check_chain_id_sound client h = elim (Result-cases client.chain_id) [
    | inl found ↦ found
    | inr (message, e) ↦ absurd (ground arith)
  ]

  add_chain_id_sound :
      (client : Option Client) (r : Report)
      → has_failures (add_chain_id w client r) ≡ false
      → (has_failures r ≡ false)
        × ((c : Client) → client ≡ some c → (id : ℕ) × (c.chain_id ≡ ok id))
  unfolding add_chain_id
  add_chain_id_sound none r h = (h, λ c e. absurd (cc))
  add_chain_id_sound (some client) r h =
      let (start, new) = has_failures-add-false (check_chain_id client) r h in
      (start, λ c e. rw (← some-injective client c e) (check_chain_id_sound client new))

  add_all-keeps :
      (l : List CheckResult) (r : Report)
      → has_failures (add_all l r) ≡ false
      → (has_failures r ≡ false) × All (λ res. has_status fail res ≡ false) l
  unfolding add_all
  add_all-keeps [] r h = (h, tt)
  add_all-keeps (res ∷ l) r h =
      let (next, rest) = add_all-keeps l (add res r) h in
      let (start, new) = has_failures-add-false res r next in (start, (new, rest))

  check_entry_sound :
      (key : String) (format : String → Bool) (value : Option String)
      → has_status fail (check_entry w.is_print key format value) ≡ false
      → (v : String) × (value ≡ some v) × (format v ≡ true)
  unfolding check_entry
  check_entry_sound key format none h = absurd (ground arith)
  check_entry_sound key format (some v) h = (v, refl, ground arith)

  format_results :
      (path text : String)
      → w.file path ≡ contents text
      → check_extension_env_format w path
        ≡ check_entry w.is_print "INSTRUCTION_SENDER" is_address
            (lookup "INSTRUCTION_SENDER" (vars_of text))
          ∷ check_entry w.is_print "EXTENSION_ID" is_extension_id
              (lookup "EXTENSION_ID" (vars_of text))
          ∷ []
  unfolding check_extension_env_format
  format_results path text found = rw (found, check_extension_env_format) refl

  entries_valid :
      (path text : String)
      → w.file path ≡ contents text
      → All (λ res. has_status fail res ≡ false) (check_extension_env_format w path)
      → EnvIsValid text
  entries_valid path text found all =
      let (sender, id) =
        subst (All (λ res. has_status fail res ≡ false)) (format_results path text found) all in
      (
        check_entry_sound "INSTRUCTION_SENDER" is_address
            (lookup "INSTRUCTION_SENDER" (vars_of text)) sender,
        check_entry_sound "EXTENSION_ID" is_extension_id (lookup "EXTENSION_ID" (vars_of text))
            id.0,
      )

  add_env_format_sound :
      (path : String) (r : Report)
      → has_failures (add_env_format w path r) ≡ false
      → (has_failures r ≡ false)
        × ((text : String) → path ≢ "" → w.file path ≡ contents text → EnvIsValid text)
  unfolding add_env_format
  add_env_format_sound path r h = elim (string_eq.dec path "") [
    | yes unset ↦ (ground arith, λ text given _. absurd (given unset))
    | no given ↦
        let (start, all) = add_all-keeps (check_extension_env_format w path) r (ground arith) in
        (start, λ text _ found. entries_valid path text found all)
  ]

  -- If `RegisterDeployChecks` leaves no failure in the report, in whatever two orders the map of
  -- addresses is visited, then no address is zero and every address has code. Where a client is
  -- given the chain has told its id, where a key is given too the deployer has the minimum
  -- balance, and where a path is given the two entries of a file that can be read are well
  -- formed.
  pub register_deploy_checks_sound :
      (client : Option Client) (key : Option ℕ) (first second : List (String × Address))
      (path : String) (r : Report)
      → has_failures (register_deploy_checks w client key first second path r) ≡ false
      → All (λ e. e.1 ≢ zero_address) first
        × All (λ e. HasCode client e.1) second
        × ((c : Client) (k : ℕ)
            → client ≡ some c
            → key ≡ some k
            → HasFunds w client k min_deploy_balance)
        × ((c : Client) → client ≡ some c → (id : ℕ) × (c.chain_id ≡ ok id))
        × ((text : String) → path ≢ "" → w.file path ≡ contents text → EnvIsValid text)
  unfolding register_deploy_checks
  register_deploy_checks_sound client key first second path r h =
      let (zs, r₁) = not_zero_loop w first [] r in
      let r₂ = code_loop w client zs second r₁ in
      let r₃ = add (check_deployer_key_source w) r₂ in
      let r₄ = add_funds w client key r₃ in
      let (h₄, env) = add_env_format_sound path (add_chain_id w client r₄) h in
      let (h₃, chain) = add_chain_id_sound client r₄ h₄ in
      let (h₂, funds) = add_funds_sound client key r₃ h₃ in
      let (h₁, _) = has_failures-add-false (check_deployer_key_source w) r₂ h₂ in
      let h₀ = code_loop-keeps w client zs second r₁ h₁ in
      let (_, marks, nonzero) = not_zero_loop_sound w first r h₀ in
      let (_, code) =
        code_loop_sound w client second r₁
          (subst (λ z. has_failures (code_loop w client z second r₁) ≡ false) marks h₁) in
      (nonzero, code, funds, chain, env)
