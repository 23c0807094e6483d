-- ===== src/Validate/Laws.antt =====
-- What a check that reports no error has established.
use aurelith.Base.{
  ℕ, ◌≤◌, ◌≡◌, ◌≢◌, ◌↔◌, refl, String, Option, none, some, List, [], ◌∷◌, ok, arith, inl, inr,
  Result-cases,
}
use aurelith.World.{World, Client, Address, zero_address}
use aurelith.Validate.{address_not_zero, code_present, address_has_code, key_has_funds}

-- The client is connected and finds code at the address.
abbrev pub HasCode : Option Client → Address → Type 0
HasCode client addr =
    (c : Client) × (code : List ℕ) × (client ≡ some c) × (c.code_at addr ≡ ok code) × (code ≢ [])

-- The client is connected and finds at least the balance at the account of the key.
abbrev pub HasFunds : World → Option Client → ℕ → ℕ → Type 0
HasFunds w client key min_wei =
    (c : Client) × (balance : ℕ) × (client ≡ some c)
    × (c.balance_at (w.pubkey_to_address key) ≡ ok balance)
    × (min_wei ≤ balance)

module _ (w : World) where
  pub address_not_zero-eq-none :
      (addr : Address) (label : String)
      → (address_not_zero w addr label ≡ none) ↔ (addr ≢ zero_address)
  unfolding address_not_zero
  address_not_zero-eq-none addr label = ground arith

  code_present-eq-none :
      (addr : Address) (label : String) (code : List ℕ)
      → (code_present w addr label code ≡ none) ↔ (code ≢ [])
  unfolding code_present
  code_present-eq-none addr label [] = (λ h. cc, λ h. absurd (h refl))
  code_present-eq-none addr label (b ∷ code) = (λ h e. cc, λ h. refl)

  pub address_has_code-HasCode :
      (client : Option Client) (addr : Address) (label : String)
      → address_has_code w client addr label ≡ none
      → HasCode client addr
  unfolding address_has_code
  address_has_code-HasCode none addr label h = cc
  address_has_code-HasCode (some c) addr label h = elim (Result-cases (c.code_at addr)) [
    | inl (code, e) ↦ (c, code, refl, e, λ none_there. ground arith)
    | inr (message, e) ↦ absurd (ground arith)
  ]

  HasCode-address_has_code :
      (client : Option Client) (addr : Address) (label : String)
      → HasCode client addr
      → address_has_code w client addr label ≡ none
  unfolding address_has_code
  HasCode-address_has_code client addr label (c, [], connected, answer, some_there) =
      absurd (some_there refl)
  HasCode-address_has_code client addr label (c, b ∷ code, connected, answer, some_there) =
      rw (connected, answer, address_has_code) refl

  -- `AddressHasCode` reports no error exactly when the client is connected and the chain answers
  -- with code that is not empty.
  pub address_has_code-eq-none :
      (client : Option Client) (addr : Address) (label : String)
      → (address_has_code w client addr label ≡ none) ↔ HasCode client addr
  address_has_code-eq-none client addr label =
      (address_has_code-HasCode client addr label, HasCode-address_has_code client addr label)

  pub key_has_funds-HasFunds :
      (client : Option Client) (key min_wei : ℕ)
      → key_has_funds w client key min_wei ≡ none
      → HasFunds w client key min_wei
  unfolding key_has_funds
  key_has_funds-HasFunds none key min_wei h = cc
  key_has_funds-HasFunds (some c) key min_wei h =
      elim (Result-cases (c.balance_at (w.pubkey_to_address key))) [
        | inl (balance, e) ↦ (c, balance, refl, e, ground arith)
        | inr (message, e) ↦ absurd (ground arith)
      ]

  HasFunds-key_has_funds :
      (client : Option Client) (key min_wei : ℕ)
      → HasFunds w client key min_wei
      → key_has_funds w client key min_wei ≡ none
  unfolding key_has_funds
  HasFunds-key_has_funds client key min_wei (c, balance, connected, answer, enough) =
      rw (connected, answer, key_has_funds) (ground arith)

  -- `KeyHasFunds` reports no error exactly when the client is connected and the chain answers
  -- with a balance of at least the minimum.
  pub key_has_funds-eq-none :
      (client : Option Client) (key min_wei : ℕ)
      → (key_has_funds w client key min_wei ≡ none) ↔ HasFunds w client key min_wei
  key_has_funds-eq-none client key min_wei =
      (key_has_funds-HasFunds client key min_wei, HasFunds-key_has_funds client key min_wei)
