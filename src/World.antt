-- ===== src/World.antt =====
-- What the tools find outside the repository: the environment, the file system, the network,
-- go-ethereum and the contract bindings of go-flare-common. All of it is a parameter. A value
-- stands for one moment: two calls with the same arguments get the same answer.
use aurelith.Base.{ℕ, String, Bool, List, Result}

-- `common.Address` as the number of its 20 bytes; zero is `common.Address{}`.
abbrev pub Address : Type 0
Address = ℕ

-- `common.Hash` as the number of its 32 bytes.
abbrev pub Hash : Type 0
Hash = ℕ

abbrev pub zero_address : Address
zero_address = 0

-- What a path names: nothing, something that cannot be opened, or a file.
pub data FileState : Type 0 where
  missing unreadable : FileState
  contents : String → FileState

-- The answer of `http.Get`: an error, or a status and a body.
pub data Reply : Type 0 where
  failed : String → Reply
  reply : ℕ → String → Reply

pub record World : Type 0 where
  -- `os.Getenv`; an unset variable reads as the empty text
  pub getenv : String → String
  pub file : String → FileState
  pub http_get : String → Reply
  -- whether `net.DialTimeout` connects to the address
  pub dial : String → Bool
  -- `strconv.IsPrint`
  pub is_print : ℕ → Bool
  -- `crypto.PubkeyToAddress` of a private key's public key
  pub pubkey_to_address : ℕ → Address
  -- `common.HexToAddress`
  pub hex_to_address : String → Address
  -- `Address.Hex`
  pub address_hex : Address → String

-- The calls of `*ethclient.Client` that the checks make; a nil client is `none`.
pub record Client : Type 0 where
  pub code_at : Address → Result (List ℕ)
  pub balance_at : Address → Result ℕ
  pub chain_id : Result ℕ

-- The calls of the `ExtensionManager` binding.
pub record Registry : Type 0 where
  pub next_public_extension_id : Result ℕ
  pub instructions_sender : ℕ → Result Address
  pub is_key_type_supported : ℕ → Hash → Result Bool

-- The call of the `OwnerAllowlist` binding.
pub record Allowlist : Type 0 where
  pub is_allowed_tee_machine_owner : ℕ → Address → Result Bool
