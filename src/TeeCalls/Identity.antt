-- ===== src/TeeCalls/Identity.antt =====
-- `TeeProxyId` and `CodeHashAndPlatform` of `fcc-extension/tools/pkg/fccutils/tee_calls.go`, and `common.go`: the
-- identities of a node and of its proxy, and the claims of an attestation.
use aurelith.Base.{ℕ, String, List, Result, ok, err}
use aurelith.World.{Address, Hash, World}
use aurelith.TeeCalls.{tee_info}

-- `teeInfo.MachineData`, with what `PreRegistration` takes of it.
pub record MachineData : Type 0 where
  pub extension_id : Hash
  pub initial_owner : Address
  pub code_hash : Hash
  pub platform : Hash
  pub public_key : Hash × Hash
  pub governance_hash : Hash

-- `types.SignedTeeInfoResponse`, with `TeeInfo`'s public key, chain id and encoding.
pub record SignedTeeInfo : Type 0 where
  pub tee_public_key : Hash × Hash
  pub tee_chain_id : ℕ
  pub tee_info : List ℕ
  pub machine_data : MachineData
  pub attestation : String
  pub data_signature : List ℕ
  pub proxy_signature : List ℕ

-- The calls of tee-node, go-flare-common and go-ethereum; a public key is a number.
pub record Crypto : Type 0 where
  pub parse_pub_key : Hash × Hash → Result ℕ
  pub pubkey_to_address : ℕ → Address
  -- `TeeInfo.Hash`
  pub info_hash : List ℕ → Result (List ℕ)
  -- `common.BytesToHash`
  pub bytes_to_hash : List ℕ → Hash
  -- `NewPayload(csigning.ProxyTeeInfo, chainID, hash).Hash`
  pub payload_hash : ℕ → Hash → Result Hash
  -- `accounts.TextHash`
  pub text_hash : Hash → Hash
  pub sig_to_pub : Hash → List ℕ → Result ℕ

-- The calls of go-flare-common and tee-node on the claims `K` of an attestation.
pub record Claims (K : Type 0) : Type 0 where
  -- `googlecloud.ParsePKITokenUnverifiedClaims`
  pub parse_claims : String → Result K
  pub claimed_code_hash : K → Result Hash
  pub claimed_platform : K → Result Hash

-- `CodeHashAndPlatform`
unfoldable pub code_hash_and_platform : {K : Type 0} → Claims K → String → Result (Hash × Hash)
code_hash_and_platform lib attestation = elim (lib.parse_claims attestation) [
  | err e ↦ err e
  | ok claims ↦ elim (lib.claimed_code_hash claims) [
    | err e ↦ err e
    | ok code_hash ↦ elim (lib.claimed_platform claims) [
      | err e ↦ err e
      | ok platform ↦ ok (code_hash, platform)
    ]
  ]
]

module _ (lib : Crypto) where
  -- The address that has signed a node's info.
  proxy_id : SignedTeeInfo → Result Address
  proxy_id info = elim (lib.info_hash info.tee_info) [
    | err e ↦ err e
    | ok hash ↦ elim (lib.payload_hash info.tee_chain_id (lib.bytes_to_hash hash)) [
      | err e ↦ err e
      | ok sign_hash ↦ elim (lib.sig_to_pub (lib.text_hash sign_hash) info.proxy_signature) [
        | err e ↦ err e
        | ok key ↦ ok (lib.pubkey_to_address key)
      ]
    ]
  ]

  -- `TeeProxyId`
  unfoldable pub tee_proxy_id : SignedTeeInfo → Result (Address × Address)
  unfolding proxy_id
  tee_proxy_id info = elim (lib.parse_pub_key info.tee_public_key) [
    | err e ↦ err e
    | ok key ↦ elim (proxy_id info) [
      | err e ↦ err e
      | ok proxy ↦ ok (lib.pubkey_to_address key, proxy)
    ]
  ]

  -- `GetTeeProxyID`; `decode` reads the JSON of an info.
  unfoldable pub get_tee_proxy_id :
      World → (String → Result SignedTeeInfo) → String → Result (Address × Address)
  unfolding tee_proxy_id
  get_tee_proxy_id w decode proxy_url = elim (tee_info decode w proxy_url) [
    | err e ↦ err e
    | ok info ↦ tee_proxy_id info
  ]
