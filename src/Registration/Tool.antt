-- ===== src/Registration/Tool.antt =====
-- `fcc-extension/tools/cmd/register-tee/main.go`: the command that registers a node.
use mathlib.Core.Path.{subst}
use aurelith.TeeCalls.Laws.{get_code_hash_and_platform_ok}
use aurelith.Base.{
  ◌≡◌, ◌≢◌, ap, ◌∙◌, String, Bool, true, Result, ok, err, ◌==◌, string_eq, inl, inr, Result-cases,
  arith, if◌then◌else◌,
}
use aurelith.World.{Address, Hash, World, missing}
use aurelith.TeeCalls.{tee_info, get_code_hash_and_platform, tee_code_hash, test_platform}
use aurelith.TeeCalls.Identity.{
  SignedTeeInfo, Crypto, Claims, code_hash_and_platform, tee_proxy_id, get_tee_proxy_id,
}
use aurelith.Chain.{Call}
use aurelith.Chain.Support.{Library, default_support}
use aurelith.Registration.{Machines, mentions}
use aurelith.Registration.Flow.{Registering, register_node}
use aurelith.Registration.Done.{Removes, PromotedAt, register_node_done}

-- The flags `-a`, `-c`, `-p`, `-h`, `-ep`, `-i`, `-command`, `-state` and `-resume`.
pub record RegisterFlags : Type 0 where
  pub addresses_file : String
  pub node_url : String
  pub proxy_url : String
  pub host : String
  pub external_proxy : String
  pub instruction : String
  pub command : String
  pub state_file : String
  pub resume : Bool

-- `*hf`, or else `*pf`
abbrev pub host_url : RegisterFlags → String
host_url f = if f.host == "" then f.proxy_url else f.host

abbrev pub arguments : RegisterFlags → SignedTeeInfo → Address → Registering
arguments f info ftdc_tee = record {
  info = info;
  host_url = host_url f;
  ftdc_tee_url = f.external_proxy;
  ftdc_tee = ftdc_tee;
  command = f.command;
  instruction_id_string = f.instruction;
  state_file_path = f.state_file;
}

-- The code hash and the platform that the node has told.
abbrev pub told : SignedTeeInfo → Hash × Hash
told info = (info.machine_data.code_hash, info.machine_data.platform)

module _ {C K : Type 0} (k : Machines C) (w : World) (lib : Library) (crypto : Crypto)
    (claims : Claims K) (decode : String → Result SignedTeeInfo) (show_hash : Hash → String) where
  -- Without `-resume` the old state file goes; a failure is only warned about.
  abbrev pub start : RegisterFlags → C → C
  start f c = if f.resume then c else (k.remove_file f.state_file c).0

  -- What is found out before the registration: the info of the node, and the FTDC's TEE.
  unfoldable pub preflight : RegisterFlags → Result (SignedTeeInfo × Address)
  preflight f = elim (default_support lib w f.addresses_file f.node_url) [
    | err e ↦ err e
    | ok support ↦ elim (tee_info decode w f.proxy_url) [
      | err e ↦ err e
      | ok info ↦ elim (tee_proxy_id crypto info) [
        | err e ↦ err e
        | ok ids ↦ elim (get_tee_proxy_id crypto w decode f.external_proxy) [
          | err e ↦ err e
          | ok ftdc ↦
              elim (get_code_hash_and_platform w show_hash
                (code_hash_and_platform claims info.attestation)
                (info.machine_data.code_hash, info.machine_data.platform)) [
                  | err e ↦ err e
                  | ok pair ↦ ok (info, ftdc.0)
                ]
        ]
      ]
    ]
  ]

  -- `main`, with the error of `FatalWithCause`.
  unfoldable pub register_tee : RegisterFlags → Call C (Unit {0})
  unfolding preflight register_node
  register_tee f c = elim (preflight f) [
    | err e ↦ (start f c, err e)
    | ok found ↦ register_node k (arguments f found.0 found.1) crypto (start f c)
  ]

  preflight-told :
      (f : RegisterFlags) (info : SignedTeeInfo) (ftdc : Address)
      → preflight f ≡ ok (info, ftdc)
      → (pair : Hash × Hash) × (tee_info decode w f.proxy_url ≡ ok info)
        × (get_code_hash_and_platform w show_hash
              (code_hash_and_platform claims info.attestation)
              (told info)
            ≡ ok pair)
  unfolding preflight
  preflight-told f info ftdc h =
      elim (Result-cases (default_support lib w f.addresses_file f.node_url)) [
        | inr (e, failed) ↦ absurd (ground arith)
        | inl (support, supported) ↦ elim (Result-cases (tee_info decode w f.proxy_url)) [
          | inr (e, failed) ↦ absurd (ground arith)
          | inl (node, known) ↦ elim (Result-cases (tee_proxy_id crypto node)) [
            | inr (e, failed) ↦ absurd (ground arith)
            | inl (ids, named) ↦
                elim (Result-cases (get_tee_proxy_id crypto w decode f.external_proxy)) [
                  | inr (e, failed) ↦ absurd (ground arith)
                  | inl (other, found) ↦
                      elim (Result-cases (
                        get_code_hash_and_platform w show_hash
                          (code_hash_and_platform claims node.attestation) (told node))) [
                            | inr (e, failed) ↦ absurd (ground arith)
                            | inl (pair, confirmed) ↦
                                let same : node ≡ info = ground arith in
                                (
                                  pair,
                                  known ∙ ap ok same,
                                  subst
                                      (λ i.
                                        get_code_hash_and_platform w show_hash
                                          (code_hash_and_platform claims i.attestation) (told i)
                                        ≡ ok pair)
                                      same confirmed,
                                )
                          ]
                ]
          ]
        ]
      ]

  -- If the command register-tee ends without an error, it has found the info of the node; what
  -- the node tells of its code hash and platform is what its attestation claims, or in the
  -- simulated mode the test pair; the state file is gone; and if its steps have the letter p, then
  -- the steps before have given an instruction, the FTDC proxy has a proof for it, the promotion
  -- with that proof has been sent in a transaction that `CheckTx` has found done, the chain then
  -- gives the machine that the proof is about, and its machines are the same at the end. This
  -- holds where removing a file makes it missing and leaves the machines alone.
  pub register_tee_done :
      (f : RegisterFlags) (c t : C)
      → Removes k
      → register_tee f c ≡ (t, ok tt)
      → (info : SignedTeeInfo) × (ftdc : Address) × (tee : Address) × (proxy : Address) × (tee_info
            decode w f.proxy_url
          ≡ ok info)
        × (tee_proxy_id crypto info ≡ ok (tee, proxy))
        × (w.getenv "SIMULATED_TEE" ≢ "true"
            → code_hash_and_platform claims info.attestation ≡ ok (told info))
        × (w.getenv "SIMULATED_TEE" ≡ "true" → told info ≡ (tee_code_hash, test_platform))
        × (k.read_file f.state_file t ≡ missing)
        × (mentions b'p' f.command ≡ true
            → PromotedAt k (arguments f info ftdc) tee proxy (start f c) t)
  unfolding register_tee
  register_tee_done f c t removes h = elim (Result-cases (preflight f)) [
    | inr (e, failed) ↦ absurd (ground (arith, ap (λ q. q.1) h))
    | inl (found, passed) ↦
        let (info, ftdc) = found in
        let (pair, known, confirmed) = preflight-told f info ftdc passed in
        let (same, simulated, real) =
          get_code_hash_and_platform_ok w show_hash (code_hash_and_platform claims info.attestation)
            (told info) pair confirmed in
        let run : register_node k (arguments f info ftdc) crypto (start f c) ≡ (t, ok tt) =
          ground arith in
        let (tee, proxy, named, gone, promoted) =
          register_node_done k crypto (arguments f info ftdc) (start f c) t removes run in
        (info, ftdc, tee, proxy, known, named, real, simulated, gone, promoted)
  ]
