-- ===== src/Governance/Laws.antt =====
-- What a success of `SetTeeGovernance` establishes, and that it can be repeated.
use Prim.Native.String.{[] as nil, ◌∷◌ as ◌▸◌}
use aurelith.Base.Text.{parse_uint, trim_space}
use aurelith.Base.{
  ℕ, String, ◌<◌, ◌≤◌, ◌≡◌, ◌≢◌, ◌⊎◌, inl, inr, ap, ◌∙◌, Option-cases, none, some, List, Error, ok,
  Result-cases, arith, nat_eq, length,
}
use aurelith.World.{Address, Hash, World}
use aurelith.Chain.{outcome, check_tx}
use aurelith.Governance.{
  Chain, send_governance, update_governance, set_tee_governance, parse_signers, parse_threshold,
}

module _ {C : Type 0} (chain : Chain C) where
  -- A transaction that was sent and confirmed has set the hash of its signers and threshold.
  abbrev pub Confirms : Type 0
  Confirms =
      (signers : List Address) (threshold : ℕ) (c : C) (h tx : Hash)
      → chain.governance_hash signers threshold ≡ ok h
      → (chain.set_new_tee_governance signers threshold c).1 ≡ ok tx
      → let (sent, _) = chain.set_new_tee_governance signers threshold c in
        (outcome (check_tx chain.node tx sent)).1 ≡ none
        → chain.latest_governance_hash (outcome (check_tx chain.node tx sent)).0 ≡ ok h

  -- The chain has the hash of the signers and the threshold.
  abbrev pub IsCurrent : List Address → ℕ → C → Type 0
  IsCurrent signers threshold c =
      (h : Hash) × (chain.governance_hash signers threshold ≡ ok h)
      × (chain.latest_governance_hash c ≡ ok h)

  module _ (signers : List Address) (threshold : ℕ) (c : C) where
    -- The transaction of a call without an error.
    abbrev IsSent : C × Error → Type 0
    IsSent (t, error) =
        (tx : Hash) × let (sent, answer) = chain.set_new_tee_governance signers threshold c in
          (answer ≡ ok tx)
          × ((outcome (check_tx chain.node tx sent)).1 ≡ none)
          × (t ≡ (outcome (check_tx chain.node tx sent)).0)

    send_governance-IsSent :
        (send_governance chain signers threshold c).1 ≡ none
        → IsSent (send_governance chain signers threshold c)
    unfolding send_governance
    send_governance-IsSent h = elim (Option-cases chain.transactor) [
      | inr (e, refused) ↦ absurd (ground arith)
      | inl ready ↦ elim (Result-cases (chain.set_new_tee_governance signers threshold c).1) [
        | inl (tx, answer) ↦ (tx, (answer, ground arith, ground arith))
        | inr (e, answer) ↦ absurd (ground arith)
      ]
    ]

    send_governance-IsCurrent :
        (h : Hash)
        → Confirms
        → chain.governance_hash signers threshold ≡ ok h
        → (send_governance chain signers threshold c).1 ≡ none
        → IsCurrent signers threshold (send_governance chain signers threshold c).0
    send_governance-IsCurrent h confirms hashed done =
        let (tx, (answer, checked, same)) = send_governance-IsSent done in
        (
          h,
          hashed,
          ap chain.latest_governance_hash same
              ∙ confirms signers threshold c h tx hashed answer checked,
        )

    update_governance-IsCurrent :
        Confirms
        → (update_governance chain signers threshold c).1 ≡ none
        → IsCurrent signers threshold (update_governance chain signers threshold c).0
    unfolding update_governance
    update_governance-IsCurrent confirms done =
        elim (Result-cases (chain.governance_hash signers threshold)) [
          | inr (e, failed) ↦ absurd (ground arith)
          | inl (h, hashed) ↦ elim (Result-cases (chain.latest_governance_hash c)) [
            | inr (e, unknown) ↦ ground (arith, send_governance-IsCurrent h confirms hashed)
            | inl (current, known) ↦ elim (nat_eq.dec current h) [
              | yes same ↦ ground arith
              | no differ ↦ ground (arith, send_governance-IsCurrent h confirms hashed)
            ]
          ]
        ]

    update_governance-skips :
        IsCurrent signers threshold c → update_governance chain signers threshold c ≡ (c, none)
    unfolding update_governance
    update_governance-skips (h, hashed, current) = ground arith

    -- If `SetTeeGovernance` returns no error, the threshold is at least 1 and at most the number
    -- of signers, and the chain's latest governance hash is that of the signers and the
    -- threshold, where a confirmed transaction sets it.
    pub set_tee_governance_done :
        Confirms
        → (set_tee_governance chain signers threshold c).1 ≡ none
        → (0 < threshold)
          × (threshold ≤ length signers)
          × IsCurrent signers threshold (set_tee_governance chain signers threshold c).0
    unfolding set_tee_governance
    set_tee_governance_done confirms done =
        let guarded : (0 < threshold) × (threshold ≤ length signers) = ground arith in
        (guarded.0, guarded.1, ground (arith, update_governance-IsCurrent confirms))

    -- With no signer, a zero threshold or one above the number of signers, `SetTeeGovernance`
    -- returns an error and does not touch the chain.
    pub set_tee_governance_refuses :
        (length signers ≡ 0) ⊎ (threshold ≡ 0) ⊎ (length signers < threshold)
        → ((set_tee_governance chain signers threshold c).0 ≡ c)
          × ((set_tee_governance chain signers threshold c).1 ≢ none)
    unfolding set_tee_governance
    set_tee_governance_refuses (inl empty) = ground arith
    set_tee_governance_refuses (inr (inl zero_threshold)) = ground arith
    set_tee_governance_refuses (inr (inr above)) = ground arith

    set_tee_governance_skips :
        0 < threshold
        → threshold ≤ length signers
        → IsCurrent signers threshold c
        → set_tee_governance chain signers threshold c ≡ (c, none)
    unfolding set_tee_governance
    set_tee_governance_skips positive enough done = ground (arith, update_governance-skips done)

  -- After a success the same call again returns no error and leaves the chain as it is, where a
  -- confirmed transaction sets the hash.
  pub set_tee_governance_again :
      (signers : List Address) (threshold : ℕ) (c : C)
      → Confirms
      → (set_tee_governance chain signers threshold c).1 ≡ none
      → let (t, _) = set_tee_governance chain signers threshold c in
        set_tee_governance chain signers threshold t ≡ (t, none)
  set_tee_governance_again signers threshold c confirms done =
      let (positive, enough, is_set) = set_tee_governance_done signers threshold c confirms done in
      set_tee_governance_skips signers threshold (set_tee_governance chain signers threshold c).0
        positive enough is_set

parse_uint-lt : (s : String) (v : ℕ) → parse_uint s ≡ some v → v < 18446744073709551616
unfolding parse_uint
parse_uint-lt nil v h = absurd (ground arith)
parse_uint-lt (c ▸ s) v h = ground arith

-- Whatever the environment, there is a signer, and the threshold is a positive `uint64`.
pub parse_governance :
    (w : World) (signers threshold : String) (fallback : Address)
    → (0 < length (parse_signers w signers fallback))
      × (0 < parse_threshold threshold)
      × (parse_threshold threshold < 18446744073709551616)
unfolding parse_signers parse_threshold
parse_governance w signers threshold fallback = (
  ground arith,
  ground arith,
  elim (Option-cases (parse_uint (trim_space threshold))) [
    | inl none_read ↦ ground arith
    | inr (v, e) ↦ ground (arith, parse_uint-lt (trim_space threshold) v e)
  ],
)
