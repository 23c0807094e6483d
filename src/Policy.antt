-- ===== src/Policy.antt =====
-- `fcc-extension/tools/pkg/fccutils/policy_consistency.go`: the proxy's signing policy against the reward epoch
-- of the chain. A `uint64` is its number, and a `*big.Int` that is nil is `none`.
pub mod Laws
use aurelith.Base.{
  ℕ, ◌+◌, ◌-◌, ◌%◌, String, Bool, true, false, ◌||◌, Option, none, some, Result, ok, err, Error,
  ◌==◌, nat_eq, ltb, if◌then◌else◌,
}
use aurelith.Base.Text.{◌<>◌, show_ℕ}

-- `policyInSync`: the sum wraps around.
unfoldable pub policy_in_sync : ℕ → ℕ → Bool
policy_in_sync onchain_epoch proxy_policy_id =
    proxy_policy_id == onchain_epoch
    || proxy_policy_id == (onchain_epoch + 1) % 18446744073709551616

-- `ErrPolicyOutOfSync`, which the error wraps.
abbrev pub policy_out_of_sync : String
policy_out_of_sync = "FTDC proxy signing policy out of sync with on-chain reward epoch"

unfoldable pub lag_text : ℕ → ℕ → String
unfolding show_ℕ
lag_text onchain_epoch proxy_policy_id =
    if ltb proxy_policy_id onchain_epoch
    then "proxy is " <> show_ℕ (onchain_epoch - proxy_policy_id) <> " epoch(s) behind"
    else "proxy is " <> show_ℕ (proxy_policy_id - onchain_epoch) <> " epoch(s) ahead"

-- `outOfSyncError`
unfoldable pub out_of_sync_error : ℕ → ℕ → String
unfolding lag_text show_ℕ
out_of_sync_error onchain_epoch proxy_policy_id =
    policy_out_of_sync
    <> ": proxy signing policy "
    <> show_ℕ proxy_policy_id
    <> " vs on-chain current reward epoch "
    <> show_ℕ onchain_epoch
    <> " ("
    <> lag_text onchain_epoch proxy_policy_id
    <> "); data providers will reject the availability check with 404 \"no round\"; wait for the proxy to catch up to the current signing policy, or check the proxy's initial_signing_policy_offset and C-chain indexer sync"

-- `CheckFTDCProxyPolicyConsistency` on the answers of `GetCurrentRewardEpochId` and of `TeeInfo`,
-- whose `LastSigningPolicyID` is converted to `uint64`; `Uint64` keeps the low 64 bits.
unfoldable pub check_ftdc_proxy_policy_consistency : Result (Option ℕ) → Result ℕ → Error
unfolding policy_in_sync out_of_sync_error
check_ftdc_proxy_policy_consistency (err e) info = none
check_ftdc_proxy_policy_consistency (ok none) info = none
check_ftdc_proxy_policy_consistency (ok (some onchain)) (err e) = none
check_ftdc_proxy_policy_consistency (ok (some onchain)) (ok last_signing_policy_id) =
    let onchain_epoch = onchain % 18446744073709551616 in
    if policy_in_sync onchain_epoch last_signing_policy_id
    then none
    else some (out_of_sync_error onchain_epoch last_signing_policy_id)
