-- ===== src/Policy/Laws.antt =====
-- When the registration is blocked for a signing policy.
use aurelith.Base.{ℕ, ◌+◌, ◌<◌, ◌≢◌, ◌↔◌, refl, Option, none, some, Result, ok, err, arith, nat_eq}
use aurelith.Policy.{policy_in_sync, check_ftdc_proxy_policy_consistency}

-- The chain and the proxy have both answered, and the policy is neither of the epoch nor one
-- ahead of it.
abbrev pub IsMismatch : Result (Option ℕ) → Result ℕ → Type 0
IsMismatch (ok (some epoch)) (ok policy) = (policy ≢ epoch) × (policy ≢ epoch + 1)
IsMismatch _ _ = ⊥

abbrev pub IsUint64 : Result (Option ℕ) → Type 0
IsUint64 (ok (some epoch)) = epoch + 1 < 18446744073709551616
IsUint64 _ = Unit

-- For a reward epoch below 2^64 - 1, the check gives an error exactly when both lookups have
-- succeeded and the proxy's policy is neither that of the epoch nor the next one.
pub check_ftdc_proxy_policy_consistency_lem :
    (epoch : Result (Option ℕ)) (policy : Result ℕ)
    → IsUint64 epoch
    → (check_ftdc_proxy_policy_consistency epoch policy ≢ none) ↔ IsMismatch epoch policy
unfolding check_ftdc_proxy_policy_consistency policy_in_sync
check_ftdc_proxy_policy_consistency_lem (err e) policy small = (λ h. h refl, λ h. absurd h)
check_ftdc_proxy_policy_consistency_lem (ok none) policy small = (λ h. h refl, λ h. absurd h)
check_ftdc_proxy_policy_consistency_lem (ok (some epoch)) (err e) small =
    (λ h. h refl, λ h. absurd h)
check_ftdc_proxy_policy_consistency_lem (ok (some epoch)) (ok policy) small = ground arith
