-- ===== src/Versions/Laws.antt =====
-- What `main` of allow-tee-version has done when it succeeds, and that it can be repeated.
use mathlib.Core.Path.{subst}
use aurelith.Base.{ℕ, ◌≡◌, ◌⊎◌, inl, inr, refl, String, true, List, [], ◌∷◌, ok}
use aurelith.World.{Hash, World}
use aurelith.Chain.{Call, Receipt, check_tx}
use aurelith.TeeCalls.Identity.{SignedTeeInfo}
use aurelith.Versions.{Versions, string_to_bytes32, add_tee_version, allow_version}

module _ {C : Type 0} (k : Versions C) (w : World) where
  -- The chain allows the code hash and the platform of a node.
  abbrev pub IsAllowed : SignedTeeInfo → C → Type 0
  IsAllowed info c =
      k.is_supported info.machine_data.extension_id info.machine_data.code_hash
        info.machine_data.platform c
      ≡ ok true

  -- The version of a node has been sent and confirmed.
  abbrev pub IsAdded : ℕ → SignedTeeInfo → String → C → C → Type 0
  IsAdded key info version c t =
      (bytes : List ℕ) × (sent : C) × (tx : Hash) × (receipt : Receipt) × (string_to_bytes32
          w.is_print version
        ≡ ok bytes)
      × (k.send_add_version key info.machine_data.extension_id bytes info.machine_data.code_hash
            (info.machine_data.platform ∷ []) c
          ≡ (sent, ok tx))
      × (check_tx k.node tx sent ≡ (t, ok receipt))

  -- The call of `AddTeeVersion` for a node.
  abbrev pub add_for : ℕ → SignedTeeInfo → String → Call C (Unit {0})
  add_for key info version =
      add_tee_version k w key info.machine_data.extension_id info.machine_data.code_hash
        info.machine_data.platform version

  allow_version-skips :
      (key : ℕ) (info : SignedTeeInfo) (version : String) (c : C)
      → IsAllowed info c
      → allow_version k w key info version c ≡ (c, ok tt)
  unfolding allow_version
  allow_version-skips key info version c allowed = rw (allowed, allow_version) refl

  -- After a success in which the version was there or was confirmed, the same call again succeeds
  -- and leaves the chain as it is, where a confirmed version is allowed.
  pub allow_version_again :
      (key : ℕ) (info : SignedTeeInfo) (version : String) (c t : C)
      → (IsAdded key info version c t → IsAllowed info t)
      → (IsAllowed info c × (c ≡ t)) ⊎ IsAdded key info version c t
      → allow_version k w key info version t ≡ (t, ok tt)
  allow_version_again key info version c t allows (inl (allowed, same)) =
      allow_version-skips key info version t (subst (IsAllowed info) same allowed)
  allow_version_again key info version c t allows (inr added) =
      allow_version-skips key info version t (allows added)
