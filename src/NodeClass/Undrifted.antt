-- ===== src/NodeClass/Undrifted.antt =====
-- Which claims the pass of rebaselineClaimHashes writes to, and what that does to drift detection.
use karpenter_provider_upclo.Base.{◌≡◌, ◌≢◌, ◌⊎◌, true, false, List, [], ◌∷◌, get, has_key}
use karpenter_provider_upclo.Kube.{NodeClaim, Condition}
use karpenter_provider_upclo.Api.{hash_annotation_key, hash_version_annotation_key, hash_version}
use karpenter_provider_upclo.Api.Spec.{hash}
use karpenter_provider_upclo.Drift.{drift_reason}
use karpenter_provider_upclo.Instance.Fleet.{Mem}
use karpenter_provider_upclo.NodeClass.{Env, NodeClass, Write, update, patch_status, patch_claim}

-- Karpenter has found drift: the first condition named Drifted is true.
abbrev pub MarkedDrifted : List Condition → Type 0
MarkedDrifted [] = ⊥
MarkedDrifted (c ∷ cs) =
    ((c.kind ≡ "Drifted") × (c.status ≡ "True")) ⊎ ((c.kind ≢ "Drifted") × MarkedDrifted cs)

-- The hash of a claim says nothing to the running version: it is of another version, or it is missing from
-- a claim that has been launched.
abbrev pub IsStale : NodeClaim → Type 0
IsStale c =
    ((has_key hash_annotation_key c.annotations ≡ true)
      × (get hash_version_annotation_key c.annotations ≢ hash_version))
    ⊎ ((has_key hash_annotation_key c.annotations ≡ false) × (c.provider_id ≢ ""))

module _ {C : Type 0} (env : Env C) (nc : NodeClass C) where
  -- A patch of `stored`, one of `claims`, to `changed`.
  pub record Restamp (claims : List NodeClaim) (stored changed : NodeClaim) : Type 0 where
    pub listed : Mem stored claims
    pub unmarked : ¬ MarkedDrifted stored.conditions
    pub stale : IsStale stored
    pub undrifted : drift_reason env.digest nc.spec stored ≡ ""
    pub still_undrifted : drift_reason env.digest nc.spec changed ≡ ""
    pub hash_stamped : get hash_annotation_key changed.annotations ≡ hash env.digest nc.spec
    pub version_stamped : get hash_version_annotation_key changed.annotations ≡ hash_version

  abbrev pub IsRestamp : List NodeClaim → Write C → Type 0
  IsRestamp claims (patch_claim stored changed) = Restamp claims stored changed
  IsRestamp claims (update _) = ⊥
  IsRestamp claims (patch_status _ _) = ⊥

  -- A listed claim is left for a reason, or it is stamped by one of the calls.
  abbrev pub IsServed : List (Write C) → NodeClaim → Type 0
  IsServed calls c =
      MarkedDrifted c.conditions
      ⊎ ((¬ IsStale c) ⊎ ((changed : NodeClaim) × Mem (patch_claim c changed) calls))
