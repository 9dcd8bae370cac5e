-- ===== src/NodeClass/Verdict.antt =====
-- What a pass over the NodeClaims does to the verdict of drift detection.
use karpenter_provider_upclo.Base.{
  String, ℕ, ◌≡◌, ◌≢◌, refl, ◌∙◌, ◌↔◌, false, ◌==◌, eq_iff, eq_refl, eq-false_of_ne, Option, arith,
  get, has_key, if◌then◌else◌, Dict,
}
use karpenter_provider_upclo.Kube.{NodeClaim}
use karpenter_provider_upclo.Api.{hash_annotation_key, hash_version, node_class_drifted}
use karpenter_provider_upclo.Api.Spec.{Spec, hash}
use karpenter_provider_upclo.Drift.{drift_reason}
use karpenter_provider_upclo.NodeClass.{is_skipped, rebaselined}
use karpenter_provider_upclo.NodeClass.Rebaseline.{settled, get-version, get-hash}

no_key : (k : String) (m : Dict String) → has_key k m ≡ false → get k m ≡ ""
unfolding has_key get
no_key k m e = ground arith

pub unskipped_reason :
    (digest : Spec → Option ℕ) (spec : Spec) (claim : NodeClaim)
    → is_skipped claim ≡ false
    → drift_reason digest spec claim ≡ ""
unfolding is_skipped drift_reason
unskipped_reason digest spec claim e = ground (
  arith,
  no_key hash_annotation_key claim.annotations,
  eq_iff (get hash_annotation_key claim.annotations) "",
)

stamped_reason :
    (digest : Spec → Option ℕ) (h : String) (later : Spec) (claim : NodeClaim)
    → drift_reason digest later (rebaselined h claim)
      ≡ (if h == "" then "" else if h == hash digest later then "" else node_class_drifted)
unfolding drift_reason
stamped_reason digest h later claim =
    rw (get-hash h claim, get-version h claim) (ground (arith, eq_refl hash_version))

pub same_reason :
    (digest : Spec → Option ℕ) (spec : Spec) (claim : NodeClaim)
    → drift_reason digest spec (rebaselined (hash digest spec) claim) ≡ ""
same_reason digest spec claim =
    stamped_reason digest (hash digest spec) spec claim ∙ ground (arith, eq_refl (hash digest spec))

-- After a pass, a claim that it stamped is drifted for a later specification exactly when the
-- two have different hashes, if the first has a hash at all.
pub stamped_detects_drift :
    (digest : Spec → Option ℕ) (spec later : Spec) (claim : NodeClaim)
    → is_skipped claim ≡ false
    → hash digest spec ≢ ""
    → (drift_reason digest later (settled (hash digest spec) claim) ≡ node_class_drifted)
      ↔ (hash digest spec ≢ hash digest later)
stamped_detects_drift digest spec later claim e h = rw e (sound, complete)
  where
    sound :
        drift_reason digest later (rebaselined (hash digest spec) claim) ≡ node_class_drifted
        → hash digest spec ≢ hash digest later
    sound d same = ground (
      arith,
      d,
      stamped_reason digest (hash digest spec) later claim,
      eq_iff (hash digest spec) (hash digest later),
      eq_iff "" node_class_drifted,
    )

    complete :
        hash digest spec ≢ hash digest later
        → drift_reason digest later (rebaselined (hash digest spec) claim) ≡ node_class_drifted
    complete n =
        stamped_reason digest (hash digest spec) later claim
        ∙ rw
            (
              eq-false_of_ne (hash digest spec) "" h,
              eq-false_of_ne (hash digest spec) (hash digest later) n,
            )
            refl
