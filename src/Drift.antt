-- ===== src/Drift.antt =====
-- Drift detection: IsDrifted and resolveNodeClass of pkg/cloudprovider/cloudprovider.go, and the
-- event of pkg/events/cloudprovider.go. Of the node class only its specification is read.
use karpenter_provider_upclo.Base.{
  String, ℕ, get, Option, none, some, List, [], ◌∷◌, not, ◌==◌, if◌then◌else◌, Result, ok, err,
}
use karpenter_provider_upclo.Kube.{
  Error, status, not_found, wrapped, is_not_found, is_node_claim_not_found, NodeClaim,
}
use karpenter_provider_upclo.Kube.Run.{Run, pure, fail}
use karpenter_provider_upclo.Api.{
  hash_annotation_key, hash_version_annotation_key, hash_version, node_class_drifted,
}
use karpenter_provider_upclo.Api.Spec.{Spec, hash}

pub record Event : Type 0 where
  pub involved : NodeClaim
  pub kind : String
  pub reason : String
  pub message : String
  pub dedupe_values : List String

pub node_claim_failed_to_resolve_node_class : NodeClaim → Event
node_claim_failed_to_resolve_node_class nc = record {
  involved = nc;
  kind = "Warning";
  reason = "NodeClaimFailedToResolveNodeClass";
  message =
      "Failed to resolve the UpCloudNodeClass for this NodeClaim; drift is not evaluated until the NodeClass exists again.";
  dedupe_values = nc.uid ∷ "NodeClassUnresolvable" ∷ [];
}

-- `lookup_class` is the API server's answer for a name.
pub resolve_node_class : (String → Result Error Spec) → NodeClaim → Result Error Spec
resolve_node_class lookup_class nc = elim nc.node_class_ref [
  | none ↦ err (status not_found)
  | some name ↦ lookup_class name
]

-- The comparison of the stored hash with the live one: a reason, or "".
unfoldable pub drift_reason : (Spec → Option ℕ) → Spec → NodeClaim → String
drift_reason digest spec nc =
    let stored = get hash_annotation_key nc.annotations in
    if stored == ""
    then ""
    else if not (get hash_version_annotation_key nc.annotations == hash_version)
    then ""
    else if not (stored == hash digest spec)
    then node_class_drifted
    else ""

unresolved : NodeClaim → Error → Run Event Error String
unresolved nc e =
    if is_not_found e
    then record { writes = node_claim_failed_to_resolve_node_class nc ∷ []; result = ok "" }
    else if is_node_claim_not_found e
    then pure ""
    else fail (wrapped "resolving node class" e)

pub is_drifted :
    (Spec → Option ℕ) → (String → Result Error Spec) → NodeClaim → Run Event Error String
unfolding unresolved
is_drifted digest lookup_class nc = elim (resolve_node_class lookup_class nc) [
  | err e ↦ unresolved nc e
  | ok spec ↦ pure (drift_reason digest spec nc)
]
