-- ===== src/Cloud/Labels.antt =====
-- The labels of nodes and servers, and the storage.
use karpenter_provider_upclo.Base.{
  String, lookup, assign, or_else, or_else-none, lookup-assign, ◌≡◌, refl, ap, ◌∙◌, ◌==◌, some, [],
  if◌then◌else◌,
}
use karpenter_provider_upclo.Kube.{NodeClaim}
use karpenter_provider_upclo.Api.{
  server_managed_label_key, server_managed_label_value, server_cluster_id_label_key,
  server_cluster_name_label_key, server_generated_name_label_key,
}
use karpenter_provider_upclo.Api.Spec.{Spec}
use karpenter_provider_upclo.Instance.{Provider, managed_labels}
use karpenter_provider_upclo.Instance.Labels.{lookup-managed_labels}
use karpenter_provider_upclo.Cloud.Claims.{node_labels, server_labels, base_labels, entries}

-- A label of a node is the one of the NodeClaim, or else the one of the node class, or else the one that
-- the provider computes.
pub lookup-node_labels :
    (zone plan : String) (spec : Spec) (claim : NodeClaim) (k : String)
    → lookup k (node_labels zone plan spec claim)
      ≡ or_else
          (lookup k claim.labels)
          (or_else (lookup k (entries spec.labels)) (lookup k (base_labels zone plan)))
unfolding node_labels
lookup-node_labels zone plan spec claim k =
    lookup-assign k (assign (base_labels zone plan) (entries spec.labels)) claim.labels
    ∙ ap (or_else (lookup k claim.labels))
        (lookup-assign k (base_labels zone plan) (entries spec.labels))

-- The labels sent to UpCloud are the four markers and, under all other keys, those of the node class.
pub lookup-sent :
    (p : Provider) (name : String) (spec : Spec) (k : String)
    → lookup k (managed_labels p name (some (server_labels spec))) ≡ (
        if server_generated_name_label_key == k
        then some name
        else if server_cluster_name_label_key == k
        then some p.cluster_name
        else if server_cluster_id_label_key == k
        then some p.cluster_id
        else if server_managed_label_key == k
        then some server_managed_label_value
        else lookup k (entries spec.labels))
unfolding server_labels lookup
lookup-sent p name spec k =
    lookup-managed_labels p name (some (server_labels spec)) k
    ∙ rw (lookup-assign k [] (entries spec.labels))
        (rw (or_else-none (lookup k (entries spec.labels))) refl)
