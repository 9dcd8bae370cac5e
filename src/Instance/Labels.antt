-- ===== src/Instance/Labels.antt =====
-- The labels of created servers.
use karpenter_provider_upclo.Base.{
  String, Dict, lookup, lookup-insert, eq_iff, ◌==◌, ◌≡◌, refl, Option, none, some, [], ◌∷◌, true,
  arith, if◌then◌else◌,
}
use karpenter_provider_upclo.Api.{
  server_managed_label_key, server_managed_label_value, server_cluster_id_label_key,
  server_cluster_name_label_key, server_generated_name_label_key,
}
use karpenter_provider_upclo.Instance.{Provider, managed_labels, is_managed}

-- The labels of a request: the four markers, whatever the caller's labels are, and the caller's
-- labels under all other keys.
pub lookup-managed_labels :
    (p : Provider) (hostname : String) (labels : Option (Dict String)) (k : String)
    → lookup k (managed_labels p hostname labels) ≡ (
        if server_generated_name_label_key == k
        then some hostname
        else if server_cluster_name_label_key == k
        then some p.cluster_name
        else if server_cluster_id_label_key == k
        then some p.cluster_id
        else if server_managed_label_key == k
        then some server_managed_label_value
        else lookup k (elim labels [ none ↦ [] | some m ↦ m ]))
unfolding managed_labels
lookup-managed_labels p hostname labels k =
    rw (lookup-insert, lookup-insert, lookup-insert, lookup-insert) refl

-- A label that the dictionary holds is found by the walk over the pairs.
is_managed_of_lookup :
    (m : Dict String)
    → lookup server_managed_label_key m ≡ some server_managed_label_value
    → is_managed m ≡ true
unfolding is_managed lookup
is_managed_of_lookup [] e = ground arith
is_managed_of_lookup ((k, v) ∷ m) e = ground (
  arith,
  is_managed_of_lookup m,
  eq_iff k server_managed_label_key,
  eq_iff v server_managed_label_value,
)

-- A request made with any labels is managed.
pub managed_labels-IsManaged :
    (p : Provider) (hostname : String) (labels : Option (Dict String))
    → is_managed (managed_labels p hostname labels) ≡ true
managed_labels-IsManaged p hostname labels =
    is_managed_of_lookup (managed_labels p hostname labels)
      (lookup-managed_labels p hostname labels server_managed_label_key)
