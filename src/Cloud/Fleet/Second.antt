-- ===== src/Cloud/Fleet/Second.antt =====
-- A second cluster on the account with one server, and a service that does not give its details.
use karpenter_provider_upclo.Base.{
  ◌≡◌, ◌≢◌, refl, none, some, List, [], ◌∷◌, ok, err, All, insert, assign,
}
use karpenter_provider_upclo.Base.Text.{trim_prefix, without_prefix, has_prefix}
use Prim.Native.String.{◌++◌ as ◌+++◌}
use karpenter_provider_upclo.Kube.{NodeClaim}
use karpenter_provider_upclo.Api.{provider_id_prefix}
use karpenter_provider_upclo.Instance
use karpenter_provider_upclo.Instance.{Server, Provider, Service, is_managed, managed_labels}
use karpenter_provider_upclo.Instance.Fleet.{Mem}
use karpenter_provider_upclo.Cloud
use karpenter_provider_upclo.Cloud.{Cloud, delete, after_stop, remove}
use karpenter_provider_upclo.Cloud.Claims.{
  created_claim, build_node_claim, server_labels, server_name,
}
use karpenter_provider_upclo.Cloud.Fleet.{IsAlone}
use karpenter_provider_upclo.Cloud.Foreign.{taken_by_others}
use karpenter_provider_upclo.Cloud.Partial.{unread_unlisted}
use karpenter_provider_upclo.Cloud.Sample.{claim, instances}
use karpenter_provider_upclo.Cloud.Fleet.Account.{Room, room, holding, cloud, cloud-IsAlone}
use karpenter_provider_upclo.Cloud.Fleet.Tests.{fresh, marks, created_here, listed_claim}

abbrev second : Cloud Room (Unit {0})
second = record cloud {
  instances = record instances { cluster_id = "0b7e"; cluster_name = "second" };
}

second-IsAlone : IsAlone second holding
second-IsAlone = record {
  fleet = cloud-IsAlone.fleet;
  refused = cloud-IsAlone.refused;
  undeleted = cloud-IsAlone.undeleted;
  quiet = cloud-IsAlone.quiet;
  clean = cloud-IsAlone.clean;
  class_read = cloud-IsAlone.class_read;
  named = cloud-IsAlone.named;
}

listed_there : Cloud.list second (some marks) ≡ (ok (listed_claim ∷ []), some marks)
unfolding Cloud.list Instance.list Instance.list_loop Instance.managed is_managed managed_labels
    server_labels insert assign server_name
listed_there = refl

deleted_there : delete second listed_claim (some marks) ≡ (ok tt, none)
unfolding delete after_stop remove Instance.stop Instance.delete Instance.wait_for_stop trim_prefix
    without_prefix has_prefix build_node_claim
deleted_there = refl

taken_by_others_example :
    ((n : NodeClaim) × Mem n (listed_claim ∷ []) × (n.provider_id ≡ fresh.provider_id))
    × (holding none ≡ holding none)
unfolding created_claim build_node_claim
taken_by_others_example =
    taken_by_others cloud second holding cloud-IsAlone second-IsAlone claim fresh listed_claim none
      (some marks) (some marks) none (listed_claim ∷ []) created_here listed_there refl
      deleted_there

abbrev throttled : Service Room
throttled = record room { get_server_details = λ u w. (err "TOO_MANY_REQUESTS", w) }

abbrev blind : Cloud Room (Unit {0})
blind = record cloud { servers = throttled }

unread_unlisted_example :
    (claims : List NodeClaim) × (Cloud.list blind (some marks) ≡ (ok claims, some marks))
    × All (λ (c : NodeClaim). c.provider_id ≢ provider_id_prefix +++ "00f1") claims
unread_unlisted_example =
    unread_unlisted blind (some marks) (λ u. err "TOO_MANY_REQUESTS") ("00f1" ∷ []) "00f1"
      "TOO_MANY_REQUESTS" (λ u. refl) (λ u s e. absurd (cc)) refl refl
