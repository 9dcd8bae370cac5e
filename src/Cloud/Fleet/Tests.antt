-- ===== src/Cloud/Fleet/Tests.antt =====
-- The server of that account: created, listed and deleted.
use karpenter_provider_upclo.Base.{
  String, map, ◌≡◌, ◌≢◌, refl, ◌↔◌, ◌⊎◌, none, some, List, [], ◌∷◌, ok, lookup, assign, insert, any,
  All, Any,
}
use karpenter_provider_upclo.Base.Text.{contains, has_prefix}
use karpenter_provider_upclo.Kube.{NodeClaim}
use karpenter_provider_upclo.Instance.{
  Server, Service, CreateRequest, create_request, is_managed, managed_labels,
}
use karpenter_provider_upclo.Instance
use karpenter_provider_upclo.Instance.Fleet.{Mem}
use karpenter_provider_upclo.Cloud.{
  Cloud, create, delete, get_claim, after_stop, remove, user_data_of, launch, resolve_node_class,
}
use karpenter_provider_upclo.Cloud.Claims.{
  created_claim, build_node_claim, node_labels, chosen_plan, chosen_storage, server_labels,
  server_name, instance_type_requirement, node_taints,
}
use karpenter_provider_upclo.Cloud.Outcome.{Outcome}
use karpenter_provider_upclo.Cloud.Launch.{Fate, create-Fate}
use karpenter_provider_upclo.Cloud.Ledger.{
  Event, made, removed, book, Trace, done, creates, deletes,
}
use karpenter_provider_upclo.Cloud.Balance.{booked}
use karpenter_provider_upclo.Cloud.Unfiltered.{Marked, get_unfiltered}
use karpenter_provider_upclo.Api.{provider_id_prefix}
use Prim.Native.String.{◌++◌ as ◌+++◌}
use karpenter_provider_upclo.Cloud.Observed.{created_then_listed, deleted_then_listed}
use karpenter_provider_upclo.Certs.{
  get_ca_bundle, generate_kubelet_cert, approve, is_denied, is_approved, poll,
}
use karpenter_provider_upclo.UserData.{
  generate, validate_single_line, no_control, first_control, is_control, serialize_labels, join,
  keys, sort, insert_sorted, le_text, eq_text, label_value, validate_shell_safe, first_significant,
  is_significant, validate_taints, encoded, serialize_taints_yaml,
}
use karpenter_provider_upclo.UserData.Utf8.{decode, encode}
use karpenter_provider_upclo.Plans.{is_spot_plan, to_upper}
use karpenter_provider_upclo.InstanceTypes.{capacity_type}
use karpenter_provider_upclo.Base.Text.{trim_prefix, without_prefix}
use karpenter_provider_upclo.Cloud
use karpenter_provider_upclo.Cloud.Sample.{spec, instances, claim, launched_claim}
use karpenter_provider_upclo.Cloud.Fleet.Account.{Room, with_labels, holding, cloud, cloud-IsAlone}

abbrev pub name : String
name = server_name "01234567-89ab-cdef-0123-456789abcdef"

abbrev pub marks : List (String × String)
marks = managed_labels instances name (some (server_labels spec))

abbrev pub fresh : NodeClaim
fresh =
    created_claim cloud.digest spec claim name
      (node_labels cloud.zone (chosen_plan spec claim) spec claim) (with_labels marks)

pub created_here : create cloud claim none ≡ (ok fresh, some marks)
unfolding create resolve_node_class get_ca_bundle lookup generate_kubelet_cert approve is_denied
    is_approved any poll server_name user_data_of launch chosen_storage generate
    validate_single_line no_control first_control is_control serialize_labels join keys sort
    insert_sorted le_text eq_text label_value validate_shell_safe first_significant is_significant
    validate_taints encoded serialize_taints_yaml decode encode chosen_plan
    instance_type_requirement node_labels node_taints capacity_type is_spot_plan contains has_prefix
    to_upper assign insert Instance.create create_request
created_here = refl

create-Fate_example : Fate (holding none) (ok fresh) (holding (some marks))
create-Fate_example =
    create-Fate cloud holding cloud-IsAlone claim none (some marks) (ok fresh) created_here

empty_here : Cloud.list cloud none ≡ (ok [], none)
unfolding Cloud.list Instance.list Instance.list_loop
empty_here = refl

created_then_listed_example :
    (after : List NodeClaim) × (u : Room) × (new : NodeClaim) × (Cloud.list cloud (some marks)
      ≡ (ok after, u))
    × (new.provider_id ≡ fresh.provider_id)
    × All (λ (x : NodeClaim). x.provider_id ≢ fresh.provider_id) []
    × ((x : NodeClaim) → Mem x after ↔ ((x ≡ new) ⊎ Mem x []))
created_then_listed_example =
    created_then_listed cloud holding cloud-IsAlone claim fresh none none (some marks) [] empty_here
      created_here

abbrev pub listed_claim : NodeClaim
listed_claim = build_node_claim (with_labels marks) "fi-hel1"

listed_here : Cloud.list cloud (some marks) ≡ (ok (listed_claim ∷ []), some marks)
unfolding Cloud.list Instance.list Instance.list_loop Instance.managed is_managed managed_labels
    server_labels insert assign server_name
listed_here = refl

deleted_here : delete cloud launched_claim (some marks) ≡ (ok tt, none)
unfolding delete after_stop remove Instance.stop Instance.delete Instance.wait_for_stop trim_prefix
    without_prefix has_prefix
deleted_here = refl

deleted_then_listed_example :
    (after : List NodeClaim) × (u : Room) × (Cloud.list cloud none ≡ (ok after, u))
    × ((x : NodeClaim)
        → Mem x after ↔ (Mem x (listed_claim ∷ []) × (x.provider_id ≢ launched_claim.provider_id)))
deleted_then_listed_example =
    deleted_then_listed cloud holding cloud-IsAlone launched_claim "00f1" (some marks) (some marks)
      none (listed_claim ∷ []) refl listed_here deleted_here

-- A server that somebody made by hand.
abbrev by_hand : Server
by_hand = with_labels []

unseen_here : Cloud.list cloud (some []) ≡ (ok [], some [])
unfolding Cloud.list Instance.list Instance.list_loop Instance.managed is_managed
unseen_here = refl

get_unfiltered_example :
    (c : NodeClaim) × (v : Room) × (get_claim cloud (provider_id_prefix +++ "00f1") (some [])
      ≡ (ok c, v))
    × (c.provider_id ≡ provider_id_prefix +++ "00f1")
    × (c.node_name ≡ "karpenter-0123456789abcdef")
    × (holding v ≡ holding (some []))
    × (Any (λ (x : NodeClaim). x.provider_id ≡ provider_id_prefix +++ "00f1") [] ↔ Marked [])
get_unfiltered_example =
    get_unfiltered cloud holding cloud-IsAlone by_hand (some []) (some []) [] refl unseen_here

abbrev events : List Event
events = made fresh.provider_id ∷ removed launched_claim.provider_id ∷ []

made_and_deleted : Trace cloud holding cloud-IsAlone none events none
made_and_deleted =
    creates claim fresh none (some marks) none (removed launched_claim.provider_id ∷ [])
      created_here
      (deletes launched_claim "00f1" (some marks) none none [] refl deleted_here (done none))

booked_example :
    (after : List NodeClaim) × (u : Room) × (Cloud.list cloud none ≡ (ok after, u))
    × ((id : String) → Mem id (map (λ c. c.provider_id) after) ↔ Mem id (book events []))
booked_example =
    booked cloud holding cloud-IsAlone none none none events [] empty_here made_and_deleted
