-- ===== src/Cloud/Claims.antt =====
-- pkg/cloudprovider/cloudprovider.go: what `Create` computes before and after its calls, and the claims that
-- it, `Get` and `List` return.
use Prim.Native.Char.{code}
use Prim.Native.String.{◌++◌ as ◌+++◌}
use karpenter_provider_upclo.Base.{
  String, ℕ, zero, suc, Dict, assign, Option, none, some, List, [], ◌∷◌, ◌++◌, ◌==◌, nat_eq,
  if◌then◌else◌,
}
use karpenter_provider_upclo.Base.Int.{ℤ, pos, ltb_ℤ, to_int64, times}
use karpenter_provider_upclo.Base.Text.{Text, codes}
use karpenter_provider_upclo.Kube.{Taint, Requirement, NodeClaim, empty_claim}
use karpenter_provider_upclo.Api.{
  provider_id_prefix, label_instance_type, label_arch, label_os, label_zone,
  capacity_type_label_key, hash_annotation_key, hash_version_annotation_key, hash_version,
}
use karpenter_provider_upclo.Api.Spec.{Spec, StorageSpec, hash}
use karpenter_provider_upclo.UserData.{TaintEntry}
use karpenter_provider_upclo.UserData.Utf8.{encode}
use karpenter_provider_upclo.InstanceTypes.{Plan, capacity_type}
use karpenter_provider_upclo.Instance.{Server}

-- The bytes of a Go string.
abbrev pub bytes : String → Text
bytes s = encode (codes s)

-- strings.ReplaceAll(s, "-", "")
unfoldable pub without_dashes : String → String
without_dashes String.[] = String.[]
without_dashes (String.◌∷◌ c s) =
    let rest = without_dashes s in if nat_eq (code c) b'-' then rest else String.◌∷◌ c rest

-- s[:n], of an ASCII text that is long enough: a UUID has 32 characters other than dashes.
unfoldable pub first : ℕ → String → String
first zero s = String.[]
first (suc n) String.[] = String.[]
first (suc n) (String.◌∷◌ c s) = String.◌∷◌ c (first n s)

unfoldable pub server_name : String → String
unfolding without_dashes first
server_name uuid = "karpenter-" +++ first 16 (without_dashes uuid)

unfoldable pub instance_type_requirement : List Requirement → Option Requirement
instance_type_requirement [] = none
instance_type_requirement (r ∷ rs) =
    let rest = instance_type_requirement rs in if r.key == label_instance_type then some r else rest

unfoldable pub chosen_plan : Spec → NodeClaim → String
unfolding instance_type_requirement
chosen_plan spec claim = elim (instance_type_requirement claim.requirements) [
  | none ↦ spec.plan
  | some r ↦ elim r.values [ [] ↦ spec.plan | plan ∷ vs ↦ plan ]
]

-- A nil map or slice has no entries.
abbrev pub entries {ℓ} : {A : Type ℓ} → Option (List A) → List A
entries none = []
entries (some xs) = xs

abbrev pub base_labels : String → String → Dict String
base_labels zone plan =
    ("topology.kubernetes.io/region", zone)
    ∷ ("topology.kubernetes.io/zone", zone)
    ∷ ("failure-domain.beta.kubernetes.io/region", zone)
    ∷ ("failure-domain.beta.kubernetes.io/zone", zone)
    ∷ (label_instance_type, plan)
    ∷ (label_arch, "amd64")
    ∷ (label_os, "linux")
    ∷ (capacity_type_label_key, capacity_type plan)
    ∷ []

unfoldable pub node_labels : String → String → Spec → NodeClaim → Dict String
node_labels zone plan spec claim =
    assign (assign (base_labels zone plan) (entries spec.labels)) claim.labels

-- `lo.Assign` makes a new map, so the labels of the node class stay as they are when the instance provider
-- writes its own into this one.
unfoldable pub server_labels : Spec → Dict String
server_labels spec = assign [] (entries spec.labels)

-- karpv1.UnregisteredNoExecuteTaint
abbrev pub unregistered_taint : Taint
unregistered_taint = record { key = "karpenter.sh/unregistered"; value = ""; effect = "NoExecute" }

unfoldable pub node_taints : Spec → NodeClaim → List Taint
node_taints spec claim = (unregistered_taint ∷ []) ++ entries spec.taints ++ claim.taints

-- The storage of the plan wins over the one of the node class, except for the encryption.
unfoldable pub chosen_storage : Option Plan → Option StorageSpec → Option StorageSpec
chosen_storage none storage = storage
chosen_storage (some plan) storage =
    if ltb_ℤ (pos 0) plan.storage_size
    then some (record {
      size = plan.storage_size;
      tier = "";
      encrypted = elim storage [ none ↦ none | some s ↦ s.encrypted ];
    })
    else storage

-- The capacity of a server: int64(MemoryAmount)*1024*1024 wraps around.
unfoldable pub server_capacity : Server → Dict ℤ
server_capacity server =
    ("cpu", server.core_number)
    ∷ ("memory", to_int64 (times 1024 (to_int64 (times 1024 server.memory_amount))))
    ∷ ("pods", pos 110)
    ∷ []

-- The claim that `Create` returns.
unfoldable pub created_claim :
    (Spec → Option ℕ) → Spec → NodeClaim → String → Dict String → Server → NodeClaim
unfolding server_capacity
created_claim digest spec claim name labels server = record empty_claim {
  name = name;
  labels = labels;
  annotations =
      (hash_annotation_key, hash digest spec) ∷ (hash_version_annotation_key, hash_version) ∷ [];
  node_class_ref = claim.node_class_ref;
  provider_id = provider_id_prefix +++ server.uuid;
  node_name = server.hostname;
  capacity = server_capacity server;
  allocatable = server_capacity server;
}

unfoldable pub build_node_claim : Server → String → NodeClaim
unfolding server_capacity
build_node_claim server zone = record empty_claim {
  labels =
      (label_instance_type, server.plan)
      ∷ (label_arch, "amd64")
      ∷ (label_os, "linux")
      ∷ (label_zone, zone)
      ∷ (capacity_type_label_key, capacity_type server.plan)
      ∷ [];
  provider_id = provider_id_prefix +++ server.uuid;
  node_name = server.hostname;
  capacity = server_capacity server;
  allocatable = server_capacity server;
}

abbrev pub taint_entry : Taint → TaintEntry
taint_entry t = record { key = bytes t.key; value = bytes t.value; effect = bytes t.effect }

abbrev pub label_bytes : String × String → Text × Text
label_bytes e = (bytes e.0, bytes e.1)
