-- ===== src/Cloud/Sent.antt =====
-- What the user data is rendered from, what UpCloud is asked for, and the claim that is returned.
use Prim.Native.String.{◌++◌ as ◌+++◌}
use karpenter_provider_upclo.Base.{
  String, Dict, ◌≡◌, refl, Option, some, [], ◌∷◌, ◌++◌, map, true, ◌==◌, if◌then◌else◌, lookup, get,
  or_else,
}
use karpenter_provider_upclo.Base.Int.{pos, to_int64, times}
use karpenter_provider_upclo.Base.Text.{Text}
use karpenter_provider_upclo.Kube.{NodeClaim}
use karpenter_provider_upclo.Api.{hash_annotation_key, hash_version_annotation_key, hash_version}
use karpenter_provider_upclo.Api.Spec.{Spec, StorageSpec, hash}
use karpenter_provider_upclo.InstanceTypes.{Plan, capacity_type}
use karpenter_provider_upclo.Instance.{Server, StorageDevice, CreateRequest, create_request}
use karpenter_provider_upclo.Certs.{KubeletCertBundle}
use karpenter_provider_upclo.UserData.{Options}
use karpenter_provider_upclo.Cloud.{Cloud}
use karpenter_provider_upclo.Cloud.Claims.{
  bytes, taint_entry, label_bytes, entries, node_taints, chosen_plan, chosen_storage, node_labels,
  created_claim, server_capacity,
}
use karpenter_provider_upclo.Cloud.Labels.{lookup-node_labels, lookup-sent}
use karpenter_provider_upclo.Cloud.Provision.{request_for, claim_for}
use karpenter_provider_upclo.Cloud.Asked.{with_storage-same, Sized, chosen-Sized}

-- The labels that the provider computes for a node.
abbrev pub computed_labels : String → String → Dict String
computed_labels zone plan =
    ("topology.kubernetes.io/region", zone)
    ∷ ("topology.kubernetes.io/zone", zone)
    ∷ ("failure-domain.beta.kubernetes.io/region", zone)
    ∷ ("failure-domain.beta.kubernetes.io/zone", zone)
    ∷ ("node.kubernetes.io/instance-type", plan)
    ∷ ("kubernetes.io/arch", "amd64")
    ∷ ("kubernetes.io/os", "linux")
    ∷ ("karpenter.sh/capacity-type", capacity_type plan)
    ∷ []

module _ {S K : Type 0} (p : Cloud S K) where
  -- A label of a node: the one of the claim, or else of the node class, or else the computed one.
  abbrev pub node_label : Spec → NodeClaim → String → String → Option String
  node_label spec claim plan k =
      or_else (lookup k claim.labels)
        (or_else (lookup k (entries spec.labels)) (lookup k (computed_labels p.zone plan)))

  -- What the user data is rendered from: this cluster, the certificates, the labels, and the taints, that of
  -- an unregistered node first.
  pub record Boots (spec : Spec) (claim : NodeClaim) (plan : String) (ca : Text)
      (certs : KubeletCertBundle) (o : Options) : Type 0 where
    pub endpoint : o.cluster_endpoint ≡ bytes p.cluster_endpoint
    pub authority : o.ca_cert_pem ≡ ca
    pub certificate : o.kubelet_client_cert ≡ certs.client_cert_pem
    pub key : o.kubelet_client_key ≡ certs.client_key_pem
    pub node_labels : Dict String
    pub labelled : o.labels ≡ map label_bytes node_labels
    pub label : (k : String) → lookup k node_labels ≡ node_label spec claim plan k
    pub tainted :
        o.taints
        ≡ map taint_entry (
            record { key = "karpenter.sh/unregistered"; value = ""; effect = "NoExecute" }
            ∷ (entries spec.taints ++ claim.taints))

  -- The request for the server of a claim.
  pub record Requested (spec : Spec) (claim : NodeClaim) (name plan : String) (user_data : Text)
      (cached : Option Plan) (r : CreateRequest) : Type 0 where
    pub zoned : r.zone ≡ p.zone
    pub hosted : r.hostname ≡ name
    pub titled : r.title ≡ name
    pub planned : r.plan ≡ plan
    pub grouped : r.server_group ≡ spec.server_group_uuid
    pub booted : r.user_data ≡ user_data
    pub with_metadata : r.metadata ≡ true
    pub label :
        (k : String)
        → lookup k r.labels ≡ (
            if "capu_generated_name" == k
            then some name
            else if "capu_cluster_name" == k
            then some p.instances.cluster_name
            else if "capu_cluster_id" == k
            then some p.instances.cluster_id
            else if "managed_by" == k
            then some "karpenter"
            else lookup k (entries spec.labels))
    pub connected :
        r.interfaces
        ≡ record { kind = "private"; network = p.instances.network_uuid; families = "IPv4" ∷ [] }
          ∷ record { kind = "utility"; network = ""; families = "IPv4" ∷ [] }
          ∷ record { kind = "public"; network = ""; families = "IPv4" ∷ [] }
          ∷ []
    pub device : StorageDevice
    pub only_device : r.storage_devices ≡ device ∷ []
    pub cloned : device.action ≡ "clone"
    pub template : device.storage ≡ p.instances.template_uuid
    pub device_titled : device.title ≡ name +++ "-root"
    pub sized : Sized cached spec.storage device

  -- The claim returned for a server.
  pub record Returned (spec : Spec) (claim : NodeClaim) (name plan : String) (server : Server)
      (c : NodeClaim) : Type 0 where
    pub named : c.name ≡ name
    pub class_kept : c.node_class_ref ≡ claim.node_class_ref
    pub id : c.provider_id ≡ "upcloud:////" +++ server.uuid
    pub host : c.node_name ≡ server.hostname
    pub hash_stamped : get hash_annotation_key c.annotations ≡ hash p.digest spec
    pub version_stamped : get hash_version_annotation_key c.annotations ≡ hash_version
    pub label : (k : String) → lookup k c.labels ≡ node_label spec claim plan k
    pub cpu : lookup "cpu" c.capacity ≡ some server.core_number
    pub memory :
        lookup "memory" c.capacity
        ≡ some (to_int64 (times 1024 (to_int64 (times 1024 server.memory_amount))))
    pub pods : lookup "pods" c.capacity ≡ some (pos 110)
    pub all_allocatable : c.allocatable ≡ c.capacity

  abbrev stored : Spec → NodeClaim → S → Option StorageSpec
  stored spec claim w =
      chosen_storage (lookup (chosen_plan spec claim) (p.cached_plans w)) spec.storage

  pub request-Requested :
      (spec : Spec) (claim : NodeClaim) (name : String) (user_data : Text) (w : S)
      → Requested spec claim name
          (chosen_plan spec claim)
          user_data
          (lookup (chosen_plan spec claim) (p.cached_plans w))
          (request_for p spec claim name user_data w)
  unfolding create_request
  request-Requested spec claim name user_data w = record {
    zoned = refl;
    hosted = refl;
    titled = refl;
    planned = refl;
    grouped = refl;
    booted = refl;
    with_metadata = refl;
    label = lookup-sent p.instances name spec;
    connected = refl;
    device = _;
    only_device = refl;
    cloned = (with_storage-same (stored spec claim w) _).0;
    template = (with_storage-same (stored spec claim w) _).1;
    device_titled = (with_storage-same (stored spec claim w) _).2;
    sized =
        chosen-Sized _ refl refl refl (lookup (chosen_plan spec claim) (p.cached_plans w))
          spec.storage;
  }

  pub claim-Returned :
      (spec : Spec) (claim : NodeClaim) (name : String) (server : Server)
      → Returned spec claim name
          (chosen_plan spec claim)
          server
          (claim_for p spec claim name server)
  unfolding created_claim server_capacity get lookup
  claim-Returned spec claim name server = record {
    named = refl;
    class_kept = refl;
    id = refl;
    host = refl;
    hash_stamped = refl;
    version_stamped = refl;
    label = lookup-node_labels p.zone (chosen_plan spec claim) spec claim;
    cpu = refl;
    memory = refl;
    pods = refl;
    all_allocatable = refl;
  }

  abbrev pub rendering : Spec → NodeClaim → Text → KubeletCertBundle → Options
  rendering spec claim ca certs = record {
    cluster_endpoint = bytes p.cluster_endpoint;
    ca_cert_pem = ca;
    kubelet_client_cert = certs.client_cert_pem;
    kubelet_client_key = certs.client_key_pem;
    labels = map label_bytes (node_labels p.zone (chosen_plan spec claim) spec claim);
    taints = map taint_entry (node_taints spec claim);
  }

  pub rendering-Boots :
      (spec : Spec) (claim : NodeClaim) (ca : Text) (certs : KubeletCertBundle)
      → Boots spec claim (chosen_plan spec claim) ca certs (rendering spec claim ca certs)
  unfolding node_taints
  rendering-Boots spec claim ca certs = record {
    endpoint = refl;
    authority = refl;
    certificate = refl;
    key = refl;
    node_labels = node_labels p.zone (chosen_plan spec claim) spec claim;
    labelled = refl;
    label = lookup-node_labels p.zone (chosen_plan spec claim) spec claim;
    tainted = refl;
  }
