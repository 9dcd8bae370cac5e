-- ===== src/Cloud.antt =====
-- pkg/cloudprovider/cloudprovider.go: the operations of Karpenter's cloud provider, against a world in
-- which the API server, UpCloud and the cache of plans live. `IsDrifted` stands in Drift.
pub mod Claims
pub mod Sample
pub mod Delete
pub mod Labels
pub mod Create
pub mod Fleet
pub mod Launch
pub mod Observed
pub mod Lookup
pub mod Unfiltered
pub mod Kept
pub mod Ledger
pub mod Balance
pub mod Foreign
pub mod Partial
pub mod Offers
pub mod Provision
pub mod Asked
pub mod Sent
pub mod Outcome
pub mod Ends
pub mod Tests
use Prim.Native.Char.{code}
use Prim.Native.String.{◌++◌ as ◌+++◌}
use karpenter_provider_upclo.Base.{
  String, ℕ, zero, suc, Dict, insert, assign, lookup, Option, none, some, List, [], ◌∷◌, ◌++◌, map,
  Bool, true, false, not, ◌&&◌, ◌||◌, ◌==◌, nat_eq, if◌then◌else◌, Result, ok, err, map_err,
}
use karpenter_provider_upclo.Base.Int.{ℤ, pos, ltb_ℤ, to_int64, times}
use karpenter_provider_upclo.Base.Text.{Text, codes, contains, trim_prefix}
use karpenter_provider_upclo.Kube.{
  Error, service, failed, wrapped, invalid_userdata, node_claim_not_found, insufficient_capacity,
  Taint, Requirement, NodeClaim, empty_claim,
}
use karpenter_provider_upclo.Kube
use karpenter_provider_upclo.Kube.Step.{Step, pure, fail, rescue, from_result, ◌>>=◌, ◌>>◌}
use karpenter_provider_upclo.Api.{
  provider_id_prefix, label_instance_type, label_arch, label_os, label_zone,
  capacity_type_label_key, hash_annotation_key, hash_version_annotation_key, hash_version,
}
use karpenter_provider_upclo.Api.Spec.{Spec, StorageSpec, hash}
use karpenter_provider_upclo.UserData.{Options, TaintEntry, Encoder, generate}
use karpenter_provider_upclo.UserData.Utf8.{encode}
use karpenter_provider_upclo.Plans.{is_spot_plan}
use karpenter_provider_upclo.InstanceTypes.{Plan, InstanceType, capacity_type}
use karpenter_provider_upclo.InstanceTypes
use karpenter_provider_upclo.Instance.{Server, Service, Provider}
use karpenter_provider_upclo.Instance
use karpenter_provider_upclo.Certs.{
  Cluster, Crypto, KubeletCertBundle, get_ca_bundle, generate_kubelet_cert,
}
use Claims.{
  bytes, without_dashes, first, server_name, instance_type_requirement, chosen_plan, entries,
  base_labels, node_labels, server_labels, unregistered_taint, node_taints, chosen_storage,
  server_capacity, created_claim, build_node_claim, taint_entry, label_bytes,
}

-- UpCloudCloudProvider with what it reaches: `get_class` reads a node class by name, `new_uuid` gives the
-- text of a new UUID, `cached_plans` is the cache of the instance type provider.
pub record Cloud (S K : Type 0) : Type 0 where
  pub zone : String
  pub cluster_endpoint : String
  pub repair_toleration : ℤ
  pub instances : Provider
  pub servers : Service S
  pub cluster : Cluster S
  pub crypto : Crypto S K
  pub get_class : String → Step S Error Spec
  pub new_uuid : S → String × S
  pub cached_plans : S → Dict Plan
  pub digest : Spec → Option ℕ
  pub yaml : Encoder

-- The provider of a start: `base` gives the clients, `plans` is the cache of the instance type provider.
unfoldable pub new_cloud_provider :
    {S K : Type 0} → Cloud S K → Provider → (S → Dict Plan) → String → String → ℤ → Cloud S K
new_cloud_provider base instances plans zone cluster_endpoint repair_toleration = record base {
  zone = zone;
  cluster_endpoint = cluster_endpoint;
  repair_toleration = repair_toleration;
  instances = instances;
  cached_plans = plans;
}

-- strings.Contains(err.Error(), s)
abbrev pub mentions : String → String → Bool
mentions e s = contains (codes e) (codes s)

-- cloudprovider.NewNodeClaimNotFoundError
unfoldable pub server_not_found : String → Error
server_not_found e = node_claim_not_found (wrapped "server not found" (service e))

unfoldable pub deletion_error : String → Error
unfolding server_not_found
deletion_error e = if mentions e "SERVER_NOT_FOUND" then server_not_found e else service e

module _ {S K : Type 0} (p : Cloud S K) where
  unfoldable pub resolve_node_class : NodeClaim → Step S Error Spec
  resolve_node_class claim = elim claim.node_class_ref [
    | none ↦ fail (Kube.status Kube.not_found)
    | some name ↦ p.get_class name
  ]

  -- The rest of `Create` from the call to UpCloud on.
  unfoldable pub launch : Spec → NodeClaim → String → Text → Step S Error NodeClaim
  unfolding created_claim chosen_storage server_labels node_labels
  launch spec claim name user_data w =
      let plan = chosen_plan spec claim in
      let storage = chosen_storage (lookup plan (p.cached_plans w)) spec.storage in
      (rescue (λ e. insufficient_capacity (wrapped "creating server" (service e)))
            (Instance.create p.servers p.instances name plan p.zone user_data spec.server_group_uuid
              (some (server_labels spec)) storage)
          >>= λ server.
              pure (
                created_claim p.digest spec claim name (node_labels p.zone plan spec claim) server))
        w

  unfoldable pub user_data_of : Spec → NodeClaim → Text → KubeletCertBundle → Result Error Text
  unfolding node_labels node_taints
  user_data_of spec claim ca_cert_pem certs =
      map_err (λ e. wrapped "generating userdata" (invalid_userdata e))
        (generate p.yaml record {
          cluster_endpoint = bytes p.cluster_endpoint;
          ca_cert_pem = ca_cert_pem;
          kubelet_client_cert = certs.client_cert_pem;
          kubelet_client_key = certs.client_key_pem;
          labels = map label_bytes (node_labels p.zone (chosen_plan spec claim) spec claim);
          taints = map taint_entry (node_taints spec claim);
        })

  unfoldable pub with_certs :
      Spec → NodeClaim → String → Text → KubeletCertBundle → Step S Error NodeClaim
  unfolding launch user_data_of
  with_certs spec claim name ca_cert_pem certs =
      from_result (user_data_of spec claim ca_cert_pem certs) >>= launch spec claim name

  unfoldable pub with_ca : Spec → NodeClaim → String → Text → Step S Error NodeClaim
  unfolding with_certs
  with_ca spec claim name ca_cert_pem =
      rescue (wrapped "generating kubelet certificate")
        (generate_kubelet_cert p.cluster p.crypto name)
      >>= with_certs spec claim name ca_cert_pem

  unfoldable pub create_named : Spec → NodeClaim → String → Step S Error NodeClaim
  unfolding with_ca
  create_named spec claim name =
      rescue (wrapped "getting CA bundle") (get_ca_bundle p.cluster) >>= with_ca spec claim name

  unfoldable pub with_class : NodeClaim → Spec → Step S Error NodeClaim
  unfolding create_named server_name
  with_class claim spec w = create_named spec claim (server_name (p.new_uuid w).0) (p.new_uuid w).1

  unfoldable pub create : NodeClaim → Step S Error NodeClaim
  unfolding with_class
  create claim =
      rescue (wrapped "resolving node class") (resolve_node_class claim) >>= with_class claim

  unfoldable pub remove : String → Step S Error (Unit {0})
  unfolding deletion_error
  remove uuid = rescue deletion_error (Instance.delete p.servers uuid)

  -- What follows the answer to the stop.
  unfoldable pub after_stop : String → Result String (Unit {0}) → Step S Error (Unit {0})
  unfolding remove
  after_stop uuid (ok _) =
      rescue (λ e. wrapped "waiting for server to stop" (service e))
        (Instance.wait_for_stop p.servers uuid)
      >> remove uuid
  after_stop uuid (err e) =
      if mentions e "SERVER_NOT_FOUND"
      then fail (server_not_found e)
      else if not (mentions e "SERVER_STATE_ILLEGAL")
      then fail (service e)
      else remove uuid

  unfoldable pub delete : NodeClaim → Step S Error (Unit {0})
  unfolding after_stop
  delete claim w =
      let uuid = trim_prefix claim.provider_id provider_id_prefix in
      after_stop uuid (Instance.stop p.servers uuid w).0 (Instance.stop p.servers uuid w).1

  unfoldable pub get_claim : String → Step S Error NodeClaim
  unfolding build_node_claim
  get_claim provider_id =
      rescue (λ e. node_claim_not_found (wrapped "getting server" (service e)))
        (Instance.get_server p.servers (trim_prefix provider_id provider_id_prefix))
      >>= λ server. pure (build_node_claim server p.zone)

  unfoldable pub list : Step S Error (List NodeClaim)
  unfolding build_node_claim
  list =
      rescue (λ e. wrapped "listing servers" (service e)) (Instance.list p.servers) >>= λ servers.
      pure (map (λ s. build_node_claim s p.zone) servers)

-- The node pool does not matter.
unfoldable pub get_instance_types :
    {F : Type 0} → InstanceTypes.Provider F → Result Error (List (InstanceType F))
get_instance_types types = ok (InstanceTypes.list types)

unfoldable pub provider_name : String
provider_name = "upcloud"

-- cloudprovider.RepairPolicy
pub record RepairPolicy : Type 0 where
  pub condition_type : String
  pub condition_status : String
  pub toleration_duration : ℤ

unfoldable pub repair_policies : ℤ → List RepairPolicy
repair_policies toleration =
    record {
      condition_type = "Ready";
      condition_status = "False";
      toleration_duration = toleration;
    }
    ∷ record {
      condition_type = "Ready";
      condition_status = "Unknown";
      toleration_duration = toleration;
    }
    ∷ []
