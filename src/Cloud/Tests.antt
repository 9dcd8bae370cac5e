-- ===== src/Cloud/Tests.antt =====
-- One server from its creation to its deletion.

use karpenter_provider_upclo.Base.{
  assign, insert, any, Dict, String, ◌≡◌, ◌⊎◌, inl, inr, refl, lookup, or_else, Option, none, some,
  List, [], ◌∷◌, true, false, Result, ok, err, arith,
}
use karpenter_provider_upclo.Base.Text.{Text, codes, contains, has_prefix}
use karpenter_provider_upclo.Kube.{
  Error, wrapped, invalid_userdata, NodeClaim, is_node_claim_not_found,
}
use karpenter_provider_upclo.Instance.{Server}
use karpenter_provider_upclo.Instance
use karpenter_provider_upclo.Api.Spec.{Spec}
use karpenter_provider_upclo.Certs.{
  KubeletCertBundle, get_ca_bundle, generate_kubelet_cert, approve, is_denied, is_approved, poll,
}
use karpenter_provider_upclo.UserData.{
  shell_character, generate, validate_single_line, no_control, first_control, is_control,
  serialize_labels, join, keys, sort, insert_sorted, le_text, eq_text, label_value,
  validate_shell_safe, first_significant, is_significant, validate_taints, encoded,
  serialize_taints_yaml,
}
use karpenter_provider_upclo.UserData.Utf8.{decode, encode}
use karpenter_provider_upclo.Plans.{is_spot_plan, to_upper}
use karpenter_provider_upclo.InstanceTypes.{capacity_type}
use karpenter_provider_upclo.Cloud.{
  launch, server_not_found, mentions, delete, create, user_data_of, resolve_node_class,
}
use karpenter_provider_upclo.Cloud.Claims.{
  chosen_storage, instance_type_requirement, node_taints, created_claim, chosen_plan, node_labels,
  server_name,
}
use karpenter_provider_upclo.Cloud.Delete.{
  Status, missing, running, stopped, IsDocumented, uuid_of, delete_twice, not_found_honest,
}
use karpenter_provider_upclo.Cloud.Sample.{cloud, account, server, spec, claim, launched_claim}

module _ (uuid : String) where
  stop_missing :
      (w : Status)
      → w ≡ missing
      → (e : String) × (v : Status) × (Instance.stop account uuid w ≡ (err e, v))
        × (mentions e "SERVER_NOT_FOUND" ≡ true)
  unfolding Instance.stop karpenter_provider_upclo.Base.Text.contains
      karpenter_provider_upclo.Base.Text.has_prefix
  stop_missing missing s = ("SERVER_NOT_FOUND", missing, refl, refl)
  stop_missing running s = ground arith
  stop_missing stopped s = ground arith

  stop_running :
      (w : Status)
      → w ≡ running
      → (v : Status) × (u : Status) × (Instance.stop account uuid w ≡ (ok tt, v))
        × (Instance.wait_for_stop account uuid v ≡ (ok tt, u))
        × (u ≡ stopped)
  unfolding Instance.stop Instance.wait_for_stop
  stop_running missing s = ground arith
  stop_running running s = (stopped, stopped, refl, refl, refl)
  stop_running stopped s = ground arith

  stop_stopped :
      (w : Status)
      → w ≡ stopped
      → (e : String) × (v : Status) × (Instance.stop account uuid w ≡ (err e, v))
        × (mentions e "SERVER_NOT_FOUND" ≡ false)
        × (mentions e "SERVER_STATE_ILLEGAL" ≡ true)
        × (v ≡ stopped)
  unfolding Instance.stop karpenter_provider_upclo.Base.Text.contains
      karpenter_provider_upclo.Base.Text.has_prefix
  stop_stopped missing s = ground arith
  stop_stopped running s = ground arith
  stop_stopped stopped s = ("SERVER_STATE_ILLEGAL", stopped, refl, refl, refl, refl)

  delete_stopped :
      (w : Status)
      → w ≡ stopped
      → (v : Status) × (Instance.delete account uuid w ≡ (ok tt, v)) × (v ≡ missing)
  unfolding Instance.delete
  delete_stopped missing s = ground arith
  delete_stopped running s = ground arith
  delete_stopped stopped s = (missing, refl, refl)

documented : IsDocumented account (uuid_of launched_claim) (λ s. s)
documented = record {
  stop_missing = stop_missing (uuid_of launched_claim);
  stop_running = stop_running (uuid_of launched_claim);
  stop_stopped = stop_stopped (uuid_of launched_claim);
  delete_stopped = delete_stopped (uuid_of launched_claim);
}

twice_example :
    (v : Status) × (u : Status) × (x : Error) × (delete cloud launched_claim running ≡ (ok tt, v))
    × (delete cloud launched_claim v ≡ (err x, u))
    × (is_node_claim_not_found x ≡ true)
twice_example = delete_twice cloud launched_claim (λ s. s) documented running (inl refl)

-- The error of a second deletion.
abbrev gone : Error
gone = server_not_found "SERVER_NOT_FOUND"

gone_here : delete cloud launched_claim missing ≡ (err gone, missing)
unfolding delete Instance.stop karpenter_provider_upclo.Base.Text.contains
    karpenter_provider_upclo.Base.Text.has_prefix
gone_here = refl

gone_is_not_found : is_node_claim_not_found gone ≡ true
unfolding is_node_claim_not_found server_not_found
gone_is_not_found = refl

honest_example :
    (u : Status) × (y : Status) × (e : String) × (mentions e "SERVER_NOT_FOUND" ≡ true)
    × ((Instance.stop account (uuid_of launched_claim) u ≡ (err e, y))
        ⊎ (Instance.delete account (uuid_of launched_claim) u ≡ (err e, y)))
honest_example =
    not_found_honest cloud launched_claim missing missing gone gone_here gone_is_not_found

abbrev labels : Dict String
labels = node_labels cloud.zone (chosen_plan spec claim) spec claim

abbrev name : String
name = server_name "01234567-89ab-cdef-0123-456789abcdef"

abbrev fresh : NodeClaim
fresh = created_claim cloud.digest spec claim name labels server

created_here : create cloud claim missing ≡ (ok fresh, running)
unfolding create resolve_node_class get_ca_bundle lookup generate_kubelet_cert approve is_denied
    is_approved any poll server_name user_data_of launch chosen_storage generate
    validate_single_line no_control first_control is_control serialize_labels join keys sort
    insert_sorted le_text eq_text label_value validate_shell_safe first_significant is_significant
    validate_taints encoded serialize_taints_yaml decode encode chosen_plan
    instance_type_requirement node_labels node_taints capacity_type is_spot_plan contains has_prefix
    to_upper assign insert Instance.create
created_here = refl

-- A node class whose labels would leave the quotes of the script.
abbrev hostile : Spec
hostile = record spec { labels = some (("team", "$(reboot)") ∷ []) }

abbrev certs : KubeletCertBundle
certs = record { client_cert_pem = codes "CERT"; client_key_pem = codes "KEY" }

abbrev refusal : Error
refusal = wrapped "generating userdata" (invalid_userdata (shell_character "node labels" b'$'))

ca_here : get_ca_bundle cloud.cluster missing ≡ (ok (codes "CA"), missing)
unfolding get_ca_bundle lookup
ca_here = refl

certs_here : generate_kubelet_cert cloud.cluster cloud.crypto name missing ≡ (ok certs, missing)
unfolding generate_kubelet_cert karpenter_provider_upclo.Certs.approve
    karpenter_provider_upclo.Base.any karpenter_provider_upclo.Certs.poll
certs_here = refl

refused_here :
    user_data_of cloud hostile (record claim { labels = [] }) (codes "CA") certs ≡ err refusal
unfolding user_data_of lookup any generate validate_single_line no_control first_control is_control
    serialize_labels join keys sort insert_sorted le_text eq_text label_value validate_shell_safe
    first_significant is_significant validate_taints encoded serialize_taints_yaml decode encode
    chosen_plan instance_type_requirement node_labels node_taints capacity_type is_spot_plan
    contains has_prefix to_upper assign insert
refused_here = refl
