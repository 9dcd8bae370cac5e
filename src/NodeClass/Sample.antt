-- ===== src/NodeClass/Sample.antt =====
-- Node classes and NodeClaims for the tests, with an API server that refuses nothing.

use karpenter_provider_upclo.Base.{
  ◌≡◌, refl, Bool, true, false, ◌==◌, List, [], ◌∷◌, none, some, ok, if◌then◌else◌,
}
use karpenter_provider_upclo.Base.Int.{pos}
use karpenter_provider_upclo.Kube.{NodeClaim, empty_claim}
use karpenter_provider_upclo.Api.{node_class_finalizer}
use karpenter_provider_upclo.Api.Spec.{Spec}
use karpenter_provider_upclo.NodeClass.{Env, NodeClass, Answers, validate_spec}

abbrev pub spec_1 : Spec
spec_1 = record {
  zone = "de-fra1";
  plan = "2xCPU-4GB";
  storage = none;
  ssh_keys = none;
  kubelet_args = none;
  labels = none;
  taints = none;
  server_group_uuid = "";
  utility_network_access = none;
}

-- The conditions of these tests are the status of Ready.
abbrev pub env : Env Bool
env = record {
  set_false = λ kind reason message c. false;
  set_true = λ kind c. true;
  same_conditions = λ a b. if a then b else if b then false else true;
  digest = λ s. some (if s.zone == "" then 7 else 8);
}

abbrev pub class_1 : NodeClass Bool
class_1 = record {
  name = "default";
  deletion_timestamp = none;
  finalizers = node_class_finalizer ∷ [];
  spec = spec_1;
  conditions = true;
  status_hash = "0000000000000008";
}

abbrev pub bare_class : NodeClass Bool
bare_class = record class_1 { finalizers = "other" ∷ [] }

abbrev pub dying_class : NodeClass Bool
dying_class = record class_1 {
  deletion_timestamp = some (pos 5);
  finalizers = "other" ∷ node_class_finalizer ∷ [];
}

abbrev pub invalid_class : NodeClass Bool
invalid_class = record class_1 { spec = record spec_1 { zone = "" } }

-- Launched before drift detection.
abbrev pub old_claim : NodeClaim
old_claim = record empty_claim { name = "old"; provider_id = "upcloud:////1" }

abbrev pub new_claim : NodeClaim
new_claim = record empty_claim { name = "new" }

abbrev pub answers : NodeClass Bool → List NodeClaim → Answers Bool
answers nc claims = record {
  node_class = ok nc;
  updated = ok tt;
  status_patched = ok tt;
  claims = ok claims;
  claim_patched = λ i. ok tt;
}

pub valid_1 : validate_spec spec_1 ≡ none
unfolding validate_spec
valid_1 = refl
