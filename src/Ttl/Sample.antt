-- ===== src/Ttl/Sample.antt =====
-- Pods, a node, a NodeClaim and the answers about them, for the tests.
use karpenter_provider_upclo.Base.{String, List, [], ◌∷◌, none, some, ok}
use karpenter_provider_upclo.Base.Int.{pos}
use karpenter_provider_upclo.Kube.{
  Taint, Toleration, Expression, Term, Pod, Node, NodeClaim, empty_claim,
}
use karpenter_provider_upclo.Api.{label_instance_type}
use karpenter_provider_upclo.Ttl.{Controller, Answers, TimeFormat}

abbrev pub expression : String → List String → Expression
expression operator values = record {
  key = label_instance_type;
  operator = operator;
  values = values;
}

abbrev pub term : String → List String → Term
term operator values = record { expressions = expression operator values ∷ [] }

abbrev pub zone_term : Term
zone_term = record { expressions = record { key = "zone"; operator = "In"; values = [] } ∷ [] }

abbrev pub tolerates_all : Toleration
tolerates_all = record { key = ""; operator = "Exists"; value = ""; effect = "" }

abbrev pub pending : List Term → Pod
pending terms = record {
  owner_kinds = "ReplicaSet" ∷ [];
  deletion_timestamp = none;
  node_name = "";
  node_selector = [];
  affinity = some (record { node_affinity = some (record { required = some terms }) });
  tolerations = tolerates_all ∷ [];
  phase = "Pending";
  conditions = record { kind = "PodScheduled"; status = "False"; reason = "Unschedulable" } ∷ [];
}

abbrev pub daemon : Pod
daemon = record {
  owner_kinds = "DaemonSet" ∷ [];
  deletion_timestamp = none;
  node_name = "node-1";
  node_selector = [];
  affinity = none;
  tolerations = [];
  phase = "Running";
  conditions = [];
}

abbrev pub worker : Pod
worker = record daemon { owner_kinds = "ReplicaSet" ∷ [] }

abbrev pub no_exec : Taint
no_exec = record { key = "k"; value = "v"; effect = "NoExecute" }

abbrev pub node_1 : Node
node_1 = record {
  name = "node-1";
  labels = (label_instance_type, "2xCPU-4GB") ∷ [];
  taints = no_exec ∷ [];
}

abbrev pub claim_1 : NodeClaim
claim_1 = record empty_claim {
  name = "claim-1";
  node_name = "node-1";
  creation_timestamp = pos 100;
}

-- Texts of times for the tests: every time reads back as itself, by its one text in use.
abbrev pub fixed : TimeFormat
fixed = record { format = λ t. "now"; parse = λ s. some (pos 5000) }

abbrev pub controller_1 : Controller
controller_1 = record { ttl = pos 3000000000; rfc3339 = fixed }

abbrev pub short : Controller
short = record { ttl = pos 1000; rfc3339 = fixed }

abbrev pub answers : List Pod → Answers
answers pods = record {
  claim = ok claim_1;
  now = pos 4000;
  pods = ok pods;
  node = ok node_1;
  reset_now = pos 5000;
  patched = ok tt;
  tainted = ok tt;
  deleted = ok tt;
}
