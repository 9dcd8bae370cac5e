-- ===== src/Cloud/Sample.antt =====
-- An account with one server, an API server that signs at once, and the provider that uses them.
use karpenter_provider_upclo.Base.{
  String, ◌==◌, if◌then◌else◌, none, some, List, [], ◌∷◌, false, Result, ok, err,
}
use karpenter_provider_upclo.Base.Int.{pos}
use karpenter_provider_upclo.Base.Text.{codes}
use karpenter_provider_upclo.Kube.{status, not_found, NodeClaim, empty_claim}
use karpenter_provider_upclo.Api.Spec.{Spec}
use karpenter_provider_upclo.Instance.{Server, Service, Provider}
use karpenter_provider_upclo.Certs.{Csr, CsrCondition, Cluster, Crypto}
use karpenter_provider_upclo.Cloud.{Cloud}
use karpenter_provider_upclo.Cloud.Delete.{Status, missing, running, stopped}

abbrev pub server : Server
server = record {
  uuid = "00f1";
  hostname = "karpenter-0123456789abcdef";
  plan = "2xCPU-4GB";
  core_number = pos 2;
  memory_amount = pos 4096;
  labels = ("managed_by", "karpenter") ∷ [];
}

abbrev pub read_server : Status → Result String Server × Status
read_server missing = (err "SERVER_NOT_FOUND", missing)
read_server s = (ok server, s)

abbrev pub stop_server : Status → Result String (Unit {0}) × Status
stop_server missing = (err "SERVER_NOT_FOUND", missing)
stop_server running = (ok tt, stopped)
stop_server stopped = (err "SERVER_STATE_ILLEGAL", stopped)

abbrev pub delete_server : Status → Result String (Unit {0}) × Status
delete_server missing = (err "SERVER_NOT_FOUND", missing)
delete_server running = (err "SERVER_STATE_ILLEGAL", running)
delete_server stopped = (ok tt, missing)

abbrev pub account : Service Status
account = record {
  create_server = λ r s. (ok server, running);
  delete_server_and_storages = λ uuid s. delete_server s;
  get_server_details = λ uuid s. read_server s;
  get_servers = λ s. (ok (server.uuid ∷ []), s);
  stop_server = λ r s. stop_server s;
  wait_for_server_state = λ uuid state s. (ok tt, s);
}

abbrev pub csr : List CsrCondition → Csr
csr conditions = record {
  name = "kubelet-karpenter-0123456789abcdef";
  request = codes "REQUEST";
  signer_name = "kubernetes.io/kube-apiserver-client-kubelet";
  usages = [];
  conditions = conditions;
  certificate = codes "CERT";
}

abbrev pub api_server : List CsrCondition → Cluster Status
api_server conditions = record {
  get_config_map = λ namespace name s. (ok (("ca.crt", codes "CA") ∷ []), s);
  create_csr = λ r s. (ok tt, s);
  get_csr = λ name s. (ok (csr conditions), s);
  update_approval = λ r s. (ok tt, s);
  now = λ s. pos 0;
  pass = λ s. s;
  is_expired = λ s. false;
}

abbrev pub crypto : Crypto Status (Unit {0})
crypto = record {
  generate_key = λ s. (ok tt, s);
  key_pem = λ k. codes "KEY";
  certificate_request = λ name orgs k s. (ok (codes "REQUEST"), s);
}

abbrev pub spec : Spec
spec = record {
  zone = "fi-hel1";
  plan = "2xCPU-4GB";
  storage = none;
  ssh_keys = none;
  kubelet_args = none;
  labels = some (("team", "a") ∷ []);
  taints = none;
  server_group_uuid = "";
  utility_network_access = none;
}

abbrev pub instances : Provider
instances = record {
  template_uuid = "t";
  network_uuid = "n";
  cluster_id = "c";
  cluster_name = "prod";
}

abbrev pub cloud : Cloud Status (Unit {0})
cloud = record {
  zone = "fi-hel1";
  cluster_endpoint = "https://10.0.0.1:6443";
  repair_toleration = pos 600000000000;
  instances = instances;
  servers = account;
  cluster = api_server [];
  crypto = crypto;
  get_class = λ name s. (if name == "default" then ok spec else err (status not_found), s);
  new_uuid = λ s. ("01234567-89ab-cdef-0123-456789abcdef", s);
  cached_plans = λ s. [];
  digest = λ s. some 7;
  yaml = λ ts. ok (codes "registerWithTaints: []");
}

abbrev pub claim : NodeClaim
claim = record empty_claim { node_class_ref = some "default"; labels = ("team", "b") ∷ [] }

abbrev pub launched_claim : NodeClaim
launched_claim = record empty_claim { provider_id = "upcloud:////00f1" }
