-- ===== src/Startup/Tests.antt =====
-- The start on an operator with every variable set, and the reading of its environment.
use karpenter_provider_upclo.Base.{◌≡◌, refl, ◌==◌, if◌then◌else◌, [], ◌∷◌, ok, err}
use karpenter_provider_upclo.Base.Int.{pos}
use karpenter_provider_upclo.Base.Text.{codes}
use karpenter_provider_upclo.Kube.{failed}
use karpenter_provider_upclo.Cloud.Delete.{Status, running, stopped}
use karpenter_provider_upclo.Cloud.Sample
use karpenter_provider_upclo.InstanceTypes
use karpenter_provider_upclo.Startup.{
  Environment, Host, new_options_from_environment, get_required_env, parsed_options, require_env,
  first_server, server_of, resolve_cluster_endpoint, first_refresh, set_up_ttl_controller, started,
  set_up, with_template, with_endpoint, with_cluster, with_options, run,
}
use karpenter_provider_upclo.Startup.Settings.{Outcome, options-Outcome, Endpoint, resolved_iff}
use karpenter_provider_upclo.Startup.Wiring.{Wired}
use karpenter_provider_upclo.Startup.Started.{run_iff}

-- Every variable but the endpoint and the age is set to "1h".
abbrev env : Environment
env = record {
  getenv = λ k.
      if k == "CLUSTER_ENDPOINT" then "" else if k == "UPCLOUD_NODECLAIM_TTL" then "" else "1h";
  parse_duration =
      λ t. if t == "1h" then ok (pos 3600000000000) else err (failed "invalid duration");
  quoted = λ t. t;
}

abbrev host : Host Status (Unit {0}) (Unit {0})
host = record {
  get_kubernetes_cluster =
      λ token cluster_uuid s. (ok record { zone = "fi-hel1"; network = "n"; name = "prod" }, s);
  get_kubernetes_kubeconfig = λ token cluster_uuid s. (ok (codes "clusters: …"), s);
  unmarshal = λ t. ok ("https://10.0.0.1:6443" ∷ []);
  fetch = λ token s. (record { plans = ok []; since = pos 0; now = pos 0; prices = err "" }, s);
  cache = λ s. InstanceTypes.new_provider "fi-hel1";
  store = λ p s. s;
  max_float = tt;
  print = λ n. "1";
  backends = λ token. Sample.cloud;
  set_up_node_class = λ s. (ok tt, s);
  set_up_ttl = λ d s. (ok tt, s);
  start = λ cloud s. running;
}

options_read :
    new_options_from_environment env
    ≡ ok record { token = "1h"; cluster_uuid = "1h"; repair_toleration = pos 3600000000000 }
unfolding new_options_from_environment get_required_env parsed_options
options_read = refl

options-Outcome_example : Outcome env (new_options_from_environment env)
options-Outcome_example = options-Outcome env

endpoint_read :
    resolve_cluster_endpoint env host "1h" "1h" stopped ≡ (ok "https://10.0.0.1:6443", stopped)
unfolding resolve_cluster_endpoint server_of first_server
endpoint_read = refl

resolved_iff_example : Endpoint env host "1h" "1h" "https://10.0.0.1:6443" stopped stopped
resolved_iff_example =
    (resolved_iff env host "1h" "1h" "https://10.0.0.1:6443" stopped stopped).0 endpoint_read

runs : run env host stopped ≡ (ok tt, running)
unfolding run with_options with_cluster with_endpoint with_template set_up started
    set_up_ttl_controller first_refresh resolve_cluster_endpoint server_of first_server require_env
    new_options_from_environment get_required_env parsed_options InstanceTypes.refresh
runs = refl

run_iff_example : Wired env host stopped running
run_iff_example = (run_iff env host stopped running).0 runs
