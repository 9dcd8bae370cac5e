-- ===== src/Startup/Started.antt =====
-- A start that ends without an error, in its parts.

use karpenter_provider_upclo.Base.{String, ◌≡◌, refl, sym, ap, ◌∙◌, ◌↔◌, Result, ok}
use karpenter_provider_upclo.Kube.{Error, wrapped, service}
use karpenter_provider_upclo.Kube.Step.{
  answered, from_result, rescue, rescue_bind_step, rescue_ok, bind_ok, bind_step, ◌>>◌,
}
use karpenter_provider_upclo.Cloud.{Cloud}
use karpenter_provider_upclo.Startup.{
  Environment, Options, Details, Host, new_options_from_environment, require_env,
  resolve_cluster_endpoint, first_refresh, assembled, set_up_ttl_controller, started, set_up,
  with_template, with_endpoint, with_cluster, with_options, run,
}
use karpenter_provider_upclo.Startup.Settings.{Endpoint, resolved, resolved-Endpoint}
use karpenter_provider_upclo.Startup.Wiring.{
  first_cache, TtlSetUp, Wired, require_ok, required_set, ttl_step, ttl-TtlSetUp, refresh_step,
  refresh_fetched,
}

module _ {S K F : Type 0} (env : Environment) (host : Host S K F) where
  -- A start that has been carried out is one that `run` makes.
  Wired-run : (w v : S) → Wired env host w v → run env host w ≡ (ok tt, v)
  unfolding run with_options with_cluster with_endpoint with_template set_up started
  Wired-run w v h =
      let o = h.options in
      let t = env.getenv "UPCLOUD_TEMPLATE_UUID" in
      let cloud = assembled env host o h.cluster h.endpoint t in
      let w' = host.store (first_cache env host h.cluster.zone h.plans h.fetched) h.w3 in
      rescue_bind_step (wrapped "parsing options") (from_result (new_options_from_environment env))
        (with_options env host) w o w (ap (λ r. (r, w)) h.read)
      ∙ rescue_bind_step (wrapped "fetching cluster details")
          (host.get_kubernetes_cluster o.token o.cluster_uuid) (with_cluster env host o) w h.cluster
          h.w1 h.found
      ∙ rescue_bind_step (wrapped "resolving cluster endpoint")
          (resolve_cluster_endpoint env host o.token o.cluster_uuid)
          (with_endpoint env host o h.cluster) h.w1 h.endpoint h.w2
          (resolved env host o.token o.cluster_uuid h.endpoint h.w1 h.w2 h.reached)
      ∙ bind_step (from_result (require_env env "UPCLOUD_TEMPLATE_UUID"))
          (with_template env host o h.cluster h.endpoint) h.w2 t h.w2
          (ap (λ r. (r, h.w2)) (require_ok env host "UPCLOUD_TEMPLATE_UUID" h.template))
      ∙ rescue_bind_step (λ e. wrapped "refreshing instance types" (service e))
          (first_refresh env host o.token h.cluster.zone) (λ _. set_up env host cloud) h.w2 tt w'
          (refresh_step env host o h.cluster.zone h.w2 h.w3 h.fetched h.plans h.told h.priced)
      ∙ rescue_bind_step (wrapped "setting up nodeclass controller") host.set_up_node_class
          (λ _. set_up_ttl_controller env host >> started env host cloud) w' tt h.w4 h.controller
      ∙ bind_step (set_up_ttl_controller env host) (λ _. started env host cloud) h.w4 tt h.w5
          (ttl_step env host h.w4 h.w5 h.ttl)
      ∙ ap (λ u. (ok tt, u)) (sym h.ended)

  -- What follows the first refresh.
  record Assembled (cloud : Cloud S K) (w v : S) : Type 0 where
    w4 : S
    w5 : S
    controller : host.set_up_node_class w ≡ (ok tt, w4)
    ttl : TtlSetUp env host w4 w5
    ended : v ≡ host.start cloud w5

  set_up-Assembled :
      (cloud : Cloud S K) (w v : S) → set_up env host cloud w ≡ (ok tt, v) → Assembled cloud w v
  unfolding set_up started
  set_up-Assembled cloud w v h =
      let (_, w4, a, h1) =
        bind_ok (rescue (wrapped "setting up nodeclass controller") host.set_up_node_class)
          (λ _. set_up_ttl_controller env host >> started env host cloud) w v tt h in
      let (_, w5, b, h2) =
        bind_ok (set_up_ttl_controller env host) (λ _. started env host cloud) w4 v tt h1 in
      record {
        w4 = w4;
        w5 = w5;
        controller =
            rescue_ok (wrapped "setting up nodeclass controller") host.set_up_node_class w w4 tt a;
        ttl = ttl-TtlSetUp env host w4 w5 b;
        ended = sym (ap (λ (x : Result Error (Unit {0}) × S). x.1) h2);
      }

  with_endpoint-Wired :
      (o : Options) (cluster : Details) (endpoint : String) (w w1 w2 v : S)
      → new_options_from_environment env ≡ ok o
      → host.get_kubernetes_cluster o.token o.cluster_uuid w ≡ (ok cluster, w1)
      → Endpoint env host o.token o.cluster_uuid endpoint w1 w2
      → with_endpoint env host o cluster endpoint w2 ≡ (ok tt, v)
      → Wired env host w v
  unfolding with_endpoint with_template
  with_endpoint-Wired o cluster endpoint w w1 w2 v read found reached h =
      let (t, u, a, h1) =
        bind_ok (from_result (require_env env "UPCLOUD_TEMPLATE_UUID"))
          (with_template env host o cluster endpoint) w2 v tt h in
      let (r, s) = answered (require_env env "UPCLOUD_TEMPLATE_UUID") w2 u t a in
      let (n, e) = required_set env host "UPCLOUD_TEMPLATE_UUID" t r in
      let (_, x, b, h2) =
        bind_ok
          (rescue (λ (y : String). wrapped "refreshing instance types" (service y))
            (first_refresh env host o.token cluster.zone))
          (λ _. set_up env host (assembled env host o cluster endpoint t)) w2 v tt
          (ap (with_template env host o cluster endpoint t) s ∙ h1) in
      let (ps, p, q) = refresh_fetched env host o cluster.zone w2 x (
        rescue_ok (λ (y : String). wrapped "refreshing instance types" (service y))
          (first_refresh env host o.token cluster.zone) w2 x tt b) in
      let k = set_up-Assembled (assembled env host o cluster endpoint t) x v h2 in
      record {
        options = o;
        cluster = cluster;
        endpoint = endpoint;
        plans = ps;
        fetched = (host.fetch o.token w2).0;
        w1 = w1;
        w2 = w2;
        w3 = (host.fetch o.token w2).1;
        w4 = k.w4;
        w5 = k.w5;
        read = read;
        found = found;
        reached = reached;
        template = n;
        told = refl;
        priced = p;
        controller = ap host.set_up_node_class (sym q) ∙ k.controller;
        ttl = k.ttl;
        ended = k.ended ∙ ap (λ y. host.start (assembled env host o cluster endpoint y) k.w5) e;
      }

  run-Wired : (w v : S) → run env host w ≡ (ok tt, v) → Wired env host w v
  unfolding run with_options with_cluster
  run-Wired w v h =
      let (o, u, a, h1) =
        bind_ok
          (rescue (wrapped "parsing options") (from_result (new_options_from_environment env)))
          (with_options env host) w v tt h in
      let (read, s) = answered (new_options_from_environment env) w u o (
        rescue_ok (wrapped "parsing options") (from_result (new_options_from_environment env)) w u o
          a) in
      let (cluster, w1, b, h2) =
        bind_ok
          (rescue (wrapped "fetching cluster details")
            (host.get_kubernetes_cluster o.token o.cluster_uuid))
          (with_cluster env host o) w v tt (ap (with_options env host o) s ∙ h1) in
      let (endpoint, w2, c, h3) =
        bind_ok
          (rescue (wrapped "resolving cluster endpoint")
            (resolve_cluster_endpoint env host o.token o.cluster_uuid))
          (with_endpoint env host o cluster) w1 v tt h2 in
      with_endpoint-Wired o cluster endpoint w w1 w2 v read
        (rescue_ok (wrapped "fetching cluster details")
          (host.get_kubernetes_cluster o.token o.cluster_uuid) w w1 cluster b)
        (resolved-Endpoint env host o.token o.cluster_uuid endpoint w1 w2 (
          rescue_ok (wrapped "resolving cluster endpoint")
            (resolve_cluster_endpoint env host o.token o.cluster_uuid) w1 w2 endpoint c))
        h3

  -- `run` ends without an error exactly if the start went through in this order: valid options, the cluster
  -- found with their token, an endpoint, a template in the environment, the plans read and cached, the node
  -- class controller registered, the controller of the ages registered with its duration if one is asked
  -- for and only then, and at last the operator started with the provider made of these.
  pub run_iff : (w v : S) → (run env host w ≡ (ok tt, v)) ↔ Wired env host w v
  run_iff w v = (run-Wired w v, Wired-run w v)
