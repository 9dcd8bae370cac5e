-- ===== src/Startup.antt =====
-- pkg/providers/options.go and cmd/karpenter-upcloud/main.go: what the operator reads from its environment, and
-- how it puts its parts together. Karpenter's own controllers, overlay and state, and the manager, are `start`.
pub mod Settings
pub mod Wiring
pub mod Started
pub mod Tests
use Prim.Native.String.{◌++◌ as ◌+++◌}
use karpenter_provider_upclo.Base.{
  String, List, [], ◌∷◌, Dict, Option, none, some, Bool, true, false, ◌==◌, if◌then◌else◌, Result,
  ok, err, map_err,
}
use karpenter_provider_upclo.Base.Int.{ℤ}
use karpenter_provider_upclo.Base.Text.{Text}
use karpenter_provider_upclo.Kube.{Error, failed, wrapped, service}
use karpenter_provider_upclo.Kube.Step.{Step, pure, fail, rescue, from_result, ◌>>=◌, ◌>>◌}
use karpenter_provider_upclo.InstanceTypes.{Plan}
use karpenter_provider_upclo.InstanceTypes
use karpenter_provider_upclo.Instance
use karpenter_provider_upclo.Cloud.{Cloud, new_cloud_provider}

-- os.Getenv, time.ParseDuration, and the `%q` of fmt.
pub record Environment : Type 0 where
  pub getenv : String → String
  pub parse_duration : String → Result Error ℤ
  pub quoted : String → String

pub record Options : Type 0 where
  pub token : String
  pub cluster_uuid : String
  pub repair_toleration : ℤ

module _ (env : Environment) where
  unfoldable pub get_required_env : String → Result Error String
  get_required_env key =
      if env.getenv key == ""
      then err (failed (key +++ " environment variable is required"))
      else ok (env.getenv key)

  parsed_options : String → String → String → Result Error Options
  parsed_options token cluster_uuid text = elim (env.parse_duration text) [
    | err e ↦ err (wrapped ("parsing UPCLOUD_REPAIR_TOLERATION " +++ env.quoted text) e)
    | ok d ↦ ok record { token = token; cluster_uuid = cluster_uuid; repair_toleration = d }
  ]

  unfoldable pub new_options_from_environment : Result Error Options
  unfolding get_required_env parsed_options
  new_options_from_environment = elim (get_required_env "UPCLOUD_TOKEN") [
    | err e ↦ err e
    | ok token ↦ elim (get_required_env "UPCLOUD_KUBERNETES_CLUSTER_ID") [
      | err e ↦ err e
      | ok cluster_uuid ↦ elim (get_required_env "UPCLOUD_REPAIR_TOLERATION") [
        | err e ↦ err e
        | ok text ↦ parsed_options token cluster_uuid text
      ]
    ]
  ]

  -- main.go has its own copy.
  unfoldable pub require_env : String → Result Error String
  require_env key =
      if env.getenv key == ""
      then err (failed (key +++ " environment variable is required"))
      else ok (env.getenv key)

-- upcloud.KubernetesCluster, as far as it is read.
pub record Details : Type 0 where
  pub zone : String
  pub network : String
  pub name : String

-- What one refresh of the instance types is told: the plans, the age of the prices, the time and the prices.
pub record Fetched (F : Type 0) : Type 0 where
  pub plans : Result String (List Plan)
  pub since : ℤ
  pub now : ℤ
  pub prices : Result String (Dict (Dict F))

-- The world of the operator: UpCloud's API for a token, yaml.Unmarshal of a kubeconfig (the servers of its
-- clusters), the cache of the instance types, the manager's registrations, and `backends`: the provider
-- with everything that does not come from the start.
pub record Host (S K F : Type 0) : Type 0 where
  pub get_kubernetes_cluster : String → String → Step S Error Details
  pub get_kubernetes_kubeconfig : String → String → Step S Error Text
  pub unmarshal : Text → Result Error (List String)
  pub fetch : String → S → Fetched F × S
  pub cache : S → InstanceTypes.Provider F
  pub store : InstanceTypes.Provider F → S → S
  pub max_float : F
  pub print : ℤ → String
  pub backends : String → Cloud S K
  pub set_up_node_class : Step S Error (Unit {0})
  pub set_up_ttl : ℤ → Step S Error (Unit {0})
  pub start : Cloud S K → S → S

abbrev no_server : Error
no_server = failed "no server endpoint found in kubeconfig"

-- `kc.Clusters[0].Cluster.Server`
unfoldable pub first_server : List String → Result Error String
first_server [] = err no_server
first_server (server ∷ servers) = if server == "" then err no_server else ok server

module _ {S K F : Type 0} (env : Environment) (host : Host S K F) where
  unfoldable pub server_of : Text → Result Error String
  unfolding first_server
  server_of kubeconfig = elim (host.unmarshal kubeconfig) [
    | err e ↦ err (wrapped "parsing kubeconfig" e)
    | ok servers ↦ first_server servers
  ]

  unfoldable pub resolve_cluster_endpoint : String → String → Step S Error String
  unfolding server_of
  resolve_cluster_endpoint token cluster_uuid =
      if env.getenv "CLUSTER_ENDPOINT" == ""
      then (rescue (wrapped "getting kubeconfig")
            (host.get_kubernetes_kubeconfig token cluster_uuid)
          >>= λ kubeconfig. from_result (server_of kubeconfig))
      else pure (env.getenv "CLUSTER_ENDPOINT")

  -- instancetypes.NewProvider and its first Refresh.
  unfoldable pub first_refresh : String → String → Step S String (Unit {0})
  first_refresh token zone w =
      let r = (host.fetch token w).0 in
      let p =
        InstanceTypes.refresh host.max_float host.print r.plans r.since r.now r.prices
          (InstanceTypes.new_provider zone) in
      (elim p.1 [ none ↦ ok tt | some e ↦ err e ], host.store p.0 (host.fetch token w).1)

  -- The provider that the parts make up.
  unfoldable pub assembled : Options → Details → String → String → Cloud S K
  assembled o cluster endpoint template_uuid =
      new_cloud_provider (host.backends o.token)
        (Instance.new_provider template_uuid cluster.network o.cluster_uuid cluster.name)
        (λ w. (host.cache w).plans_by_name) cluster.zone endpoint o.repair_toleration

  -- The optional controller of the ages.
  unfoldable pub set_up_ttl_controller : Step S Error (Unit {0})
  set_up_ttl_controller =
      let v = env.getenv "UPCLOUD_NODECLAIM_TTL" in
      if v == ""
      then pure tt
      else rescue (wrapped ("parsing UPCLOUD_NODECLAIM_TTL " +++ env.quoted v))
          (from_result (env.parse_duration v))
        >>= λ d. rescue (wrapped "setting up nodeclaim TTL controller") (host.set_up_ttl d)

  unfoldable pub started : Cloud S K → Step S Error (Unit {0})
  started cloud w = (ok tt, host.start cloud w)

  -- `run`, from its end to its start.
  unfoldable pub set_up : Cloud S K → Step S Error (Unit {0})
  unfolding set_up_ttl_controller started
  set_up cloud =
      rescue (wrapped "setting up nodeclass controller") host.set_up_node_class
      >> (set_up_ttl_controller >> started cloud)

  unfoldable pub with_template : Options → Details → String → String → Step S Error (Unit {0})
  unfolding first_refresh set_up assembled
  with_template o cluster endpoint template_uuid =
      rescue (λ e. wrapped "refreshing instance types" (service e))
        (first_refresh o.token cluster.zone)
      >> set_up (assembled o cluster endpoint template_uuid)

  unfoldable pub with_endpoint : Options → Details → String → Step S Error (Unit {0})
  unfolding require_env with_template
  with_endpoint o cluster endpoint =
      from_result (require_env env "UPCLOUD_TEMPLATE_UUID") >>= with_template o cluster endpoint

  unfoldable pub with_cluster : Options → Details → Step S Error (Unit {0})
  unfolding resolve_cluster_endpoint with_endpoint
  with_cluster o cluster =
      rescue (wrapped "resolving cluster endpoint")
        (resolve_cluster_endpoint o.token o.cluster_uuid)
      >>= with_endpoint o cluster

  unfoldable pub with_options : Options → Step S Error (Unit {0})
  unfolding with_cluster
  with_options o =
      rescue (wrapped "fetching cluster details")
        (host.get_kubernetes_cluster o.token o.cluster_uuid)
      >>= with_cluster o

  unfoldable pub run : Step S Error (Unit {0})
  unfolding with_options new_options_from_environment
  run =
      rescue (wrapped "parsing options") (from_result (new_options_from_environment env))
      >>= with_options
