-- ===== src/Startup/Settings.antt =====
-- What the environment says: the options, and the endpoint of the cluster.
use Prim.Native.String.{◌++◌ as ◌+++◌}
use karpenter_provider_upclo.Base.{
  String, ◌≡◌, ◌≢◌, ◌↔◌, refl, subst, sym, ap, ◌∙◌, ◌⊎◌, inl, inr, ◌==◌, eq_iff, eq-false_of_ne,
  List, [], ◌∷◌, Bool-cases, Result, ok, err, Result-cases, arith,
}
use karpenter_provider_upclo.Base.Text.{Text}
use karpenter_provider_upclo.Kube.{Error, failed, wrapped}
use karpenter_provider_upclo.Kube.Step.{
  step-cases, from_result, rescue, rescue_bind_step, rescue_err, bind_err,
}
use karpenter_provider_upclo.Startup.{
  Environment, Options, Host, get_required_env, parsed_options, new_options_from_environment,
  first_server, server_of, resolve_cluster_endpoint,
}

module _ (env : Environment) where
  -- The first of the keys that is not set, or set to nothing.
  pub data FirstUnset : List String → String → Type 0 where
    here : (k : String) (ks : List String) → env.getenv k ≡ "" → FirstUnset (k ∷ ks) k
    there :
        (k j : String) (ks : List String)
        → env.getenv k ≢ ""
        → FirstUnset ks j
        → FirstUnset (k ∷ ks) j

  abbrev pub keys : List String
  keys = "UPCLOUD_TOKEN" ∷ "UPCLOUD_KUBERNETES_CLUSTER_ID" ∷ "UPCLOUD_REPAIR_TOLERATION" ∷ []

  -- How the reading of the options can end.
  pub data Outcome : Result Error Options → Type 0 where
    valid :
        (o : Options)
        → o.token ≡ env.getenv "UPCLOUD_TOKEN"
        → o.token ≢ ""
        → o.cluster_uuid ≡ env.getenv "UPCLOUD_KUBERNETES_CLUSTER_ID"
        → o.cluster_uuid ≢ ""
        → env.getenv "UPCLOUD_REPAIR_TOLERATION" ≢ ""
        → env.parse_duration (env.getenv "UPCLOUD_REPAIR_TOLERATION") ≡ ok o.repair_toleration
        → Outcome (ok o)
    missing :
        (k : String)
        → FirstUnset keys k
        → Outcome (err (failed (k +++ " environment variable is required")))
    unparsed :
        (e : Error)
        → env.getenv "UPCLOUD_TOKEN" ≢ ""
        → env.getenv "UPCLOUD_KUBERNETES_CLUSTER_ID" ≢ ""
        → env.getenv "UPCLOUD_REPAIR_TOLERATION" ≢ ""
        → env.parse_duration (env.getenv "UPCLOUD_REPAIR_TOLERATION") ≡ err e
        → Outcome (
            err (
              wrapped
                ("parsing UPCLOUD_REPAIR_TOLERATION "
                  +++ env.quoted (env.getenv "UPCLOUD_REPAIR_TOLERATION"))
                e))

  pub required-cases :
      (k : String)
      → ((env.getenv k ≡ "")
          × (get_required_env env k ≡ err (failed (k +++ " environment variable is required"))))
        ⊎ ((env.getenv k ≢ "") × (get_required_env env k ≡ ok (env.getenv k)))
  unfolding get_required_env
  required-cases k = elim (Bool-cases (env.getenv k == "")) [
    | inl e ↦ inl ((eq_iff _ "").0 e, rw e refl)
    | inr e ↦ inr (λ q. ground (arith, eq_iff (env.getenv k) "", q), rw e refl)
  ]

  parsed-Outcome :
      env.getenv "UPCLOUD_TOKEN" ≢ ""
      → env.getenv "UPCLOUD_KUBERNETES_CLUSTER_ID" ≢ ""
      → env.getenv "UPCLOUD_REPAIR_TOLERATION" ≢ ""
      → Outcome (
          parsed_options env
            (env.getenv "UPCLOUD_TOKEN")
            (env.getenv "UPCLOUD_KUBERNETES_CLUSTER_ID")
            (env.getenv "UPCLOUD_REPAIR_TOLERATION"))
  unfolding parsed_options
  parsed-Outcome t c r =
      elim (Result-cases (env.parse_duration (env.getenv "UPCLOUD_REPAIR_TOLERATION"))) [
        | inl (d, e) ↦ rw (e, parsed_options) (valid _ refl t refl c r e)
        | inr (x, e) ↦ rw (e, parsed_options) (unparsed x t c r e)
      ]

  -- The options are read exactly so: the first of the three variables that is unset, or set to nothing, is
  -- reported by its name; with all three set, a repair toleration that is no duration is reported with the
  -- error of the parser; and otherwise the options hold the token, the cluster id and that duration.
  pub options-Outcome : Outcome (new_options_from_environment env)
  unfolding new_options_from_environment
  options-Outcome = elim (required-cases "UPCLOUD_TOKEN") [
    | inl (t, e) ↦ rw (e, new_options_from_environment) (missing _ (here _ _ t))
    | inr (t, e) ↦
        rw (e, new_options_from_environment)
          (elim (required-cases "UPCLOUD_KUBERNETES_CLUSTER_ID") [
            | inl (c, e) ↦
                rw (e, new_options_from_environment) (missing _ (there _ _ _ t (here _ _ c)))
            | inr (c, e) ↦
                rw (e, new_options_from_environment)
                  (elim (required-cases "UPCLOUD_REPAIR_TOLERATION") [
                    | inl (r, e) ↦
                        rw (e, new_options_from_environment)
                          (missing _ (there _ _ _ t (there _ _ _ c (here _ _ r))))
                    | inr (r, e) ↦ rw (e, new_options_from_environment) (parsed-Outcome t c r)
                  ])
          ])
  ]

module _ {S K F : Type 0} (env : Environment) (host : Host S K F)
    (token cluster_uuid : String) where
  -- Where the endpoint comes from: the variable, with no call; or else the first cluster of a kubeconfig.
  pub data Endpoint : String → S → S → Type 0 where
    given : (e : String) (w : S) → e ≡ env.getenv "CLUSTER_ENDPOINT" → e ≢ "" → Endpoint e w w
    fetched :
        (e : String) (servers : List String) (kubeconfig : Text) (w v : S)
        → env.getenv "CLUSTER_ENDPOINT" ≡ ""
        → host.get_kubernetes_kubeconfig token cluster_uuid w ≡ (ok kubeconfig, v)
        → host.unmarshal kubeconfig ≡ ok (e ∷ servers)
        → e ≢ ""
        → Endpoint e w v

  resolve_given :
      (w : S)
      → env.getenv "CLUSTER_ENDPOINT" ≢ ""
      → resolve_cluster_endpoint env host token cluster_uuid w
        ≡ (ok (env.getenv "CLUSTER_ENDPOINT"), w)
  unfolding resolve_cluster_endpoint
  resolve_given w h = rw (eq-false_of_ne (env.getenv "CLUSTER_ENDPOINT") "" h) refl

  resolve_fetched :
      (w v : S) (kubeconfig : Text)
      → env.getenv "CLUSTER_ENDPOINT" ≡ ""
      → host.get_kubernetes_kubeconfig token cluster_uuid w ≡ (ok kubeconfig, v)
      → resolve_cluster_endpoint env host token cluster_uuid w ≡ (server_of env host kubeconfig, v)
  unfolding resolve_cluster_endpoint
  resolve_fetched w v kubeconfig h e = rw ((eq_iff (env.getenv "CLUSTER_ENDPOINT") "").1 h) (
      rescue_bind_step (wrapped "getting kubeconfig")
        (host.get_kubernetes_kubeconfig token cluster_uuid)
        (λ kubeconfig. from_result (server_of env host kubeconfig)) w kubeconfig v e)

  resolve_err :
      (w v : S) (x : Error)
      → env.getenv "CLUSTER_ENDPOINT" ≡ ""
      → host.get_kubernetes_kubeconfig token cluster_uuid w ≡ (err x, v)
      → resolve_cluster_endpoint env host token cluster_uuid w
        ≡ (err (wrapped "getting kubeconfig" x), v)
  unfolding resolve_cluster_endpoint
  resolve_err w v x h e = rw ((eq_iff (env.getenv "CLUSTER_ENDPOINT") "").1 h) (
      bind_err
        (rescue (wrapped "getting kubeconfig") (host.get_kubernetes_kubeconfig token cluster_uuid))
        (λ kubeconfig. from_result (server_of env host kubeconfig)) w
        (wrapped "getting kubeconfig" x) v
        (rescue_err (wrapped "getting kubeconfig")
          (host.get_kubernetes_kubeconfig token cluster_uuid) w x v e))

  found_server :
      (kubeconfig : Text) (e : String) (servers : List String)
      → host.unmarshal kubeconfig ≡ ok (e ∷ servers)
      → e ≢ ""
      → server_of env host kubeconfig ≡ ok e
  unfolding server_of first_server
  found_server kubeconfig e servers h n = rw (h, server_of) (rw (eq-false_of_ne e "" n) refl)

  first_found :
      (l : List String) (e : String)
      → first_server l ≡ ok e
      → (servers : List String) × (l ≡ (e ∷ servers)) × (e ≢ "")
  unfolding first_server
  first_found [] e h = ground arith
  first_found (s ∷ l) e h = elim (Bool-cases (s == "")) [
    | inl q ↦ ground arith
    | inr q ↦ (l, ground arith, λ r. ground (arith, eq_iff s ""))
  ]

  server_found :
      (kubeconfig : Text) (e : String)
      → server_of env host kubeconfig ≡ ok e
      → (servers : List String) × (host.unmarshal kubeconfig ≡ ok (e ∷ servers)) × (e ≢ "")
  unfolding server_of
  server_found kubeconfig e h = elim (Result-cases (host.unmarshal kubeconfig)) [
    | inl (l, q) ↦ let (servers, f, n) = first_found l e (ground arith) in (servers, q ∙ ap ok f, n)
    | inr (x, q) ↦ absurd (ground arith)
  ]

  pub resolved :
      (e : String) (w v : S)
      → Endpoint e w v
      → resolve_cluster_endpoint env host token cluster_uuid w ≡ (ok e, v)
  resolved e w _ (given _ _ p n) = resolve_given w (λ q. n (p ∙ q)) ∙ ap (λ x. (ok x, w)) (sym p)
  resolved e w v (fetched _ servers kubeconfig _ _ p g u n) =
      resolve_fetched w v kubeconfig p g ∙ ap (λ r. (r, v)) (found_server kubeconfig e servers u n)

  pub resolved-Endpoint :
      (e : String) (w v : S)
      → resolve_cluster_endpoint env host token cluster_uuid w ≡ (ok e, v)
      → Endpoint e w v
  resolved-Endpoint e w v h = elim (Bool-cases (env.getenv "CLUSTER_ENDPOINT" == "")) [
    | inr q ↦
        let n : env.getenv "CLUSTER_ENDPOINT" ≢ "" =
          λ r. ground (arith, eq_iff (env.getenv "CLUSTER_ENDPOINT") "", r) in
        let s = sym (resolve_given w n) ∙ h in
        subst (Endpoint e w) (ground arith) (given e w (ground arith) (ground (arith, n)))
    | inl q ↦
        let p = (eq_iff (env.getenv "CLUSTER_ENDPOINT") "").0 q in
        elim (step-cases (host.get_kubernetes_kubeconfig token cluster_uuid) w) [
          | inl (kubeconfig, u, g) ↦
              let s = sym (resolve_fetched w u kubeconfig p g) ∙ h in
              let (servers, f, n) = server_found kubeconfig e (ground arith) in
              subst (Endpoint e w) (ground arith) (fetched e servers kubeconfig w u p g f n)
          | inr (x, u, g) ↦ let s = sym (resolve_err w u x p g) ∙ h in absurd (ground arith)
        ]
  ]

  -- An endpoint is resolved exactly so: it is the variable if that is set, with no call made; otherwise the
  -- kubeconfig is fetched, and it is the server of its first cluster, never an empty one.
  pub resolved_iff :
      (e : String) (w v : S)
      → (resolve_cluster_endpoint env host token cluster_uuid w ≡ (ok e, v)) ↔ Endpoint e w v
  resolved_iff e w v = (resolved-Endpoint e w v, resolved e w v)
