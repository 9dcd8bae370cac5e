-- ===== src/Startup/Wiring.antt =====
-- The start of the operator: what must have happened before its controllers run.
use Prim.Native.String.{◌++◌ as ◌+++◌}
use karpenter_provider_upclo.Base.{
  String, ◌≡◌, ◌≢◌, refl, subst, sym, ap, ◌∙◌, inl, inr, ◌==◌, eq_iff, eq-false_of_ne, List,
  Bool-cases, Result, ok, Result-cases, arith,
}
use karpenter_provider_upclo.Base.Int.{ℤ}
use karpenter_provider_upclo.Kube.{Error, wrapped}
use karpenter_provider_upclo.Kube.Step.{
  Step, from_result, rescue, rescue_bind_step, rescue_step, rescue_ok, bind_ok, ◌>>=◌,
}
use karpenter_provider_upclo.InstanceTypes.{Plan}
use karpenter_provider_upclo.InstanceTypes
use karpenter_provider_upclo.Startup.{
  Environment, Options, Details, Host, Fetched, new_options_from_environment, require_env,
  first_refresh, assembled, set_up_ttl_controller,
}
use karpenter_provider_upclo.Startup.Settings.{Endpoint}

module _ {S K F : Type 0} (env : Environment) (host : Host S K F) where
  -- The cache that the first refresh stores when the plans are `ps`.
  abbrev pub first_cache : String → List Plan → Fetched F → InstanceTypes.Provider F
  first_cache zone ps f =
      (InstanceTypes.refresh host.max_float host.print (ok ps) f.since f.now f.prices
        (InstanceTypes.new_provider zone)).0

  -- The controller of the ages: none without the variable, and one with its duration otherwise.
  pub data TtlSetUp : S → S → Type 0 where
    off : (w : S) → env.getenv "UPCLOUD_NODECLAIM_TTL" ≡ "" → TtlSetUp w w
    on :
        (d : ℤ) (w v : S)
        → env.getenv "UPCLOUD_NODECLAIM_TTL" ≢ ""
        → env.parse_duration (env.getenv "UPCLOUD_NODECLAIM_TTL") ≡ ok d
        → host.set_up_ttl d w ≡ (ok tt, v)
        → TtlSetUp w v

  -- A start in order, from the world `w` to the one in which the operator has ended.
  pub record Wired (w v : S) : Type 0 where
    pub options : Options
    pub cluster : Details
    pub endpoint : String
    pub plans : List Plan
    pub fetched : Fetched F
    pub w1 : S
    pub w2 : S
    pub w3 : S
    pub w4 : S
    pub w5 : S
    pub read : new_options_from_environment env ≡ ok options
    pub found : host.get_kubernetes_cluster options.token options.cluster_uuid w ≡ (ok cluster, w1)
    pub reached : Endpoint env host options.token options.cluster_uuid endpoint w1 w2
    pub template : env.getenv "UPCLOUD_TEMPLATE_UUID" ≢ ""
    pub told : host.fetch options.token w2 ≡ (fetched, w3)
    pub priced : fetched.plans ≡ ok plans
    pub controller :
        host.set_up_node_class (host.store (first_cache cluster.zone plans fetched) w3)
        ≡ (ok tt, w4)
    pub ttl : TtlSetUp w4 w5
    pub ended :
        v
        ≡ host.start
            (assembled env host options cluster endpoint (env.getenv "UPCLOUD_TEMPLATE_UUID"))
            w5

  pub require_ok : (k : String) → env.getenv k ≢ "" → require_env env k ≡ ok (env.getenv k)
  unfolding require_env
  require_ok k n = rw (eq-false_of_ne (env.getenv k) "" n) refl

  pub required_set :
      (k t : String) → require_env env k ≡ ok t → (env.getenv k ≢ "") × (t ≡ env.getenv k)
  unfolding require_env
  required_set k t e = elim (Bool-cases (env.getenv k == "")) [
    | inl q ↦ absurd (ground arith)
    | inr q ↦ (λ r. ground (arith, eq_iff (env.getenv k) "", r), ground arith)
  ]

  ttl_off :
      (w : S)
      → env.getenv "UPCLOUD_NODECLAIM_TTL" ≡ ""
      → set_up_ttl_controller env host w ≡ (ok tt, w)
  unfolding set_up_ttl_controller
  ttl_off w e = rw ((eq_iff (env.getenv "UPCLOUD_NODECLAIM_TTL") "").1 e) refl

  abbrev ttl_text : String
  ttl_text = env.getenv "UPCLOUD_NODECLAIM_TTL"

  abbrev ttl_parse : Step S Error ℤ
  ttl_parse =
      rescue (wrapped ("parsing UPCLOUD_NODECLAIM_TTL " +++ env.quoted ttl_text))
        (from_result (env.parse_duration ttl_text))

  abbrev ttl_register : ℤ → Step S Error (Unit {0})
  ttl_register d = rescue (wrapped "setting up nodeclaim TTL controller") (host.set_up_ttl d)

  ttl_set :
      ttl_text ≢ "" → (w : S) → set_up_ttl_controller env host w ≡ (ttl_parse >>= ttl_register) w
  unfolding set_up_ttl_controller
  ttl_set n w = rw (eq-false_of_ne ttl_text "" n) refl

  pub ttl_step : (w v : S) → TtlSetUp w v → set_up_ttl_controller env host w ≡ (ok tt, v)
  ttl_step w _ (off _ e) = ttl_off w e
  ttl_step w v (on d _ _ n e r) =
      ttl_set n w
      ∙ rescue_bind_step (wrapped ("parsing UPCLOUD_NODECLAIM_TTL " +++ env.quoted ttl_text))
          (from_result (env.parse_duration ttl_text)) ttl_register w d w (ap (λ x. (x, w)) e)
      ∙ rescue_step (wrapped "setting up nodeclaim TTL controller") (host.set_up_ttl d) w tt v r

  pub ttl-TtlSetUp : (w v : S) → set_up_ttl_controller env host w ≡ (ok tt, v) → TtlSetUp w v
  ttl-TtlSetUp w v h = elim (Bool-cases (ttl_text == "")) [
    | inl q ↦
        let e = (eq_iff ttl_text "").0 q in
        let s = sym (ttl_off w e) ∙ h in subst (TtlSetUp w) (ground arith) (off w e)
    | inr q ↦
        let n : ttl_text ≢ "" = λ r. ground (arith, eq_iff ttl_text "", r) in
        let (d, u, a, b) = bind_ok ttl_parse ttl_register w v tt (sym (ttl_set n w) ∙ h) in
        let p =
          rescue_ok (wrapped ("parsing UPCLOUD_NODECLAIM_TTL " +++ env.quoted ttl_text))
            (from_result (env.parse_duration ttl_text)) w u d a in
        let r =
          rescue_ok (wrapped "setting up nodeclaim TTL controller") (host.set_up_ttl d) u v tt b in
        on d w v n (ap (λ (x : Result Error ℤ × S). x.0) p)
          (ap (host.set_up_ttl d) (ap (λ (x : Result Error ℤ × S). x.1) p) ∙ r)
  ]

  pub refresh_step :
      (o : Options) (zone : String) (w u : S) (f : Fetched F) (ps : List Plan)
      → host.fetch o.token w ≡ (f, u)
      → f.plans ≡ ok ps
      → first_refresh env host o.token zone w ≡ (ok tt, host.store (first_cache zone ps f) u)
  unfolding first_refresh InstanceTypes.refresh
  refresh_step o zone w u f ps e p = rw (e, first_refresh) (rw (p, InstanceTypes.refresh) refl)

  pub refresh_fetched :
      (o : Options) (zone : String) (w v : S)
      → first_refresh env host o.token zone w ≡ (ok tt, v)
      → let f = (host.fetch o.token w).0 in
        (ps : List Plan) × (f.plans ≡ ok ps)
        × (v ≡ host.store (first_cache zone ps f) (host.fetch o.token w).1)
  unfolding first_refresh InstanceTypes.refresh
  refresh_fetched o zone w v h = elim (Result-cases (host.fetch o.token w).0.plans) [
    | inl (ps, p) ↦ (ps, p, ground arith)
    | inr (x, p) ↦ absurd (ground arith)
  ]
