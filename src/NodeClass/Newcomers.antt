-- ===== src/NodeClass/Newcomers.antt =====
-- The claims that Create returns, before the node class controller.
use karpenter_provider_upclo.Base.{
  String, ℕ, Option, ◌≡◌, refl, ap, ◌∙◌, List, [], ◌∷◌, true, Dict, ok, lookup, get, has_key,
}
use karpenter_provider_upclo.Kube.{NodeClaim}
use karpenter_provider_upclo.Api.Spec.{Spec}
use karpenter_provider_upclo.Drift.{drift_reason}
use karpenter_provider_upclo.Instance.{Server}
use karpenter_provider_upclo.Cloud.{Cloud, create, resolve_node_class}
use karpenter_provider_upclo.Cloud.Claims.{created_claim}
use karpenter_provider_upclo.Cloud.Create.{created}
use karpenter_provider_upclo.NodeClass.{Env, NodeClass, is_skipped}
use karpenter_provider_upclo.NodeClass.Convergence.{Steady, Steady-writes, run_writes}

created_skipped :
    (digest : Spec → Option ℕ) (spec : Spec) (claim : NodeClaim) (name : String)
    (labels : Dict String) (server : Server)
    → is_skipped (created_claim digest spec claim name labels server) ≡ true
unfolding is_skipped has_key get lookup created_claim
created_skipped digest spec claim name labels server = refl

module _ {S K C : Type 0} (p : Cloud S K) (env : Env C) where
  -- A claim that Create returns is not drifted from the node class that Create read, and it leaves a steady
  -- node class steady: with the new claim on its list, the next run of the controller makes no call.
  pub newcomer_welcome :
      (claim c : NodeClaim) (w v : S) (nc : NodeClass C) (claims : List NodeClaim)
      → create p claim w ≡ (ok c, v)
      → Steady env nc claims
      → ((spec : Spec) × (u : S) × (resolve_node_class p claim w ≡ (ok spec, u))
          × (drift_reason p.digest spec c ≡ ""))
        × (run_writes env nc (c ∷ claims) ≡ [])
  newcomer_welcome claim c w v nc claims e s =
      let (spec, u, server, r, q, d) = created p claim w v c e in
      (
        (spec, u, r, d),
        Steady-writes env nc (c ∷ claims) (record {
          alive = s.alive;
          holds = s.holds;
          valid = s.valid;
          reported = s.reported;
          skipped = (ap is_skipped q ∙ created_skipped p.digest spec claim _ _ server, s.skipped);
        }),
      )
