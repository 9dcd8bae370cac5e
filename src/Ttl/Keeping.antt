-- ===== src/Ttl/Keeping.antt =====
-- When the TTL controller keeps an overdue claim, and when its run succeeds.
use karpenter_provider_upclo.Base.{
  String, ◌≡◌, ◌≢◌, ◌⊎◌, inl, inr, true, false, ◌==◌, eq-false_of_ne, List, [], ◌∷◌, some, ok, err,
  is_ok, arith, lookup, lookup-insert, if◌then◌else◌,
}
use karpenter_provider_upclo.Base.Int.{◌≤ℤ◌}
use karpenter_provider_upclo.Kube.{
  wrapped, Error, is_not_found, Pod, Node, NodeClaim, is_set, requeue_after,
}
use karpenter_provider_upclo.Api.{ttl_reset_annotation_key}
use karpenter_provider_upclo.Ttl.{
  Controller, Answers, patch_claim, reconcile, reconcile_claim, expired, elapsed, reset_ttl,
  reset_claim, decommission, taint_node, has_non_ds_pods, has_matching_pending_pod,
}
use karpenter_provider_upclo.Ttl.Decision.{le_ltb}

-- The claim can still be kept: it was read, is alive, has a node and is overdue.
pub record Overdue (c : Controller) (a : Answers) (nc : NodeClaim) : Type 0 where
  pub found : a.claim ≡ ok nc
  pub alive : is_set nc.deletion_timestamp ≡ false
  pub assigned : nc.node_name ≢ ""
  pub overdue : c.ttl ≤ℤ elapsed c a nc

-- The node of the claim is busy, or some pending pod can reuse it.
pub data Needed (a : Answers) (nc : NodeClaim) : Type 0 where
  busy :
      (pods : List Pod) → a.pods ≡ ok pods → has_non_ds_pods pods nc.node_name ≡ true → Needed a nc
  wanted :
      (pods : List Pod) (node : Node)
      → a.pods ≡ ok pods
      → a.node ≡ ok node
      → has_matching_pending_pod pods node ≡ true
      → Needed a nc

Overdue-claim :
    (c : Controller) (a : Answers) (nc : NodeClaim)
    → Overdue c a nc
    → reconcile c a ≡ expired c a nc
unfolding reconcile reconcile_claim
Overdue-claim c a nc d = ground (
  arith,
  d.found,
  d.alive,
  eq-false_of_ne nc.node_name "" d.assigned,
  le_ltb (elapsed c a nc) c.ttl d.overdue,
)

Needed-resets :
    (c : Controller) (a : Answers) (nc : NodeClaim)
    → Needed a nc
    → expired c a nc ≡ reset_ttl c a nc
unfolding expired
Needed-resets c a nc (busy pods p h) = ground (arith, p, h)
Needed-resets c a nc (wanted pods node p q h) = ground (arith, p, q, h)

-- An overdue claim whose node is busy or wanted is kept: the run's one call sets the reset
-- annotation to the present time and leaves the other annotations; where that succeeds the claim is
-- looked at again after the full time to live, and else the run returns the error, wrapped.
pub Needed-kept :
    (c : Controller) (a : Answers) (nc : NodeClaim)
    → Overdue c a nc
    → Needed a nc
    → ((reconcile c a).writes ≡ patch_claim nc (reset_claim c a nc) ∷ [])
      × ((reconcile c a).result ≡ elim a.patched [
        | ok _ ↦ ok (requeue_after c.ttl)
        | err e ↦ err (wrapped "patching TTL reset" e)
      ])
      × ((k : String)
          → lookup k (reset_claim c a nc).annotations ≡ (
              if ttl_reset_annotation_key == k
              then some (c.rfc3339.format a.reset_now)
              else lookup k nc.annotations))
unfolding reset_ttl reset_claim
Needed-kept c a nc o n =
    rw (Overdue-claim c a nc o, Needed-resets c a nc n)
      (ground arith, ground arith, λ k. lookup-insert ttl_reset_annotation_key k _ nc.annotations)

decommission_ok :
    (a : Answers) (nc : NodeClaim) (node : Node)
    → a.tainted ≡ ok tt
    → a.deleted ≡ ok tt
    → is_ok (decommission a nc node).result ≡ true
unfolding decommission taint_node
decommission_ok a nc node t d = ground arith

expired_ok :
    (c : Controller) (a : Answers) (nc : NodeClaim) (pods : List Pod) (node : Node)
    → a.pods ≡ ok pods
    → a.node ≡ ok node
    → a.patched ≡ ok tt
    → a.tainted ≡ ok tt
    → a.deleted ≡ ok tt
    → is_ok (expired c a nc).result ≡ true
unfolding expired reset_ttl
expired_ok c a nc pods node p n t d e = ground (arith, decommission_ok a nc node d e)

-- Where every call succeeds, so does the run; so it does where the NodeClaim is gone.
pub run_succeeds :
    (c : Controller) (a : Answers) (pods : List Pod) (node : Node)
    → ((nc : NodeClaim) × (a.claim ≡ ok nc))
      ⊎ ((e : Error) × (a.claim ≡ err e) × (is_not_found e ≡ true))
    → a.pods ≡ ok pods
    → a.node ≡ ok node
    → a.patched ≡ ok tt
    → a.tainted ≡ ok tt
    → a.deleted ≡ ok tt
    → is_ok (reconcile c a).result ≡ true
unfolding reconcile reconcile_claim
run_succeeds c a pods node (inl (nc, p)) q n t d e =
    ground (arith, expired_ok c a nc pods node q n t d e)
run_succeeds c a pods node (inr (x, p, f)) q n t d e = rw (p, reconcile) (ground arith)
