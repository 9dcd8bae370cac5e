-- ===== src/Ttl/Decision.antt =====
-- The decisions of one run of the TTL controller, on every branch.
use karpenter_provider_upclo.Base.{
  ◌≡◌, refl, ◌≢◌, ◌↔◌, ◌⊎◌, inl, inr, Bool, true, false, eq_iff, eq-false_of_ne, List, [], ◌∷◌, ok,
  Result-cases, Bool-cases, arith, any, if◌then◌else◌,
}
use karpenter_provider_upclo.Base.Int.{ℤ, ◌≤ℤ◌, ltb_ℤ}
use karpenter_provider_upclo.Kube.{Pod, Node, NodeClaim, is_set}
use karpenter_provider_upclo.Ttl.{
  Controller, Answers, Write, patch_node, delete_claim, reconcile, reconcile_claim, expired,
  elapsed, reset_ttl, decommission, taint_node, is_decommissioned, decommissioned, has_non_ds_pods,
  has_matching_pending_pod,
}

-- All that must hold before a run may ask for the deletion of a NodeClaim.
pub record Condemned (c : Controller) (a : Answers) (nc : NodeClaim) : Type 0 where
  pub found : a.claim ≡ ok nc
  pub alive : is_set nc.deletion_timestamp ≡ false
  pub assigned : nc.node_name ≢ ""
  pub overdue : c.ttl ≤ℤ elapsed c a nc
  pub pods : List Pod
  pub listed : a.pods ≡ ok pods
  pub idle : has_non_ds_pods pods nc.node_name ≡ false
  pub node : Node
  pub got : a.node ≡ ok node
  pub unwanted : has_matching_pending_pod pods node ≡ false
  pub tainted : (is_decommissioned node ≡ true) ⊎ (a.tainted ≡ ok tt)

abbrev pub is_delete : Write → Bool
is_delete (delete_claim nc) = true
is_delete _ = false

decommission_deletes :
    (a : Answers) (nc : NodeClaim) (node : Node)
    → any is_delete (decommission a nc node).writes ≡ true
    → (is_decommissioned node ≡ true) ⊎ (a.tainted ≡ ok tt)
unfolding decommission taint_node any
decommission_deletes a nc node h = ground arith

Chosen : Controller → Answers → NodeClaim → Type 0
Chosen c a nc =
    (pods : List Pod) × (node : Node) × (a.pods ≡ ok pods)
    × (has_non_ds_pods pods nc.node_name ≡ false)
    × (a.node ≡ ok node)
    × (has_matching_pending_pod pods node ≡ false)
    × ((is_decommissioned node ≡ true) ⊎ (a.tainted ≡ ok tt))

reset_keeps :
    (c : Controller) (a : Answers) (nc : NodeClaim)
    → any is_delete (reset_ttl c a nc).writes ≡ false
unfolding reset_ttl any
reset_keeps c a nc = ground arith

expired_deletes :
    (c : Controller) (a : Answers) (nc : NodeClaim)
    → any is_delete (expired c a nc).writes ≡ true
    → Chosen c a nc
unfolding expired any Chosen
expired_deletes c a nc h = elim (Result-cases a.pods) [
  | inr (e, p) ↦ absurd (ground arith)
  | inl (pods, p) ↦ elim (Result-cases a.node) [
    | inr (e, q) ↦ absurd (ground (arith, reset_keeps c a nc))
    | inl (node, q) ↦ (
      pods,
      node,
      p,
      ground (arith, reset_keeps c a nc),
      q,
      ground (arith, reset_keeps c a nc),
      decommission_deletes a nc node (ground (arith, reset_keeps c a nc)),
    )
  ]
]

ltb_false : (a b : ℤ) → ltb_ℤ a b ≡ false → b ≤ℤ a
ltb_false a b h = ground arith

pub le_ltb : (a b : ℤ) → b ≤ℤ a → ltb_ℤ a b ≡ false
le_ltb a b h = ground arith

claim_deletes :
    (c : Controller) (a : Answers) (nc : NodeClaim)
    → a.claim ≡ ok nc
    → any is_delete (reconcile_claim c a nc).writes ≡ true
    → Condemned c a nc
unfolding reconcile_claim any Chosen
claim_deletes c a nc found h =
    let (pods, node, listed, idle, got, unwanted, tainted) =
      expired_deletes c a nc (ground arith) in
    record {
      found = found;
      alive = ground arith;
      assigned = λ e. ground (arith, eq_iff nc.node_name "");
      overdue = ltb_false (elapsed c a nc) c.ttl (ground arith);
      pods = pods;
      listed = listed;
      idle = idle;
      node = node;
      got = got;
      unwanted = unwanted;
      tainted = tainted;
    }

run_deletes :
    (c : Controller) (a : Answers)
    → any is_delete (reconcile c a).writes ≡ true
    → (nc : NodeClaim) × Condemned c a nc
unfolding reconcile any
run_deletes c a h = elim (Result-cases a.claim) [
  | inr (e, p) ↦ absurd (ground arith)
  | inl (nc, p) ↦ (nc, claim_deletes c a nc p (ground arith))
]

-- The calls of a run that ends a NodeClaim: the taint, unless the node has it, then the deletion.
abbrev pub last_calls : Node → NodeClaim → List Write
last_calls node nc =
    if is_decommissioned node
    then delete_claim nc ∷ []
    else patch_node node (decommissioned node) ∷ delete_claim nc ∷ []

decommission_lem :
    (a : Answers) (nc : NodeClaim) (node : Node)
    → (is_decommissioned node ≡ true) ⊎ (a.tainted ≡ ok tt)
    → (decommission a nc node).writes ≡ last_calls node nc
unfolding decommission taint_node
decommission_lem a nc node t = ground arith

expired_lem :
    (c : Controller) (a : Answers) (nc : NodeClaim)
    → (d : Condemned c a nc) → expired c a nc ≡ decommission a nc d.node
unfolding expired
expired_lem c a nc d = ground (arith, d.listed, d.idle, d.got, d.unwanted)

Condemned-claim :
    (c : Controller) (a : Answers) (nc : NodeClaim)
    → Condemned c a nc
    → reconcile c a ≡ expired c a nc
unfolding reconcile reconcile_claim
Condemned-claim c a nc d = ground (
  arith,
  d.found,
  d.alive,
  eq-false_of_ne nc.node_name "" d.assigned,
  le_ltb (elapsed c a nc) c.ttl d.overdue,
)

-- A run asks for the deletion of a NodeClaim exactly when the claim was read, is not being deleted,
-- has a node, has used up its time to live, its node has no pod but those of DaemonSets and those
-- being deleted, no pending pod could reuse the node, and the node has the decommissioning taint or
-- the patch that adds it succeeded; then the taint, where it is missing, is asked for first, and
-- nothing else is changed.
pub deletion_iff :
    (c : Controller) (a : Answers)
    → (any is_delete (reconcile c a).writes ≡ true) ↔ (
        (nc : NodeClaim) × (d : Condemned c a nc) × ((reconcile c a).writes ≡ last_calls d.node nc))
unfolding any
deletion_iff c a = (sound, complete)
  where
    calls : (nc : NodeClaim) (d : Condemned c a nc) → (reconcile c a).writes ≡ last_calls d.node nc
    calls nc d =
        rw (Condemned-claim c a nc d, expired_lem c a nc d) (decommission_lem a nc d.node d.tainted)

    sound :
        any is_delete (reconcile c a).writes ≡ true
        → (nc : NodeClaim) × (d : Condemned c a nc) × ((reconcile c a).writes
            ≡ last_calls d.node nc)
    sound h = let (nc, d) = run_deletes c a h in (nc, d, calls nc d)

    complete :
        ((nc : NodeClaim) × (d : Condemned c a nc) × ((reconcile c a).writes
            ≡ last_calls d.node nc))
        → any is_delete (reconcile c a).writes ≡ true
    complete (nc, d, e) =
        rw e
          (elim (Bool-cases (is_decommissioned d.node)) [ inl y ↦ rw y refl | inr n ↦ rw n refl ])
