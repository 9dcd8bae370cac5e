-- ===== src/Ttl/Watched.antt =====
-- The TTL controller in its work queue: SetupWithManager, which filters no events.
use mathlib.Core.Bool.{false≢true}
use mathlib.Core.Option.{some-injective}
use karpenter_provider_upclo.Base.{
  true, false, ◌||◌, Option, some, List, [], ◌∷◌, Result, ok, err, ◌≡◌, sym, ap, ◌∙◌, subst, ◌⊎◌,
  inl, inr, arith, Bool-cases, Result-cases, if◌then◌else◌, is_ok, map_err, ◌==◌, eq_iff,
}
use karpenter_provider_upclo.Base.Int.{
  ℤ, pos, ◌-ℤ◌, ◌<ℤ◌, ltb_ℤ, wrap64_id, IsInt64, int_laws, one_part,
}
use karpenter_provider_upclo.Kube.{
  Error, Requeue, NodeClaim, Node, wrapped, requeue_after, is_set, is_not_found,
}
use karpenter_provider_upclo.Kube.Run.{attempt}
use karpenter_provider_upclo.Kube.Queue.{
  Watch, Place, Reach, IsAttentive, Reach-Attended, is_requeued, ends_requeued,
}
use karpenter_provider_upclo.Ttl.{
  Controller, Answers, Write, patch_claim, patch_node, delete_claim, reconcile, reconcile_claim,
  expired, elapsed, reset_claim, reset_ttl, decommission, taint_node, has_non_ds_pods,
  has_matching_pending_pod,
}

-- What the server holds of the claim after a call that it has accepted or refused; a deletion sets the timestamp.
unfoldable pub served : Answers → ℤ → Write → NodeClaim → NodeClaim
served a now (patch_claim old new) nc =
    if is_ok a.patched then record nc { annotations = new.annotations } else nc
served a now (patch_node old new) nc = nc
served a now (delete_claim old) nc =
    if is_ok a.deleted then record nc { deletion_timestamp = some now } else nc

unfoldable pub all_served : Answers → ℤ → List Write → NodeClaim → NodeClaim
unfolding served
all_served a now [] nc = nc
all_served a now (w ∷ ws) nc = all_served a now ws (served a now w nc)

-- No run is needed for a claim that has no node yet, or is under deletion.
abbrev pub IsSettled : NodeClaim → Type 0
IsSettled nc = (is_set nc.deletion_timestamp || nc.node_name == "") ≡ true

-- What is left of a time to live that is not used up is a delay.
left_requeued : (x t : ℤ) → ltb_ℤ x t ≡ true → is_requeued (ok (requeue_after (t -ℤ x))) ≡ true
unfolding is_requeued
left_requeued x t h =
    let less : x <ℤ t = ground arith in
    let positive : pos 0 <ℤ (t -ℤ x) = omega (int_laws, one_part (t -ℤ x)) in ground arith

module _ (c : Controller) where
  -- A run; what is left of the time to live fits an int64, as it does for 292 years to come.
  pub data Runs (o : NodeClaim) : Option NodeClaim → Result Error Requeue → Type 0 where
    found :
        (a : Answers) (now : ℤ) (p : Option NodeClaim) (r : Result Error Requeue)
        → a.claim ≡ ok o
        → IsInt64 (c.ttl -ℤ elapsed c a o)
        → p ≡ some (all_served a now (reconcile c a).writes o)
        → r ≡ (reconcile c a).result
        → Runs o p r
    unread :
        (a : Answers) (e : Error) (p : Option NodeClaim) (r : Result Error Requeue)
        → a.claim ≡ err e
        → is_not_found e ≡ false
        → p ≡ some o
        → r ≡ (reconcile c a).result
        → Runs o p r

  abbrev pub watch : Watch NodeClaim
  watch = record {
    filter = λ old new. true;
    Changes = λ old new. Unit {0};
    Runs = Runs;
    IsSettled = IsSettled;
  }

  reset_requeued :
      (a : Answers) (nc : NodeClaim) → pos 0 <ℤ c.ttl → is_requeued (reset_ttl c a nc).result ≡ true
  unfolding reset_ttl is_requeued
  reset_requeued a nc h =
      ends_requeued
        (attempt (patch_claim nc (reset_claim c a nc))
          (map_err (wrapped "patching TTL reset") a.patched))
        (requeue_after c.ttl) (ground arith)

  decommission_settles :
      (a : Answers) (now : ℤ) (nc : NodeClaim) (node : Node)
      → is_requeued (decommission a nc node).result ≡ false
      → IsSettled (all_served a now (decommission a nc node).writes nc)
  unfolding decommission taint_node all_served is_requeued
  decommission_settles a now nc node h = ground arith

  expired_settles :
      (a : Answers) (now : ℤ) (nc : NodeClaim)
      → pos 0 <ℤ c.ttl
      → is_requeued (expired c a nc).result ≡ false
      → IsSettled (all_served a now (expired c a nc).writes nc)
  unfolding expired
  expired_settles a now nc positive h = elim (Result-cases a.pods) [
    | inr (e, p) ↦ let k = rw (p, expired) at h in unfold is_requeued in cc
    | inl (pods, p) ↦ elim (Bool-cases (has_non_ds_pods pods nc.node_name)) [
      | inl busy ↦
          let k = rw (p, busy, expired) at h in
          absurd (false≢true (sym k ∙ reset_requeued _ nc positive))
      | inr idle ↦ elim (Result-cases a.node) [
        | inr (e, q) ↦ let k = rw (p, idle, q, expired) at h in unfold is_requeued in cc
        | inl (node, q) ↦ elim (Bool-cases (has_matching_pending_pod pods node)) [
          | inl wanted ↦
              let k = rw (p, idle, q, wanted, expired) at h in
              absurd (false≢true (sym k ∙ reset_requeued _ nc positive))
          | inr unwanted ↦
              let k = rw (p, idle, q, unwanted, expired) at h in
              rw (p, idle, q, unwanted, expired) (decommission_settles _ now nc node k)
        ]
      ]
    ]
  ]

  claim_settles :
      (a : Answers) (now : ℤ) (nc : NodeClaim)
      → pos 0 <ℤ c.ttl
      → IsInt64 (c.ttl -ℤ elapsed c a nc)
      → is_requeued (reconcile_claim c a nc).result ≡ false
      → IsSettled (all_served a now (reconcile_claim c a nc).writes nc)
  unfolding reconcile_claim
  claim_settles a now nc positive fits h =
      elim (Bool-cases (is_set nc.deletion_timestamp || nc.node_name == "")) [
        | inl settled ↦ rw (settled, reconcile_claim) (unfold all_served in settled)
        | inr live ↦ elim (Bool-cases (ltb_ℤ (elapsed c a nc) c.ttl)) [
          | inl young ↦
              let k =
                rw (live, young, wrap64_id (c.ttl -ℤ elapsed c a nc) fits, reconcile_claim) at h in
              absurd (false≢true (sym k ∙ left_requeued (elapsed c a nc) c.ttl young))
          | inr old ↦
              let k = rw (live, old, reconcile_claim) at h in
              rw (live, old, reconcile_claim) (expired_settles a now nc positive k)
        ]
      ]

  run_settles :
      (o p : NodeClaim) (q : Option NodeClaim) (r : Result Error Requeue)
      → pos 0 <ℤ c.ttl
      → Runs o q r
      → is_requeued r ≡ false
      → q ≡ some p
      → IsSettled p
  unfolding all_served
  run_settles o p q r positive (found a now _ _ e fits f g) h k =
      let k' = ap is_requeued (sym g) ∙ h in
      let after = all_served a now (reconcile c a).writes o in
      let settled : IsSettled after =
        unfold reconcile in
        let l = rw (e, reconcile) at k' in
        rw (e, reconcile) (claim_settles _ now o positive fits l) in
      subst IsSettled (some-injective after p (sym f ∙ k)) settled
  run_settles o p q r positive (unread a x _ _ e n f g) h k =
      let retried : is_requeued (reconcile c a).result ≡ true =
        unfold reconcile is_requeued in rw (e, n, reconcile) in
      absurd (false≢true (sym h ∙ ap is_requeued g ∙ retried))

  watch-IsAttentive : pos 0 <ℤ c.ttl → IsAttentive watch
  watch-IsAttentive positive = record {
    done = λ o p q r. run_settles o p q r positive;
    still = λ o p c f settled. absurd (false≢true (sym f));
  }

  -- Whatever happens to a NodeClaim from when it is in the queue, with a time to live above zero, through creations,
  -- updates, removals, restarts, and runs with any answers to their calls in which what is left of the time to live
  -- fits an int64: it is in the queue, or has no node yet, or is under deletion.
  pub claim_never_lost :
      (s t : Place NodeClaim) (o : NodeClaim)
      → pos 0 <ℤ c.ttl
      → Reach watch s t
      → s.queued ≡ true
      → t.object ≡ some o
      → (t.queued ≡ true) ⊎ ((is_set o.deletion_timestamp ≡ true) ⊎ (o.node_name ≡ ""))
  claim_never_lost s t o positive r q e =
      elim (Reach-Attended watch (watch-IsAttentive positive) s t r (λ x k. inl q) o e) [
        | inl queued ↦ inl queued
        | inr settled ↦ inr (elim (Bool-cases (is_set o.deletion_timestamp)) [
          | inl d ↦ inl d
          | inr d ↦ inr ((eq_iff o.node_name "").0 (ground arith))
        ])
      ]
