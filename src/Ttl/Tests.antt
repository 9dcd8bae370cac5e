-- ===== src/Ttl/Tests.antt =====
-- Runs of the TTL controller at concrete inputs.

use karpenter_provider_upclo.Base.{
  String, ◌≡◌, refl, ◌≢◌, ◌↔◌, true, false, ◌==◌, eq_iff, [], ◌∷◌, some, ok, All, here, any, arith,
  lookup, if◌then◌else◌,
}
use karpenter_provider_upclo.Base.Int.{pos, ◌-ℤ◌, ◌+ℤ◌, saturate64}
use karpenter_provider_upclo.Kube.{NodeClaim, requeue_after}
use karpenter_provider_upclo.Api.{ttl_reset_annotation_key}
use karpenter_provider_upclo.Ttl.{
  Controller, Answers, Write, patch_claim, patch_node, delete_claim, TimeFormat, reconcile, elapsed,
  reset_claim, is_decommissioned, decommissioned, has_non_ds_pods, has_matching_pending_pod,
  ttl_start, parsed_or, pod_tolerates_node_taints, pod_fits_instance_type, toleration_matches,
  required_terms, has_value, is_matching_pending, conditions_allow, keeps_busy, is_daemon_set,
}
use karpenter_provider_upclo.Ttl.Tolerations.{exists, Covered, pod_tolerates_node_taints_iff}
use karpenter_provider_upclo.Ttl.Divergence
use karpenter_provider_upclo.Ttl.Affinity.{Fits, pod_fits_instance_type_iff}
use karpenter_provider_upclo.Ttl.Divergence.{not_in_turned_away}
use karpenter_provider_upclo.Ttl.Decision.{Condemned, last_calls, is_delete, deletion_iff}
use karpenter_provider_upclo.Ttl.Keeping.{Overdue, busy, Needed-kept}
use karpenter_provider_upclo.Ttl.Waiting.{WaitsForRest, young_waits, reset_then_waits}
use karpenter_provider_upclo.Ttl.Sample.{
  term, pending, daemon, worker, no_exec, node_1, claim_1, controller_1, short, answers,
}

-- An idle node that no pending pod wants is tainted and deleted.
idle_run :
    (reconcile short (answers (daemon ∷ []))).writes
    ≡ patch_node node_1 (decommissioned node_1) ∷ delete_claim claim_1 ∷ []
unfolding reconcile elapsed saturate64 ◌-ℤ◌ ttl_start lookup karpenter_provider_upclo.Ttl.expired
    has_non_ds_pods any keeps_busy has_matching_pending_pod is_matching_pending
    karpenter_provider_upclo.Ttl.decommission karpenter_provider_upclo.Ttl.taint_node
idle_run = refl

in_term : required_terms (pending (term "In" ("a" ∷ []) ∷ [])) ≡ some (term "In" ("a" ∷ []) ∷ [])
unfolding required_terms
in_term = refl

tolerated_example :
    (pod_tolerates_node_taints (pending []) (no_exec ∷ []) ≡ true)
    ↔ All (Covered (pending [])) (no_exec ∷ [])
tolerated_example = pod_tolerates_node_taints_iff (pending []) (no_exec ∷ []) (exists refl, tt)

fits_example :
    (pod_fits_instance_type (pending (term "In" ("a" ∷ []) ∷ [])) "a" ≡ true)
    ↔ Fits (pending (term "In" ("a" ∷ []) ∷ [])) "a"
fits_example = pod_fits_instance_type_iff (pending (term "In" ("a" ∷ []) ∷ [])) "a"

not_in_example : pod_fits_instance_type (pending (term "NotIn" ("b" ∷ []) ∷ [])) "a" ≡ false
unfolding required_terms has_value any
not_in_example =
    not_in_turned_away (pending (term "NotIn" ("b" ∷ []) ∷ [])) "a" (term "NotIn" ("b" ∷ [])) refl
      (here refl) (λ k. refl, tt) (Divergence.not_in refl refl, tt)

deletion_example : (any is_delete (reconcile short (answers (daemon ∷ []))).writes ≡ true) ↔ (
    (nc : NodeClaim) × (d : Condemned short (answers (daemon ∷ [])) nc) × ((reconcile short
        (answers (daemon ∷ []))).writes
      ≡ last_calls d.node nc))
deletion_example = deletion_iff short (answers (daemon ∷ []))

node_1_named : ◌≢◌ {A = String} "node-1" ""
node_1_named = ground (arith, eq_iff "node-1" "")

Overdue-1 : Overdue short (answers (worker ∷ [])) claim_1
unfolding elapsed saturate64 ◌-ℤ◌ ttl_start lookup
Overdue-1 = record { found = refl; alive = refl; assigned = node_1_named; overdue = omega arith }

kept_example :
    ((reconcile short (answers (worker ∷ []))).writes
      ≡ patch_claim claim_1 (reset_claim short (answers (worker ∷ [])) claim_1) ∷ [])
    × ((reconcile short (answers (worker ∷ []))).result ≡ ok (requeue_after (pos 1000)))
    × ((k : String)
        → lookup k (reset_claim short (answers (worker ∷ [])) claim_1).annotations
          ≡ (if ttl_reset_annotation_key == k then some "now" else lookup k claim_1.annotations))
unfolding has_non_ds_pods any keeps_busy
kept_example =
    Needed-kept short (answers (worker ∷ [])) claim_1 Overdue-1 (busy (worker ∷ []) refl refl)

young_example : WaitsForRest controller_1 (answers []) claim_1
unfolding ttl_start ◌-ℤ◌ lookup
young_example =
    young_waits controller_1 (answers []) claim_1 (omega arith) refl refl node_1_named (omega arith)
      (omega arith)

abbrev later_answers : Answers
later_answers = record (answers []) {
  claim = ok (reset_claim controller_1 (answers []) claim_1);
  now = pos 6000;
}

reset_example :
    WaitsForRest controller_1 later_answers (reset_claim controller_1 (answers []) claim_1)
unfolding ◌+ℤ◌ reset_claim
reset_example =
    reset_then_waits controller_1 (answers []) later_answers claim_1 (omega arith)
      (record {
        back = pos 5000;
        parsed = refl;
        not_later = omega arith;
        within_second = omega arith;
      })
      refl node_1_named refl (omega arith) (omega arith)
