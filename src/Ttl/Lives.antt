-- ===== src/Ttl/Lives.antt =====
-- A NodeClaim from its reset to its deletion.
use karpenter_provider_upclo.Base.{
  String, ◌≡◌, refl, ◌≢◌, ◌↔◌, inl, true, false, ◌==◌, eq_iff, List, [], ◌∷◌, none, some, ok, is_ok,
  All, Any, here, any, arith, lookup, if◌then◌else◌,
}
use karpenter_provider_upclo.Base.Int.{pos, ◌-ℤ◌, ◌+ℤ◌, ◌<ℤ◌, saturate64}
use karpenter_provider_upclo.Kube.{NodeClaim}
use karpenter_provider_upclo.Ttl.{
  Controller, Answers, Write, patch_claim, patch_node, delete_claim, TimeFormat, reconcile, elapsed,
  reset_claim, is_decommissioned, decommissioned, has_non_ds_pods, has_matching_pending_pod,
  ttl_start, parsed_or, pod_tolerates_node_taints, pod_fits_instance_type, toleration_matches,
  required_terms, has_value, instance_plan, is_matching_pending, conditions_allow, keeps_busy,
  is_daemon_set,
}
use karpenter_provider_upclo.Ttl.Decision.{is_delete}
use karpenter_provider_upclo.Ttl.History.{
  State, Reach, start, later, pass, reset, Dated, one_second, deleted_late,
}
use karpenter_provider_upclo.Ttl.Sample.{daemon, worker, claim_1, short, answers}

-- The claim is reset while a pod runs, and deleted one ttl later when it is idle.
abbrev at_first : State
at_first = record { claim = claim_1; last = pos 100; now = pos 4000 }

abbrev kept_claim : NodeClaim
kept_claim = reset_claim short (answers (worker ∷ [])) claim_1

abbrev when_reset : State
when_reset = record { claim = kept_claim; last = pos 5000; now = pos 5000 }

abbrev when_due : State
when_due = record { claim = kept_claim; last = pos 5000; now = pos 6000 }

abbrev due_answers : Answers
due_answers = record (answers (daemon ∷ [])) { claim = ok kept_claim; now = pos 6000 }

reset_here : (reconcile short (answers (worker ∷ []))).writes ≡ patch_claim claim_1 kept_claim ∷ []
unfolding reconcile elapsed saturate64 ◌-ℤ◌ ttl_start lookup karpenter_provider_upclo.Ttl.expired
    karpenter_provider_upclo.Ttl.reset_ttl has_non_ds_pods any keeps_busy
reset_here = refl

lived : Reach short at_first when_due
unfolding ◌+ℤ◌
lived =
    later at_first when_reset when_due
      (later at_first at_first when_reset (start at_first) (
        reset at_first when_reset (answers (worker ∷ [])) refl refl reset_here refl (omega arith)
          (record {
            back = pos 5000;
            parsed = refl;
            not_later = omega arith;
            within_second = omega arith;
          })
          refl))
      (pass when_reset when_due (pos 6000) (omega arith) refl)

first-Dated : Dated short at_first
unfolding ttl_start lookup ◌+ℤ◌
first-Dated = record { not_later = omega arith; within_second = omega arith; past = omega arith }

due_here : any is_delete (reconcile short due_answers).writes ≡ true
unfolding reconcile elapsed saturate64 ◌-ℤ◌ ttl_start lookup karpenter_provider_upclo.Ttl.expired
    has_non_ds_pods any keeps_busy has_matching_pending_pod is_matching_pending reset_claim
    karpenter_provider_upclo.Ttl.decommission karpenter_provider_upclo.Ttl.taint_node
    karpenter_provider_upclo.Base.insert parsed_or
due_here = refl

deleted_late_example : pos 5000 +ℤ pos 1000 <ℤ pos 6000 +ℤ one_second
deleted_late_example =
    deleted_late short at_first when_due due_answers (omega arith) first-Dated lived refl refl
      due_here
