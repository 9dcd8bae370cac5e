-- ===== src/NodeClass/Histories.antt =====
-- Runs to the steady state, and a stamped claim that drifts after an edit.

use karpenter_provider_upclo.Base.{
  none, some, ◌≡◌, ◌≢◌, refl, Bool, eq_iff, [], ◌∷◌, Result, ok, any, arith, Any, here, All, get,
  lookup, insert, has_key,
}
use karpenter_provider_upclo.Kube.{Error, NodeClaim}
use karpenter_provider_upclo.Api.{
  node_class_finalizer, hash_annotation_key, hash_version_annotation_key, hash_version,
  node_class_drifted,
}
use karpenter_provider_upclo.Api.Spec.{Spec, hash, formatted, hex, hex_digit}
use karpenter_provider_upclo.Drift.{drift_reason}
use karpenter_provider_upclo.NodeClass.{
  Env, NodeClass, Write, update, patch_status, patch_claim, Answers, validate_spec, has_finalizer,
  without_finalizer, is_drifted, is_skipped, is_unchanged, reconcile, rebaseline_claim_hashes,
  rebaselined,
}
use karpenter_provider_upclo.NodeClass.System.{
  System, Reach, start, later, begin, call, edit, applied, stamped, Traced,
}
use karpenter_provider_upclo.NodeClass.Origin.{drifted_for_cause}
use karpenter_provider_upclo.NodeClass.Sweep.{Distinct}
use karpenter_provider_upclo.Cloud.{resolve_node_class}
use karpenter_provider_upclo.Cloud.Sample.{claim}
use karpenter_provider_upclo.Cloud.Fleet.Account.{Room, cloud}
use karpenter_provider_upclo.Cloud.Fleet.Tests.{fresh, marks, created_here}
use karpenter_provider_upclo.NodeClass.Newcomers.{newcomer_welcome}
use karpenter_provider_upclo.NodeClass.Convergence.{
  Steady, run_writes, Settled, after_runs, converges,
}
use karpenter_provider_upclo.NodeClass.Sample.{
  spec_1, env, class_1, bare_class, invalid_class, old_claim, new_claim, answers, valid_1,
}

distinct : Distinct (old_claim ∷ new_claim ∷ [])
distinct = ((λ e. ground (arith, e, eq_iff "new" "old"), tt), (tt, tt))

converges_example :
    Settled env
      (λ c. refl)
      bare_class
      (old_claim ∷ new_claim ∷ [])
      (after_runs env (λ c. refl) 2 (bare_class, old_claim ∷ new_claim ∷ []))
converges_example =
    converges env (λ c. refl) 0 bare_class (old_claim ∷ new_claim ∷ []) refl valid_1 distinct

-- A run stamps the old claim, and then the node class is edited.
abbrev at_first : System Bool
at_first = record { history = spec_1 ∷ []; claims = old_claim ∷ []; pending = [] }

abbrev stamp : Write Bool
stamp = patch_claim old_claim (rebaselined (hash env.digest spec_1) old_claim)

abbrev with_run : System Bool
with_run = record at_first { pending = stamp ∷ [] }

abbrev with_stamp : System Bool
with_stamp = record at_first { claims = applied stamp (old_claim ∷ []) }

abbrev with_edit : System Bool
with_edit = record with_stamp { history = invalid_class.spec ∷ spec_1 ∷ [] }

run_here :
    with_run
    ≡ record at_first { pending = (reconcile env (answers class_1 (old_claim ∷ []))).writes }
unfolding reconcile any has_finalizer validate_spec karpenter_provider_upclo.NodeClass.report_valid
    hash karpenter_provider_upclo.Api.Spec.hex karpenter_provider_upclo.Api.Spec.hex_digit
    is_skipped has_key is_drifted karpenter_provider_upclo.NodeClass.ready
run_here = refl

read_here :
    (nc : NodeClass Bool)
    → Path (Result Error (NodeClass Bool)) (ok class_1) (ok nc)
    → Any (λ (x : Spec). x ≡ nc.spec) (spec_1 ∷ [])
read_here nc e = here (ground arith)

edited : Reach env at_first with_edit
edited =
    later at_first with_stamp with_edit
      (later at_first with_run with_stamp
        (later at_first at_first with_run (start at_first)
          (begin at_first with_run (answers class_1 (old_claim ∷ [])) read_here refl run_here))
        (call with_run with_stamp stamp [] refl refl))
      (edit with_stamp with_edit invalid_class.spec refl)

old_Traced : All (Traced env (spec_1 ∷ [])) (old_claim ∷ [])
unfolding get lookup
old_Traced = (λ e. ground (arith, e, eq_iff "" hash_version), tt)

abbrev stamped_claim : NodeClaim
stamped_claim = stamped (rebaselined (hash env.digest spec_1) old_claim) old_claim

drifts_here : drift_reason env.digest invalid_class.spec stamped_claim ≡ node_class_drifted
unfolding drift_reason get lookup insert rebaselined hash karpenter_provider_upclo.Api.Spec.hex
    karpenter_provider_upclo.Api.Spec.hex_digit formatted
drifts_here = refl

drifted_for_cause_example :
    Any
      (λ (old : Spec).
        (hash env.digest old ≡ get hash_annotation_key stamped_claim.annotations)
        × (hash env.digest old ≢ hash env.digest invalid_class.spec))
      (invalid_class.spec ∷ spec_1 ∷ [])
drifted_for_cause_example =
    drifted_for_cause env at_first with_edit invalid_class.spec stamped_claim refl old_Traced edited
      (here refl) drifts_here

class_1-Steady : Steady env class_1 (new_claim ∷ [])
unfolding has_finalizer any is_unchanged hash karpenter_provider_upclo.Api.Spec.hex
    karpenter_provider_upclo.Api.Spec.hex_digit is_skipped has_key lookup
class_1-Steady = record {
  alive = refl;
  holds = refl;
  valid = valid_1;
  reported = refl;
  skipped = (refl, tt);
}

newcomer_welcome_example :
    ((spec : Spec) × (u : Room) × (resolve_node_class cloud claim none ≡ (ok spec, u))
      × (drift_reason cloud.digest spec fresh ≡ ""))
    × (run_writes env class_1 (fresh ∷ new_claim ∷ []) ≡ [])
newcomer_welcome_example =
    newcomer_welcome cloud env claim fresh none (some marks) class_1 (new_claim ∷ []) created_here
      class_1-Steady
