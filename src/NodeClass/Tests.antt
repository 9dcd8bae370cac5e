-- ===== src/NodeClass/Tests.antt =====
-- Runs of the node class controller at concrete inputs.

use mathlib.Core.Bool.{false≢true}
use karpenter_provider_upclo.Base.{
  ◌≡◌, ◌≢◌, refl, Bool, true, false, eq_iff, List, [], ◌∷◌, any, has_key,
}
use karpenter_provider_upclo.Kube.{NodeClaim}
use karpenter_provider_upclo.Api.{
  node_class_finalizer, hash_annotation_key, hash_version_annotation_key, hash_version,
  node_class_drifted,
}
use karpenter_provider_upclo.Api.Spec.{Spec, hash, formatted, hex, hex_digit}
use karpenter_provider_upclo.NodeClass.{
  Env, NodeClass, Write, update, patch_status, patch_claim, Answers, validate_spec, has_finalizer,
  without_finalizer, is_drifted, is_skipped, is_unchanged, reconcile, rebaselined,
}
use karpenter_provider_upclo.NodeClass.Lifecycle.{Adopted, MayTouch, is_claim_patch, touches_claims}
use karpenter_provider_upclo.NodeClass.Sample.{
  spec_1, env, class_1, invalid_class, old_claim, new_claim, answers,
}

adopted_1 : (claims : List NodeClaim) → Adopted env (answers class_1 claims) class_1
unfolding has_finalizer any
adopted_1 claims = record { read = refl; alive = refl; holds = refl }

adopted_invalid : Adopted env (answers invalid_class []) invalid_class
unfolding has_finalizer any
adopted_invalid = record { read = refl; alive = refl; holds = refl }

not_skipped : is_skipped old_claim ≡ false
unfolding is_skipped has_key is_drifted
not_skipped = refl

hashed : hash env.digest spec_1 ≢ ""
unfolding hash formatted hex hex_digit
hashed e = false≢true ((eq_iff (hash env.digest spec_1) "").1 e)

touching : any is_claim_patch (reconcile env (answers class_1 (old_claim ∷ []))).writes ≡ true
unfolding reconcile any has_finalizer validate_spec karpenter_provider_upclo.NodeClass.report_valid
    hash karpenter_provider_upclo.Api.Spec.hex karpenter_provider_upclo.Api.Spec.hex_digit
    is_skipped has_key is_drifted
touching = refl

touches_example : (nc : NodeClass Bool) × MayTouch env (answers class_1 (old_claim ∷ [])) nc
touches_example = touches_claims env (answers class_1 (old_claim ∷ [])) touching

unchanged_1 : is_unchanged env class_1 ≡ true
unfolding is_unchanged hash karpenter_provider_upclo.Api.Spec.hex
    karpenter_provider_upclo.Api.Spec.hex_digit
unchanged_1 = refl

new_skipped : is_skipped new_claim ≡ true
unfolding is_skipped has_key
new_skipped = refl

-- Drift of a claim of an old hash version.
abbrev marked : NodeClaim
marked = record old_claim {
  name = "marked";
  conditions = record { kind = "Drifted"; status = "True" } ∷ [];
}

abbrev two_claims : List NodeClaim
two_claims = marked ∷ old_claim ∷ []
