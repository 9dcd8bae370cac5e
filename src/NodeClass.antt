-- ===== src/NodeClass.antt =====
-- pkg/controllers/nodeclass/controller.go: the controller of UpCloudNodeClass objects. The answers
-- of the API server are arguments, one for each call; those of the loop over the NodeClaims are a
-- function of the position. The conditions of a status belong to operatorpkg: they are a type
-- with the three operations that the program calls. Log lines are left out.
pub mod Rebaseline
pub mod Verdict
pub mod Undrifted
pub mod Lifecycle
pub mod System
pub mod Origin
pub mod Sweep
pub mod Convergence
pub mod Newcomers
pub mod Sample
pub mod Tests
pub mod Histories
pub mod Watched
pub mod Queued
use Prim.Native.String.{◌++◌ as ◌+++◌}
use karpenter_provider_upclo.Base.{
  String, ℕ, suc, Dict, lookup, insert, get, has_key, Option, none, some, List, [], ◌∷◌, ◌++◌, Bool,
  true, false, not, ◌&&◌, ◌||◌, ◌==◌, if◌then◌else◌, any, Result, ok, err, map_err, ◌*◌,
}
use karpenter_provider_upclo.Base.Int.{ℤ, pos}
use karpenter_provider_upclo.Kube.{
  Error, wrapped, is_not_found, is_conflict, Condition, NodeClaim, is_set, Requeue, no_requeue,
  requeue_after,
}
use karpenter_provider_upclo.Kube.Run.{Run, pure, fail, answer, attempt, ◌>>=◌, ◌>>◌}
use karpenter_provider_upclo.Api.{
  node_class_finalizer, hash_annotation_key, hash_version_annotation_key, hash_version,
}
use karpenter_provider_upclo.Api.Spec.{Spec, hash}

-- What the controller takes from outside: `StatusConditions().SetFalse` and `SetTrue` on a set of
-- conditions, the comparison of two sets, and `hashstructure.Hash`.
pub record Env (C : Type 0) : Type 0 where
  pub set_false : String → String → String → C → C
  pub set_true : String → C → C
  pub same_conditions : C → C → Bool
  pub digest : Spec → Option ℕ

-- v1alpha2.UpCloudNodeClass
pub record NodeClass (C : Type 0) : Type 0 where
  pub name : String
  pub deletion_timestamp : Option ℤ
  pub finalizers : List String
  pub spec : Spec
  pub conditions : C
  pub status_hash : String

pub data Write (C : Type 0) : Type 0 where
  update : NodeClass C → Write C
  patch_status : NodeClass C → NodeClass C → Write C
  patch_claim : NodeClaim → NodeClaim → Write C

pub record Answers (C : Type 0) : Type 0 where
  pub node_class : Result Error (NodeClass C)
  pub updated : Result Error (Unit {0})
  pub status_patched : Result Error (Unit {0})
  pub claims : Result Error (List NodeClaim)
  pub claim_patched : ℕ → Result Error (Unit {0})

abbrev pub second : ℕ
second = 1000000000

-- The error is its text.
pub validate_spec : Spec → Option String
validate_spec spec =
    if spec.zone == ""
    then some "zone is required"
    else if spec.plan == ""
    then some "plan is required"
    else none

-- `StatusConditions().Get(Drifted)`, non-nil and true
pub is_drifted : List Condition → Bool
is_drifted [] = false
is_drifted (c ∷ cs) =
    let rest = is_drifted cs in if c.kind == "Drifted" then c.status == "True" else rest

-- The `continue`s of the loop: not launched, up to date, or evaluated as drifted.
pub is_skipped : NodeClaim → Bool
is_skipped claim =
    let has_hash = has_key hash_annotation_key claim.annotations in
    if not has_hash && claim.provider_id == ""
    then true
    else if has_hash && get hash_version_annotation_key claim.annotations == hash_version
    then true
    else is_drifted claim.conditions

pub rebaselined : String → NodeClaim → NodeClaim
rebaselined digest_text claim = record claim {
  annotations =
      insert hash_version_annotation_key hash_version
        (insert hash_annotation_key digest_text claim.annotations);
}

-- `slices.DeleteFunc(finalizers, …)`
pub without_finalizer : List String → List String
without_finalizer [] = []
without_finalizer (f ∷ fs) =
    let rest = without_finalizer fs in if f == node_class_finalizer then rest else f ∷ rest

-- `slices.Contains(nodeClass.Finalizers, …)`
pub has_finalizer : List String → Bool
has_finalizer = any (λ f. f == node_class_finalizer)

module _ {C : Type 0} (env : Env C) where
  pub rebaseline_loop :
      String → (ℕ → Result Error (Unit {0})) → ℕ → List NodeClaim → Run (Write C) Error (Unit {0})
  rebaseline_loop h patched i [] = pure tt
  rebaseline_loop h patched i (claim ∷ claims) =
      let rest = rebaseline_loop h patched (suc i) claims in
      if is_skipped claim then rest else do
        attempt (patch_claim claim (rebaselined h claim))
            (map_err (wrapped ("re-baselining nodeclaim hash " +++ claim.name)) (patched i))
        rest

  pub rebaseline_claim_hashes : Answers C → NodeClass C → Run (Write C) Error (Unit {0})
  unfolding rebaseline_loop
  rebaseline_claim_hashes a nc = do
    claims ← answer (map_err (wrapped "listing nodeclaims for hash re-baseline") a.claims)
    rebaseline_loop (hash env.digest nc.spec) a.claim_patched 0 claims

  pub handle_deletion : Answers C → NodeClass C → Run (Write C) Error Requeue
  handle_deletion a nc = if not (has_finalizer nc.finalizers) then pure no_requeue else do
    attempt (update (record nc { finalizers = without_finalizer nc.finalizers })) a.updated
    pure no_requeue

  -- The patch of a failed validation is retried at once when it is refused.
  pub report_invalid : Answers C → NodeClass C → String → Run (Write C) Error Requeue
  report_invalid a stored message =
      let changed = record stored {
        conditions =
            env.set_false "Ready" "ValidationFailed" ("Validation failed: " +++ message)
              stored.conditions;
      } in
      record {
        writes = patch_status stored changed ∷ [];
        result = elim a.status_patched [
          | err e ↦ ok (record { again = true; after = pos 0 })
          | ok _ ↦ ok (requeue_after (pos (30 * second)))
        ];
      }

  -- The object with the status that a valid specification has.
  pub ready : NodeClass C → NodeClass C
  ready stored = record stored {
    conditions = env.set_true "Ready" stored.conditions;
    status_hash = hash env.digest stored.spec;
  }

  -- `equality.Semantic.DeepEqual(stored, nodeClass)`: only the status can differ by then.
  pub is_unchanged : NodeClass C → Bool
  is_unchanged stored =
      env.same_conditions stored.conditions (env.set_true "Ready" stored.conditions)
      && stored.status_hash == hash env.digest stored.spec

  finish : Answers C → NodeClass C → Run (Write C) Error Requeue
  unfolding rebaseline_claim_hashes
  finish a nc = do rebaseline_claim_hashes a nc; pure (requeue_after (pos (5 * 60 * second)))

  -- What a refused patch of the status returns: a conflict is retried without an error.
  conflict_result : Error → Result Error Requeue
  conflict_result e =
      if is_conflict e
      then ok (record { again = true; after = pos 0 })
      else err (wrapped "failed to patch nodeclass status" e)

  pub report_valid : Answers C → NodeClass C → Run (Write C) Error Requeue
  unfolding is_unchanged finish conflict_result
  report_valid a stored =
      if is_unchanged stored then finish a (ready stored) else elim a.status_patched [
        | err e ↦ record {
          writes = patch_status stored (ready stored) ∷ [];
          result = conflict_result e;
        }
        | ok _ ↦ record {
          writes = patch_status stored (ready stored) ∷ (finish a (ready stored)).writes;
          result = (finish a (ready stored)).result;
        }
      ]

  pub reconcile_found : Answers C → NodeClass C → Run (Write C) Error Requeue
  reconcile_found a nc =
      if is_set nc.deletion_timestamp
      then handle_deletion a nc
      else if not (has_finalizer nc.finalizers)
      then (do
        attempt (update (record nc { finalizers = nc.finalizers ++ (node_class_finalizer ∷ []) }))
            a.updated
        pure (requeue_after (pos (60 * second))))
      else elim (validate_spec nc.spec) [
        | some message ↦ report_invalid a nc message
        | none ↦ report_valid a nc
      ]

  pub reconcile : Answers C → Run (Write C) Error Requeue
  unfolding reconcile_found
  reconcile a = elim a.node_class [
    | err e ↦ if is_not_found e then pure no_requeue else fail e
    | ok nc ↦ reconcile_found a nc
  ]
