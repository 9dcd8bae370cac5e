-- ===== src/NodeClass/Lifecycle.antt =====
-- The life of a node class: its finalizer, its validation, and the order of the calls.
use Prim.Native.String.{◌++◌ as ◌+++◌}
use karpenter_provider_upclo.Base.{
  String, ℕ, suc, ◌≡◌, ◌≢◌, refl, ◌⊎◌, inl, inr, Bool, true, false, ◌==◌, eq_iff, eq_refl, List, [],
  ◌∷◌, ◌++◌, none, some, Result, ok, is_ok, All, any, Bool-cases, Option-cases, Result-cases, arith,
  if◌then◌else◌,
}
use karpenter_provider_upclo.Base.Int.{pos}
use karpenter_provider_upclo.Kube.{Error, NodeClaim, is_set, requeue_after}
use karpenter_provider_upclo.Api.{node_class_finalizer}
use karpenter_provider_upclo.Api.Spec.{Spec, hash}
use karpenter_provider_upclo.NodeClass.{
  Env, NodeClass, Write, update, patch_status, patch_claim, Answers, validate_spec, has_finalizer,
  without_finalizer, handle_deletion, report_invalid, report_valid, ready, is_unchanged, finish,
  reconcile_found, reconcile, rebaseline_claim_hashes, rebaseline_loop, is_skipped,
}

-- The deletion of the finalizer takes out each occurrence of it and nothing else.
pub without_finalizer-lacks : (fs : List String) → has_finalizer (without_finalizer fs) ≡ false
unfolding has_finalizer without_finalizer any
without_finalizer-lacks [] = refl
without_finalizer-lacks (f ∷ fs) = ground (arith, without_finalizer-lacks fs)

other_finalizers :
    (p : String → Bool) (fs : List String)
    → p node_class_finalizer ≡ false
    → any p (without_finalizer fs) ≡ any p fs
unfolding without_finalizer any
other_finalizers p [] h = refl
other_finalizers p (f ∷ fs) h = elim (Bool-cases (f == node_class_finalizer)) [
  | inr e ↦ ground (arith, other_finalizers p fs h)
  | inl e ↦ rw e (rw ((eq_iff f node_class_finalizer).0 e) (rw h (other_finalizers p fs h)))
]

pub has_finalizer-append :
    (fs : List String) → has_finalizer (fs ++ (node_class_finalizer ∷ [])) ≡ true
unfolding has_finalizer any
has_finalizer-append [] = ground (arith, eq_refl node_class_finalizer)
has_finalizer-append (f ∷ fs) = ground (arith, has_finalizer-append fs)

abbrev pub is_claim_patch : {C : Type 0} → Write C → Bool
is_claim_patch (patch_claim c d) = true
is_claim_patch _ = false

-- A node class under deletion is updated exactly if it has the finalizer, and only in its
-- finalizers: the program's is gone, and whether any other is there has not changed.
pub deletion_run :
    {C : Type 0} (env : Env C) (a : Answers C) (nc : NodeClass C)
    → a.node_class ≡ ok nc
    → is_set nc.deletion_timestamp ≡ true
    → ((reconcile env a).writes ≡ (
        if has_finalizer nc.finalizers
        then update (record nc { finalizers = without_finalizer nc.finalizers }) ∷ []
        else []))
      × (has_finalizer (without_finalizer nc.finalizers) ≡ false)
      × ((p : String → Bool)
          → p node_class_finalizer ≡ false
          → any p (without_finalizer nc.finalizers) ≡ any p nc.finalizers)
deletion_run env a nc p d =
    (writes, without_finalizer-lacks nc.finalizers, λ q h. other_finalizers q nc.finalizers h)
  where
    writes : (reconcile env a).writes ≡ (
        if has_finalizer nc.finalizers
        then update (record nc { finalizers = without_finalizer nc.finalizers }) ∷ []
        else [])
    writes = unfold reconcile reconcile_found handle_deletion in rw p (rw d (ground arith))

module _ {C : Type 0} (env : Env C) (a : Answers C) (nc : NodeClass C) where
  -- A live node class that has been read, and has the finalizer.
  pub record Adopted : Type 0 where
    pub read : a.node_class ≡ ok nc
    pub alive : is_set nc.deletion_timestamp ≡ false
    pub holds : has_finalizer nc.finalizers ≡ true

  pub adopted_run :
      Adopted
      → reconcile env a ≡ elim (validate_spec nc.spec) [
        | some message ↦ report_invalid env a nc message
        | none ↦ report_valid env a nc
      ]
  unfolding reconcile reconcile_found
  adopted_run h = ground (arith, h.read, h.alive, h.holds)

  adoption_writes :
      a.node_class ≡ ok nc
      → is_set nc.deletion_timestamp ≡ false
      → has_finalizer nc.finalizers ≡ false
      → (reconcile env a).writes
        ≡ update (record nc { finalizers = nc.finalizers ++ (node_class_finalizer ∷ []) }) ∷ []
  unfolding reconcile reconcile_found
  adoption_writes p d f = rw p (rw d (rw f (ground arith)))

-- The first run of a live node class without the finalizer adds it and does nothing else; when that
-- is written, the next run finds it.
pub adoption :
    {C : Type 0} (env : Env C) (a : Answers C) (nc : NodeClass C)
    → a.node_class ≡ ok nc
    → is_set nc.deletion_timestamp ≡ false
    → has_finalizer nc.finalizers ≡ false
    → ((reconcile env a).writes
        ≡ update (record nc { finalizers = nc.finalizers ++ (node_class_finalizer ∷ []) }) ∷ [])
      × (has_finalizer (nc.finalizers ++ (node_class_finalizer ∷ [])) ≡ true)
adoption env a nc p d f = (adoption_writes env a nc p d f, has_finalizer-append nc.finalizers)

names_missing : (spec : Spec) → (spec.zone ≡ "") ⊎ (spec.plan ≡ "") → validate_spec spec ≢ none
unfolding validate_spec
names_missing spec h e = ground (arith, h, eq_iff spec.zone "", eq_iff spec.plan "")

steady_loop :
    {C : Type 0} (env : Env C) (h : String) (patched : ℕ → Result Error (Unit {0})) (i : ℕ)
    (claims : List NodeClaim)
    → All (λ (c : NodeClaim). is_skipped c ≡ true) claims
    → rebaseline_loop env h patched i claims ≡ record { writes = []; result = ok tt }
unfolding rebaseline_loop
steady_loop env h patched i [] s = refl
steady_loop env h patched i (c ∷ cs) s =
    ground (arith, s.0, steady_loop env h patched (suc i) cs s.1)

pub steady_report :
    {C : Type 0} (env : Env C) (a : Answers C) (nc : NodeClass C) (claims : List NodeClaim)
    → is_unchanged env nc ≡ true
    → a.claims ≡ ok claims
    → All (λ (c : NodeClaim). is_skipped c ≡ true) claims
    → report_valid env a nc ≡ record { writes = []; result = ok (requeue_after (pos 300000000000)) }
unfolding report_valid finish rebaseline_claim_hashes ready
steady_report env a nc claims u l s =
    ground (arith, u, l, steady_loop env (hash env.digest nc.spec) a.claim_patched 0 claims s)

-- What must hold before a run may touch a NodeClaim.
pub record MayTouch {C : Type 0} (env : Env C) (a : Answers C) (nc : NodeClass C) : Type 0 where
  pub adopted : Adopted env a nc
  pub valid : validate_spec nc.spec ≡ none
  pub reported : (is_unchanged env nc ≡ true) ⊎ (a.status_patched ≡ ok tt)

valid_touches :
    {C : Type 0} (env : Env C) (a : Answers C) (nc : NodeClass C)
    → any is_claim_patch (report_valid env a nc).writes ≡ true
    → (is_unchanged env nc ≡ true) ⊎ (a.status_patched ≡ ok tt)
unfolding report_valid any
valid_touches env a nc h = elim (Bool-cases (is_unchanged env nc)) [
  | inl e ↦ inl e
  | inr e ↦ inr (ground arith)
]

-- A run patches a NodeClaim only if the node class was read, is alive, has the finalizer and a valid
-- specification, and its status is up to date or was patched in the run.
pub touches_claims :
    {C : Type 0} (env : Env C) (a : Answers C)
    → any is_claim_patch (reconcile env a).writes ≡ true
    → (nc : NodeClass C) × MayTouch env a nc
unfolding reconcile reconcile_found handle_deletion report_invalid any
touches_claims env a h = elim (Result-cases a.node_class) [
  | inr (e, p) ↦ absurd (ground arith)
  | inl (nc, p) ↦ (
    nc,
    record {
      adopted = record { read = p; alive = ground arith; holds = ground arith };
      valid = ground arith;
      reported = valid_touches env a nc (ground arith);
    },
  )
]

-- A specification without zone or plan makes the run report it and do nothing else: the one call
-- patches Ready to false, no error is returned, and the run is retried at once if the patch failed
-- and after 30 seconds otherwise.
pub invalid_run :
    {C : Type 0} (env : Env C) (a : Answers C) (nc : NodeClass C)
    → Adopted env a nc
    → (nc.spec.zone ≡ "") ⊎ (nc.spec.plan ≡ "")
    → (m : String) × ((reconcile env a).writes
        ≡ patch_status nc (record nc {
          conditions =
              env.set_false "Ready" "ValidationFailed" ("Validation failed: " +++ m) nc.conditions;
        })
          ∷ [])
      × ((reconcile env a).result
          ≡ ok (
              if is_ok a.status_patched
              then requeue_after (pos 30000000000)
              else record { again = true; after = pos 0 }))
invalid_run env a nc h missing = elim (Option-cases (validate_spec nc.spec)) [
  | inl e ↦ absurd (names_missing nc.spec missing e)
  | inr (m, e) ↦ (
    m,
    rw (adopted_run env a nc h) (rw e (unfold report_invalid in refl)),
    rw (adopted_run env a nc h) (rw e (unfold report_invalid in ground arith)),
  )
]

-- A node class whose status is up to date, and whose NodeClaims are all settled, is left alone:
-- the run changes nothing and comes back after five minutes.
pub steady_run :
    {C : Type 0} (env : Env C) (a : Answers C) (nc : NodeClass C) (claims : List NodeClaim)
    → Adopted env a nc
    → validate_spec nc.spec ≡ none
    → is_unchanged env nc ≡ true
    → a.claims ≡ ok claims
    → All (λ (c : NodeClaim). is_skipped c ≡ true) claims
    → reconcile env a ≡ record { writes = []; result = ok (requeue_after (pos 300000000000)) }
steady_run env a nc claims h v u l s =
    rw (adopted_run env a nc h) (rw v (steady_report env a nc claims u l s))
