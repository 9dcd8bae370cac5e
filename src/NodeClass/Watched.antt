-- ===== src/NodeClass/Watched.antt =====
-- The controller of node classes in its work queue: SetupWithManager, with GenerationChangedPredicate.
use mathlib.Core.Bool.{false≢true}
use mathlib.Core.Option.{some-injective}
use karpenter_provider_upclo.Base.{
  String, ℕ, Bool, true, false, not, Option, some, List, [], ◌∷◌, ◌++◌, Result, ok, err, ◌≡◌, refl,
  sym, ap, ◌∙◌, subst, ◌⊎◌, inl, inr, nat_eq, ◌*◌, arith, Bool-cases, Result-cases, Option-cases,
  if◌then◌else◌, is_ok,
}
use karpenter_provider_upclo.Base.Int.{pos}
use karpenter_provider_upclo.Kube.{Error, Requeue, requeue_after, is_set, is_not_found}
use karpenter_provider_upclo.Kube.Run.{attempt}
use karpenter_provider_upclo.Api.{node_class_finalizer}
use karpenter_provider_upclo.Kube.Queue.{
  Watch, Place, Reach, IsAttentive, Reach-Attended, is_requeued, ends_requeued,
}
use karpenter_provider_upclo.NodeClass.{
  Env, NodeClass, Write, update, patch_status, patch_claim, Answers, reconcile, reconcile_found,
  handle_deletion, report_invalid, report_valid, finish, conflict_result, is_unchanged, ready,
  validate_spec, has_finalizer, rebaseline_claim_hashes, second,
}
use karpenter_provider_upclo.NodeClass.Lifecycle.{without_finalizer-lacks}

-- A node class with the generation that the API server counts.
pub record Object (C : Type 0) : Type 0 where
  pub class : NodeClass C
  pub generation : ℕ

module _ {C : Type 0} where
  -- `predicate.GenerationChangedPredicate{}`, of updates
  unfoldable pub generation_changed : Object C → Object C → Bool
  generation_changed old new = not (nat_eq old.generation new.generation)

  -- An update as the API server allows it: a deletion is never taken back, and nobody adds a finalizer to an
  -- object under deletion.
  pub record Changes (old new : Object C) : Type 0 where
    pub deleting :
        is_set old.class.deletion_timestamp ≡ true → is_set new.class.deletion_timestamp ≡ true
    pub no_new :
        is_set old.class.deletion_timestamp ≡ true
        → has_finalizer old.class.finalizers ≡ false
        → has_finalizer new.class.finalizers ≡ false

  -- What the server holds after a call that it has accepted or refused.
  unfoldable pub served : Answers C → Write C → NodeClass C → NodeClass C
  served a (update new) nc = if is_ok a.updated then new else nc
  served a (patch_status old new) nc =
      if is_ok a.status_patched
      then record nc { conditions = new.conditions; status_hash = new.status_hash }
      else nc
  served a (patch_claim old new) nc = nc

  unfoldable pub all_served : Answers C → List (Write C) → NodeClass C → NodeClass C
  unfolding served
  all_served a [] nc = nc
  all_served a (w ∷ ws) nc = all_served a ws (served a w nc)

  -- No run is needed for an object under deletion that the program does not hold back.
  pub record IsSettled (o : Object C) : Type 0 where
    pub deleted : is_set o.class.deletion_timestamp ≡ true
    pub released : has_finalizer o.class.finalizers ≡ false

  module _ (env : Env C) where
    pub data Runs (o : Object C) : Option (Object C) → Result Error Requeue → Type 0 where
      found :
          (a : Answers C) (p : Option (Object C)) (r : Result Error Requeue)
          → a.node_class ≡ ok o.class
          → p ≡ some (record o { class = all_served a (reconcile env a).writes o.class })
          → r ≡ (reconcile env a).result
          → Runs o p r
      unread :
          (a : Answers C) (e : Error) (p : Option (Object C)) (r : Result Error Requeue)
          → a.node_class ≡ err e
          → is_not_found e ≡ false
          → p ≡ some o
          → r ≡ (reconcile env a).result
          → Runs o p r

    abbrev pub watch : Watch (Object C)
    watch = record {
      filter = generation_changed;
      Changes = Changes;
      Runs = Runs;
      IsSettled = IsSettled;
    }

    finish_requeued :
        (a : Answers C) (nc : NodeClass C) → is_requeued (finish env a nc).result ≡ true
    unfolding finish
    finish_requeued a nc =
        ends_requeued (rebaseline_claim_hashes env a nc) (requeue_after (pos (5 * 60 * second)))
          (unfold is_requeued in refl)

    valid_requeued :
        (a : Answers C) (nc : NodeClass C) → is_requeued (report_valid env a nc).result ≡ true
    unfolding report_valid
    valid_requeued a nc =
        let rest = finish_requeued a (ready env nc) in
        elim (Bool-cases (is_unchanged env nc)) [
          | inl e ↦ rw (e, report_valid) rest
          | inr e ↦
              rw (e, report_valid)
                (elim (Result-cases a.status_patched) [
                  | inl (x, q) ↦ rw (q, report_valid) rest
                  | inr (x, q) ↦
                      rw (q, report_valid) (unfold conflict_result is_requeued in ground arith)
                ])
        ]

    invalid_requeued :
        (a : Answers C) (nc : NodeClass C) (m : String)
        → is_requeued (report_invalid env a nc m).result ≡ true
    unfolding report_invalid is_requeued
    invalid_requeued a nc m = elim (Result-cases a.status_patched) [
      | inl (x, q) ↦ rw (q, report_invalid)
      | inr (x, q) ↦ rw (q, report_invalid)
    ]

    -- A live class that has been read is always read again.
    alive_requeued :
        (a : Answers C) (nc : NodeClass C)
        → is_set nc.deletion_timestamp ≡ false
        → is_requeued (reconcile_found env a nc).result ≡ true
    unfolding reconcile_found
    alive_requeued a nc d =
        rw (d, reconcile_found)
          (elim (Bool-cases (has_finalizer nc.finalizers)) [
            | inr f ↦
                rw (f, reconcile_found)
                  (ends_requeued
                    (attempt
                      (update
                        (record nc { finalizers = nc.finalizers ++ (node_class_finalizer ∷ []) }))
                      a.updated)
                    (requeue_after (pos (60 * second))) (unfold is_requeued in refl))
            | inl f ↦
                rw (f, reconcile_found)
                  (elim (Option-cases (validate_spec nc.spec)) [
                    | inl v ↦ rw (v, reconcile_found) (valid_requeued a nc)
                    | inr (x, v) ↦ rw (v, reconcile_found) (invalid_requeued a nc x)
                  ])
          ])

    deletion_settles :
        (a : Answers C) (o : Object C)
        → is_set o.class.deletion_timestamp ≡ true
        → is_requeued (handle_deletion env a o.class).result ≡ false
        → IsSettled
            (record o { class = all_served a (handle_deletion env a o.class).writes o.class })
    unfolding handle_deletion all_served is_requeued
    deletion_settles a o d h = elim (Bool-cases (has_finalizer o.class.finalizers)) [
      | inr f ↦ rw (f, handle_deletion) (record { deleted = d; released = f })
      | inl f ↦ elim (Result-cases a.updated) [
        | inl (x, q) ↦
            rw (f, q, handle_deletion)
              (record { deleted = d; released = without_finalizer-lacks o.class.finalizers })
        | inr (x, q) ↦ let k = rw (f, q, handle_deletion) at h in cc
      ]
    ]

    found_settles :
        (a : Answers C) (o : Object C)
        → a.node_class ≡ ok o.class
        → is_requeued (reconcile env a).result ≡ false
        → IsSettled (record o { class = all_served a (reconcile env a).writes o.class })
    unfolding reconcile all_served
    found_settles a o e h =
        let k = rw (e, reconcile) at h in
        rw (e, reconcile)
          (elim (Bool-cases (is_set o.class.deletion_timestamp)) [
            | inl d ↦
                unfold reconcile_found in
                let l = rw (d, reconcile_found) at k in
                rw (d, reconcile_found) (deletion_settles a o d l)
            | inr d ↦ let l = alive_requeued a o.class d in cc
          ])

    run_settles :
        (o p : Object C) (q : Option (Object C)) (r : Result Error Requeue)
        → Runs o q r
        → is_requeued r ≡ false
        → q ≡ some p
        → IsSettled p
    run_settles o p q r (found a _ _ e f g) h k =
        let after = record o { class = all_served a (reconcile env a).writes o.class } in
        subst IsSettled (some-injective after p (sym f ∙ k))
          (found_settles a o e (ap is_requeued (sym g) ∙ h))
    run_settles o p q r (unread a x _ _ e n f g) h k =
        let retried : is_requeued (reconcile env a).result ≡ true =
          unfold reconcile is_requeued in rw (e, n, reconcile) in
        absurd (false≢true (sym h ∙ ap is_requeued g ∙ retried))

    watch-IsAttentive : IsAttentive watch
    unfolding generation_changed
    watch-IsAttentive = record {
      done = run_settles;
      still = λ o p c f settled. record {
        deleted = c.deleting settled.deleted;
        released = c.no_new settled.deleted settled.released;
      };
    }

    -- Whatever happens to a node class from when it is in the queue, through creations, updates that the API server
    -- allows, of which the filter holds back those of the same generation, removals, runs with any answers to their
    -- calls, and restarts: it is in the queue, or it is under deletion and without the program's finalizer.
    pub class_never_lost :
        (s t : Place (Object C)) (o : Object C)
        → Reach watch s t
        → s.queued ≡ true
        → t.object ≡ some o
        → (t.queued ≡ true) ⊎ IsSettled o
    class_never_lost s t o r q e = Reach-Attended watch watch-IsAttentive s t r (λ x k. inl q) o e
