-- ===== src/Ttl/Queued.antt =====
-- A NodeClaim in the work queue of the TTL controller: it is created, gets a node, and is deleted.
use karpenter_provider_upclo.Base.{none, some, ◌≡◌, refl, true, ◌||◌, [], ◌∷◌, ◌⊎◌, arith, lookup}
use karpenter_provider_upclo.Base.Int.{pos, ◌-ℤ◌, saturate64}
use karpenter_provider_upclo.Kube.{NodeClaim, is_set}
use karpenter_provider_upclo.Kube.Queue
use karpenter_provider_upclo.Kube.Queue.{Place, is_requeued}
use karpenter_provider_upclo.Ttl.{Answers, reconcile, elapsed, ttl_start}
use karpenter_provider_upclo.Ttl.Watched.{found, all_served, claim_never_lost}
use karpenter_provider_upclo.Ttl.Sample.{daemon, claim_1, controller_1, answers}

abbrev homeless : NodeClaim
homeless = record claim_1 { node_name = "" }

abbrev idle_answers : Answers
idle_answers = answers (daemon ∷ [])

abbrev left : NodeClaim
left = all_served idle_answers (pos 5000) (reconcile controller_1 idle_answers).writes claim_1

abbrev awaited : Place NodeClaim
awaited = record { object = none; queued = true }

abbrev created : Place NodeClaim
created = record { object = some homeless; queued = true }

abbrev housed : Place NodeClaim
housed = record { object = some claim_1; queued = true || true }

abbrev after : Place NodeClaim
after = record {
  object = some left;
  queued = is_requeued (reconcile controller_1 idle_answers).result;
}

claim_never_lost_example :
    (after.queued ≡ true) ⊎ ((is_set left.deletion_timestamp ≡ true) ⊎ (left.node_name ≡ ""))
unfolding elapsed ttl_start saturate64 ◌-ℤ◌ lookup
claim_never_lost_example =
    claim_never_lost controller_1 awaited after left (omega arith)
      (Queue.later awaited housed after
        (Queue.later awaited created housed
          (Queue.later awaited awaited created (Queue.start awaited)
            (Queue.create awaited created homeless refl refl))
          (Queue.change created housed homeless claim_1 refl tt refl))
        (Queue.run housed after claim_1 (some left) (reconcile controller_1 idle_answers).result
          refl refl
          (found idle_answers (pos 5000) (some left) (reconcile controller_1 idle_answers).result
            refl (omega arith) refl refl)
          refl))
      refl refl
