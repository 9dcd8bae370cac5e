-- ===== src/NodeClass/Queued.antt =====
-- A node class in the work queue, from its creation to its release.
use karpenter_provider_upclo.Base.{none, some, ◌≡◌, refl, Bool, true, ◌||◌, [], ◌⊎◌}
use karpenter_provider_upclo.Kube.Queue
use mathlib.Core.Bool.{false≢true}
use karpenter_provider_upclo.Kube.Queue.{Place, is_requeued}
use karpenter_provider_upclo.NodeClass.{Answers, reconcile}
use karpenter_provider_upclo.NodeClass.Watched.{
  Object, IsSettled, found, all_served, generation_changed, class_never_lost,
}
use karpenter_provider_upclo.NodeClass.Sample.{env, class_1, dying_class, answers}

-- A class is created, its deletion begins, and a run takes the finalizer out.
abbrev alive_object : Object Bool
alive_object = record { class = class_1; generation = 1 }

abbrev dying_object : Object Bool
dying_object = record { class = dying_class; generation = 2 }

abbrev deletion_answers : Answers Bool
deletion_answers = answers dying_class []

abbrev released_object : Object Bool
released_object = record dying_object {
  class = all_served deletion_answers (reconcile env deletion_answers).writes dying_class;
}

abbrev awaited : Place (Object Bool)
awaited = record { object = none; queued = true }

abbrev created : Place (Object Bool)
created = record { object = some alive_object; queued = true }

abbrev condemned : Place (Object Bool)
condemned = record {
  object = some dying_object;
  queued = generation_changed alive_object dying_object || true;
}

abbrev released : Place (Object Bool)
released = record {
  object = some released_object;
  queued = is_requeued (reconcile env deletion_answers).result;
}

class_never_lost_example : (released.queued ≡ true) ⊎ IsSettled released_object
unfolding generation_changed
class_never_lost_example =
    class_never_lost env awaited released released_object
      (Queue.later awaited condemned released
        (Queue.later awaited created condemned
          (Queue.later awaited awaited created (Queue.start awaited)
            (Queue.create awaited created alive_object refl refl))
          (Queue.change created condemned alive_object dying_object refl
            (record { deleting = λ d. refl; no_new = λ d f. absurd (false≢true d) }) refl))
        (Queue.run condemned released dying_object (some released_object)
          (reconcile env deletion_answers).result refl refl
          (found deletion_answers (some released_object) (reconcile env deletion_answers).result
            refl refl refl)
          refl))
      refl refl
