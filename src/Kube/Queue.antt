-- ===== src/Kube/Queue.antt =====
-- One object and its place in the work queue of controller-runtime: events put it there, and a run takes it out
-- and puts it back if it fails or asks for it, at once or after a delay (a timer counts as a place in the
-- queue). The reads of a run and the events come from the same cache, so a run sees what the events told.
use mathlib.Core.Option.{some-injective}
use karpenter_provider_upclo.Base.{
  Bool, true, false, ◌||◌, Option, none, some, ◌≡◌, refl, sym, subst, ◌⊎◌, inl, inr, Bool-cases,
  Result, ok, err, Result-cases,
}
use karpenter_provider_upclo.Base.Int.{pos, ltb_ℤ}
use karpenter_provider_upclo.Kube.{Error, Requeue}
use karpenter_provider_upclo.Kube.Run.{Run, pure, ◌>>=◌}

-- An error is retried with a delay; `Requeue` and a positive `RequeueAfter` are obeyed.
unfoldable pub is_requeued : Result Error Requeue → Bool
is_requeued (err e) = true
is_requeued (ok r) = r.again || ltb_ℤ (pos 0) r.after

-- A run that ends by asking for another is followed by one, whatever comes before.
pub ends_requeued :
    {W A : Type 0} (m : Run W Error A) (q : Requeue)
    → is_requeued (ok q) ≡ true
    → is_requeued (m >>= λ _. pure q).result ≡ true
unfolding is_requeued
ends_requeued m q h = elim (Result-cases m.result) [ inl (x, e) ↦ rw e h | inr (x, e) ↦ rw e ]

pub record Place (O : Type 0) : Type 0 where
  pub object : Option O
  pub queued : Bool

-- A controller: the filter that its events of updates pass, the updates that others make, its runs with what
-- they read, what is there afterwards and what they return, and the objects that need no run.
pub record Watch (O : Type 0) : Type 1 where
  pub filter : O → O → Bool
  pub Changes : O → O → Type 0
  pub Runs : O → Option O → Result Error Requeue → Type 0
  pub IsSettled : O → Type 0

module _ {O : Type 0} (w : Watch O) where
  pub data Step : Place O → Place O → Type 0 where
    create :
        (s t : Place O) (o : O)
        → s.object ≡ none
        → t ≡ record { object = some o; queued = true }
        → Step s t
    change :
        (s t : Place O) (o p : O)
        → s.object ≡ some o
        → w.Changes o p
        → t ≡ record { object = some p; queued = w.filter o p || s.queued }
        → Step s t
    remove : (s t : Place O) → t ≡ record { object = none; queued = true } → Step s t
    -- A run that finds the object; the events of its own calls, which may put it back as well, are not counted.
    run :
        (s t : Place O) (o : O) (p : Option O) (r : Result Error Requeue)
        → s.object ≡ some o
        → s.queued ≡ true
        → w.Runs o p r
        → t ≡ record { object = p; queued = is_requeued r }
        → Step s t
    -- A run that finds nothing.
    idle :
        (s t : Place O) → s.object ≡ none → t ≡ record { object = none; queued = false } → Step s t
    -- The program starts again, and lists all objects.
    restart : (s t : Place O) → t ≡ record s { queued = true } → Step s t

  pub data Reach : Place O → Place O → Type 0 where
    start : (s : Place O) → Reach s s
    later : (s t u : Place O) → Reach s t → Step t u → Reach s u

  -- What the controller owes: a run that leaves the queue leaves a settled object, and no change that the filter
  -- holds back unsettles one.
  pub record IsAttentive : Type 0 where
    pub done :
        (o p : O) (q : Option O) (r : Result Error Requeue)
        → w.Runs o q r
        → is_requeued r ≡ false
        → q ≡ some p
        → w.IsSettled p
    pub still : (o p : O) → w.Changes o p → w.filter o p ≡ false → w.IsSettled o → w.IsSettled p

  -- The object is in the queue, or needs no run.
  abbrev pub Attended : Place O → Type 0
  Attended s = (o : O) → s.object ≡ some o → (s.queued ≡ true) ⊎ w.IsSettled o

  module _ (duty : IsAttentive) where
    changed-Attended :
        (s : Place O) (o p : O)
        → s.object ≡ some o
        → w.Changes o p
        → Attended s
        → ((w.filter o p || s.queued) ≡ true) ⊎ w.IsSettled p
    changed-Attended s o p e c h = elim (Bool-cases (w.filter o p)) [
      | inl f ↦ inl (rw f)
      | inr f ↦ elim (h o e) [
        | inl q ↦ inl (rw f q)
        | inr settled ↦ inr (duty.still o p c f settled)
      ]
    ]

    Step-Attended : (s t : Place O) → Step s t → Attended s → Attended t
    Step-Attended s t (create _ _ o e f) h = subst Attended (sym f) (λ x k. inl refl)
    Step-Attended s t (remove _ _ f) h = subst Attended (sym f) (λ x k. inl refl)
    Step-Attended s t (restart _ _ f) h = subst Attended (sym f) (λ x k. inl refl)
    Step-Attended s t (idle _ _ e f) h = subst Attended (sym f) (λ x k. absurd (cc))
    Step-Attended s t (change _ _ o p e c f) h = subst Attended (sym f) (λ x k.
        subst (λ y. ((w.filter o p || s.queued) ≡ true) ⊎ w.IsSettled y) (some-injective p x k)
          (changed-Attended s o p e c h))
    Step-Attended s t (run _ _ o p r e q runs f) h = subst Attended (sym f) (λ x k.
        elim (Bool-cases (is_requeued r)) [
          | inl again ↦ inl again
          | inr left ↦ inr (duty.done o x p r runs left k)
        ])

    pub Reach-Attended : (s t : Place O) → Reach s t → Attended s → Attended t
    Reach-Attended s _ (start _) h = h
    Reach-Attended s u (later _ t _ r st) h = Step-Attended t u st (Reach-Attended s t r h)
