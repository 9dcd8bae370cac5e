-- ===== src/Ttl/Tolerations.antt =====
-- The toleration test of the TTL controller against the semantics of Kubernetes.
use mathlib.Core.Bool.{false≢true}
use karpenter_provider_upclo.Base.{
  ◌≡◌, refl, ◌↔◌, ◌⊎◌, inl, inr, true, false, ◌==◌, eq_iff, eq-false_of_ne, List, [], ◌∷◌, All, Any,
  here, there, Bool-cases, arith,
}
use karpenter_provider_upclo.Kube.{Taint, Toleration, Pod}
use karpenter_provider_upclo.Ttl.{toleration_matches, pod_tolerates_node_taints}

-- An operator that the API admits.
pub data IsOperator (t : Toleration) : Type 0 where
  unset : t.operator ≡ "" → IsOperator t
  equal : t.operator ≡ "Equal" → IsOperator t
  exists : t.operator ≡ "Exists" → IsOperator t

-- What a toleration says of a taint, as the documentation of Kubernetes has it.
pub record Tolerates (t : Toleration) (taint : Taint) : Type 0 where
  pub key : (t.key ≡ "") ⊎ (t.key ≡ taint.key)
  pub effect : (t.effect ≡ "") ⊎ (t.effect ≡ taint.effect)
  pub covers :
      (t.operator ≡ "Exists")
      ⊎ (((t.operator ≡ "") ⊎ (t.operator ≡ "Equal")) × (t.value ≡ taint.value))

-- A taint that keeps pods away.
pub data IsHard (taint : Taint) : Type 0 where
  no_schedule : taint.effect ≡ "NoSchedule" → IsHard taint
  no_execute : taint.effect ≡ "NoExecute" → IsHard taint

module _ (taint : Taint) where
  matches-head :
      (t : Toleration) (ts : List Toleration)
      → Tolerates t taint
      → toleration_matches taint (t ∷ ts) ≡ true
  unfolding toleration_matches
  matches-head t ts h = ground (
    arith,
    h.key,
    h.effect,
    h.covers,
    eq_iff t.key "",
    eq_iff t.key taint.key,
    eq_iff t.effect "",
    eq_iff t.effect taint.effect,
    eq_iff t.operator "Exists",
    eq_iff t.value taint.value,
  )

  matches-tail :
      (t : Toleration) (ts : List Toleration)
      → toleration_matches taint ts ≡ true
      → toleration_matches taint (t ∷ ts) ≡ true
  unfolding toleration_matches
  matches-tail t ts h = ground arith

  covers_of :
      (t : Toleration)
      → IsOperator t
      → (t.operator ≡ "Exists") ⊎ (t.value ≡ taint.value)
      → (t.operator ≡ "Exists")
        ⊎ (((t.operator ≡ "") ⊎ (t.operator ≡ "Equal")) × (t.value ≡ taint.value))
  covers_of t op (inl e) = inl e
  covers_of t (unset u) (inr v) = inr (inl u, v)
  covers_of t (equal u) (inr v) = inr (inr u, v)
  covers_of t (exists u) (inr v) = inl u

  matches-inv :
      (t : Toleration) (ts : List Toleration)
      → IsOperator t
      → toleration_matches taint (t ∷ ts) ≡ true
      → toleration_matches taint ts ≡ false
      → Tolerates t taint
  unfolding toleration_matches
  matches-inv t ts op h none_later = record {
    key = ground (arith, eq_iff t.key "", eq_iff t.key taint.key);
    effect = ground (arith, eq_iff t.effect "", eq_iff t.effect taint.effect);
    covers =
        covers_of t op (ground (arith, eq_iff t.operator "Exists", eq_iff t.value taint.value));
  }

  -- A toleration of the list tolerates the taint, exactly when the loop says so.
  toleration_matches_iff :
      (ts : List Toleration)
      → All IsOperator ts
      → (toleration_matches taint ts ≡ true) ↔ Any (λ t. Tolerates t taint) ts
  unfolding toleration_matches
  toleration_matches_iff ts ops = (sound ts ops, complete ts)
    where
      sound :
          (ts : List Toleration)
          → All IsOperator ts
          → toleration_matches taint ts ≡ true
          → Any (λ t. Tolerates t taint) ts
      sound [] ops h = absurd (false≢true h)
      sound (t ∷ ts) ops h = elim (Bool-cases (toleration_matches taint ts)) [
        | inl later ↦ there (sound ts ops.1 later)
        | inr none_later ↦ here (matches-inv t ts ops.0 h none_later)
      ]

      complete :
          (ts : List Toleration)
          → Any (λ t. Tolerates t taint) ts
          → toleration_matches taint ts ≡ true
      complete _ (here {x = t} {xs = ts} p) = matches-head t ts p
      complete _ (there {x = t} {xs = ts} m) = matches-tail t ts (complete ts m)

module _ (pod : Pod) where
  abbrev pub Covered : Taint → Type 0
  Covered taint = IsHard taint → Any (λ t. Tolerates t taint) pod.tolerations

  is_hard :
      (taint : Taint) → (taint.effect ≡ "NoSchedule") ⊎ (taint.effect ≡ "NoExecute") → IsHard taint
  is_hard taint (inl e) = no_schedule e
  is_hard taint (inr e) = no_execute e

  tolerates-head :
      (taint : Taint) (taints : List Taint)
      → pod_tolerates_node_taints pod (taint ∷ taints) ≡ true
      → (taint.effect ≡ "NoSchedule") ⊎ (taint.effect ≡ "NoExecute")
      → toleration_matches taint pod.tolerations ≡ true
  unfolding pod_tolerates_node_taints
  tolerates-head taint taints h (inl e) = ground (arith, eq_iff taint.effect "NoSchedule")
  tolerates-head taint taints h (inr e) = ground (arith, eq_iff taint.effect "NoExecute")

  tolerates-tail :
      (taint : Taint) (taints : List Taint)
      → pod_tolerates_node_taints pod (taint ∷ taints) ≡ true
      → pod_tolerates_node_taints pod taints ≡ true
  unfolding pod_tolerates_node_taints
  tolerates-tail taint taints h = ground arith

  tolerates-soft :
      (taint : Taint) (taints : List Taint)
      → ¬ ((taint.effect ≡ "NoSchedule") ⊎ (taint.effect ≡ "NoExecute"))
      → pod_tolerates_node_taints pod taints ≡ true
      → pod_tolerates_node_taints pod (taint ∷ taints) ≡ true
  unfolding pod_tolerates_node_taints
  tolerates-soft taint taints soft h =
      rw
        (
          eq-false_of_ne taint.effect "NoSchedule" (λ e. soft (inl e)),
          eq-false_of_ne taint.effect "NoExecute" (λ e. soft (inr e)),
        )
        h

  tolerates-cons :
      (taint : Taint) (taints : List Taint)
      → toleration_matches taint pod.tolerations ≡ true
      → pod_tolerates_node_taints pod taints ≡ true
      → pod_tolerates_node_taints pod (taint ∷ taints) ≡ true
  unfolding pod_tolerates_node_taints
  tolerates-cons taint taints m h = ground arith

  IsHard-cases :
      (taint : Taint)
      → (IsHard taint) ⊎ ¬ ((taint.effect ≡ "NoSchedule") ⊎ (taint.effect ≡ "NoExecute"))
  IsHard-cases taint = elim (Bool-cases (taint.effect == "NoSchedule")) [
    | inl e ↦ inl (no_schedule ((eq_iff taint.effect "NoSchedule").0 e))
    | inr ne ↦ elim (Bool-cases (taint.effect == "NoExecute")) [
      | inl e ↦ inl (no_execute ((eq_iff taint.effect "NoExecute").0 e))
      | inr ne' ↦ inr (λ h.
          ground (arith, h, eq_iff taint.effect "NoSchedule", eq_iff taint.effect "NoExecute"))
    ]
  ]

  effect_of :
      {taint : Taint} → IsHard taint → (taint.effect ≡ "NoSchedule") ⊎ (taint.effect ≡ "NoExecute")
  effect_of (no_schedule e) = inl e
  effect_of (no_execute e) = inr e

  tolerates_sound :
      (taints : List Taint)
      → All IsOperator pod.tolerations
      → pod_tolerates_node_taints pod taints ≡ true
      → All Covered taints
  tolerates_sound [] ops h = tt
  tolerates_sound (taint ∷ taints) ops h = (
    λ hard.
        (toleration_matches_iff taint pod.tolerations ops).0
          (tolerates-head taint taints h (effect_of hard)),
    tolerates_sound taints ops (tolerates-tail taint taints h),
  )

  tolerates_complete :
      (taints : List Taint)
      → All IsOperator pod.tolerations
      → All Covered taints
      → pod_tolerates_node_taints pod taints ≡ true
  unfolding pod_tolerates_node_taints
  tolerates_complete [] ops h = refl
  tolerates_complete (taint ∷ taints) ops h = elim (IsHard-cases taint) [
    | inl hard ↦
        tolerates-cons taint taints
          ((toleration_matches_iff taint pod.tolerations ops).1 (h.0 hard))
          (tolerates_complete taints ops h.1)
    | inr soft ↦ tolerates-soft taint taints soft (tolerates_complete taints ops h.1)
  ]

-- For a pod whose tolerations have operators that the API admits, `podToleratesNodeTaints` returns
-- true exactly when each NoSchedule or NoExecute taint of the node is tolerated, by the semantics
-- of Kubernetes, by one of the pod's tolerations.
pub pod_tolerates_node_taints_iff :
    (pod : Pod) (taints : List Taint)
    → All IsOperator pod.tolerations
    → (pod_tolerates_node_taints pod taints ≡ true) ↔ All (Covered pod) taints
pod_tolerates_node_taints_iff pod taints ops =
    (tolerates_sound pod taints ops, tolerates_complete pod taints ops)
