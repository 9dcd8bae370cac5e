-- ===== src/InstanceTypes/Capacity.antt =====
-- The capacities of instance types.
use karpenter_provider_upclo.Base.{
  String, ℕ, ◌*◌, ◌≤◌, ◌≡◌, refl, inl, inr, Dict, insert, All, [], ◌∷◌, leb, if◌then◌else◌, arith,
  Bool-cases, ◌==◌,
}
use karpenter_provider_upclo.Base.Int.{
  ℤ, pos, negsuc, pos_part, neg_part, ltb_ℤ, max_int64, times, to_int64, IsInt64,
}
use karpenter_provider_upclo.Api.{resource_nvidia_gpu}
use karpenter_provider_upclo.InstanceTypes.{
  Plan, at_least_zero, memory_bytes, gpu_resources, resources,
}

abbrev pub min : ℕ → ℕ → ℕ
min a b = if leb a b then a else b

-- The memory of an instance type in bytes is the plan's MiB times 2^20, stopped at the largest
-- int64; a negative plan counts as zero.
pub memory_bytes_lem :
    (m : ℤ) → memory_bytes (at_least_zero m) ≡ pos (min (pos_part m * 1048576) max_int64)
unfolding memory_bytes at_least_zero to_int64 times
memory_bytes_lem (pos n) = ground arith
memory_bytes_lem (negsuc n) = ground arith

abbrev pub IsCapacity : ℤ → Type 0
IsCapacity v = (neg_part v ≡ 0) × (pos_part v ≤ max_int64)

pub at_least_zero-IsCapacity : (m : ℤ) → IsInt64 m → IsCapacity (at_least_zero m)
unfolding at_least_zero
at_least_zero-IsCapacity (pos n) h = ground arith
at_least_zero-IsCapacity (negsuc n) h = ground arith

memory_bytes-IsCapacity : (m : ℤ) → IsCapacity (memory_bytes (at_least_zero m))
memory_bytes-IsCapacity m = ground (arith, memory_bytes_lem m)

insert-IsCapacity :
    (k : String) (v : ℤ) (m : Dict ℤ)
    → IsCapacity v
    → All (λ e. IsCapacity e.1) m
    → All (λ e. IsCapacity e.1) (insert k v m)
unfolding insert
insert-IsCapacity k v [] h a = (h, tt)
insert-IsCapacity k v ((j, w) ∷ m) h a = elim (Bool-cases (j == k)) [
  | inl e ↦ rw e (h, a.1)
  | inr e ↦ rw e (a.0, insert-IsCapacity k v m h a.1)
]

with_gpu :
    (gpus : ℤ)
    → IsCapacity gpus
    → (base : Dict ℤ) → All (λ e. IsCapacity e.1) base
    → All (λ e. IsCapacity e.1) (gpu_resources gpus base)
unfolding gpu_resources
with_gpu gpus g base a = elim (Bool-cases (ltb_ℤ (pos 0) gpus)) [
  | inl e ↦ rw e (insert-IsCapacity resource_nvidia_gpu gpus base g a)
  | inr e ↦ rw e a
]

-- Whatever int64 numbers UpCloud gives for a plan, each capacity of its instance type is an int64 that is
-- not negative.
pub resources-IsCapacity :
    (plan : Plan)
    → IsInt64 plan.core_number
    → IsInt64 plan.gpu_amount
    → All (λ e. IsCapacity e.1) (resources plan)
unfolding resources gpu_resources
resources-IsCapacity plan c g =
    with_gpu (at_least_zero plan.gpu_amount) (at_least_zero-IsCapacity plan.gpu_amount g) _ (
      at_least_zero-IsCapacity plan.core_number c,
      (memory_bytes-IsCapacity plan.memory_amount, ((refl, ground arith), tt)),
    )
