-- ===== src/Cloud/Asked.antt =====
-- What a Create asks UpCloud for, and what it returns, written out from the claim and the node class.

use karpenter_provider_upclo.Base.{
  String, ◌≡◌, ◌≢◌, refl, ◌∙◌, ◌⊎◌, inl, inr, Option, none, some, List, [], ◌∷◌, Bool, ◌==◌, eq_iff,
  Bool-cases, if◌then◌else◌, arith,
}
use karpenter_provider_upclo.Base.Int.{pos, ltb_ℤ, ◌≤ℤ◌, ◌<ℤ◌}
use karpenter_provider_upclo.Kube.{NodeClaim, Requirement}
use karpenter_provider_upclo.Api.Spec.{Spec, StorageSpec}
use karpenter_provider_upclo.InstanceTypes.{Plan}
use karpenter_provider_upclo.Instance.{StorageDevice, with_storage}
use karpenter_provider_upclo.Cloud.Claims.{instance_type_requirement, chosen_plan, chosen_storage}

-- The first of `values`, or `otherwise` where there is none.
abbrev pub IsFirstOr : List String → String → String → Type 0
IsFirstOr [] otherwise plan = plan ≡ otherwise
IsFirstOr (v ∷ vs) otherwise plan = plan ≡ v

-- The plan is the first value of the first requirement on the instance type, or else the one of the class.
abbrev pub IsPlanOf : List Requirement → String → String → Type 0
IsPlanOf [] otherwise plan = plan ≡ otherwise
IsPlanOf (r ∷ rs) otherwise plan =
    ((r.key ≡ "node.kubernetes.io/instance-type") × IsFirstOr r.values otherwise plan)
    ⊎ ((r.key ≢ "node.kubernetes.io/instance-type") × IsPlanOf rs otherwise plan)

-- The cached plan comes without storage of its own.
abbrev pub HasNoStorage : Option Plan → Type 0
HasNoStorage cached =
    (cached ≡ none) ⊎ ((plan : Plan) × (cached ≡ some plan) × (plan.storage_size ≤ℤ pos 0))

-- The size, tier and encryption of the root device: a plan's own storage wins over the one of the node class,
-- but for the encryption; a size that is not positive is left unset.
pub data Sized (cached : Option Plan) (wanted : Option StorageSpec) (d : StorageDevice)
    : Type 0 where
  bundled :
      (plan : Plan)
      → cached ≡ some plan
      → pos 0 <ℤ plan.storage_size
      → d.size ≡ plan.storage_size
      → d.tier ≡ ""
      → d.encrypted ≡ (elim wanted [ none ↦ none | some s ↦ s.encrypted ])
      → Sized cached wanted d
  unset :
      HasNoStorage cached
      → wanted ≡ none
      → d.size ≡ pos 0
      → d.tier ≡ ""
      → d.encrypted ≡ none
      → Sized cached wanted d
  own :
      (s : StorageSpec)
      → HasNoStorage cached
      → wanted ≡ some s
      → d.size ≡ (if ltb_ℤ (pos 0) s.size then s.size else pos 0)
      → d.tier ≡ s.tier
      → d.encrypted ≡ s.encrypted
      → Sized cached wanted d

first-IsPlanOf :
    (spec : Spec) (rs : List Requirement)
    → IsPlanOf rs spec.plan (elim (instance_type_requirement rs) [
      | none ↦ spec.plan
      | some r ↦ elim r.values [ [] ↦ spec.plan | plan ∷ vs ↦ plan ]
    ])
unfolding instance_type_requirement
first-IsPlanOf spec [] = refl
first-IsPlanOf spec (r ∷ rs) = elim (Bool-cases (r.key == "node.kubernetes.io/instance-type")) [
  | inl e ↦ rw e (inl ((eq_iff r.key "node.kubernetes.io/instance-type").0 e, first_of r.values))
  | inr e ↦ rw e (
      inr (
        λ k. ground (arith, e, k, eq_iff r.key "node.kubernetes.io/instance-type"),
        first-IsPlanOf spec rs,
      ))
]
  where
    first_of :
        (vs : List String) → IsFirstOr vs spec.plan (elim vs [ [] ↦ spec.plan | plan ∷ ws ↦ plan ])
    first_of [] = refl
    first_of (v ∷ vs) = refl

pub chosen_plan-IsPlanOf :
    (spec : Spec) (claim : NodeClaim)
    → IsPlanOf claim.requirements spec.plan (chosen_plan spec claim)
unfolding chosen_plan
chosen_plan-IsPlanOf spec claim = first-IsPlanOf spec claim.requirements

module _ (d : StorageDevice) (size : d.size ≡ pos 0) (tier : d.tier ≡ "")
    (plain : d.encrypted ≡ none) where
  wanted-Sized :
      (cached : Option Plan) (wanted : Option StorageSpec)
      → HasNoStorage cached
      → Sized cached wanted (with_storage wanted d)
  unfolding with_storage
  wanted-Sized cached none h = unset h refl size tier plain
  wanted-Sized cached (some s) h =
      own s h refl (ground (arith, size)) (ground (arith, tier, eq_iff s.tier ""))
        (encryption s.encrypted)
    where
      encryption : (o : Option Bool) → (elim o [ none ↦ d.encrypted | some b ↦ some b ]) ≡ o
      encryption none = plain
      encryption (some b) = refl

  bundled_encryption :
      (wanted : Option StorageSpec) (o : Option Bool)
      → o ≡ (elim wanted [ none ↦ none | some s ↦ s.encrypted ])
      → (elim o [ none ↦ d.encrypted | some b ↦ some b ])
        ≡ (elim wanted [ none ↦ none | some s ↦ s.encrypted ])
  bundled_encryption wanted none e = plain ∙ e
  bundled_encryption wanted (some b) e = e

  pub chosen-Sized :
      (cached : Option Plan) (wanted : Option StorageSpec)
      → Sized cached wanted (with_storage (chosen_storage cached wanted) d)
  unfolding chosen_storage with_storage
  chosen-Sized none wanted = wanted-Sized none wanted (inl refl)
  chosen-Sized (some plan) wanted = elim (Bool-cases (ltb_ℤ (pos 0) plan.storage_size)) [
    | inr e ↦ rw e (wanted-Sized (some plan) wanted (inr (plan, refl, ground (arith, e))))
    | inl e ↦
        rw (e, e)
          (bundled plan refl (ground (arith, e)) refl (ground (arith, tier, eq_iff "" ""))
            (bundled_encryption wanted _ refl))
  ]

-- The storage settings leave the rest of the device alone.
pub with_storage-same :
    (o : Option StorageSpec) (d : StorageDevice)
    → ((with_storage o d).action ≡ d.action)
      × ((with_storage o d).storage ≡ d.storage)
      × ((with_storage o d).title ≡ d.title)
unfolding with_storage
with_storage-same none d = (refl, refl, refl)
with_storage-same (some s) d = (refl, refl, refl)
