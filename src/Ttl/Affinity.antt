-- ===== src/Ttl/Affinity.antt =====
-- The instance-type test of the TTL controller: what it asks of a pod.

use karpenter_provider_upclo.Base.{
  String, ◌≡◌, refl, ◌↔◌, ◌⊎◌, inl, inr, true, false, eq_iff, List, Option, none, some, Any, any,
  Any-map, any_sound, any_complete, Bool-cases, lookup, arith,
}
use karpenter_provider_upclo.Api.{label_instance_type}
use karpenter_provider_upclo.Kube.{Expression, Term, Pod}
use karpenter_provider_upclo.Ttl.{
  scan_terms, names_instance_type, has_constraining_term, required_terms, affinity_allows,
  selector_rejects, pod_fits_instance_type,
}
use karpenter_provider_upclo.Ttl.Scan.{Accepts, scan_terms_sound, scan_terms_complete}

-- Some expression of the term names the instance type, by any operator.
abbrev pub Names : Term → Type 0
Names term = Any (λ (e : Expression). e.key ≡ label_instance_type) term.expressions

pub Names-iff : (term : Term) → (names_instance_type term ≡ true) ↔ Names term
unfolding names_instance_type
Names-iff term = (
  λ h. Any-map (λ e p. (eq_iff e.key label_instance_type).0 p) (any_sound _ term.expressions h),
  λ m. any_complete _ term.expressions (Any-map (λ e p. (eq_iff e.key label_instance_type).1 p) m),
)

-- What `podFitsInstanceType` asks of the pod.
pub record Fits (pod : Pod) (plan : String) : Type 0 where
  pub selector : (v : String) → lookup label_instance_type pod.node_selector ≡ some v → v ≡ plan
  pub affinity :
      (terms : List Term)
      → required_terms pod ≡ some terms
      → (Any (Accepts plan) terms) ⊎ ¬ (Any Names terms)

pub allows_iff :
    (plan : String) (terms : List Term)
    → (affinity_allows plan (some terms) ≡ true)
      ↔ ((Any (Accepts plan) terms) ⊎ ¬ (Any Names terms))
unfolding affinity_allows has_constraining_term
allows_iff plan terms = (sound, complete)
  where
    named : Any Names terms → any names_instance_type terms ≡ true
    named m = any_complete _ terms (Any-map (λ t n. (Names-iff t).1 n) m)

    sound :
        affinity_allows plan (some terms) ≡ true → (Any (Accepts plan) terms) ⊎ ¬ (Any Names terms)
    sound h = elim (Bool-cases (scan_terms plan terms)) [
      | inl s ↦ inl (scan_terms_sound plan terms s)
      | inr s ↦ inr (λ m. ground (arith, named m))
    ]

    complete :
        (Any (Accepts plan) terms) ⊎ ¬ (Any Names terms) → affinity_allows plan (some terms) ≡ true
    complete (inl m) = ground (arith, scan_terms_complete plan terms m)
    complete (inr n) = elim (Bool-cases (any names_instance_type terms)) [
      | inl s ↦ absurd (n (Any-map (λ t e. (Names-iff t).0 e) (any_sound _ terms s)))
      | inr s ↦ ground arith
    ]

-- `podFitsInstanceType` returns true exactly when the node selector, if it names the instance type,
-- names this plan, and the required node affinity, if there is one, has a term that names the
-- instance type by In or Exists with the plan in each In, or has no expression about it at all.
pub pod_fits_instance_type_iff :
    (pod : Pod) (plan : String) → (pod_fits_instance_type pod plan ≡ true) ↔ Fits pod plan
unfolding pod_fits_instance_type
pod_fits_instance_type_iff pod plan = (sound, complete)
  where
    sound : pod_fits_instance_type pod plan ≡ true → Fits pod plan
    sound h = record {
      selector = λ v e. ground (arith, eq_iff v plan);
      affinity = λ terms e. (allows_iff plan terms).0 (ground arith);
    }

    complete : Fits pod plan → pod_fits_instance_type pod plan ≡ true
    complete f = ground (
      arith,
      selects (lookup label_instance_type pod.node_selector) f.selector,
      allows (required_terms pod) f.affinity,
    )
      where
        selects :
            (o : Option String)
            → ((v : String) → o ≡ some v → v ≡ plan)
            → selector_rejects plan o ≡ false
        selects none h = refl
        selects (some v) h = ground (arith, h v refl, eq_iff v plan)

        allows :
            (o : Option (List Term))
            → ((terms : List Term)
                → o ≡ some terms
                → (Any (Accepts plan) terms) ⊎ ¬ (Any Names terms))
            → affinity_allows plan o ≡ true
        allows none h = refl
        allows (some terms) h = (allows_iff plan terms).1 (h terms refl)
