-- ===== src/Ttl/Divergence.antt =====
-- Where the instance-type test of the TTL controller turns away pods that Kubernetes would place.

use karpenter_provider_upclo.Base.{
  String, ◌≡◌, ◌≢◌, ◌⊎◌, inl, inr, true, false, eq_iff, List, [], ◌∷◌, some, All, Any, here, there,
  Any-map, Bool-cases, arith,
}
use karpenter_provider_upclo.Api.{label_instance_type}
use karpenter_provider_upclo.Kube.{Expression, Term, Pod}
use karpenter_provider_upclo.Ttl.{has_value, required_terms, pod_fits_instance_type}
use karpenter_provider_upclo.Ttl.Scan.{IsRead, Accepts}
use karpenter_provider_upclo.Ttl.Affinity.{Names, pod_fits_instance_type_iff}

-- The meaning that Kubernetes gives an expression on a node whose instance type is the plan.
pub data Matches (plan : String) (e : Expression) : Type 0 where
  other_key : e.key ≢ label_instance_type → Matches plan e
  is_in : e.operator ≡ "In" → has_value plan e.values ≡ true → Matches plan e
  not_in : e.operator ≡ "NotIn" → has_value plan e.values ≡ false → Matches plan e
  exists : e.operator ≡ "Exists" → Matches plan e

rejected :
    (pod : Pod) (plan : String) (terms : List Term)
    → required_terms pod ≡ some terms
    → Any Names terms
    → ¬ (Any (Accepts plan) terms)
    → pod_fits_instance_type pod plan ≡ false
rejected pod plan terms e named n = elim (Bool-cases (pod_fits_instance_type pod plan)) [
  | inr f ↦ f
  | inl t ↦ absurd (contradiction (((pod_fits_instance_type_iff pod plan).0 t).affinity terms e))
]
  where
    contradiction : (Any (Accepts plan) terms) ⊎ ¬ (Any Names terms) → ⊥
    contradiction (inl a) = n a
    contradiction (inr u) = u named

not-IsRead : (e : Expression) → (e.key ≡ label_instance_type → e.operator ≡ "NotIn") → ¬ (IsRead e)
not-IsRead e only r =
    ground (arith, only r.key, r.operator, eq_iff "NotIn" "In", eq_iff "NotIn" "Exists")

none-IsRead :
    (es : List Expression)
    → All (λ (e : Expression). e.key ≡ label_instance_type → e.operator ≡ "NotIn") es
    → ¬ (Any IsRead es)
none-IsRead _ h (here {x = e} {xs = es} r) = not-IsRead e h.0 r
none-IsRead _ h (there {x = e} {xs = es} m) = none-IsRead es h.1 m

-- A pod whose one required term excludes instance types by NotIn alone is turned away, also where
-- Kubernetes would place it: its expressions all match the node's plan.
pub not_in_turned_away :
    (pod : Pod) (plan : String) (term : Term)
    → required_terms pod ≡ some (term ∷ [])
    → Names term
    → All (λ (e : Expression). e.key ≡ label_instance_type → e.operator ≡ "NotIn") term.expressions
    → All (Matches plan) term.expressions
    → pod_fits_instance_type pod plan ≡ false
not_in_turned_away pod plan term e named only matches =
    rejected pod plan (term ∷ []) e (here named) no_term
  where
    no_term : ¬ (Any (Accepts plan) (term ∷ []))
    no_term (here a) = none-IsRead term.expressions only a.constrains
    no_term (there m) = elim m [ ]

-- A pod with a required term that does not mention the instance type, which Kubernetes would let
-- decide alone, is turned away as soon as another term mentions it and is not accepted.
pub free_term_turned_away :
    (pod : Pod) (plan : String) (free other : Term)
    → required_terms pod ≡ some (free ∷ other ∷ [])
    → ¬ (Names free)
    → Names other
    → ¬ (Accepts plan other)
    → pod_fits_instance_type pod plan ≡ false
free_term_turned_away pod plan free other e unnamed named n =
    rejected pod plan (free ∷ other ∷ []) e (there (here named)) no_term
  where
    no_term : ¬ (Any (Accepts plan) (free ∷ other ∷ []))
    no_term (here a) = unnamed (Any-map (λ x r. r.key) a.constrains)
    no_term (there (here a)) = n a
    no_term (there (there m)) = elim m [ ]
