-- ===== src/Ttl/Scan.antt =====
-- The first loop of `podFitsInstanceType` over the node affinity, of the TTL controller: what it computes.
use mathlib.Core.Bool.{false≢true}
use karpenter_provider_upclo.Base.{
  String, ◌≡◌, refl, ◌↔◌, ◌⊎◌, inl, inr, Bool, true, false, not, ◌==◌, eq_iff, List, [], ◌∷◌, All,
  Any, here, there, Bool-cases, arith, ◌&&◌, ◌||◌,
}
use karpenter_provider_upclo.Api.{label_instance_type}
use karpenter_provider_upclo.Kube.{Expression, Term}
use karpenter_provider_upclo.Ttl.{has_value, scan_expressions, scan_terms}

-- An expression that the loop reads: In or Exists over the instance type.
pub record IsRead (e : Expression) : Type 0 where
  pub key : e.key ≡ label_instance_type
  pub operator : (e.operator ≡ "In") ⊎ (e.operator ≡ "Exists")

-- An In expression over the instance type has the plan among its values.
abbrev pub Admits : String → Expression → Type 0
Admits plan e = e.key ≡ label_instance_type → e.operator ≡ "In" → has_value plan e.values ≡ true

-- The term names the instance type by In or Exists, and each In has the plan.
pub record Accepts (plan : String) (term : Term) : Type 0 where
  pub constrains : Any IsRead term.expressions
  pub admits : All (Admits plan) term.expressions

abbrev pub accepted : Bool × Bool → Bool
accepted (found, failed) = found && not failed

pub IsRead-cases : (e : Expression) → (IsRead e) ⊎ ¬ (IsRead e)
IsRead-cases e =
    elim (Bool-cases
      ((e.key == label_instance_type) && ((e.operator == "In") || (e.operator == "Exists")))) [
        | inl h ↦ inl (record {
          key = ground (arith, eq_iff e.key label_instance_type);
          operator = ground (arith, eq_iff e.operator "In", eq_iff e.operator "Exists");
        })
        | inr h ↦ inr (λ r. ground (
          arith,
          r.key,
          r.operator,
          eq_iff e.key label_instance_type,
          eq_iff e.operator "In",
          eq_iff e.operator "Exists",
        ))
      ]

module _ (plan : String) where
  pub scan-skip :
      (e : Expression) (es : List Expression) (found : Bool)
      → ¬ (IsRead e)
      → scan_expressions plan (e ∷ es) found ≡ scan_expressions plan es found
  unfolding scan_expressions
  scan-skip e es found h = elim (Bool-cases (e.key == label_instance_type)) [
    | inr k ↦ ground arith
    | inl k ↦ elim (Bool-cases ((e.operator == "In") || (e.operator == "Exists"))) [
      | inr o ↦ ground arith
      | inl o ↦ absurd (
          h (record {
            key = (eq_iff e.key label_instance_type).0 k;
            operator = ground (arith, eq_iff e.operator "In", eq_iff e.operator "Exists");
          }))
    ]
  ]

  pub scan-read :
      (e : Expression) (es : List Expression) (found : Bool)
      → IsRead e
      → accepted (scan_expressions plan (e ∷ es) found) ≡ (
          (not (e.operator == "In") || has_value plan e.values)
          && accepted (scan_expressions plan es true))
  unfolding scan_expressions
  scan-read e es found r = ground (
    arith,
    r.key,
    r.operator,
    eq_iff e.key label_instance_type,
    eq_iff e.operator "In",
    eq_iff e.operator "Exists",
  )

  pub scan-Admits :
      (es : List Expression) (found : Bool)
      → accepted (scan_expressions plan es found) ≡ true
      → All (Admits plan) es
  scan-Admits [] found h = tt
  scan-Admits (e ∷ es) found h = elim (IsRead-cases e) [
    | inl r ↦ (
      λ k o. ground (arith, scan-read e es found r, eq_iff e.operator "In"),
      scan-Admits es true (ground (arith, scan-read e es found r)),
    )
    | inr n ↦ (
      λ k o. absurd (n (record { key = k; operator = inl o })),
      scan-Admits es found (rw (scan-skip e es found n) at h),
    )
  ]

  pub scan_constrains :
      (es : List Expression) (found : Bool)
      → accepted (scan_expressions plan es found) ≡ true
      → (found ≡ true) ⊎ (Any IsRead es)
  unfolding scan_expressions
  scan_constrains [] found h = inl (ground arith)
  scan_constrains (e ∷ es) found h = elim (IsRead-cases e) [
    | inl r ↦ inr (here r)
    | inr n ↦ elim (scan_constrains es found (rw (scan-skip e es found n) at h)) [
      | inl f ↦ inl f
      | inr m ↦ inr (there m)
    ]
  ]

  pub scan_complete :
      (es : List Expression) (found : Bool)
      → All (Admits plan) es
      → (found ≡ true) ⊎ (Any IsRead es)
      → accepted (scan_expressions plan es found) ≡ true
  unfolding scan_expressions
  scan_complete [] found h (inl f) = ground arith
  scan_complete [] found h (inr m) = absurd (elim m [ ])
  scan_complete (e ∷ es) found h some_read = elim (IsRead-cases e) [
    | inl r ↦
        rw (scan-read e es found r)
          (ground (arith, h.0 r.key, eq_iff e.operator "In", scan_complete es true h.1 (inl refl)))
    | inr n ↦ rw (scan-skip e es found n) (scan_complete es found h.1 (later n some_read))
  ]
    where
      later :
          ¬ (IsRead e) → (found ≡ true) ⊎ (Any IsRead (e ∷ es)) → (found ≡ true) ⊎ (Any IsRead es)
      later n (inl f) = inl f
      later n (inr (here r)) = absurd (n r)
      later n (inr (there m)) = inr m

  pub scan_term_iff :
      (term : Term)
      → (accepted (scan_expressions plan term.expressions false) ≡ true) ↔ Accepts plan term
  scan_term_iff term = (
    λ h. record {
      constrains = or_any (scan_constrains term.expressions false h);
      admits = scan-Admits term.expressions false h;
    },
    λ a. scan_complete term.expressions false a.admits (inr a.constrains),
  )
    where
      or_any : (false ≡ true) ⊎ (Any IsRead term.expressions) → Any IsRead term.expressions
      or_any (inl f) = absurd (false≢true f)
      or_any (inr m) = m

  pub scan_terms-cons :
      (term : Term) (terms : List Term)
      → scan_terms plan (term ∷ terms)
        ≡ accepted (scan_expressions plan term.expressions false) || scan_terms plan terms
  unfolding scan_terms
  scan_terms-cons term terms = ground arith

  pub scan_terms_sound :
      (terms : List Term) → scan_terms plan terms ≡ true → Any (Accepts plan) terms
  unfolding scan_terms
  scan_terms_sound [] h = absurd (false≢true h)
  scan_terms_sound (term ∷ terms) h =
      elim (Bool-cases (accepted (scan_expressions plan term.expressions false))) [
        | inl yes_ ↦ here ((scan_term_iff term).0 yes_)
        | inr no_ ↦ there (scan_terms_sound terms (ground (arith, scan_terms-cons term terms)))
      ]

  pub scan_terms_complete :
      (terms : List Term) → Any (Accepts plan) terms → scan_terms plan terms ≡ true
  scan_terms_complete _ (here {x = term} {xs = terms} a) =
      ground (arith, scan_terms-cons term terms, (scan_term_iff term).1 a)
  scan_terms_complete _ (there {x = term} {xs = terms} m) =
      ground (arith, scan_terms-cons term terms, scan_terms_complete terms m)
