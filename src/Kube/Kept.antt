-- ===== src/Kube/Kept.antt =====
-- Steps that leave a view of the world as it is.
use karpenter_provider_upclo.Base.{◌≡◌, sym, ap, ◌∙◌, inl, inr}
use karpenter_provider_upclo.Base.Results.{Result, ok, err}
use karpenter_provider_upclo.Kube.Step.{
  Step, ◌>>=◌, rescue, step-cases, bind_step, bind_err, rescue_step, rescue_err,
}

module _ {S B : Type 0} (view : S → B) where
  abbrev pub Keeps : {E A : Type 0} → Step S E A → Type 0
  Keeps m = (w : S) → view (m w).1 ≡ view w

  after :
      {E A : Type 0} (m : Step S E A) (w u : S) (r : Result E A)
      → m w ≡ (r, u)
      → Keeps m
      → view u ≡ view w
  after {E} {A} m w u r e k = sym (ap (λ (x : Result E A × S). view x.1) e) ∙ k w

  pub bind-Keeps :
      {E A C : Type 0} (m : Step S E A) (f : A → Step S E C)
      → Keeps m
      → ((a : A) → Keeps (f a))
      → Keeps (m >>= f)
  bind-Keeps {E} {A} {C} m f k l w = elim (step-cases m w) [
    | inl (a, u, e) ↦
        ap (λ (x : Result E C × S). view x.1) (bind_step m f w a u e)
        ∙ l a u
        ∙ after m w u (ok a) e k
    | inr (x, u, e) ↦
        ap (λ (x : Result E C × S). view x.1) (bind_err m f w x u e) ∙ after m w u (err x) e k
  ]

  pub rescue-Keeps :
      {E F A : Type 0} (wrap : E → F) (m : Step S E A) → Keeps m → Keeps (rescue wrap m)
  rescue-Keeps {E} {F} {A} wrap m k w = elim (step-cases m w) [
    | inl (a, u, e) ↦
        ap (λ (x : Result F A × S). view x.1) (rescue_step wrap m w a u e) ∙ after m w u (ok a) e k
    | inr (x, u, e) ↦
        ap (λ (x : Result F A × S). view x.1) (rescue_err wrap m w x u e) ∙ after m w u (err x) e k
  ]
