-- ===== src/Kube/Step.antt =====
-- One step against a world of state `S`, which the services and all other actors share: a value or an
-- error, and the world afterwards. Whatever happens between two calls is part of the second one.
use karpenter_provider_upclo.Base.{◌≡◌, ◌⊎◌, sym, ap, ◌∙◌, inl, inr, arith}
use karpenter_provider_upclo.Base.Results.{Result, ok, err, Result-cases}

abbrev pub Step {ℓ κ μ} : Type ℓ → Type κ → Type μ → Type (ℓ ⊔ κ ⊔ μ)
Step S E A = S → Result E A × S

module _ {ℓ κ} {S : Type ℓ} {E : Type κ} where
  abbrev pub pure {μ} : {A : Type μ} → A → Step S E A
  pure a s = (ok a, s)

  abbrev pub fail {μ} : {A : Type μ} → E → Step S E A
  fail e s = (err e, s)

  abbrev pub from_result {μ} : {A : Type μ} → Result E A → Step S E A
  from_result r s = (r, s)

  infixl 5 ◌>>=◌ ◌>>◌
  abbrev pub ◌>>=◌ {μ ν} : {A : Type μ} {B : Type ν} → Step S E A → (A → Step S E B) → Step S E B
  (m >>= f) s = elim (m s).0 [ ok a ↦ f a (m s).1 | err e ↦ (err e, (m s).1) ]

  abbrev pub ◌>>◌ {ν} : {B : Type ν} → Step S E (Unit {0}) → Step S E B → Step S E B
  m >> k = m >>= λ _. k

  -- `if err != nil { return …, wrap(err) }`
  abbrev pub rescue {μ ζ} : {F : Type ζ} {A : Type μ} → (E → F) → Step S E A → Step S F A
  rescue wrap m s = elim (m s).0 [ ok a ↦ (ok a, (m s).1) | err e ↦ (err (wrap e), (m s).1) ]

module _ {S E A : Type 0} where
  -- The outcome of a step, with its world.
  pub step-cases :
      (m : Step S E A) (w : S)
      → ((a : A) × (u : S) × (m w ≡ (ok a, u))) ⊎ ((x : E) × (u : S) × (m w ≡ (err x, u)))
  step-cases m w = elim (Result-cases (m w).0) [
    | inl (a, e) ↦ inl (a, (m w).1, ap (λ r. (r, (m w).1)) e)
    | inr (x, e) ↦ inr (x, (m w).1, ap (λ r. (r, (m w).1)) e)
  ]

  pub bind_step :
      {B : Type 0} (m : Step S E A) (f : A → Step S E B) (w : S) (a : A) (u : S)
      → m w ≡ (ok a, u)
      → (m >>= f) w ≡ f a u
  bind_step m f w a u e = ap (λ r. elim r.0 [ ok a ↦ f a r.1 | err x ↦ (err x, r.1) ]) e

  pub bind_err :
      {B : Type 0} (m : Step S E A) (f : A → Step S E B) (w : S) (x : E) (u : S)
      → m w ≡ (err x, u)
      → (m >>= f) w ≡ (err x, u)
  bind_err m f w x u e = ap (λ r. elim r.0 [ ok a ↦ f a r.1 | err x ↦ (err x, r.1) ]) e

  -- A sequence succeeds only if its first part does.
  pub bind_ok :
      {B : Type 0} (m : Step S E A) (f : A → Step S E B) (w v : S) (b : B)
      → (m >>= f) w ≡ (ok b, v)
      → (a : A) × (u : S) × (m w ≡ (ok a, u)) × (f a u ≡ (ok b, v))
  bind_ok m f w v b p = elim (step-cases m w) [
    | inl (a, u, e) ↦ (a, u, e, sym (bind_step m f w a u e) ∙ p)
    | inr (x, u, e) ↦ let q = sym (bind_err m f w x u e) ∙ p in ground arith
  ]

  -- An answer that is there already.
  pub answered :
      (r : Result E A) (w v : S) (a : A) → from_result r w ≡ (ok a, v) → (r ≡ ok a) × (w ≡ v)
  answered r w v a e = (ap (λ (x : Result E A × S). x.0) e, ap (λ (x : Result E A × S). x.1) e)

  pub rescue_step :
      {F : Type 0} (wrap : E → F) (m : Step S E A) (w : S) (a : A) (u : S)
      → m w ≡ (ok a, u)
      → rescue wrap m w ≡ (ok a, u)
  rescue_step wrap m w a u e =
      ap (λ r. elim r.0 [ ok a ↦ (ok a, r.1) | err x ↦ (err (wrap x), r.1) ]) e

  pub rescue_err :
      {F : Type 0} (wrap : E → F) (m : Step S E A) (w : S) (x : E) (u : S)
      → m w ≡ (err x, u)
      → rescue wrap m w ≡ (err (wrap x), u)
  rescue_err wrap m w x u e =
      ap (λ r. elim r.0 [ ok a ↦ (ok a, r.1) | err x ↦ (err (wrap x), r.1) ]) e

  pub rescue_ok :
      {F : Type 0} (wrap : E → F) (m : Step S E A) (w v : S) (a : A)
      → rescue wrap m w ≡ (ok a, v)
      → m w ≡ (ok a, v)
  rescue_ok wrap m w v a p = elim (step-cases m w) [
    | inl (b, u, e) ↦ let q = sym (rescue_step wrap m w b u e) ∙ p in ground arith
    | inr (x, u, e) ↦ let q = sym (rescue_err wrap m w x u e) ∙ p in ground arith
  ]

-- The same for a part whose errors are wrapped.
pub rescue_bind_step :
    {S E F A B : Type 0} (wrap : E → F) (m : Step S E A) (f : A → Step S F B) (w : S) (a : A)
    (u : S)
    → m w ≡ (ok a, u)
    → (rescue wrap m >>= f) w ≡ f a u
rescue_bind_step wrap m f w a u e = bind_step (rescue wrap m) f w a u (rescue_step wrap m w a u e)
