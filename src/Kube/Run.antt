-- ===== src/Kube/Run.antt =====
-- One run of a handler: the calls that change state, in the order in which they are made, and the
-- value or error that it returns. What the other side answers is an argument of the handler.
use karpenter_provider_upclo.Base.{List, [], ◌∷◌, ◌++◌, All, inl, inr}
use karpenter_provider_upclo.Base.Results.{Result, ok, err, Result-cases}

pub record Run {ℓ κ μ} (W : Type ℓ) (E : Type κ) (A : Type μ) : Type (ℓ ⊔ κ ⊔ μ) where
  pub writes : List W
  pub result : Result E A

module _ {ℓ κ} {W : Type ℓ} {E : Type κ} where
  abbrev pub pure {μ} : {A : Type μ} → A → Run W E A
  pure a = record { writes = []; result = ok a }

  abbrev pub fail {μ} : {A : Type μ} → E → Run W E A
  fail e = record { writes = []; result = err e }

  -- The answer to a call that changes nothing.
  abbrev pub answer {μ} : {A : Type μ} → Result E A → Run W E A
  answer r = record { writes = []; result = r }

  -- A call that changes state, and its answer.
  abbrev pub attempt {μ} : {A : Type μ} → W → Result E A → Run W E A
  attempt w r = record { writes = w ∷ []; result = r }

  infixl 5 ◌>>=◌ ◌>>◌
  abbrev pub ◌>>=◌ {μ ν} : {A : Type μ} {B : Type ν} → Run W E A → (A → Run W E B) → Run W E B
  m >>= f = elim m.result [
    | ok a ↦ record { writes = m.writes ++ (f a).writes; result = (f a).result }
    | err e ↦ record { writes = m.writes; result = err e }
  ]

  abbrev pub ◌>>◌ {ν} : {B : Type ν} → Run W E (Unit {0}) → Run W E B → Run W E B
  m >> k = m >>= λ _. k

All-append : {W : Type 0} (P : W → Type 0) (xs ys : List W) → All P xs → All P ys → All P (xs ++ ys)
All-append P [] ys h k = k
All-append P (x ∷ xs) ys h k = (h.0, All-append P xs ys h.1 k)

-- What all calls of two parts satisfy, those of the whole do.
pub bind-All :
    {W E A B : Type 0} (P : W → Type 0) (m : Run W E A) (f : A → Run W E B)
    → All P m.writes
    → ((a : A) → All P (f a).writes)
    → All P (m >>= f).writes
bind-All P m f h k = elim (Result-cases m.result) [
  | inl (a, e) ↦ rw e (All-append P m.writes (f a).writes h (k a))
  | inr (x, e) ↦ rw e h
]
