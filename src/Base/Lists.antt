-- ===== src/Base/Lists.antt =====
-- Lists: loops that look for an element, predicates by recursion, lengths.
use Prim.Native.Nat.{ℕ, suc, ◌+◌}
use mathlib.Core.Path.{◌≡◌, refl}
use mathlib.Core.Logic.{inl, inr}
use mathlib.Core.Bool.{Bool, true, false, ◌||◌, ◌&&◌}
use mathlib.Core.List.{List, [], ◌∷◌, ◌++◌}
use native.Mathlib.Omega.{arith}
use karpenter_provider_upclo.Base.Tests.{Bool-cases}

-- Each element satisfies the predicate; some element does.
abbrev pub All {ℓ κ} : {A : Type ℓ} → (A → Type κ) → List A → Type κ
All P [] = Unit
All P (x ∷ xs) = P x × All P xs

pub data Any {ℓ κ} {A : Type ℓ} (P : A → Type κ) : List A → Type (ℓ ⊔ κ) where
  here : {x : A} {xs : List A} → P x → Any P (x ∷ xs)
  there : {x : A} {xs : List A} → Any P xs → Any P (x ∷ xs)

module _ {ℓ} {A : Type ℓ} where
  abbrev pub length : List A → ℕ
  length [] = 0
  length (x ∷ xs) = suc (length xs)

  -- `for … { if test(x) { return true } }; return false`
  unfoldable pub any : (A → Bool) → List A → Bool
  any test [] = false
  any test (x ∷ xs) = test x || any test xs

  -- `for … { if !test(x) { return false } }; return true`
  unfoldable pub all : (A → Bool) → List A → Bool
  all test [] = true
  all test (x ∷ xs) = test x && all test xs

  pub any_sound : (test : A → Bool) (xs : List A) → any test xs ≡ true → Any (λ x. test x ≡ true) xs
  unfolding any
  any_sound test [] h = absurd (mathlib.Core.Bool.false≢true h)
  any_sound test (x ∷ xs) h = elim (Bool-cases (test x)) [
    | inl e ↦ here e
    | inr e ↦ there (any_sound test xs (ground arith))
  ]

  pub any_complete :
      (test : A → Bool) (xs : List A) → Any (λ x. test x ≡ true) xs → any test xs ≡ true
  unfolding any
  any_complete test _ (here {xs = r} e) = ground arith
  any_complete test _ (there {xs = r} m) = ground (arith, any_complete test r m)

  pub all_sound : (test : A → Bool) (xs : List A) → all test xs ≡ true → All (λ x. test x ≡ true) xs
  unfolding all
  all_sound test [] h = tt
  all_sound test (x ∷ xs) h = (ground arith, all_sound test xs (ground arith))

  pub all_complete :
      (test : A → Bool) (xs : List A) → All (λ x. test x ≡ true) xs → all test xs ≡ true
  unfolding all
  all_complete test [] h = refl
  all_complete test (x ∷ xs) h = ground (arith, all_complete test xs h.1)

  pub All-map {κ μ} :
      {P : A → Type κ} {Q : A → Type μ} (f : (x : A) → P x → Q x) (xs : List A)
      → All P xs
      → All Q xs
  All-map f [] h = tt
  All-map f (x ∷ xs) h = (f x h.0, All-map f xs h.1)

  pub Any-map {κ μ} :
      {P : A → Type κ} {Q : A → Type μ} (f : (x : A) → P x → Q x) {xs : List A}
      → Any P xs
      → Any Q xs
  Any-map f (here p) = here (f _ p)
  Any-map f (there m) = there (Any-map f m)

  pub length-append : (xs ys : List A) → length (xs ++ ys) ≡ length xs + length ys
  length-append [] ys = omega arith
  length-append (x ∷ xs) ys = omega (arith, length-append xs ys)
