-- ===== src/Base/Memory.antt =====
-- Memory: cells of one type at addresses, as many in use as have been allocated. A pointer, the array
-- of a slice and a map are addresses, and nil is `none`.
use Prim.Native.Nat.{ℕ, suc, ◌≤◌, ◌<◌}
use mathlib.Core.Path.{◌≡◌, refl, ap, ◌∙◌}
use mathlib.Core.Option.{Option, none, some}
use mathlib.Core.Logic.{◌≢◌, ◌⊎◌}
use native.Mathlib.Omega.{arith}
use karpenter_provider_upclo.Base.Tests.{nat_eq, if◌then◌else◌}

pub record Store {ℓ} (A : Type ℓ) : Type ℓ where
  pub next : ℕ
  pub cell : ℕ → A

-- A pointer to a cell in use, and one to a cell that came into use later.
abbrev pub Within : ℕ → Option ℕ → Type 0
Within n none = Unit
Within n (some p) = p < n

abbrev pub Beyond : ℕ → Option ℕ → Type 0
Beyond n none = Unit
Beyond n (some p) = n ≤ p

module _ {ℓ} {A : Type ℓ} where
  -- `*p = v`
  unfoldable pub write : ℕ → A → Store A → Store A
  write p v s = record s { cell = λ q. if nat_eq p q then v else s.cell q }

  -- `new(T)` and `make`, with the address
  unfoldable pub allocate : A → Store A → ℕ × Store A
  allocate v s =
      (s.next, record { next = suc s.next; cell = λ q. if nat_eq s.next q then v else s.cell q })

  -- What a pointer shows.
  unfoldable pub shown : Store A → Option ℕ → Option A
  shown s none = none
  shown s (some p) = some (s.cell p)

  -- The second store has the cells of the first, unchanged.
  pub record Extends (s t : Store A) : Type ℓ where
    pub grows : s.next ≤ t.next
    pub keeps : (p : ℕ) → p < s.next → t.cell p ≡ s.cell p

  -- Of a copy: the store grew from `s` to `t`, and the new pointer `q` shows what `p` shows, in a cell that was
  -- not in use before.
  pub record IsCopy (p : Option ℕ) (s : Store A) (q : Option ℕ) (t : Store A) : Type ℓ where
    pub extends : Extends s t
    pub same : shown t q ≡ shown s p
    pub within : Within t.next q
    pub beyond : Beyond s.next q

  pub Extends-refl : (s : Store A) → Extends s s
  Extends-refl s = record { grows = omega arith; keeps = λ p h. refl }

  pub Extends-trans : {s t u : Store A} → Extends s t → Extends t u → Extends s u
  Extends-trans e f = record {
    grows = omega (arith, e.grows, f.grows);
    keeps = λ p h. f.keeps p (omega (arith, e.grows)) ∙ e.keeps p h;
  }

  pub nil-IsCopy : (s : Store A) → IsCopy none s none s
  unfolding shown
  nil-IsCopy s = record { extends = Extends-refl s; same = refl; within = tt; beyond = tt }

  -- A new cell that is filled with what `p` shows.
  pub filled-IsCopy :
      (p : ℕ) (z v : A) (s : Store A)
      → v ≡ s.cell p
      → IsCopy (some p) s (some s.next) (write s.next v (allocate z s).1)
  unfolding shown write allocate
  filled-IsCopy p z v s e = record {
    extends = record { grows = omega arith; keeps = λ q h. ground arith };
    same = ground arith;
    within = omega arith;
    beyond = omega arith;
  }

  pub allocate-keeps :
      (z : A) (s : Store A) (p : ℕ) → p < s.next → (allocate z s).1.cell p ≡ s.cell p
  unfolding allocate
  allocate-keeps z s p h = ground arith

  pub allocate-new : (z : A) (s : Store A) → (allocate z s).1.cell s.next ≡ z
  unfolding allocate
  allocate-new z s = ground arith

  -- What a pointer to a cell in use shows stays.
  pub shown-Extends :
      (s t : Store A) (p : Option ℕ) → Extends s t → Within s.next p → shown t p ≡ shown s p
  unfolding shown
  shown-Extends s t none e h = refl
  shown-Extends s t (some p) e h = ap some (e.keeps p h)

  pub Within-Extends :
      (s t : Store A) (p : Option ℕ) → Extends s t → Within s.next p → Within t.next p
  Within-Extends s t none e h = tt
  Within-Extends s t (some p) e h = omega (arith, e.grows)

  pub Beyond-Extends :
      (s t : Store A) (p : Option ℕ) → Extends s t → Beyond t.next p → Beyond s.next p
  Beyond-Extends s t none e h = tt
  Beyond-Extends s t (some p) e h = omega (arith, e.grows)

  -- A write beyond the cells of `s` leaves them alone.
  pub Extends-write :
      (s t : Store A) (p : ℕ) (v : A) → Extends s t → s.next ≤ p → Extends s (write p v t)
  unfolding write
  Extends-write s t p v e h = record { grows = e.grows; keeps = λ q k. ground (arith, e.keeps q k) }

  -- A write elsewhere changes nothing of what a pointer shows.
  pub shown-write :
      (s : Store A) (p : ℕ) (v : A) (q : Option ℕ) → q ≢ some p → shown (write p v s) q ≡ shown s q
  unfolding shown write
  shown-write s p v none h = refl
  shown-write s p v (some q) h = ground arith

  pub cell-write : (s : Store A) (p : ℕ) (v : A) → (write p v s).cell p ≡ v
  unfolding write
  cell-write s p v = ground arith

-- The address is that of an older cell, or of a later one.
abbrev pub Outside : ℕ → ℕ → ℕ → Type 0
Outside m n p = (p < m) ⊎ (n ≤ p)

pub ne-Outside : (m n p : ℕ) (q : Option ℕ) → Beyond m q → Within n q → Outside m n p → q ≢ some p
ne-Outside m n p none b w o = cc
ne-Outside m n p (some q) b w o = λ e. ground arith
