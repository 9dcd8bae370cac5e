-- ===== src/Base/Int.antt =====
-- Signed integers over the native numbers: Go's `time.Duration` and instants, in nanoseconds.
use Prim.Native.Nat.{ℕ, zero, suc, ◌+◌, ◌-◌, ◌*◌, ◌%◌, ◌≤◌, ◌<◌}
use mathlib.Core.Path.{◌≡◌, refl}
use mathlib.Core.Logic.{◌⊎◌, inl, inr}
use mathlib.Core.Bool.{Bool}
use native.Mathlib.Omega.{arith}
use karpenter_provider_upclo.Base.Tests.{ltb, leb, if◌then◌else◌}

-- `negsuc n` is -(n + 1).
pub data ℤ : Type 0 where
  pos : ℕ → ℤ
  negsuc : ℕ → ℤ

abbrev pub pos_part : ℤ → ℕ
pos_part (pos n) = n
pos_part (negsuc n) = 0

abbrev pub neg_part : ℤ → ℕ
neg_part (pos n) = 0
neg_part (negsuc n) = suc n

abbrev pub sub_ℕ : ℕ → ℕ → ℤ
sub_ℕ a b = if leb b a then pos (a - b) else negsuc (b - a - 1)

infixl 65 ◌+ℤ◌ ◌-ℤ◌
infix 50 ◌≤ℤ◌ ◌<ℤ◌
unfoldable pub ◌+ℤ◌ : ℤ → ℤ → ℤ
a +ℤ b = sub_ℕ (pos_part a + pos_part b) (neg_part a + neg_part b)

unfoldable pub ◌-ℤ◌ : ℤ → ℤ → ℤ
a -ℤ b = sub_ℕ (pos_part a + neg_part b) (neg_part a + pos_part b)

abbrev pub ◌≤ℤ◌ : ℤ → ℤ → Type 0
a ≤ℤ b = pos_part a + neg_part b ≤ pos_part b + neg_part a

abbrev pub ◌<ℤ◌ : ℤ → ℤ → Type 0
a <ℤ b = pos_part a + neg_part b < pos_part b + neg_part a

abbrev pub ltb_ℤ : ℤ → ℤ → Bool
ltb_ℤ a b = ltb (pos_part a + neg_part b) (pos_part b + neg_part a)

pub +ℤ_parts :
    (a b : ℤ)
    → pos_part (a +ℤ b) + neg_part a + neg_part b ≡ neg_part (a +ℤ b) + pos_part a + pos_part b
unfolding ◌+ℤ◌
+ℤ_parts a b = ground arith

pub -ℤ_parts :
    (a b : ℤ)
    → pos_part (a -ℤ b) + neg_part a + pos_part b ≡ neg_part (a -ℤ b) + pos_part a + neg_part b
unfolding ◌-ℤ◌
-ℤ_parts a b = ground arith

pub eq_of_parts : (a b : ℤ) → pos_part a + neg_part b ≡ pos_part b + neg_part a → a ≡ b
eq_of_parts a b h = ground arith

pub one_part : (a : ℤ) → (pos_part a ≡ 0) ⊎ (neg_part a ≡ 0)
one_part (pos n) = inr refl
one_part (negsuc n) = inl refl

-- An int64 holds -2^63 … 2^63 - 1.
abbrev pub max_int64 : ℕ
max_int64 = 9223372036854775807

-- `time.Time.Sub` (so `time.Since`) stops at the ends of the range.
unfoldable pub saturate64 : ℤ → ℤ
saturate64 (pos n) = if leb n max_int64 then pos n else pos max_int64
saturate64 (negsuc n) = if leb n max_int64 then negsuc n else negsuc max_int64

-- The two's complement wrap of a result just outside the range, which `-` of two int64 can be.
unfoldable pub wrap64 : ℤ → ℤ
wrap64 (pos n) = if leb n max_int64 then pos n else negsuc (2 * max_int64 + 1 - n)
wrap64 (negsuc n) = if leb n max_int64 then negsuc n else pos (2 * max_int64 + 1 - n)

-- The conversion of any integer to int64, which `*` of two int64 is: two's complement modulo 2^64.
unfoldable pub to_int64 : ℤ → ℤ
to_int64 (pos n) =
    let m = n % (2 * max_int64 + 2) in
    if leb m max_int64 then pos m else negsuc (2 * max_int64 + 1 - m)
to_int64 (negsuc n) =
    let m = n % (2 * max_int64 + 2) in
    if leb m max_int64 then negsuc m else pos (2 * max_int64 + 1 - m)

-- The product with a constant.
unfoldable pub times : ℕ → ℤ → ℤ
times zero a = pos 0
times (suc k) (pos n) = pos (suc k * n)
times (suc k) (negsuc n) = negsuc (suc k * suc n - 1)

abbrev pub IsInt64 : ℤ → Type 0
IsInt64 a = (pos_part a ≤ max_int64) × (neg_part a ≤ max_int64 + 1)

pub saturate64-IsInt64 : (a : ℤ) → IsInt64 (saturate64 a)
unfolding saturate64
saturate64-IsInt64 (pos n) = ground arith
saturate64-IsInt64 (negsuc n) = ground arith

pub wrap64_id : (a : ℤ) → IsInt64 a → wrap64 a ≡ a
unfolding wrap64
wrap64_id (pos n) h = ground arith
wrap64_id (negsuc n) h = ground arith

pub saturate64_id : (a : ℤ) → IsInt64 a → saturate64 a ≡ a
unfolding saturate64
saturate64_id (pos n) h = ground arith
saturate64_id (negsuc n) h = ground arith

pub to_int64-IsInt64 : (a : ℤ) → IsInt64 (to_int64 a)
unfolding to_int64
to_int64-IsInt64 (pos n) = ground arith
to_int64-IsInt64 (negsuc n) = ground arith

pub to_int64_id : (a : ℤ) → IsInt64 a → to_int64 a ≡ a
unfolding to_int64
to_int64_id (pos n) h = ground arith
to_int64_id (negsuc n) h = ground arith

pub ruleset int_laws = (arith, +ℤ_parts, -ℤ_parts, eq_of_parts)
