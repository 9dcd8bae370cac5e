-- ===== src/Base/Text.antt =====
-- Texts that the program walks: lists of code points, or of bytes.
use Prim.Native.Nat.{ℕ}
use Prim.Native.Char.{code}
use Prim.Native.String.{String, ◌++◌ as ◌+++◌}
use mathlib.Core.Path.{◌≡◌, refl, ap}
use mathlib.Core.Logic.{◌↔◌, inl, inr}
use mathlib.Core.Option.{Option, none, some}
use mathlib.Core.Bool.{Bool, true, false, ◌&&◌, ◌||◌}
use mathlib.Core.List.{List, [], ◌∷◌, ◌++◌}
use native.Mathlib.Omega.{arith}
use text.Mathlib.TextLemmas.{nil-append, cons-append}
use karpenter_provider_upclo.Base.Tests.{Bool-cases, nat_eq, if◌then◌else◌}

abbrev pub Text : Type 0
Text = List ℕ

-- The code points of a text.
abbrev pub codes : String → Text
codes String.[] = []
codes (String.◌∷◌ c s) = code c ∷ codes s

-- strings.HasPrefix(s, p)
unfoldable pub has_prefix : Text → Text → Bool
has_prefix s [] = true
has_prefix [] (c ∷ p) = false
has_prefix (d ∷ s) (c ∷ p) = nat_eq d c && has_prefix s p

-- strings.Contains(s, p)
unfoldable pub contains : Text → Text → Bool
contains [] p = has_prefix [] p
contains (c ∷ s) p = has_prefix (c ∷ s) p || contains s p

pub has_prefix_iff : (s p : Text) → (has_prefix s p ≡ true) ↔ ((t : Text) × (s ≡ p ++ t))
unfolding has_prefix
has_prefix_iff s [] = ((λ e. (s, refl)), (λ h. refl))
has_prefix_iff [] (c ∷ p) = ((λ e. ground arith), (λ h. ground arith))
has_prefix_iff (d ∷ s) (c ∷ p) =
    let ih = has_prefix_iff s p in
    (
      (λ e. let (t, q) = ih.0 (ground arith) in (t, ground arith)),
      (λ (t, q). let r = ih.1 (t, ground arith) in ground arith),
    )

pub contains_iff :
    (s p : Text) → (contains s p ≡ true) ↔ ((a : Text) × (b : Text) × (s ≡ a ++ (p ++ b)))
unfolding contains
contains_iff [] p =
    let start = has_prefix_iff [] p in
    ((λ e. let (t, q) = start.0 e in ([], t, q)), (λ (a, b, q). start.1 (at_start a b q)))
  where
    at_start : (a b : Text) → [] ≡ a ++ (p ++ b) → (t : Text) × ([] ≡ p ++ t)
    at_start [] b q = (b, q)
    at_start (x ∷ a) b q = ground arith
contains_iff (c ∷ s) p =
    let start = has_prefix_iff (c ∷ s) p in
    let ih = contains_iff s p in
    (
      (λ e. elim (Bool-cases (has_prefix (c ∷ s) p)) [
        | inl h ↦ let (t, q) = start.0 h in ([], t, q)
        | inr h ↦ let (a, b, q) = ih.0 (ground arith) in (c ∷ a, b, ap (c ∷◌) q)
      ]),
      (λ (a, b, q). found ih.1 a b q),
    )
  where
    found :
        (((a : Text) × (b : Text) × (s ≡ a ++ (p ++ b))) → contains s p ≡ true)
        → (a b : Text) → c ∷ s ≡ a ++ (p ++ b)
        → (has_prefix (c ∷ s) p || contains s p) ≡ true
    found ih [] b q = let h = (has_prefix_iff (c ∷ s) p).1 (b, q) in ground arith
    found ih (x ∷ a) b q = let h = ih (a, b, ground arith) in ground arith

-- strings.TrimPrefix(s, p)
unfoldable pub without_prefix : String → String → Option String
without_prefix s String.[] = some s
without_prefix String.[] (String.◌∷◌ c p) = none
without_prefix (String.◌∷◌ d s) (String.◌∷◌ c p) =
    let rest = without_prefix s p in if nat_eq (code d) (code c) then rest else none

unfoldable pub trim_prefix : String → String → String
unfolding without_prefix
trim_prefix s p = elim (without_prefix s p) [ none ↦ s | some t ↦ t ]

without_prefix-append : (p s : String) → without_prefix (p +++ s) p ≡ some s
unfolding without_prefix
without_prefix-append String.[] s = ap some (nil-append s)
without_prefix-append (String.◌∷◌ c p) s =
    rw (cons-append c p s) (ground (arith, without_prefix-append p s))

pub trim_prefix-append : (p s : String) → trim_prefix (p +++ s) p ≡ s
unfolding trim_prefix
trim_prefix-append p s = ground (arith, without_prefix-append p s)
