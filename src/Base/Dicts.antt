-- ===== src/Base/Dicts.antt =====
-- Go's `map[string]V` as an association list, which lists each key at most once when it is built
-- by `insert`. A nil map reads as an empty one, and the program makes a map before it writes.
use Prim.Native.String.{String}
use mathlib.Core.Path.{◌≡◌, refl}
use mathlib.Core.Bool.{Bool, true, false}
use mathlib.Core.Option.{Option, none, some}
use mathlib.Core.List.{List, [], ◌∷◌}
use native.Mathlib.Omega.{arith}
use text.Mathlib.Text.{◌==◌}
use text.Mathlib.TextEquality.{eq_iff}
use text.Mathlib.TextPositions.{eq_refl}
use karpenter_provider_upclo.Base.Tests.{if◌then◌else◌}

abbrev pub Dict {ℓ} : Type ℓ → Type ℓ
Dict V = List (String × V)

module _ {ℓ} {V : Type ℓ} where
  -- `v, ok := m[k]`
  unfoldable pub lookup : String → Dict V → Option V
  lookup k [] = none
  lookup k ((key, value) ∷ rest) =
      let found = lookup k rest in if key == k then some value else found

  -- `_, ok := m[k]`
  unfoldable pub has_key : String → Dict V → Bool
  unfolding lookup
  has_key k m = elim (lookup k m) [ none ↦ false | some v ↦ true ]

  -- `m[k] = v`
  unfoldable pub insert : String → V → Dict V → Dict V
  insert k v [] = (k, v) ∷ []
  insert k v ((key, value) ∷ rest) =
      let later = insert k v rest in if key == k then (k, v) ∷ rest else (key, value) ∷ later

  -- `lo.Assign(m, n)`: a new map in which the entries of `n` win.
  unfoldable pub assign : Dict V → Dict V → Dict V
  assign m [] = m
  assign m ((k, v) ∷ n) = insert k v (assign m n)

  pub lookup-insert :
      (new asked : String) (v : V) (m : Dict V)
      → lookup asked (insert new v m) ≡ (if new == asked then some v else lookup asked m)
  unfolding insert lookup
  lookup-insert new asked v [] = refl
  lookup-insert new asked v ((key, value) ∷ rest) =
      let ih = lookup-insert new asked v rest in
      ground (arith, ih, eq_iff key new, eq_iff key asked, eq_iff new asked)

  unfoldable pub or_else : Option V → Option V → Option V
  or_else none b = b
  or_else (some v) b = some v

  pub or_else-none : (o : Option V) → or_else o none ≡ o
  unfolding or_else
  or_else-none none = refl
  or_else-none (some v) = refl

  pub lookup-assign :
      (k : String) (m n : Dict V) → lookup k (assign m n) ≡ or_else (lookup k n) (lookup k m)
  unfolding assign lookup or_else
  lookup-assign k m [] = refl
  lookup-assign k m ((j, v) ∷ n) =
      ground (arith, lookup-insert j k v (assign m n), lookup-assign k m n)

-- `m[k]` of a map to texts: a missing key reads as the empty text.
unfoldable pub get : String → Dict String → String
get k m = elim (lookup k m) [ none ↦ "" | some v ↦ v ]

pub get-insert :
    (k j v : String) (m : Dict String) → get j (insert k v m) ≡ (if k == j then v else get j m)
unfolding get
get-insert k j v m = ground (arith, lookup-insert k j v m)

pub ruleset dict_laws = (lookup-insert, lookup-assign, get-insert, eq_refl)
