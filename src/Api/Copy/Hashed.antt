-- ===== src/Api/Copy/Hashed.antt =====
-- apis/v1alpha2/upcloudnodeclass_hash.go over memory: Hash copies the specification, sets the empty slices and maps of
-- the copy to nil, and hands it to hashstructure.
use karpenter_provider_upclo.Base.{String, ℕ, Option, none, some, List, [], ◌∷◌, ◌≡◌, refl, ap, ◌∙◌}
use karpenter_provider_upclo.Base.Memory.{Store, shown}
use karpenter_provider_upclo.Api.Spec.{Spec, nil_if_empty, normalised, formatted, hash}
use karpenter_provider_upclo.Api.Copy.{Memory, SpecCell, copy_spec}
use karpenter_provider_upclo.Api.Copy.Contents.{spec_value, IsStored, spec_value-Grows}
use karpenter_provider_upclo.Api.Copy.Fresh.{copy_spec-SpecCopy}

-- `if len(xs) == 0 { xs = nil }`, of a slice or a map
unfoldable pub nil_when_empty : {A : Type 0} → Store (List A) → Option ℕ → Option ℕ
nil_when_empty s none = none
nil_when_empty s (some p) = elim (s.cell p) [ [] ↦ none | x ∷ xs ↦ some p ]

unfoldable pub cleared : SpecCell → Memory → SpecCell
unfolding nil_when_empty
cleared s m = record s {
  ssh_keys = nil_when_empty m.texts s.ssh_keys;
  kubelet_args = nil_when_empty m.args s.kubelet_args;
  labels = nil_when_empty m.maps s.labels;
  taints = nil_when_empty m.taints s.taints;
}

-- The text, and afterwards the receiver's specification and the memory.
unfoldable pub hash_cell : (Spec → Option ℕ) → SpecCell → Memory → String × SpecCell × Memory
unfolding cleared formatted
hash_cell digest s m =
    let (copy, n) = copy_spec s m in (formatted (digest (spec_value n (cleared copy n))), s, n)

-- What a cell holds decides whether the pointer to it remains.
shown-kept :
    {A : Type 0} (s : Store (List A)) (p : ℕ) (xs : List A)
    → s.cell p ≡ xs
    → shown s (elim xs [ [] ↦ none | y ∷ ys ↦ some p ]) ≡ nil_if_empty (some xs)
unfolding shown nil_if_empty
shown-kept s p [] e = refl
shown-kept s p (y ∷ ys) e = ap some e

shown-nil_when_empty :
    {A : Type 0} (s : Store (List A)) (p : Option ℕ)
    → shown s (nil_when_empty s p) ≡ nil_if_empty (shown s p)
unfolding shown nil_when_empty nil_if_empty
shown-nil_when_empty s none = refl
shown-nil_when_empty s (some p) = shown-kept s p (s.cell p) refl

cleared_value :
    (s : SpecCell) (m : Memory) → spec_value m (cleared s m) ≡ normalised (spec_value m s)
unfolding cleared normalised
cleared_value s m = λ i. record (spec_value m s) {
  ssh_keys = shown-nil_when_empty m.texts s.ssh_keys i;
  kubelet_args = shown-nil_when_empty m.args s.kubelet_args i;
  labels = shown-nil_when_empty m.maps s.labels i;
  taints = shown-nil_when_empty m.taints s.taints i;
}

-- Of a specification whose pointers lead to cells in use, Hash over memory gives the hash of the value that they
-- show, as Api/Spec has it, and the value of the receiver stays: what Hash sets to nil is the copy's alone.
pub hash_cell-hash :
    (digest : Spec → Option ℕ) (s : SpecCell) (m : Memory)
    → IsStored m s
    → ((hash_cell digest s m).0 ≡ hash digest (spec_value m s))
      × (spec_value (hash_cell digest s m).2 (hash_cell digest s m).1 ≡ spec_value m s)
unfolding hash_cell hash
hash_cell-hash digest s m h =
    let made = copy_spec-SpecCopy s m h in
    let (copy, n) = copy_spec s m in
    (
      ap (λ x. formatted (digest x)) (cleared_value copy n ∙ ap normalised made.same),
      spec_value-Grows made.grows s h,
    )
