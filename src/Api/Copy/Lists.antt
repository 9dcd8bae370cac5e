-- ===== src/Api/Copy/Lists.antt =====
-- The copy of a list: a copy of each class, in turn.
use karpenter_provider_upclo.Base.{Option, none, some, List, [], ◌∷◌, ◌≡◌, All}
use karpenter_provider_upclo.Api.Conditions.{MetaCondition}
use karpenter_provider_upclo.Api.Copy.{
  Memory, ClassCell, ListCell, copy_class, copy_items, copy_array, copy_list, deep_copy,
}
use karpenter_provider_upclo.Api.Copy.Contents.{Grows, Grows-refl, Grows-trans}
use karpenter_provider_upclo.Api.Copy.Fresh.{
  IsStoredClass, IsStoredClass-Grows, ClassCopy, ClassCopy-later, ClassCopy-earlier,
  copy_class-ClassCopy,
}

module _ {M : Type 0} where
  -- Of the elements of a list, each with its copy.
  abbrev pub Each : Memory → List (ClassCell M) → Memory → List (ClassCell M) → Type 0
  Each m [] n [] = Unit
  Each m [] n (d ∷ ds) = ⊥
  Each m (c ∷ cs) n [] = ⊥
  Each m (c ∷ cs) n (d ∷ ds) = ClassCopy m c n d × Each m cs n ds

  abbrev pub EachOf :
      Memory → Option (List (ClassCell M)) → Memory → Option (List (ClassCell M)) → Type 0
  EachOf m none n none = Unit
  EachOf m none n (some ds) = ⊥
  EachOf m (some cs) n none = ⊥
  EachOf m (some cs) n (some ds) = Each m cs n ds

  abbrev pub ItemsStored : Memory → Option (List (ClassCell M)) → Type 0
  ItemsStored m none = Unit
  ItemsStored m (some cs) = All (IsStoredClass m) cs

  -- Of a pointer to a list: nil for nil, and else the same metadata and a copy of each item.
  abbrev pub ListCopy : Memory → Option (ListCell M) → Memory → Option (ListCell M) → Type 0
  ListCopy m none n none = Unit
  ListCopy m none n (some k) = ⊥
  ListCopy m (some l) n none = ⊥
  ListCopy m (some l) n (some k) = (k.list_meta ≡ l.list_meta) × EachOf m l.items n k.items

  abbrev pub ListStored : Memory → Option (ListCell M) → Type 0
  ListStored m none = Unit
  ListStored m (some l) = ItemsStored m l.items

  All-Grows :
      (m n : Memory) (cs : List (ClassCell M))
      → Grows m n
      → All (IsStoredClass m) cs
      → All (IsStoredClass n) cs
  All-Grows m n [] g h = tt
  All-Grows m n (c ∷ cs) g h = (IsStoredClass-Grows c g h.0, All-Grows m n cs g h.1)

  Each-earlier :
      (l m n : Memory) (cs ds : List (ClassCell M))
      → Grows l m
      → All (IsStoredClass l) cs
      → Each m cs n ds
      → Each l cs n ds
  Each-earlier l m n [] [] g h k = tt
  Each-earlier l m n [] (d ∷ ds) g h k = k
  Each-earlier l m n (c ∷ cs) [] g h k = k
  Each-earlier l m n (c ∷ cs) (d ∷ ds) g h k =
      (ClassCopy-earlier l m n c d g h.0 k.0, Each-earlier l m n cs ds g h.1 k.1)

module _ (copy_condition : MetaCondition → MetaCondition)
    (same_condition : (x : MetaCondition) → copy_condition x ≡ x) {M : Type 0} (copy_meta : M → M)
    (same_meta : (x : M) → copy_meta x ≡ x) where
  copy_items-Each :
      (cs : List (ClassCell M)) (m : Memory)
      → All (IsStoredClass m) cs
      → Grows m (copy_items copy_condition copy_meta cs m).1
        × Each m cs
            (copy_items copy_condition copy_meta cs m).1
            (copy_items copy_condition copy_meta cs m).0
  unfolding copy_items
  copy_items-Each [] m h = (Grows-refl m, tt)
  copy_items-Each (c ∷ cs) m h =
      let first = copy_class-ClassCopy copy_condition same_condition copy_meta same_meta c m h.0 in
      let (d, n) = copy_class copy_condition copy_meta c m in
      let (grows, rest) = copy_items-Each cs n (All-Grows m n cs first.grows h.1) in
      let (ds, o) = copy_items copy_condition copy_meta cs n in
      (
        Grows-trans first.grows grows,
        (ClassCopy-later m n o c d first grows, Each-earlier m n o cs ds first.grows h.1 rest),
      )

  copy_array-EachOf :
      (items : Option (List (ClassCell M))) (m : Memory)
      → ItemsStored m items
      → EachOf m items
          (copy_array copy_condition copy_meta items m).1
          (copy_array copy_condition copy_meta items m).0
  unfolding copy_array
  copy_array-EachOf none m h = tt
  copy_array-EachOf (some cs) m h = (copy_items-Each cs m h).1

  -- A pointer that is nil is copied as nil. Of a list whose items point to cells in use, the copy has the same
  -- metadata and, for each item in turn, the same values, in cells that were not in use before, but for the
  -- storage settings, which are in the same cell, while all cells that were in use keep what they hold; a nil
  -- slice stays nil.
  pub copied_list :
      (p : Option (ListCell M)) (m : Memory)
      → ListStored m p
      → ListCopy m p
          (deep_copy (copy_list copy_condition copy_meta) p m).1
          (deep_copy (copy_list copy_condition copy_meta) p m).0
  unfolding deep_copy copy_list
  copied_list none m h = tt
  copied_list (some l) m h = (same_meta l.list_meta, copy_array-EachOf l.items m h)
