-- ===== src/Api/Copy/Cells.antt =====
-- The copies of one slice, map or pointer of zz_generated.deepcopy.go: each makes a cell that was not in use and
-- fills it with what the old one holds.
use mathlib.Core.List.{append_assoc, append-nil}
use karpenter_provider_upclo.Base.{
  String, ℕ, Dict, lookup, insert, Bool, Option, none, some, List, [], ◌∷◌, ◌++◌, length, map, ◌≡◌,
  refl, ap, sym, ◌∙◌, arith, false, eq_iff,
}
use karpenter_provider_upclo.Base.Memory.{
  Store, allocate, shown, Within, IsCopy, nil-IsCopy, filled-IsCopy, allocate-keeps, allocate-new,
}
use karpenter_provider_upclo.Api.Conditions.{zeros, copy_from, copy_from-zeros}
use karpenter_provider_upclo.Api.Copy.{copied, copy_slice, put_all, copy_map, copy_each, copy_flag}

module _ {A : Type 0} where
  copied-zeros : (z : A) (xs : List A) → copied (zeros z (length xs)) xs ≡ xs
  unfolding copied zeros
  copied-zeros z [] = refl
  copied-zeros z (x ∷ xs) = ap (λ r. x ∷ r) (copied-zeros z xs)

  pub copy_slice-IsCopy :
      (z : A) (p : Option ℕ) (s : Store (List A))
      → Within s.next p
      → IsCopy p s (copy_slice z p s).0 (copy_slice z p s).1
  unfolding copy_slice
  copy_slice-IsCopy z none s h = nil-IsCopy s
  copy_slice-IsCopy z (some p) s h =
      let zs = zeros z (length (s.cell p)) in
      filled-IsCopy p zs (copied ((allocate zs s).1.cell s.next) ((allocate zs s).1.cell p)) s
        (rw (allocate-new zs s, allocate-keeps zs s p h) (copied-zeros z (s.cell p)))

  -- No key stands twice in the list, nor again among the entries before it.
  abbrev pub HasNewKeys : Dict A → Dict A → Type 0
  HasNewKeys before [] = Unit
  HasNewKeys before ((k, v) ∷ rest) =
      (lookup k before ≡ none) × HasNewKeys (before ++ ((k, v) ∷ [])) rest

  insert_new :
      (k : String) (v : A) (m : Dict A) → lookup k m ≡ none → insert k v m ≡ m ++ ((k, v) ∷ [])
  unfolding lookup insert
  insert_new k v [] h = refl
  insert_new k v ((j, w) ∷ m) h = ground (arith, insert_new k v m, eq_iff j k)

  put_all-append : (xs before : Dict A) → HasNewKeys before xs → put_all xs before ≡ before ++ xs
  unfolding put_all
  put_all-append [] before h = sym (append-nil before)
  put_all-append ((k, v) ∷ xs) before h =
      ap (put_all xs) (insert_new k v before h.0)
      ∙ put_all-append xs (before ++ ((k, v) ∷ [])) h.1
      ∙ append_assoc before ((k, v) ∷ []) xs

  -- The keys of a map are distinct.
  abbrev pub IsMap : Option (Dict A) → Type 0
  IsMap none = Unit
  IsMap (some entries) = HasNewKeys [] entries

  pub copy_map-IsCopy :
      (p : Option ℕ) (s : Store (Dict A))
      → Within s.next p
      → IsMap (shown s p)
      → IsCopy p s (copy_map p s).0 (copy_map p s).1
  unfolding copy_map shown
  copy_map-IsCopy none s h k = nil-IsCopy s
  copy_map-IsCopy (some p) s h k =
      filled-IsCopy p [] (put_all ((allocate [] s).1.cell p) ((allocate [] s).1.cell s.next)) s (
        rw (allocate-new {A = Dict A} [] s, allocate-keeps {A = Dict A} [] s p h)
          (put_all-append (s.cell p) [] k))

  map-same : (f : A → A) → ((x : A) → f x ≡ x) → (xs : List A) → map f xs ≡ xs
  map-same f h [] = refl
  map-same f h (x ∷ xs) = ap (λ y. y ∷ map f xs) (h x) ∙ ap (λ r. x ∷ r) (map-same f h xs)

  pub copy_each-IsCopy :
      (z : A) (f : A → A) (p : Option ℕ) (s : Store (List A))
      → ((x : A) → f x ≡ x)
      → Within s.next p
      → IsCopy p s (copy_each z f p s).0 (copy_each z f p s).1
  unfolding copy_each
  copy_each-IsCopy z f none s k h = nil-IsCopy s
  copy_each-IsCopy z f (some p) s k h =
      let zs = zeros z (length (s.cell p)) in
      filled-IsCopy p zs (copy_from 0 f ((allocate zs s).1.cell p) ((allocate zs s).1.cell s.next))
        s
        (rw (allocate-new zs s, allocate-keeps zs s p h)
          (copy_from-zeros f z [] (s.cell p) ∙ map-same f k (s.cell p)))

pub copy_flag-IsCopy :
    (p : Option ℕ) (s : Store Bool)
    → Within s.next p
    → IsCopy p s (copy_flag p s).0 (copy_flag p s).1
unfolding copy_flag
copy_flag-IsCopy none s h = nil-IsCopy s
copy_flag-IsCopy (some p) s h =
    filled-IsCopy p false ((allocate false s).1.cell p) s (allocate-keeps false s p h)
