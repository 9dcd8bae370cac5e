-- ===== src/UserData/Order.antt =====
-- The label list does not depend on the order in which Go's map gives its entries.
use mathlib.Core.List.{Perm, Permᴰ}
use mathlib.Core.Logic.{∥∥₁_elim}
use karpenter_provider_upclo.Base.{
  ◌≡◌, refl, ap, subst, ◌∙◌, ◌⊎◌, inl, inr, List, [], ◌∷◌, ◌++◌, map, All, true, false,
  if◌then◌else◌, arith,
}
use karpenter_provider_upclo.Base.Text.{Text}
use karpenter_provider_upclo.UserData.{
  le_text, eq_text, insert_sorted, sort, label_value, join, keys, serialize_labels,
}

le_text_total : (a b : Text) → (le_text a b ≡ true) ⊎ (le_text b a ≡ true)
unfolding le_text
le_text_total [] b = inl refl
le_text_total (c ∷ a) [] = inr refl
le_text_total (c ∷ a) (d ∷ b) = ground (arith, le_text_total a b)

le_text_antisym : (a b : Text) → le_text a b ≡ true → le_text b a ≡ true → a ≡ b
unfolding le_text
le_text_antisym [] [] p q = refl
le_text_antisym [] (d ∷ b) p q = ground arith
le_text_antisym (c ∷ a) [] p q = ground arith
le_text_antisym (c ∷ a) (d ∷ b) p q = ground (arith, le_text_antisym a b)

le_text_trans : (a b c : Text) → le_text a b ≡ true → le_text b c ≡ true → le_text a c ≡ true
unfolding le_text
le_text_trans [] b c p q = refl
le_text_trans (x ∷ a) [] c p q = ground arith
le_text_trans (x ∷ a) (y ∷ b) [] p q = ground arith
le_text_trans (x ∷ a) (y ∷ b) (z ∷ c) p q = ground (arith, le_text_trans a b c)

eq_text_iff : (a b : Text) → eq_text a b ≡ true → a ≡ b
unfolding eq_text
eq_text_iff [] [] e = refl
eq_text_iff [] (d ∷ b) e = ground arith
eq_text_iff (c ∷ a) [] e = ground arith
eq_text_iff (c ∷ a) (d ∷ b) e = ground (arith, eq_text_iff a b)

eq_text_refl : (a : Text) → eq_text a a ≡ true
unfolding eq_text
eq_text_refl [] = refl
eq_text_refl (c ∷ a) = ground (arith, eq_text_refl a)

insert_swap :
    (a b : Text) (l : List Text)
    → insert_sorted a (insert_sorted b l) ≡ insert_sorted b (insert_sorted a l)
unfolding insert_sorted
insert_swap a b [] = ground (arith, le_text_total a b, le_text_antisym a b)
insert_swap a b (c ∷ l) = ground (
  arith,
  le_text_total a b,
  le_text_antisym a b,
  le_text_trans a b c,
  le_text_trans b a c,
  insert_swap a b l,
)

-- A map has each key once.
abbrev pub Distinct : List (Text × Text) → Type 0
Distinct [] = Unit
Distinct (e ∷ m) = All (λ f. eq_text e.0 f.0 ≡ false) m × Distinct m

sort-Permᴰ : {m n : List (Text × Text)} → Permᴰ m n → sort (keys m) ≡ sort (keys n)
unfolding sort keys
sort-Permᴰ Permᴰ.nil = refl
sort-Permᴰ (Permᴰ.cons {a = e} {b = f} {l₁ = m} p d) =
    ap (λ k. insert_sorted k (sort (keys m))) (ap (λ x. x.0) p)
    ∙ ap (insert_sorted f.0) (sort-Permᴰ d)
sort-Permᴰ (Permᴰ.swap {a = a} {b = b} {l = l} p q) =
    insert_swap a.0 b.0 (sort (keys l))
    ∙ (λ i. insert_sorted (q i).0 (insert_sorted (p i).0 (sort (keys l))))
sort-Permᴰ (Permᴰ.trans d e) = sort-Permᴰ d ∙ sort-Permᴰ e

All-Permᴰ : (P : Text × Text → Type 0) {m n : List (Text × Text)} → Permᴰ m n → All P m → All P n
All-Permᴰ P Permᴰ.nil h = h
All-Permᴰ P (Permᴰ.cons p d) h = (subst P p h.0, All-Permᴰ P d h.1)
All-Permᴰ P (Permᴰ.swap p q) h = (subst P q h.1.0, (subst P p h.0, h.1.1))
All-Permᴰ P (Permᴰ.trans d e) h = All-Permᴰ P e (All-Permᴰ P d h)

eq_text_comm : (a b : Text) → eq_text a b ≡ false → eq_text b a ≡ false
unfolding eq_text
eq_text_comm [] [] e = ground arith
eq_text_comm [] (d ∷ b) e = refl
eq_text_comm (c ∷ a) [] e = refl
eq_text_comm (c ∷ a) (d ∷ b) e = ground (arith, eq_text_comm a b)

Distinct-Permᴰ : {m n : List (Text × Text)} → Permᴰ m n → Distinct m → Distinct n
Distinct-Permᴰ Permᴰ.nil h = h
Distinct-Permᴰ (Permᴰ.cons {a = a} {b = b} {l₂ = n} p d) h = (
  subst (λ (e : Text × Text). All {A = Text × Text} (λ f. eq_text e.0 f.0 ≡ false) n) p
      (All-Permᴰ (λ f. eq_text a.0 f.0 ≡ false) d h.0),
  Distinct-Permᴰ d h.1,
)
Distinct-Permᴰ (Permᴰ.swap {a = a} {b = b} {a' = a'} {b' = b'} {l = l} p q) h =
    subst (λ (e : Text × Text). Distinct (e ∷ b' ∷ l)) q
      (subst (λ (e : Text × Text). Distinct (b ∷ e ∷ l)) p
        ((eq_text_comm a.0 b.0 h.0.0, h.1.0), (h.0.1, h.1.1)))
Distinct-Permᴰ (Permᴰ.trans d e) h = Distinct-Permᴰ e (Distinct-Permᴰ d h)

value_swap :
    (a b : Text × Text) (l : List (Text × Text)) (k : Text)
    → eq_text a.0 b.0 ≡ false
    → label_value k (a ∷ b ∷ l) ≡ label_value k (b ∷ a ∷ l)
unfolding label_value
value_swap a b l k h = ground (arith, eq_text_iff a.0 k, eq_text_iff b.0 k, eq_text_refl k)

value-Permᴰ :
    {m n : List (Text × Text)}
    → Permᴰ m n
    → Distinct m
    → (k : Text) → label_value k m ≡ label_value k n
unfolding label_value
value-Permᴰ Permᴰ.nil h k = refl
value-Permᴰ (Permᴰ.cons {a = a} {b = b} {l₁ = m} {l₂ = n} p d) h k =
    (λ i. label_value k (p i ∷ m))
    ∙ ap (λ rest. if eq_text b.0 k then b.1 else rest) (value-Permᴰ d h.1 k)
value-Permᴰ (Permᴰ.swap {a = a} {b = b} {l = l} p q) h k =
    value_swap a b l k h.0.0 ∙ (λ i. label_value k (q i ∷ p i ∷ l))
value-Permᴰ (Permᴰ.trans d e) h k = value-Permᴰ d h k ∙ value-Permᴰ e (Distinct-Permᴰ d h) k

serialize-Permᴰ :
    {m n : List (Text × Text)} → Permᴰ m n → Distinct m → serialize_labels m ≡ serialize_labels n
unfolding serialize_labels
serialize-Permᴰ {m} {n} d h =
    (λ i. join (b',' ∷ []) (map (λ k. k ++ (b'=' ∷ value-Permᴰ d h k i)) (sort (keys m))))
    ∙ ap (λ ks. join (b',' ∷ []) (map (λ k. k ++ (b'=' ∷ label_value k n)) ks)) (sort-Permᴰ d)

Text-set : IsSet Text
Text-set = hlevel

-- For a map with distinct keys, the label list is the same for every order in which its
-- entries are met.
pub serialize_labels-Perm :
    (m n : List (Text × Text)) → Perm m n → Distinct m → serialize_labels m ≡ serialize_labels n
serialize_labels-Perm m n p h = ∥∥₁_elim p (Text-set _ _) (λ d. serialize-Permᴰ d h)
