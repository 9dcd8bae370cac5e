-- ===== src/InstanceTypes/Offered.antt =====
-- The instance types that Karpenter is offered after a refresh.
use karpenter_provider_upclo.Base.{
  String, ◌≡◌, ◌≢◌, refl, sym, ap, subst, ◌∙◌, ◌↔◌, inl, inr, Any, here, there, All, Dict, insert,
  lookup, Option, none, some, List, [], ◌∷◌, ◌==◌, eq_iff, eq_refl, eq-false_of_ne, Bool-cases,
  Result, ok, arith,
}
use karpenter_provider_upclo.Base.Int.{ℤ}
use karpenter_provider_upclo.InstanceTypes.{
  Plan, InstanceType, Provider, values, list, get_plan, build_types,
  build_instance_type_with_prices, refresh, refresh_prices,
}
use karpenter_provider_upclo.InstanceTypes.Refresh.{last_plan, map_option, refresh_lem}

module _ {V : Type 0} where
  -- Each key stands once.
  abbrev pub IsUnique : Dict V → Type 0
  IsUnique [] = Unit
  IsUnique ((k, v) ∷ m) = All (λ (e : String × V). e.0 ≢ k) m × IsUnique m

  insert_others :
      (j k : String) (v : V) (m : Dict V)
      → j ≢ k
      → All (λ (e : String × V). e.0 ≢ j) m
      → All (λ (e : String × V). e.0 ≢ j) (insert k v m)
  unfolding insert
  insert_others j k v [] n h = (λ e. n (sym e), tt)
  insert_others j k v ((i, x) ∷ m) n h = elim (Bool-cases (i == k)) [
    | inl e ↦ rw e ((λ q. n (sym q)), h.1)
    | inr e ↦ rw e (h.0, insert_others j k v m n h.1)
  ]

  insert-IsUnique : (k : String) (v : V) (m : Dict V) → IsUnique m → IsUnique (insert k v m)
  unfolding insert
  insert-IsUnique k v [] u = (tt, tt)
  insert-IsUnique k v ((i, x) ∷ m) u = elim (Bool-cases (i == k)) [
    | inl e ↦ rw e (subst (λ j. All (λ (y : String × V). y.0 ≢ j) m) ((eq_iff i k).0 e) u.0, u.1)
    | inr e ↦ rw e (
      insert_others i k v m (λ q. ground (arith, q, e, eq_iff i k)) u.0,
      insert-IsUnique k v m u.1,
    )
  ]

  absent : (k : String) (m : Dict V) → All (λ (e : String × V). e.0 ≢ k) m → lookup k m ≡ none
  unfolding lookup
  absent k [] h = refl
  absent k ((i, x) ∷ m) h = rw (eq-false_of_ne i k h.0) (absent k m h.1)

  found-values :
      (k : String) (v : V) (m : Dict V) → lookup k m ≡ some v → Any (λ x. x ≡ v) (values m)
  unfolding lookup values
  found-values k v [] e = ground arith
  found-values k v ((i, x) ∷ m) e = elim (Bool-cases (i == k)) [
    | inl q ↦ here (ground arith)
    | inr q ↦ there (found-values k v m (ground arith))
  ]

  values_found :
      (v : V) (m : Dict V)
      → IsUnique m
      → Any (λ x. x ≡ v) (values m)
      → (k : String) × (lookup k m ≡ some v)
  unfolding lookup values
  values_found v [] u m = elim m [ ]
  values_found v ((i, x) ∷ m) u (here e) = (i, rw (eq_refl i) (ap some e))
  values_found v ((i, x) ∷ m) u (there y) =
      let (k, e) = values_found v m u.1 y in
      (
        k,
        elim (Bool-cases (i == k)) [
          | inr q ↦ rw q e
          | inl q ↦
              let z = absent i m u.0 in
              let w : lookup i m ≡ some v = ap (λ j. lookup j m) ((eq_iff i k).0 q) ∙ e in
              absurd (ground (arith, z, w))
        ],
      )

module _ {F : Type 0} (max_float : F) (print : ℤ → String) where
  build-IsUnique :
      (zone : String) (prices : Dict F) (ps : List Plan) (built : Dict (InstanceType F))
      → IsUnique built
      → IsUnique (build_types max_float print zone prices ps built)
  unfolding build_types
  build-IsUnique zone prices [] built u = u
  build-IsUnique zone prices (plan ∷ ps) built u =
      build-IsUnique zone prices ps _ (insert-IsUnique plan.name _ built u)

  chosen :
      {A B : Type 0} (f : A → B) (o : Option A) (t : B)
      → map_option f o ≡ some t
      → (a : A) × (o ≡ some a) × (t ≡ f a)
  chosen f none t e = ground arith
  chosen f (some a) t e = (a, refl, ground arith)

  pub offered_iff :
      (ps : List Plan) (since now : ℤ) (answer : Result String (Dict (Dict F))) (p : Provider F)
      (t : InstanceType F)
      → let r = (refresh max_float print (ok ps) since now answer p).0 in
        Any (λ x. x ≡ t) (list r) ↔ (
          (name : String) × (plan : Plan) × (last_plan name ps ≡ some plan)
          × (get_plan r name ≡ some plan)
          × (t ≡ build_instance_type_with_prices max_float print r.zone plan r.prices))
  unfolding refresh list
  offered_iff ps since now answer p t = (split, join)
    where
      split :
          let r = (refresh max_float print (ok ps) since now answer p).0 in
          Any (λ x. x ≡ t) (list r)
          → (name : String) × (plan : Plan) × (last_plan name ps ≡ some plan)
            × (get_plan r name ≡ some plan)
            × (t ≡ build_instance_type_with_prices max_float print r.zone plan r.prices)
      split m =
          let q = (refresh_prices since now answer p).0 in
          let (name, e) =
            values_found t (build_types max_float print q.zone q.prices ps [])
              (build-IsUnique q.zone q.prices ps [] tt) m in
          let (_, g, b) = refresh_lem max_float print ps since now answer p name in
          let (plan, l, k) =
            chosen (λ plan. build_instance_type_with_prices max_float print q.zone plan q.prices)
              (last_plan name ps) t (sym b ∙ e) in
          (name, plan, l, g ∙ l, k)

      join :
          let r = (refresh max_float print (ok ps) since now answer p).0 in
          ((name : String) × (plan : Plan) × (last_plan name ps ≡ some plan)
            × (get_plan r name ≡ some plan)
            × (t ≡ build_instance_type_with_prices max_float print r.zone plan r.prices))
          → Any (λ x. x ≡ t) (list r)
      join (name, plan, l, _, k) =
          let q = (refresh_prices since now answer p).0 in
          let (_, _, b) = refresh_lem max_float print ps since now answer p name in
          found-values name t (build_types max_float print q.zone q.prices ps [])
            (b ∙ ap (map_option _) l ∙ ap some (sym k))
