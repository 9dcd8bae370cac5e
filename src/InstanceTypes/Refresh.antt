-- ===== src/InstanceTypes/Refresh.antt =====
-- The cache after a refresh.
use karpenter_provider_upclo.Base.{
  String, ◌≡◌, refl, sym, ap, ◌∙◌, ◌⊎◌, inl, inr, Dict, insert, lookup, lookup-insert, or_else,
  or_else-none, Option, none, some, List, [], ◌∷◌, Bool, true, false, if◌then◌else◌, Bool-cases,
  ◌==◌, Result, ok, err,
}
use karpenter_provider_upclo.Base.Int.{ℤ, ltb_ℤ}
use karpenter_provider_upclo.InstanceTypes.{
  Plan, InstanceType, Provider, build_instance_type_with_prices, build_types, raw_plans,
  refresh_prices, refresh, get_plan,
}

-- The last of the plans with a name.
abbrev pub last_plan : String → List Plan → Option Plan
last_plan name [] = none
last_plan name (plan ∷ plans) = elim (last_plan name plans) [
  | some q ↦ some q
  | none ↦ if plan.name == name then some plan else none
]

abbrev pub map_option : {A B : Type 0} → (A → B) → Option A → Option B
map_option f none = none
map_option f (some a) = some (f a)

last_or :
    (o : Option Plan) (b : Bool) (plan : Plan) (old : Option Plan)
    → or_else o (if b then some plan else old)
      ≡ or_else (elim o [ some q ↦ some q | none ↦ if b then some plan else none ]) old
unfolding or_else
last_or none true plan old = refl
last_or none false plan old = refl
last_or (some q) b plan old = refl

pub lookup-raw_plans :
    (ps : List Plan) (raw : Dict Plan) (name : String)
    → lookup name (raw_plans ps raw) ≡ or_else (last_plan name ps) (lookup name raw)
unfolding raw_plans or_else
lookup-raw_plans [] raw name = refl
lookup-raw_plans (plan ∷ ps) raw name = rw (lookup-raw_plans ps (insert plan.name plan raw) name) (
    rw (lookup-insert plan.name name plan raw)
      (last_or (last_plan name ps) (plan.name == name) plan (lookup name raw)))

choose_map :
    {A B : Type 0} (f : A → B) (b : Bool) (a : A) (o : Option B) (r : Option A)
    → o ≡ map_option f r
    → (if b then some (f a) else o) ≡ map_option f (if b then some a else r)
choose_map f true a o r e = refl
choose_map f false a o r e = e

module _ {F : Type 0} (max_float : F) (print : ℤ → String) where
  -- Each type of the cache is built from the plan of its name, with the prices of one moment.
  pub IsCoherent : Provider F → Type 0
  IsCoherent p =
      (prices : Dict F) × ((name : String)
        → lookup name p.instance_types_by_name
          ≡ map_option (λ plan. build_instance_type_with_prices max_float print p.zone plan prices)
              (lookup name p.plans_by_name))

  pub lookup-build_types :
      (zone : String) (prices : Dict F) (ps : List Plan) (built : Dict (InstanceType F))
      (raw : Dict Plan)
      → ((name : String)
          → lookup name built
            ≡ map_option
                (λ plan. build_instance_type_with_prices max_float print zone plan prices)
                (lookup name raw))
      → (name : String)
      → lookup name (build_types max_float print zone prices ps built)
        ≡ map_option
            (λ plan. build_instance_type_with_prices max_float print zone plan prices)
            (lookup name (raw_plans ps raw))
  unfolding build_types raw_plans
  lookup-build_types zone prices [] built raw h name = h name
  lookup-build_types zone prices (plan ∷ ps) built raw h name =
      lookup-build_types zone prices ps _ _
        (λ name.
          lookup-insert plan.name name
            (build_instance_type_with_prices max_float print zone plan prices) built
          ∙ choose_map (λ plan. build_instance_type_with_prices max_float print zone plan prices)
              (plan.name == name) plan (lookup name built) (lookup name raw) (h name)
          ∙ ap (map_option _) (sym (lookup-insert plan.name name plan raw)))
        name

  -- A refresh leaves the cache coherent if it was so: after an error of the plans it is the same cache,
  -- and otherwise each type is built from the plan of its name, whether the prices could be read or not.
  pub refresh-IsCoherent :
      (plans : Result String (List Plan)) (since now : ℤ) (answer : Result String (Dict (Dict F)))
      (p : Provider F)
      → IsCoherent p
      → IsCoherent (refresh max_float print plans since now answer p).0
  unfolding refresh IsCoherent lookup
  refresh-IsCoherent (err e) since now answer p h = h
  refresh-IsCoherent (ok ps) since now answer p h =
      let q = (refresh_prices since now answer p).0 in
      (q.prices, lookup-build_types q.zone q.prices ps [] [] (λ name. refl))

  -- After the plans were read, the cache holds for each name the last plan of that name, and the type built
  -- from it with the prices that the cache holds now; no error is returned, even if the prices could not be
  -- read.
  pub refresh_lem :
      (ps : List Plan) (since now : ℤ) (answer : Result String (Dict (Dict F))) (p : Provider F)
      (name : String)
      → let r = refresh max_float print (ok ps) since now answer p in
        (r.1 ≡ none)
        × (get_plan r.0 name ≡ last_plan name ps)
        × (lookup name r.0.instance_types_by_name
            ≡ map_option
                (λ plan. build_instance_type_with_prices max_float print r.0.zone plan r.0.prices)
                (last_plan name ps))
  unfolding refresh get_plan lookup
  refresh_lem ps since now answer p name =
      let q = (refresh_prices since now answer p).0 in
      let last = lookup-raw_plans ps [] name ∙ or_else-none (last_plan name ps) in
      (
        refl,
        last,
        lookup-build_types q.zone q.prices ps [] [] (λ name. refl) name ∙ ap (map_option _) last,
      )

  -- Within the lifetime of the prices, or when the service fails, the prices stay as they are, and so does
  -- the time of the last fetch: the next refresh asks again.
  pub prices_kept :
      (since now : ℤ) (answer : Result String (Dict (Dict F))) (p : Provider F)
      → (ltb_ℤ since p.cache_ttl ≡ true) ⊎ ((e : String) × (answer ≡ err e))
      → (refresh_prices since now answer p).0 ≡ p
  unfolding refresh_prices
  prices_kept since now answer p (inl e) = rw e refl
  prices_kept since now answer p (inr (x, e)) =
      rw e (elim (Bool-cases (ltb_ℤ since p.cache_ttl)) [ inl t ↦ rw t refl | inr t ↦ rw t refl ])
