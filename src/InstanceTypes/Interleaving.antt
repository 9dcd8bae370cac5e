-- ===== src/InstanceTypes/Interleaving.antt =====
-- Refreshes that run side by side. A refresh takes the lock of the cache three times: to store the prices, to
-- copy them, and to put the new types and plans in place. Between any two of these others may act.
use karpenter_provider_upclo.Base.{
  String, ℕ, ◌≡◌, refl, sym, ap, subst, ◌∙◌, ◌⊎◌, inl, inr, Dict, lookup, or_else-none, List, [],
  if◌then◌else◌, Bool-cases, Result, ok, err, nat_eq,
}
use karpenter_provider_upclo.Base.Int.{ℤ, ltb_ℤ}
use karpenter_provider_upclo.InstanceTypes.{
  Plan, Provider, new_provider, build_instance_type_with_prices, build_types, raw_plans,
  refresh_prices, refresh, get_plan,
}
use karpenter_provider_upclo.InstanceTypes.Refresh.{
  last_plan, map_option, lookup-raw_plans, lookup-build_types,
}

-- Where a refresh stands: not begun, told the plans, done with the prices, and with its copy of them.
pub data Pc (F : Type 0) : Type 0 where
  idle : Pc F
  told : List Plan → Pc F
  priced : List Plan → Pc F
  copied : List Plan → Dict F → Pc F

module _ {F : Type 0} (max_float : F) (print : ℤ → String) (Answered : List Plan → Type 0) where
  -- `p.instanceTypesByName = built; p.plansByName = rawPlans`
  abbrev pub swapped : List Plan → Dict F → Provider F → Provider F
  swapped ps prices p = record p {
    instance_types_by_name = build_types max_float print p.zone prices ps [];
    plans_by_name = raw_plans ps [];
  }

  -- One step of a refresh: what it makes of its place and of the cache. The age of the prices may have been
  -- read long before they are stored, so it is any number here.
  pub data Move : Pc F → Provider F → Pc F → Provider F → Type 0 where
    begin : (ps : List Plan) (p : Provider F) → Answered ps → Move idle p (told ps) p
    price :
        (ps : List Plan) (since now : ℤ) (answer : Result String (Dict (Dict F))) (p q : Provider F)
        → q ≡ (refresh_prices since now answer p).0
        → Move (told ps) p (priced ps) q
    copy :
        (ps : List Plan) (prices : Dict F) (p : Provider F)
        → prices ≡ p.prices
        → Move (priced ps) p (copied ps prices) p
    swap :
        (ps : List Plan) (prices : Dict F) (p q : Provider F)
        → q ≡ swapped ps prices p
        → Move (copied ps prices) p idle q

  pub record System : Type 0 where
    pub pcs : ℕ → Pc F
    pub cache : Provider F

  abbrev pub moved : ℕ → Pc F → (ℕ → Pc F) → ℕ → Pc F
  moved i pc pcs j = if nat_eq i j then pc else pcs j

  pub data Step : System → System → Type 0 where
    pick :
        (i : ℕ) (s t : System) (pc : Pc F)
        → Move (s.pcs i) s.cache pc t.cache
        → t.pcs ≡ moved i pc s.pcs
        → Step s t

  pub data Reach (zone : String) : System → Type 0 where
    start : Reach zone record { pcs = λ i. idle; cache = new_provider zone }
    later : (s t : System) → Reach zone s → Step s t → Reach zone t

  -- The plans and the types of the cache are those of one answer of the service, and of one price list.
  pub record Generation (zone : String) (p : Provider F) : Type 0 where
    pub plans : List Plan
    pub prices : Dict F
    pub origin : (plans ≡ []) ⊎ Answered plans
    pub same_zone : p.zone ≡ zone
    pub stored : (name : String) → get_plan p name ≡ last_plan name plans
    pub built :
        (name : String)
        → lookup name p.instance_types_by_name
          ≡ map_option
              (λ plan. build_instance_type_with_prices max_float print zone plan prices)
              (last_plan name plans)

  -- The plans that a refresh holds were answered.
  abbrev Holds : Pc F → Type 0
  Holds idle = Unit
  Holds (told ps) = Answered ps
  Holds (priced ps) = Answered ps
  Holds (copied ps prices) = Answered ps

  record Inv (zone : String) (s : System) : Type 0 where
    generation : Generation zone s.cache
    holds : (i : ℕ) → Holds (s.pcs i)

  fresh-Generation : (zone : String) → Generation zone (new_provider zone)
  unfolding new_provider get_plan lookup
  fresh-Generation zone = record {
    plans = [];
    prices = [];
    origin = inl refl;
    same_zone = refl;
    stored = λ name. refl;
    built = λ name. refl;
  }

  priced-Generation :
      (zone : String) (since now : ℤ) (answer : Result String (Dict (Dict F))) (p : Provider F)
      → Generation zone p
      → Generation zone (refresh_prices since now answer p).0
  unfolding refresh_prices get_plan
  priced-Generation zone since now (err e) p g = elim (Bool-cases (ltb_ℤ since p.cache_ttl)) [
    | inl t ↦ rw (t, refresh_prices) g
    | inr t ↦ rw (t, refresh_prices) g
  ]
  priced-Generation zone since now (ok by_zone) p g = elim (Bool-cases (ltb_ℤ since p.cache_ttl)) [
    | inl t ↦ rw (t, refresh_prices) g
    | inr t ↦
        rw (t, refresh_prices)
          (record {
            plans = g.plans;
            prices = g.prices;
            origin = g.origin;
            same_zone = g.same_zone;
            stored = g.stored;
            built = g.built;
          })
  ]

  swapped-Generation :
      (ps : List Plan) (prices : Dict F) (p : Provider F)
      → Answered ps
      → Generation p.zone (swapped ps prices p)
  unfolding get_plan lookup
  swapped-Generation ps prices p a = record {
    plans = ps;
    prices = prices;
    origin = inr a;
    same_zone = refl;
    stored = λ name. last name;
    built = λ name.
        lookup-build_types max_float print p.zone prices ps [] [] (λ name. refl) name
        ∙ ap
            (map_option
              (λ plan. build_instance_type_with_prices max_float print p.zone plan prices))
            (last name);
  }
    where
      last : (name : String) → lookup name (raw_plans ps []) ≡ last_plan name ps
      last name = lookup-raw_plans ps [] name ∙ or_else-none (last_plan name ps)

  Move-Inv :
      (zone : String) (pc pc' : Pc F) (p q : Provider F)
      → Move pc p pc' q
      → Generation zone p
      → Holds pc
      → Generation zone q × Holds pc'
  Move-Inv zone _ _ p _ (begin ps _ a) g h = (g, a)
  Move-Inv zone _ _ p q (price ps since now answer _ _ e) g h =
      (subst (Generation zone) (sym e) (priced-Generation zone since now answer p g), h)
  Move-Inv zone _ _ p _ (copy ps prices _ e) g h = (g, h)
  Move-Inv zone _ _ p q (swap ps prices _ _ e) g h = (
    subst (Generation zone) (sym e) (
        subst (λ z. Generation z (swapped ps prices p)) g.same_zone
          (swapped-Generation ps prices p h)),
    tt,
  )

  Holds-moved :
      (i j : ℕ) (pc : Pc F) (pcs : ℕ → Pc F) → Holds pc → Holds (pcs j) → Holds (moved i pc pcs j)
  Holds-moved i j pc pcs h k = elim (Bool-cases (nat_eq i j)) [ inl e ↦ rw e h | inr e ↦ rw e k ]

  Step-Inv : (zone : String) (s t : System) → Step s t → Inv zone s → Inv zone t
  Step-Inv zone s t (pick i _ _ pc m e) inv =
      let (g, h) = Move-Inv zone (s.pcs i) pc s.cache t.cache m inv.generation (inv.holds i) in
      record {
        generation = g;
        holds = λ j.
            subst (λ (f : ℕ → Pc F). Holds (f j)) (sym e)
              (Holds-moved i j pc s.pcs h (inv.holds j));
      }

  Reach-Inv : (zone : String) (s : System) → Reach zone s → Inv zone s
  Reach-Inv zone _ start = record { generation = fresh-Generation zone; holds = λ i. tt }
  Reach-Inv zone t (later s _ r st) = Step-Inv zone s t st (Reach-Inv zone s r)

  -- However refreshes run side by side, and whatever the service answers, the cache holds at any time the
  -- plans of one single answer, or none at the start, and for each of them the type built from it with one
  -- and the same price list: no reader sees a type without its plan or the plans of two answers.
  pub Reach-Generation : (zone : String) (s : System) → Reach zone s → Generation zone s.cache
  Reach-Generation zone s r = (Reach-Inv zone s r).generation

  -- The steps of one refresh that nobody disturbs lead to the cache that `refresh` gives.
  pub alone :
      (ps : List Plan) (since now : ℤ) (answer : Result String (Dict (Dict F))) (p : Provider F)
      → Answered ps
      → (q : Provider F) × (prices : Dict F) × Move idle p (told ps) p
        × Move (told ps) p (priced ps) q
        × Move (priced ps) q (copied ps prices) q
        × Move (copied ps prices) q idle (refresh max_float print (ok ps) since now answer p).0
  unfolding refresh
  alone ps since now answer p a =
      let q = (refresh_prices since now answer p).0 in
      (
        q,
        q.prices,
        begin ps p a,
        price ps since now answer p q refl,
        copy ps q.prices q refl,
        swap ps q.prices q _ refl,
      )
