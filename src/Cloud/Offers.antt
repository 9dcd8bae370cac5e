-- ===== src/Cloud/Offers.antt =====
-- What the provider offers to Karpenter, and what Create makes of it.
use karpenter_provider_upclo.Base.{String, ◌≡◌, refl, ◌↔◌, Any, Dict, some, List, Result, ok}
use karpenter_provider_upclo.Base.Int.{ℤ}
use karpenter_provider_upclo.InstanceTypes.{
  Plan, InstanceType, Provider, list, get_plan, build_instance_type_with_prices, refresh,
}
use karpenter_provider_upclo.InstanceTypes.Refresh.{last_plan}
use karpenter_provider_upclo.InstanceTypes.Offered.{offered_iff}
use karpenter_provider_upclo.Cloud.{get_instance_types}

-- After the plans were read, Karpenter is offered exactly these types: for each plan name of the answer, the one
-- built from the last plan of that name, with the prices that the cache holds. That plan is also the one that
-- the cache gives under the name afterwards.
pub offered_types :
    {F : Type 0} (max_float : F) (print : ℤ → String) (ps : List Plan) (since now : ℤ)
    (answer : Result String (Dict (Dict F))) (p : Provider F)
    → let r = (refresh max_float print (ok ps) since now answer p).0 in
      (types : List (InstanceType F)) × (get_instance_types r ≡ ok types)
      × ((t : InstanceType F)
          → Any (λ x. x ≡ t) types ↔ (
              (name : String) × (plan : Plan) × (last_plan name ps ≡ some plan)
              × (get_plan r name ≡ some plan)
              × (t ≡ build_instance_type_with_prices max_float print r.zone plan r.prices)))
unfolding get_instance_types
offered_types max_float print ps since now answer p =
    let r = (refresh max_float print (ok ps) since now answer p).0 in
    (list r, refl, λ t. offered_iff max_float print ps since now answer p t)
