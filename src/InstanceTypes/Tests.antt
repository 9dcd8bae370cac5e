-- ===== src/InstanceTypes/Tests.antt =====
-- A refresh with two plans of one name, and the memory of a plan.
use karpenter_provider_upclo.Base.{String, ℕ, lookup, ◌≡◌, ◌↔◌, Any, refl, some, List, [], ◌∷◌, ok}
use karpenter_provider_upclo.Base.Int.{ℤ, pos, negsuc}
use karpenter_provider_upclo.InstanceTypes.{
  Plan, Provider, InstanceType, build_instance_type_with_prices, refresh, get_plan, new_provider,
  refresh_prices, price_map, zone_prices,
}
use karpenter_provider_upclo.InstanceTypes.Interleaving.{
  Pc, idle, told, priced, copied, System, moved, swapped, Reach, start, later, pick, begin, price,
  copy, swap, Generation, Reach-Generation,
}
use karpenter_provider_upclo.Cloud.{get_instance_types}
use karpenter_provider_upclo.Cloud.Offers.{offered_types}
use karpenter_provider_upclo.InstanceTypes.Refresh.{last_plan}

abbrev small : ℤ → Plan
small cores = record {
  name = "DEV-1xCPU-1GB";
  core_number = cores;
  memory_amount = pos 1024;
  storage_size = pos 10;
  gpu_amount = negsuc 4;
  gpu_model = "";
}

abbrev empty : Provider ℕ
empty = record {
  zone = "fi-hel1";
  instance_types_by_name = [];
  plans_by_name = [];
  prices = ("DEV-1xCPU-1GB", 3) ∷ [];
  last_fetch = pos 0;
  cache_ttl = pos 1800000000000;
}

abbrev print : ℤ → String
print x = "n"

abbrev plans : List Plan
plans = small (pos 1) ∷ small (pos 2) ∷ []

-- Two refreshes: the second begins while the first is under way, and the first gets to its end.
abbrev IsPlans : List Plan → Type 0
IsPlans ps = ps ≡ plans

abbrev highest : ℕ
highest = 1000

abbrev after : (ℕ → Pc ℕ) → Provider ℕ → System highest print IsPlans
after pcs cache = record { pcs = pcs; cache = cache }

abbrev fresh : Provider ℕ
fresh = new_provider "fi-hel1"

abbrev at : ℕ → Pc ℕ → (ℕ → Pc ℕ) → ℕ → Pc ℕ
at i pc pcs = moved highest print IsPlans i pc pcs

abbrev priced_cache : Provider ℕ
priced_cache = (refresh_prices (pos 1800000000000) (pos 7) (ok []) fresh).0

two_reach : Reach highest print IsPlans "fi-hel1" (
    after
      (at 0 idle (
        at 0
          (copied plans [])
          (at 1 (told plans) (at 0 (priced plans) (at 0 (told plans) (λ i. idle))))))
      (swapped highest print IsPlans plans [] priced_cache))
unfolding refresh_prices new_provider price_map zone_prices lookup
two_reach =
    later _ _
      (later _ _
        (later _ _
          (later _ _
            (later _ _ start (
              pick 0 _ (after (at 0 (told plans) (λ i. idle)) fresh) (told plans)
                (begin plans fresh refl) refl))
            (pick 0 _ (after (at 0 (priced plans) (at 0 (told plans) (λ i. idle))) priced_cache)
              (priced plans)
              (price plans (pos 1800000000000) (pos 7) (ok []) fresh priced_cache refl) refl))
          (pick 1 _
            (after (at 1 (told plans) (at 0 (priced plans) (at 0 (told plans) (λ i. idle))))
              priced_cache)
            (told plans) (begin plans priced_cache refl) refl))
        (pick 0 _
          (after
            (at 0 (copied plans [])
              (at 1 (told plans) (at 0 (priced plans) (at 0 (told plans) (λ i. idle)))))
            priced_cache)
          (copied plans []) (copy plans [] priced_cache refl) refl))
      (pick 0 _ (after _ (swapped highest print IsPlans plans [] priced_cache)) idle
        (swap plans [] priced_cache _ refl) refl)

interleaved_example :
    Generation highest print IsPlans "fi-hel1" (swapped highest print IsPlans plans [] priced_cache)
interleaved_example = Reach-Generation highest print IsPlans "fi-hel1" _ two_reach

offered_types_example :
    let r = (refresh highest print (ok plans) (pos 1800000000000) (pos 7) (ok []) fresh).0 in
    (types : List (InstanceType ℕ)) × (get_instance_types r ≡ ok types)
    × ((t : InstanceType ℕ)
        → Any (λ x. x ≡ t) types ↔ (
            (name : String) × (plan : Plan) × (last_plan name plans ≡ some plan)
            × (get_plan r name ≡ some plan)
            × (t ≡ build_instance_type_with_prices highest print r.zone plan r.prices)))
offered_types_example = offered_types highest print plans (pos 1800000000000) (pos 7) (ok []) fresh
