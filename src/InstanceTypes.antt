-- ===== src/InstanceTypes.antt =====
-- pkg/providers/instancetypes/instancetypes.go: UpCloud's plans as Karpenter's instance types. `F` stands
-- for float64, of which only the largest value is used. The locks make each access of the cache a step
-- of its own. A requirement is a key and the one value of its In list.
pub mod Capacity
pub mod Refresh
pub mod Interleaving
pub mod Offered
pub mod Tests
use Prim.Native.String.{◌++◌ as ◌+++◌}
use karpenter_provider_upclo.Base.{
  String, ℕ, ◌*◌, ◌/◌, ◌+◌, ◌-◌, Dict, lookup, insert, Option, none, some, List, [], ◌∷◌, ◌++◌,
  Bool, true, false, not, ◌==◌, leb, if◌then◌else◌, Result, ok, err,
}
use karpenter_provider_upclo.Base.Int.{ℤ, pos, negsuc, ltb_ℤ, max_int64, times, to_int64}
use karpenter_provider_upclo.Base.Text.{trim_prefix}
use karpenter_provider_upclo.Plans.{is_spot_plan, instance_family}
use karpenter_provider_upclo.Api.{
  resource_nvidia_gpu, label_instance_type, label_arch, label_os, label_zone, label_instance_family,
  label_instance_cpu, label_instance_memory, label_instance_storage_size, label_instance_gpu_count,
  label_instance_gpu_model, capacity_type_label_key, capacity_type_spot, capacity_type_on_demand,
}

-- upcloud.Plan
pub record Plan : Type 0 where
  pub name : String
  pub core_number : ℤ
  pub memory_amount : ℤ
  pub storage_size : ℤ
  pub gpu_amount : ℤ
  pub gpu_model : String

pub record Offering (F : Type 0) : Type 0 where
  pub requirements : Dict String
  pub price : F
  pub available : Bool

pub record InstanceType (F : Type 0) : Type 0 where
  pub name : String
  pub requirements : Dict String
  pub offerings : List (Offering F)
  pub capacity : Dict ℤ

-- Decimal digits, as `%d` writes them; the parameter `print` of the definitions below.
pub record Provider (F : Type 0) : Type 0 where
  pub zone : String
  pub instance_types_by_name : Dict (InstanceType F)
  pub plans_by_name : Dict Plan
  pub prices : Dict F
  pub last_fetch : ℤ
  pub cache_ttl : ℤ

-- The time that Go makes of `time.Time{}`, in nanoseconds.
abbrev pub zero_time : ℤ
zero_time = negsuc 62135596799999999999

unfoldable pub new_provider : {F : Type 0} → String → Provider F
new_provider zone = record {
  zone = zone;
  instance_types_by_name = [];
  plans_by_name = [];
  prices = [];
  last_fetch = zero_time;
  cache_ttl = pos 1800000000000;
}

-- max(x, 0)
unfoldable pub at_least_zero : ℤ → ℤ
at_least_zero (pos n) = pos n
at_least_zero (negsuc n) = pos 0

-- The MiB of a plan in bytes, stopped at the largest int64.
unfoldable pub memory_bytes : ℤ → ℤ
memory_bytes (negsuc n) = to_int64 (times 1024 (to_int64 (times 1024 (negsuc n))))
memory_bytes (pos n) =
    if leb n (max_int64 / 1048576)
    then to_int64 (times 1024 (to_int64 (times 1024 (pos n))))
    else pos max_int64

unfoldable pub capacity_type : String → String
capacity_type plan = if is_spot_plan plan then capacity_type_spot else capacity_type_on_demand

unfoldable pub gpu_resources : ℤ → Dict ℤ → Dict ℤ
gpu_resources gpus resources =
    if ltb_ℤ (pos 0) gpus then insert resource_nvidia_gpu gpus resources else resources

unfoldable pub resources : Plan → Dict ℤ
unfolding at_least_zero memory_bytes gpu_resources
resources plan = gpu_resources (at_least_zero plan.gpu_amount) (
    ("cpu", at_least_zero plan.core_number)
    ∷ ("memory", memory_bytes (at_least_zero plan.memory_amount))
    ∷ ("pods", pos 110)
    ∷ [])

-- `fmt.Sprintf("%d", x)` is the argument `print`.
unfoldable pub requirements : (ℤ → String) → String → Plan → Dict String
unfolding at_least_zero capacity_type
requirements print zone plan =
    ((label_instance_type, plan.name)
      ∷ (label_arch, "amd64")
      ∷ (label_os, "linux")
      ∷ (label_zone, zone)
      ∷ (capacity_type_label_key, capacity_type plan.name)
      ∷ (label_instance_family, instance_family plan.name)
      ∷ (label_instance_cpu, print (at_least_zero plan.core_number))
      ∷ (label_instance_memory, print (at_least_zero plan.memory_amount))
      ∷ (label_instance_storage_size, print plan.storage_size)
      ∷ [])
    ++ (if ltb_ℤ (pos 0) (at_least_zero plan.gpu_amount)
        then (label_instance_gpu_count, print (at_least_zero plan.gpu_amount))
          ∷ (label_instance_gpu_model, plan.gpu_model)
          ∷ []
        else [])

unfoldable pub raw_plans : List Plan → Dict Plan → Dict Plan
raw_plans [] raw = raw
raw_plans (plan ∷ plans) raw = raw_plans plans (insert plan.name plan raw)

-- lo.Values
unfoldable pub values {ℓ} : {V : Type ℓ} → Dict V → List V
values [] = []
values ((k, v) ∷ m) = v ∷ values m

module _ {F : Type 0} where
  -- The loop over the prices of a zone, in the order in which the map gives them.
  unfoldable pub price_map : Dict F → Dict F → Dict F
  price_map [] prices = prices
  price_map ((item, price) ∷ items) prices =
      let name = trim_prefix item "server_plan_" in
      let stored = insert name price prices in
      price_map items
        (if name == item then insert ("server_plan_" +++ name) price stored else stored)

  -- The prices of the zone, or else of the first zone, or else none.
  unfoldable pub zone_prices : String → Dict (Dict F) → Dict F
  zone_prices zone by_zone = elim (lookup zone by_zone) [
    | some prices ↦ prices
    | none ↦ elim by_zone [ [] ↦ [] | z ∷ zs ↦ z.1 ]
  ]

  -- `since` is time.Since(lastFetch), `now` the time when the prices are stored, and `answer` the one
  -- of the API; the error is the second component.
  unfoldable pub refresh_prices :
      ℤ → ℤ → Result String (Dict (Dict F)) → Provider F → Provider F × Option String
  unfolding price_map zone_prices
  refresh_prices since now answer p = if ltb_ℤ since p.cache_ttl then (p, none) else elim answer [
    | err e ↦ (p, some ("fetching prices: " +++ e))
    | ok by_zone ↦
        (record p { prices = price_map (zone_prices p.zone by_zone) []; last_fetch = now }, none)
  ]

  unfoldable pub list : Provider F → List (InstanceType F)
  unfolding values
  list p = values p.instance_types_by_name

  unfoldable pub get_plan : Provider F → String → Option Plan
  get_plan p name = lookup name p.plans_by_name

module _ {F : Type 0} (max_float : F) (print : ℤ → String) where
  unfoldable pub price_of : Dict F → String → F
  price_of prices name = elim (lookup name prices) [ none ↦ max_float | some p ↦ p ]

  unfoldable pub build_instance_type_with_prices : String → Plan → Dict F → InstanceType F
  unfolding price_of
  build_instance_type_with_prices zone plan prices = record {
    name = plan.name;
    requirements = requirements print zone plan;
    offerings =
        record {
          requirements = (capacity_type_label_key, capacity_type plan.name) ∷ [];
          price = price_of prices plan.name;
          available = true;
        }
        ∷ [];
    capacity = resources plan;
  }

  -- The loop over the plans, on the two new maps.
  unfoldable pub build_types :
      String → Dict F → List Plan → Dict (InstanceType F) → Dict (InstanceType F)
  build_types zone prices [] built = built
  build_types zone prices (plan ∷ plans) built =
      build_types zone prices plans
        (insert plan.name (build_instance_type_with_prices zone plan prices) built)

  -- A failure to refresh the prices is logged only.
  unfoldable pub refresh :
      Result String (List Plan)
      → ℤ
      → ℤ
      → Result String (Dict (Dict F))
      → Provider F
      → Provider F × Option String
  unfolding refresh_prices build_types raw_plans
  refresh plans since now price_answer p = elim plans [
    | err e ↦ (p, some ("fetching plans: " +++ e))
    | ok ps ↦
        let q = (refresh_prices since now price_answer p).0 in
        (
          record q {
            instance_types_by_name = build_types q.zone q.prices ps [];
            plans_by_name = raw_plans ps [];
          },
          none,
        )
  ]
