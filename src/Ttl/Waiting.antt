-- ===== src/Ttl/Waiting.antt =====
-- When the TTL controller waits, and for how long.
use karpenter_provider_upclo.Base.{
  ◌≡◌, ◌≢◌, true, false, eq-false_of_ne, [], some, ok, arith, lookup-insert, eq_refl,
}
use karpenter_provider_upclo.Base.Int.{
  ℤ, pos, ◌-ℤ◌, ◌+ℤ◌, ◌≤ℤ◌, ◌<ℤ◌, ltb_ℤ, saturate64_id, wrap64, wrap64_id, IsInt64, int_laws,
  one_part,
}
use karpenter_provider_upclo.Kube.{NodeClaim, is_set, requeue_after}
use karpenter_provider_upclo.Api.{ttl_reset_annotation_key}
use karpenter_provider_upclo.Ttl.{
  Controller, Answers, TimeFormat, reconcile, reconcile_claim, elapsed, reset_claim, ttl_start,
}

-- The hypothesis on Go's RFC 3339 texts: they hold whole seconds, and are read back as written.
pub record KeepsSeconds (f : TimeFormat) (t : ℤ) : Type 0 where
  pub back : ℤ
  pub parsed : f.parse (f.format t) ≡ some back
  pub not_later : back ≤ℤ t
  pub within_second : t <ℤ back +ℤ pos 1000000000

module _ (c : Controller) (a : Answers) (nc : NodeClaim) where
  -- What is left of the ttl: the ttl less the time since its start, which must not be in the future.
  abbrev pub rest_of_ttl : ℤ
  rest_of_ttl = c.ttl -ℤ (a.now -ℤ ttl_start c.rfc3339 nc)

  -- A run that only waits: it changes nothing and comes back after exactly what is left of the ttl,
  -- which is more than 0 and at most the ttl.
  abbrev pub WaitsForRest : Type 0
  WaitsForRest =
      ((reconcile c a).writes ≡ [])
      × ((reconcile c a).result ≡ ok (requeue_after rest_of_ttl))
      × (pos 0 <ℤ rest_of_ttl)
      × (rest_of_ttl ≤ℤ c.ttl)

  waits_run :
      (d : ℤ)
      → a.claim ≡ ok nc
      → is_set nc.deletion_timestamp ≡ false
      → nc.node_name ≢ ""
      → ltb_ℤ (elapsed c a nc) c.ttl ≡ true
      → wrap64 (c.ttl -ℤ elapsed c a nc) ≡ d
      → ((reconcile c a).writes ≡ []) × ((reconcile c a).result ≡ ok (requeue_after d))
  unfolding reconcile reconcile_claim
  waits_run d found alive assigned young e =
      ground (arith, found, alive, eq-false_of_ne nc.node_name "" assigned, young, e)

  elapsed_lem :
      IsInt64 c.ttl
      → ttl_start c.rfc3339 nc ≤ℤ a.now
      → a.now -ℤ ttl_start c.rfc3339 nc <ℤ c.ttl
      → elapsed c a nc ≡ a.now -ℤ ttl_start c.rfc3339 nc
  unfolding elapsed
  elapsed_lem fits past young =
      saturate64_id _ (omega (int_laws, one_part (a.now -ℤ ttl_start c.rfc3339 nc)))

-- A live claim with a node, whose time to live started in the past and is not used up, is left
-- alone, and is looked at again when its time is up: after exactly the ttl less the time since its
-- start, a positive duration of at most the ttl, without overflow.
pub young_waits :
    (c : Controller) (a : Answers) (nc : NodeClaim)
    → IsInt64 c.ttl
    → a.claim ≡ ok nc
    → is_set nc.deletion_timestamp ≡ false
    → nc.node_name ≢ ""
    → ttl_start c.rfc3339 nc ≤ℤ a.now
    → a.now -ℤ ttl_start c.rfc3339 nc <ℤ c.ttl
    → WaitsForRest c a nc
young_waits c a nc fits found alive assigned past young =
    let gone = a.now -ℤ ttl_start c.rfc3339 nc in
    let left = c.ttl -ℤ gone in
    let e = elapsed_lem c a nc fits past young in
    let (silent, again) = waits_run c a nc left found alive assigned (rw e (ground arith)) (
      rw e
        (wrap64_id _ (omega (int_laws, one_part (c.ttl -ℤ (a.now -ℤ ttl_start c.rfc3339 nc)))))) in
    (silent, again, omega (int_laws, one_part left), omega (int_laws, one_part left))

pub start_of_reset :
    (c : Controller) (a : Answers) (nc : NodeClaim)
    → (k : KeepsSeconds c.rfc3339 a.reset_now) → ttl_start c.rfc3339 (reset_claim c a nc) ≡ k.back
unfolding ttl_start reset_claim
start_of_reset c a nc k = ground (
  arith,
  lookup-insert ttl_reset_annotation_key ttl_reset_annotation_key (c.rfc3339.format a.reset_now)
      nc.annotations,
  eq_refl ttl_reset_annotation_key,
  k.parsed,
)

-- Once the reset annotation is written, each later run within the time to live, but for the second
-- that the annotation's text rounds off, leaves the claim alone, and comes back after exactly the ttl
-- less the time since the start that the annotation's text gives.
pub reset_then_waits :
    (c : Controller) (a later : Answers) (nc : NodeClaim)
    → IsInt64 c.ttl
    → KeepsSeconds c.rfc3339 a.reset_now
    → is_set nc.deletion_timestamp ≡ false
    → nc.node_name ≢ ""
    → later.claim ≡ ok (reset_claim c a nc)
    → a.reset_now ≤ℤ later.now
    → later.now +ℤ pos 1000000000 ≤ℤ a.reset_now +ℤ c.ttl
    → WaitsForRest c later (reset_claim c a nc)
unfolding reset_claim
reset_then_waits c a later nc fits k alive assigned found past young =
    young_waits c later (reset_claim c a nc) fits found alive assigned
      (rw (start_of_reset c a nc k) (omega (int_laws, k.not_later)))
      (rw (start_of_reset c a nc k) (omega (int_laws, k.within_second)))
