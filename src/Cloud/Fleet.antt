-- ===== src/Cloud/Fleet.antt =====
-- What the operations of the provider do to the account, seen as the claims that it owns.
pub mod Account
pub mod Tests
pub mod Second
use Prim.Native.String.{◌++◌ as ◌+++◌}
use karpenter_provider_upclo.Base.{
  String, ◌≡◌, ◌≢◌, refl, sym, ap, subst, ◌∙◌, ◌↔◌, ◌⊎◌, inl, inr, Any, here, there, Option, none,
  some, lookup, Option-cases, List, [], ◌∷◌, map, Bool, true, false, ◌==◌, eq_iff, eq_refl,
  eq-false_of_ne, if◌then◌else◌, Bool-cases, Result, ok, err, Result-cases, arith,
}
use karpenter_provider_upclo.Base.Text.{Text, trim_prefix, trim_prefix-append}
use karpenter_provider_upclo.Kube.{Error, NodeClaim, service, wrapped, insufficient_capacity}
use karpenter_provider_upclo.Kube.Step.{
  Step, ◌>>=◌, rescue, from_result, pure, step-cases, bind_step, bind_err, rescue_step, rescue_err,
  rescue_bind_step,
}
use karpenter_provider_upclo.Kube.Kept.{Keeps, rescue-Keeps}
use karpenter_provider_upclo.Api.{provider_id_prefix}
use karpenter_provider_upclo.Api.Spec.{Spec}
use karpenter_provider_upclo.Instance.{
  Server, Service, CreateRequest, create_request, managed_labels, is_managed,
}
use karpenter_provider_upclo.Instance
use karpenter_provider_upclo.Instance.Labels.{managed_labels-IsManaged}
use karpenter_provider_upclo.Instance.Fleet.{
  Mem, Holding, IsFleet, with_server, without_server, list_owned,
}
use karpenter_provider_upclo.Certs.{KubeletCertBundle, get_ca_bundle, generate_kubelet_cert}
use karpenter_provider_upclo.Certs.Quiet.{IsQuiet, IsPure, bundle-Keeps, generate-Keeps}
use karpenter_provider_upclo.Cloud.{
  Cloud, resolve_node_class, launch, user_data_of, with_certs, with_ca, create_named, with_class,
  create,
}
use karpenter_provider_upclo.Cloud
use karpenter_provider_upclo.Cloud.Claims.{
  created_claim, build_node_claim, node_labels, chosen_plan, chosen_storage, server_labels,
  server_name,
}

-- A provider whose account is a fleet that only its own calls change.
pub record IsAlone {S K : Type 0} (p : Cloud S K) (holding : S → Holding) : Type 0 where
  pub fleet : IsFleet p.servers holding
  pub refused :
      (r : CreateRequest) (w v : S) (e : String)
      → p.servers.create_server r w ≡ (err e, v)
      → holding v ≡ holding w
  pub undeleted :
      (u : String) (w v : S) (e : String)
      → p.servers.delete_server_and_storages u w ≡ (err e, v)
      → holding v ≡ holding w
  pub quiet : IsQuiet holding p.cluster
  pub clean : IsPure holding p.crypto
  pub class_read : (name : String) → Keeps holding (p.get_class name)
  pub named : (w : S) → holding (p.new_uuid w).1 ≡ holding w

-- The claims that an account owns: those of its managed servers.
abbrev pub Owns : String → Holding → NodeClaim → Type 0
Owns zone f c =
    (s : Server) × (f s.uuid ≡ some s)
    × (is_managed s.labels ≡ true)
    × (c ≡ build_node_claim s zone)

pub Owns-added :
    (zone : String) (f : Holding) (s : Server) (c : NodeClaim)
    → f s.uuid ≡ none
    → is_managed s.labels ≡ true
    → Owns zone (with_server s f) c ↔ ((c ≡ build_node_claim s zone) ⊎ Owns zone f c)
Owns-added zone f s c n m = (split, join)
  where
    split : Owns zone (with_server s f) c → (c ≡ build_node_claim s zone) ⊎ Owns zone f c
    split (x, e, b, q) = elim (Bool-cases (s.uuid == x.uuid)) [
      | inl t ↦
          let k : s ≡ x = ground (arith, e, t) in
          inl (q ∙ ap (λ (y : Server). build_node_claim y zone) (sym k))
      | inr t ↦ let k : f x.uuid ≡ some x = ground (arith, e, t) in inr (x, k, b, q)
    ]

    join : (c ≡ build_node_claim s zone) ⊎ Owns zone f c → Owns zone (with_server s f) c
    join (inl q) = (s, rw (eq_refl s.uuid) refl, m, q)
    join (inr (x, e, b, q)) = elim (Bool-cases (s.uuid == x.uuid)) [
      | inr t ↦ (x, rw t e, b, q)
      | inl t ↦
          let k = (eq_iff s.uuid x.uuid).0 t in
          let z : f s.uuid ≡ some x = ap f k ∙ e in absurd (ground (arith, n, z))
    ]

pub Owns-removed :
    (zone : String) (f : Holding) (u : String) (c : NodeClaim)
    → Owns zone (without_server u f) c ↔ (
        (s : Server) × (f s.uuid ≡ some s)
        × (is_managed s.labels ≡ true)
        × (c ≡ build_node_claim s zone)
        × (s.uuid ≢ u))
Owns-removed zone f u c = (split, join)
  where
    split :
        Owns zone (without_server u f) c
        → (s : Server) × (f s.uuid ≡ some s)
          × (is_managed s.labels ≡ true)
          × (c ≡ build_node_claim s zone)
          × (s.uuid ≢ u)
    split (x, e, b, q) = elim (Bool-cases (u == x.uuid)) [
      | inl t ↦ absurd (ground (arith, e, t))
      | inr t ↦
          let k : f x.uuid ≡ some x = ground (arith, e, t) in
          (x, k, b, q, λ z. ground (arith, z, t, eq_refl u))
    ]

    join :
        ((s : Server) × (f s.uuid ≡ some s)
          × (is_managed s.labels ≡ true)
          × (c ≡ build_node_claim s zone)
          × (s.uuid ≢ u))
        → Owns zone (without_server u f) c
    join (x, e, b, q, n) = (x, rw (eq-false_of_ne u x.uuid (λ z. n (sym z))) e, b, q)

pub Mem-map :
    {A B : Type 0} (f : A → B) (xs : List A) (y : B)
    → Mem y (map f xs)
    → (x : A) × Mem x xs × (y ≡ f x)
Mem-map f [] y m = elim m [ ]
Mem-map f (x ∷ xs) y (here e) = (x, here refl, sym e)
Mem-map f (x ∷ xs) y (there m) = let (z, k, e) = Mem-map f xs y m in (z, there k, e)

pub map-Mem : {A B : Type 0} (f : A → B) (xs : List A) (x : A) → Mem x xs → Mem (f x) (map f xs)
map-Mem f [] x m = elim m [ ]
map-Mem f (x ∷ xs) z (here e) = here (ap f e)
map-Mem f (x ∷ xs) z (there m) = there (map-Mem f xs z m)

module _ {S K : Type 0} (p : Cloud S K) (holding : S → Holding) (alone : IsAlone p holding) where
  -- `List` gives exactly the claims that the account owns, and changes nothing.
  pub claims_listed :
      (w : S)
      → (claims : List NodeClaim) × (v : S) × (Cloud.list p w ≡ (ok claims, v))
        × (holding v ≡ holding w)
        × ((c : NodeClaim) → Mem c claims ↔ Owns p.zone (holding w) c)
  unfolding Cloud.list
  claims_listed w =
      let (servers, v, q, h, iff) = list_owned p.servers holding alone.fleet w in
      let build = λ (s : Server). build_node_claim s p.zone in
      (
        map build servers,
        v,
        rescue_bind_step (λ e. wrapped "listing servers" (service e)) (Instance.list p.servers)
            (λ servers. pure (map build servers)) w servers v q,
        h,
        λ c. (
          λ m.
              let (s, k, e) = Mem-map build servers c m in let (a, b) = (iff s).0 k in (s, a, b, e),
          λ o.
              let (s, a, b, e) = o in
              subst (λ (x : NodeClaim). Mem x (map build servers)) (sym e)
                (map-Mem build servers s ((iff s).1 (a, b))),
        ),
      )
