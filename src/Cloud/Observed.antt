-- ===== src/Cloud/Observed.antt =====
-- How the operations look through `List`.
use Prim.Native.String.{◌++◌ as ◌+++◌}
use karpenter_provider_upclo.Base.{
  String, ◌≡◌, ◌≢◌, refl, sym, ap, subst, ◌∙◌, ◌↔◌, ◌⊎◌, inl, inr, here, there, All, [], ◌∷◌, some,
  List, Bool-cases, Result, ok, err, arith,
}
use karpenter_provider_upclo.Base.Text.{trim_prefix, trim_prefix-append}
use karpenter_provider_upclo.Kube.{NodeClaim, service, wrapped}
use karpenter_provider_upclo.Kube.Step.{step-cases, rescue, bind_ok, rescue_ok}
use karpenter_provider_upclo.Api.{provider_id_prefix}
use karpenter_provider_upclo.Instance.{Server, is_managed}
use karpenter_provider_upclo.Instance
use karpenter_provider_upclo.Instance.Fleet.{Mem, Holding, without_server}
use karpenter_provider_upclo.Cloud.{
  Cloud, create, delete, remove, after_stop, mentions, deletion_error,
}
use karpenter_provider_upclo.Cloud
use karpenter_provider_upclo.Cloud.Claims.{build_node_claim}
use karpenter_provider_upclo.Cloud.Delete.{uuid_of, stopped_by, illegal_removes, other_fails}
use karpenter_provider_upclo.Cloud.Fleet.{IsAlone, Owns, Owns-added, Owns-removed, claims_listed}
use karpenter_provider_upclo.Cloud.Launch.{create-Fate}

pub ids : (a b : String) → provider_id_prefix +++ a ≡ provider_id_prefix +++ b → a ≡ b
ids a b e =
    sym (trim_prefix-append provider_id_prefix a)
    ∙ ap (λ (t : String). trim_prefix t provider_id_prefix) e
    ∙ trim_prefix-append provider_id_prefix b

All-of_Mem :
    {P : NodeClaim → Type 0} (xs : List NodeClaim) → ((x : NodeClaim) → Mem x xs → P x) → All P xs
All-of_Mem [] h = tt
All-of_Mem (x ∷ xs) h = (h x (here refl), All-of_Mem xs (λ y m. h y (there m)))

module _ {S K : Type 0} (p : Cloud S K) (holding : S → Holding) (alone : IsAlone p holding) where
  -- A listing that was made shows the claims owned.
  pub seen :
      (w v : S) (claims : List NodeClaim)
      → Cloud.list p w ≡ (ok claims, v)
      → (c : NodeClaim) → Mem c claims ↔ Owns p.zone (holding w) c
  seen w v claims e =
      let (l, u, q, h, iff) = claims_listed p holding alone w in
      subst (λ (x : List NodeClaim). (c : NodeClaim) → Mem c x ↔ Owns p.zone (holding w) c)
        (ground arith) iff

  pub provider_id_of :
      (s : Server) (zone : String)
      → (build_node_claim s zone).provider_id ≡ provider_id_prefix +++ s.uuid
  unfolding build_node_claim
  provider_id_of s zone = refl

  -- In an account that only this provider changes, and whose list and details are always read without an error
  -- (IsFleet), a List after a successful Create shows one claim more than
  -- a List before it: a new one, with the provider id that Create returned, and otherwise the same.
  pub created_then_listed :
      (claim c : NodeClaim) (w w' v : S) (before : List NodeClaim)
      → Cloud.list p w ≡ (ok before, w')
      → create p claim w ≡ (ok c, v)
      → (after : List NodeClaim) × (u : S) × (new : NodeClaim) × (Cloud.list p v ≡ (ok after, u))
        × (new.provider_id ≡ c.provider_id)
        × All (λ (x : NodeClaim). x.provider_id ≢ c.provider_id) before
        × ((x : NodeClaim) → Mem x after ↔ ((x ≡ new) ⊎ Mem x before))
  created_then_listed claim c w w' v before b e =
      let (s, n, a, m, i) = create-Fate p holding alone claim w v (ok c) e in
      let (after, u, q, h, iff) = claims_listed p holding alone v in
      let old = seen w w' before b in
      let grown = λ (x : NodeClaim). Owns-added p.zone (holding w) s x n m in
      (
        after,
        u,
        build_node_claim s p.zone,
        q,
        provider_id_of s p.zone ∙ sym i,
        All-of_Mem before λ x k z.
            let (t, f, g, r) = (old x).0 k in
            let d = ap (λ (y : NodeClaim). y.provider_id) r ∙ provider_id_of t p.zone in
            let same = ids t.uuid s.uuid (sym d ∙ z ∙ i) in
            let held : holding w s.uuid ≡ some t = ap (holding w) (sym same) ∙ f in
            ground (arith, n, held),
        λ x. (
          λ k. elim ((grown x).0 (subst (λ (f : Holding). Owns p.zone f x) a ((iff x).0 k))) [
            | inl r ↦ inl r
            | inr r ↦ inr ((old x).1 r)
          ],
          λ k. (iff x).1 (
              subst (λ (f : Holding). Owns p.zone f x) (sym a)
                ((grown x).1 (elim k [ inl r ↦ inl r | inr r ↦ inr ((old x).0 r) ]))),
        ),
      )

  remove_takes :
      (u : String) (w v : S) → remove p u w ≡ (ok tt, v) → holding v ≡ without_server u (holding w)
  unfolding remove Instance.delete
  remove_takes u w v e =
      alone.fleet.removed u w v (rescue_ok deletion_error (Instance.delete p.servers u) w v tt e)

  pub kept_by :
      (claim : NodeClaim) (w u : S) (r : Result String (Unit {0}))
      → Instance.stop p.servers (uuid_of claim) w ≡ (r, u)
      → holding u ≡ holding w
  kept_by claim w u r e =
      ap (λ (x : Result String (Unit {0}) × S). holding x.1) (sym e)
      ∙ alone.fleet.stopping w (uuid_of claim)

  waited_takes :
      (claim : NodeClaim) (w v : S)
      → after_stop p (uuid_of claim) (ok tt) w ≡ (ok tt, v)
      → holding v ≡ without_server (uuid_of claim) (holding w)
  unfolding after_stop
  waited_takes claim w v e =
      let wrap = λ (e : String). wrapped "waiting for server to stop" (service e) in
      let wait = Instance.wait_for_stop p.servers (uuid_of claim) in
      let (_, u, a, b) = bind_ok (rescue wrap wait) (λ _. remove p (uuid_of claim)) w v tt e in
      let k = rescue_ok wrap wait w u tt a in
      remove_takes (uuid_of claim) u v b
      ∙ ap (without_server (uuid_of claim)) (
          ap (λ (x : Result String (Unit {0}) × S). holding x.1) (sym k)
          ∙ alone.fleet.waiting w (uuid_of claim))

  refused_takes :
      (claim : NodeClaim) (w v : S) (y : String)
      → after_stop p (uuid_of claim) (err y) w ≡ (ok tt, v)
      → holding v ≡ without_server (uuid_of claim) (holding w)
  unfolding after_stop
  refused_takes claim w v y e = elim (Bool-cases (mentions y "SERVER_NOT_FOUND")) [
    | inl m ↦ absurd (ground (arith, m, e))
    | inr m ↦ elim (Bool-cases (mentions y "SERVER_STATE_ILLEGAL")) [
      | inl i ↦ remove_takes (uuid_of claim) w v (sym (illegal_removes p claim w y m i) ∙ e)
      | inr i ↦ let r = sym (other_fails p claim w y m i) ∙ e in absurd (ground arith)
    ]
  ]

  pub delete_takes :
      (claim : NodeClaim) (w v : S)
      → delete p claim w ≡ (ok tt, v)
      → holding v ≡ without_server (uuid_of claim) (holding w)
  delete_takes claim w v e = elim (step-cases (Instance.stop p.servers (uuid_of claim)) w) [
    | inl (_, u, q) ↦
        waited_takes claim u v (sym (stopped_by p claim w u (ok tt) q) ∙ e)
        ∙ ap (without_server (uuid_of claim)) (kept_by claim w u (ok tt) q)
    | inr (y, u, q) ↦
        refused_takes claim u v y (sym (stopped_by p claim w u (err y) q) ∙ e)
        ∙ ap (without_server (uuid_of claim)) (kept_by claim w u (err y) q)
  ]

  -- In an account that only this provider changes, and whose list and details are always read without an error
  -- (IsFleet), a List after a successful Delete shows exactly the claims
  -- that a List before it shows, less the one with the provider id of the deleted claim.
  pub deleted_then_listed :
      (claim : NodeClaim) (id : String) (w w' v : S) (before : List NodeClaim)
      → claim.provider_id ≡ provider_id_prefix +++ id
      → Cloud.list p w ≡ (ok before, w')
      → delete p claim w ≡ (ok tt, v)
      → (after : List NodeClaim) × (u : S) × (Cloud.list p v ≡ (ok after, u))
        × ((x : NodeClaim) → Mem x after ↔ (Mem x before × (x.provider_id ≢ claim.provider_id)))
  deleted_then_listed claim id w w' v before i b e =
      let (after, u, q, h, iff) = claims_listed p holding alone v in
      let old = seen w w' before b in
      let less = λ (x : NodeClaim). Owns-removed p.zone (holding w) (uuid_of claim) x in
      let a = delete_takes claim w v e in
      let named : uuid_of claim ≡ id =
        ap (λ (t : String). trim_prefix t provider_id_prefix) i
        ∙ trim_prefix-append provider_id_prefix id in
      (
        after,
        u,
        q,
        λ x. (
          λ k.
              let (s, f, m, r, n) =
                (less x).0 (subst (λ (g : Holding). Owns p.zone g x) a ((iff x).0 k)) in
              let d = ap (λ (y : NodeClaim). y.provider_id) r ∙ provider_id_of s p.zone in
              ((old x).1 (s, f, m, r), λ z. n (ids s.uuid id (sym d ∙ z ∙ i) ∙ sym named)),
          λ k.
              let (s, f, m, r) = (old x).0 k.0 in
              let d = ap (λ (y : NodeClaim). y.provider_id) r ∙ provider_id_of s p.zone in
              (iff x).1 (
                subst (λ (g : Holding). Owns p.zone g x) (sym a)
                  ((less x).1 (
                    s,
                    f,
                    m,
                    r,
                    λ z.
                        k.1 (d ∙ ap (λ (t : String). provider_id_prefix +++ t) (z ∙ named) ∙ sym i),
                  ))),
        ),
      )
