-- ===== src/Cloud/Lookup.antt =====
-- How the operations look through `Get`.

use karpenter_provider_upclo.Base.{
  String, ◌≡◌, refl, sym, ap, ◌∙◌, inl, inr, none, some, Option-cases, List, true, eq_refl, ok, err,
}
use karpenter_provider_upclo.Base.Text.{trim_prefix, trim_prefix-append}
use karpenter_provider_upclo.Kube.{
  Error, NodeClaim, service, wrapped, node_claim_not_found, is_node_claim_not_found,
}
use karpenter_provider_upclo.Kube.Step.{rescue, pure, rescue_bind_step, rescue_err, bind_err}
use karpenter_provider_upclo.Api.{provider_id_prefix}
use karpenter_provider_upclo.Instance.{Server}
use karpenter_provider_upclo.Instance
use karpenter_provider_upclo.Instance.Fleet.{Mem, Holding}
use karpenter_provider_upclo.Cloud.{Cloud, get_claim, delete}
use karpenter_provider_upclo.Cloud
use karpenter_provider_upclo.Cloud.Claims.{build_node_claim}
use karpenter_provider_upclo.Cloud.Delete.{uuid_of}
use karpenter_provider_upclo.Cloud.Fleet.{IsAlone}
use karpenter_provider_upclo.Cloud.Observed.{seen, delete_takes, provider_id_of}

abbrev no_server : String → Error
no_server e = node_claim_not_found (wrapped "getting server" (service e))

module _ {S K : Type 0} (p : Cloud S K) (holding : S → Holding) (alone : IsAlone p holding) where
  pub got :
      (id u : String) (w v : S) (s : Server)
      → trim_prefix id provider_id_prefix ≡ u
      → p.servers.get_server_details u w ≡ (ok s, v)
      → get_claim p id w ≡ (ok (build_node_claim s p.zone), v)
  unfolding get_claim Instance.get_server
  got id u w v s t e =
      rescue_bind_step no_server (Instance.get_server p.servers (trim_prefix id provider_id_prefix))
        (λ server. pure (build_node_claim server p.zone)) w s v
        (ap (λ x. p.servers.get_server_details x w) t ∙ e)

  missed :
      (id u : String) (w v : S) (e : String)
      → trim_prefix id provider_id_prefix ≡ u
      → p.servers.get_server_details u w ≡ (err e, v)
      → get_claim p id w ≡ (err (no_server e), v)
  unfolding get_claim Instance.get_server
  missed id u w v e t q =
      let read = Instance.get_server p.servers (trim_prefix id provider_id_prefix) in
      bind_err (rescue no_server read) (λ server. pure (build_node_claim server p.zone)) w
        (no_server e) v
        (rescue_err no_server read w e v (ap (λ x. p.servers.get_server_details x w) t ∙ q))

  -- What Get gives for an id.
  pub data Got (id : String) (w : S) : Type 0 where
    held :
        (s : Server) (v : S)
        → holding w (trim_prefix id provider_id_prefix) ≡ some s
        → get_claim p id w ≡ (ok (build_node_claim s p.zone), v)
        → holding v ≡ holding w
        → Got id w
    gone :
        (x : Error) (v : S)
        → holding w (trim_prefix id provider_id_prefix) ≡ none
        → get_claim p id w ≡ (err x, v)
        → is_node_claim_not_found x ≡ true
        → holding v ≡ holding w
        → Got id w

  -- Under IsFleet, each id is either held or gone.
  pub get-Got : (id : String) (w : S) → Got id w
  unfolding is_node_claim_not_found
  get-Got id w =
      let u = trim_prefix id provider_id_prefix in
      elim (Option-cases (holding w u)) [
        | inr (s, h) ↦
            let (v, q, k) = alone.fleet.read w u s h in held s v h (got id u w v s refl q) k
        | inl h ↦
            let (e, v, q, k) = alone.fleet.unread w u h in
            gone (no_server e) v h (missed id u w v e refl q) refl k
      ]

  -- A claim that List shows is the one that Get gives for its provider id.
  pub listed_then_got :
      (c : NodeClaim) (w w' : S) (claims : List NodeClaim)
      → Cloud.list p w ≡ (ok claims, w')
      → Mem c claims
      → (v : S) × (get_claim p c.provider_id w ≡ (ok c, v))
  listed_then_got c w w' claims e m =
      let (s, f, _, r) = (seen p holding alone w w' claims e c).0 m in
      let (v, q, _) = alone.fleet.read w s.uuid s f in
      let t : trim_prefix c.provider_id provider_id_prefix ≡ s.uuid =
        ap (λ (x : NodeClaim). trim_prefix x.provider_id provider_id_prefix) r
        ∙ ap (λ (x : String). trim_prefix x provider_id_prefix)
            (provider_id_of p holding alone s p.zone)
        ∙ trim_prefix-append provider_id_prefix s.uuid in
      (v, got c.provider_id s.uuid w v s t q ∙ ap (λ (x : NodeClaim). (ok x, v)) (sym r))

  -- After a successful Delete, Get reports that there is no such NodeClaim.
  pub deleted_then_gone :
      (claim : NodeClaim) (w v : S)
      → delete p claim w ≡ (ok tt, v)
      → (x : Error) × (u : S) × (get_claim p claim.provider_id v ≡ (err x, u))
        × (is_node_claim_not_found x ≡ true)
  unfolding is_node_claim_not_found
  deleted_then_gone claim w v e =
      let a = delete_takes p holding alone claim w v e in
      let n : holding v (uuid_of claim) ≡ none =
        ap (λ (f : Holding). f (uuid_of claim)) a ∙ rw (eq_refl (uuid_of claim)) refl in
      let (y, u, q, _) = alone.fleet.unread v (uuid_of claim) n in
      (no_server y, u, missed claim.provider_id (uuid_of claim) v u y refl q, refl)
