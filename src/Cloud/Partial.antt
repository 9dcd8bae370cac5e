-- ===== src/Cloud/Partial.antt =====
-- A listing in which the details of a server cannot be read.
use Prim.Native.String.{◌++◌ as ◌+++◌}
use karpenter_provider_upclo.Base.{
  String, ◌≡◌, ◌≢◌, sym, ap, ◌∙◌, inl, inr, List, [], ◌∷◌, map, Bool-cases, Result-cases, Result,
  ok, err, All,
}
use karpenter_provider_upclo.Kube.{NodeClaim, wrapped, service}
use karpenter_provider_upclo.Kube.Step.{pure, rescue_bind_step}
use karpenter_provider_upclo.Api.{provider_id_prefix}
use karpenter_provider_upclo.Instance
use karpenter_provider_upclo.Instance.{Server, is_managed}
use karpenter_provider_upclo.Instance.Listing.{answered, list-filters}
use karpenter_provider_upclo.Cloud.{Cloud}
use karpenter_provider_upclo.Cloud
use karpenter_provider_upclo.Cloud.Claims.{build_node_claim}
use karpenter_provider_upclo.Cloud.Observed.{ids}

module _ (details : String → Result String Server)
    (own : (u : String) (s : Server) → details u ≡ ok s → s.uuid ≡ u) (lost e : String)
    (unread : details lost ≡ err e) where
  answered-lacks : (uuids : List String) → All (λ s. s.uuid ≢ lost) (answered details uuids)
  unfolding answered
  answered-lacks [] = tt
  answered-lacks (u ∷ uuids) =
      let rest = answered-lacks uuids in
      elim (Result-cases (details u)) [
        | inr (x, q) ↦ rw (q, answered) rest
        | inl (s, q) ↦ elim (Bool-cases (is_managed s.labels)) [
          | inr m ↦ rw (q, m, answered) rest
          | inl m ↦
              rw (q, m, answered)
                (
                  λ same.
                      let k : ok s ≡ err e = sym q ∙ ap details (sym (own u s q) ∙ same) ∙ unread in
                      cc,
                  rest,
                )
        ]
      ]

module _ {S K : Type 0} (p : Cloud S K) where
  claims-lack :
      (lost : String) (servers : List Server)
      → All (λ s. s.uuid ≢ lost) servers
      → All
          (λ (c : NodeClaim). c.provider_id ≢ provider_id_prefix +++ lost)
          (map (λ s. build_node_claim s p.zone) servers)
  unfolding build_node_claim
  claims-lack lost [] h = tt
  claims-lack lost (s ∷ servers) h = (λ e. h.0 (ids s.uuid lost e), claims-lack lost servers h.1)

  -- If UpCloud answers the list of servers and, for each UUID, either the details of that server or an error, and
  -- nothing changes meanwhile, List succeeds, and a server whose details are an error is not among its claims,
  -- also if its UUID is on the list.
  pub unread_unlisted :
      (w : S) (details : String → Result String Server) (uuids : List String) (lost e : String)
      → ((u : String) → p.servers.get_server_details u w ≡ (details u, w))
      → ((u : String) (s : Server) → details u ≡ ok s → s.uuid ≡ u)
      → p.servers.get_servers w ≡ (ok uuids, w)
      → details lost ≡ err e
      → (claims : List NodeClaim) × (Cloud.list p w ≡ (ok claims, w))
        × All (λ (c : NodeClaim). c.provider_id ≢ provider_id_prefix +++ lost) claims
  unfolding Cloud.list
  unread_unlisted w details uuids lost e reads own listed unread =
      let servers = answered details uuids in
      (
        map (λ s. build_node_claim s p.zone) servers,
        rescue_bind_step (λ e. wrapped "listing servers" (service e)) (Instance.list p.servers)
            (λ servers. pure (map (λ s. build_node_claim s p.zone) servers)) w servers w
            (list-filters p.servers w details reads uuids listed),
        claims-lack lost servers (answered-lacks details own lost e unread uuids),
      )
