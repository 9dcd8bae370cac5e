-- ===== src/Cloud/Create.antt =====
-- What `Create` returns, and how the other operations read it.
use Prim.Native.String.{◌++◌ as ◌+++◌}
use karpenter_provider_upclo.Base.{
  String, Dict, ℕ, lookup, get, ◌≡◌, refl, ap, ◌∙◌, eq_refl, Option, some, arith, ok, err,
}
use karpenter_provider_upclo.Base.Text.{Text, trim_prefix, trim_prefix-append}
use karpenter_provider_upclo.Kube.{
  Error, NodeClaim, service, wrapped, insufficient_capacity, node_claim_not_found,
}
use karpenter_provider_upclo.Kube.Step.{
  pure, from_result, rescue, bind_ok, bind_err, rescue_bind_step, rescue_ok,
}
use karpenter_provider_upclo.Api.{provider_id_prefix}
use karpenter_provider_upclo.Api.Spec.{Spec, hash}
use karpenter_provider_upclo.Drift.{drift_reason}
use karpenter_provider_upclo.Instance.{Server}
use karpenter_provider_upclo.Instance
use karpenter_provider_upclo.Certs.{KubeletCertBundle, get_ca_bundle, generate_kubelet_cert}
use karpenter_provider_upclo.Cloud.{
  Cloud, resolve_node_class, launch, user_data_of, create_named, with_ca, with_certs, with_class,
  create, get_claim,
}
use karpenter_provider_upclo.Cloud.Claims.{
  chosen_plan, chosen_storage, server_labels, node_labels, created_claim, build_node_claim,
  server_name,
}

created_undrifted :
    (digest : Spec → Option ℕ) (spec : Spec) (claim : NodeClaim) (name : String)
    (labels : Dict String) (server : Server)
    → drift_reason digest spec (created_claim digest spec claim name labels server) ≡ ""
unfolding drift_reason created_claim get lookup
created_undrifted digest spec claim name labels server = ground (arith, eq_refl (hash digest spec))

module _ {S K : Type 0} (p : Cloud S K) where
  launched :
      (spec : Spec) (claim : NodeClaim) (name : String) (user_data : Text) (w v : S) (c : NodeClaim)
      → launch p spec claim name user_data w ≡ (ok c, v)
      → (server : Server) × (c
          ≡ created_claim p.digest spec claim name
              (node_labels p.zone (chosen_plan spec claim) spec claim)
              server)
  unfolding launch
  launched spec claim name user_data w v c q =
      let storage =
        chosen_storage (lookup (chosen_plan spec claim) (p.cached_plans w)) spec.storage in
      let (server, u, _, r) =
        bind_ok
          (rescue (λ (e : String). insufficient_capacity (wrapped "creating server" (service e)))
            (Instance.create p.servers p.instances name (chosen_plan spec claim) p.zone user_data
              spec.server_group_uuid (some (server_labels spec)) storage))
          (λ server. pure (
            created_claim p.digest spec claim name
              (node_labels p.zone (chosen_plan spec claim) spec claim) server))
          w v c q in
      (server, ground arith)

  named :
      (spec : Spec) (claim : NodeClaim) (name : String) (w v : S) (c : NodeClaim)
      → create_named p spec claim name w ≡ (ok c, v)
      → (server : Server) × (c
          ≡ created_claim p.digest spec claim name
              (node_labels p.zone (chosen_plan spec claim) spec claim)
              server)
  unfolding create_named with_ca with_certs
  named spec claim name w v c q =
      let (ca, w1, _, p1) =
        bind_ok (rescue (wrapped "getting CA bundle") (get_ca_bundle p.cluster))
          (with_ca p spec claim name) w v c q in
      let (certs, w2, _, p2) =
        bind_ok
          (rescue (wrapped "generating kubelet certificate")
            (generate_kubelet_cert p.cluster p.crypto name))
          (with_certs p spec claim name ca) w1 v c p1 in
      let (user_data, w3, _, p3) =
        bind_ok (from_result (user_data_of p spec claim ca certs)) (launch p spec claim name) w2 v c
          p2 in
      launched spec claim name user_data w3 v c p3

  -- The claim that Create returns is the one built from the node class that it read, for some server that
  -- UpCloud created, and it is not drifted from that class.
  pub created :
      (claim : NodeClaim) (w v : S) (c : NodeClaim)
      → create p claim w ≡ (ok c, v)
      → (spec : Spec) × (u : S) × (server : Server) × (resolve_node_class p claim w ≡ (ok spec, u))
        × (c
            ≡ created_claim p.digest spec claim
                (server_name (p.new_uuid u).0)
                (node_labels p.zone (chosen_plan spec claim) spec claim)
                server)
        × (drift_reason p.digest spec c ≡ "")
  unfolding create with_class
  created claim w v c q =
      let (spec, u, r, s) =
        bind_ok (rescue (wrapped "resolving node class") (resolve_node_class p claim))
          (with_class p claim) w v c q in
      let (server, e) = named spec claim (server_name (p.new_uuid u).0) (p.new_uuid u).1 v c s in
      (
        spec,
        u,
        server,
        rescue_ok (wrapped "resolving node class") (resolve_node_class p claim) w u spec r,
        e,
        ap (drift_reason p.digest spec) e ∙ created_undrifted p.digest spec claim _ _ server,
      )

  -- The provider id of a created claim leads back to its server: `Get` returns a claim with the same
  -- provider id, node name, capacity and allocatable resources as long as UpCloud gives the same server.
  pub get_created :
      (spec : Spec) (claim : NodeClaim) (name : String) (labels : Dict String) (server : Server)
      (w v : S)
      → Instance.get_server p.servers server.uuid w ≡ (ok server, v)
      → let c = created_claim p.digest spec claim name labels server in
        (d : NodeClaim) × (get_claim p c.provider_id w ≡ (ok d, v))
        × (d.provider_id ≡ c.provider_id)
        × (d.node_name ≡ c.node_name)
        × (d.capacity ≡ c.capacity)
        × (d.allocatable ≡ c.allocatable)
  unfolding get_claim created_claim build_node_claim
  get_created spec claim name labels server w v e = (
    build_node_claim server p.zone,
    rescue_bind_step (λ (e : String). node_claim_not_found (wrapped "getting server" (service e)))
        (Instance.get_server p.servers
          (trim_prefix (provider_id_prefix +++ server.uuid) provider_id_prefix))
        (λ server. pure (build_node_claim server p.zone)) w server v
        (ap (λ uuid. Instance.get_server p.servers uuid w)
            (trim_prefix-append provider_id_prefix server.uuid)
          ∙ e),
    refl,
    refl,
    refl,
    refl,
  )

  -- If the CA bundle and the certificate could be had and the user data is refused, Create
  -- ends with that error in the world in which the certificate was made: no server is asked
  -- for.
  pub refused_user_data :
      (spec : Spec) (claim : NodeClaim) (name : String) (ca : Text) (certs : KubeletCertBundle)
      (x : Error) (w u v : S)
      → get_ca_bundle p.cluster w ≡ (ok ca, u)
      → generate_kubelet_cert p.cluster p.crypto name u ≡ (ok certs, v)
      → user_data_of p spec claim ca certs ≡ err x
      → create_named p spec claim name w ≡ (err x, v)
  unfolding create_named with_ca with_certs
  refused_user_data spec claim name ca certs x w u v a b e =
      rescue_bind_step (wrapped "getting CA bundle") (get_ca_bundle p.cluster)
        (with_ca p spec claim name) w ca u a
      ∙ rescue_bind_step (wrapped "generating kubelet certificate")
          (generate_kubelet_cert p.cluster p.crypto name) (with_certs p spec claim name ca) u certs
          v b
      ∙ bind_err (from_result (user_data_of p spec claim ca certs)) (launch p spec claim name) v x v
          (ap (λ r. (r, v)) e)
