-- ===== src/Cloud/Ends.antt =====
-- Create ends in one of the ways of Cloud/Outcome.
use karpenter_provider_upclo.Base.{
  String, ◌≡◌, refl, sym, ap, subst, ◌∙◌, inl, inr, ok, map_err, Result-cases,
}
use karpenter_provider_upclo.Base.Text.{Text}
use karpenter_provider_upclo.Kube.{
  NodeClaim, service, wrapped, insufficient_capacity, invalid_userdata,
}
use karpenter_provider_upclo.Kube.Step.{
  from_result, rescue, pure, step-cases, bind_step, bind_err, rescue_err, rescue_bind_step,
}
use karpenter_provider_upclo.Api.Spec.{Spec}
use karpenter_provider_upclo.Instance.{Server}
use karpenter_provider_upclo.Instance
use karpenter_provider_upclo.Certs.{get_ca_bundle, generate_kubelet_cert}
use karpenter_provider_upclo.UserData.{Options, generate}
use karpenter_provider_upclo.Cloud.{
  Cloud, resolve_node_class, launch, user_data_of, create_named, with_ca, with_certs, with_class,
  create,
}
use karpenter_provider_upclo.Cloud.Claims.{chosen_plan, server_name}
use karpenter_provider_upclo.Cloud.Provision.{request_for, claim_for}
use karpenter_provider_upclo.Cloud.Asked.{chosen_plan-IsPlanOf}
use karpenter_provider_upclo.Cloud.Sent.{
  Boots, request-Requested, claim-Returned, rendering, rendering-Boots,
}
use karpenter_provider_upclo.Cloud.Outcome.{
  Prepared, Outcome, unbundled, uncertified, unrendered, refused, made,
}

module _ {S K : Type 0} (p : Cloud S K) where
  module _ (claim : NodeClaim) (w : S) where
    after_certificate :
        (x : Prepared p claim w)
        → create p claim w
          ≡ with_certs p x.spec claim (server_name (p.new_uuid x.w1).0) x.ca x.certs x.w3
    unfolding create with_class create_named with_ca
    after_certificate x =
        let name = server_name (p.new_uuid x.w1).0 in
        rescue_bind_step (wrapped "resolving node class") (resolve_node_class p claim)
          (with_class p claim) w x.spec x.w1 x.resolved
        ∙ rescue_bind_step (wrapped "getting CA bundle") (get_ca_bundle p.cluster)
            (with_ca p x.spec claim name) (p.new_uuid x.w1).1 x.ca x.w2 x.bundled
        ∙ rescue_bind_step (wrapped "generating kubelet certificate")
            (generate_kubelet_cert p.cluster p.crypto name) (with_certs p x.spec claim name x.ca)
            x.w2 x.certs x.w3 x.certified

    sent :
        (x : Prepared p claim w) (o : Options) (user_data : Text)
        → o ≡ rendering p x.spec claim x.ca x.certs
        → generate p.yaml o ≡ ok user_data
        → Outcome p claim w
    unfolding with_certs launch Instance.create user_data_of
    sent x o user_data q g =
        let name = server_name (p.new_uuid x.w1).0 in
        let r = request_for p x.spec claim name user_data x.w3 in
        let plan = chosen_plan x.spec claim in
        let refusal =
          λ (e : String). insufficient_capacity (wrapped "creating server" (service e)) in
        let rest = λ (server : Server). pure (claim_for p x.spec claim name server) in
        let boots : Boots p x.spec claim plan x.ca x.certs o =
          subst (Boots p x.spec claim plan x.ca x.certs) (sym q)
            (rendering-Boots p x.spec claim x.ca x.certs) in
        let rendered : user_data_of p x.spec claim x.ca x.certs ≡ ok user_data =
          ap
            (λ y.
              map_err (λ e. wrapped "generating userdata" (invalid_userdata e)) (generate p.yaml y))
            (sym q)
          ∙ ap (map_err (λ e. wrapped "generating userdata" (invalid_userdata e))) g in
        let begun =
          after_certificate x
          ∙ bind_step (from_result (user_data_of p x.spec claim x.ca x.certs))
              (launch p x.spec claim name) x.w3 user_data x.w3 (ap (λ y. (y, x.w3)) rendered) in
        elim (step-cases (p.servers.create_server r) x.w3) [
          | inl (server, v, e) ↦
              made x plan o user_data r server v (claim_for p x.spec claim name server)
                (chosen_plan-IsPlanOf x.spec claim) boots g
                (request-Requested p x.spec claim name user_data x.w3) e
                (claim-Returned p x.spec claim name server)
                (begun ∙ rescue_bind_step refusal (p.servers.create_server r) rest x.w3 server v e)
          | inr (y, v, e) ↦
              refused x plan o user_data r y v (chosen_plan-IsPlanOf x.spec claim) boots g
                (request-Requested p x.spec claim name user_data x.w3) e
                (begun
                  ∙ bind_err (rescue refusal (p.servers.create_server r)) rest x.w3 (refusal y) v
                      (rescue_err refusal (p.servers.create_server r) x.w3 y v e))
        ]

    prepared : Prepared p claim w → Outcome p claim w
    unfolding with_certs user_data_of
    prepared x =
        let o = rendering p x.spec claim x.ca x.certs in
        let name = server_name (p.new_uuid x.w1).0 in
        elim (Result-cases (generate p.yaml o)) [
          | inl (user_data, g) ↦ sent x o user_data refl g
          | inr (e, g) ↦
              unrendered x (chosen_plan x.spec claim) o e (chosen_plan-IsPlanOf x.spec claim)
                (rendering-Boots p x.spec claim x.ca x.certs) g
                (after_certificate x
                  ∙ bind_err (from_result (user_data_of p x.spec claim x.ca x.certs))
                      (launch p x.spec claim name) x.w3
                      (wrapped "generating userdata" (invalid_userdata e)) x.w3
                      (ap
                        (λ y. (
                          map_err (λ z. wrapped "generating userdata" (invalid_userdata z)) y,
                          x.w3,
                        ))
                        g))
        ]

    certified :
        (spec : Spec) (w1 : S) (ca : Text) (w2 : S)
        → resolve_node_class p claim w ≡ (ok spec, w1)
        → get_ca_bundle p.cluster (p.new_uuid w1).1 ≡ (ok ca, w2)
        → Outcome p claim w
    unfolding create with_class create_named with_ca
    certified spec w1 ca w2 a b =
        let name = server_name (p.new_uuid w1).0 in
        let certify = generate_kubelet_cert p.cluster p.crypto name in
        let wrap = wrapped "generating kubelet certificate" in
        elim (step-cases certify w2) [
          | inl (certs, w3, d) ↦ prepared record {
            spec = spec;
            w1 = w1;
            ca = ca;
            w2 = w2;
            certs = certs;
            w3 = w3;
            resolved = a;
            bundled = b;
            certified = d;
          }
          | inr (e, v, d) ↦ uncertified spec w1 ca w2 e v a b d (
              rescue_bind_step (wrapped "resolving node class") (resolve_node_class p claim)
                (with_class p claim) w spec w1 a
              ∙ rescue_bind_step (wrapped "getting CA bundle") (get_ca_bundle p.cluster)
                  (with_ca p spec claim name) (p.new_uuid w1).1 ca w2 b
              ∙ bind_err (rescue wrap certify) (with_certs p spec claim name ca) w2 (wrap e) v
                  (rescue_err wrap certify w2 e v d))
        ]

    bundled :
        (spec : Spec) (w1 : S) → resolve_node_class p claim w ≡ (ok spec, w1) → Outcome p claim w
    unfolding create with_class create_named
    bundled spec w1 a =
        let name = server_name (p.new_uuid w1).0 in
        let w0 = (p.new_uuid w1).1 in
        let wrap = wrapped "getting CA bundle" in
        elim (step-cases (get_ca_bundle p.cluster) w0) [
          | inl (ca, w2, b) ↦ certified spec w1 ca w2 a b
          | inr (e, v, b) ↦ unbundled spec w1 e v a b (
              rescue_bind_step (wrapped "resolving node class") (resolve_node_class p claim)
                (with_class p claim) w spec w1 a
              ∙ bind_err (rescue wrap (get_ca_bundle p.cluster)) (with_ca p spec claim name) w0
                  (wrap e) v (rescue_err wrap (get_ca_bundle p.cluster) w0 e v b))
        ]
