-- ===== src/Cloud/Outcome.antt =====
-- The ways a Create can end, with what is asked of UpCloud and what is returned.

use karpenter_provider_upclo.Base.{String, ◌≡◌, lookup, ok, err}
use karpenter_provider_upclo.Base.Text.{Text}
use karpenter_provider_upclo.Kube.{
  Error, NodeClaim, service, wrapped, insufficient_capacity, invalid_userdata,
}
use karpenter_provider_upclo.Api.Spec.{Spec}
use karpenter_provider_upclo.Instance.{Server, CreateRequest}
use karpenter_provider_upclo.Certs.{KubeletCertBundle, get_ca_bundle, generate_kubelet_cert}
use karpenter_provider_upclo.UserData
use karpenter_provider_upclo.UserData.{Options, generate}
use karpenter_provider_upclo.Cloud.{Cloud, resolve_node_class, create}
use karpenter_provider_upclo.Cloud.Claims.{server_name}
use karpenter_provider_upclo.Cloud.Asked.{IsPlanOf}
use karpenter_provider_upclo.Cloud.Sent.{Boots, Requested, Returned}

module _ {S K : Type 0} (p : Cloud S K) where
  -- The first half of a Create: the node class, a name from a new UUID, the CA bundle and the certificate.
  pub record Prepared (claim : NodeClaim) (w : S) : Type 0 where
    pub spec : Spec
    pub w1 : S
    pub ca : Text
    pub w2 : S
    pub certs : KubeletCertBundle
    pub w3 : S
    pub resolved : resolve_node_class p claim w ≡ (ok spec, w1)
    pub bundled : get_ca_bundle p.cluster (p.new_uuid w1).1 ≡ (ok ca, w2)
    pub certified :
        generate_kubelet_cert p.cluster p.crypto (server_name (p.new_uuid w1).0) w2 ≡ (ok certs, w3)

  -- The ways a Create from the world `w` can end.
  pub data Outcome (claim : NodeClaim) (w : S) : Type 0 where
    unresolved :
        (e : Error) (v : S)
        → resolve_node_class p claim w ≡ (err e, v)
        → create p claim w ≡ (err (wrapped "resolving node class" e), v)
        → Outcome claim w
    unbundled :
        (spec : Spec) (w1 : S) (e : Error) (v : S)
        → resolve_node_class p claim w ≡ (ok spec, w1)
        → get_ca_bundle p.cluster (p.new_uuid w1).1 ≡ (err e, v)
        → create p claim w ≡ (err (wrapped "getting CA bundle" e), v)
        → Outcome claim w
    uncertified :
        (spec : Spec) (w1 : S) (ca : Text) (w2 : S) (e : Error) (v : S)
        → resolve_node_class p claim w ≡ (ok spec, w1)
        → get_ca_bundle p.cluster (p.new_uuid w1).1 ≡ (ok ca, w2)
        → generate_kubelet_cert p.cluster p.crypto (server_name (p.new_uuid w1).0) w2 ≡ (err e, v)
        → create p claim w ≡ (err (wrapped "generating kubelet certificate" e), v)
        → Outcome claim w
    unrendered :
        (x : Prepared claim w) (plan : String) (o : Options) (e : UserData.Error)
        → IsPlanOf claim.requirements x.spec.plan plan
        → Boots p x.spec claim plan x.ca x.certs o
        → generate p.yaml o ≡ err e
        → create p claim w ≡ (err (wrapped "generating userdata" (invalid_userdata e)), x.w3)
        → Outcome claim w
    refused :
        (x : Prepared claim w) (plan : String) (o : Options) (user_data : Text) (r : CreateRequest)
        (e : String) (v : S)
        → IsPlanOf claim.requirements x.spec.plan plan
        → Boots p x.spec claim plan x.ca x.certs o
        → generate p.yaml o ≡ ok user_data
        → Requested p x.spec claim
            (server_name (p.new_uuid x.w1).0)
            plan
            user_data
            (lookup plan (p.cached_plans x.w3))
            r
        → p.servers.create_server r x.w3 ≡ (err e, v)
        → create p claim w
          ≡ (err (insufficient_capacity (wrapped "creating server" (service e))), v)
        → Outcome claim w
    made :
        (x : Prepared claim w) (plan : String) (o : Options) (user_data : Text) (r : CreateRequest)
        (server : Server) (v : S) (c : NodeClaim)
        → IsPlanOf claim.requirements x.spec.plan plan
        → Boots p x.spec claim plan x.ca x.certs o
        → generate p.yaml o ≡ ok user_data
        → Requested p x.spec claim
            (server_name (p.new_uuid x.w1).0)
            plan
            user_data
            (lookup plan (p.cached_plans x.w3))
            r
        → p.servers.create_server r x.w3 ≡ (ok server, v)
        → Returned p x.spec claim (server_name (p.new_uuid x.w1).0) plan server c
        → create p claim w ≡ (ok c, v)
        → Outcome claim w
