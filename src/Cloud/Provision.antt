-- ===== src/Cloud/Provision.antt =====
-- The request that Create sends, and the claim that it returns, as launch computes them.

use karpenter_provider_upclo.Base.{String, some, lookup}
use karpenter_provider_upclo.Base.Text.{Text}
use karpenter_provider_upclo.Kube.{NodeClaim}
use karpenter_provider_upclo.Api.Spec.{Spec}
use karpenter_provider_upclo.Instance.{Server, CreateRequest, create_request}
use karpenter_provider_upclo.Cloud.{Cloud}
use karpenter_provider_upclo.Cloud.Claims.{
  chosen_plan, chosen_storage, server_labels, node_labels, created_claim,
}

module _ {S K : Type 0} (p : Cloud S K) where
  -- The request for the server of a claim, in the world in which it is sent.
  abbrev pub request_for : Spec → NodeClaim → String → Text → S → CreateRequest
  request_for spec claim name user_data w =
      create_request p.instances name (chosen_plan spec claim) p.zone user_data
        spec.server_group_uuid (some (server_labels spec))
        (chosen_storage (lookup (chosen_plan spec claim) (p.cached_plans w)) spec.storage)

  abbrev pub claim_for : Spec → NodeClaim → String → Server → NodeClaim
  claim_for spec claim name server =
      created_claim p.digest spec claim name
        (node_labels p.zone (chosen_plan spec claim) spec claim) server
