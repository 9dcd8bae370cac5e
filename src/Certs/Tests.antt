-- ===== src/Certs/Tests.antt =====
-- A request that was denied, and one that is signed at once.

use karpenter_provider_upclo.Base.{
  String, ℕ, ◌+◌, ◌≤◌, leb, ◌≡◌, ◌≢◌, refl, List, [], ◌∷◌, true, if◌then◌else◌, Result, ok, err,
  arith,
}
use karpenter_provider_upclo.Base.Int.{pos}
use karpenter_provider_upclo.Base.Text.{codes}
use karpenter_provider_upclo.Cloud.Delete.{running}
use karpenter_provider_upclo.Cloud.Sample.{api_server, crypto, csr}
use karpenter_provider_upclo.Certs.{
  CsrCondition, Cluster, polls, csr_name, generate_kubelet_cert, approve, is_approved, is_denied,
}
use karpenter_provider_upclo.Certs.Signing.{here, generated}
use karpenter_provider_upclo.Certs.Deadline.{pause, timeout, IsTimed, Ends, poll-Ends}

abbrev denied : CsrCondition
denied = record {
  kind = "Denied";
  status = "True";
  reason = "Policy";
  message = "";
  last_update_time = pos 0;
  last_transition_time = pos 0;
}

abbrev node : String
node = "karpenter-0123456789abcdef"

is_denied_here : is_denied (denied ∷ []) ≡ true
unfolding is_denied karpenter_provider_upclo.Base.any
is_denied_here = refl

approved_here :
    approve (api_server []) (csr_name (api_server []) crypto node) (csr []) running
    ≡ (ok tt, running)
unfolding approve is_denied is_approved karpenter_provider_upclo.Base.any
approved_here = refl

has_certificate : codes "CERT" ≢ []
has_certificate e = ground arith

generated_example :
    generate_kubelet_cert (api_server []) crypto node running
    ≡ (ok (record { client_cert_pem = codes "CERT"; client_key_pem = codes "KEY" }), running)
generated_example =
    generated (api_server []) crypto node running running running running running tt (csr [])
      (csr []) 0 (running, running, running, codes "REQUEST", refl, refl, refl, refl) approved_here
      (here running) (ground arith) refl has_certificate

-- A world that is its own clock, and in which the request is signed after five seconds.
abbrev clocked : Cluster ℕ
clocked = record {
  get_config_map = λ namespace name t. (ok [], t);
  create_csr = λ r t. (ok tt, t);
  get_csr = λ name t.
      (ok (record (csr []) { certificate = if leb 5000000000 t then codes "CERT" else [] }), t);
  update_approval = λ r t. (ok tt, t);
  now = λ t. pos t;
  pass = λ t. t + pause;
  is_expired = λ t. leb timeout t;
}

reached : (t : ℕ) → 0 + timeout ≤ t → leb timeout t ≡ true
reached t l = ground arith

clocked-IsTimed : IsTimed clocked (λ t. t) 0
clocked-IsTimed = record {
  forward = λ name t. omega arith;
  paused = λ t. omega arith;
  expired = reached;
}

poll-Ends_example : Ends clocked "kubelet-a" polls 0
poll-Ends_example = poll-Ends clocked "kubelet-a" (λ t. t) 0 clocked-IsTimed 0 (omega arith)
