-- ===== src/Certs.antt =====
-- pkg/cloudprovider/helpers.go: the CA bundle and the kubelet's client certificate. The API server
-- and the cryptography of Go's standard library are records of operations on the world.
pub mod Signing
pub mod Deadline
pub mod Quiet
pub mod Tests
use Prim.Native.String.{◌++◌ as ◌+++◌}
use karpenter_provider_upclo.Base.{
  String, ℕ, zero, suc, Dict, lookup, Option, none, some, List, [], ◌∷◌, ◌++◌, Bool, true, false,
  not, ◌==◌, if◌then◌else◌, any, Result, ok, err,
}
use karpenter_provider_upclo.Base.Int.{ℤ}
use karpenter_provider_upclo.Base.Text.{Text}
use karpenter_provider_upclo.Kube.{Error, failed, wrapped}
use karpenter_provider_upclo.Kube.Step.{Step, pure, fail, rescue, ◌>>=◌, ◌>>◌}

-- certificatesv1.CertificateSigningRequest and its conditions
pub record CsrCondition : Type 0 where
  pub kind : String
  pub status : String
  pub reason : String
  pub message : String
  pub last_update_time : ℤ
  pub last_transition_time : ℤ

pub record Csr : Type 0 where
  pub name : String
  pub request : Text
  pub signer_name : String
  pub usages : List String
  pub conditions : List CsrCondition
  pub certificate : Text

-- `get_config_map` takes a namespace and a name and gives the data; `pass` is the pause between two
-- polls, and `is_expired` says that the deadline of the wait has passed or passes before the next poll.
pub record Cluster (S : Type 0) : Type 0 where
  pub get_config_map : String → String → Step S Error (Dict Text)
  pub create_csr : Csr → Step S Error (Unit {0})
  pub get_csr : String → Step S Error Csr
  pub update_approval : Csr → Step S Error (Unit {0})
  pub now : S → ℤ
  pub pass : S → S
  pub is_expired : S → Bool

-- crypto/rsa, crypto/x509 and encoding/pem: a new key, its PEM form, and the PEM form of a request for
-- a common name and organizations, signed with the key.
pub record Crypto (S : Type 0) (K : Type 0) : Type 0 where
  pub generate_key : Step S Error K
  pub key_pem : K → Text
  pub certificate_request : String → List String → K → Step S Error Text

pub record KubeletCertBundle : Type 0 where
  pub client_cert_pem : Text
  pub client_key_pem : Text

-- The pause is 2 seconds and the deadline 90 seconds, so there is a poll at the start and at most one
-- after each of 45 pauses.
abbrev pub polls : ℕ
polls = 46

unfoldable pub bundle_of : Dict Text → Result Error Text
bundle_of data_map = elim (lookup "ca.crt" data_map) [
  | none ↦ err (failed "ca.crt not found in kube-root-ca.crt")
  | some cert ↦ ok cert
]

unfoldable pub is_approved : List CsrCondition → Bool
is_approved conditions = any (λ c. c.kind == "Approved") conditions

unfoldable pub is_denied : List CsrCondition → Bool
is_denied conditions = any (λ c. c.kind == "Denied") conditions

unfoldable pub approval : ℤ → CsrCondition
approval t = record {
  kind = "Approved";
  status = "True";
  reason = "KarpenterAutoApproved";
  message = "Auto-approved by Karpenter UpCloud provider";
  last_update_time = t;
  last_transition_time = t;
}

unfoldable pub approved : ℤ → Csr → Csr
approved t csr = record csr { conditions = csr.conditions ++ (approval t ∷ []) }

unfoldable pub csr_for : String → Text → Csr
csr_for name request = record {
  name = name;
  request = request;
  signer_name = "kubernetes.io/kube-apiserver-client-kubelet";
  usages = "digital signature" ∷ "key encipherment" ∷ "client auth" ∷ [];
  conditions = [];
  certificate = [];
}

abbrev pub deadline_exceeded : Error
deadline_exceeded = failed "context deadline exceeded"

module _ {S : Type 0} (cluster : Cluster S) where
  unfoldable pub get_ca_bundle : Step S Error Text
  unfolding bundle_of
  get_ca_bundle w = elim (cluster.get_config_map "kube-system" "kube-root-ca.crt" w).0 [
    | err e ↦ (
      err (wrapped "getting kube-root-ca.crt" e),
      (cluster.get_config_map "kube-system" "kube-root-ca.crt" w).1,
    )
    | ok m ↦ (bundle_of m, (cluster.get_config_map "kube-system" "kube-root-ca.crt" w).1)
  ]

  unfoldable pub approve : String → Csr → Step S Error (Unit {0})
  unfolding is_approved is_denied approved approval
  approve csr_name fresh w =
      if is_denied fresh.conditions
      then (err (failed ("CSR " +++ csr_name +++ " was denied")), w)
      else if is_approved fresh.conditions
      then (ok tt, w)
      else rescue (wrapped "approving CSR")
          (cluster.update_approval (approved (cluster.now w) fresh)) w

  -- One answer of a poll: an error ends the wait, so does a certificate; otherwise it goes on with `more`.
  -- Go's wait may also end during the pause, which is why `is_expired` looks ahead to the next poll.
  unfoldable pub polled : Result Error Csr → S → (S → Result Error Text × S) → Result Error Text × S
  polled (err e) w more = (err e, w)
  polled (ok csr) w more = elim csr.certificate [
    | c ∷ cs ↦ (ok (c ∷ cs), w)
    | [] ↦ elim (cluster.is_expired w) [
      | true ↦ (err deadline_exceeded, w)
      | false ↦ more (cluster.pass w)
    ]
  ]

  unfoldable pub poll : ℕ → String → Step S Error Text
  unfolding polled
  poll zero name w = (err deadline_exceeded, w)
  poll (suc n) name w = polled (cluster.get_csr name w).0 (cluster.get_csr name w).1 (poll n name)

  module _ {K : Type 0} (crypto : Crypto S K) (node_name : String) where
    abbrev pub csr_name : String
    csr_name = "kubelet-" +++ node_name

    -- generateKubeletCert, from its end to its start.
    unfoldable pub bundle : K → Text → Step S Error KubeletCertBundle
    bundle key signed_cert =
        pure record { client_cert_pem = signed_cert; client_key_pem = crypto.key_pem key }

    unfoldable pub wait_signed : K → Step S Error KubeletCertBundle
    unfolding bundle
    wait_signed key =
        rescue (wrapped ("waiting for CSR " +++ csr_name +++ " to be signed")) (poll polls csr_name)
        >>= bundle key

    unfoldable pub with_fresh : K → Csr → Step S Error KubeletCertBundle
    unfolding wait_signed
    with_fresh key fresh = approve csr_name fresh >> wait_signed key

    unfoldable pub read_back : K → Step S Error KubeletCertBundle
    unfolding with_fresh
    read_back key =
        rescue (wrapped "getting CSR for approval") (cluster.get_csr csr_name) >>= with_fresh key

    unfoldable pub with_request : K → Text → Step S Error KubeletCertBundle
    unfolding csr_for read_back
    with_request key request =
        rescue (wrapped "creating CSR") (cluster.create_csr (csr_for csr_name request))
        >> read_back key

    unfoldable pub with_key : K → Step S Error KubeletCertBundle
    unfolding with_request
    with_key key =
        rescue (wrapped "creating CSR")
          (crypto.certificate_request ("system:node:" +++ node_name) ("system:nodes" ∷ []) key)
        >>= with_request key

    unfoldable pub generate_kubelet_cert : Step S Error KubeletCertBundle
    unfolding with_key
    generate_kubelet_cert = rescue (wrapped "generating RSA key") crypto.generate_key >>= with_key
