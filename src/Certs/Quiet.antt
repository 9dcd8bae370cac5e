-- ===== src/Certs/Quiet.antt =====
-- The certificates leave alone what the API server and the cryptography leave alone.
use Prim.Native.String.{◌++◌ as ◌+++◌}
use karpenter_provider_upclo.Base.{
  String, ℕ, zero, suc, ◌≡◌, refl, ◌∙◌, inl, inr, List, [], ◌∷◌, Bool-cases, Result, ok, err,
  Result-cases,
}
use karpenter_provider_upclo.Base.Text.{Text}
use karpenter_provider_upclo.Kube.{Error, wrapped}
use karpenter_provider_upclo.Kube.Step.{rescue}
use karpenter_provider_upclo.Kube.Kept.{Keeps, bind-Keeps, rescue-Keeps}
use karpenter_provider_upclo.Certs.{
  Csr, Cluster, Crypto, polls, poll, polled, approve, approved, is_denied, is_approved, csr_for,
  generate_kubelet_cert, with_key, with_request, read_back, with_fresh, wait_signed, bundle,
  get_ca_bundle,
}

module _ {S B : Type 0} (view : S → B) where
  -- Nothing that the API server does for certificates changes the view, nor does the time that passes.
  pub record IsQuiet (cluster : Cluster S) : Type 0 where
    pub config_map : (namespace name : String) → Keeps view (cluster.get_config_map namespace name)
    pub created : (csr : Csr) → Keeps view (cluster.create_csr csr)
    pub got : (name : String) → Keeps view (cluster.get_csr name)
    pub updated : (csr : Csr) → Keeps view (cluster.update_approval csr)
    pub passed : (w : S) → view (cluster.pass w) ≡ view w

  pub record IsPure {K : Type 0} (crypto : Crypto S K) : Type 0 where
    pub generated : Keeps view crypto.generate_key
    pub requested :
        (name : String) (orgs : List String) (key : K)
        → Keeps view (crypto.certificate_request name orgs key)

  module _ (cluster : Cluster S) (quiet : IsQuiet cluster) where
    polled_quiet :
        (r : Result Error Csr) (w : S) (more : S → Result Error Text × S)
        → Keeps view more
        → view (polled cluster r w more).1 ≡ view w
    unfolding polled
    polled_quiet (err e) w more k = refl
    polled_quiet (ok csr) w more k = signed csr.certificate
      where
        signed :
            (c : Text)
            → view (polled cluster (ok (record csr { certificate = c })) w more).1 ≡ view w
        signed (x ∷ xs) = refl
        signed [] = elim (Bool-cases (cluster.is_expired w)) [
          | inl e ↦ rw (e, polled) refl
          | inr e ↦ rw (e, polled) (k (cluster.pass w) ∙ quiet.passed w)
        ]

    poll-Keeps : (n : ℕ) (name : String) → Keeps view (poll cluster n name)
    unfolding poll
    poll-Keeps zero name w = refl
    poll-Keeps (suc n) name w =
        polled_quiet (cluster.get_csr name w).0 (cluster.get_csr name w).1 (poll cluster n name)
          (poll-Keeps n name)
        ∙ quiet.got name w

    approve-Keeps : (name : String) (fresh : Csr) → Keeps view (approve cluster name fresh)
    unfolding approve
    approve-Keeps name fresh w = elim (Bool-cases (is_denied fresh.conditions)) [
      | inl e ↦ rw (e, approve) refl
      | inr e ↦ elim (Bool-cases (is_approved fresh.conditions)) [
        | inl a ↦ rw (e, approve) (rw (a, approve) refl)
        | inr a ↦
            rw (e, approve)
              (rw (a, approve)
                (rescue-Keeps view (wrapped "approving CSR")
                  (cluster.update_approval (approved (cluster.now w) fresh))
                  (quiet.updated (approved (cluster.now w) fresh)) w))
      ]
    ]

    pub bundle-Keeps : Keeps view (get_ca_bundle cluster)
    unfolding get_ca_bundle
    bundle-Keeps w =
        elim (Result-cases (cluster.get_config_map "kube-system" "kube-root-ca.crt" w).0) [
          | inl (m, e) ↦ rw (e, get_ca_bundle) (quiet.config_map "kube-system" "kube-root-ca.crt" w)
          | inr (x, e) ↦ rw (e, get_ca_bundle) (quiet.config_map "kube-system" "kube-root-ca.crt" w)
        ]

    module _ {K : Type 0} (crypto : Crypto S K) (clean : IsPure crypto) (node_name : String) where
      abbrev csr : String
      csr = "kubelet-" +++ node_name

      wait-Keeps : (key : K) → Keeps view (wait_signed cluster crypto node_name key)
      unfolding wait_signed bundle
      wait-Keeps key =
          bind-Keeps view
            (rescue (wrapped ("waiting for CSR " +++ csr +++ " to be signed"))
              (poll cluster polls csr))
            (bundle cluster crypto node_name key)
            (rescue-Keeps view (wrapped ("waiting for CSR " +++ csr +++ " to be signed"))
              (poll cluster polls csr) (poll-Keeps polls csr))
            (λ c w. refl)

      fresh-Keeps :
          (key : K) (fresh : Csr) → Keeps view (with_fresh cluster crypto node_name key fresh)
      unfolding with_fresh
      fresh-Keeps key fresh =
          bind-Keeps view (approve cluster csr fresh)
            (λ _. wait_signed cluster crypto node_name key) (approve-Keeps csr fresh)
            (λ _. wait-Keeps key)

      read_back-Keeps : (key : K) → Keeps view (read_back cluster crypto node_name key)
      unfolding read_back
      read_back-Keeps key =
          bind-Keeps view (rescue (wrapped "getting CSR for approval") (cluster.get_csr csr))
            (with_fresh cluster crypto node_name key)
            (rescue-Keeps view (wrapped "getting CSR for approval") (cluster.get_csr csr)
              (quiet.got csr))
            (fresh-Keeps key)

      request-Keeps :
          (key : K) (request : Text)
          → Keeps view (with_request cluster crypto node_name key request)
      unfolding with_request
      request-Keeps key request =
          bind-Keeps view
            (rescue (wrapped "creating CSR") (cluster.create_csr (csr_for csr request)))
            (λ _. read_back cluster crypto node_name key)
            (rescue-Keeps view (wrapped "creating CSR") (cluster.create_csr (csr_for csr request))
              (quiet.created (csr_for csr request)))
            (λ _. read_back-Keeps key)

      key-Keeps : (key : K) → Keeps view (with_key cluster crypto node_name key)
      unfolding with_key
      key-Keeps key =
          let make =
            crypto.certificate_request ("system:node:" +++ node_name) ("system:nodes" ∷ []) key in
          bind-Keeps view (rescue (wrapped "creating CSR") make)
            (with_request cluster crypto node_name key)
            (rescue-Keeps view (wrapped "creating CSR") make
              (clean.requested ("system:node:" +++ node_name) ("system:nodes" ∷ []) key))
            (request-Keeps key)

      -- The certificate of a node leaves the view as it is, whether it could be made or not.
      pub generate-Keeps : Keeps view (generate_kubelet_cert cluster crypto node_name)
      unfolding generate_kubelet_cert
      generate-Keeps =
          bind-Keeps view (rescue (wrapped "generating RSA key") crypto.generate_key)
            (with_key cluster crypto node_name)
            (rescue-Keeps view (wrapped "generating RSA key") crypto.generate_key clean.generated)
            key-Keeps
