-- ===== src/Certs/Signing.antt =====
-- The wait for a signed certificate.
use Prim.Native.String.{◌++◌ as ◌+++◌}
use karpenter_provider_upclo.Base.{
  String, ℕ, zero, suc, ◌<◌, ◌≡◌, ◌≢◌, refl, sym, ◌∙◌, inl, inr, [], ◌∷◌, true, false, arith,
  Bool-cases, Result, ok, err,
}
use karpenter_provider_upclo.Base.Text.{Text}
use karpenter_provider_upclo.Kube.{Error, failed, wrapped}
use karpenter_provider_upclo.Kube.Step.{
  rescue, step-cases, bind_step, bind_ok, rescue_bind_step, rescue_ok,
}
use karpenter_provider_upclo.Certs.{
  Csr, Cluster, Crypto, KubeletCertBundle, polls, poll, polled, approve, is_denied, csr_for,
  deadline_exceeded, generate_kubelet_cert, csr_name, with_key, with_request, read_back, with_fresh,
  wait_signed, bundle,
}

module _ {S : Type 0} (cluster : Cluster S) (name : String) where
  -- `k` polls in a row that find no certificate before the deadline lead from the first world to the second.
  pub data Waits : ℕ → S → S → Type 0 where
    here : (w : S) → Waits 0 w w
    there :
        (k : ℕ) (w w' v : S) (csr : Csr)
        → cluster.get_csr name w ≡ (ok csr, w')
        → csr.certificate ≡ []
        → cluster.is_expired w' ≡ false
        → Waits k (cluster.pass w') v
        → Waits (suc k) w v

  pub found :
      (csr : Csr) (w : S) (more : S → Result Error Text × S) (cert : Text)
      → cert ≢ []
      → polled cluster (ok (record csr { certificate = cert })) w more ≡ (ok cert, w)
  unfolding polled
  found csr w more [] c = absurd (c refl)
  found csr w more (x ∷ cert) c = refl

  pub not_yet :
      (csr : Csr) (w : S) (more : S → Result Error Text × S)
      → csr.certificate ≡ []
      → cluster.is_expired w ≡ false
      → polled cluster (ok csr) w more ≡ more (cluster.pass w)
  unfolding polled
  not_yet csr w more e x = rw (e, polled) (rw x refl)

  pub poll_step :
      (n : ℕ) (w w' : S) (r : Result Error Csr)
      → cluster.get_csr name w ≡ (r, w')
      → poll cluster (suc n) name w ≡ polled cluster r w' (poll cluster n name)
  unfolding poll
  poll_step n w w' r g = rw (g, poll) refl

  -- A certificate that is there at a poll within the bound, after polls before the deadline that found none, is the
  -- result.
  pub poll-Waits :
      (n k : ℕ) (w v v' : S) (csr : Csr)
      → k < n
      → Waits k w v
      → cluster.get_csr name v ≡ (ok csr, v')
      → csr.certificate ≢ []
      → poll cluster n name w ≡ (ok csr.certificate, v')
  poll-Waits zero k w v v' csr l h g c = ground arith
  poll-Waits (suc n) _ w v v' csr l (here _) g c =
      poll_step n w v' (ok csr) g ∙ found csr v' _ csr.certificate c
  poll-Waits (suc n) _ w v v' csr l (there k _ w' _ csr' g' e x h) g c =
      poll_step n w w' (ok csr') g'
      ∙ not_yet csr' w' _ e x
      ∙ poll-Waits n k (cluster.pass w') v v' csr (ground arith) h g c

  pub too_late :
      (csr : Csr) (w : S) (more : S → Result Error Text × S)
      → csr.certificate ≡ []
      → cluster.is_expired w ≡ true
      → polled cluster (ok csr) w more ≡ (err deadline_exceeded, w)
  unfolding polled
  too_late csr w more e x = rw (e, polled) (rw x refl)

  -- A wait that succeeds gives a certificate that is not empty.
  certified :
      (csr : Csr) (w v : S) (more : S → Result Error Text × S) (cert c : Text)
      → ((u u' : S) → more u ≡ (ok cert, u') → cert ≢ [])
      → polled cluster (ok (record csr { certificate = c })) w more ≡ (ok cert, v)
      → cert ≢ []
  unfolding polled
  certified csr w v more cert (x ∷ c) h p = ground arith
  certified csr w v more cert [] h p = elim (Bool-cases (cluster.is_expired w)) [
    | inl e ↦ let q = too_late (record csr { certificate = [] }) w more refl e in ground arith
    | inr e ↦
        h (cluster.pass w) v (sym (not_yet (record csr { certificate = [] }) w more refl e) ∙ p)
  ]

  poll_some : (n : ℕ) (w v : S) (cert : Text) → poll cluster n name w ≡ (ok cert, v) → cert ≢ []
  unfolding poll
  poll_some zero w v cert p = ground arith
  poll_some (suc n) w v cert p = elim (step-cases (cluster.get_csr name) w) [
    | inl (csr, u, e) ↦
        certified csr u v (poll cluster n name) cert csr.certificate
          (λ u u' q. poll_some n u u' cert q) (sym (poll_step n w u (ok csr) e) ∙ p)
    | inr (x, u, e) ↦ let q = sym (poll_step n w u (err x) e) ∙ p in ground arith
  ]

module _ {S K : Type 0} (cluster : Cluster S) (crypto : Crypto S K) (node_name : String) where
  -- The request that `generateKubeletCert` makes in world `w`, and the one that it reads back in world `v`.
  abbrev pub Requested : S → K → Csr → S → Type 0
  Requested w key fresh v =
      (w1 : S) × (w2 : S) × (w3 : S) × (request : Text) × (crypto.generate_key w ≡ (ok key, w1))
      × (crypto.certificate_request ("system:node:" +++ node_name) ("system:nodes" ∷ []) key w1
          ≡ (ok request, w2))
      × (cluster.create_csr (csr_for ("kubelet-" +++ node_name) request) w2 ≡ (ok tt, w3))
      × (cluster.get_csr ("kubelet-" +++ node_name) w3 ≡ (ok fresh, v))

  requested :
      (w v : S) (key : K) (fresh : Csr)
      → Requested w key fresh v
      → generate_kubelet_cert cluster crypto node_name w
        ≡ with_fresh cluster crypto node_name key fresh v
  unfolding generate_kubelet_cert with_key with_request read_back
  requested w v key fresh (w1, w2, w3, request, a, b, c, d) =
      rescue_bind_step (wrapped "generating RSA key") crypto.generate_key
        (with_key cluster crypto node_name) w key w1 a
      ∙ rescue_bind_step (wrapped "creating CSR")
          (crypto.certificate_request ("system:node:" +++ node_name) ("system:nodes" ∷ []) key)
          (with_request cluster crypto node_name key) w1 request w2 b
      ∙ rescue_bind_step (wrapped "creating CSR")
          (cluster.create_csr (csr_for (csr_name cluster crypto node_name) request))
          (λ _. read_back cluster crypto node_name key) w2 tt w3 c
      ∙ rescue_bind_step (wrapped "getting CSR for approval")
          (cluster.get_csr (csr_name cluster crypto node_name))
          (with_fresh cluster crypto node_name key) w3 fresh v d

  -- If the request that `generateKubeletCert` reads back is denied, it fails and asks for no
  -- approval and for no certificate: the world is the one in which it read the request.
  pub denied_stops :
      (w v : S) (key : K) (fresh : Csr)
      → Requested w key fresh v
      → is_denied fresh.conditions ≡ true
      → generate_kubelet_cert cluster crypto node_name w
        ≡ (err (failed ("CSR " +++ csr_name cluster crypto node_name +++ " was denied")), v)
  unfolding with_fresh approve
  denied_stops w v key fresh r d = requested w v key fresh r ∙ rw (d, approve) refl

  waited :
      (w v : S) (key : K) (b : KubeletCertBundle)
      → wait_signed cluster crypto node_name key w ≡ (ok b, v)
      → b.client_cert_pem ≢ []
  unfolding wait_signed bundle
  waited w v key b p =
      let wrap =
        wrapped ("waiting for CSR " +++ csr_name cluster crypto node_name +++ " to be signed") in
      let wait = poll cluster polls (csr_name cluster crypto node_name) in
      let (cert, u, q, r) =
        bind_ok (rescue wrap wait) (bundle cluster crypto node_name key) w v b p in
      let some =
        poll_some cluster (csr_name cluster crypto node_name) polls w u cert
          (rescue_ok wrap wait w u cert q) in
      ground arith

  -- A certificate that is returned is not empty.
  pub generated_some :
      (w v : S) (b : KubeletCertBundle)
      → generate_kubelet_cert cluster crypto node_name w ≡ (ok b, v)
      → b.client_cert_pem ≢ []
  unfolding generate_kubelet_cert with_key with_request read_back with_fresh
  generated_some w v b p =
      let (key, w1, _, p1) =
        bind_ok (rescue (wrapped "generating RSA key") crypto.generate_key)
          (with_key cluster crypto node_name) w v b p in
      let (request, w2, _, p2) =
        bind_ok
          (rescue (wrapped "creating CSR")
            (crypto.certificate_request ("system:node:" +++ node_name) ("system:nodes" ∷ []) key))
          (with_request cluster crypto node_name key) w1 v b p1 in
      let (_, w3, _, p3) =
        bind_ok
          (rescue (wrapped "creating CSR")
            (cluster.create_csr (csr_for (csr_name cluster crypto node_name) request)))
          (λ _. read_back cluster crypto node_name key) w2 v b p2 in
      let (fresh, w4, _, p4) =
        bind_ok
          (rescue (wrapped "getting CSR for approval")
            (cluster.get_csr (csr_name cluster crypto node_name)))
          (with_fresh cluster crypto node_name key) w3 v b p3 in
      let (_, w5, _, p5) =
        bind_ok (approve cluster (csr_name cluster crypto node_name) fresh)
          (λ _. wait_signed cluster crypto node_name key) w4 v b p4 in
      waited w5 v key b p5

  -- `generateKubeletCert` succeeds if its request could be made and read back, the approval
  -- step succeeds, and one of the first 46 polls finds a certificate after polls that found
  -- none before the deadline: the result is that certificate with the key of the request.
  pub generated :
      (w v u x x' : S) (key : K) (fresh csr : Csr) (k : ℕ)
      → Requested w key fresh v
      → approve cluster (csr_name cluster crypto node_name) fresh v ≡ (ok tt, u)
      → Waits cluster (csr_name cluster crypto node_name) k u x
      → k < polls
      → cluster.get_csr (csr_name cluster crypto node_name) x ≡ (ok csr, x')
      → csr.certificate ≢ []
      → generate_kubelet_cert cluster crypto node_name w ≡ (
        ok (record { client_cert_pem = csr.certificate; client_key_pem = crypto.key_pem key }),
        x',
      )
  unfolding with_fresh wait_signed bundle
  generated w v u x x' key fresh csr k r a h l g c =
      requested w v key fresh r
      ∙ bind_step (approve cluster (csr_name cluster crypto node_name) fresh)
          (λ _. wait_signed cluster crypto node_name key) v tt u a
      ∙ rescue_bind_step
          (wrapped ("waiting for CSR " +++ csr_name cluster crypto node_name +++ " to be signed"))
          (poll cluster polls (csr_name cluster crypto node_name))
          (bundle cluster crypto node_name key) u csr.certificate x'
          (poll-Waits cluster (csr_name cluster crypto node_name) polls k u x x' csr l h g c)
