-- ===== src/Cloud/Launch.antt =====
-- What a call of `Create` leaves behind in the account.
use Prim.Native.String.{◌++◌ as ◌+++◌}
use karpenter_provider_upclo.Base.{
  String, ◌≡◌, refl, sym, ap, subst, ◌∙◌, inl, inr, Option, none, some, true, Result, ok, err,
}
use karpenter_provider_upclo.Base.Text.{Text}
use karpenter_provider_upclo.Kube.{Error, NodeClaim, service, wrapped, insufficient_capacity}
use karpenter_provider_upclo.Kube.Step.{
  Step, ◌>>=◌, rescue, from_result, pure, step-cases, bind_step, bind_err, rescue_bind_step,
  rescue_err,
}
use karpenter_provider_upclo.Kube.Kept.{Keeps, rescue-Keeps}
use karpenter_provider_upclo.Api.{provider_id_prefix}
use karpenter_provider_upclo.Api.Spec.{Spec}
use karpenter_provider_upclo.Instance.{Server, CreateRequest, create_request, is_managed}
use karpenter_provider_upclo.Instance
use karpenter_provider_upclo.Instance.Labels.{managed_labels-IsManaged}
use karpenter_provider_upclo.Instance.Fleet.{Holding, with_server}
use karpenter_provider_upclo.Certs.{get_ca_bundle, generate_kubelet_cert}
use karpenter_provider_upclo.Certs.Quiet.{bundle-Keeps, generate-Keeps}
use karpenter_provider_upclo.Cloud.{
  Cloud, resolve_node_class, launch, user_data_of, with_certs, with_ca, create_named, with_class,
  create,
}
use karpenter_provider_upclo.Cloud.Claims.{created_claim, server_labels, server_name}
use karpenter_provider_upclo.Cloud.Fleet.{IsAlone}
use karpenter_provider_upclo.Cloud.Provision.{request_for, claim_for}

-- From what the account held to what it holds: nothing new after an error, and after a success one managed server
-- under a new UUID, which the claim names.
abbrev pub Fate : Holding → Result Error NodeClaim → Holding → Type 0
Fate before (err x) after = after ≡ before
Fate before (ok c) after =
    (s : Server) × (before s.uuid ≡ none)
    × (after ≡ with_server s before)
    × (is_managed s.labels ≡ true)
    × (c.provider_id ≡ provider_id_prefix +++ s.uuid)

module _ {S K : Type 0} (p : Cloud S K) (holding : S → Holding) (alone : IsAlone p holding) where
  abbrev Ends : Holding → Result Error NodeClaim × S → Type 0
  Ends h x = Fate h x.0 (holding x.1)

  -- A first part that leaves the account alone does not matter.
  bind-Ends :
      {A : Type 0} (m : Step S Error A) (f : A → Step S Error NodeClaim) (h : Holding)
      → Keeps holding m
      → ((a : A) (u : S) → holding u ≡ h → Ends h (f a u))
      → (w : S) → holding w ≡ h
      → Ends h ((m >>= f) w)
  bind-Ends {A} m f h k l w e = elim (step-cases m w) [
    | inl (a, u, q) ↦
        subst (Ends h) (sym (bind_step m f w a u q))
          (l a u (ap (λ (x : Result Error A × S). holding x.1) (sym q) ∙ k w ∙ e))
    | inr (x, u, q) ↦
        subst (Ends h) (sym (bind_err m f w x u q))
          (ap (λ (x : Result Error A × S). holding x.1) (sym q) ∙ k w ∙ e)
  ]

  abbrev no_server : String → Error
  no_server e = insufficient_capacity (wrapped "creating server" (service e))

  request-IsManaged :
      (spec : Spec) (claim : NodeClaim) (name : String) (user_data : Text) (w : S)
      → is_managed (request_for p spec claim name user_data w).labels ≡ true
  unfolding create_request
  request-IsManaged spec claim name user_data w =
      managed_labels-IsManaged p.instances name (some (server_labels spec))

  provider_id_of :
      (spec : Spec) (claim : NodeClaim) (name : String) (s : Server)
      → (claim_for p spec claim name s).provider_id ≡ provider_id_prefix +++ s.uuid
  unfolding created_claim
  provider_id_of spec claim name s = refl

  launched :
      (spec : Spec) (claim : NodeClaim) (name : String) (user_data : Text) (w v : S) (s : Server)
      → p.servers.create_server (request_for p spec claim name user_data w) w ≡ (ok s, v)
      → launch p spec claim name user_data w ≡ (ok (claim_for p spec claim name s), v)
  unfolding launch Instance.create
  launched spec claim name user_data w v s e =
      rescue_bind_step no_server
        (p.servers.create_server (request_for p spec claim name user_data w))
        (λ server. pure (claim_for p spec claim name server)) w s v e

  not_launched :
      (spec : Spec) (claim : NodeClaim) (name : String) (user_data : Text) (w v : S) (x : String)
      → p.servers.create_server (request_for p spec claim name user_data w) w ≡ (err x, v)
      → launch p spec claim name user_data w ≡ (err (no_server x), v)
  unfolding launch Instance.create
  not_launched spec claim name user_data w v x e =
      bind_err
        (rescue no_server (p.servers.create_server (request_for p spec claim name user_data w)))
        (λ server. pure (claim_for p spec claim name server)) w (no_server x) v
        (rescue_err no_server (p.servers.create_server (request_for p spec claim name user_data w))
          w x v e)

  launch-Ends :
      (h : Holding) (spec : Spec) (claim : NodeClaim) (name : String) (user_data : Text) (w : S)
      → holding w ≡ h
      → Ends h (launch p spec claim name user_data w)
  launch-Ends h spec claim name user_data w e =
      let r = request_for p spec claim name user_data w in
      elim (step-cases (p.servers.create_server r) w) [
        | inl (s, v, q) ↦
            let (l, n, a) = alone.fleet.added r w v s q in
            subst (Ends h) (sym (launched spec claim name user_data w v s q)) (
              s,
              ap (λ (f : Holding). f s.uuid) (sym e) ∙ n,
              a ∙ ap (with_server s) e,
              ap is_managed l ∙ request-IsManaged spec claim name user_data w,
              provider_id_of spec claim name s,
            )
        | inr (x, v, q) ↦
            subst (Ends h) (sym (not_launched spec claim name user_data w v x q))
              (alone.refused r w v x q ∙ e)
      ]

  named-Ends :
      (h : Holding) (spec : Spec) (claim : NodeClaim) (name : String) (w : S)
      → holding w ≡ h
      → Ends h (create_named p spec claim name w)
  unfolding create_named with_ca with_certs
  named-Ends h spec claim name =
      bind-Ends (rescue (wrapped "getting CA bundle") (get_ca_bundle p.cluster))
        (with_ca p spec claim name) h
        (rescue-Keeps holding (wrapped "getting CA bundle") (get_ca_bundle p.cluster)
          (bundle-Keeps holding p.cluster alone.quiet))
        (λ ca.
          bind-Ends
            (rescue (wrapped "generating kubelet certificate")
              (generate_kubelet_cert p.cluster p.crypto name))
            (with_certs p spec claim name ca) h
            (rescue-Keeps holding (wrapped "generating kubelet certificate")
              (generate_kubelet_cert p.cluster p.crypto name)
              (generate-Keeps holding p.cluster alone.quiet p.crypto alone.clean name))
            (λ certs.
              bind-Ends (from_result (user_data_of p spec claim ca certs))
                (launch p spec claim name) h (λ w. refl) (launch-Ends h spec claim name)))

  resolve-Keeps : (claim : NodeClaim) → Keeps holding (resolve_node_class p claim)
  unfolding resolve_node_class
  resolve-Keeps claim = by_reference claim.node_class_ref
    where
      by_reference :
          (r : Option String)
          → Keeps holding (resolve_node_class p (record claim { node_class_ref = r }))
      by_reference none w = refl
      by_reference (some name) w = alone.class_read name w

  class-Ends :
      (h : Holding) (claim : NodeClaim) (spec : Spec) (w : S)
      → holding w ≡ h
      → Ends h (with_class p claim spec w)
  unfolding with_class
  class-Ends h claim spec w e =
      named-Ends h spec claim (server_name (p.new_uuid w).0) (p.new_uuid w).1 (alone.named w ∙ e)

  -- In an account that only this provider changes, and in which a refused creation adds nothing, Create either
  -- fails and leaves no server behind, or succeeds and leaves exactly one new server more, managed and under
  -- the UUID of the claim's provider id.
  pub create-Fate :
      (claim : NodeClaim) (w v : S) (r : Result Error NodeClaim)
      → create p claim w ≡ (r, v)
      → Fate (holding w) r (holding v)
  unfolding create
  create-Fate claim w v r q = subst (Ends (holding w)) q (
      bind-Ends (rescue (wrapped "resolving node class") (resolve_node_class p claim))
        (with_class p claim) (holding w)
        (rescue-Keeps holding (wrapped "resolving node class") (resolve_node_class p claim)
          (resolve-Keeps claim))
        (class-Ends (holding w) claim) w refl)
