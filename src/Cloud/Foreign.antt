-- ===== src/Cloud/Foreign.antt =====
-- Two providers on one account, each for a cluster of its own.

use karpenter_provider_upclo.Base.{
  String, ◌≡◌, refl, sym, ap, subst, ◌∙◌, inl, inr, none, some, List, Bool-cases, Result, ok, ◌==◌,
  eq_iff, eq_refl,
}
use karpenter_provider_upclo.Base.Text.{trim_prefix, trim_prefix-append}
use karpenter_provider_upclo.Kube.{NodeClaim, Error}
use karpenter_provider_upclo.Api.{provider_id_prefix}
use karpenter_provider_upclo.Instance.{Server}
use karpenter_provider_upclo.Instance.Fleet.{Mem, Holding, with_server, without_server}
use karpenter_provider_upclo.Cloud.{Cloud, create, delete}
use karpenter_provider_upclo.Cloud
use karpenter_provider_upclo.Cloud.Claims.{build_node_claim}
use karpenter_provider_upclo.Cloud.Delete.{uuid_of}
use karpenter_provider_upclo.Cloud.Fleet.{IsAlone, claims_listed}
use karpenter_provider_upclo.Cloud.Launch.{create-Fate}
use karpenter_provider_upclo.Cloud.Observed.{seen, provider_id_of, delete_takes}

-- A new server that is taken out again leaves the account as it was.
without-with :
    (s : Server) (f : Holding) → f s.uuid ≡ none → without_server s.uuid (with_server s f) ≡ f
without-with s f n = λ i u. at u i
  where
    at : (u : String) → without_server s.uuid (with_server s f) u ≡ f u
    at u = elim (Bool-cases (s.uuid == u)) [
      | inl e ↦ rw e (sym (subst (λ x. f x ≡ none) ((eq_iff s.uuid u).0 e) n))
      | inr e ↦ rw e refl
    ]

module _ {S K L : Type 0} (p : Cloud S K) (q : Cloud S L) (holding : S → Holding)
    (alone : IsAlone p holding) (other : IsAlone q holding) where
  -- Two providers, whatever their clusters, share an account that nobody else changes, and
  -- whose list and details are always read without an error (IsFleet). What a Create of the one
  -- has launched, a List of the other shows, and once the other has deleted a claim of that provider id with
  -- success, the account is as it was before the Create.
  pub taken_by_others :
      (claim c theirs : NodeClaim) (w v u x : S) (claims : List NodeClaim)
      → create p claim w ≡ (ok c, v)
      → Cloud.list q v ≡ (ok claims, u)
      → theirs.provider_id ≡ c.provider_id
      → delete q theirs u ≡ (ok tt, x)
      → ((n : NodeClaim) × Mem n claims × (n.provider_id ≡ c.provider_id)) × (holding x ≡ holding w)
  taken_by_others claim c theirs w v u x claims made listed same gone =
      let (s, n, a, m, i) = create-Fate p holding alone claim w v (ok c) made in
      let new = build_node_claim s q.zone in
      let held : holding v s.uuid ≡ some s =
        ap (λ (f : Holding). f s.uuid) a ∙ rw (eq_refl s.uuid) refl in
      let (again, u', listed', kept, _) = claims_listed q holding other v in
      let still : holding u ≡ holding v =
        ap (λ (r : Result Error (List NodeClaim) × S). holding r.1) (sym listed ∙ listed') ∙ kept in
      let id : uuid_of theirs ≡ s.uuid =
        ap (λ (t : String). trim_prefix t provider_id_prefix) (same ∙ i)
        ∙ trim_prefix-append provider_id_prefix s.uuid in
      (
        (
          new,
          (seen q holding other v u claims listed new).1 (s, held, m, refl),
          provider_id_of q holding other s q.zone ∙ sym i,
        ),
        delete_takes q holding other theirs u x gone
            ∙ ap (without_server (uuid_of theirs)) (still ∙ a)
            ∙ ap (λ (t : String). without_server t (with_server s (holding w))) id
            ∙ without-with s (holding w) n,
      )
