-- ===== src/Cloud/Kept.antt =====
-- The operations that leave the account as it is: reads, and deletions that fail.

use karpenter_provider_upclo.Base.{
  String, ◌≡◌, refl, sym, ap, ◌∙◌, inl, inr, List, true, Bool-cases, Result, ok, err, arith,
}
use karpenter_provider_upclo.Kube.{Error, NodeClaim, service, wrapped}
use karpenter_provider_upclo.Kube.Step.{
  step-cases, rescue, rescue_step, rescue_err, bind_err, rescue_bind_step,
}
use karpenter_provider_upclo.Instance.{Server}
use karpenter_provider_upclo.Instance
use karpenter_provider_upclo.Instance.Fleet.{Holding}
use karpenter_provider_upclo.Cloud.{
  Cloud, create, delete, get_claim, remove, after_stop, mentions, server_not_found, deletion_error,
}
use karpenter_provider_upclo.Cloud
use karpenter_provider_upclo.Cloud.Delete.{uuid_of, stopped_by, illegal_removes, other_fails}
use karpenter_provider_upclo.Cloud.Fleet.{IsAlone, claims_listed}
use karpenter_provider_upclo.Cloud.Observed.{kept_by}
use karpenter_provider_upclo.Cloud.Lookup.{held, gone, get-Got}

module _ {S K : Type 0} (p : Cloud S K) (holding : S → Holding) (alone : IsAlone p holding) where
  remove_keeps :
      (u : String) (w v : S) (x : Error) → remove p u w ≡ (err x, v) → holding v ≡ holding w
  unfolding remove Instance.delete
  remove_keeps u w v x e = elim (step-cases (Instance.delete p.servers u) w) [
    | inl (_, z, q) ↦
        let r = sym (rescue_step deletion_error (Instance.delete p.servers u) w tt z q) ∙ e in
        absurd (ground arith)
    | inr (y, z, q) ↦
        let r = sym (rescue_err deletion_error (Instance.delete p.servers u) w y z q) ∙ e in
        let k : z ≡ v = ap (λ (t : Result Error (Unit {0}) × S). t.1) r in
        ap holding (sym k) ∙ alone.undeleted u w z y q
  ]

  waited_keeps :
      (claim : NodeClaim) (w v : S) (x : Error)
      → after_stop p (uuid_of claim) (ok tt) w ≡ (err x, v)
      → holding v ≡ holding w
  unfolding after_stop
  waited_keeps claim w v x e =
      let wrap = λ (e : String). wrapped "waiting for server to stop" (service e) in
      let wait = Instance.wait_for_stop p.servers (uuid_of claim) in
      let rest = λ (_ : Unit {0}). remove p (uuid_of claim) in
      elim (step-cases wait w) [
        | inl (_, u, q) ↦
            remove_keeps (uuid_of claim) u v x (sym (rescue_bind_step wrap wait rest w tt u q) ∙ e)
            ∙ ap (λ (x : Result String (Unit {0}) × S). holding x.1) (sym q)
            ∙ alone.fleet.waiting w (uuid_of claim)
        | inr (y, u, q) ↦
            let r =
              sym (bind_err (rescue wrap wait) rest w (wrap y) u (rescue_err wrap wait w y u q))
              ∙ e in
            let k : u ≡ v = ap (λ (t : Result Error (Unit {0}) × S). t.1) r in
            ap holding (sym k)
            ∙ ap (λ (x : Result String (Unit {0}) × S). holding x.1) (sym q)
            ∙ alone.fleet.waiting w (uuid_of claim)
      ]

  missing_fails :
      (claim : NodeClaim) (w : S) (y : String)
      → mentions y "SERVER_NOT_FOUND" ≡ true
      → after_stop p (uuid_of claim) (err y) w ≡ (err (server_not_found y), w)
  unfolding after_stop
  missing_fails claim w y m = rw (m, after_stop) refl

  refused_keeps :
      (claim : NodeClaim) (w v : S) (x : Error) (y : String)
      → after_stop p (uuid_of claim) (err y) w ≡ (err x, v)
      → holding v ≡ holding w
  refused_keeps claim w v x y e = elim (Bool-cases (mentions y "SERVER_NOT_FOUND")) [
    | inl m ↦
        ap (λ (t : Result Error (Unit {0}) × S). holding t.1) (sym e ∙ missing_fails claim w y m)
    | inr m ↦ elim (Bool-cases (mentions y "SERVER_STATE_ILLEGAL")) [
      | inl i ↦ remove_keeps (uuid_of claim) w v x (sym (illegal_removes p claim w y m i) ∙ e)
      | inr i ↦
          ap (λ (t : Result Error (Unit {0}) × S). holding t.1)
            (sym e ∙ other_fails p claim w y m i)
    ]
  ]

  -- A Delete that fails leaves what the account holds.
  pub delete_keeps :
      (claim : NodeClaim) (w v : S) (x : Error)
      → delete p claim w ≡ (err x, v)
      → holding v ≡ holding w
  delete_keeps claim w v x e = elim (step-cases (Instance.stop p.servers (uuid_of claim)) w) [
    | inl (_, u, q) ↦
        waited_keeps claim u v x (sym (stopped_by p claim w u (ok tt) q) ∙ e)
        ∙ kept_by p holding alone claim w u (ok tt) q
    | inr (y, u, q) ↦
        refused_keeps claim u v x y (sym (stopped_by p claim w u (err y) q) ∙ e)
        ∙ kept_by p holding alone claim w u (err y) q
  ]

  pub list_keeps :
      (w v : S) (claims : List NodeClaim) → Cloud.list p w ≡ (ok claims, v) → holding v ≡ holding w
  list_keeps w v claims e =
      let (l, u, q, h, _) = claims_listed p holding alone w in
      ap (λ (t : Result Error (List NodeClaim) × S). holding t.1) (sym e ∙ q) ∙ h

  pub get_keeps :
      (id : String) (w v : S) (r : Result Error NodeClaim)
      → get_claim p id w ≡ (r, v)
      → holding v ≡ holding w
  get_keeps id w v r e = elim (get-Got p holding alone id w) [
    | held s u _ q k ↦ ap (λ (t : Result Error NodeClaim × S). holding t.1) (sym e ∙ q) ∙ k
    | gone x u _ q _ k ↦ ap (λ (t : Result Error NodeClaim × S). holding t.1) (sym e ∙ q) ∙ k
  ]
