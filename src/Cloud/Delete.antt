-- ===== src/Cloud/Delete.antt =====
-- `Delete` removes the server, and says so only when UpCloud does.
use karpenter_provider_upclo.Base.{
  String, ◌≡◌, refl, sym, ap, ◌∙◌, ◌⊎◌, inl, inr, true, false, arith, Bool-cases, Result, ok, err,
}
use karpenter_provider_upclo.Base.Text.{trim_prefix}
use karpenter_provider_upclo.Kube.{Error, service, wrapped, NodeClaim, is_node_claim_not_found}
use karpenter_provider_upclo.Kube.Step.{
  step-cases, rescue, rescue_step, rescue_err, bind_err, rescue_bind_step,
}
use karpenter_provider_upclo.Api.{provider_id_prefix}
use karpenter_provider_upclo.Instance.{Service}
use karpenter_provider_upclo.Instance
use karpenter_provider_upclo.Cloud.{
  Cloud, mentions, server_not_found, deletion_error, remove, after_stop, delete,
}

abbrev pub uuid_of : NodeClaim → String
uuid_of claim = trim_prefix claim.provider_id provider_id_prefix

-- A server as UpCloud's API shows it.
pub data Status : Type 0 where
  missing running stopped : Status

-- UpCloud's documented answers for one server: what each call answers in each state, and the state after
-- it.
pub record IsDocumented {S : Type 0} (svc : Service S) (uuid : String) (status : S → Status)
    : Type 0 where
  pub stop_missing :
      (w : S)
      → status w ≡ missing
      → (e : String) × (v : S) × (Instance.stop svc uuid w ≡ (err e, v))
        × (mentions e "SERVER_NOT_FOUND" ≡ true)
  pub stop_running :
      (w : S)
      → status w ≡ running
      → (v : S) × (u : S) × (Instance.stop svc uuid w ≡ (ok tt, v))
        × (Instance.wait_for_stop svc uuid v ≡ (ok tt, u))
        × (status u ≡ stopped)
  pub stop_stopped :
      (w : S)
      → status w ≡ stopped
      → (e : String) × (v : S) × (Instance.stop svc uuid w ≡ (err e, v))
        × (mentions e "SERVER_NOT_FOUND" ≡ false)
        × (mentions e "SERVER_STATE_ILLEGAL" ≡ true)
        × (status v ≡ stopped)
  pub delete_stopped :
      (w : S)
      → status w ≡ stopped
      → (v : S) × (Instance.delete svc uuid w ≡ (ok tt, v)) × (status v ≡ missing)

module _ {S K : Type 0} (p : Cloud S K) (claim : NodeClaim) where
  pub stopped_by :
      (w v : S) (r : Result String (Unit {0}))
      → Instance.stop p.servers (uuid_of claim) w ≡ (r, v)
      → delete p claim w ≡ after_stop p (uuid_of claim) r v
  unfolding delete
  stopped_by w v r e = ap (λ x. after_stop p (uuid_of claim) x.0 x.1) e

  remove_step :
      (w v : S)
      → Instance.delete p.servers (uuid_of claim) w ≡ (ok tt, v)
      → remove p (uuid_of claim) w ≡ (ok tt, v)
  unfolding remove
  remove_step w v e =
      rescue_step deletion_error (Instance.delete p.servers (uuid_of claim)) w tt v e

  -- A server that is gone: an error that says so.
  pub delete_missing :
      (status : S → Status)
      → IsDocumented p.servers (uuid_of claim) status
      → (w : S) → status w ≡ missing
      → (x : Error) × (v : S) × (delete p claim w ≡ (err x, v)) × (is_node_claim_not_found x ≡ true)
  unfolding after_stop
  delete_missing status d w s =
      let (e, v, q, m) = d.stop_missing w s in
      (
        server_not_found e,
        v,
        stopped_by w v (err e) q ∙ rw m refl,
        unfold server_not_found is_node_claim_not_found in refl,
      )

  -- With UpCloud's documented answers, a server that is there is gone afterwards, whether it ran or had
  -- been stopped, and no error is returned.
  pub delete_present :
      (status : S → Status)
      → IsDocumented p.servers (uuid_of claim) status
      → (w : S) → (status w ≡ running) ⊎ (status w ≡ stopped)
      → (v : S) × (delete p claim w ≡ (ok tt, v)) × (status v ≡ missing)
  unfolding after_stop
  delete_present status d w (inl s) =
      let (v, u, q, x, t) = d.stop_running w s in
      let (z, y, g) = d.delete_stopped u t in
      (
        z,
        stopped_by w v (ok tt) q
            ∙ rescue_bind_step (λ e. wrapped "waiting for server to stop" (service e))
                (Instance.wait_for_stop p.servers (uuid_of claim)) (λ _. remove p (uuid_of claim)) v
                tt u x
            ∙ remove_step u z y,
        g,
      )
  delete_present status d w (inr s) =
      let (e, v, q, nf, il, t) = d.stop_stopped w s in
      let (z, y, g) = d.delete_stopped v t in
      (z, stopped_by w v (err e) q ∙ rw nf (rw il (remove_step v z y)), g)

  -- With UpCloud's documented answers, a first Delete of a server that is there, running or
  -- stopped, succeeds, and a second one reports that the server is gone.
  pub delete_twice :
      (status : S → Status)
      → IsDocumented p.servers (uuid_of claim) status
      → (w : S) → (status w ≡ running) ⊎ (status w ≡ stopped)
      → (v : S) × (u : S) × (x : Error) × (delete p claim w ≡ (ok tt, v))
        × (delete p claim v ≡ (err x, u))
        × (is_node_claim_not_found x ≡ true)
  delete_twice status d w s =
      let (v, q, g) = delete_present status d w s in
      let (x, u, y, n) = delete_missing status d v g in (v, u, x, q, y, n)

  other_error :
      (y : String)
      → mentions y "SERVER_NOT_FOUND" ≡ false
      → is_node_claim_not_found (deletion_error y) ≡ false
  unfolding deletion_error is_node_claim_not_found
  other_error y m = rw m refl

  removed_not_found :
      (w v : S) (x : Error)
      → remove p (uuid_of claim) w ≡ (err x, v)
      → is_node_claim_not_found x ≡ true
      → (e : String) × (Instance.delete p.servers (uuid_of claim) w ≡ (err e, v))
        × (mentions e "SERVER_NOT_FOUND" ≡ true)
  unfolding remove
  removed_not_found w v x q n = elim (step-cases (Instance.delete p.servers (uuid_of claim)) w) [
    | inl (_, u, e) ↦ let r = sym (remove_step w u e) ∙ q in ground arith
    | inr (y, u, e) ↦
        let r =
          sym (rescue_err deletion_error (Instance.delete p.servers (uuid_of claim)) w y u e) ∙ q in
        elim (Bool-cases (mentions y "SERVER_NOT_FOUND")) [
          | inl m ↦ (y, ground arith, m)
          | inr m ↦ let k = other_error y m in ground arith
        ]
  ]

  Reported : Type 0
  Reported =
      (u : S) × (y : S) × (e : String) × (mentions e "SERVER_NOT_FOUND" ≡ true)
      × ((Instance.stop p.servers (uuid_of claim) u ≡ (err e, y))
          ⊎ (Instance.delete p.servers (uuid_of claim) u ≡ (err e, y)))

  removed_reported :
      (w v : S) (x : Error)
      → remove p (uuid_of claim) w ≡ (err x, v)
      → is_node_claim_not_found x ≡ true
      → Reported
  unfolding Reported
  removed_reported w v x q n = let (e, d, m) = removed_not_found w v x q n in (w, v, e, m, inr d)

  after_wait_reported :
      (u v : S) (x : Error)
      → after_stop p (uuid_of claim) (ok tt) u ≡ (err x, v)
      → is_node_claim_not_found x ≡ true
      → Reported
  unfolding after_stop is_node_claim_not_found
  after_wait_reported u v x q n =
      let wrap = λ (e : String). wrapped "waiting for server to stop" (service e) in
      let wait = Instance.wait_for_stop p.servers (uuid_of claim) in
      let rest = λ (_ : Unit {0}). remove p (uuid_of claim) in
      elim (step-cases wait u) [
        | inl (_, y, e) ↦
            removed_reported y v x (sym (rescue_bind_step wrap wait rest u tt y e) ∙ q) n
        | inr (z, y, e) ↦
            let r =
              sym (bind_err (rescue wrap wait) rest u (wrap z) y (rescue_err wrap wait u z y e))
              ∙ q in
            ground arith
      ]

  pub illegal_removes :
      (u : S) (y : String)
      → mentions y "SERVER_NOT_FOUND" ≡ false
      → mentions y "SERVER_STATE_ILLEGAL" ≡ true
      → after_stop p (uuid_of claim) (err y) u ≡ remove p (uuid_of claim) u
  unfolding after_stop
  illegal_removes u y m i = rw m (rw i refl)

  pub other_fails :
      (u : S) (y : String)
      → mentions y "SERVER_NOT_FOUND" ≡ false
      → mentions y "SERVER_STATE_ILLEGAL" ≡ false
      → after_stop p (uuid_of claim) (err y) u ≡ (err (service y), u)
  unfolding after_stop
  other_fails u y m i = rw m (rw i refl)

  after_error_reported :
      (w u v : S) (x : Error) (y : String)
      → Instance.stop p.servers (uuid_of claim) w ≡ (err y, u)
      → after_stop p (uuid_of claim) (err y) u ≡ (err x, v)
      → is_node_claim_not_found x ≡ true
      → Reported
  unfolding after_stop is_node_claim_not_found Reported
  after_error_reported w u v x y e q n = elim (Bool-cases (mentions y "SERVER_NOT_FOUND")) [
    | inl m ↦ (w, u, y, m, inl e)
    | inr m ↦ elim (Bool-cases (mentions y "SERVER_STATE_ILLEGAL")) [
      | inl i ↦ removed_reported u v x (sym (illegal_removes u y m i) ∙ q) n
      | inr i ↦ let r = sym (other_fails u y m i) ∙ q in ground arith
    ]
  ]

  -- Whatever the service does, Delete reports a missing server only if the service answered so, to the stop
  -- or to the deletion.
  pub not_found_honest :
      (w v : S) (x : Error)
      → delete p claim w ≡ (err x, v)
      → is_node_claim_not_found x ≡ true
      → (u : S) × (y : S) × (e : String) × (mentions e "SERVER_NOT_FOUND" ≡ true)
        × ((Instance.stop p.servers (uuid_of claim) u ≡ (err e, y))
            ⊎ (Instance.delete p.servers (uuid_of claim) u ≡ (err e, y)))
  unfolding Reported
  not_found_honest w v x q n = elim (step-cases (Instance.stop p.servers (uuid_of claim)) w) [
    | inl (_, u, e) ↦ after_wait_reported u v x (sym (stopped_by w u (ok tt) e) ∙ q) n
    | inr (y, u, e) ↦ after_error_reported w u v x y e (sym (stopped_by w u (err y) e) ∙ q) n
  ]
