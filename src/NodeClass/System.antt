-- ===== src/NodeClass/System.antt =====
-- The controller among the others: runs whose calls take effect one by one, edits of the node class, and NodeClaims
-- that come, change and go between any two calls.
use karpenter_provider_upclo.Base.{
  String, ◌≡◌, ◌≢◌, sym, ap, subst, inl, inr, Any, All, ◌==◌, List, [], ◌∷◌, ◌++◌, ok, Bool-cases,
  Result-cases, get, insert, if◌then◌else◌, Dict, ◌*◌, Any-map, Option-cases,
}
use karpenter_provider_upclo.Kube.{NodeClaim, requeue_after, no_requeue, is_set, is_not_found}
use karpenter_provider_upclo.Kube.Run.{pure, attempt, bind-All}
use karpenter_provider_upclo.Base.Int.{pos}
use karpenter_provider_upclo.Api.{
  node_class_finalizer, hash_annotation_key, hash_version_annotation_key, hash_version,
}
use karpenter_provider_upclo.Api.Spec.{Spec, hash}
use karpenter_provider_upclo.Instance.{Server}
use karpenter_provider_upclo.Cloud.Claims.{created_claim}
use karpenter_provider_upclo.NodeClass.{
  second, is_unchanged, has_finalizer, without_finalizer, Env, NodeClass, Write, update,
  patch_claim, Answers, is_skipped, rebaseline_claim_hashes, validate_spec, handle_deletion,
  report_invalid, report_valid, finish, ready, reconcile_found, reconcile,
}
use karpenter_provider_upclo.NodeClass.Rebaseline.{get-hash, get-version, patches, pass_calls}

abbrev pub hash_of : NodeClaim → String
hash_of c = get hash_annotation_key c.annotations

abbrev pub version_of : NodeClaim → String
version_of c = get hash_version_annotation_key c.annotations

-- The patch of the two annotations, as it reaches the claim of that name. Only the controller and Create write
-- them, so the patch sets both, whatever else has changed since the controller read the claim.
abbrev pub stamped : NodeClaim → NodeClaim → NodeClaim
stamped changed c = record c {
  annotations =
      insert hash_version_annotation_key (version_of changed)
        (insert hash_annotation_key (hash_of changed) c.annotations);
}

abbrev pub patched : String → NodeClaim → List NodeClaim → List NodeClaim
patched name changed [] = []
patched name changed (c ∷ cs) =
    let rest = patched name changed cs in (if c.name == name then stamped changed c else c) ∷ rest

-- The claims after one call of the controller; the two calls on the node class leave them alone.
abbrev pub applied : {C : Type 0} → Write C → List NodeClaim → List NodeClaim
applied (patch_claim stored changed) cs = patched stored.name changed cs
applied _ cs = cs

-- `history` are the specifications that the node class has had, `pending` the calls that a run has still to make.
pub record System (C : Type 0) : Type 0 where
  pub history : List Spec
  pub claims : List NodeClaim
  pub pending : List (Write C)

module _ {C : Type 0} (env : Env C) where
  abbrev pub Hashes : List Spec → String → Type 0
  Hashes history h = Any (λ (s : Spec). hash env.digest s ≡ h) history

  -- A claim of the running hash version holds the hash of a specification that the class has had.
  abbrev pub Traced : List Spec → NodeClaim → Type 0
  Traced history c = version_of c ≡ hash_version → Hashes history (hash_of c)

  -- A new claim is one that Create returned for some version of the class, or one that nobody has stamped
  -- with the running hash version.
  pub data Arrives : List Spec → NodeClaim → Type 0 where
    by_create :
        (history : List Spec) (spec : Spec) (claim : NodeClaim) (name : String)
        (labels : Dict String) (server : Server) (c : NodeClaim)
        → Any (λ s. s ≡ spec) history
        → c ≡ created_claim env.digest spec claim name labels server
        → Arrives history c
    unstamped :
        (history : List Spec) (c : NodeClaim) → version_of c ≢ hash_version → Arrives history c

  pub data Step : System C → System C → Type 0 where
    -- A run may read any version of the class, and any claims at all, since its client reads from a cache.
    begin :
        (s t : System C) (a : Answers C)
        → ((nc : NodeClass C) → a.node_class ≡ ok nc → Any (λ x. x ≡ nc.spec) s.history)
        → s.pending ≡ []
        → t ≡ record s { pending = (reconcile env a).writes }
        → Step s t
    call :
        (s t : System C) (x : Write C) (xs : List (Write C))
        → s.pending ≡ (x ∷ xs)
        → t ≡ record s { claims = applied x s.claims; pending = xs }
        → Step s t
    -- The call fails, or the controller is restarted.
    stop : (s t : System C) → t ≡ record s { pending = [] } → Step s t
    edit : (s t : System C) (spec : Spec) → t ≡ record s { history = spec ∷ s.history } → Step s t
    arrive :
        (s t : System C) (c : NodeClaim)
        → Arrives s.history c
        → t ≡ record s { claims = c ∷ s.claims }
        → Step s t
    -- Others take claims away and change anything but the two annotations.
    change :
        (s t : System C) (cs : List NodeClaim)
        → All
            (λ (c : NodeClaim).
              Any
                (λ (d : NodeClaim). (hash_of d ≡ hash_of c) × (version_of d ≡ version_of c))
                s.claims)
            cs
        → t ≡ record s { claims = cs }
        → Step s t

  pub data Reach : System C → System C → Type 0 where
    start : (s : System C) → Reach s s
    later : (s t u : System C) → Reach s t → Step t u → Reach s u

  -- A pending patch stamps the running version and the hash of a specification of the class.
  abbrev pub Sound : List Spec → Write C → Type 0
  Sound history (patch_claim stored changed) =
      (version_of changed ≡ hash_version) × Hashes history (hash_of changed)
  Sound history _ = Unit

  pub record Inv (s : System C) : Type 0 where
    pub traced : All (Traced s.history) s.claims
    pub sound : All (Sound s.history) s.pending

  All-prefix : {A : Type 0} (P : A → Type 0) (xs ys : List A) → All P (xs ++ ys) → All P xs
  All-prefix P [] ys h = tt
  All-prefix P (x ∷ xs) ys h = (h.0, All-prefix P xs ys h.1)

  patches-Sound :
      (history : List Spec) (h : String) (claims : List NodeClaim)
      → Hashes history h
      → All (Sound history) (patches h claims)
  patches-Sound history h [] m = tt
  patches-Sound history h (c ∷ cs) m = elim (Bool-cases (is_skipped c)) [
    | inl e ↦ rw e (patches-Sound history h cs m)
    | inr e ↦ rw e (
      (get-version h c, subst (Hashes history) (sym (get-hash h c)) m),
      patches-Sound history h cs m,
    )
  ]

  pass-Sound :
      (history : List Spec) (a : Answers C) (nc : NodeClass C)
      → Hashes history (hash env.digest nc.spec)
      → All (Sound history) (rebaseline_claim_hashes env a nc).writes
  pass-Sound history a nc m = elim (Result-cases a.claims) [
    | inl (claims, e) ↦
        let ((rest, q), _) = pass_calls env a nc claims e in
        All-prefix (Sound history) (rebaseline_claim_hashes env a nc).writes rest
          (subst (All (Sound history)) q (patches-Sound history (hash env.digest nc.spec) claims m))
    | inr (x, e) ↦ unfold rebaseline_claim_hashes in rw (e, rebaseline_claim_hashes) tt
  ]

  finish-Sound :
      (history : List Spec) (a : Answers C) (nc : NodeClass C)
      → Hashes history (hash env.digest nc.spec)
      → All (Sound history) (finish env a nc).writes
  unfolding finish
  finish-Sound history a nc m =
      bind-All (Sound history) (rebaseline_claim_hashes env a nc)
        (λ _. pure (requeue_after (pos (5 * 60 * second)))) (pass-Sound history a nc m) (λ _. tt)

  valid-Sound :
      (history : List Spec) (a : Answers C) (nc : NodeClass C)
      → Hashes history (hash env.digest nc.spec)
      → All (Sound history) (report_valid env a nc).writes
  unfolding report_valid ready
  valid-Sound history a nc m =
      let rest = finish-Sound history a (ready env nc) m in
      elim (Bool-cases (is_unchanged env nc)) [
        | inl e ↦ rw (e, report_valid) rest
        | inr e ↦
            rw (e, report_valid)
              (elim (Result-cases a.status_patched) [
                | inl (x, q) ↦ rw (q, report_valid) (tt, rest)
                | inr (x, q) ↦ rw (q, report_valid) (tt, tt)
              ])
      ]

  found-Sound :
      (history : List Spec) (a : Answers C) (nc : NodeClass C)
      → Hashes history (hash env.digest nc.spec)
      → All (Sound history) (reconcile_found env a nc).writes
  unfolding reconcile_found
  found-Sound history a nc m = elim (Bool-cases (is_set nc.deletion_timestamp)) [
    | inl e ↦
        rw (e, reconcile_found)
          (unfold handle_deletion in
            elim (Bool-cases (has_finalizer nc.finalizers)) [
              | inl f ↦
                  rw (f, handle_deletion)
                    (bind-All (Sound history)
                      (attempt (update (record nc { finalizers = without_finalizer nc.finalizers }))
                        a.updated)
                      (λ _. pure no_requeue) (tt, tt) (λ _. tt))
              | inr f ↦ rw (f, handle_deletion) tt
            ])
    | inr e ↦
        rw (e, reconcile_found)
          (elim (Bool-cases (has_finalizer nc.finalizers)) [
            | inr f ↦
                rw (f, reconcile_found)
                  (bind-All (Sound history)
                    (attempt
                      (update
                        (record nc { finalizers = nc.finalizers ++ (node_class_finalizer ∷ []) }))
                      a.updated)
                    (λ _. pure (requeue_after (pos (60 * second)))) (tt, tt) (λ _. tt))
            | inl f ↦
                rw (f, reconcile_found)
                  (elim (Option-cases (validate_spec nc.spec)) [
                    | inl v ↦ rw (v, reconcile_found) (valid-Sound history a nc m)
                    | inr (x, v) ↦ rw (v, reconcile_found) (unfold report_invalid in (tt, tt))
                  ])
          ])
  ]

  pub run-Sound :
      (history : List Spec) (a : Answers C)
      → ((nc : NodeClass C) → a.node_class ≡ ok nc → Any (λ x. x ≡ nc.spec) history)
      → All (Sound history) (reconcile env a).writes
  unfolding reconcile
  run-Sound history a k = elim (Result-cases a.node_class) [
    | inl (nc, e) ↦
        rw (e, reconcile)
          (found-Sound history a nc
            (Any-map (λ (x : Spec) (q : x ≡ nc.spec). ap (hash env.digest) q) (k nc e)))
    | inr (x, e) ↦
        rw (e, reconcile)
          (elim (Bool-cases (is_not_found x)) [
            | inl b ↦ rw (b, reconcile) tt
            | inr b ↦ rw (b, reconcile) tt
          ])
  ]
