-- ===== src/NodeClass/Origin.antt =====
-- Where the stored hashes of NodeClaims come from.
use karpenter_provider_upclo.Base.{
  String, ◌≡◌, ◌≢◌, sym, ap, subst, ◌∙◌, inl, inr, Any, here, there, All, All-map, ◌==◌, eq_iff,
  eq_refl, List, [], ◌∷◌, Bool-cases, arith, get, insert, get-insert, Dict, Any-map, lookup,
}
use karpenter_provider_upclo.Kube.{NodeClaim}
use karpenter_provider_upclo.Api.{
  hash_annotation_key, hash_version_annotation_key, hash_version, node_class_drifted,
}
use karpenter_provider_upclo.Api.Spec.{Spec, hash}
use karpenter_provider_upclo.Drift.{drift_reason}
use karpenter_provider_upclo.Instance.{Server}
use karpenter_provider_upclo.Cloud.Claims.{created_claim}
use karpenter_provider_upclo.NodeClass.{Env, Write, update, patch_status, patch_claim}
use karpenter_provider_upclo.NodeClass.System.{
  hash_of, version_of, stamped, patched, applied, System, Hashes, Traced, Arrives, by_create,
  unstamped, Step, begin, call, stop, edit, arrive, change, Reach, start, later, Sound, Inv,
  run-Sound,
}

module _ {C : Type 0} (env : Env C) where
  -- A patch of the pending ones keeps every claim traced.
  stamped-Traced :
      (history : List Spec) (changed c : NodeClaim)
      → version_of changed ≡ hash_version
      → Hashes env history (hash_of changed)
      → Traced env history (stamped changed c)
  stamped-Traced history changed c v h _ =
      subst (Hashes env history)
        (ground (
          arith,
          get-insert hash_version_annotation_key hash_annotation_key (version_of changed)
              (insert hash_annotation_key (hash_of changed) c.annotations),
          get-insert hash_annotation_key hash_annotation_key (hash_of changed) c.annotations,
          eq_refl hash_annotation_key,
          eq_iff hash_version_annotation_key hash_annotation_key,
        ))
        h

  patched-Traced :
      (history : List Spec) (name : String) (changed : NodeClaim) (cs : List NodeClaim)
      → version_of changed ≡ hash_version
      → Hashes env history (hash_of changed)
      → All (Traced env history) cs
      → All (Traced env history) (patched name changed cs)
  patched-Traced history name changed [] v h t = tt
  patched-Traced history name changed (c ∷ cs) v h t = elim (Bool-cases (c.name == name)) [
    | inl e ↦
        rw e (stamped-Traced history changed c v h, patched-Traced history name changed cs v h t.1)
    | inr e ↦ rw e (t.0, patched-Traced history name changed cs v h t.1)
  ]

  applied-Traced :
      (history : List Spec) (x : Write C) (cs : List NodeClaim)
      → Sound env history x
      → All (Traced env history) cs
      → All (Traced env history) (applied x cs)
  applied-Traced history (update nc) cs s t = t
  applied-Traced history (patch_status a b) cs s t = t
  applied-Traced history (patch_claim stored changed) cs s t =
      patched-Traced history stored.name changed cs s.0 s.1 t

  more-Sound :
      (history : List Spec) (spec : Spec) (x : Write C)
      → Sound env history x
      → Sound env (spec ∷ history) x
  more-Sound history spec (update nc) s = tt
  more-Sound history spec (patch_status a b) s = tt
  more-Sound history spec (patch_claim stored changed) s = (s.0, there s.1)

  created-Traced :
      (history : List Spec) (spec : Spec) (claim : NodeClaim) (name : String) (labels : Dict String)
      (server : Server)
      → Any (λ s. s ≡ spec) history
      → Traced env history (created_claim env.digest spec claim name labels server)
  unfolding created_claim get lookup
  created-Traced history spec claim name labels server m _ =
      Any-map (λ (x : Spec) (q : x ≡ spec). ap (hash env.digest) q) m

  Arrives-Traced :
      (history : List Spec) (c : NodeClaim) → Arrives env history c → Traced env history c
  Arrives-Traced history c (by_create _ spec claim name labels server _ m e) =
      subst (Traced env history) (sym e) (created-Traced history spec claim name labels server m)
  Arrives-Traced history c (unstamped _ _ n) = λ v. absurd (n v)

  All-Any :
      {A : Type 0} {P Q : A → Type 0} (xs : List A) → All P xs → Any Q xs → (x : A) × P x × Q x
  All-Any [] h m = elim m [ ]
  All-Any (x ∷ xs) h (here q) = (x, h.0, q)
  All-Any (x ∷ xs) h (there m) = All-Any xs h.1 m

  changed-Traced :
      (history : List Spec) (claims : List NodeClaim) (c : NodeClaim)
      → All (Traced env history) claims
      → Any (λ (d : NodeClaim). (hash_of d ≡ hash_of c) × (version_of d ≡ version_of c)) claims
      → Traced env history c
  changed-Traced history claims c t m v =
      let (d, k, e) = All-Any claims t m in subst (Hashes env history) e.0 (k (e.1 ∙ v))

  Step-Inv : (s t : System C) → Step env s t → Inv env s → Inv env t
  Step-Inv s t (begin _ _ a k _ e) inv =
      subst (Inv env) (sym e) (record { traced = inv.traced; sound = run-Sound env s.history a k })
  Step-Inv s t (call _ _ x xs q e) inv =
      let sound = subst (All (Sound env s.history)) q inv.sound in
      subst (Inv env) (sym e) (record {
        traced = applied-Traced s.history x s.claims sound.0 inv.traced;
        sound = sound.1;
      })
  Step-Inv s t (stop _ _ e) inv =
      subst (Inv env) (sym e) (record { traced = inv.traced; sound = tt })
  Step-Inv s t (edit _ _ spec e) inv = subst (Inv env) (sym e) (record {
    traced =
        All-map (λ (c : NodeClaim) (k : Traced env s.history c). λ v. there (k v)) s.claims
          inv.traced;
    sound = All-map (more-Sound s.history spec) s.pending inv.sound;
  })
  Step-Inv s t (arrive _ _ c k e) inv =
      subst (Inv env) (sym e)
        (record { traced = (Arrives-Traced s.history c k, inv.traced); sound = inv.sound })
  Step-Inv s t (change _ _ cs k e) inv = subst (Inv env) (sym e) (record {
    traced =
        All-map
          (λ (c : NodeClaim)
              (m : Any (λ (d : NodeClaim). (hash_of d ≡ hash_of c) × (version_of d ≡ version_of c))
                s.claims).
            changed-Traced s.history s.claims c inv.traced m)
          cs k;
    sound = inv.sound;
  })

  Reach-Inv : (s t : System C) → Reach env s t → Inv env s → Inv env t
  Reach-Inv s _ (start _) inv = inv
  Reach-Inv s u (later _ t _ r st) inv = Step-Inv t u st (Reach-Inv s t r inv)

  -- Whatever order runs of the controller, failed calls, edits of the node class, creations and changes of
  -- NodeClaims take: from a system with no call pending whose claims are so, every claim of the running hash
  -- version holds the hash of a specification that the class has had.
  pub Reach-Traced :
      (s t : System C)
      → s.pending ≡ []
      → All (Traced env s.history) s.claims
      → Reach env s t
      → All (Traced env t.history) t.claims
  Reach-Traced s t p k r =
      let inv : Inv env s = record {
        traced = k;
        sound = subst (All (Sound env s.history)) (sym p) tt;
      } in
      (Reach-Inv s t r inv).traced

  drifted_version :
      (now : Spec) (c : NodeClaim)
      → drift_reason env.digest now c ≡ node_class_drifted
      → (version_of c ≡ hash_version) × (hash_of c ≢ hash env.digest now)
  unfolding drift_reason
  drifted_version now c d = (
    ground (arith, d, eq_iff (version_of c) hash_version, eq_iff "" node_class_drifted),
    λ e.
        ground
          (arith, d, e, eq_iff (hash_of c) (hash env.digest now), eq_iff "" node_class_drifted),
  )

  -- Whatever order runs of the controller, failed calls, edits of the node class, creations and changes of
  -- NodeClaims take, from a system with no call pending in which each claim of the running hash version holds
  -- the hash of a specification that the class has had: a claim is reported as drifted from a specification
  -- only if the class has had another one, with a different hash, and the claim holds the hash of that one.
  pub drifted_for_cause :
      (s t : System C) (now : Spec) (c : NodeClaim)
      → s.pending ≡ []
      → All (Traced env s.history) s.claims
      → Reach env s t
      → Any (λ x. x ≡ c) t.claims
      → drift_reason env.digest now c ≡ node_class_drifted
      → Any
          (λ (old : Spec).
            (hash env.digest old ≡ hash_of c) × (hash env.digest old ≢ hash env.digest now))
          t.history
  drifted_for_cause s t now c p k r m d =
      let (x, h, e) = All-Any t.claims (Reach-Traced s t p k r) m in
      let (v, n) = drifted_version now c d in
      Any-map (λ (old : Spec) (q : hash env.digest old ≡ hash_of c). (q, λ z. n (sym q ∙ z)))
        (subst (Traced env t.history) e h v)
