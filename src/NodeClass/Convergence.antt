-- ===== src/NodeClass/Convergence.antt =====
-- Runs in which every call succeeds, and what they make of a node class and its NodeClaims.
use karpenter_provider_upclo.Base.{
  ℕ, zero, suc, ◌≡◌, refl, sym, ap, subst, ◌∙◌, inl, inr, All, true, false, eq_refl, List, [], ◌∷◌,
  ◌++◌, map, none, Bool-cases, if◌then◌else◌,
}
use karpenter_provider_upclo.Kube.{Error, NodeClaim, is_set, Requeue}
use karpenter_provider_upclo.Kube.Run.{Run}
use karpenter_provider_upclo.Api.{node_class_finalizer}
use karpenter_provider_upclo.Api.Spec.{hash}
use karpenter_provider_upclo.NodeClass.{
  Env, NodeClass, Write, update, patch_status, validate_spec, has_finalizer, is_skipped,
  is_unchanged, ready, report_valid, finish, reconcile,
}
use karpenter_provider_upclo.NodeClass.Rebaseline.{settled, patches, pass_calls}
use karpenter_provider_upclo.NodeClass.Lifecycle.{
  adoption, adopted_run, steady_run, has_finalizer-append,
}
use karpenter_provider_upclo.NodeClass.Sweep.{
  healthy, class_after, claims_after, Distinct, swept-settled, class_kept, map-skipped, append_nil,
}

module _ {C : Type 0} (env : Env C) where
  -- A node class that needs no call, with NodeClaims that need none.
  pub record Steady (nc : NodeClass C) (claims : List NodeClaim) : Type 0 where
    pub alive : is_set nc.deletion_timestamp ≡ false
    pub holds : has_finalizer nc.finalizers ≡ true
    pub valid : validate_spec nc.spec ≡ none
    pub reported : is_unchanged env nc ≡ true
    pub skipped : All (λ (c : NodeClaim). is_skipped c ≡ true) claims

  abbrev pub run_writes : NodeClass C → List NodeClaim → List (Write C)
  run_writes nc claims = (reconcile env (healthy nc claims)).writes

  abbrev pub next_class : NodeClass C → List NodeClaim → NodeClass C
  next_class nc claims = class_after (run_writes nc claims) nc

  abbrev pub next_claims : NodeClass C → List NodeClaim → List NodeClaim
  next_claims nc claims = claims_after (run_writes nc claims) claims

  finish_writes :
      (nc other : NodeClass C) (claims : List NodeClaim)
      → (finish env (healthy other claims) nc).writes ≡ patches (hash env.digest nc.spec) claims
  unfolding finish
  finish_writes nc other claims =
      let (_, full) = pass_calls env (healthy other claims) nc claims refl in
      rw (full (λ j. refl)) (append_nil (patches (hash env.digest nc.spec) claims))

  valid_writes :
      (nc : NodeClass C) (claims : List NodeClaim)
      → (report_valid env (healthy nc claims) nc).writes ≡ (
          if is_unchanged env nc
          then patches (hash env.digest nc.spec) claims
          else patch_status nc (ready env nc) ∷ patches (hash env.digest nc.spec) claims)
  unfolding report_valid ready
  valid_writes nc claims = elim (Bool-cases (is_unchanged env nc)) [
    | inl e ↦ rw (e, report_valid) (finish_writes (ready env nc) nc claims)
    | inr e ↦
        rw (e, report_valid)
          (ap (λ (l : List (Write C)). patch_status nc (ready env nc) ∷ l)
            (finish_writes (ready env nc) nc claims))
  ]

  -- A live node class with the finalizer and a valid specification.
  pub record Managed (nc : NodeClass C) : Type 0 where
    pub alive : is_set nc.deletion_timestamp ≡ false
    pub holds : has_finalizer nc.finalizers ≡ true
    pub valid : validate_spec nc.spec ≡ none

  Managed-writes :
      (nc : NodeClass C) (claims : List NodeClaim)
      → Managed nc
      → run_writes nc claims ≡ (report_valid env (healthy nc claims) nc).writes
  Managed-writes nc claims m =
      ap (λ (r : Run (Write C) Error Requeue). r.writes)
        (adopted_run env (healthy nc claims) nc
          (record { read = refl; alive = m.alive; holds = m.holds }))
      ∙ rw m.valid refl

  -- After one such run: the same node class or the same with a ready status, and all claims settled.
  settled_writes :
      (nc : NodeClass C) (claims : List NodeClaim)
      → Managed nc
      → run_writes nc claims ≡ (
          if is_unchanged env nc
          then patches (hash env.digest nc.spec) claims
          else patch_status nc (ready env nc) ∷ patches (hash env.digest nc.spec) claims)
  settled_writes nc claims m = Managed-writes nc claims m ∙ valid_writes nc claims

  Steady-at :
      (nc : NodeClass C) (claims : List NodeClaim) (x : NodeClass C)
      → next_class nc claims ≡ x
      → Managed x
      → is_unchanged env x ≡ true
      → next_claims nc claims ≡ map (settled (hash env.digest nc.spec)) claims
      → Steady (next_class nc claims) (next_claims nc claims)
        × (next_claims nc claims ≡ map (settled (hash env.digest nc.spec)) claims)
  Steady-at nc claims x q m u r =
      let steady : Steady x (map (settled (hash env.digest nc.spec)) claims) = record {
        alive = m.alive;
        holds = m.holds;
        valid = m.valid;
        reported = u;
        skipped = map-skipped (hash env.digest nc.spec) claims;
      } in
      (
        subst (λ (y : NodeClass C). Steady y (next_claims nc claims)) (sym q)
            (subst (Steady x) (sym r) steady),
        r,
      )

  pub Steady-writes :
      (nc : NodeClass C) (claims : List NodeClaim) → Steady nc claims → run_writes nc claims ≡ []
  Steady-writes nc claims s =
      ap (λ (r : Run (Write C) Error Requeue). r.writes)
        (steady_run env (healthy nc claims) nc claims
          (record { read = refl; alive = s.alive; holds = s.holds }) s.valid s.reported refl
          s.skipped)

  abbrev pub adopted : NodeClass C → NodeClass C
  adopted nc = record nc { finalizers = nc.finalizers ++ (node_class_finalizer ∷ []) }

  adoption_writes :
      (nc : NodeClass C) (claims : List NodeClaim)
      → is_set nc.deletion_timestamp ≡ false
      → has_finalizer nc.finalizers ≡ false
      → run_writes nc claims ≡ (update (adopted nc) ∷ [])
  adoption_writes nc claims a f = (adoption env (healthy nc claims) nc refl a f).0

  module _
      (stable : (c : C)
        → env.same_conditions
            (env.set_true "Ready" c)
            (env.set_true "Ready" (env.set_true "Ready" c))
          ≡ true) where
    ready_unchanged : (nc : NodeClass C) → is_unchanged env (ready env nc) ≡ true
    unfolding is_unchanged ready
    ready_unchanged nc = rw (stable nc.conditions) (eq_refl (hash env.digest nc.spec))

    ready-Managed : (nc : NodeClass C) → Managed nc → Managed (ready env nc)
    unfolding ready
    ready-Managed nc m = record { alive = m.alive; holds = m.holds; valid = m.valid }

    run-Steady :
        (nc : NodeClass C) (claims : List NodeClaim)
        → Managed nc
        → Distinct claims
        → Steady (next_class nc claims) (next_claims nc claims)
          × (next_claims nc claims ≡ map (settled (hash env.digest nc.spec)) claims)
    run-Steady nc claims m d = elim (Bool-cases (is_unchanged env nc)) [
      | inl e ↦
          let w : run_writes nc claims ≡ patches (hash env.digest nc.spec) claims =
            settled_writes nc claims m ∙ rw e refl in
          Steady-at nc claims nc
            (ap (λ (x : List (Write C)). class_after x nc) w
              ∙ class_kept C (hash env.digest nc.spec) claims nc)
            m e
            (ap (λ (x : List (Write C)). claims_after x claims) w
              ∙ swept-settled C (hash env.digest nc.spec) claims d)
      | inr e ↦
          let w : run_writes nc claims
              ≡ (patch_status nc (ready env nc) ∷ patches (hash env.digest nc.spec) claims) =
            settled_writes nc claims m ∙ rw e refl in
          Steady-at nc claims (ready env nc)
            (ap (λ (x : List (Write C)). class_after x nc) w
              ∙ class_kept C (hash env.digest nc.spec) claims (ready env nc))
            (ready-Managed nc m) (ready_unchanged nc)
            (ap (λ (x : List (Write C)). claims_after x claims) w
              ∙ swept-settled C (hash env.digest nc.spec) claims d)
    ]

    -- The state after a run of the controller in which no call fails, and after `n` of them.
    abbrev pub after_runs : ℕ → NodeClass C × List NodeClaim → NodeClass C × List NodeClaim
    after_runs zero w = w
    after_runs (suc n) w = after_runs n (next_class w.0 w.1, next_claims w.0 w.1)

    Steady-stays :
        (n : ℕ) (nc : NodeClass C) (claims : List NodeClaim)
        → Steady nc claims
        → after_runs n (nc, claims) ≡ (nc, claims)
    Steady-stays zero nc claims s = refl
    Steady-stays (suc n) nc claims s =
        ap (λ (x : List (Write C)). after_runs n (class_after x nc, claims_after x claims))
          (Steady-writes nc claims s)
        ∙ Steady-stays n nc claims s

    -- What the runs end with.
    abbrev pub Settled : NodeClass C → List NodeClaim → NodeClass C × List NodeClaim → Type 0
    Settled nc claims w =
        Steady w.0 w.1
        × (w.1 ≡ map (settled (hash env.digest nc.spec)) claims)
        × (run_writes w.0 w.1 ≡ [])

    next-Settled :
        (n : ℕ) (nc : NodeClass C) (claims : List NodeClaim)
        → Managed nc
        → Distinct claims
        → Settled nc claims (after_runs (suc n) (nc, claims))
    next-Settled n nc claims m d =
        let (s, r) = run-Steady nc claims m d in
        subst (Settled nc claims)
          (sym (Steady-stays n (next_class nc claims) (next_claims nc claims) s))
          (s, r, Steady-writes (next_class nc claims) (next_claims nc claims) s)

    adopted-Managed :
        (nc : NodeClass C)
        → is_set nc.deletion_timestamp ≡ false
        → validate_spec nc.spec ≡ none
        → Managed (adopted nc)
    adopted-Managed nc a v = record {
      alive = a;
      holds = has_finalizer-append nc.finalizers;
      valid = v;
    }

    -- With no call failing and nobody else about, and if setting Ready twice changes nothing over setting it
    -- once, any two runs or more bring a live and valid node class, with or without the finalizer, and
    -- NodeClaims of distinct names, to a steady state: the class has the finalizer and a ready status with the
    -- live hash, each claim is as one pass leaves it, and the next run makes no call.
    pub converges :
        (n : ℕ) (nc : NodeClass C) (claims : List NodeClaim)
        → is_set nc.deletion_timestamp ≡ false
        → validate_spec nc.spec ≡ none
        → Distinct claims
        → Settled nc claims (after_runs (suc (suc n)) (nc, claims))
    converges n nc claims a v d = elim (Bool-cases (has_finalizer nc.finalizers)) [
      | inl f ↦ next-Settled (suc n) nc claims (record { alive = a; holds = f; valid = v }) d
      | inr f ↦
          subst (Settled nc claims)
            (sym (
              ap
                (λ (x : List (Write C)).
                  after_runs (suc n) (class_after x nc, claims_after x claims))
                (adoption_writes nc claims a f)))
            (next-Settled n (adopted nc) claims (adopted-Managed nc a v) d)
    ]
