-- ===== src/NodeClass/Rebaseline.antt =====
-- The pass that brings the hashes of NodeClaims up to date: what it writes, and what it leaves.
use karpenter_provider_upclo.Base.{
  String, ℕ, suc, ◌≡◌, ◌≢◌, refl, ap, inl, inr, true, false, ◌==◌, eq_iff, eq_refl, List, [], ◌∷◌,
  ◌++◌, map, Result, ok, Bool-cases, Result-cases, arith, lookup, insert, get, has_key,
  lookup-insert, get-insert, dict_laws, if◌then◌else◌,
}
use karpenter_provider_upclo.Kube.{Error, NodeClaim}
use karpenter_provider_upclo.Api.{hash_annotation_key, hash_version_annotation_key, hash_version}
use karpenter_provider_upclo.Api.Spec.{hash}
use karpenter_provider_upclo.NodeClass.{
  Env, NodeClass, Write, patch_claim, Answers, is_drifted, is_skipped, rebaselined, rebaseline_loop,
  rebaseline_claim_hashes,
}

-- What a pass makes of a claim.
abbrev pub settled : String → NodeClaim → NodeClaim
settled h claim = if is_skipped claim then claim else rebaselined h claim

-- The patches of a pass in which each patch succeeds.
abbrev pub patches : {C : Type 0} → String → List NodeClaim → List (Write C)
patches h [] = []
patches h (claim ∷ claims) =
    let rest = patches h claims in
    if is_skipped claim then rest else patch_claim claim (rebaselined h claim) ∷ rest

pub get-version :
    (h : String) (claim : NodeClaim)
    → get hash_version_annotation_key (rebaselined h claim).annotations ≡ hash_version
unfolding rebaselined
get-version h claim = simp dict_laws

pub get-hash :
    (h : String) (claim : NodeClaim) → get hash_annotation_key (rebaselined h claim).annotations ≡ h
unfolding rebaselined
get-hash h claim = ground (
  arith,
  get-insert hash_version_annotation_key hash_annotation_key hash_version
      (insert hash_annotation_key h claim.annotations),
  get-insert hash_annotation_key hash_annotation_key h claim.annotations,
  eq_refl hash_annotation_key,
  eq_iff hash_version_annotation_key hash_annotation_key,
)

has-hash :
    (h : String) (claim : NodeClaim)
    → has_key hash_annotation_key (rebaselined h claim).annotations ≡ true
unfolding rebaselined has_key
has-hash h claim = ground (
  arith,
  lookup-insert hash_version_annotation_key hash_annotation_key hash_version
      (insert hash_annotation_key h claim.annotations),
  lookup-insert hash_annotation_key hash_annotation_key h claim.annotations,
  eq_refl hash_annotation_key,
  eq_iff hash_version_annotation_key hash_annotation_key,
)

-- A pass over settled claims writes nothing.
pub skipped-settled : (h : String) (claim : NodeClaim) → is_skipped (settled h claim) ≡ true
skipped-settled h claim = elim (Bool-cases (is_skipped claim)) [
  | inl e ↦ rw e e
  | inr e ↦ rw e (
      unfold is_skipped in
      rw (has-hash h claim) (rw (get-version h claim) (ground (arith, eq_refl hash_version))))
]

module _ {C : Type 0} (env : Env C) (h : String) (patched : ℕ → Result Error (Unit {0})) where
  loop_ok :
      (i : ℕ) (claims : List NodeClaim)
      → ((j : ℕ) → patched j ≡ ok tt)
      → rebaseline_loop env h patched i claims
        ≡ record { writes = patches h claims; result = ok tt }
  unfolding rebaseline_loop
  loop_ok i [] all = refl
  loop_ok i (claim ∷ claims) all = ground (arith, all i, loop_ok (suc i) claims all)

  -- The calls of any pass begin the calls of a full one.
  loop_prefix :
      (i : ℕ) (claims : List NodeClaim)
      → (rest : List (Write C)) × (patches h claims
          ≡ (rebaseline_loop env h patched i claims).writes ++ rest)
  unfolding rebaseline_loop
  loop_prefix i [] = ([], refl)
  loop_prefix i (claim ∷ claims) = elim (Bool-cases (is_skipped claim)) [
    | inl e ↦ rw e (loop_prefix (suc i) claims)
    | inr e ↦ rw e (elim (Result-cases (patched i)) [
      | inr (x, p) ↦ rw p (patches h claims, refl)
      | inl (u, p) ↦ rw p (
        (loop_prefix (suc i) claims).0,
        ap (λ (w : List (Write C)). patch_claim claim (rebaselined h claim) ∷ w)
            (loop_prefix (suc i) claims).1,
      )
    ])
  ]

  -- A pass that ends without an error has made all its calls.
  loop_full :
      (i : ℕ) (claims : List NodeClaim)
      → (rebaseline_loop env h patched i claims).result ≡ ok tt
      → (rebaseline_loop env h patched i claims).writes ≡ patches h claims
  unfolding rebaseline_loop
  loop_full i [] e = refl
  loop_full i (claim ∷ claims) e = elim (Bool-cases (is_skipped claim)) [
    | inl k ↦ ground (arith, e, k, loop_full (suc i) claims)
    | inr k ↦ elim (Result-cases (patched i)) [
      | inr (x, p) ↦ absurd (ground (arith, e, k, p))
      | inl (u, p) ↦ ground (arith, e, k, p, loop_full (suc i) claims)
    ]
  ]

-- The pass over the listed NodeClaims asks for one patch, of the two hash annotations, of each
-- claim that is not skipped, in the order of the list: all of them where each patch succeeds, and
-- the first of them otherwise.
pub pass_calls :
    {C : Type 0} (env : Env C) (a : Answers C) (nc : NodeClass C) (claims : List NodeClaim)
    → a.claims ≡ ok claims
    → ((rest : List (Write C)) × (patches (hash env.digest nc.spec) claims
          ≡ (rebaseline_claim_hashes env a nc).writes ++ rest))
      × (((j : ℕ) → a.claim_patched j ≡ ok tt)
          → rebaseline_claim_hashes env a nc
            ≡ record { writes = patches (hash env.digest nc.spec) claims; result = ok tt })
unfolding rebaseline_claim_hashes
pass_calls env a nc claims p = rw p (
  loop_prefix env (hash env.digest nc.spec) a.claim_patched 0 claims,
  loop_ok env (hash env.digest nc.spec) a.claim_patched 0 claims,
)

-- The fate of a claim in a pass that stamps the hash `h`.
pub data Fate (h : String) (claim : NodeClaim) : Type 0 where
  unlaunched :
      has_key hash_annotation_key claim.annotations ≡ false
      → claim.provider_id ≡ ""
      → settled h claim ≡ claim
      → Fate h claim
  current :
      has_key hash_annotation_key claim.annotations ≡ true
      → get hash_version_annotation_key claim.annotations ≡ hash_version
      → settled h claim ≡ claim
      → Fate h claim
  drifted : is_drifted claim.conditions ≡ true → settled h claim ≡ claim → Fate h claim
  stamped :
      is_drifted claim.conditions ≡ false
      → get hash_annotation_key (settled h claim).annotations ≡ h
      → get hash_version_annotation_key (settled h claim).annotations ≡ hash_version
      → ((k : String)
          → k ≢ hash_annotation_key
          → k ≢ hash_version_annotation_key
          → lookup k (settled h claim).annotations ≡ lookup k claim.annotations)
      → Fate h claim

other_keys :
    (h : String) (claim : NodeClaim) (k : String)
    → k ≢ hash_annotation_key
    → k ≢ hash_version_annotation_key
    → lookup k (rebaselined h claim).annotations ≡ lookup k claim.annotations
unfolding rebaselined
other_keys h claim k p q = ground (
  arith,
  lookup-insert hash_version_annotation_key k hash_version
      (insert hash_annotation_key h claim.annotations),
  lookup-insert hash_annotation_key k h claim.annotations,
  eq_iff hash_annotation_key k,
  eq_iff hash_version_annotation_key k,
)

stamped-Fate :
    (h : String) (claim : NodeClaim)
    → is_skipped claim ≡ false
    → is_drifted claim.conditions ≡ false
    → Fate h claim
stamped-Fate h claim e d =
    stamped d (rw e (get-hash h claim)) (rw e (get-version h claim))
      (λ k p q. rw e (other_keys h claim k p q))

pub unskipped_undrifted :
    (claim : NodeClaim) → is_skipped claim ≡ false → is_drifted claim.conditions ≡ false
unfolding is_skipped
unskipped_undrifted claim e = ground arith

settled_skipped :
    (h : String) (claim : NodeClaim) → is_skipped claim ≡ true → settled h claim ≡ claim
settled_skipped h claim e = rw e refl

skipped-Fate : (h : String) (claim : NodeClaim) → is_skipped claim ≡ true → Fate h claim
unfolding is_skipped
skipped-Fate h claim e = elim (Bool-cases (has_key hash_annotation_key claim.annotations)) [
  | inr n ↦ elim (Bool-cases (claim.provider_id == "")) [
    | inl p ↦ unlaunched n ((eq_iff claim.provider_id "").0 p) (settled_skipped h claim e)
    | inr p ↦ drifted (ground arith) (settled_skipped h claim e)
  ]
  | inl n ↦ elim (Bool-cases (get hash_version_annotation_key claim.annotations == hash_version)) [
    | inl v ↦ current n ((eq_iff _ hash_version).0 v) (settled_skipped h claim e)
    | inr v ↦ drifted (ground arith) (settled_skipped h claim e)
  ]
]

-- Each claim has one of four fates: not launched and without a hash, it is left; with a hash of the
-- running version, it is left; evaluated as drifted, it is left; and otherwise it is stamped with
-- the live hash and the running version, its other annotations kept.
pub claim-Fate : (h : String) (claim : NodeClaim) → Fate h claim
claim-Fate h claim = elim (Bool-cases (is_skipped claim)) [
  | inr e ↦ stamped-Fate h claim e (unskipped_undrifted claim e)
  | inl e ↦ skipped-Fate h claim e
]

-- A second pass with the same hash finds nothing to do.
pub second_pass :
    {C : Type 0} (h : String) (claims : List NodeClaim)
    → patches {C = C} h (map (settled h) claims) ≡ []
second_pass h [] = refl
second_pass h (claim ∷ claims) = rw (skipped-settled h claim) (second_pass h claims)

-- A pass over the listed claims that ends without an error has asked for all its patches.
pub pass_full :
    {C : Type 0} (env : Env C) (a : Answers C) (nc : NodeClass C) (claims : List NodeClaim)
    → a.claims ≡ ok claims
    → (rebaseline_claim_hashes env a nc).result ≡ ok tt
    → (rebaseline_claim_hashes env a nc).writes ≡ patches (hash env.digest nc.spec) claims
unfolding rebaseline_claim_hashes
pass_full env a nc claims p e =
    ground (arith, e, p, loop_full env (hash env.digest nc.spec) a.claim_patched 0 claims)
