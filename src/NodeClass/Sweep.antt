-- ===== src/NodeClass/Sweep.antt =====
-- What the calls of a whole pass make of the node class and of its NodeClaims.
use karpenter_provider_upclo.Base.{
  String, ◌≡◌, ◌≢◌, refl, sym, ap, subst, ◌∙◌, inl, inr, All, true, eq_refl, eq-false_of_ne, List,
  [], ◌∷◌, ◌++◌, map, ok, Bool-cases,
}
use karpenter_provider_upclo.Kube.{NodeClaim}
use karpenter_provider_upclo.NodeClass.{
  NodeClass, Write, update, patch_status, patch_claim, Answers, is_skipped, rebaselined,
}
use karpenter_provider_upclo.NodeClass.Rebaseline.{
  settled, patches, get-hash, get-version, skipped-settled,
}
use karpenter_provider_upclo.NodeClass.System.{stamped, patched, applied}

-- The API server's answers when it holds a node class and a list of NodeClaims and refuses nothing.
abbrev pub healthy : {C : Type 0} → NodeClass C → List NodeClaim → Answers C
healthy nc claims = record {
  node_class = ok nc;
  updated = ok tt;
  status_patched = ok tt;
  claims = ok claims;
  claim_patched = λ i. ok tt;
}

-- The node class after one call.
abbrev pub put : {C : Type 0} → Write C → NodeClass C → NodeClass C
put (update nc) old = nc
put (patch_status stored changed) old = changed
put (patch_claim stored changed) old = old

abbrev pub class_after : {C : Type 0} → List (Write C) → NodeClass C → NodeClass C
class_after [] nc = nc
class_after (x ∷ xs) nc = class_after xs (put x nc)

abbrev pub claims_after : {C : Type 0} → List (Write C) → List NodeClaim → List NodeClaim
claims_after [] cs = cs
claims_after (x ∷ xs) cs = claims_after xs (applied x cs)

-- The names of NodeClaims are unique.
abbrev pub Distinct : List NodeClaim → Type 0
Distinct [] = Unit
Distinct (c ∷ cs) = All (λ (d : NodeClaim). d.name ≢ c.name) cs × Distinct cs

stamped-rebaselined : (h : String) (c : NodeClaim) → stamped (rebaselined h c) c ≡ rebaselined h c
stamped-rebaselined h c = rw (get-version h c) (rw (get-hash h c) (unfold rebaselined in refl))

patched_others :
    (name : String) (changed : NodeClaim) (cs : List NodeClaim)
    → All (λ (d : NodeClaim). d.name ≢ name) cs
    → patched name changed cs ≡ cs
patched_others name changed [] h = refl
patched_others name changed (c ∷ cs) h =
    rw (eq-false_of_ne c.name name h.0)
      (ap (λ (l : List NodeClaim). c ∷ l) (patched_others name changed cs h.1))

patched_past :
    (name : String) (changed c : NodeClaim) (cs : List NodeClaim)
    → c.name ≢ name
    → patched name changed (c ∷ cs) ≡ (c ∷ patched name changed cs)
patched_past name changed c cs n = rw (eq-false_of_ne c.name name n) refl

rebaselined_name : (h : String) (c : NodeClaim) → (rebaselined h c).name ≡ c.name
unfolding rebaselined
rebaselined_name h c = refl

sweep_first :
    (h : String) (c : NodeClaim) (cs : List NodeClaim)
    → All (λ (d : NodeClaim). d.name ≢ c.name) cs
    → patched c.name (rebaselined h c) (c ∷ cs) ≡ (rebaselined h c ∷ cs)
sweep_first h c cs n = rw (eq_refl c.name) (
    rw (patched_others c.name (rebaselined h c) cs n)
      (ap (λ (d : NodeClaim). d ∷ cs) (stamped-rebaselined h c)))

module _ (C : Type 0) (h : String) where
  abbrev swept : List NodeClaim → List NodeClaim → List NodeClaim
  swept cs ds = claims_after {C = C} (patches h cs) ds

  sweep_frame :
      (c : NodeClaim) (cs ds : List NodeClaim)
      → All (λ (d : NodeClaim). d.name ≢ c.name) cs
      → swept cs (c ∷ ds) ≡ (c ∷ swept cs ds)
  sweep_frame c [] ds n = refl
  sweep_frame c (d ∷ cs) ds n = elim (Bool-cases (is_skipped d)) [
    | inl e ↦ rw e (sweep_frame c cs ds n.1)
    | inr e ↦ rw e (
        ap (swept cs) (patched_past d.name (rebaselined h d) c ds (λ q. n.0 (sym q)))
        ∙ sweep_frame c cs (patched d.name (rebaselined h d) ds) n.1)
  ]

  -- A full pass settles each claim.
  pub swept-settled : (cs : List NodeClaim) → Distinct cs → swept cs cs ≡ map (settled h) cs
  swept-settled [] d = refl
  swept-settled (c ∷ cs) d = elim (Bool-cases (is_skipped c)) [
    | inl e ↦
        rw e (sweep_frame c cs cs d.0 ∙ ap (λ (l : List NodeClaim). c ∷ l) (swept-settled cs d.1))
    | inr e ↦ rw e (
        ap (swept cs) (sweep_first h c cs d.0)
        ∙ sweep_frame (rebaselined h c) cs cs (
            subst (λ (n : String). All (λ (d : NodeClaim). d.name ≢ n) cs)
              (sym (rebaselined_name h c)) d.0)
        ∙ ap (λ (l : List NodeClaim). rebaselined h c ∷ l) (swept-settled cs d.1))
  ]

  pub class_kept : (cs : List NodeClaim) (nc : NodeClass C) → class_after (patches h cs) nc ≡ nc
  class_kept [] nc = refl
  class_kept (c ∷ cs) nc = elim (Bool-cases (is_skipped c)) [
    | inl e ↦ rw e (class_kept cs nc)
    | inr e ↦ rw e (class_kept cs nc)
  ]

pub map-skipped :
    (h : String) (cs : List NodeClaim)
    → All (λ (c : NodeClaim). is_skipped c ≡ true) (map (settled h) cs)
map-skipped h [] = tt
map-skipped h (c ∷ cs) = (skipped-settled h c, map-skipped h cs)

pub append_nil : {A : Type 0} (xs : List A) → xs ++ [] ≡ xs
append_nil [] = refl
append_nil (x ∷ xs) = ap (λ (l : List _). x ∷ l) (append_nil xs)
