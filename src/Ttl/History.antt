-- ===== src/Ttl/History.antt =====
-- The life of one NodeClaim under the TTL controller, from run to run.
use karpenter_provider_upclo.Base.{◌≡◌, sym, subst, true, [], ◌∷◌, ok, any, lookup, arith}
use karpenter_provider_upclo.Base.Int.{
  ℤ, pos, negsuc, ◌-ℤ◌, ◌+ℤ◌, ◌≤ℤ◌, ◌<ℤ◌, saturate64, int_laws, one_part,
}
use karpenter_provider_upclo.Kube.{NodeClaim}
use karpenter_provider_upclo.Api.{ttl_reset_annotation_key}
use karpenter_provider_upclo.Ttl.{
  Controller, Answers, patch_claim, reconcile, elapsed, reset_claim, ttl_start,
}
use karpenter_provider_upclo.Ttl.Decision.{is_delete, deletion_iff}
use karpenter_provider_upclo.Ttl.Waiting.{KeepsSeconds, start_of_reset}

-- The claim as the API server holds it, the time, and when its time to live last began: at first what the claim
-- says, and then the time of the last reset.
pub record State : Type 0 where
  pub claim : NodeClaim
  pub last : ℤ
  pub now : ℤ

abbrev pub one_second : ℤ
one_second = pos 1000000000

module _ (c : Controller) where
  pub data Step : State → State → Type 0 where
    -- Time goes on, and runs happen that leave the claim as it is.
    pass : (s t : State) (n : ℤ) → s.now ≤ℤ n → t ≡ record s { now = n } → Step s t
    -- A run that reads the claim and whose reset is written.
    reset :
        (s t : State) (a : Answers)
        → a.claim ≡ ok s.claim
        → a.now ≡ s.now
        → (reconcile c a).writes ≡ (patch_claim s.claim (reset_claim c a s.claim) ∷ [])
        → a.patched ≡ ok tt
        → s.now ≤ℤ a.reset_now
        → KeepsSeconds c.rfc3339 a.reset_now
        → t ≡ record { claim = reset_claim c a s.claim; last = a.reset_now; now = a.reset_now }
        → Step s t
    -- Others change anything but the annotation and the time of creation.
    change :
        (s t : State) (claim : NodeClaim)
        → claim.creation_timestamp ≡ s.claim.creation_timestamp
        → lookup ttl_reset_annotation_key claim.annotations
          ≡ lookup ttl_reset_annotation_key s.claim.annotations
        → t ≡ record s { claim = claim }
        → Step s t

  pub data Reach : State → State → Type 0 where
    start : (s : State) → Reach s s
    later : (s t u : State) → Reach s t → Step t u → Reach s u

  -- The claim says when its time to live began, but for the second that a text rounds off.
  pub record Dated (s : State) : Type 0 where
    pub not_later : ttl_start c.rfc3339 s.claim ≤ℤ s.last
    pub within_second : s.last <ℤ ttl_start c.rfc3339 s.claim +ℤ one_second
    pub past : s.last ≤ℤ s.now

  same_start :
      (claim old : NodeClaim)
      → claim.creation_timestamp ≡ old.creation_timestamp
      → lookup ttl_reset_annotation_key claim.annotations
        ≡ lookup ttl_reset_annotation_key old.annotations
      → ttl_start c.rfc3339 claim ≡ ttl_start c.rfc3339 old
  unfolding ttl_start
  same_start claim old e f = ground (arith, e, f)

  Step-Dated : (s t : State) → Step s t → Dated s → Dated t
  Step-Dated s t (pass _ _ n l e) d = subst Dated (sym e) (record {
    not_later = d.not_later;
    within_second = d.within_second;
    past = omega (arith, d.past);
  })
  Step-Dated s t (reset _ _ a _ _ _ _ _ k e) d = subst Dated (sym e) (record {
    not_later = rw (start_of_reset c a s.claim k) k.not_later;
    within_second = rw (start_of_reset c a s.claim k) k.within_second;
    past = omega arith;
  })
  Step-Dated s t (change _ _ claim p q e) d =
      let k = same_start claim s.claim p q in
      subst Dated (sym e) (record {
        not_later = rw k d.not_later;
        within_second = rw k d.within_second;
        past = d.past;
      })

  Reach-Dated : (s t : State) → Reach s t → Dated s → Dated t
  Reach-Dated s _ (start _) d = d
  Reach-Dated s u (later _ t _ r st) d = Step-Dated t u st (Reach-Dated s t r d)

saturated : (t x : ℤ) → pos 0 ≤ℤ t → t ≤ℤ saturate64 x → t ≤ℤ x
unfolding saturate64
saturated t (pos n) p h = ground arith
saturated t (negsuc n) p h = ground arith

overdue_since :
    (c : Controller) (a : Answers) (nc : NodeClaim)
    → pos 0 ≤ℤ c.ttl
    → c.ttl ≤ℤ elapsed c a nc
    → ttl_start c.rfc3339 nc +ℤ c.ttl ≤ℤ a.now
unfolding elapsed
overdue_since c a nc p h =
    let k = saturated c.ttl (a.now -ℤ ttl_start c.rfc3339 nc) p h in
    omega (int_laws, one_part (a.now -ℤ ttl_start c.rfc3339 nc))

-- Over any history of runs, resets and changes by others, from a claim that says within a second when its time
-- to live began, and with a ttl that is not negative: a run that reads the claim as it is asks for its
-- deletion only when the whole ttl has passed since its time to live last began, but for the second that the
-- annotation's text rounds off.
pub deleted_late :
    (c : Controller) (s t : State) (a : Answers)
    → pos 0 ≤ℤ c.ttl
    → Dated c s
    → Reach c s t
    → a.claim ≡ ok t.claim
    → a.now ≡ t.now
    → any is_delete (reconcile c a).writes ≡ true
    → t.last +ℤ c.ttl <ℤ t.now +ℤ one_second
deleted_late c s t a p d r found clock h =
    let (nc, k, _) = (deletion_iff c a).0 h in
    let e : nc ≡ t.claim = ground (arith, k.found, found) in
    let q = overdue_since c a nc p k.overdue in
    let w : ttl_start c.rfc3339 t.claim +ℤ c.ttl ≤ℤ t.now =
      subst (λ (x : NodeClaim). ttl_start c.rfc3339 x +ℤ c.ttl ≤ℤ t.now) e
        (subst (λ (x : ℤ). ttl_start c.rfc3339 nc +ℤ c.ttl ≤ℤ x) clock q) in
    let v = Reach-Dated c s t r d in omega (int_laws, v.within_second)
