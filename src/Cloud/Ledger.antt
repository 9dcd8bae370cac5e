-- ===== src/Cloud/Ledger.antt =====
-- The provider as a ledger of provider ids, and the sequences of its operations.
use Prim.Native.String.{◌++◌ as ◌+++◌}
use karpenter_provider_upclo.Base.{
  String, ◌≡◌, ◌≢◌, refl, sym, subst, ◌∙◌, inl, inr, here, there, List, [], ◌∷◌, ◌==◌, eq_iff,
  eq-false_of_ne, if◌then◌else◌, Bool-cases, Result, ok, err, arith,
}
use karpenter_provider_upclo.Kube.{Error, NodeClaim}
use karpenter_provider_upclo.Api.{provider_id_prefix}
use karpenter_provider_upclo.Instance.Fleet.{Mem, Holding}
use karpenter_provider_upclo.Cloud.{
  Cloud, create, delete, get_claim, remove, after_stop, mentions, server_not_found, deletion_error,
}
use karpenter_provider_upclo.Cloud
use karpenter_provider_upclo.Cloud.Fleet.{IsAlone}
use karpenter_provider_upclo.Cloud.Observed.{ids}

-- What a ledger records.
pub data Event : Type 0 where
  made removed : String → Event

abbrev pub without : String → List String → List String
without id [] = []
without id (x ∷ xs) = let rest = without id xs in if x == id then rest else x ∷ rest

-- The ids after some events, in the order of time.
abbrev pub book : List Event → List String → List String
book [] ids = ids
book (made id ∷ es) ids = book es (id ∷ ids)
book (removed id ∷ es) ids = book es (without id ids)

pub kept-without : (id x : String) (xs : List String) → Mem x xs → x ≢ id → Mem x (without id xs)
kept-without id x (y ∷ ys) (here e) n = rw (eq-false_of_ne y id (λ q. n (sym e ∙ q))) (here e)
kept-without id x (y ∷ ys) (there m) n = elim (Bool-cases (y == id)) [
  | inl e ↦ rw e (kept-without id x ys m n)
  | inr e ↦ rw e (there (kept-without id x ys m n))
]
kept-without id x [] m n = elim m [ ]

kept_first :
    (id x y : String) (ys rest : List String)
    → y ≢ id
    → (Mem x rest → Mem x ys × (x ≢ id))
    → Mem x (y ∷ rest)
    → Mem x (y ∷ ys) × (x ≢ id)
kept_first id x y ys rest n k (here q) = (here q, λ r. n (q ∙ r))
kept_first id x y ys rest n k (there m) = let (j, r) = k m in (there j, r)

pub without-kept : (id x : String) (xs : List String) → Mem x (without id xs) → Mem x xs × (x ≢ id)
without-kept id x [] m = elim m [ ]
without-kept id x (y ∷ ys) m = elim (Bool-cases (y == id)) [
  | inl e ↦ let (k, n) = without-kept id x ys (subst (Mem x) (rw e refl) m) in (there k, n)
  | inr e ↦
      kept_first id x y ys (without id ys) (λ q. ground (arith, q, e, eq_iff y id))
        (without-kept id x ys) (subst (Mem x) (rw e refl) m)
]

module _ {S K : Type 0} (p : Cloud S K) (holding : S → Holding) (alone : IsAlone p holding) where
  -- A sequence of operations of the provider, with what it records.
  pub data Trace : S → List Event → S → Type 0 where
    done : (w : S) → Trace w [] w
    creates :
        (claim c : NodeClaim) (w v u : S) (es : List Event)
        → create p claim w ≡ (ok c, v)
        → Trace v es u
        → Trace w (made c.provider_id ∷ es) u
    create_fails :
        (claim : NodeClaim) (x : Error) (w v u : S) (es : List Event)
        → create p claim w ≡ (err x, v)
        → Trace v es u
        → Trace w es u
    deletes :
        (claim : NodeClaim) (id : String) (w v u : S) (es : List Event)
        → claim.provider_id ≡ provider_id_prefix +++ id
        → delete p claim w ≡ (ok tt, v)
        → Trace v es u
        → Trace w (removed claim.provider_id ∷ es) u
    delete_fails :
        (claim : NodeClaim) (x : Error) (w v u : S) (es : List Event)
        → delete p claim w ≡ (err x, v)
        → Trace v es u
        → Trace w es u
    gets :
        (id : String) (r : Result Error NodeClaim) (w v u : S) (es : List Event)
        → get_claim p id w ≡ (r, v)
        → Trace v es u
        → Trace w es u
    lists :
        (claims : List NodeClaim) (w v u : S) (es : List Event)
        → Cloud.list p w ≡ (ok claims, v)
        → Trace v es u
        → Trace w es u
