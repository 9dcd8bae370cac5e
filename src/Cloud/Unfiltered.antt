-- ===== src/Cloud/Unfiltered.antt =====
-- Get and List on servers that the provider did not make.
use Prim.Native.String.{◌++◌ as ◌+++◌}
use karpenter_provider_upclo.Base.{
  String, ◌≡◌, refl, sym, ap, subst, ◌∙◌, ◌↔◌, inl, inr, Any, here, there, some, List, [], ◌∷◌,
  true, ◌==◌, eq_iff, ok, arith, Bool-cases,
}
use karpenter_provider_upclo.Base.Text.{trim_prefix-append}
use karpenter_provider_upclo.Kube.{NodeClaim}
use karpenter_provider_upclo.Api.{
  provider_id_prefix, server_managed_label_key, server_managed_label_value,
}
use karpenter_provider_upclo.Instance.{Server, is_managed}
use karpenter_provider_upclo.Instance.Fleet.{Mem, Holding}
use karpenter_provider_upclo.Cloud.{Cloud, get_claim}
use karpenter_provider_upclo.Cloud
use karpenter_provider_upclo.Cloud.Claims.{build_node_claim}
use karpenter_provider_upclo.Cloud.Fleet.{IsAlone}
use karpenter_provider_upclo.Cloud.Lookup.{got}
use karpenter_provider_upclo.Cloud.Observed.{seen, provider_id_of, ids}

-- The labels hold the pair that marks a server as managed by Karpenter.
abbrev pub Marked : List (String × String) → Type 0
Marked labels =
    Any
      (λ (l : String × String).
        (l.0 ≡ server_managed_label_key) × (l.1 ≡ server_managed_label_value))
      labels

is_managed-Marked : (ls : List (String × String)) → is_managed ls ≡ true → Marked ls
unfolding is_managed
is_managed-Marked [] e = ground arith
is_managed-Marked ((k, v) ∷ ls) e = elim (Bool-cases (k == server_managed_label_key)) [
  | inr n ↦ there (is_managed-Marked ls (ground (arith, e, n)))
  | inl m ↦ elim (Bool-cases (v == server_managed_label_value)) [
    | inr n ↦ there (is_managed-Marked ls (ground (arith, e, n)))
    | inl n ↦
        here ((eq_iff k server_managed_label_key).0 m, (eq_iff v server_managed_label_value).0 n)
  ]
]

Marked-is_managed : (ls : List (String × String)) → Marked ls → is_managed ls ≡ true
unfolding is_managed
Marked-is_managed [] m = elim m [ ]
Marked-is_managed ((k, v) ∷ ls) (here m) =
    ground (arith, eq_iff k server_managed_label_key, eq_iff v server_managed_label_value, m)
Marked-is_managed ((k, v) ∷ ls) (there m) = ground (arith, Marked-is_managed ls m)

Any_of_Mem :
    (P : NodeClaim → Type 0) (xs : List NodeClaim) (x : NodeClaim) → Mem x xs → P x → Any P xs
Any_of_Mem P [] x m h = elim m [ ]
Any_of_Mem P (y ∷ xs) x (here e) h = here (subst P (sym e) h)
Any_of_Mem P (y ∷ xs) x (there m) h = there (Any_of_Mem P xs x m h)

Mem_of_Any :
    (P : NodeClaim → Type 0) (xs : List NodeClaim) → Any P xs → (x : NodeClaim) × Mem x xs × P x
Mem_of_Any P [] m = elim m [ ]
Mem_of_Any P (y ∷ xs) (here h) = (y, here refl, h)
Mem_of_Any P (y ∷ xs) (there m) = let (x, k, h) = Mem_of_Any P xs m in (x, there k, h)

module _ {S K : Type 0} (p : Cloud S K) (holding : S → Holding) (alone : IsAlone p holding) where
  shown :
      (s : Server) (w w' : S) (claims : List NodeClaim)
      → holding w s.uuid ≡ some s
      → Cloud.list p w ≡ (ok claims, w')
      → Any (λ (x : NodeClaim). x.provider_id ≡ provider_id_prefix +++ s.uuid) claims
        ↔ (is_managed s.labels ≡ true)
  shown s w w' claims h e = (marked, listed)
    where
      marked :
          Any (λ (x : NodeClaim). x.provider_id ≡ provider_id_prefix +++ s.uuid) claims
          → is_managed s.labels ≡ true
      marked m =
          let (x, k, q) =
            Mem_of_Any (λ (x : NodeClaim). x.provider_id ≡ provider_id_prefix +++ s.uuid) claims
              m in
          let (t, f, b, r) = (seen p holding alone w w' claims e x).0 k in
          let same = ids t.uuid s.uuid (
            sym (ap (λ (y : NodeClaim). y.provider_id) r ∙ provider_id_of p holding alone t p.zone)
            ∙ q) in
          let held : holding w s.uuid ≡ some t = ap (holding w) (sym same) ∙ f in
          ground (arith, h, held, b)

      listed :
          is_managed s.labels ≡ true
          → Any (λ (x : NodeClaim). x.provider_id ≡ provider_id_prefix +++ s.uuid) claims
      listed b =
          Any_of_Mem (λ (x : NodeClaim). x.provider_id ≡ provider_id_prefix +++ s.uuid) claims
            (build_node_claim s p.zone)
            ((seen p holding alone w w' claims e (build_node_claim s p.zone)).1 (s, h, b, refl))
            (provider_id_of p holding alone s p.zone)

  named_by_host : (s : Server) (zone : String) → (build_node_claim s zone).node_name ≡ s.hostname
  unfolding build_node_claim
  named_by_host s zone = refl

  -- In an account that only this provider changes, and whose list and details can always be read (IsFleet), Get
  -- gives a NodeClaim for the provider id of any server held, with that id and the host name of the
  -- server, and changes nothing; List shows a NodeClaim with that id exactly if the server has the label
  -- managed_by=karpenter. So Get is not filtered by the label, and List is.
  pub get_unfiltered :
      (s : Server) (w w' : S) (claims : List NodeClaim)
      → holding w s.uuid ≡ some s
      → Cloud.list p w ≡ (ok claims, w')
      → (c : NodeClaim) × (v : S) × (get_claim p (provider_id_prefix +++ s.uuid) w ≡ (ok c, v))
        × (c.provider_id ≡ provider_id_prefix +++ s.uuid)
        × (c.node_name ≡ s.hostname)
        × (holding v ≡ holding w)
        × (Any (λ (x : NodeClaim). x.provider_id ≡ provider_id_prefix +++ s.uuid) claims
            ↔ Marked s.labels)
  get_unfiltered s w w' claims h e =
      let (v, q, k) = alone.fleet.read w s.uuid s h in
      let (one, other) = shown s w w' claims h e in
      (
        build_node_claim s p.zone,
        v,
        got p holding alone (provider_id_prefix +++ s.uuid) s.uuid w v s
            (trim_prefix-append provider_id_prefix s.uuid) q,
        provider_id_of p holding alone s p.zone,
        named_by_host s p.zone,
        k,
        (λ m. is_managed-Marked s.labels (one m), λ m. other (Marked-is_managed s.labels m)),
      )
