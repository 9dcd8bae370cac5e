-- ===== src/Cloud/Balance.antt =====
-- Any sequence of operations of the provider against the account.
use Prim.Native.String.{◌++◌ as ◌+++◌}
use karpenter_provider_upclo.Base.{
  String, ◌≡◌, refl, sym, ap, subst, ◌∙◌, ◌↔◌, ◌⊎◌, inl, inr, here, there, List, ◌∷◌, map, ok, err,
}
use karpenter_provider_upclo.Base.Text.{trim_prefix, trim_prefix-append}
use karpenter_provider_upclo.Kube.{NodeClaim}
use karpenter_provider_upclo.Api.{provider_id_prefix}
use karpenter_provider_upclo.Instance.{Server}
use karpenter_provider_upclo.Instance.Fleet.{Mem, Holding, with_server}
use karpenter_provider_upclo.Cloud.{
  Cloud, create, delete, get_claim, remove, after_stop, mentions, server_not_found, deletion_error,
}
use karpenter_provider_upclo.Cloud
use karpenter_provider_upclo.Cloud.Claims.{build_node_claim}
use karpenter_provider_upclo.Cloud.Delete.{uuid_of}
use karpenter_provider_upclo.Cloud.Fleet.{
  IsAlone, Owns, Owns-added, Owns-removed, claims_listed, Mem-map, map-Mem,
}
use karpenter_provider_upclo.Cloud.Launch.{create-Fate}
use karpenter_provider_upclo.Cloud.Observed.{seen, delete_takes, provider_id_of, ids}
use karpenter_provider_upclo.Cloud.Kept.{delete_keeps, list_keeps, get_keeps}
use karpenter_provider_upclo.Cloud.Ledger.{
  Event, without, book, kept-without, without-kept, Trace, done, creates, create_fails, deletes,
  delete_fails, gets, lists,
}

module _ {S K : Type 0} (p : Cloud S K) (holding : S → Holding) (alone : IsAlone p holding) where
  -- The provider ids of the claims that the account owns.
  abbrev Named : Holding → String → Type 0
  Named f id = (c : NodeClaim) × Owns p.zone f c × (c.provider_id ≡ id)

  abbrev Books : Holding → List String → Type 0
  Books f l = (id : String) → Named f id ↔ Mem id l

  made-Books :
      (claim c : NodeClaim) (w v : S) (l : List String)
      → create p claim w ≡ (ok c, v)
      → Books (holding w) l
      → Books (holding v) (c.provider_id ∷ l)
  made-Books claim c w v l e k id =
      let (s, n, a, m, i) = create-Fate p holding alone claim w v (ok c) e in
      let grown = λ (x : NodeClaim). Owns-added p.zone (holding w) s x n m in
      let pid = provider_id_of p holding alone s p.zone ∙ sym i in
      (
        λ named.
            let (x, o, q) = named in
            elim ((grown x).0 (subst (λ (f : Holding). Owns p.zone f x) a o)) [
              | inl r ↦ here (sym pid ∙ ap (λ (y : NodeClaim). y.provider_id) (sym r) ∙ q)
              | inr r ↦ there ((k id).0 (x, r, q))
            ],
        λ mem. from_book mem s a pid grown,
      )
    where
      from_book :
          Mem id (c.provider_id ∷ l)
          → (s : Server) → holding v ≡ with_server s (holding w)
          → (build_node_claim s p.zone).provider_id ≡ c.provider_id
          → ((x : NodeClaim)
              → Owns p.zone (with_server s (holding w)) x
                ↔ ((x ≡ build_node_claim s p.zone) ⊎ Owns p.zone (holding w) x))
          → Named (holding v) id
      from_book (here q) s a pid grown = (
        build_node_claim s p.zone,
        subst (λ (f : Holding). Owns p.zone f (build_node_claim s p.zone)) (sym a)
            ((grown (build_node_claim s p.zone)).1 (inl refl)),
        pid ∙ q,
      )
      from_book (there m) s a pid grown =
          let (x, o, q) = (k id).1 m in
          (x, subst (λ (f : Holding). Owns p.zone f x) (sym a) ((grown x).1 (inr o)), q)

  removed-Books :
      (claim : NodeClaim) (id : String) (w v : S) (l : List String)
      → claim.provider_id ≡ provider_id_prefix +++ id
      → delete p claim w ≡ (ok tt, v)
      → Books (holding w) l
      → Books (holding v) (without claim.provider_id l)
  removed-Books claim id w v l i e k x =
      let a = delete_takes p holding alone claim w v e in
      let named : uuid_of claim ≡ id =
        ap (λ (t : String). trim_prefix t provider_id_prefix) i
        ∙ trim_prefix-append provider_id_prefix id in
      let less = λ (c : NodeClaim). Owns-removed p.zone (holding w) (uuid_of claim) c in
      (
        λ h.
            let (c, o, q) = h in
            let (s, f, m, r, n) = (less c).0 (subst (λ (g : Holding). Owns p.zone g c) a o) in
            let d =
              ap (λ (y : NodeClaim). y.provider_id) r ∙ provider_id_of p holding alone s p.zone in
            kept-without claim.provider_id x l ((k x).0 (c, (s, f, m, r), q))
              (λ z. n (ids s.uuid id (sym d ∙ q ∙ z ∙ i) ∙ sym named)),
        λ h.
            let (m, n) = without-kept claim.provider_id x l h in
            let (c, o, q) = (k x).1 m in
            let (s, f, g, r) = o in
            let d =
              ap (λ (y : NodeClaim). y.provider_id) r ∙ provider_id_of p holding alone s p.zone in
            (
              c,
              subst (λ (t : Holding). Owns p.zone t c) (sym a)
                  ((less c).1 (
                    s,
                    f,
                    g,
                    r,
                    λ z. n (
                        sym q
                        ∙ d
                        ∙ ap (λ (t : String). provider_id_prefix +++ t) (z ∙ named)
                        ∙ sym i),
                  )),
              q,
            ),
      )

  same-Books :
      (w v : S) (l : List String)
      → holding v ≡ holding w
      → Books (holding w) l
      → Books (holding v) l
  same-Books w v l e k = subst (λ (f : Holding). Books f l) (sym e) k

  Trace-Books :
      (w v : S) (es : List Event) (l : List String)
      → Trace p holding alone w es v
      → Books (holding w) l
      → Books (holding v) (book es l)
  Trace-Books w _ _ l (done _) k = k
  Trace-Books w u _ l (creates claim c _ v _ es e t) k =
      Trace-Books v u es (c.provider_id ∷ l) t (made-Books claim c w v l e k)
  Trace-Books w u es l (create_fails claim x _ v _ _ e t) k =
      Trace-Books v u es l t (same-Books w v l (create-Fate p holding alone claim w v (err x) e) k)
  Trace-Books w u _ l (deletes claim id _ v _ es i e t) k =
      Trace-Books v u es (without claim.provider_id l) t (removed-Books claim id w v l i e k)
  Trace-Books w u es l (delete_fails claim x _ v _ _ e t) k =
      Trace-Books v u es l t (same-Books w v l (delete_keeps p holding alone claim w v x e) k)
  Trace-Books w u es l (gets id r _ v _ _ e t) k =
      Trace-Books v u es l t (same-Books w v l (get_keeps p holding alone id w v r e) k)
  Trace-Books w u es l (lists claims _ v _ _ e t) k =
      Trace-Books v u es l t (same-Books w v l (list_keeps p holding alone w v claims e) k)

  abbrev pub listed_ids : List NodeClaim → List String
  listed_ids claims = map (λ c. c.provider_id) claims

  listed-Books :
      (w : S) (claims : List NodeClaim)
      → ((c : NodeClaim) → Mem c claims ↔ Owns p.zone (holding w) c)
      → Books (holding w) (listed_ids claims)
  listed-Books w claims iff id = (
    λ h.
        let (c, o, q) = h in
        subst (λ (x : String). Mem x (listed_ids claims)) q
          (map-Mem (λ (c : NodeClaim). c.provider_id) claims c ((iff c).1 o)),
    λ m.
        let (c, k, q) = Mem-map (λ (c : NodeClaim). c.provider_id) claims id m in
        (c, (iff c).0 k, sym q),
  )

  -- In an account that only this provider changes, in which a refused call changes nothing and whose list and
  -- details are always read without an error (IsFleet): after any sequence of Create, Delete, Get and List, successful or not, a List shows exactly the provider ids that a
  -- List before showed, with those that Create returned added and those deleted successfully taken out, in
  -- the order in which it happened.
  pub booked :
      (w w' v : S) (es : List Event) (before : List NodeClaim)
      → Cloud.list p w ≡ (ok before, w')
      → Trace p holding alone w es v
      → (after : List NodeClaim) × (u : S) × (Cloud.list p v ≡ (ok after, u))
        × ((id : String) → Mem id (listed_ids after) ↔ Mem id (book es (listed_ids before)))
  booked w w' v es before b t =
      let (after, u, q, _, iff) = claims_listed p holding alone v in
      let k =
        Trace-Books w v es (listed_ids before) t
          (listed-Books w before (seen p holding alone w w' before b)) in
      let l = listed-Books v after iff in
      (after, u, q, λ id. (λ m. (k id).0 ((l id).1 m), λ m. (l id).0 ((k id).1 m)))
