-- ===== src/Instance/Listing.antt =====
-- What `List` returns.
use Prim.Native.String.{◌++◌ as ◌+++◌}
use karpenter_provider_upclo.Base.{
  subst, sym, ap, ◌∙◌, String, All, ◌≡◌, refl, List, [], ◌∷◌, true, if◌then◌else◌, arith, Result,
  ok, err, Result-cases, Bool-cases, inl, inr,
}
use karpenter_provider_upclo.Instance.{Server, Service, is_managed, managed, list_loop, list}

ok_inj : {E A : Type 0} {a b : A} → Path (Result E A) (ok a) (ok b) → a ≡ b
ok_inj e = ground arith

module _ {S : Type 0} (svc : Service S) where
  managed-IsManaged :
      (r : Result String Server) (rest : List Server)
      → All (λ s. is_managed s.labels ≡ true) rest
      → All (λ s. is_managed s.labels ≡ true) (managed r rest)
  unfolding managed
  managed-IsManaged (ok s) rest h = elim (Bool-cases (is_managed s.labels)) [
    | inl e ↦ rw e (e, h)
    | inr e ↦ rw e h
  ]
  managed-IsManaged (err e) rest h = h

  loop-IsManaged :
      (uuids : List String) (w : S)
      → All (λ s. is_managed s.labels ≡ true) (list_loop svc uuids w).0
  unfolding list_loop
  loop-IsManaged [] w = tt
  loop-IsManaged (uuid ∷ uuids) w =
      let details = svc.get_server_details uuid w in
      managed-IsManaged details.0 (list_loop svc uuids details.1).0 (loop-IsManaged uuids details.1)

  list_ok :
      (w : S) (uuids : List String)
      → (svc.get_servers w).0 ≡ ok uuids
      → list svc w ≡ (
        ok (list_loop svc uuids (svc.get_servers w).1).0,
        (list_loop svc uuids (svc.get_servers w).1).1,
      )
  unfolding list
  list_ok w uuids e = rw (e, list) refl

  list_err :
      (w : S) (x : String)
      → (svc.get_servers w).0 ≡ err x
      → list svc w ≡ (err ("listing servers: " +++ x), (svc.get_servers w).1)
  unfolding list
  list_err w x e = rw (e, list) refl

  -- Whatever the service answers, `List` returns only servers that carry the managed label.
  pub list-IsManaged :
      (w : S) (servers : List Server)
      → (list svc w).0 ≡ ok servers
      → All (λ s. is_managed s.labels ≡ true) servers
  list-IsManaged w servers e = elim (Result-cases (svc.get_servers w).0) [
    | inl (uuids, u) ↦
        subst (All (λ s. is_managed s.labels ≡ true))
          (ok_inj (sym (ap (λ r. r.0) (list_ok w uuids u)) ∙ e))
          (loop-IsManaged uuids (svc.get_servers w).1)
    | inr (x, u) ↦ let f = list_err w x u in ground arith
  ]

-- The servers that a fixed answer to each UUID gives.
unfoldable pub answered : (String → Result String Server) → List String → List Server
answered details [] = []
answered details (uuid ∷ uuids) =
    let rest = answered details uuids in
    elim (details uuid) [ err e ↦ rest | ok s ↦ (if is_managed s.labels then s ∷ rest else rest) ]

answered_step :
    (r : Result String Server) (rest : List Server)
    → managed r rest
      ≡ elim r [ err e ↦ rest | ok s ↦ (if is_managed s.labels then s ∷ rest else rest) ]
unfolding managed
answered_step (ok s) rest = refl
answered_step (err e) rest = refl

module _ {S : Type 0} (svc : Service S) (w : S) (details : String → Result String Server)
    (reads : (uuid : String) → svc.get_server_details uuid w ≡ (details uuid, w)) where
  loop-answered : (uuids : List String) → list_loop svc uuids w ≡ (answered details uuids, w)
  unfolding list_loop answered managed
  loop-answered [] = refl
  loop-answered (uuid ∷ uuids) = rw (reads uuid) (
      rw (loop-answered uuids)
        (ap (λ l. (l, w)) (answered_step (details uuid) (answered details uuids))))

  -- If the service answers a list of UUIDs and the details of each without a change of the
  -- world, `List` gives the servers among them that could be read and are managed, in their
  -- order, and changes nothing.
  pub list-filters :
      (uuids : List String)
      → svc.get_servers w ≡ (ok uuids, w)
      → list svc w ≡ (ok (answered details uuids), w)
  unfolding list
  list-filters uuids e = rw (e, list) (rw e (rw (loop-answered uuids) refl))
