-- ===== src/Instance/Fleet.antt =====
-- The account as a finite map from UUIDs to servers, and `List` against it.
use karpenter_provider_upclo.Base.{
  String, ◌≡◌, ◌≢◌, refl, sym, ap, ◌∙◌, subst, ◌↔◌, ◌⊎◌, inl, inr, Any, here, there, Option, none,
  some, Option-cases, List, [], ◌∷◌, true, ◌==◌, if◌then◌else◌, Bool-cases, Result, ok, err, arith,
}
use karpenter_provider_upclo.Instance
use karpenter_provider_upclo.Instance.{
  Server, Service, CreateRequest, is_managed, managed, list_loop, list,
}

abbrev pub Mem {ℓ} : {A : Type ℓ} → A → List A → Type ℓ
Mem x xs = Any (λ y. y ≡ x) xs

-- What an account holds under each UUID.
abbrev pub Holding : Type 0
Holding = String → Option Server

abbrev pub with_server : Server → Holding → Holding
with_server s f u = if s.uuid == u then some s else f u

abbrev pub without_server : String → Holding → Holding
without_server uuid f u = if uuid == u then none else f u

-- UpCloud's documented behaviour for a whole account that nobody else uses meanwhile: the list names exactly
-- the servers held, details are those of the server held, both read without an error, a creation adds a server under a new UUID with the
-- labels asked for, a deletion that succeeds takes the server out, and nothing else changes what is held.
pub record IsFleet {S : Type 0} (svc : Service S) (holding : S → Holding) : Type 0 where
  pub own : (w : S) (u : String) (s : Server) → holding w u ≡ some s → s.uuid ≡ u
  pub listed :
      (w : S)
      → (uuids : List String) × (v : S) × (svc.get_servers w ≡ (ok uuids, v))
        × (holding v ≡ holding w)
        × ((u : String) → Mem u uuids ↔ (holding w u ≢ none))
  pub read :
      (w : S) (u : String) (s : Server)
      → holding w u ≡ some s
      → (v : S) × (svc.get_server_details u w ≡ (ok s, v)) × (holding v ≡ holding w)
  pub unread :
      (w : S) (u : String)
      → holding w u ≡ none
      → (e : String) × (v : S) × (svc.get_server_details u w ≡ (err e, v)) × (holding v ≡ holding w)
  pub added :
      (r : CreateRequest) (w v : S) (s : Server)
      → svc.create_server r w ≡ (ok s, v)
      → (s.labels ≡ r.labels) × (holding w s.uuid ≡ none) × (holding v ≡ with_server s (holding w))
  pub removed :
      (u : String) (w v : S)
      → svc.delete_server_and_storages u w ≡ (ok tt, v)
      → holding v ≡ without_server u (holding w)
  pub stopping : (w : S) (u : String) → holding (Instance.stop svc u w).1 ≡ holding w
  pub waiting : (w : S) (u : String) → holding (Instance.wait_for_stop svc u w).1 ≡ holding w

-- A managed server that is held under one of the UUIDs.
abbrev pub Owned : Holding → List String → Server → Type 0
Owned f uuids s = (u : String) × Mem u uuids × (f u ≡ some s) × (is_managed s.labels ≡ true)

managed-cases :
    (s x : Server) (rest : List Server)
    → Mem x (managed (ok s) rest)
    → ((s ≡ x) × (is_managed s.labels ≡ true)) ⊎ Mem x rest
unfolding managed
managed-cases s x rest m = elim (Bool-cases (is_managed s.labels)) [
  | inr e ↦ inr (subst (Mem x) (rw e refl) m)
  | inl e ↦ first (subst (Mem x) (rw e refl) m) e
]
  where
    first :
        Mem x (s ∷ rest)
        → is_managed s.labels ≡ true
        → ((s ≡ x) × (is_managed s.labels ≡ true)) ⊎ Mem x rest
    first (here e) b = inl (e, b)
    first (there m) b = inr m

managed_first :
    (s : Server) (rest : List Server) → is_managed s.labels ≡ true → Mem s (managed (ok s) rest)
unfolding managed
managed_first s rest e = rw (e, managed) (here refl)

managed_rest :
    (r : Result String Server) (x : Server) (rest : List Server)
    → Mem x rest
    → Mem x (managed r rest)
unfolding managed
managed_rest (err e) x rest m = m
managed_rest (ok s) x rest m = elim (Bool-cases (is_managed s.labels)) [
  | inl e ↦ rw (e, managed) (there m)
  | inr e ↦ rw (e, managed) m
]

module _ {S : Type 0} (svc : Service S) (holding : S → Holding) (fleet : IsFleet svc holding)
    (f : Holding) where
  details :
      (u : String) (w : S)
      → holding w ≡ f
      → (v : S) × (holding v ≡ f)
        × (((s : Server) × (f u ≡ some s) × (svc.get_server_details u w ≡ (ok s, v)))
            ⊎ ((e : String) × (f u ≡ none) × (svc.get_server_details u w ≡ (err e, v))))
  details u w h = elim (Option-cases (f u)) [
    | inl n ↦
        let (e, v, q, k) = fleet.unread w u (ap (λ (g : Holding). g u) h ∙ n) in
        (v, k ∙ h, inr (e, n, q))
    | inr (s, n) ↦
        let (v, q, k) = fleet.read w u s (ap (λ (g : Holding). g u) h ∙ n) in
        (v, k ∙ h, inl (s, n, q))
  ]

  loop_step :
      (u : String) (us : List String) (w v : S) (r : Result String Server)
      → svc.get_server_details u w ≡ (r, v)
      → list_loop svc (u ∷ us) w ≡ (managed r (list_loop svc us v).0, (list_loop svc us v).1)
  unfolding list_loop
  loop_step u us w v r e = rw (e, list_loop) refl

  loop_keeps : (us : List String) (w : S) → holding w ≡ f → holding (list_loop svc us w).1 ≡ f
  unfolding list_loop
  loop_keeps [] w h = h
  loop_keeps (u ∷ us) w h =
      let (v, k, d) = details u w h in
      elim d [
        | inl (s, n, q) ↦
            ap (λ (x : List Server × S). holding x.1) (loop_step u us w v (ok s) q)
            ∙ loop_keeps us v k
        | inr (e, n, q) ↦
            ap (λ (x : List Server × S). holding x.1) (loop_step u us w v (err e) q)
            ∙ loop_keeps us v k
      ]

  later-Owned : (u : String) (us : List String) (x : Server) → Owned f us x → Owned f (u ∷ us) x
  later-Owned u us x (j, m, e, b) = (j, there m, e, b)

  loop-Owned :
      (us : List String) (w : S) (x : Server)
      → holding w ≡ f
      → Mem x (list_loop svc us w).0
      → Owned f us x
  unfolding list_loop managed
  loop-Owned [] w x h m = elim m [ ]
  loop-Owned (u ∷ us) w x h m =
      let (v, k, d) = details u w h in
      elim d [
        | inl (s, n, q) ↦
            elim (managed-cases s x (list_loop svc us v).0
              (subst (λ (y : List Server × S). Mem x y.0) (loop_step u us w v (ok s) q) m)) [
                | inl (e, b) ↦ (
                  u,
                  here refl,
                  n ∙ ap some e,
                  ap (λ (y : Server). is_managed y.labels) (sym e) ∙ b,
                )
                | inr r ↦ later-Owned u us x (loop-Owned us v x k r)
              ]
        | inr (e, n, q) ↦ later-Owned u us x (
            loop-Owned us v x k
              (subst (λ (y : List Server × S). Mem x y.0) (loop_step u us w v (err e) q) m))
      ]

  held_listed :
      (u : String) (us : List String) (w : S) (x : Server)
      → holding w ≡ f
      → f u ≡ some x
      → is_managed x.labels ≡ true
      → Mem x (list_loop svc (u ∷ us) w).0
  held_listed u us w x h e b =
      let (v, k, d) = details u w h in
      elim d [
        | inl (s, n, q) ↦
            subst (λ (y : List Server × S). Mem x y.0) (sym (loop_step u us w v (ok s) q))
              (subst (λ (y : Server). Mem x (managed (ok y) (list_loop svc us v).0)) (ground arith)
                (managed_first x (list_loop svc us v).0 b))
        | inr (z, n, q) ↦ absurd (ground arith)
      ]

  owned_listed :
      (us : List String) (w : S) (x : Server) (j : String)
      → holding w ≡ f
      → Mem j us
      → f j ≡ some x
      → is_managed x.labels ≡ true
      → Mem x (list_loop svc us w).0
  owned_listed [] w x j h m e b = elim m [ ]
  owned_listed (u ∷ us) w x j h (here p) e b = held_listed u us w x h (ap f p ∙ e) b
  owned_listed (u ∷ us) w x j h (there m) e b =
      let (v, k, d) = details u w h in
      elim d [
        | inl (s, n, q) ↦
            subst (λ (y : List Server × S). Mem x y.0) (sym (loop_step u us w v (ok s) q))
              (managed_rest (ok s) x (list_loop svc us v).0 (owned_listed us v x j k m e b))
        | inr (z, n, q) ↦
            subst (λ (y : List Server × S). Mem x y.0) (sym (loop_step u us w v (err z) q))
              (managed_rest (err z) x (list_loop svc us v).0 (owned_listed us v x j k m e b))
      ]

module _ {S : Type 0} (svc : Service S) (holding : S → Holding) (fleet : IsFleet svc holding) where
  list_step :
      (us : List String) (w u : S)
      → svc.get_servers w ≡ (ok us, u)
      → list svc w ≡ (ok (list_loop svc us u).0, (list_loop svc us u).1)
  unfolding list
  list_step us w u q = rw (q, list) (rw q refl)

  -- `List` gives exactly the managed servers that the account holds, and changes nothing.
  pub list_owned :
      (w : S)
      → (servers : List Server) × (v : S) × (list svc w ≡ (ok servers, v))
        × (holding v ≡ holding w)
        × ((s : Server)
            → Mem s servers ↔ ((holding w s.uuid ≡ some s) × (is_managed s.labels ≡ true)))
  list_owned w =
      let (uuids, u, q, h, named) = fleet.listed w in
      (
        (list_loop svc uuids u).0,
        (list_loop svc uuids u).1,
        list_step uuids w u q,
        loop_keeps svc holding fleet (holding w) uuids u h,
        λ s. (
          λ m.
              let (j, _, e, b) = loop-Owned svc holding fleet (holding w) uuids u s h m in
              (ap (holding w) (fleet.own w j s e) ∙ e, b),
          λ r.
              owned_listed svc holding fleet (holding w) uuids u s s.uuid h
                ((named s.uuid).1 (λ n. ground (arith, n, r.0))) r.0 r.1,
        ),
      )
