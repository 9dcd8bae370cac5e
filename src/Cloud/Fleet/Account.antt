-- ===== src/Cloud/Fleet/Account.antt =====
-- An account with room for one server, and the provider that is alone with it.
use karpenter_provider_upclo.Base.{
  String, ◌≡◌, ◌≢◌, refl, sym, ap, ◌∙◌, ◌↔◌, inl, inr, here, there, Option, none, some, List, [],
  ◌∷◌, true, false, ◌==◌, eq_iff, if◌then◌else◌, Bool-cases, Result, ok, err, arith,
}
use karpenter_provider_upclo.Base.Int.{pos}
use karpenter_provider_upclo.Base.Text.{codes}
use karpenter_provider_upclo.Kube.{status, not_found}
use karpenter_provider_upclo.Instance.{
  Server, Service, CreateRequest, create_request, is_managed, managed_labels,
}
use karpenter_provider_upclo.Instance
use karpenter_provider_upclo.Instance.Fleet.{Mem, Holding, IsFleet, with_server, without_server}
use karpenter_provider_upclo.Certs.{Cluster, Crypto}
use karpenter_provider_upclo.Cloud.{Cloud}
use karpenter_provider_upclo.Cloud.Sample.{server, csr, spec, instances}
use karpenter_provider_upclo.Cloud.Fleet.{IsAlone}

-- The labels of the server, if there is one.
abbrev pub Room : Type 0
Room = Option (List (String × String))

abbrev pub with_labels : List (String × String) → Server
with_labels l = record server { labels = l }

abbrev pub holding : Room → Holding
holding none u = none
holding (some l) u = if "00f1" == u then some (with_labels l) else none

abbrev pub create_server : CreateRequest → Room → Result String Server × Room
create_server r none = (ok (with_labels r.labels), some r.labels)
create_server r (some l) = (err "QUOTA_EXCEEDED", some l)

abbrev pub delete_server : String → Room → Result String (Unit {0}) × Room
delete_server u none = (err "SERVER_NOT_FOUND", none)
delete_server u (some l) = if "00f1" == u then (ok tt, none) else (err "SERVER_NOT_FOUND", some l)

abbrev pub read_server : String → Room → Result String Server × Room
read_server u none = (err "SERVER_NOT_FOUND", none)
read_server u (some l) =
    if "00f1" == u then (ok (with_labels l), some l) else (err "SERVER_NOT_FOUND", some l)

abbrev pub uuids : Room → List String
uuids none = []
uuids (some l) = "00f1" ∷ []

abbrev pub room : Service Room
room = record {
  create_server = create_server;
  delete_server_and_storages = delete_server;
  get_server_details = read_server;
  get_servers = λ w. (ok (uuids w), w);
  stop_server = λ r w. (ok tt, w);
  wait_for_server_state = λ uuid state w. (ok tt, w);
}

room_own : (w : Room) (u : String) (s : Server) → holding w u ≡ some s → s.uuid ≡ u
room_own none u s e = ground arith
room_own (some l) u s e = ground (arith, eq_iff "00f1" u)

room_listed : (w : Room) (u : String) → Mem u (uuids w) ↔ (holding w u ≢ none)
room_listed none u = (λ m. elim m [ ], λ n. absurd (n refl))
room_listed (some l) u = (there_is, is_there)
  where
    there_is : Mem u ("00f1" ∷ []) → holding (some l) u ≢ none
    there_is (here e) n = ground (arith, eq_iff "00f1" u, e, n)
    there_is (there m) n = elim m [ ]

    is_there : holding (some l) u ≢ none → Mem u ("00f1" ∷ [])
    is_there n = elim (Bool-cases ("00f1" == u)) [
      | inl e ↦ here ((eq_iff "00f1" u).0 e)
      | inr e ↦ absurd (n (rw e refl))
    ]

room_read :
    (w : Room) (u : String) (s : Server)
    → holding w u ≡ some s
    → (v : Room) × (read_server u w ≡ (ok s, v)) × (holding v ≡ holding w)
room_read none u s e = ground arith
room_read (some l) u s e = (some l, ground arith, refl)

room_unread :
    (w : Room) (u : String)
    → holding w u ≡ none
    → (e : String) × (v : Room) × (read_server u w ≡ (err e, v)) × (holding v ≡ holding w)
room_unread none u e = ("SERVER_NOT_FOUND", none, refl, refl)
room_unread (some l) u e = ("SERVER_NOT_FOUND", some l, ground arith, refl)

room_added :
    (r : CreateRequest) (w v : Room) (s : Server)
    → create_server r w ≡ (ok s, v)
    → (s.labels ≡ r.labels) × (holding w s.uuid ≡ none) × (holding v ≡ with_server s (holding w))
room_added r (some l) v s e = ground arith
room_added r none v s e =
    let k : with_labels r.labels ≡ s = ground arith in
    (
      ap (λ (x : Server). x.labels) (sym k),
      refl,
      ap (λ (x : Result String Server × Room). holding x.1) (sym e)
          ∙ ap (λ (x : Server). with_server x (holding none)) k,
    )

emptied :
    (u x : String) (l : List (String × String))
    → ("00f1" == u) ≡ true
    → holding none x ≡ without_server u (holding (some l)) x
emptied u x l e = let k = (eq_iff "00f1" u).0 e in rw (sym k) (ground arith)

room_removed :
    (u : String) (w v : Room)
    → delete_server u w ≡ (ok tt, v)
    → holding v ≡ without_server u (holding w)
room_removed u none v e = ground arith
room_removed u (some l) v e = elim (Bool-cases ("00f1" == u)) [
  | inl t ↦
      let k : none ≡ v = ground (arith, e, t) in ap holding (sym k) ∙ (λ i x. emptied u x l t i)
  | inr t ↦ absurd (ground (arith, e, t))
]

room_refused :
    (r : CreateRequest) (w v : Room) (e : String)
    → create_server r w ≡ (err e, v)
    → holding v ≡ holding w
room_refused r none v e q = ground arith
room_refused r (some l) v e q = ap (λ (x : Result String Server × Room). holding x.1) (sym q)

room_undeleted :
    (u : String) (w v : Room) (e : String) → delete_server u w ≡ (err e, v) → holding v ≡ holding w
room_undeleted u none v e q = ap (λ (x : Result String (Unit {0}) × Room). holding x.1) (sym q)
room_undeleted u (some l) v e q = elim (Bool-cases ("00f1" == u)) [
  | inl t ↦ absurd (ground (arith, q, t))
  | inr t ↦ let k : some l ≡ v = ground (arith, q, t) in ap holding (sym k)
]

room-IsFleet : IsFleet room holding
unfolding Instance.stop Instance.wait_for_stop
room-IsFleet = record {
  own = room_own;
  listed = λ w. (uuids w, w, refl, refl, room_listed w);
  read = room_read;
  unread = room_unread;
  added = room_added;
  removed = room_removed;
  stopping = λ w u. refl;
  waiting = λ w u. refl;
}

abbrev pub api_server : Cluster Room
api_server = record {
  get_config_map = λ namespace name w. (ok (("ca.crt", codes "CA") ∷ []), w);
  create_csr = λ r w. (ok tt, w);
  get_csr = λ name w. (ok (csr []), w);
  update_approval = λ r w. (ok tt, w);
  now = λ w. pos 0;
  pass = λ w. w;
  is_expired = λ w. false;
}

abbrev pub crypto : Crypto Room (Unit {0})
crypto = record {
  generate_key = λ w. (ok tt, w);
  key_pem = λ k. codes "KEY";
  certificate_request = λ name orgs k w. (ok (codes "REQUEST"), w);
}

abbrev pub cloud : Cloud Room (Unit {0})
cloud = record {
  zone = "fi-hel1";
  cluster_endpoint = "https://10.0.0.1:6443";
  repair_toleration = pos 600000000000;
  instances = instances;
  servers = room;
  cluster = api_server;
  crypto = crypto;
  get_class = λ name w. (if name == "default" then ok spec else err (status not_found), w);
  new_uuid = λ w. ("01234567-89ab-cdef-0123-456789abcdef", w);
  cached_plans = λ w. [];
  digest = λ s. some 7;
  yaml = λ ts. ok (codes "registerWithTaints: []");
}

pub cloud-IsAlone : IsAlone cloud holding
cloud-IsAlone = record {
  fleet = room-IsFleet;
  refused = room_refused;
  undeleted = room_undeleted;
  quiet = record {
    config_map = λ namespace name w. refl;
    created = λ c w. refl;
    got = λ name w. refl;
    updated = λ c w. refl;
    passed = λ w. refl;
  };
  clean = record { generated = λ w. refl; requested = λ name orgs k w. refl };
  class_read = λ name w. refl;
  named = λ w. refl;
}
