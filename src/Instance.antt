-- ===== src/Instance.antt =====
-- pkg/providers/instance/instance.go: the servers of UpCloud. The UpCloud client is the record
-- `Service` of operations on the world; its errors are the texts that `err.Error()` gives.
pub mod Listing
pub mod Fleet
pub mod Labels
use Prim.Native.String.{◌++◌ as ◌+++◌}
use karpenter_provider_upclo.Base.{
  String, ℕ, Dict, insert, Option, none, some, List, [], ◌∷◌, Bool, true, false, ◌&&◌, ◌||◌, not,
  ◌==◌, if◌then◌else◌, Result, ok, err,
}
use karpenter_provider_upclo.Base.Int.{ℤ, pos, ltb_ℤ}
use karpenter_provider_upclo.Base.Text.{Text}
use karpenter_provider_upclo.Kube.Step.{Step, rescue, ◌>>=◌, pure}
use karpenter_provider_upclo.Api.{
  server_managed_label_key, server_managed_label_value, server_cluster_id_label_key,
  server_cluster_name_label_key, server_generated_name_label_key,
}
use karpenter_provider_upclo.Api.Spec.{StorageSpec}

-- upcloud.ServerDetails, as far as it is read; a label is a key and a value.
pub record Server : Type 0 where
  pub uuid : String
  pub hostname : String
  pub plan : String
  pub core_number : ℤ
  pub memory_amount : ℤ
  pub labels : List (String × String)

pub record StorageDevice : Type 0 where
  pub action : String
  pub storage : String
  pub title : String
  pub size : ℤ
  pub tier : String
  pub encrypted : Option Bool

pub record Interface : Type 0 where
  pub kind : String
  pub network : String
  pub families : List String

pub record CreateRequest : Type 0 where
  pub labels : List (String × String)
  pub zone : String
  pub hostname : String
  pub title : String
  pub plan : String
  pub server_group : String
  pub storage_devices : List StorageDevice
  pub interfaces : List Interface
  pub user_data : Text
  pub metadata : Bool

pub record StopRequest : Type 0 where
  pub uuid : String
  pub stop_type : String
  pub timeout : ℤ

-- `get_servers` gives the UUIDs of the account's servers; `wait_for_server_state` takes a UUID and the
-- state that is awaited.
pub record Service (S : Type 0) : Type 0 where
  pub create_server : CreateRequest → Step S String Server
  pub delete_server_and_storages : String → Step S String (Unit {0})
  pub get_server_details : String → Step S String Server
  pub get_servers : Step S String (List String)
  pub stop_server : StopRequest → Step S String (Unit {0})
  pub wait_for_server_state : String → String → Step S String (Unit {0})

pub record Provider : Type 0 where
  pub template_uuid : String
  pub network_uuid : String
  pub cluster_id : String
  pub cluster_name : String

unfoldable pub new_provider : String → String → String → String → Provider
new_provider template_uuid network_uuid cluster_id cluster_name = record {
  template_uuid = template_uuid;
  network_uuid = network_uuid;
  cluster_id = cluster_id;
  cluster_name = cluster_name;
}

-- A nil map is `none`. The slice of labels stands in the order of the dictionary; Go's is arbitrary.
unfoldable pub managed_labels : Provider → String → Option (Dict String) → Dict String
managed_labels p hostname labels = insert server_generated_name_label_key hostname (
    insert server_cluster_name_label_key p.cluster_name (
      insert server_cluster_id_label_key p.cluster_id (
        insert server_managed_label_key server_managed_label_value
          (elim labels [ none ↦ [] | some m ↦ m ]))))

unfoldable pub with_storage : Option StorageSpec → StorageDevice → StorageDevice
with_storage none device = device
with_storage (some storage) device = record device {
  size = if ltb_ℤ (pos 0) storage.size then storage.size else device.size;
  tier = if storage.tier == "" then device.tier else storage.tier;
  encrypted = elim storage.encrypted [ none ↦ device.encrypted | some b ↦ some b ];
}

abbrev interface : String → String → Interface
interface kind network = record { kind = kind; network = network; families = "IPv4" ∷ [] }

unfoldable pub create_request :
    Provider
    → String
    → String
    → String
    → Text
    → String
    → Option (Dict String)
    → Option StorageSpec
    → CreateRequest
unfolding managed_labels with_storage
create_request p hostname plan zone user_data server_group labels storage = record {
  labels = managed_labels p hostname labels;
  zone = zone;
  hostname = hostname;
  title = hostname;
  plan = plan;
  server_group = server_group;
  storage_devices =
      with_storage storage record {
        action = "clone";
        storage = p.template_uuid;
        title = hostname +++ "-root";
        size = pos 0;
        tier = "";
        encrypted = none;
      }
      ∷ [];
  interfaces =
      interface "private" p.network_uuid ∷ interface "utility" "" ∷ interface "public" "" ∷ [];
  user_data = user_data;
  metadata = true;
}

-- The loop over the labels.
unfoldable pub is_managed : List (String × String) → Bool
is_managed [] = false
is_managed ((k, v) ∷ ls) =
    let rest = is_managed ls in
    if (k == server_managed_label_key) && (v == server_managed_label_value) then true else rest

-- A server whose details cannot be read is passed over.
unfoldable pub managed : Result String Server → List Server → List Server
managed (err e) rest = rest
managed (ok s) rest = if is_managed s.labels then s ∷ rest else rest

module _ {S : Type 0} (svc : Service S) where
  unfoldable pub create :
      Provider
      → String
      → String
      → String
      → Text
      → String
      → Option (Dict String)
      → Option StorageSpec
      → Step S String Server
  create p hostname plan zone user_data server_group labels storage =
      svc.create_server (create_request p hostname plan zone user_data server_group labels storage)

  unfoldable pub delete : String → Step S String (Unit {0})
  delete uuid = svc.delete_server_and_storages uuid

  unfoldable pub get_server : String → Step S String Server
  get_server uuid = svc.get_server_details uuid

  unfoldable pub list_loop : List String → S → List Server × S
  unfolding managed
  list_loop [] w = ([], w)
  list_loop (uuid ∷ uuids) w =
      let details = svc.get_server_details uuid w in
      let rest = list_loop uuids details.1 in (managed details.0 rest.0, rest.1)

  unfoldable pub list : Step S String (List Server)
  unfolding list_loop
  list w = elim (svc.get_servers w).0 [
    | err e ↦ (err ("listing servers: " +++ e), (svc.get_servers w).1)
    | ok uuids ↦
        (ok (list_loop uuids (svc.get_servers w).1).0, (list_loop uuids (svc.get_servers w).1).1)
  ]

  unfoldable pub stop : String → Step S String (Unit {0})
  stop uuid = svc.stop_server record { uuid = uuid; stop_type = "hard"; timeout = pos 30000000000 }

  unfoldable pub wait_for_start : String → Step S String (Unit {0})
  wait_for_start uuid = svc.wait_for_server_state uuid "started"

  unfoldable pub wait_for_stop : String → Step S String (Unit {0})
  wait_for_stop uuid = svc.wait_for_server_state uuid "stopped"
