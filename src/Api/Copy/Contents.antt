-- ===== src/Api/Copy/Contents.antt =====
-- What a deep copy holds: the values that its cells show, in a memory that keeps all older cells.
use karpenter_provider_upclo.Base.{ℕ, Bool, Option, none, some, ◌≡◌, refl, ap}
use karpenter_provider_upclo.Base.Memory.{
  Store, shown, Within, Extends, Extends-refl, Extends-trans, shown-Extends, Within-Extends,
}
use karpenter_provider_upclo.Api.Spec.{StorageSpec, Spec}
use karpenter_provider_upclo.Api.Conditions.{Status}
use karpenter_provider_upclo.Api.Copy.{StorageCell, Memory, SpecCell, StatusCell}
use karpenter_provider_upclo.Api.Copy.Cells.{IsMap}

abbrev pub storage_value : Store Bool → Option StorageCell → Option StorageSpec
storage_value flags none = none
storage_value flags (some c) =
    some (record { size = c.size; tier = c.tier; encrypted = shown flags c.encrypted })

-- The specification and the status that the cells show: the types of Api/Spec and Api/Conditions.
abbrev pub spec_value : Memory → SpecCell → Spec
spec_value m s = record {
  zone = s.zone;
  plan = s.plan;
  storage = storage_value m.flags (shown m.storages s.storage);
  ssh_keys = shown m.texts s.ssh_keys;
  kubelet_args = shown m.args s.kubelet_args;
  labels = shown m.maps s.labels;
  taints = shown m.taints s.taints;
  server_group_uuid = s.server_group_uuid;
  utility_network_access = shown m.flags s.utility_network_access;
}

abbrev pub status_value : Memory → StatusCell → Status
status_value m s = record { conditions = shown m.conditions s.conditions; hash = s.hash }

abbrev pub FlagWithin : ℕ → Option StorageCell → Type 0
FlagWithin n none = Unit
FlagWithin n (some c) = Within n c.encrypted

-- All pointers of the specification lead to cells in use.
pub record IsStored (m : Memory) (s : SpecCell) : Type 0 where
  pub storage : Within m.storages.next s.storage
  pub encrypted : FlagWithin m.flags.next (shown m.storages s.storage)
  pub ssh_keys : Within m.texts.next s.ssh_keys
  pub kubelet_args : Within m.args.next s.kubelet_args
  pub labels : Within m.maps.next s.labels
  pub distinct : IsMap (shown m.maps s.labels)
  pub taints : Within m.taints.next s.taints
  pub access : Within m.flags.next s.utility_network_access

-- The second memory has the cells of the first, unchanged.
pub record Grows (m n : Memory) : Type 0 where
  pub texts : Extends m.texts n.texts
  pub args : Extends m.args n.args
  pub maps : Extends m.maps n.maps
  pub taints : Extends m.taints n.taints
  pub flags : Extends m.flags n.flags
  pub storages : Extends m.storages n.storages
  pub conditions : Extends m.conditions n.conditions

pub Grows-refl : (m : Memory) → Grows m m
Grows-refl m = record {
  texts = Extends-refl m.texts;
  args = Extends-refl m.args;
  maps = Extends-refl m.maps;
  taints = Extends-refl m.taints;
  flags = Extends-refl m.flags;
  storages = Extends-refl m.storages;
  conditions = Extends-refl m.conditions;
}

pub Grows-trans : {m n o : Memory} → Grows m n → Grows n o → Grows m o
Grows-trans e f = record {
  texts = Extends-trans e.texts f.texts;
  args = Extends-trans e.args f.args;
  maps = Extends-trans e.maps f.maps;
  taints = Extends-trans e.taints f.taints;
  flags = Extends-trans e.flags f.flags;
  storages = Extends-trans e.storages f.storages;
  conditions = Extends-trans e.conditions f.conditions;
}

pub storage_value-Extends :
    (s t : Store Bool) (c : Option StorageCell)
    → Extends s t
    → FlagWithin s.next c
    → storage_value t c ≡ storage_value s c
storage_value-Extends s t none e h = refl
storage_value-Extends s t (some c) e h =
    ap (λ f. some (record { size = c.size; tier = c.tier; encrypted = f }))
      (shown-Extends s t c.encrypted e h)

pub FlagWithin-Extends :
    (s t : Store Bool) (c : Option StorageCell)
    → Extends s t
    → FlagWithin s.next c
    → FlagWithin t.next c
FlagWithin-Extends s t none e h = tt
FlagWithin-Extends s t (some c) e h = Within-Extends s t c.encrypted e h

module _ {m n : Memory} (g : Grows m n) (s : SpecCell) (h : IsStored m s) where
  storage_kept : shown n.storages s.storage ≡ shown m.storages s.storage
  storage_kept = shown-Extends m.storages n.storages s.storage g.storages h.storage

  -- What the cells in use show stays.
  pub spec_value-Grows : spec_value n s ≡ spec_value m s
  spec_value-Grows = rw (
    storage_kept,
    storage_value-Extends m.flags n.flags (shown m.storages s.storage) g.flags h.encrypted,
    shown-Extends m.texts n.texts s.ssh_keys g.texts h.ssh_keys,
    shown-Extends m.args n.args s.kubelet_args g.args h.kubelet_args,
    shown-Extends m.maps n.maps s.labels g.maps h.labels,
    shown-Extends m.taints n.taints s.taints g.taints h.taints,
    shown-Extends m.flags n.flags s.utility_network_access g.flags h.access,
  )

  pub IsStored-Grows : IsStored n s
  IsStored-Grows = record {
    storage = Within-Extends m.storages n.storages s.storage g.storages h.storage;
    encrypted =
        rw storage_kept
          (FlagWithin-Extends m.flags n.flags (shown m.storages s.storage) g.flags h.encrypted);
    ssh_keys = Within-Extends m.texts n.texts s.ssh_keys g.texts h.ssh_keys;
    kubelet_args = Within-Extends m.args n.args s.kubelet_args g.args h.kubelet_args;
    labels = Within-Extends m.maps n.maps s.labels g.maps h.labels;
    distinct = rw (shown-Extends m.maps n.maps s.labels g.maps h.labels) h.distinct;
    taints = Within-Extends m.taints n.taints s.taints g.taints h.taints;
    access = Within-Extends m.flags n.flags s.utility_network_access g.flags h.access;
  }
