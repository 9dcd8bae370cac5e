-- ===== src/Api/Copy/Fresh.antt =====
-- What DeepCopyInto gives: the same values, in cells that were not in use before, but for the storage settings.
use karpenter_provider_upclo.Base.{◌≡◌, refl, ◌∙◌}
use karpenter_provider_upclo.Base.Memory.{
  shown, Within, Beyond, Extends-refl, shown-Extends, Within-Extends, Beyond-Extends,
}
use karpenter_provider_upclo.Api.Spec.{Spec}
use karpenter_provider_upclo.Api.Conditions.{MetaCondition, no_meta, Status}
use karpenter_provider_upclo.Api.Copy.{
  Memory, SpecCell, ClassCell, no_arg, no_taint, copy_flag, copy_spec, copy_status, copy_class,
}
use karpenter_provider_upclo.Api.Copy.Cells.{
  copy_slice-IsCopy, copy_map-IsCopy, copy_each-IsCopy, copy_flag-IsCopy,
}
use karpenter_provider_upclo.Api.Copy.Contents.{
  spec_value, status_value, IsStored, Grows, Grows-trans, spec_value-Grows, IsStored-Grows,
  storage_value-Extends, FlagWithin-Extends,
}

-- The pointers of the specification but the storage settings lead to cells that `m` does not use.
pub record IsFresh (m : Memory) (s : SpecCell) : Type 0 where
  pub ssh_keys : Beyond m.texts.next s.ssh_keys
  pub kubelet_args : Beyond m.args.next s.kubelet_args
  pub labels : Beyond m.maps.next s.labels
  pub taints : Beyond m.taints.next s.taints
  pub access : Beyond m.flags.next s.utility_network_access

pub record SpecCopy (m : Memory) (s : SpecCell) (n : Memory) (d : SpecCell) : Type 0 where
  pub grows : Grows m n
  pub same : spec_value n d ≡ spec_value m s
  pub stored : IsStored n d
  pub fresh : IsFresh m d
  pub shares : d.storage ≡ s.storage

pub copy_spec-SpecCopy :
    (s : SpecCell) (m : Memory) → IsStored m s → SpecCopy m s (copy_spec s m).1 (copy_spec s m).0
unfolding copy_spec
copy_spec-SpecCopy s m h =
    let keys = copy_slice-IsCopy "" s.ssh_keys m.texts h.ssh_keys in
    let args = copy_slice-IsCopy no_arg s.kubelet_args m.args h.kubelet_args in
    let labels = copy_map-IsCopy s.labels m.maps h.labels h.distinct in
    let taints = copy_slice-IsCopy no_taint s.taints m.taints h.taints in
    let access = copy_flag-IsCopy s.utility_network_access m.flags h.access in
    record {
      grows = record {
        texts = keys.extends;
        args = args.extends;
        maps = labels.extends;
        taints = taints.extends;
        flags = access.extends;
        storages = Extends-refl m.storages;
        conditions = Extends-refl m.conditions;
      };
      same = rw (
        keys.same,
        args.same,
        labels.same,
        taints.same,
        access.same,
        storage_value-Extends m.flags (copy_flag s.utility_network_access m.flags).1
            (shown m.storages s.storage) access.extends h.encrypted,
      );
      stored = record {
        storage = h.storage;
        encrypted =
            FlagWithin-Extends m.flags (copy_flag s.utility_network_access m.flags).1
              (shown m.storages s.storage) access.extends h.encrypted;
        ssh_keys = keys.within;
        kubelet_args = args.within;
        labels = labels.within;
        distinct = rw labels.same h.distinct;
        taints = taints.within;
        access = access.within;
      };
      fresh = record {
        ssh_keys = keys.beyond;
        kubelet_args = args.beyond;
        labels = labels.beyond;
        taints = taints.beyond;
        access = access.beyond;
      };
      shares = refl;
    }

-- A node class as a value, with the metadata as they are.
pub record ClassValue (M : Type 0) : Type 0 where
  pub meta : M
  pub spec : Spec
  pub status : Status

abbrev pub class_value : {M : Type 0} → Memory → ClassCell M → ClassValue M
class_value m c = record {
  meta = c.meta;
  spec = spec_value m c.spec;
  status = status_value m c.status;
}

pub record IsStoredClass {M : Type 0} (m : Memory) (c : ClassCell M) : Type 0 where
  pub spec : IsStored m c.spec
  pub conditions : Within m.conditions.next c.status.conditions

pub record ClassCopy {M : Type 0} (m : Memory) (c : ClassCell M) (n : Memory) (d : ClassCell M)
    : Type 0 where
  pub grows : Grows m n
  pub same : class_value n d ≡ class_value m c
  pub stored : IsStoredClass n d
  pub fresh : IsFresh m d.spec
  pub fresh_conditions : Beyond m.conditions.next d.status.conditions
  pub shares : d.spec.storage ≡ c.spec.storage

pub class_value-Grows :
    {M : Type 0} {m n : Memory} (c : ClassCell M)
    → Grows m n
    → IsStoredClass m c
    → class_value n c ≡ class_value m c
class_value-Grows {m} {n} c g h = rw (
  spec_value-Grows g c.spec h.spec,
  shown-Extends m.conditions n.conditions c.status.conditions g.conditions h.conditions,
)

pub IsStoredClass-Grows :
    {M : Type 0} {m n : Memory} (c : ClassCell M)
    → Grows m n
    → IsStoredClass m c
    → IsStoredClass n c
IsStoredClass-Grows {m} {n} c g h = record {
  spec = IsStored-Grows g c.spec h.spec;
  conditions =
      Within-Extends m.conditions n.conditions c.status.conditions g.conditions h.conditions;
}

-- A copy remains one while memory grows, also of what was there before.
pub ClassCopy-later :
    {M : Type 0} (m n o : Memory) (c d : ClassCell M)
    → ClassCopy m c n d
    → Grows n o
    → ClassCopy m c o d
ClassCopy-later m n o c d k g = record {
  grows = Grows-trans k.grows g;
  same = class_value-Grows d g k.stored ∙ k.same;
  stored = IsStoredClass-Grows d g k.stored;
  fresh = k.fresh;
  fresh_conditions = k.fresh_conditions;
  shares = k.shares;
}

pub ClassCopy-earlier :
    {M : Type 0} (l m n : Memory) (c d : ClassCell M)
    → Grows l m
    → IsStoredClass l c
    → ClassCopy m c n d
    → ClassCopy l c n d
ClassCopy-earlier l m n c d g h k = record {
  grows = Grows-trans g k.grows;
  same = k.same ∙ class_value-Grows c g h;
  stored = k.stored;
  fresh = record {
    ssh_keys = Beyond-Extends l.texts m.texts d.spec.ssh_keys g.texts k.fresh.ssh_keys;
    kubelet_args = Beyond-Extends l.args m.args d.spec.kubelet_args g.args k.fresh.kubelet_args;
    labels = Beyond-Extends l.maps m.maps d.spec.labels g.maps k.fresh.labels;
    taints = Beyond-Extends l.taints m.taints d.spec.taints g.taints k.fresh.taints;
    access = Beyond-Extends l.flags m.flags d.spec.utility_network_access g.flags k.fresh.access;
  };
  fresh_conditions =
      Beyond-Extends l.conditions m.conditions d.status.conditions g.conditions k.fresh_conditions;
  shares = k.shares;
}

module _ (copy_condition : MetaCondition → MetaCondition)
    (same_condition : (x : MetaCondition) → copy_condition x ≡ x) {M : Type 0} (copy_meta : M → M)
    (same_meta : (x : M) → copy_meta x ≡ x) where
  pub copy_class-ClassCopy :
      (c : ClassCell M) (m : Memory)
      → IsStoredClass m c
      → ClassCopy m c
          (copy_class copy_condition copy_meta c m).1
          (copy_class copy_condition copy_meta c m).0
  unfolding copy_class copy_status
  copy_class-ClassCopy c m h =
      let spec = copy_spec-SpecCopy c.spec m h.spec in
      let conditions =
        copy_each-IsCopy no_meta copy_condition c.status.conditions m.conditions same_condition
          h.conditions in
      record {
        grows = record {
          texts = spec.grows.texts;
          args = spec.grows.args;
          maps = spec.grows.maps;
          taints = spec.grows.taints;
          flags = spec.grows.flags;
          storages = spec.grows.storages;
          conditions = conditions.extends;
        };
        same = λ i. record {
          meta = same_meta c.meta i;
          spec = spec.same i;
          status = record { conditions = conditions.same i; hash = c.status.hash };
        };
        stored = record {
          spec = record {
            storage = spec.stored.storage;
            encrypted = spec.stored.encrypted;
            ssh_keys = spec.stored.ssh_keys;
            kubelet_args = spec.stored.kubelet_args;
            labels = spec.stored.labels;
            distinct = spec.stored.distinct;
            taints = spec.stored.taints;
            access = spec.stored.access;
          };
          conditions = conditions.within;
        };
        fresh = spec.fresh;
        fresh_conditions = conditions.beyond;
        shares = spec.shares;
      }
