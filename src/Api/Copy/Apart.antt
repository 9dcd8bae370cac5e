-- ===== src/Api/Copy/Apart.antt =====
-- Writes to memory after a deep copy: what they change of the original and of the copy.
use karpenter_provider_upclo.Base.{
  String, ℕ, ◌≤◌, Dict, Bool, Option, none, some, List, [], ◌∷◌, ◌≡◌, ◌≢◌, refl, sym, ap, ◌∙◌,
  subst, All,
}
use karpenter_provider_upclo.Base.Memory.{
  Store, write, shown, Outside, Extends-write, shown-Extends, shown-write, cell-write, ne-Outside,
}
use karpenter_provider_upclo.Base.Int.{ℤ, pos}
use karpenter_provider_upclo.Kube.{Taint}
use karpenter_provider_upclo.Api.Spec.{StorageSpec, KubeletArg}
use karpenter_provider_upclo.Api.Conditions.{MetaCondition}
use karpenter_provider_upclo.Api.Copy.{StorageCell, Memory, SpecCell, ClassCell, copy_class}
use karpenter_provider_upclo.Api.Copy.Contents.{storage_value, Grows}
use karpenter_provider_upclo.Api.Copy.Fresh.{
  ClassValue, class_value, class_value-Grows, IsStoredClass, ClassCopy, copy_class-ClassCopy,
}

-- A write to one cell.
pub data Write : Type 0 where
  texts : ℕ → List String → Write
  args : ℕ → List KubeletArg → Write
  maps : ℕ → Dict String → Write
  taints : ℕ → List Taint → Write
  flags : ℕ → Bool → Write
  storages : ℕ → StorageCell → Write
  conditions : ℕ → List MetaCondition → Write

unfoldable pub written : Write → Memory → Memory
unfolding write
written (texts p v) m = record m { texts = write p v m.texts }
written (args p v) m = record m { args = write p v m.args }
written (maps p v) m = record m { maps = write p v m.maps }
written (taints p v) m = record m { taints = write p v m.taints }
written (flags p v) m = record m { flags = write p v m.flags }
written (storages p v) m = record m { storages = write p v m.storages }
written (conditions p v) m = record m { conditions = write p v m.conditions }

unfoldable pub all_written : List Write → Memory → Memory
unfolding written
all_written [] m = m
all_written (w ∷ ws) m = all_written ws (written w m)

-- The cell came into use after `m`.
abbrev pub Later : Memory → Write → Type 0
Later m (texts p v) = m.texts.next ≤ p
Later m (args p v) = m.args.next ≤ p
Later m (maps p v) = m.maps.next ≤ p
Later m (taints p v) = m.taints.next ≤ p
Later m (flags p v) = m.flags.next ≤ p
Later m (storages p v) = m.storages.next ≤ p
Later m (conditions p v) = m.conditions.next ≤ p

abbrev pub IsNotFlag : ℕ → Option StorageCell → Type 0
IsNotFlag p none = Unit
IsNotFlag p (some c) = c.encrypted ≢ some p

-- The cell was in use before the copy from `m` to `n` or came into use after it, and is no part of the storage
-- settings of `s`.
abbrev pub Elsewhere : Memory → Memory → SpecCell → Write → Type 0
Elsewhere m n s (texts p v) = Outside m.texts.next n.texts.next p
Elsewhere m n s (args p v) = Outside m.args.next n.args.next p
Elsewhere m n s (maps p v) = Outside m.maps.next n.maps.next p
Elsewhere m n s (taints p v) = Outside m.taints.next n.taints.next p
Elsewhere m n s (flags p v) =
    Outside m.flags.next n.flags.next p × IsNotFlag p (shown m.storages s.storage)
Elsewhere m n s (storages p v) = s.storage ≢ some p
Elsewhere m n s (conditions p v) = Outside m.conditions.next n.conditions.next p

written-Grows : (m n : Memory) (w : Write) → Grows m n → Later m w → Grows m (written w n)
unfolding written
written-Grows m n (texts p v) g h = search (Extends-write)
written-Grows m n (args p v) g h = search (Extends-write)
written-Grows m n (maps p v) g h = search (Extends-write)
written-Grows m n (taints p v) g h = search (Extends-write)
written-Grows m n (flags p v) g h = search (Extends-write)
written-Grows m n (storages p v) g h = search (Extends-write)
written-Grows m n (conditions p v) g h = search (Extends-write)

all_written-Grows :
    (m n : Memory) (ws : List Write) → Grows m n → All (Later m) ws → Grows m (all_written ws n)
unfolding all_written
all_written-Grows m n [] g h = g
all_written-Grows m n (w ∷ ws) g h =
    all_written-Grows m (written w n) ws (written-Grows m n w g h.0) h.1

storage_value-write :
    (s : Store Bool) (p : ℕ) (v : Bool) (c : Option StorageCell)
    → IsNotFlag p c
    → storage_value (write p v s) c ≡ storage_value s c
storage_value-write s p v none h = refl
storage_value-write s p v (some c) h = rw (shown-write s p v c.encrypted h)

module _ {M : Type 0} (m n : Memory) (c d : ClassCell M) where
  abbrev settings : Memory → Option StorageCell
  settings o = shown o.storages d.spec.storage

  -- One write elsewhere: the storage settings of the copy stay, and with them its value.
  written-settings :
      (w : Write) (o : Memory)
      → ClassCopy m c n d
      → Elsewhere m n c.spec w
      → settings (written w o) ≡ settings o
  unfolding written
  written-settings (storages p v) o k h =
      shown-write o.storages p v d.spec.storage (subst (λ q. q ≢ some p) (sym k.shares) h)
  written-settings (texts p v) o k h = refl
  written-settings (args p v) o k h = refl
  written-settings (maps p v) o k h = refl
  written-settings (taints p v) o k h = refl
  written-settings (flags p v) o k h = refl
  written-settings (conditions p v) o k h = refl

  written-value :
      (w : Write) (o : Memory)
      → ClassCopy m c n d
      → settings o ≡ shown m.storages c.spec.storage
      → Elsewhere m n c.spec w
      → class_value (written w o) d ≡ class_value o d
  unfolding written
  written-value (texts p v) o k e h = rw (
      shown-write o.texts p v d.spec.ssh_keys (
        ne-Outside m.texts.next n.texts.next p d.spec.ssh_keys k.fresh.ssh_keys
          k.stored.spec.ssh_keys h))
  written-value (args p v) o k e h = rw (
      shown-write o.args p v d.spec.kubelet_args (
        ne-Outside m.args.next n.args.next p d.spec.kubelet_args k.fresh.kubelet_args
          k.stored.spec.kubelet_args h))
  written-value (maps p v) o k e h = rw (
      shown-write o.maps p v d.spec.labels
        (ne-Outside m.maps.next n.maps.next p d.spec.labels k.fresh.labels k.stored.spec.labels h))
  written-value (taints p v) o k e h = rw (
      shown-write o.taints p v d.spec.taints (
        ne-Outside m.taints.next n.taints.next p d.spec.taints k.fresh.taints k.stored.spec.taints
          h))
  written-value (flags p v) o k e h =
      let apart =
        ne-Outside m.flags.next n.flags.next p d.spec.utility_network_access k.fresh.access
          k.stored.spec.access h.0 in
      rw (
        shown-write o.flags p v d.spec.utility_network_access apart,
        storage_value-write o.flags p v (settings o) (subst (IsNotFlag p) (sym e) h.1),
      )
  written-value (storages p v) o k e h =
      rw (shown-write o.storages p v d.spec.storage (subst (λ q. q ≢ some p) (sym k.shares) h))
  written-value (conditions p v) o k e h = rw (
      shown-write o.conditions p v d.status.conditions (
        ne-Outside m.conditions.next n.conditions.next p d.status.conditions k.fresh_conditions
          k.stored.conditions h))

  Elsewhere-kept :
      (ws : List Write) (o : Memory)
      → ClassCopy m c n d
      → settings o ≡ shown m.storages c.spec.storage
      → All (Elsewhere m n c.spec) ws
      → class_value (all_written ws o) d ≡ class_value o d
  unfolding all_written
  Elsewhere-kept [] o k e h = refl
  Elsewhere-kept (w ∷ ws) o k e h =
      Elsewhere-kept ws (written w o) k (written-settings w o k h.0 ∙ e) h.1
      ∙ written-value w o k e h.0

  -- The copy has the very cell of the storage settings.
  settings_copied :
      ClassCopy m c n d → IsStoredClass m c → settings n ≡ shown m.storages c.spec.storage
  settings_copied k h =
      ap (shown n.storages) k.shares
      ∙ shown-Extends m.storages n.storages c.spec.storage k.grows.storages h.spec.storage

abbrev size_of : Option StorageSpec → ℤ
size_of none = pos 0
size_of (some x) = x.size

size-shown :
    {M : Type 0} (m : Memory) (c : ClassCell M) (p : ℕ)
    → c.spec.storage ≡ some p
    → size_of (class_value m c).spec.storage ≡ (m.storages.cell p).size
unfolding shown
size-shown m c p e = ap (λ q. size_of (storage_value m.flags (shown m.storages q))) e

module _ (copy_condition : MetaCondition → MetaCondition)
    (same_condition : (x : MetaCondition) → copy_condition x ≡ x) {M : Type 0} (copy_meta : M → M)
    (same_meta : (x : M) → copy_meta x ≡ x) where
  abbrev copy : ClassCell M → Memory → ClassCell M × Memory
  copy = copy_class copy_condition copy_meta

  -- Whatever is written after DeepCopyInto to cells that came into use since it began, the fields of the copy among
  -- them, the original keeps its value. Whatever is written to cells that were in use before or came into use
  -- after it, the fields of the original among them, the copy keeps the original's value, as long as the cells of
  -- the storage settings and of their flag are spared.
  pub copies_apart :
      (c : ClassCell M) (m : Memory) (ws vs : List Write)
      → IsStoredClass m c
      → All (Later m) ws
      → All (Elsewhere m (copy c m).1 c.spec) vs
      → (class_value (all_written ws (copy c m).1) c ≡ class_value m c)
        × (class_value (all_written vs (copy c m).1) (copy c m).0 ≡ class_value m c)
  copies_apart c m ws vs h k l =
      let made = copy_class-ClassCopy copy_condition same_condition copy_meta same_meta c m h in
      let (d, n) = copy c m in
      (
        class_value-Grows c (all_written-Grows m n ws made.grows k) h,
        Elsewhere-kept m n c d vs n made (settings_copied m n c d made h) l ∙ made.same,
      )

  -- The storage settings are not copied: the pointer of the copy is that of the original, and the write of another
  -- size through it changes the value of the original.
  pub storage_shared :
      (c : ClassCell M) (m : Memory) (p : ℕ) (v : StorageCell)
      → IsStoredClass m c
      → c.spec.storage ≡ some p
      → v.size ≢ (m.storages.cell p).size
      → ((copy c m).0.spec.storage ≡ some p)
        × (class_value (written (storages p v) (copy c m).1) c ≢ class_value m c)
  unfolding written
  storage_shared c m p v h e differs =
      let made = copy_class-ClassCopy copy_condition same_condition copy_meta same_meta c m h in
      let n = (copy c m).1 in
      (
        made.shares ∙ e,
        λ same. differs (
            sym (ap (λ (x : StorageCell). x.size) (cell-write n.storages p v))
            ∙ sym (size-shown (written (storages p v) n) c p e)
            ∙ ap (λ (x : ClassValue M). size_of x.spec.storage) same
            ∙ size-shown m c p e),
      )
