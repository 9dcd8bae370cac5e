-- ===== src/Api/Copy/Tests.antt =====
-- A node class in memory, its copy, and writes through either.
use karpenter_provider_upclo.Base.{
  String, ℕ, Option, true, none, some, List, [], ◌∷◌, ◌≡◌, ◌≢◌, refl, arith, lookup, inl, inr,
}
use karpenter_provider_upclo.Base.Int.{pos}
use karpenter_provider_upclo.Base.Memory.{Store, shown}
use karpenter_provider_upclo.Api.Spec.{Spec, hash}
use karpenter_provider_upclo.Api.Conditions.{no_meta}
use karpenter_provider_upclo.Api.Copy.{
  StorageCell, Memory, SpecCell, ClassCell, ListCell, copy_class, copy_list, deep_copy,
}
use karpenter_provider_upclo.Api.Copy.Fresh.{IsStoredClass, class_value}
use karpenter_provider_upclo.Api.Copy.Contents.{spec_value, IsStored}
use karpenter_provider_upclo.Api.Copy.Hashed.{hash_cell, hash_cell-hash}
use karpenter_provider_upclo.Api.Copy.Lists.{ListCopy, copied_list}
use karpenter_provider_upclo.Api.Copy.Apart.{
  Write, texts, maps, flags, conditions, storages, all_written, written, copies_apart,
  storage_shared,
}

abbrev one : {A : Type 0} → A → Store A
one v = record { next = 1; cell = λ p. v }

abbrev settings : StorageCell
settings = record { size = pos 50; tier = "maxiops"; encrypted = some 0 }

abbrev wider : StorageCell
wider = record { size = pos 80; tier = "maxiops"; encrypted = some 0 }

abbrev memory : Memory
memory = record {
  texts = one ("ssh-ed25519 AAAA" ∷ []);
  args = one [];
  maps = one (("team", "core") ∷ ("env", "prod") ∷ []);
  taints = one [];
  flags = one true;
  storages = one settings;
  conditions = one (no_meta ∷ []);
}

abbrev class : ClassCell String
class = record {
  meta = "default";
  spec = record {
    zone = "de-fra1";
    plan = "CLOUDNATIVE-2xCPU-16GB";
    storage = some 0;
    ssh_keys = some 0;
    kubelet_args = none;
    labels = some 0;
    taints = none;
    server_group_uuid = "";
    utility_network_access = some 0;
  };
  status = record { conditions = some 0; hash = "" };
}

abbrev unchanged : {A : Type 0} → A → A
unchanged x = x

abbrev copy_of : ClassCell String → Memory → ClassCell String × Memory
copy_of = copy_class unchanged unchanged

class-IsStoredClass : IsStoredClass memory class
unfolding shown lookup
class-IsStoredClass = record {
  spec = record {
    storage = omega arith;
    encrypted = omega arith;
    ssh_keys = omega arith;
    kubelet_args = tt;
    labels = omega arith;
    distinct = (refl, (refl, tt));
    taints = tt;
    access = omega arith;
  };
  conditions = omega arith;
}

abbrev list : ListCell String
list = record { list_meta = "1"; items = some (class ∷ class ∷ []) }

copied_list_example :
    ListCopy memory
      (some list)
      (deep_copy (copy_list unchanged unchanged) (some list) memory).1
      (deep_copy (copy_list unchanged unchanged) (some list) memory).0
copied_list_example =
    copied_list unchanged (λ x. refl) unchanged (λ x. refl) (some list) memory
      (class-IsStoredClass, (class-IsStoredClass, tt))

-- A key that the copy drops, a condition that it adds; the same of the original.
abbrev of_copy : List Write
of_copy = texts 1 [] ∷ conditions 1 (no_meta ∷ no_meta ∷ []) ∷ []

abbrev of_original : List Write
of_original = texts 0 [] ∷ flags 5 true ∷ maps 0 [] ∷ conditions 0 [] ∷ []

copies_apart_example :
    (class_value (all_written of_copy (copy_of class memory).1) class ≡ class_value memory class)
    × (class_value (all_written of_original (copy_of class memory).1) (copy_of class memory).0
        ≡ class_value memory class)
unfolding shown copy_class
copies_apart_example =
    copies_apart unchanged (λ x. refl) unchanged (λ x. refl) class memory of_copy of_original
      class-IsStoredClass (omega arith)
      (
        inl (omega arith),
        ((inr (omega arith), ground arith), (inl (omega arith), (inl (omega arith), tt))),
      )

storage_shared_example :
    ((copy_of class memory).0.spec.storage ≡ some 0)
    × (class_value (written (storages 0 wider) (copy_of class memory).1) class
        ≢ class_value memory class)
storage_shared_example =
    storage_shared unchanged (λ x. refl) unchanged (λ x. refl) class memory 0 wider
      class-IsStoredClass refl (ground arith)

-- The taints are an empty slice, which Hash takes for none.
abbrev untainted : SpecCell
untainted = record class.spec { taints = some 0 }

untainted-IsStored : IsStored memory untainted
untainted-IsStored = record {
  storage = class-IsStoredClass.spec.storage;
  encrypted = class-IsStoredClass.spec.encrypted;
  ssh_keys = class-IsStoredClass.spec.ssh_keys;
  kubelet_args = tt;
  labels = class-IsStoredClass.spec.labels;
  distinct = class-IsStoredClass.spec.distinct;
  taints = omega arith;
  access = class-IsStoredClass.spec.access;
}

abbrev digest : Spec → Option ℕ
digest s = elim s.taints [ none ↦ some 255 | some ts ↦ some 7 ]

hash_cell-hash_example :
    ((hash_cell digest untainted memory).0 ≡ hash digest (spec_value memory untainted))
    × (spec_value (hash_cell digest untainted memory).2 (hash_cell digest untainted memory).1
        ≡ spec_value memory untainted)
hash_cell-hash_example = hash_cell-hash digest untainted memory untainted-IsStored
