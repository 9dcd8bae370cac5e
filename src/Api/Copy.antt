-- ===== src/Api/Copy.antt =====
-- apis/v1alpha2/zz_generated.deepcopy.go: the deep copies of a node class, over a memory in which the
-- pointers, slices and maps of upcloudnodeclass_types.go are addresses. The copies of metadata and of one
-- condition are functions of the library, and arguments here; so metadata and conditions are values.
pub mod Cells
pub mod Contents
pub mod Fresh
pub mod Lists
pub mod Apart
pub mod Hashed
pub mod Tests
use karpenter_provider_upclo.Base.{
  String, ℕ, Dict, insert, Bool, false, Option, none, some, List, [], ◌∷◌, length,
}
use karpenter_provider_upclo.Base.Int.{ℤ}
use karpenter_provider_upclo.Base.Memory.{Store, allocate, write, shown}
use karpenter_provider_upclo.Kube.{Taint}
use karpenter_provider_upclo.Api.Spec.{StorageSpec, KubeletArg, Spec}
use karpenter_provider_upclo.Api.Conditions.{MetaCondition, no_meta, Status, zeros, copy_from}

-- v1alpha2.StorageSpec in memory: `encrypted` is a pointer.
pub record StorageCell : Type 0 where
  pub size : ℤ
  pub tier : String
  pub encrypted : Option ℕ

-- The cells that a node class points to, by their type.
pub record Memory : Type 0 where
  pub texts : Store (List String)
  pub args : Store (List KubeletArg)
  pub maps : Store (Dict String)
  pub taints : Store (List Taint)
  pub flags : Store Bool
  pub storages : Store StorageCell
  pub conditions : Store (List MetaCondition)

-- v1alpha2.UpCloudNodeClassSpec in memory
pub record SpecCell : Type 0 where
  pub zone : String
  pub plan : String
  pub storage : Option ℕ
  pub ssh_keys : Option ℕ
  pub kubelet_args : Option ℕ
  pub labels : Option ℕ
  pub taints : Option ℕ
  pub server_group_uuid : String
  pub utility_network_access : Option ℕ

-- v1alpha2.UpCloudNodeClassStatus in memory
pub record StatusCell : Type 0 where
  pub conditions : Option ℕ
  pub hash : String

-- v1alpha2.UpCloudNodeClass in memory, with metadata of any type
pub record ClassCell (M : Type 0) : Type 0 where
  pub meta : M
  pub spec : SpecCell
  pub status : StatusCell

-- v1alpha2.UpCloudNodeClassList; the array of the copy is a new one.
pub record ListCell (M : Type 0) : Type 0 where
  pub list_meta : M
  pub items : Option (List (ClassCell M))

module _ {A : Type 0} where
  -- The built-in `copy(dst, src)`: the elements of `dst` after it.
  unfoldable pub copied : List A → List A → List A
  copied [] src = []
  copied (d ∷ ds) [] = d ∷ ds
  copied (d ∷ ds) (x ∷ xs) = x ∷ copied ds xs

  -- `if in != nil { *out = make([]T, len(*in)); copy(*out, *in) }`
  unfoldable pub copy_slice : A → Option ℕ → Store (List A) → Option ℕ × Store (List A)
  unfolding zeros copied allocate write
  copy_slice z none s = (none, s)
  copy_slice z (some p) s =
      let (q, t) = allocate (zeros z (length (s.cell p))) s in
      (some q, write q (copied (t.cell q) (t.cell p)) t)

  -- `for key, val := range *in { (*out)[key] = val }`
  unfoldable pub put_all : Dict A → Dict A → Dict A
  put_all [] out = out
  put_all ((key, val) ∷ rest) out = put_all rest (insert key val out)

  unfoldable pub copy_map : Option ℕ → Store (Dict A) → Option ℕ × Store (Dict A)
  unfolding put_all allocate write
  copy_map none s = (none, s)
  copy_map (some p) s =
      let (q, t) = allocate [] s in (some q, write q (put_all (t.cell p) (t.cell q)) t)

  -- `for i := range *in { (*in)[i].DeepCopyInto(&(*out)[i]) }` into a new array
  unfoldable pub copy_each : A → (A → A) → Option ℕ → Store (List A) → Option ℕ × Store (List A)
  unfolding zeros copy_from allocate write
  copy_each z f none s = (none, s)
  copy_each z f (some p) s =
      let (q, t) = allocate (zeros z (length (s.cell p))) s in
      (some q, write q (copy_from 0 f (t.cell p) (t.cell q)) t)

-- `if in != nil { *out = new(bool); **out = **in }`
unfoldable pub copy_flag : Option ℕ → Store Bool → Option ℕ × Store Bool
unfolding allocate write
copy_flag none s = (none, s)
copy_flag (some p) s = let (q, t) = allocate false s in (some q, write q (t.cell p) t)

abbrev no_arg : KubeletArg
no_arg = record { key = ""; value = "" }

abbrev no_taint : Taint
no_taint = record { key = ""; value = ""; effect = "" }

-- UpCloudNodeClassSpec.DeepCopyInto. The fields that it does not name, `storage` among them, are those of
-- `*out = *in`.
unfoldable pub copy_spec : SpecCell → Memory → SpecCell × Memory
unfolding copy_slice copy_map copy_flag
copy_spec s m =
    let (ssh_keys, texts) = copy_slice "" s.ssh_keys m.texts in
    let (kubelet_args, args) = copy_slice no_arg s.kubelet_args m.args in
    let (labels, maps) = copy_map s.labels m.maps in
    let (taints, taint_store) = copy_slice no_taint s.taints m.taints in
    let (access, flags) = copy_flag s.utility_network_access m.flags in
    (
      record s {
        ssh_keys = ssh_keys;
        kubelet_args = kubelet_args;
        labels = labels;
        taints = taints;
        utility_network_access = access;
      },
      record m { texts = texts; args = args; maps = maps; taints = taint_store; flags = flags },
    )

-- The four `DeepCopy` and the two `DeepCopyObject`: nil gives nil.
unfoldable pub deep_copy :
    {A : Type 0} → (A → Memory → A × Memory) → Option A → Memory → Option A × Memory
deep_copy copy_into none m = (none, m)
deep_copy copy_into (some a) m = let (b, t) = copy_into a m in (some b, t)

module _ (copy_condition : MetaCondition → MetaCondition) where
  -- UpCloudNodeClassStatus.DeepCopyInto
  unfoldable pub copy_status : StatusCell → Memory → StatusCell × Memory
  unfolding copy_each
  copy_status s m =
      let (conditions, store) = copy_each no_meta copy_condition s.conditions m.conditions in
      (record s { conditions = conditions }, record m { conditions = store })

  module _ {M : Type 0} (copy_meta : M → M) where
    -- UpCloudNodeClass.DeepCopyInto
    unfoldable pub copy_class : ClassCell M → Memory → ClassCell M × Memory
    unfolding copy_spec copy_status
    copy_class c m =
        let (spec, m1) = copy_spec c.spec m in
        let (status, m2) = copy_status c.status m1 in
        (record { meta = copy_meta c.meta; spec = spec; status = status }, m2)

    unfoldable pub copy_items : List (ClassCell M) → Memory → List (ClassCell M) × Memory
    unfolding copy_class
    copy_items [] m = ([], m)
    copy_items (c ∷ cs) m =
        let (d, m1) = copy_class c m in let (ds, m2) = copy_items cs m1 in (d ∷ ds, m2)

    -- `if in.Items != nil { … }`
    unfoldable pub copy_array :
        Option (List (ClassCell M)) → Memory → Option (List (ClassCell M)) × Memory
    unfolding copy_items
    copy_array none m = (none, m)
    copy_array (some cs) m = let (ds, t) = copy_items cs m in (some ds, t)

    -- UpCloudNodeClassList.DeepCopyInto
    unfoldable pub copy_list : ListCell M → Memory → ListCell M × Memory
    unfolding copy_array
    copy_list l m =
        let (items, t) = copy_array l.items m in
        (record { list_meta = copy_meta l.list_meta; items = items }, t)
