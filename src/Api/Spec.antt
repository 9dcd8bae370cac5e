-- ===== src/Api/Spec.antt =====
-- apis/v1alpha2/upcloudnodeclass_types.go and upcloudnodeclass_hash.go: the specification of a
-- node class, and its hash. A nil slice or map is `none`. `hashstructure.Hash`, with its options,
-- is the argument `digest`, which returns a uint64 or an error.
use Prim.Native.String.{◌++◌ as ◌+++◌}
use karpenter_provider_upclo.Base.{
  String, ℕ, zero, suc, ◌/◌, ◌%◌, Dict, Option, none, some, List, [], ◌∷◌, Bool, nat_eq,
  if◌then◌else◌,
}
use karpenter_provider_upclo.Base.Int.{ℤ}
use karpenter_provider_upclo.Kube.{Taint}

pub record StorageSpec : Type 0 where
  pub size : ℤ
  pub tier : String
  pub encrypted : Option Bool

-- upcloud.KubernetesKubeletArg; upcloud.KubernetesTaint has the fields of a taint.
pub record KubeletArg : Type 0 where
  pub key : String
  pub value : String

pub record Spec : Type 0 where
  pub zone : String
  pub plan : String
  pub storage : Option StorageSpec
  pub ssh_keys : Option (List String)
  pub kubelet_args : Option (List KubeletArg)
  pub labels : Option (Dict String)
  pub taints : Option (List Taint)
  pub server_group_uuid : String
  pub utility_network_access : Option Bool

-- `if len(xs) == 0 { xs = nil }`
unfoldable pub nil_if_empty {ℓ} : {A : Type ℓ} → Option (List A) → Option (List A)
nil_if_empty none = none
nil_if_empty (some []) = none
nil_if_empty (some (x ∷ xs)) = some (x ∷ xs)

unfoldable pub normalised : Spec → Spec
unfolding nil_if_empty
normalised spec = record spec {
  ssh_keys = nil_if_empty spec.ssh_keys;
  kubelet_args = nil_if_empty spec.kubelet_args;
  labels = nil_if_empty spec.labels;
  taints = nil_if_empty spec.taints;
}

unfoldable pub hex_digit : ℕ → String
hex_digit n =
    if nat_eq n 0
    then "0"
    else if nat_eq n 1
    then "1"
    else if nat_eq n 2
    then "2"
    else if nat_eq n 3
    then "3"
    else if nat_eq n 4
    then "4"
    else if nat_eq n 5
    then "5"
    else if nat_eq n 6
    then "6"
    else if nat_eq n 7
    then "7"
    else if nat_eq n 8
    then "8"
    else if nat_eq n 9
    then "9"
    else if nat_eq n 10
    then "a"
    else if nat_eq n 11
    then "b"
    else if nat_eq n 12
    then "c"
    else if nat_eq n 13
    then "d"
    else if nat_eq n 14
    then "e"
    else "f"

-- The last `width` hexadecimal digits, with leading zeros.
unfoldable pub hex : ℕ → ℕ → String
hex zero n = ""
hex (suc width) n = hex width (n / 16) +++ hex_digit (n % 16)

unfoldable pub formatted : Option ℕ → String
formatted none = ""
formatted (some h) = hex 16 h

-- `fmt.Sprintf("%016x", h)` of the digest of the normalised specification; "" on an error.
unfoldable pub hash : (Spec → Option ℕ) → Spec → String
unfolding formatted normalised
hash digest spec = formatted (digest (normalised spec))
