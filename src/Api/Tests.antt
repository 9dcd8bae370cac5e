-- ===== src/Api/Tests.antt =====
-- Hashes of concrete specifications.
use Prim.Native.String.{count}
use karpenter_provider_upclo.Base.{◌≡◌, refl, ◌↔◌, ℕ, Option, none, some, [], arith}
use karpenter_provider_upclo.Api.Spec.{Spec, hash}
use karpenter_provider_upclo.Api.Hash.{hash_iff, SameSpec, equal, empty}

abbrev spec_1 : Spec
spec_1 = record {
  zone = "de-fra1";
  plan = "2xCPU-4GB";
  storage = none;
  ssh_keys = none;
  kubelet_args = none;
  labels = none;
  taints = none;
  server_group_uuid = "";
  utility_network_access = none;
}

abbrev spec_2 : Spec
spec_2 = record spec_1 { ssh_keys = some []; labels = some [] }

abbrev digest : Spec → Option ℕ
digest s = some 255

hash_example :
    ((hash digest spec_1 ≡ hash digest spec_2) ↔ ◌≡◌ {A = ℕ} 255 255)
    × (count (hash digest spec_1) ≡ 16)
hash_example = hash_iff digest spec_1 spec_2 255 255 refl refl (omega arith) (omega arith)

same_1 : SameSpec spec_1 spec_2
same_1 = record {
  zone = refl;
  plan = refl;
  storage = refl;
  ssh_keys = empty tt tt;
  kubelet_args = equal refl;
  labels = empty tt tt;
  taints = equal refl;
  server_group_uuid = refl;
  utility_network_access = refl;
}
