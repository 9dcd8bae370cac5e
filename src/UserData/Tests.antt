-- ===== src/UserData/Tests.antt =====
-- Small documents and their parts.
use karpenter_provider_upclo.Base.{◌≡◌, refl, ◌↔◌, [], ◌∷◌, some, false, ok}
use karpenter_provider_upclo.Base.Text.{Text, codes}
use karpenter_provider_upclo.UserData.Quoting.{unquote, outside, unquote-shell_single_quote}
use karpenter_provider_upclo.UserData.Document.{IsAccepted, generate_iff}
use karpenter_provider_upclo.UserData.{
  eq_text, is_control, validate_single_line, no_control, first_control, shell_single_quote,
  split_lines, indent_lines, indent_line, serialize_labels, serialize_taints_yaml, kubelet_config,
  document, generate, Options, TaintEntry, Encoder,
}

quoting_example : unquote outside (shell_single_quote (codes "a=it's")) ≡ some (codes "a=it's")
quoting_example = unquote-shell_single_quote (codes "a=it's")

abbrev two_lines : Text
two_lines = codes "kind: KubeletConfiguration\n\nregisterWithTaints: []\n"

label_accepted : validate_single_line "node labels" (codes "a=b") ≡ ok tt
unfolding validate_single_line karpenter_provider_upclo.UserData.Utf8.decode first_control
    is_control
label_accepted = refl

abbrev print_keys : Encoder
print_keys ts = ok (codes "registerWithTaints: []")

abbrev options : Options
options = record {
  cluster_endpoint = codes "https://10.0.0.1:6443";
  ca_cert_pem = codes "CA";
  kubelet_client_cert = codes "CERT";
  kubelet_client_key = codes "KEY";
  labels = (codes "zone", codes "fi-hel1") ∷ (codes "arch", codes "amd64") ∷ [];
  taints =
      record { key = codes "karpenter.sh/unregistered"; value = []; effect = codes "NoExecute" }
      ∷ [];
}

abbrev expected : Text
expected =
    document options (codes "arch=amd64,zone=fi-hel1")
      (kubelet_config (codes "registerWithTaints: []"))

generate_example : (generate print_keys options ≡ ok expected) ↔ (
    IsAccepted options
    × ((taints : Text) × (serialize_taints_yaml print_keys options.taints ≡ ok taints)
        × (document options (serialize_labels options.labels) (kubelet_config taints) ≡ expected)))
generate_example = generate_iff print_keys options expected

abbrev zone_label : Text × Text
zone_label = (codes "zone", codes "fi-hel1")

abbrev arch_label : Text × Text
arch_label = (codes "arch", codes "amd64")

different_keys : eq_text (codes "zone") (codes "arch") ≡ false
unfolding eq_text
different_keys = refl
