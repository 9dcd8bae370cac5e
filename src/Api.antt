-- ===== src/Api.antt =====
-- apis/v1alpha2: the constants of annotations.go, constants.go, finalizers.go, labels.go and
-- upcloudnodeclass_hash.go, and the labels of Kubernetes and Karpenter that the program uses.
pub mod Spec
pub mod Hash
pub mod Conditions
pub mod Copy
pub mod Tests
use karpenter_provider_upclo.Base.{String}

abbrev pub ttl_reset_annotation_key : String
ttl_reset_annotation_key = "karpenter.k8s.upcloud/ttl-reset-at"

abbrev pub decommissioning_taint_key : String
decommissioning_taint_key = "karpenter.k8s.upcloud/decommissioning"

abbrev pub provider_id_prefix : String
provider_id_prefix = "upcloud:////"

abbrev pub resource_nvidia_gpu : String
resource_nvidia_gpu = "nvidia.com/gpu"

abbrev pub node_class_drifted : String
node_class_drifted = "NodeClassDrifted"

abbrev pub node_class_finalizer : String
node_class_finalizer = "upcloud.com/nodeclass-finalizer"

abbrev pub label_instance_family : String
label_instance_family = "karpenter.k8s.upcloud/instance-family"

abbrev pub label_instance_cpu : String
label_instance_cpu = "karpenter.k8s.upcloud/instance-cpu"

abbrev pub label_instance_memory : String
label_instance_memory = "karpenter.k8s.upcloud/instance-memory"

abbrev pub label_instance_storage_size : String
label_instance_storage_size = "karpenter.k8s.upcloud/instance-storage-size"

abbrev pub label_instance_gpu_count : String
label_instance_gpu_count = "karpenter.k8s.upcloud/instance-gpu-count"

abbrev pub label_instance_gpu_model : String
label_instance_gpu_model = "karpenter.k8s.upcloud/instance-gpu-model"

abbrev pub server_managed_label_key : String
server_managed_label_key = "managed_by"

abbrev pub server_managed_label_value : String
server_managed_label_value = "karpenter"

abbrev pub server_cluster_id_label_key : String
server_cluster_id_label_key = "capu_cluster_id"

abbrev pub server_cluster_name_label_key : String
server_cluster_name_label_key = "capu_cluster_name"

abbrev pub server_generated_name_label_key : String
server_generated_name_label_key = "capu_generated_name"

abbrev pub hash_annotation_key : String
hash_annotation_key = "karpenter.k8s.upcloud/nodeclass-hash"

abbrev pub hash_version_annotation_key : String
hash_version_annotation_key = "karpenter.k8s.upcloud/nodeclass-hash-version"

abbrev pub hash_version : String
hash_version = "v2"

-- corev1.LabelInstanceTypeStable and its neighbours
abbrev pub label_instance_type : String
label_instance_type = "node.kubernetes.io/instance-type"

abbrev pub label_arch : String
label_arch = "kubernetes.io/arch"

abbrev pub label_os : String
label_os = "kubernetes.io/os"

abbrev pub label_zone : String
label_zone = "topology.kubernetes.io/zone"

abbrev pub capacity_type_label_key : String
capacity_type_label_key = "karpenter.sh/capacity-type"

abbrev pub capacity_type_spot : String
capacity_type_spot = "spot"

abbrev pub capacity_type_on_demand : String
capacity_type_on_demand = "on-demand"
