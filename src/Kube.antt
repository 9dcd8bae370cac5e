-- ===== src/Kube.antt =====
-- The objects of Kubernetes and Karpenter that the program handles, with the fields that it reads
-- or writes. They are declared by k8s.io/api and sigs.k8s.io/karpenter; enumerations that Go
-- declares as string types are texts here too, since the API server hands any text over.
pub mod Queue
pub mod Run
pub mod Step
pub mod Kept
use karpenter_provider_upclo.Base.{
  String, Dict, Option, none, some, List, Bool, true, false, ◌≡◌, ◌==◌, not,
}
use karpenter_provider_upclo.UserData
use karpenter_provider_upclo.Base.Int.{ℤ, pos}

-- k8s.io/apimachinery's error reasons that the program tells apart.
pub data Reason : Type 0 where
  not_found conflict other_reason : Reason

-- A Go `error`: one of the API server, one of the UpCloud API (its text), a text of the program's
-- own, one of the user data, the wrapping by `fmt.Errorf("…: %w", err)`, and Karpenter's two error types.
pub data Error : Type 0 where
  status : Reason → Error
  service : String → Error
  failed : String → Error
  invalid_userdata : UserData.Error → Error
  wrapped : String → Error → Error
  node_claim_not_found insufficient_capacity : Error → Error

-- apierrors.IsNotFound and IsConflict look through `%w`.
unfoldable pub reason : Error → Reason
reason (status r) = r
reason (wrapped s e) = reason e
reason (node_claim_not_found e) = reason e
reason (insufficient_capacity e) = reason e
reason _ = other_reason

unfoldable pub is_not_found : Error → Bool
unfolding reason
is_not_found e = elim (reason e) [ not_found ↦ true | _ ↦ false ]

unfoldable pub is_conflict : Error → Bool
unfolding reason
is_conflict e = elim (reason e) [ conflict ↦ true | _ ↦ false ]

-- cloudprovider.IsNodeClaimNotFoundError looks through `%w` too.
unfoldable pub is_node_claim_not_found : Error → Bool
is_node_claim_not_found (node_claim_not_found e) = true
is_node_claim_not_found (wrapped s e) = is_node_claim_not_found e
is_node_claim_not_found (insufficient_capacity e) = is_node_claim_not_found e
is_node_claim_not_found _ = false

-- corev1.Taint and Toleration
pub record Taint : Type 0 where
  pub key : String
  pub value : String
  pub effect : String

pub record Toleration : Type 0 where
  pub key : String
  pub operator : String
  pub value : String
  pub effect : String

-- corev1.NodeSelectorRequirement; a NodeSelectorTerm is here its MatchExpressions.
pub record Expression : Type 0 where
  pub key : String
  pub operator : String
  pub values : List String

pub record Term : Type 0 where
  pub expressions : List Expression

-- `required` is nodeAffinity.requiredDuringSchedulingIgnoredDuringExecution.nodeSelectorTerms.
pub record NodeAffinity : Type 0 where
  pub required : Option (List Term)

pub record Affinity : Type 0 where
  pub node_affinity : Option NodeAffinity

pub record PodCondition : Type 0 where
  pub kind : String
  pub status : String
  pub reason : String

-- An unset timestamp is `none`.
pub record Pod : Type 0 where
  pub owner_kinds : List String
  pub deletion_timestamp : Option ℤ
  pub node_name : String
  pub node_selector : Dict String
  pub affinity : Option Affinity
  pub tolerations : List Toleration
  pub phase : String
  pub conditions : List PodCondition

pub record Node : Type 0 where
  pub name : String
  pub labels : Dict String
  pub taints : List Taint

pub record Condition : Type 0 where
  pub kind : String
  pub status : String

pub record Requirement : Type 0 where
  pub key : String
  pub values : List String

-- karpv1.NodeClaim; `node_class_ref` is the name in the reference.
pub record NodeClaim : Type 0 where
  pub name : String
  pub uid : String
  pub labels : Dict String
  pub annotations : Dict String
  pub creation_timestamp : ℤ
  pub deletion_timestamp : Option ℤ
  pub node_class_ref : Option String
  pub requirements : List Requirement
  pub taints : List Taint
  pub provider_id : String
  pub node_name : String
  pub capacity : Dict ℤ
  pub allocatable : Dict ℤ
  pub conditions : List Condition

-- The value that Go makes of `&karpv1.NodeClaim{}`.
abbrev pub empty_claim : NodeClaim
empty_claim = record {
  name = "";
  uid = "";
  labels = List.[];
  annotations = List.[];
  creation_timestamp = pos 0;
  deletion_timestamp = none;
  node_class_ref = none;
  requirements = List.[];
  taints = List.[];
  provider_id = "";
  node_name = "";
  capacity = List.[];
  allocatable = List.[];
  conditions = List.[];
}

-- `!t.IsZero()`
abbrev pub is_set : Option ℤ → Bool
is_set none = false
is_set (some t) = true

-- reconcile.Result
pub record Requeue : Type 0 where
  pub again : Bool
  pub after : ℤ

abbrev pub no_requeue : Requeue
no_requeue = record { again = false; after = pos 0 }

abbrev pub requeue_after : ℤ → Requeue
requeue_after d = record { again = false; after = d }
