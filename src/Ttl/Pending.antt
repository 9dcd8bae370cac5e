-- ===== src/Ttl/Pending.antt =====
-- Which pending pods let a node live on.

use karpenter_provider_upclo.Base.{
  String, ◌≡◌, refl, ◌≢◌, ◌↔◌, inl, inr, true, false, ◌==◌, eq_iff, List, [], ◌∷◌, All, Any, any,
  any_sound, any_complete, Any-map, Bool-cases, arith,
}
use karpenter_provider_upclo.Kube.{PodCondition, Pod, Taint, is_set}
use karpenter_provider_upclo.Ttl.{has_non_ds_pods, keeps_busy}
use karpenter_provider_upclo.Ttl.Affinity.{Fits}
use karpenter_provider_upclo.Ttl.Tolerations.{IsOperator, Covered}

-- A PodScheduled condition says that the scheduler found no node.
abbrev pub Waits : PodCondition → Type 0
Waits c = c.kind ≡ "PodScheduled" → (c.status ≢ "True") × (c.reason ≡ "Unschedulable")

-- A pod that the scheduler could place on a node with this plan and these taints.
pub record Reuses (pod : Pod) (plan : String) (taints : List Taint) : Type 0 where
  pub phase : pod.phase ≡ "Pending"
  pub unplaced : pod.node_name ≡ ""
  pub waits : All Waits pod.conditions
  pub fits : Fits pod plan
  pub tolerates : All (Covered pod) taints

abbrev pub HasOperators : Pod → Type 0
HasOperators pod = All IsOperator pod.tolerations

-- A pod that keeps a node busy.
pub record Busy (node_name : String) (pod : Pod) : Type 0 where
  pub runs_there : pod.node_name ≡ node_name
  pub no_daemon : All (λ (kind : String). kind ≢ "DaemonSet") pod.owner_kinds
  pub stays : is_set pod.deletion_timestamp ≡ false

no_daemon_sound :
    (kinds : List String)
    → any (λ kind. kind == "DaemonSet") kinds ≡ false
    → All (λ (kind : String). kind ≢ "DaemonSet") kinds
unfolding any
no_daemon_sound [] h = tt
no_daemon_sound (k ∷ ks) h =
    (λ e. ground (arith, eq_iff k "DaemonSet"), no_daemon_sound ks (ground arith))

no_daemon_complete :
    (kinds : List String)
    → All (λ (kind : String). kind ≢ "DaemonSet") kinds
    → any (λ kind. kind == "DaemonSet") kinds ≡ false
unfolding any
no_daemon_complete [] h = refl
no_daemon_complete (k ∷ ks) h = elim (Bool-cases (k == "DaemonSet")) [
  | inl e ↦ absurd (h.0 ((eq_iff k "DaemonSet").0 e))
  | inr e ↦ ground (arith, no_daemon_complete ks h.1)
]

Busy-sound : (node_name : String) (pod : Pod) → keeps_busy node_name pod ≡ true → Busy node_name pod
unfolding keeps_busy
Busy-sound node_name pod h = record {
  runs_there = ground (arith, eq_iff pod.node_name node_name);
  no_daemon = no_daemon_sound pod.owner_kinds (ground arith);
  stays = ground arith;
}

Busy-complete :
    (node_name : String) (pod : Pod) → Busy node_name pod → keeps_busy node_name pod ≡ true
unfolding keeps_busy
Busy-complete node_name pod b = ground (
  arith,
  b.runs_there,
  eq_iff pod.node_name node_name,
  no_daemon_complete pod.owner_kinds b.no_daemon,
  b.stays,
)

-- `hasNonDSPods` returns true exactly when one of the pods runs on the node, is owned by no
-- DaemonSet and is not being deleted.
pub has_non_ds_pods_iff :
    (pods : List Pod) (node_name : String)
    → (has_non_ds_pods pods node_name ≡ true) ↔ Any (Busy node_name) pods
unfolding has_non_ds_pods
has_non_ds_pods_iff pods node_name = (
  λ h. Any-map (Busy-sound node_name) (any_sound _ pods h),
  λ m. any_complete _ pods (Any-map (Busy-complete node_name) m),
)
