-- ===== src/Ttl.antt =====
-- pkg/controllers/nodeclaimttl/controller.go: the controller that ends a NodeClaim's life after a
-- time to live. Each call of the API server stands at most once in a run, so its answer is a field
-- of `Answers`; log lines are left out.
pub mod Tolerations
pub mod Scan
pub mod Affinity
pub mod Divergence
pub mod Pending
pub mod Decision
pub mod Keeping
pub mod Waiting
pub mod History
pub mod Sample
pub mod Tests
pub mod Lives
pub mod Watched
pub mod Queued
use Prim.Native.String.{◌++◌ as ◌+++◌}
use karpenter_provider_upclo.Base.{
  String, lookup, insert, get, Option, none, some, List, [], ◌∷◌, ◌++◌, Bool, true, false, not,
  ◌&&◌, ◌||◌, ◌==◌, if◌then◌else◌, any, Result, ok, err, map_err,
}
use karpenter_provider_upclo.Base.Int.{ℤ, ◌-ℤ◌, ltb_ℤ, saturate64, wrap64}
use karpenter_provider_upclo.Kube.{
  Error, wrapped, is_not_found, Taint, Toleration, Expression, Term, PodCondition, Pod, Node,
  NodeClaim, is_set, Requeue, no_requeue, requeue_after,
}
use karpenter_provider_upclo.Kube.Run.{Run, pure, fail, answer, attempt, ◌>>=◌, ◌>>◌}
use karpenter_provider_upclo.Api.{
  ttl_reset_annotation_key, decommissioning_taint_key, label_instance_type,
}

-- `time.Time.Format(time.RFC3339)`, which reads the host's zone, and `time.Parse(time.RFC3339, …)`.
pub record TimeFormat : Type 0 where
  pub format : ℤ → String
  pub parse : String → Option ℤ

pub is_daemon_set : Pod → Bool
is_daemon_set pod = any (λ kind. kind == "DaemonSet") pod.owner_kinds

pub keeps_busy : String → Pod → Bool
unfolding is_daemon_set
keeps_busy node_name p =
    p.node_name == node_name && (not (is_daemon_set p) && not (is_set p.deletion_timestamp))

pub has_non_ds_pods : List Pod → String → Bool
has_non_ds_pods pods node_name = any (keeps_busy node_name) pods

pub toleration_matches : Taint → List Toleration → Bool
toleration_matches taint [] = false
toleration_matches taint (t ∷ ts) =
    let rest = toleration_matches taint ts in
    if not (t.key == "") && not (t.key == taint.key)
    then rest
    else if not (t.effect == "") && not (t.effect == taint.effect)
    then rest
    else if t.operator == "Exists"
    then true
    else if t.value == taint.value
    then true
    else rest

pub pod_tolerates_node_taints : Pod → List Taint → Bool
pod_tolerates_node_taints pod [] = true
pod_tolerates_node_taints pod (taint ∷ taints) =
    let rest = pod_tolerates_node_taints pod taints in
    if not (taint.effect == "NoSchedule") && not (taint.effect == "NoExecute")
    then rest
    else if not (toleration_matches taint pod.tolerations)
    then false
    else rest

-- `slices.Contains(values, plan)`
pub has_value : String → List String → Bool
has_value plan values = any (λ v. v == plan) values

-- The loop over one term's expressions: (found, failed), where `break` ends it at once.
pub scan_expressions : String → List Expression → Bool → Bool × Bool
scan_expressions plan [] found = (found, false)
scan_expressions plan (e ∷ es) found =
    let skip = scan_expressions plan es found in
    let accept = scan_expressions plan es true in
    if not (e.key == label_instance_type)
    then skip
    else if e.operator == "In" || e.operator == "Exists"
    then (if e.operator == "In" && not (has_value plan e.values) then (true, true) else accept)
    else skip

-- The loop over the terms: whether it returns true.
pub scan_terms : String → List Term → Bool
unfolding scan_expressions
scan_terms plan [] = false
scan_terms plan (term ∷ terms) =
    let rest = scan_terms plan terms in
    let (found, failed) = scan_expressions plan term.expressions false in
    if not found then rest else if not failed then true else rest

pub names_instance_type : Term → Bool
names_instance_type term = any (λ e. e.key == label_instance_type) term.expressions

pub has_constraining_term : List Term → Bool
has_constraining_term = any names_instance_type

-- `nil` on the way to the terms, or no terms, leaves the pod unconstrained.
pub required_terms : Pod → Option (List Term)
required_terms pod = elim pod.affinity [
  | none ↦ none
  | some aff ↦ elim aff.node_affinity [ none ↦ none | some n ↦ n.required ]
]

pub affinity_allows : String → Option (List Term) → Bool
affinity_allows plan none = true
affinity_allows plan (some terms) =
    if scan_terms plan terms then true else not (has_constraining_term terms)

pub selector_rejects : String → Option String → Bool
selector_rejects plan none = false
selector_rejects plan (some v) = not (v == plan)

pub pod_fits_instance_type : Pod → String → Bool
unfolding selector_rejects affinity_allows required_terms
pod_fits_instance_type pod plan =
    if selector_rejects plan (lookup label_instance_type pod.node_selector)
    then false
    else affinity_allows plan (required_terms pod)

-- The loop over the pod's conditions: false where it returns.
pub conditions_allow : List PodCondition → Bool
conditions_allow [] = true
conditions_allow (c ∷ cs) =
    let rest = conditions_allow cs in
    if not (c.kind == "PodScheduled")
    then rest
    else if c.status == "True"
    then false
    else if not (c.reason == "Unschedulable")
    then false
    else rest

pub is_matching_pending : Pod → String → List Taint → Bool
is_matching_pending pod plan taints =
    if not (pod.phase == "Pending") || not (pod.node_name == "")
    then false
    else if not (conditions_allow pod.conditions)
    then false
    else if not (pod_fits_instance_type pod plan)
    then false
    else if not (pod_tolerates_node_taints pod taints)
    then false
    else true

-- A node without labels has an empty map.
pub instance_plan : Node → String
instance_plan node = get label_instance_type node.labels

pub has_matching_pending_pod : List Pod → Node → Bool
unfolding instance_plan
has_matching_pending_pod pods node =
    any (λ p. is_matching_pending p (instance_plan node) node.taints) pods

parsed_or : Option ℤ → ℤ → ℤ
parsed_or none created = created
parsed_or (some t) created = t

pub ttl_start : TimeFormat → NodeClaim → ℤ
unfolding parsed_or
ttl_start rfc3339 nc = elim (lookup ttl_reset_annotation_key nc.annotations) [
  | none ↦ nc.creation_timestamp
  | some v ↦ parsed_or (rfc3339.parse v) nc.creation_timestamp
]

-- The calls that change the cluster; a patch is the difference of two objects.
pub data Write : Type 0 where
  patch_claim : NodeClaim → NodeClaim → Write
  patch_node : Node → Node → Write
  delete_claim : NodeClaim → Write

pub record Answers : Type 0 where
  pub claim : Result Error NodeClaim
  pub now : ℤ
  pub pods : Result Error (List Pod)
  pub node : Result Error Node
  pub reset_now : ℤ
  pub patched : Result Error (Unit {0})
  pub tainted : Result Error (Unit {0})
  pub deleted : Result Error (Unit {0})

pub record Controller : Type 0 where
  pub ttl : ℤ
  pub rfc3339 : TimeFormat

pub reset_claim : Controller → Answers → NodeClaim → NodeClaim
reset_claim c a nc = record nc {
  annotations = insert ttl_reset_annotation_key (c.rfc3339.format a.reset_now) nc.annotations;
}

pub reset_ttl : Controller → Answers → NodeClaim → Run Write Error Requeue
reset_ttl c a nc = do
  attempt (patch_claim nc (reset_claim c a nc)) (map_err (wrapped "patching TTL reset") a.patched)
  pure (requeue_after c.ttl)

pub is_decommissioned : Node → Bool
is_decommissioned node = any (λ t. t.key == decommissioning_taint_key) node.taints

abbrev pub decommissioning_taint : Taint
decommissioning_taint = record {
  key = decommissioning_taint_key;
  value = "";
  effect = "NoSchedule";
}

pub decommissioned : Node → Node
decommissioned node = record node { taints = node.taints ++ (decommissioning_taint ∷ []) }

pub taint_node : Answers → Node → Run Write Error (Unit {0})
unfolding is_decommissioned decommissioned
taint_node a node =
    if is_decommissioned node
    then pure tt
    else attempt (patch_node node (decommissioned node)) a.tainted

pub decommission : Answers → NodeClaim → Node → Run Write Error Requeue
decommission a nc node = do
  record {
    writes = (taint_node a node).writes;
    result = map_err (wrapped ("tainting node " +++ nc.node_name)) (taint_node a node).result;
  }
  attempt (delete_claim nc) (map_err (wrapped "deleting NodeClaim") a.deleted)
  pure no_requeue

-- The paths behind the expired time to live.
pub expired : Controller → Answers → NodeClaim → Run Write Error Requeue
expired c a nc = do
  pods ← answer (map_err (wrapped "listing pods") a.pods)
  if has_non_ds_pods pods nc.node_name then reset_ttl c a nc else do
    node ← answer (map_err (wrapped ("getting node " +++ nc.node_name)) a.node)
    if has_matching_pending_pod pods node then reset_ttl c a nc else decommission a nc node

-- `time.Since(start)` stops at the ends of an int64; `c.TTL - elapsed` wraps.
pub elapsed : Controller → Answers → NodeClaim → ℤ
elapsed c a nc = saturate64 (a.now -ℤ ttl_start c.rfc3339 nc)

reconcile_claim : Controller → Answers → NodeClaim → Run Write Error Requeue
reconcile_claim c a nc =
    if is_set nc.deletion_timestamp || nc.node_name == ""
    then pure no_requeue
    else if ltb_ℤ (elapsed c a nc) c.ttl
    then pure (requeue_after (wrap64 (c.ttl -ℤ elapsed c a nc)))
    else expired c a nc

pub reconcile : Controller → Answers → Run Write Error Requeue
unfolding reconcile_claim
reconcile c a = elim a.claim [
  | err e ↦ if is_not_found e then pure no_requeue else fail e
  | ok nc ↦ reconcile_claim c a nc
]
