-- ===== src/NodeController/Written.antt =====
-- What a successful updateStatusWithRetry of internal/controller/opnode_controller.go has written.
use mathlib.Core.Path.{ap₂}
use op_stack_operator.Prelude.{◌≡◌, refl, sym, ap, Option, none, some, List, [], ◌∷◌, map}
use op_stack_operator.Api.Meta.{Condition}
use op_stack_operator.Api.Node.{OpNode, OpNodeStatus, NodeInfo}
use op_stack_operator.Resources.Pod.{or_pointer}
use op_stack_operator.Runtime.{Result, ok, err, or_return}
use op_stack_operator.Cluster.{Cluster, Retried, last, again, RetriesConflicts}
use op_stack_operator.NodeController.Status.{
  copy_condition, copy_node_info, copy_status, write_status, update_status_with_retry,
}

-- A copy of what a pointer points to.
copied :
    {A : Type 0} (f : A → A) (o : Option A)
    → ((a : A) → f a ≡ a)
    → elim o [ none ↦ none | some a ↦ some (f a) ] ≡ o
copied f none h = refl
copied f (some a) h = ap some (h a)

copy_node_info-id : (info : NodeInfo) → copy_node_info info ≡ info
unfolding copy_node_info
copy_node_info-id info =
    ap₂ (λ h s. record info { chain_head = h; sync_status = s })
      (copied (λ h. h) info.chain_head (λ h. refl)) (copied (λ s. s) info.sync_status (λ s. refl))

pub copy_conditions-id : (conditions : List Condition) → map copy_condition conditions ≡ conditions
unfolding copy_condition
copy_conditions-id [] = refl
copy_conditions-id (c ∷ conditions) = ap (λ cs. c ∷ cs) (copy_conditions-id conditions)

-- The status that is written, without the copies.
abbrev pub merged_status : OpNodeStatus → OpNodeStatus → OpNodeStatus
merged_status status latest = record status {
  node_info = or_pointer status.node_info latest.node_info;
}

node_info_lem :
    (new old : Option NodeInfo)
    → elim new [ none ↦ old | some info ↦ some (copy_node_info info) ] ≡ or_pointer new old
node_info_lem none old = refl
node_info_lem (some info) old = ap some (copy_node_info-id info)

copy_status-eq-merged_status :
    (status latest : OpNodeStatus) → copy_status status latest ≡ merged_status status latest
unfolding copy_status
copy_status-eq-merged_status status latest =
    ap₂ (λ cs info. record status { conditions = cs; node_info = info })
      (copy_conditions-id status.conditions) (node_info_lem status.node_info latest.node_info)

module _ {W EthClient Q : Type 0} (cluster : Cluster W EthClient Q) (op_node : OpNode Q) where
  -- The last attempt: the object read, and the update of it that succeeded.
  abbrev pub Wrote : Result (Unit {0}) × W → Type 0
  Wrote (ok _, w') =
      (latest : OpNode Q) × (v u : W) × (cluster.op_nodes.get
          (record { name = op_node.meta.name; namespace = op_node.meta.namespace }) v
        ≡ (ok latest, u))
      × (cluster.op_nodes.update_status
            (record latest { status = merged_status op_node.status latest.status }) u
          ≡ (ok tt, w'))
  Wrote (err _, w') = Unit

  updated-Wrote :
      (latest : OpNode Q) (v u : W) (run : Result (Unit {0}) × W)
      → cluster.op_nodes.get
          (record { name = op_node.meta.name; namespace = op_node.meta.namespace })
          v
        ≡ (ok latest, u)
      → cluster.op_nodes.update_status
          (record latest { status = merged_status op_node.status latest.status })
          u
        ≡ run
      → Wrote run
  updated-Wrote latest v u (ok _, w') read written = (latest, v, u, read, written)
  updated-Wrote latest v u (err e, w') read written = tt

  read-Wrote :
      (found : Result (OpNode Q)) (v u : W)
      → cluster.op_nodes.get
          (record { name = op_node.meta.name; namespace = op_node.meta.namespace })
          v
        ≡ (found, u)
      → Wrote (
          or_return found
            (λ latest.
              cluster.op_nodes.update_status
                (record latest { status = copy_status op_node.status latest.status }))
            u)
  read-Wrote (err e) v u read = tt
  read-Wrote (ok latest) v u read = updated-Wrote latest v u _ read (
      ap (λ s. cluster.op_nodes.update_status (record latest { status = s }) u)
        (sym (copy_status-eq-merged_status op_node.status latest.status)))

  write_status-Wrote : (w : W) → Wrote (write_status cluster op_node w)
  unfolding write_status
  write_status-Wrote w =
      let (found, u) =
        cluster.op_nodes.get
          (record { name = op_node.meta.name; namespace = op_node.meta.namespace }) w in
      read-Wrote found w u refl

  Retried-Wrote :
      (w : W) (run : Result (Unit {0}) × W)
      → Retried cluster.backoff (write_status cluster op_node) w run
      → Wrote run
  Retried-Wrote w run (last) = write_status-Wrote w
  Retried-Wrote w run (again _ _ rest) = Retried-Wrote _ run rest

  -- Where updateStatusWithRetry succeeds, and RetryOnConflict repeats a call only behind a
  -- conflict, its last call updated the status of the object that the call before it read:
  -- metadata and specification are those read, and so is the node information where the OpNode has
  -- none; phase, observed generation and conditions are the OpNode's.
  pub update_status_with_retry-Wrote :
      RetriesConflicts cluster → (w : W) → Wrote (update_status_with_retry cluster op_node w)
  unfolding update_status_with_retry
  update_status_with_retry-Wrote retries w =
      Retried-Wrote w _ (retries (write_status cluster op_node) w)
