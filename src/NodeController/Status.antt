-- ===== src/NodeController/Status.antt =====
-- The status of an OpNode: the phases, updateNodeStatus, updateStatusWithRetry and handleDeletion
-- of internal/controller/opnode_controller.go, and what its calls of utils.SetCondition do to it.
use op_stack_operator.Prelude.{String, true, false, none, some, map, on_some}
use op_stack_operator.Prelude.Int.{pos}
use op_stack_operator.Api.Meta.{Condition, ConditionStatus}
use op_stack_operator.Api.Node.{OpNode, OpNodeStatus, NodeInfo, SyncStatusInfo}
use op_stack_operator.Conditions.{set_condition}
use op_stack_operator.Runtime.{Result, ok, Eff, pure, ◌>>=◌, or_return}
use op_stack_operator.Cluster.{Cluster, Outcome}

abbrev pub op_node_finalizer : String
op_node_finalizer = "opnode.optimism.io/finalizer"

abbrev pub phase_pending : String
phase_pending = "Pending"

abbrev pub phase_initializing : String
phase_initializing = "Initializing"

abbrev pub phase_running : String
phase_running = "Running"

abbrev pub phase_error : String
phase_error = "Error"

-- Deep copies, field by field.
unfoldable pub copy_condition : Condition → Condition
copy_condition c = record {
  type = c.type;
  status = c.status;
  reason = c.reason;
  message = c.message;
  last_transition_time = c.last_transition_time;
  observed_generation = c.observed_generation;
}

unfoldable pub copy_node_info : NodeInfo → NodeInfo
copy_node_info info = record {
  peer_count = info.peer_count;
  engine_connected = info.engine_connected;
  sync_status = elim info.sync_status [
    | none ↦ none
    | some s ↦ some (record {
      current_block = s.current_block;
      highest_block = s.highest_block;
      syncing = s.syncing;
    })
  ];
  chain_head = elim info.chain_head [
    | none ↦ none
    | some h ↦ some (record {
      block_number = h.block_number;
      block_hash = h.block_hash;
      timestamp = h.timestamp;
    })
  ];
}

-- What updateStatusWithRetry writes into the latest version of the object.
unfoldable pub copy_status : OpNodeStatus → OpNodeStatus → OpNodeStatus
unfolding copy_condition copy_node_info
copy_status status latest = record {
  phase = status.phase;
  observed_generation = status.observed_generation;
  conditions = map copy_condition status.conditions;
  node_info = elim status.node_info [
    | none ↦ latest.node_info
    | some info ↦ some (copy_node_info info)
  ];
}

abbrev pub no_node_info : NodeInfo
no_node_info = record {
  chain_head = none;
  sync_status = none;
  peer_count = pos 0;
  engine_connected = false;
}

abbrev pub no_sync_status : SyncStatusInfo
no_sync_status = record { current_block = pos 0; highest_block = pos 0; syncing = false }

unfoldable pub update_node_info : NodeInfo → NodeInfo
update_node_info info = record info {
  engine_connected = true;
  peer_count = pos 0;
  sync_status = some (on_some info.sync_status no_sync_status (λ s. record s { syncing = false }));
}

module _ {Q : Type 0} where
  unfoldable pub update_node_status : OpNode Q → OpNode Q
  unfolding update_node_info
  update_node_status op_node = record op_node {
    status = record op_node.status {
      node_info = some (update_node_info (on_some op_node.status.node_info no_node_info (λ i. i)));
    };
  }

  -- opNode.Status.Phase = phase
  abbrev pub with_phase : String → OpNode Q → OpNode Q
  with_phase phase op_node = record op_node { status = record op_node.status { phase = phase } }

  -- opNode.Status.ObservedGeneration = opNode.Generation
  abbrev pub observed : OpNode Q → OpNode Q
  observed op_node = record op_node {
    status = record op_node.status { observed_generation = op_node.meta.generation };
  }

module _ {W EthClient Q : Type 0} (cluster : Cluster W EthClient Q) where
  -- One attempt of updateStatusWithRetry.
  unfoldable pub write_status : OpNode Q → Eff W (Result (Unit {0}))
  unfolding copy_status
  write_status op_node = do
    found ←
        cluster.op_nodes.get
          (record { name = op_node.meta.name; namespace = op_node.meta.namespace })
    or_return found λ latest.
        cluster.op_nodes.update_status
          (record latest { status = copy_status op_node.status latest.status })

  unfoldable pub update_status_with_retry : OpNode Q → Eff W (Result (Unit {0}))
  unfolding write_status
  update_status_with_retry op_node = cluster.retry_on_conflict (write_status op_node)

  unfoldable pub handle_deletion : OpNode Q → Eff W (Result Outcome)
  handle_deletion op_node = do
    updated ←
        cluster.op_nodes.update
          (record op_node { meta = cluster.remove_finalizer op_node.meta op_node_finalizer })
    or_return updated λ _. pure (ok (record { requeue = false; requeue_after = pos 0 }))

  -- utils.SetCondition(&opNode.Status.Conditions, …)
  unfoldable pub mark : OpNode Q → String → ConditionStatus → String → String → Eff W (OpNode Q)
  mark op_node type status reason message = do
    time ← cluster.now
    pure (record op_node {
      status = record op_node.status {
        conditions = set_condition time op_node.status.conditions type status reason message;
      };
    })
