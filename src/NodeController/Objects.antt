-- ===== src/NodeController/Objects.antt =====
-- The StatefulSet and the Service of an OpNode: reconcileStatefulSet and reconcileService of
-- internal/controller/opnode_controller.go.
use op_stack_operator.Prelude.{if◌then◌else◌}
use op_stack_operator.Api.Meta.{NamespacedName}
use op_stack_operator.Api.Network.{OptimismNetwork}
use op_stack_operator.Api.Node.{OpNode}
use op_stack_operator.Runtime.{Result, ok, err, is_not_found, Eff, pure, ◌>>=◌, or_return}
use op_stack_operator.Resources.Objects.{StatefulSet, Service}
use op_stack_operator.Resources.StatefulSet.{create_op_node_stateful_set}
use op_stack_operator.Resources.Service.{create_op_node_service}
use op_stack_operator.Cluster.{Client, Cluster}

-- Behind Get: update what is there, create what is not found.
unfoldable pub write_found :
    {W A : Type 0} → Client W A → A → (A → A) → Result A → Eff W (Result (Unit {0}))
write_found client desired updated (ok current) = client.update (updated current)
write_found client desired updated (err e) =
    if is_not_found e then client.create desired else pure (err e)

unfoldable pub create_or_update :
    {W A : Type 0} → Client W A → NamespacedName → A → (A → A) → Eff W (Result (Unit {0}))
unfolding write_found
create_or_update client key desired updated = do
  found ← client.get key
  write_found client desired updated found

abbrev pub node_key : {Q : Type 0} → OpNode Q → NamespacedName
node_key op_node = record { name = op_node.meta.name; namespace = op_node.meta.namespace }

-- What an existing StatefulSet becomes.
abbrev pub updated_stateful_set : {Q : Type 0} → StatefulSet Q → StatefulSet Q → StatefulSet Q
updated_stateful_set desired current = record current {
  spec = desired.spec;
  meta = record current.meta {
    labels = desired.meta.labels;
    annotations = desired.meta.annotations;
  };
}

-- What an existing Service becomes: its selector stays.
abbrev pub updated_service : Service → Service → Service
updated_service desired current = record current {
  spec = record current.spec { ports = desired.spec.ports; type = desired.spec.type };
  meta = record current.meta {
    labels = desired.meta.labels;
    annotations = desired.meta.annotations;
  };
}

module _ {W EthClient Q : Type 0} (cluster : Cluster W EthClient Q) (op_node : OpNode Q)
    (network : OptimismNetwork Q) where
  unfoldable pub reconcile_stateful_set : Eff W (Result (Unit {0}))
  unfolding create_op_node_stateful_set create_or_update
  reconcile_stateful_set =
      let desired =
        create_op_node_stateful_set cluster.is_zero cluster.must_parse op_node network in
      or_return (cluster.set_controller_reference "OpNode" op_node.meta desired.meta) λ meta.
        let owned : StatefulSet Q = record desired { meta = meta } in
        create_or_update cluster.stateful_sets (node_key op_node) owned (updated_stateful_set owned)

  unfoldable pub reconcile_service : Eff W (Result (Unit {0}))
  unfolding create_op_node_service create_or_update
  reconcile_service =
      let desired = create_op_node_service op_node network in
      or_return (cluster.set_controller_reference "OpNode" op_node.meta desired.meta) λ meta.
        let owned : Service = record desired { meta = meta } in
        create_or_update cluster.services (node_key op_node) owned (updated_service owned)
