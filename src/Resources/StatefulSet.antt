-- ===== src/Resources/StatefulSet.antt =====
-- CreateOpNodeStatefulSet of pkg/resources/statefulset.go. `is_zero` stands for Quantity.IsZero.
use op_stack_operator.Prelude.{String, Bool, not, [], ◌∷◌, is_empty, only_if, on_some}
use op_stack_operator.Prelude.Int.{pos}
use op_stack_operator.Api.Network.{OptimismNetwork}
use op_stack_operator.Api.Node.{OpNode}
use op_stack_operator.Resources.Objects.{StatefulSet}
use op_stack_operator.Resources.Config.{node_labels, new_meta}
use op_stack_operator.Resources.Pod.{
  create_op_geth_container, create_op_node_container, create_volumes, create_pod_security_context,
}

module _ {Q : Type 0} (is_zero : Q → Bool) (must_parse : String → Q) (op_node : OpNode Q)
    (network : OptimismNetwork Q) where
  unfoldable pub storage_size : Q
  storage_size =
      on_some (only_if (λ s. not (is_zero s.size)) op_node.spec.op_geth.storage) (must_parse "1Ti")
        (λ s. s.size)

  unfoldable pub create_op_node_stateful_set : StatefulSet Q
  create_op_node_stateful_set = record {
    meta = new_meta op_node.meta.name op_node.meta.namespace (node_labels op_node network);
    spec = record {
      replicas = pos 1;
      service_name = op_node.meta.name;
      match_labels = node_labels op_node network;
      template = record {
        labels = node_labels op_node network;
        containers =
            create_op_geth_container must_parse op_node network
            ∷ create_op_node_container must_parse op_node network
            ∷ [];
        volumes = create_volumes op_node network;
        security_context = create_pod_security_context network;
      };
      volume_claim_templates =
          record {
            name = "geth-data";
            labels = node_labels op_node network;
            access_modes =
                on_some (only_if (λ s. not (is_empty s.access_mode)) op_node.spec.op_geth.storage)
                  "ReadWriteOnce" (λ s. s.access_mode)
                ∷ [];
            requests = ("storage", storage_size) ∷ [];
            storage_class_name =
                on_some (only_if (λ s. not (is_empty s.storage_class)) op_node.spec.op_geth.storage)
                  "fast-ssd" (λ s. s.storage_class);
          }
          ∷ [];
    };
  }
