-- ===== src/NetworkController/Mounted.antt =====
-- The rollup configuration, over two controllers: what
-- internal/controller/optimismnetwork_controller.go writes is what pkg/resources/statefulset.go
-- mounts.

use op_stack_operator.Prelude.{◌≡◌, refl, true, some, Memᴰ}
use op_stack_operator.Prelude.Assoc.{lookup}
use op_stack_operator.Api.Network.{OptimismNetwork, NetworkContractAddresses}
use op_stack_operator.Api.Node.{OpNode}
use op_stack_operator.Resources.Objects.{config_map}
use op_stack_operator.Resources.Args.{op_node_args}
use op_stack_operator.Resources.Pod.{mount, create_op_node_container, create_volumes}
use op_stack_operator.Cluster.{Cluster}
use op_stack_operator.NetworkController.Templates.{generate_rollup_config}
use op_stack_operator.NetworkController.ConfigMaps.{rollup_config_map}

-- The ConfigMap that is generated for the rollup configuration of a network has the name of the
-- source of the pod's volume; op-node mounts that volume, and is told the path of the key under
-- which the configuration is stored. This is about names alone: the ConfigMap stands in the
-- namespace of the network, the pod in that of the OpNode.
pub rollup_config_mounted :
    {W EthClient Q : Type 0} (cluster : Cluster W EthClient Q) (op_node : OpNode Q)
    (network : OptimismNetwork Q) (addresses : NetworkContractAddresses)
    → let written = rollup_config_map cluster network addresses in
      (lookup "rollup.json" written.contents ≡ some (generate_rollup_config network addresses))
      × Memᴰ
          (record { name = "rollup-config"; source = config_map written.meta.name })
          (create_volumes op_node network)
      × Memᴰ
          (mount "rollup-config" "/config" true)
          (create_op_node_container cluster.must_parse op_node network).volume_mounts
      × Memᴰ "--rollup.config=/config/rollup.json" (op_node_args op_node network)
unfolding lookup create_volumes create_op_node_container op_node_args
rollup_config_mounted cluster op_node network addresses = (
  refl,
  Memᴰ.tail (Memᴰ.head refl),
  Memᴰ.tail (Memᴰ.head refl),
  Memᴰ.tail (Memᴰ.tail (Memᴰ.tail (Memᴰ.head refl))),
)
