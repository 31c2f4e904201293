-- ===== src/System/Requeue.antt =====
-- How long the reconcilers of internal/controller ask to wait.
use op_stack_operator.Prelude.{Option}
use op_stack_operator.Api.Meta.{NamespacedName}
use op_stack_operator.Discovery.{ContractDiscoveryService}
use op_stack_operator.Cluster.{Cluster}
use op_stack_operator.Cluster.Within.{Within}
use op_stack_operator.NodeController.Reconcile as Node
use op_stack_operator.NodeController.Requeue as NodeRequeue
use op_stack_operator.NetworkController.Reconcile as Network
use op_stack_operator.NetworkController.Requeue as NetworkRequeue

module _ {W EthClient Q : Type 0} (cluster : Cluster W EthClient Q) where
  -- Whatever the cluster answers, a run that returns no error asks for a delay that is not negative
  -- and at most five minutes for an OpNode and an hour for a network, far below the largest
  -- time.Duration.
  pub reconcilers-Within :
      (request : NamespacedName) (service : Option ContractDiscoveryService) (w : W)
      → Within 300000000000 (Node.reconcile cluster request w).0
        × Within 3600000000000 (Network.reconcile cluster request service w).0.0
  reconcilers-Within request service w = (
    NodeRequeue.reconcile-Within cluster request w,
    NetworkRequeue.network_reconcile-Within cluster request service w,
  )
