-- ===== src/System.antt =====
-- The operator as a whole: the two reconcilers that internal/controller/opnode_controller.go and
-- internal/controller/optimismnetwork_controller.go give to the manager, run in any order and any
-- number of times between what others do to the cluster.
pub mod Requeue
pub mod Served
pub mod Promises
pub mod Interleaved
use op_stack_operator.Prelude.{Option}
use op_stack_operator.Api.Meta.{NamespacedName, ObjectMeta}
use op_stack_operator.Discovery.{ContractDiscoveryService}
use op_stack_operator.Cluster.{Cluster}
use op_stack_operator.NodeController.Reconcile as Node
use op_stack_operator.NodeController.Footprint.{NodeFootprint}
use op_stack_operator.NodeController.Confined.{reconcile-Keeps}
use op_stack_operator.NetworkController.Reconcile as Network
use op_stack_operator.NetworkController.Footprint.{NetworkFootprint}
use op_stack_operator.NetworkController.Confined.{network_reconcile-Keeps}

module _ {W EthClient Q : Type 0} (cluster : Cluster W EthClient Q) where
  -- The world and the DiscoveryService field of the OptimismNetwork reconciler.
  abbrev pub State : Type 0
  State = W × Option ContractDiscoveryService

  module _ (Environment : W → W → Type 0) where
    -- A run for an OpNode, a run for a network, or a step of anybody else.
    pub data Step : State → State → Type 0 where
      node_run :
          {s : State} (request : NamespacedName)
          → Step s ((Node.reconcile cluster request s.0).1, s.1)
      network_run :
          {s : State} (request : NamespacedName)
          → Step s (
            (Network.reconcile cluster request s.1 s.0).1,
            (Network.reconcile cluster request s.1 s.0).0.1,
          )
      environment : {s : State} {w : W} → Environment s.0 w → Step s (w, s.1)

    pub data Reach : State → State → Type 0 where
      here : {s : State} → Reach s s
      next : {s t u : State} → Step s t → Reach t u → Reach s u

    module _ (I : W → Type 0) (IsNode IsNetwork : ObjectMeta → Type 0)
        (node_calls : NodeFootprint cluster I IsNode)
        (network_calls : NetworkFootprint cluster I IsNetwork)
        (others : (w w' : W) → Environment w w' → I w → I w') where
      Step-Keeps : {s t : State} → Step s t → I s.0 → I t.0
      Step-Keeps {s} (node_run request) h =
          reconcile-Keeps cluster I IsNode node_calls request s.0 h
      Step-Keeps {s} (network_run request) h =
          network_reconcile-Keeps cluster I IsNetwork network_calls request s.1 s.0 h
      Step-Keeps (environment e) h = others _ _ e h

      -- Whatever runs of the two reconcilers follow each other, for whatever requests, between
      -- steps of others that keep a property of the world: the property holds in every state that
      -- is reached if it held at first and the calls that the two may make do not end it.
      pub Reach-Keeps : {s t : State} → Reach s t → I s.0 → I t.0
      Reach-Keeps here h = h
      Reach-Keeps (next step rest) h = Reach-Keeps rest (Step-Keeps step h)
