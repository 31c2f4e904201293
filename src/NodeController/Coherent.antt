-- ===== src/NodeController/Coherent.antt =====
-- Which phases, conditions and requeue intervals of an OpNode fit together, for the statuses that
-- internal/controller/opnode_controller.go writes.
use op_stack_operator.Prelude.{String, ◌≡◌, sym, ◌∙◌, true, false, eq_iff, ◌⊎◌, List, [], ◌∷◌, All}
use op_stack_operator.Api.Meta.{condition_true, condition_false}
use op_stack_operator.Api.Node.{OpNode, OpNodeStatus}
use op_stack_operator.Conditions.Marks.{
  ShowsTrue, ShowsFalse, All-ShowsTrue-set_condition, ShowsFalse-set_condition,
}
use op_stack_operator.Runtime.{Result}
use op_stack_operator.Cluster.{Cluster, Outcome}
use op_stack_operator.NodeController.Status.{phase_pending, phase_running, phase_error, mark}
use op_stack_operator.NodeController.Reconcile.{after_minutes, publish}

abbrev pub through_network_ready : List String
through_network_ready = "NetworkReady" ∷ "NetworkReference" ∷ "ConfigurationValid" ∷ []

abbrev pub through_secrets : List String
through_secrets = "SecretsReady" ∷ through_network_ready

abbrev pub through_stateful_set : List String
through_stateful_set = "StatefulSetReady" ∷ through_secrets

abbrev pub all_conditions : List String
all_conditions = "ServiceReady" ∷ through_stateful_set

module _ {Q : Type 0} where
  abbrev pub IsTrue : OpNode Q → String → Type 0
  IsTrue o = ShowsTrue o.status.conditions

  abbrev pub IsFalse : OpNode Q → String → Type 0
  IsFalse o = ShowsFalse o.status.conditions

  -- The conditions of the steps that can fail.
  abbrev pub Failed : OpNode Q → Type 0
  Failed o =
      IsFalse o "NetworkReference"
      ⊎ (IsFalse o "SecretsReady" ⊎ (IsFalse o "StatefulSetReady" ⊎ IsFalse o "ServiceReady"))

  -- Running with every condition True, retried in five minutes; Pending with the network not
  -- ready, in one; Error for an invalid specification, in five, or for a failed step, in two.
  abbrev pub Coherent : OpNode Q → Outcome → Type 0
  Coherent o outcome =
      ((o.status.phase ≡ phase_running)
        × All (IsTrue o) all_conditions
        × (outcome ≡ after_minutes 5))
      ⊎ (((o.status.phase ≡ phase_pending) × IsFalse o "NetworkReady" × (outcome ≡ after_minutes 1))
          ⊎ (((o.status.phase ≡ phase_error)
                × IsFalse o "ConfigurationValid"
                × (outcome ≡ after_minutes 5))
              ⊎ ((o.status.phase ≡ phase_error) × Failed o × (outcome ≡ after_minutes 2))))

-- A status that says Running has every condition True.
abbrev pub IsHonest : OpNodeStatus → Type 0
IsHonest status = status.phase ≡ phase_running → All (ShowsTrue status.conditions) all_conditions

pub phase_error-IsHonest : (status : OpNodeStatus) → status.phase ≡ phase_error → IsHonest status
phase_error-IsHonest status e r =
    let h : false ≡ true = (eq_iff phase_error phase_running).1 (sym e ∙ r) in cc

pub phase_pending-IsHonest :
    (status : OpNodeStatus) → status.phase ≡ phase_pending → IsHonest status
phase_pending-IsHonest status e r =
    let h : false ≡ true = (eq_iff phase_pending phase_running).1 (sym e ∙ r) in cc

module _ {W EthClient Q : Type 0} (cluster : Cluster W EthClient Q) where
  -- The run ends by writing the status of an object with the metadata and the specification of
  -- `op_node`, and the status and the outcome are coherent.
  abbrev pub Publishes : OpNode Q → Result Outcome × W → Type 0
  Publishes op_node run =
      (o : OpNode Q) × (outcome : Outcome) × (v : W) × (run ≡ publish cluster o outcome v)
      × (o.meta ≡ op_node.meta)
      × (o.spec ≡ op_node.spec)
      × Coherent o outcome

  pub All-mark :
      (o : OpNode Q) (types : List String) (type reason message : String) (w : W)
      → All (IsTrue o) types
      → All (IsTrue (mark cluster o type condition_true reason message w).0) (type ∷ types)
  unfolding mark
  All-mark o types type reason message w =
      All-ShowsTrue-set_condition (cluster.now w).0 o.status.conditions type reason message types

  pub IsFalse-mark :
      (o : OpNode Q) (type reason message : String) (w : W)
      → IsFalse (mark cluster o type condition_false reason message w).0 type
  unfolding mark
  IsFalse-mark o type reason message w =
      ShowsFalse-set_condition (cluster.now w).0 o.status.conditions type reason message
