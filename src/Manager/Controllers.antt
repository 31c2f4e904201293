-- ===== src/Manager/Controllers.antt =====
-- What the methods SetupWithManager of internal/controller register with the manager, and Reconcile
-- of the controllers for batchers, proposers and challengers.
use op_stack_operator.Prelude.{String, false, List, [], ◌∷◌}
use op_stack_operator.Prelude.Int.{pos}
use op_stack_operator.Api.Meta.{NamespacedName}
use op_stack_operator.Api.Scaffold.{
  GroupKind, op_node_kind, optimism_network_kind, op_batcher_kind, op_proposer_kind,
  op_challenger_kind,
}
use op_stack_operator.Runtime.{Result, ok, Eff, pure}
use op_stack_operator.Cluster.{Outcome}

-- The builder's For, Owns and Named, "" where a controller is not named.
pub record ControllerOptions : Type 0 where
  pub its_kind : GroupKind
  pub owns : List GroupKind
  pub name : String

abbrev pub stateful_set_kind : GroupKind
stateful_set_kind = record { group = "apps"; kind = "StatefulSet" }

abbrev pub core_kind : String → GroupKind
core_kind kind = record { group = ""; kind = kind }

unfoldable pub op_node_controller : ControllerOptions
op_node_controller = record {
  its_kind = op_node_kind;
  owns = stateful_set_kind ∷ core_kind "Service" ∷ core_kind "Secret" ∷ [];
  name = "opnode";
}

unfoldable pub optimism_network_controller : ControllerOptions
optimism_network_controller = record {
  its_kind = optimism_network_kind;
  owns = core_kind "ConfigMap" ∷ [];
  name = "";
}

unfoldable pub op_batcher_controller : ControllerOptions
op_batcher_controller = record { its_kind = op_batcher_kind; owns = []; name = "opbatcher" }

unfoldable pub op_proposer_controller : ControllerOptions
op_proposer_controller = record { its_kind = op_proposer_kind; owns = []; name = "opproposer" }

unfoldable pub op_challenger_controller : ControllerOptions
op_challenger_controller = record {
  its_kind = op_challenger_kind;
  owns = [];
  name = "opchallenger";
}

-- In the order in which main sets them up.
abbrev pub controllers : List ControllerOptions
controllers =
    optimism_network_controller ∷ op_node_controller ∷ op_batcher_controller
    ∷ op_proposer_controller ∷ op_challenger_controller ∷ []

module _ {W : Type 0} where
  abbrev pub nothing_done : Eff W (Result Outcome)
  nothing_done = pure (ok (record { requeue = false; requeue_after = pos 0 }))

  unfoldable pub reconcile_op_batcher : NamespacedName → Eff W (Result Outcome)
  reconcile_op_batcher request = nothing_done

  unfoldable pub reconcile_op_proposer : NamespacedName → Eff W (Result Outcome)
  reconcile_op_proposer request = nothing_done

  unfoldable pub reconcile_op_challenger : NamespacedName → Eff W (Result Outcome)
  reconcile_op_challenger request = nothing_done
