-- ===== src/NetworkController/Coherent.antt =====
-- Which conditions and contracts a network has whose phase is Ready, for the statuses that
-- internal/controller/optimismnetwork_controller.go writes.
use op_stack_operator.Prelude.{
  String, ◌≡◌, sym, ◌∙◌, false, true, eq_iff, Option, some, List, [], ◌∷◌, All, and_then,
}
use op_stack_operator.Api.Meta.{condition_true}
use op_stack_operator.Api.Network.{OptimismNetwork, OptimismNetworkStatus, NetworkContractAddresses}
use op_stack_operator.Conditions.Marks.{ShowsTrue, ShowsFalse, All-ShowsTrue-set_condition}
use op_stack_operator.Cluster.{Cluster}
use op_stack_operator.NetworkController.Reconcile.{mark}

abbrev pub through_l1 : List String
through_l1 = "L1Connected" ∷ "ConfigurationValid" ∷ []

abbrev pub all_conditions : List String
all_conditions = "ContractsDiscovered" ∷ through_l1

-- Status.NetworkInfo.DiscoveredContracts, none for a nil on the way
abbrev pub contracts_in : OptimismNetworkStatus → Option NetworkContractAddresses
contracts_in status = and_then status.network_info (λ i. i.discovered_contracts)

-- Every condition is True and contract addresses are there.
abbrev pub IsComplete : OptimismNetworkStatus → Type 0
IsComplete status =
    All (ShowsTrue status.conditions) all_conditions
    × ((a : NetworkContractAddresses) × (contracts_in status ≡ some a))

-- A status that says Ready is complete.
abbrev pub IsHonest : OptimismNetworkStatus → Type 0
IsHonest status = status.phase ≡ "Ready" → IsComplete status

pub error-IsHonest : (status : OptimismNetworkStatus) → status.phase ≡ "Error" → IsHonest status
error-IsHonest status e r = let h : false ≡ true = (eq_iff "Error" "Ready").1 (sym e ∙ r) in cc

module _ {W EthClient Q : Type 0} (cluster : Cluster W EthClient Q) where
  abbrev pub IsTrue : OptimismNetwork Q → String → Type 0
  IsTrue o = ShowsTrue o.status.conditions

  abbrev pub IsFalse : OptimismNetwork Q → String → Type 0
  IsFalse o = ShowsFalse o.status.conditions

  pub All-mark :
      (o : OptimismNetwork Q) (types : List String) (type reason message : String) (w : W)
      → All (IsTrue o) types
      → All (IsTrue (mark cluster o type condition_true reason message w).0) (type ∷ types)
  unfolding mark
  All-mark o types type reason message w =
      All-ShowsTrue-set_condition (cluster.now w).0 o.status.conditions type reason message types
