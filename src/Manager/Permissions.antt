-- ===== src/Manager/Permissions.antt =====
-- The role that the markers of internal/controller ask for is enough for its reconcilers, and for what
-- they watch.
use op_stack_operator.Prelude.{◌≡◌, refl, ap, Option}
use op_stack_operator.Api.Meta.{NamespacedName}
use op_stack_operator.Discovery.{ContractDiscoveryService}
use op_stack_operator.Cluster.{Cluster}
use op_stack_operator.NodeController.Secrets.{
  generate_jwt_token, generate_p2p_private_key, create_owned_secret, create_jwt_secret,
  create_p2p_secret, unless_found, reconcile_jwt_secret, reconcile_p2p_secret, reconcile_secrets,
}
use op_stack_operator.NodeController.Objects.{
  write_found, create_or_update, reconcile_stateful_set, reconcile_service,
}
use op_stack_operator.NodeController.Status as Status
use op_stack_operator.NodeController.Reconcile as Node
use op_stack_operator.NetworkController.L1.{test_l1_connectivity, check_chain_id}
use op_stack_operator.NetworkController.ConfigMaps.{
  write_config_map, create_or_update_config_map, write_owned, reconcile_rollup_config,
  reconcile_genesis, reconcile_config_maps,
}
use op_stack_operator.NetworkController.Reconcile as Network
use op_stack_operator.Manager.Rbac.{
  manager_role, op_node_rules, optimism_network_rules, op_batcher_rules, op_proposer_rules,
  op_challenger_rules, restrict,
}

module _ {W EthClient Q : Type 0} (cluster : Cluster W EthClient Q) where
  reconcile-restrict :
      (request : NamespacedName)
      → Node.reconcile (restrict manager_role cluster) request ≡ Node.reconcile cluster request
  unfolding op_node_rules optimism_network_rules op_batcher_rules op_proposer_rules
      op_challenger_rules generate_jwt_token generate_p2p_private_key create_owned_secret
      create_jwt_secret create_p2p_secret unless_found reconcile_jwt_secret reconcile_p2p_secret
      reconcile_secrets write_found create_or_update reconcile_stateful_set reconcile_service
      Status.write_status Status.update_status_with_retry Status.handle_deletion Status.mark
      Node.fetch_optimism_network Node.publish Node.fail Node.after_service Node.from_service
      Node.after_stateful_set Node.from_stateful_set Node.after_secrets Node.from_secrets
      Node.if_ready Node.after_fetch Node.after_validation Node.reconcile_live Node.reconcile_found
      Node.after_get Node.reconcile
  reconcile-restrict request = refl

  network_reconcile-restrict :
      (request : NamespacedName) (service : Option ContractDiscoveryService)
      → Network.reconcile (restrict manager_role cluster) request service
        ≡ Network.reconcile cluster request service
  unfolding op_node_rules optimism_network_rules op_batcher_rules op_proposer_rules
      op_challenger_rules test_l1_connectivity check_chain_id write_config_map
      create_or_update_config_map write_owned reconcile_rollup_config reconcile_genesis
      reconcile_config_maps Network.handle_deletion Network.write_status
      Network.update_status_with_retry Network.mark Network.discover_contract_addresses
      Network.publish_error Network.fail Network.publish_ready Network.after_config_maps
      Network.after_discovery Network.after_l1 Network.after_validation Network.reconcile_live
      Network.reconcile_found Network.after_get Network.reconcile
  network_reconcile-restrict request service = refl

  -- An API server that grants nothing but the verbs of the markers, and fails every other call,
  -- makes no difference to a run for an OpNode or for a network: the operator is never refused
  -- anything that it asks for.
  pub reconcilers-restrict :
      (request : NamespacedName) (service : Option ContractDiscoveryService) (w : W)
      → (Node.reconcile (restrict manager_role cluster) request w
          ≡ Node.reconcile cluster request w)
        × (Network.reconcile (restrict manager_role cluster) request service w
            ≡ Network.reconcile cluster request service w)
  reconcilers-restrict request service w = (
    ap (λ run. run w) (reconcile-restrict request),
    ap (λ run. run w) (network_reconcile-restrict request service),
  )
