-- ===== src/DeepCopy/Extent.antt =====
-- The contents and the addresses of each of the types of the package api/v1alpha1.
use op_stack_operator.DeepCopy.Rpc.{
  contents_cors_config, addresses_cors_config, contents_auth_rpc_config, addresses_auth_rpc_config,
  contents_http_config, addresses_http_config, contents_ws_config, addresses_ws_config,
  contents_rpc_config, addresses_rpc_config,
}
use op_stack_operator.DeepCopy.Geth.{
  contents_geth_p2p_config, addresses_geth_p2p_config, contents_geth_networking_config,
  addresses_geth_networking_config, contents_tx_pool_config, addresses_tx_pool_config,
  contents_storage_config, addresses_storage_config, contents_op_geth_config,
  addresses_op_geth_config,
}
use op_stack_operator.DeepCopy.NodeConfig.{
  contents_p2p_discovery_config, addresses_p2p_discovery_config, contents_secret_key_ref,
  addresses_secret_key_ref, contents_p2p_config, addresses_p2p_config, contents_engine_config,
  addresses_engine_config, contents_op_node_config, addresses_op_node_config,
}
use op_stack_operator.DeepCopy.NodeSpec.{
  contents_service_config, addresses_service_config, contents_op_node_resources,
  addresses_op_node_resources, contents_op_node_spec, addresses_op_node_spec,
}
use op_stack_operator.DeepCopy.NodeStatus.{
  contents_chain_head_info, addresses_chain_head_info, contents_node_info, addresses_node_info,
  contents_op_node_status, addresses_op_node_status,
}
use op_stack_operator.DeepCopy.NetworkConfig.{
  contents_config_source, addresses_config_source, contents_resource_config,
  addresses_resource_config, contents_security_config, addresses_security_config,
  contents_shared_config, addresses_shared_config,
}
use op_stack_operator.DeepCopy.NetworkParts.{
  contents_optimism_network_spec, addresses_optimism_network_spec,
  contents_network_contract_addresses, addresses_network_contract_addresses, contents_network_info,
  addresses_network_info, contents_optimism_network_status, addresses_optimism_network_status,
}
use op_stack_operator.DeepCopy.Resources.{
  contents_op_node, addresses_op_node, contents_op_node_list, addresses_op_node_list,
  contents_optimism_network, addresses_optimism_network, contents_optimism_network_list,
  addresses_optimism_network_list,
}
use op_stack_operator.DeepCopy.Scaffold.{
  contents_op_batcher, addresses_op_batcher, contents_op_batcher_list, addresses_op_batcher_list,
  contents_op_proposer, addresses_op_proposer, contents_op_proposer_list,
  addresses_op_proposer_list, contents_op_challenger, addresses_op_challenger,
  contents_op_challenger_list, addresses_op_challenger_list,
}
use op_stack_operator.DeepCopy.Library.{Library}
use op_stack_operator.DeepCopy.Memory.{no_addresses, itself}
use op_stack_operator.Prelude.{ℕ, List}
use op_stack_operator.DeepCopy.Types.{
  ApiType, Struct, contract_address_config, logging_config, metrics_config, op_batcher_spec,
  op_batcher_status, op_proposer_spec, op_proposer_status, op_challenger_spec, op_challenger_status,
  optimism_network_ref, p2p_scoring_config, rollup_config, sequencer_config, sequencer_reference,
  sync_status_info, service_port_config, cors_config, auth_rpc_config, http_config, ws_config,
  rpc_config, geth_p2p_config, geth_networking_config, tx_pool_config, storage_config,
  op_geth_config, p2p_discovery_config, secret_key_ref, p2p_config, engine_config, op_node_config,
  service_config, op_node_resources, op_node_spec, chain_head_info, node_info, op_node_status,
  config_source, resource_config, security_config, shared_config, optimism_network_spec,
  network_contract_addresses, network_info, optimism_network_status, op_node, op_node_list,
  optimism_network, optimism_network_list, op_batcher, op_batcher_list, op_proposer,
  op_proposer_list, op_challenger, op_challenger_list,
}

module _ (L : Library) where
  unfoldable pub contents_of : (t : ApiType) → Struct L t → Struct L t
  contents_of contract_address_config = itself
  contents_of logging_config = itself
  contents_of metrics_config = itself
  contents_of op_batcher_spec = itself
  contents_of op_batcher_status = itself
  contents_of op_proposer_spec = itself
  contents_of op_proposer_status = itself
  contents_of op_challenger_spec = itself
  contents_of op_challenger_status = itself
  contents_of optimism_network_ref = itself
  contents_of p2p_scoring_config = itself
  contents_of rollup_config = itself
  contents_of sequencer_config = itself
  contents_of sequencer_reference = itself
  contents_of sync_status_info = itself
  contents_of service_port_config = itself
  contents_of cors_config = contents_cors_config
  contents_of auth_rpc_config = contents_auth_rpc_config
  contents_of http_config = contents_http_config
  contents_of ws_config = contents_ws_config
  contents_of rpc_config = contents_rpc_config
  contents_of geth_p2p_config = contents_geth_p2p_config
  contents_of geth_networking_config = contents_geth_networking_config
  contents_of tx_pool_config = contents_tx_pool_config
  contents_of storage_config = contents_storage_config L
  contents_of op_geth_config = contents_op_geth_config L
  contents_of p2p_discovery_config = contents_p2p_discovery_config
  contents_of secret_key_ref = contents_secret_key_ref L
  contents_of p2p_config = contents_p2p_config L
  contents_of engine_config = contents_engine_config L
  contents_of op_node_config = contents_op_node_config L
  contents_of service_config = contents_service_config
  contents_of op_node_resources = contents_op_node_resources L
  contents_of op_node_spec = contents_op_node_spec L
  contents_of chain_head_info = contents_chain_head_info L
  contents_of node_info = contents_node_info L
  contents_of op_node_status = contents_op_node_status L
  contents_of config_source = contents_config_source L
  contents_of resource_config = contents_resource_config L
  contents_of security_config = contents_security_config L
  contents_of shared_config = contents_shared_config L
  contents_of optimism_network_spec = contents_optimism_network_spec L
  contents_of network_contract_addresses = contents_network_contract_addresses L
  contents_of network_info = contents_network_info L
  contents_of optimism_network_status = contents_optimism_network_status L
  contents_of op_node = contents_op_node L
  contents_of op_node_list = contents_op_node_list L
  contents_of optimism_network = contents_optimism_network L
  contents_of optimism_network_list = contents_optimism_network_list L
  contents_of op_batcher = contents_op_batcher L
  contents_of op_batcher_list = contents_op_batcher_list L
  contents_of op_proposer = contents_op_proposer L
  contents_of op_proposer_list = contents_op_proposer_list L
  contents_of op_challenger = contents_op_challenger L
  contents_of op_challenger_list = contents_op_challenger_list L

  unfoldable pub addresses_of : (t : ApiType) → Struct L t → List ℕ
  addresses_of contract_address_config = no_addresses
  addresses_of logging_config = no_addresses
  addresses_of metrics_config = no_addresses
  addresses_of op_batcher_spec = no_addresses
  addresses_of op_batcher_status = no_addresses
  addresses_of op_proposer_spec = no_addresses
  addresses_of op_proposer_status = no_addresses
  addresses_of op_challenger_spec = no_addresses
  addresses_of op_challenger_status = no_addresses
  addresses_of optimism_network_ref = no_addresses
  addresses_of p2p_scoring_config = no_addresses
  addresses_of rollup_config = no_addresses
  addresses_of sequencer_config = no_addresses
  addresses_of sequencer_reference = no_addresses
  addresses_of sync_status_info = no_addresses
  addresses_of service_port_config = no_addresses
  addresses_of cors_config = addresses_cors_config
  addresses_of auth_rpc_config = addresses_auth_rpc_config
  addresses_of http_config = addresses_http_config
  addresses_of ws_config = addresses_ws_config
  addresses_of rpc_config = addresses_rpc_config
  addresses_of geth_p2p_config = addresses_geth_p2p_config
  addresses_of geth_networking_config = addresses_geth_networking_config
  addresses_of tx_pool_config = addresses_tx_pool_config
  addresses_of storage_config = addresses_storage_config L
  addresses_of op_geth_config = addresses_op_geth_config L
  addresses_of p2p_discovery_config = addresses_p2p_discovery_config
  addresses_of secret_key_ref = addresses_secret_key_ref L
  addresses_of p2p_config = addresses_p2p_config L
  addresses_of engine_config = addresses_engine_config L
  addresses_of op_node_config = addresses_op_node_config L
  addresses_of service_config = addresses_service_config
  addresses_of op_node_resources = addresses_op_node_resources L
  addresses_of op_node_spec = addresses_op_node_spec L
  addresses_of chain_head_info = addresses_chain_head_info L
  addresses_of node_info = addresses_node_info L
  addresses_of op_node_status = addresses_op_node_status L
  addresses_of config_source = addresses_config_source L
  addresses_of resource_config = addresses_resource_config L
  addresses_of security_config = addresses_security_config L
  addresses_of shared_config = addresses_shared_config L
  addresses_of optimism_network_spec = addresses_optimism_network_spec L
  addresses_of network_contract_addresses = addresses_network_contract_addresses L
  addresses_of network_info = addresses_network_info L
  addresses_of optimism_network_status = addresses_optimism_network_status L
  addresses_of op_node = addresses_op_node L
  addresses_of op_node_list = addresses_op_node_list L
  addresses_of optimism_network = addresses_optimism_network L
  addresses_of optimism_network_list = addresses_optimism_network_list L
  addresses_of op_batcher = addresses_op_batcher L
  addresses_of op_batcher_list = addresses_op_batcher_list L
  addresses_of op_proposer = addresses_op_proposer L
  addresses_of op_proposer_list = addresses_op_proposer_list L
  addresses_of op_challenger = addresses_op_challenger L
  addresses_of op_challenger_list = addresses_op_challenger_list L
