-- ===== src/DeepCopy/Isolated.antt =====
-- The deep copies of api/v1alpha1/zz_generated.deepcopy.go share nothing with their originals.
use op_stack_operator.DeepCopy.Plain.{
  deep_copy_contract_address_config, deep_copy_into_contract_address_config,
  deep_copy_logging_config, deep_copy_into_logging_config, deep_copy_metrics_config,
  deep_copy_into_metrics_config, deep_copy_op_batcher_spec, deep_copy_into_op_batcher_spec,
  deep_copy_op_batcher_status, deep_copy_into_op_batcher_status, deep_copy_op_proposer_spec,
  deep_copy_into_op_proposer_spec, deep_copy_op_proposer_status, deep_copy_into_op_proposer_status,
  deep_copy_op_challenger_spec, deep_copy_into_op_challenger_spec, deep_copy_op_challenger_status,
  deep_copy_into_op_challenger_status, deep_copy_optimism_network_ref,
  deep_copy_into_optimism_network_ref, deep_copy_p2p_scoring_config,
  deep_copy_into_p2p_scoring_config, deep_copy_rollup_config, deep_copy_into_rollup_config,
  deep_copy_sequencer_config, deep_copy_into_sequencer_config, deep_copy_sequencer_reference,
  deep_copy_into_sequencer_reference, deep_copy_sync_status_info, deep_copy_into_sync_status_info,
  deep_copy_service_port_config, deep_copy_into_service_port_config,
}
use op_stack_operator.DeepCopy.Rpc.{
  deep_copy_cors_config, deep_copy_into_cors_config-Copies, deep_copy_auth_rpc_config,
  deep_copy_into_auth_rpc_config-Copies, deep_copy_http_config, deep_copy_into_http_config-Copies,
  deep_copy_ws_config, deep_copy_into_ws_config-Copies, deep_copy_rpc_config,
  deep_copy_into_rpc_config-Copies,
}
use op_stack_operator.DeepCopy.Geth.{
  deep_copy_geth_p2p_config, deep_copy_into_geth_p2p_config-Copies,
  deep_copy_geth_networking_config, deep_copy_into_geth_networking_config-Copies,
  deep_copy_tx_pool_config, deep_copy_into_tx_pool_config-Copies, deep_copy_storage_config,
  deep_copy_into_storage_config-Copies, deep_copy_op_geth_config,
  deep_copy_into_op_geth_config-Copies,
}
use op_stack_operator.DeepCopy.NodeConfig.{
  deep_copy_p2p_discovery_config, deep_copy_into_p2p_discovery_config-Copies,
  deep_copy_secret_key_ref, deep_copy_into_secret_key_ref-Copies, deep_copy_p2p_config,
  deep_copy_into_p2p_config-Copies, deep_copy_engine_config, deep_copy_into_engine_config-Copies,
  deep_copy_op_node_config, deep_copy_into_op_node_config-Copies,
}
use op_stack_operator.DeepCopy.NodeSpec.{
  deep_copy_service_config, deep_copy_into_service_config-Copies, deep_copy_op_node_resources,
  deep_copy_into_op_node_resources-Copies, deep_copy_op_node_spec,
  deep_copy_into_op_node_spec-Copies,
}
use op_stack_operator.DeepCopy.NodeStatus.{
  deep_copy_chain_head_info, deep_copy_into_chain_head_info-Copies, deep_copy_node_info,
  deep_copy_into_node_info-Copies, deep_copy_op_node_status, deep_copy_into_op_node_status-Copies,
}
use op_stack_operator.DeepCopy.NetworkConfig.{
  deep_copy_config_source, deep_copy_into_config_source-Copies, deep_copy_resource_config,
  deep_copy_into_resource_config-Copies, deep_copy_security_config,
  deep_copy_into_security_config-Copies, deep_copy_shared_config,
  deep_copy_into_shared_config-Copies,
}
use op_stack_operator.DeepCopy.NetworkParts.{
  deep_copy_optimism_network_spec, deep_copy_into_optimism_network_spec-Copies,
  deep_copy_network_contract_addresses, deep_copy_into_network_contract_addresses-Copies,
  deep_copy_network_info, deep_copy_into_network_info-Copies, deep_copy_optimism_network_status,
  deep_copy_into_optimism_network_status-Copies,
}
use op_stack_operator.DeepCopy.Resources.{
  deep_copy_op_node, deep_copy_into_op_node-Copies, deep_copy_op_node_list,
  deep_copy_into_op_node_list-Copies, deep_copy_optimism_network,
  deep_copy_into_optimism_network-Copies, deep_copy_optimism_network_list,
  deep_copy_into_optimism_network_list-Copies,
}
use op_stack_operator.DeepCopy.Scaffold.{
  deep_copy_op_batcher, deep_copy_into_op_batcher-Copies, deep_copy_op_batcher_list,
  deep_copy_into_op_batcher_list-Copies, deep_copy_op_proposer, deep_copy_into_op_proposer-Copies,
  deep_copy_op_proposer_list, deep_copy_into_op_proposer_list-Copies, deep_copy_op_challenger,
  deep_copy_into_op_challenger-Copies, deep_copy_op_challenger_list,
  deep_copy_into_op_challenger_list-Copies,
}
use op_stack_operator.DeepCopy.Library.{Library}
use op_stack_operator.DeepCopy.Memory.{Pointer, contents_pointer, addresses_pointer}
use op_stack_operator.DeepCopy.Copies.{copy_pointer-Copies, pure-Copies, Copies}
use op_stack_operator.DeepCopy.Separate.{IsDeepCopy, IsCopy-IsDeepCopy}
use op_stack_operator.Prelude.{ℕ, ◌<◌, All}
use op_stack_operator.DeepCopy.Extent.{contents_of, addresses_of}
use op_stack_operator.DeepCopy.Types.{
  ApiType, Struct, deep_copy, contract_address_config, logging_config, metrics_config,
  op_batcher_spec, op_batcher_status, op_proposer_spec, op_proposer_status, op_challenger_spec,
  op_challenger_status, optimism_network_ref, p2p_scoring_config, rollup_config, sequencer_config,
  sequencer_reference, sync_status_info, service_port_config, cors_config, auth_rpc_config,
  http_config, ws_config, rpc_config, geth_p2p_config, geth_networking_config, tx_pool_config,
  storage_config, op_geth_config, p2p_discovery_config, secret_key_ref, p2p_config, engine_config,
  op_node_config, service_config, op_node_resources, op_node_spec, chain_head_info, node_info,
  op_node_status, config_source, resource_config, security_config, shared_config,
  optimism_network_spec, network_contract_addresses, network_info, optimism_network_status, op_node,
  op_node_list, optimism_network, optimism_network_list, op_batcher, op_batcher_list, op_proposer,
  op_proposer_list, op_challenger, op_challenger_list,
}

module _ (L : Library) where
  deep_copy-Copies :
      (t : ApiType)
      → Copies
          (contents_pointer (contents_of L t))
          (addresses_pointer (addresses_of L t))
          (deep_copy L t)
  unfolding contents_of addresses_of deep_copy deep_copy_contract_address_config
      deep_copy_logging_config deep_copy_metrics_config deep_copy_op_batcher_spec
      deep_copy_op_batcher_status deep_copy_op_proposer_spec deep_copy_op_proposer_status
      deep_copy_op_challenger_spec deep_copy_op_challenger_status deep_copy_optimism_network_ref
      deep_copy_p2p_scoring_config deep_copy_rollup_config deep_copy_sequencer_config
      deep_copy_sequencer_reference deep_copy_sync_status_info deep_copy_service_port_config
      deep_copy_cors_config deep_copy_auth_rpc_config deep_copy_http_config deep_copy_ws_config
      deep_copy_rpc_config deep_copy_geth_p2p_config deep_copy_geth_networking_config
      deep_copy_tx_pool_config deep_copy_storage_config deep_copy_op_geth_config
      deep_copy_p2p_discovery_config deep_copy_secret_key_ref deep_copy_p2p_config
      deep_copy_engine_config deep_copy_op_node_config deep_copy_service_config
      deep_copy_op_node_resources deep_copy_op_node_spec deep_copy_chain_head_info
      deep_copy_node_info deep_copy_op_node_status deep_copy_config_source deep_copy_resource_config
      deep_copy_security_config deep_copy_shared_config deep_copy_optimism_network_spec
      deep_copy_network_contract_addresses deep_copy_network_info deep_copy_optimism_network_status
      deep_copy_op_node deep_copy_op_node_list deep_copy_optimism_network
      deep_copy_optimism_network_list deep_copy_op_batcher deep_copy_op_batcher_list
      deep_copy_op_proposer deep_copy_op_proposer_list deep_copy_op_challenger
      deep_copy_op_challenger_list deep_copy_into_contract_address_config
      deep_copy_into_logging_config deep_copy_into_metrics_config deep_copy_into_op_batcher_spec
      deep_copy_into_op_batcher_status deep_copy_into_op_proposer_spec
      deep_copy_into_op_proposer_status deep_copy_into_op_challenger_spec
      deep_copy_into_op_challenger_status deep_copy_into_optimism_network_ref
      deep_copy_into_p2p_scoring_config deep_copy_into_rollup_config deep_copy_into_sequencer_config
      deep_copy_into_sequencer_reference deep_copy_into_sync_status_info
      deep_copy_into_service_port_config
  deep_copy-Copies contract_address_config = copy_pointer-Copies pure-Copies
  deep_copy-Copies logging_config = copy_pointer-Copies pure-Copies
  deep_copy-Copies metrics_config = copy_pointer-Copies pure-Copies
  deep_copy-Copies op_batcher_spec = copy_pointer-Copies pure-Copies
  deep_copy-Copies op_batcher_status = copy_pointer-Copies pure-Copies
  deep_copy-Copies op_proposer_spec = copy_pointer-Copies pure-Copies
  deep_copy-Copies op_proposer_status = copy_pointer-Copies pure-Copies
  deep_copy-Copies op_challenger_spec = copy_pointer-Copies pure-Copies
  deep_copy-Copies op_challenger_status = copy_pointer-Copies pure-Copies
  deep_copy-Copies optimism_network_ref = copy_pointer-Copies pure-Copies
  deep_copy-Copies p2p_scoring_config = copy_pointer-Copies pure-Copies
  deep_copy-Copies rollup_config = copy_pointer-Copies pure-Copies
  deep_copy-Copies sequencer_config = copy_pointer-Copies pure-Copies
  deep_copy-Copies sequencer_reference = copy_pointer-Copies pure-Copies
  deep_copy-Copies sync_status_info = copy_pointer-Copies pure-Copies
  deep_copy-Copies service_port_config = copy_pointer-Copies pure-Copies
  deep_copy-Copies cors_config = copy_pointer-Copies deep_copy_into_cors_config-Copies
  deep_copy-Copies auth_rpc_config = copy_pointer-Copies deep_copy_into_auth_rpc_config-Copies
  deep_copy-Copies http_config = copy_pointer-Copies deep_copy_into_http_config-Copies
  deep_copy-Copies ws_config = copy_pointer-Copies deep_copy_into_ws_config-Copies
  deep_copy-Copies rpc_config = copy_pointer-Copies deep_copy_into_rpc_config-Copies
  deep_copy-Copies geth_p2p_config = copy_pointer-Copies deep_copy_into_geth_p2p_config-Copies
  deep_copy-Copies geth_networking_config =
      copy_pointer-Copies deep_copy_into_geth_networking_config-Copies
  deep_copy-Copies tx_pool_config = copy_pointer-Copies deep_copy_into_tx_pool_config-Copies
  deep_copy-Copies storage_config = copy_pointer-Copies (deep_copy_into_storage_config-Copies L)
  deep_copy-Copies op_geth_config = copy_pointer-Copies (deep_copy_into_op_geth_config-Copies L)
  deep_copy-Copies p2p_discovery_config =
      copy_pointer-Copies deep_copy_into_p2p_discovery_config-Copies
  deep_copy-Copies secret_key_ref = copy_pointer-Copies (deep_copy_into_secret_key_ref-Copies L)
  deep_copy-Copies p2p_config = copy_pointer-Copies (deep_copy_into_p2p_config-Copies L)
  deep_copy-Copies engine_config = copy_pointer-Copies (deep_copy_into_engine_config-Copies L)
  deep_copy-Copies op_node_config = copy_pointer-Copies (deep_copy_into_op_node_config-Copies L)
  deep_copy-Copies service_config = copy_pointer-Copies deep_copy_into_service_config-Copies
  deep_copy-Copies op_node_resources =
      copy_pointer-Copies (deep_copy_into_op_node_resources-Copies L)
  deep_copy-Copies op_node_spec = copy_pointer-Copies (deep_copy_into_op_node_spec-Copies L)
  deep_copy-Copies chain_head_info = copy_pointer-Copies (deep_copy_into_chain_head_info-Copies L)
  deep_copy-Copies node_info = copy_pointer-Copies (deep_copy_into_node_info-Copies L)
  deep_copy-Copies op_node_status = copy_pointer-Copies (deep_copy_into_op_node_status-Copies L)
  deep_copy-Copies config_source = copy_pointer-Copies (deep_copy_into_config_source-Copies L)
  deep_copy-Copies resource_config = copy_pointer-Copies (deep_copy_into_resource_config-Copies L)
  deep_copy-Copies security_config = copy_pointer-Copies (deep_copy_into_security_config-Copies L)
  deep_copy-Copies shared_config = copy_pointer-Copies (deep_copy_into_shared_config-Copies L)
  deep_copy-Copies optimism_network_spec =
      copy_pointer-Copies (deep_copy_into_optimism_network_spec-Copies L)
  deep_copy-Copies network_contract_addresses =
      copy_pointer-Copies (deep_copy_into_network_contract_addresses-Copies L)
  deep_copy-Copies network_info = copy_pointer-Copies (deep_copy_into_network_info-Copies L)
  deep_copy-Copies optimism_network_status =
      copy_pointer-Copies (deep_copy_into_optimism_network_status-Copies L)
  deep_copy-Copies op_node = copy_pointer-Copies (deep_copy_into_op_node-Copies L)
  deep_copy-Copies op_node_list = copy_pointer-Copies (deep_copy_into_op_node_list-Copies L)
  deep_copy-Copies optimism_network = copy_pointer-Copies (deep_copy_into_optimism_network-Copies L)
  deep_copy-Copies optimism_network_list =
      copy_pointer-Copies (deep_copy_into_optimism_network_list-Copies L)
  deep_copy-Copies op_batcher = copy_pointer-Copies (deep_copy_into_op_batcher-Copies L)
  deep_copy-Copies op_batcher_list = copy_pointer-Copies (deep_copy_into_op_batcher_list-Copies L)
  deep_copy-Copies op_proposer = copy_pointer-Copies (deep_copy_into_op_proposer-Copies L)
  deep_copy-Copies op_proposer_list = copy_pointer-Copies (deep_copy_into_op_proposer_list-Copies L)
  deep_copy-Copies op_challenger = copy_pointer-Copies (deep_copy_into_op_challenger-Copies L)
  deep_copy-Copies op_challenger_list =
      copy_pointer-Copies (deep_copy_into_op_challenger_list-Copies L)

  -- DeepCopy of each of the types, on a nil pointer and on any other whose addresses were in use
  -- (below `n`, where the free memory begins), returns a pointer to the same contents (nil for nil,
  -- and every nil pointer, slice or map in it where the original has one); no address in the copy is
  -- one of the original's, and none stands in it twice.
  pub deep_copy-IsDeepCopy :
      (t : ApiType) (p : Pointer (Struct L t)) (n : ℕ)
      → All (λ a. a < n) (addresses_pointer (addresses_of L t) p)
      → IsDeepCopy
          (contents_pointer (contents_of L t))
          (addresses_pointer (addresses_of L t))
          p
          (deep_copy L t p n).0
  deep_copy-IsDeepCopy t p n below =
      IsCopy-IsDeepCopy (contents_pointer (contents_of L t)) (addresses_pointer (addresses_of L t))
        p n (deep_copy L t p n).0 (deep_copy L t p n).1 ((deep_copy-Copies t).copied p n) below
