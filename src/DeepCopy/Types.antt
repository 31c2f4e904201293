-- ===== src/DeepCopy/Types.antt =====
-- The types of the package api/v1alpha1 with a DeepCopy method, and that method for each of them.
-- A type without pointers has its record of the API modules; any other, its struct as it stands in
-- memory.
use op_stack_operator.Api.Network.{ContractAddressConfig, LoggingConfig, MetricsConfig}
use op_stack_operator.DeepCopy.Plain.{
  deep_copy_contract_address_config, deep_copy_logging_config, deep_copy_metrics_config,
  deep_copy_op_batcher_spec, deep_copy_op_batcher_status, deep_copy_op_proposer_spec,
  deep_copy_op_proposer_status, deep_copy_op_challenger_spec, deep_copy_op_challenger_status,
  deep_copy_optimism_network_ref, deep_copy_p2p_scoring_config, deep_copy_rollup_config,
  deep_copy_sequencer_config, deep_copy_sequencer_reference, deep_copy_sync_status_info,
  deep_copy_service_port_config,
}
use op_stack_operator.Api.Scaffold.{
  OpBatcherSpec, OpBatcherStatus, OpProposerSpec, OpProposerStatus, OpChallengerSpec,
  OpChallengerStatus,
}
use op_stack_operator.Api.Node.{
  OptimismNetworkRef, P2pScoringConfig, RollupConfig, SequencerConfig, SequencerReference,
  SyncStatusInfo, ServicePortConfig,
}
use op_stack_operator.DeepCopy.Rpc.{
  CorsConfigStruct, deep_copy_cors_config, AuthRpcConfigStruct, deep_copy_auth_rpc_config,
  HttpConfigStruct, deep_copy_http_config, WsConfigStruct, deep_copy_ws_config, RpcConfigStruct,
  deep_copy_rpc_config,
}
use op_stack_operator.DeepCopy.Geth.{
  GethP2pConfigStruct, deep_copy_geth_p2p_config, GethNetworkingConfigStruct,
  deep_copy_geth_networking_config, TxPoolConfigStruct, deep_copy_tx_pool_config,
  StorageConfigStruct, deep_copy_storage_config, OpGethConfigStruct, deep_copy_op_geth_config,
}
use op_stack_operator.DeepCopy.NodeConfig.{
  P2pDiscoveryConfigStruct, deep_copy_p2p_discovery_config, SecretKeyRefStruct,
  deep_copy_secret_key_ref, P2pConfigStruct, deep_copy_p2p_config, EngineConfigStruct,
  deep_copy_engine_config, OpNodeConfigStruct, deep_copy_op_node_config,
}
use op_stack_operator.DeepCopy.NodeSpec.{
  ServiceConfigStruct, deep_copy_service_config, OpNodeResourcesStruct, deep_copy_op_node_resources,
  OpNodeSpecStruct, deep_copy_op_node_spec,
}
use op_stack_operator.DeepCopy.NodeStatus.{
  ChainHeadInfoStruct, deep_copy_chain_head_info, NodeInfoStruct, deep_copy_node_info,
  OpNodeStatusStruct, deep_copy_op_node_status,
}
use op_stack_operator.DeepCopy.NetworkConfig.{
  ConfigSourceStruct, deep_copy_config_source, ResourceConfigStruct, deep_copy_resource_config,
  SecurityConfigStruct, deep_copy_security_config, SharedConfigStruct, deep_copy_shared_config,
}
use op_stack_operator.DeepCopy.NetworkParts.{
  OptimismNetworkSpecStruct, deep_copy_optimism_network_spec, NetworkContractAddressesStruct,
  deep_copy_network_contract_addresses, NetworkInfoStruct, deep_copy_network_info,
  OptimismNetworkStatusStruct, deep_copy_optimism_network_status,
}
use op_stack_operator.DeepCopy.Resources.{
  OpNodeStruct, deep_copy_op_node, OpNodeListStruct, deep_copy_op_node_list, OptimismNetworkStruct,
  deep_copy_optimism_network, OptimismNetworkListStruct, deep_copy_optimism_network_list,
}
use op_stack_operator.DeepCopy.Scaffold.{
  OpBatcherStruct, deep_copy_op_batcher, OpBatcherListStruct, deep_copy_op_batcher_list,
  OpProposerStruct, deep_copy_op_proposer, OpProposerListStruct, deep_copy_op_proposer_list,
  OpChallengerStruct, deep_copy_op_challenger, OpChallengerListStruct, deep_copy_op_challenger_list,
}
use op_stack_operator.DeepCopy.Library.{Library}
use op_stack_operator.DeepCopy.Memory.{Pointer, Alloc}

-- The names of the types.
pub data ApiType : Type 0 where
  contract_address_config logging_config metrics_config op_batcher_spec : ApiType
  op_batcher_status op_proposer_spec op_proposer_status op_challenger_spec : ApiType
  op_challenger_status optimism_network_ref p2p_scoring_config rollup_config : ApiType
  sequencer_config sequencer_reference sync_status_info service_port_config cors_config : ApiType
  auth_rpc_config http_config ws_config rpc_config geth_p2p_config : ApiType
  geth_networking_config tx_pool_config storage_config op_geth_config : ApiType
  p2p_discovery_config secret_key_ref p2p_config engine_config op_node_config : ApiType
  service_config op_node_resources op_node_spec chain_head_info node_info op_node_status : ApiType
  config_source resource_config security_config shared_config optimism_network_spec : ApiType
  network_contract_addresses network_info optimism_network_status op_node op_node_list : ApiType
  optimism_network optimism_network_list op_batcher op_batcher_list op_proposer : ApiType
  op_proposer_list op_challenger op_challenger_list : ApiType

module _ (L : Library) where
  abbrev pub Struct : ApiType → Type 0
  Struct contract_address_config = ContractAddressConfig
  Struct logging_config = LoggingConfig
  Struct metrics_config = MetricsConfig
  Struct op_batcher_spec = OpBatcherSpec
  Struct op_batcher_status = OpBatcherStatus
  Struct op_proposer_spec = OpProposerSpec
  Struct op_proposer_status = OpProposerStatus
  Struct op_challenger_spec = OpChallengerSpec
  Struct op_challenger_status = OpChallengerStatus
  Struct optimism_network_ref = OptimismNetworkRef
  Struct p2p_scoring_config = P2pScoringConfig
  Struct rollup_config = RollupConfig
  Struct sequencer_config = SequencerConfig
  Struct sequencer_reference = SequencerReference
  Struct sync_status_info = SyncStatusInfo
  Struct service_port_config = ServicePortConfig
  Struct cors_config = CorsConfigStruct
  Struct auth_rpc_config = AuthRpcConfigStruct
  Struct http_config = HttpConfigStruct
  Struct ws_config = WsConfigStruct
  Struct rpc_config = RpcConfigStruct
  Struct geth_p2p_config = GethP2pConfigStruct
  Struct geth_networking_config = GethNetworkingConfigStruct
  Struct tx_pool_config = TxPoolConfigStruct
  Struct storage_config = StorageConfigStruct L
  Struct op_geth_config = OpGethConfigStruct L
  Struct p2p_discovery_config = P2pDiscoveryConfigStruct
  Struct secret_key_ref = SecretKeyRefStruct L
  Struct p2p_config = P2pConfigStruct L
  Struct engine_config = EngineConfigStruct L
  Struct op_node_config = OpNodeConfigStruct L
  Struct service_config = ServiceConfigStruct
  Struct op_node_resources = OpNodeResourcesStruct L
  Struct op_node_spec = OpNodeSpecStruct L
  Struct chain_head_info = ChainHeadInfoStruct L
  Struct node_info = NodeInfoStruct L
  Struct op_node_status = OpNodeStatusStruct L
  Struct config_source = ConfigSourceStruct L
  Struct resource_config = ResourceConfigStruct L
  Struct security_config = SecurityConfigStruct L
  Struct shared_config = SharedConfigStruct L
  Struct optimism_network_spec = OptimismNetworkSpecStruct L
  Struct network_contract_addresses = NetworkContractAddressesStruct L
  Struct network_info = NetworkInfoStruct L
  Struct optimism_network_status = OptimismNetworkStatusStruct L
  Struct op_node = OpNodeStruct L
  Struct op_node_list = OpNodeListStruct L
  Struct optimism_network = OptimismNetworkStruct L
  Struct optimism_network_list = OptimismNetworkListStruct L
  Struct op_batcher = OpBatcherStruct L
  Struct op_batcher_list = OpBatcherListStruct L
  Struct op_proposer = OpProposerStruct L
  Struct op_proposer_list = OpProposerListStruct L
  Struct op_challenger = OpChallengerStruct L
  Struct op_challenger_list = OpChallengerListStruct L

  -- The call x.DeepCopy(), by the type of `x`.
  unfoldable pub deep_copy : (t : ApiType) → Pointer (Struct t) → Alloc (Pointer (Struct t))
  deep_copy contract_address_config = deep_copy_contract_address_config
  deep_copy logging_config = deep_copy_logging_config
  deep_copy metrics_config = deep_copy_metrics_config
  deep_copy op_batcher_spec = deep_copy_op_batcher_spec
  deep_copy op_batcher_status = deep_copy_op_batcher_status
  deep_copy op_proposer_spec = deep_copy_op_proposer_spec
  deep_copy op_proposer_status = deep_copy_op_proposer_status
  deep_copy op_challenger_spec = deep_copy_op_challenger_spec
  deep_copy op_challenger_status = deep_copy_op_challenger_status
  deep_copy optimism_network_ref = deep_copy_optimism_network_ref
  deep_copy p2p_scoring_config = deep_copy_p2p_scoring_config
  deep_copy rollup_config = deep_copy_rollup_config
  deep_copy sequencer_config = deep_copy_sequencer_config
  deep_copy sequencer_reference = deep_copy_sequencer_reference
  deep_copy sync_status_info = deep_copy_sync_status_info
  deep_copy service_port_config = deep_copy_service_port_config
  deep_copy cors_config = deep_copy_cors_config
  deep_copy auth_rpc_config = deep_copy_auth_rpc_config
  deep_copy http_config = deep_copy_http_config
  deep_copy ws_config = deep_copy_ws_config
  deep_copy rpc_config = deep_copy_rpc_config
  deep_copy geth_p2p_config = deep_copy_geth_p2p_config
  deep_copy geth_networking_config = deep_copy_geth_networking_config
  deep_copy tx_pool_config = deep_copy_tx_pool_config
  deep_copy storage_config = deep_copy_storage_config L
  deep_copy op_geth_config = deep_copy_op_geth_config L
  deep_copy p2p_discovery_config = deep_copy_p2p_discovery_config
  deep_copy secret_key_ref = deep_copy_secret_key_ref L
  deep_copy p2p_config = deep_copy_p2p_config L
  deep_copy engine_config = deep_copy_engine_config L
  deep_copy op_node_config = deep_copy_op_node_config L
  deep_copy service_config = deep_copy_service_config
  deep_copy op_node_resources = deep_copy_op_node_resources L
  deep_copy op_node_spec = deep_copy_op_node_spec L
  deep_copy chain_head_info = deep_copy_chain_head_info L
  deep_copy node_info = deep_copy_node_info L
  deep_copy op_node_status = deep_copy_op_node_status L
  deep_copy config_source = deep_copy_config_source L
  deep_copy resource_config = deep_copy_resource_config L
  deep_copy security_config = deep_copy_security_config L
  deep_copy shared_config = deep_copy_shared_config L
  deep_copy optimism_network_spec = deep_copy_optimism_network_spec L
  deep_copy network_contract_addresses = deep_copy_network_contract_addresses L
  deep_copy network_info = deep_copy_network_info L
  deep_copy optimism_network_status = deep_copy_optimism_network_status L
  deep_copy op_node = deep_copy_op_node L
  deep_copy op_node_list = deep_copy_op_node_list L
  deep_copy optimism_network = deep_copy_optimism_network L
  deep_copy optimism_network_list = deep_copy_optimism_network_list L
  deep_copy op_batcher = deep_copy_op_batcher L
  deep_copy op_batcher_list = deep_copy_op_batcher_list L
  deep_copy op_proposer = deep_copy_op_proposer L
  deep_copy op_proposer_list = deep_copy_op_proposer_list L
  deep_copy op_challenger = deep_copy_op_challenger L
  deep_copy op_challenger_list = deep_copy_op_challenger_list L
