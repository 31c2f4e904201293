-- ===== src/DeepCopy/Plain.antt =====
-- The types without pointers, whose deep copy is an assignment.
use op_stack_operator.Api.Network.{ContractAddressConfig, LoggingConfig, MetricsConfig}
use op_stack_operator.Api.Node.{
  OptimismNetworkRef, P2pScoringConfig, RollupConfig, SequencerConfig, SequencerReference,
  ServicePortConfig, SyncStatusInfo,
}
use op_stack_operator.Api.Scaffold.{
  OpBatcherSpec, OpBatcherStatus, OpChallengerSpec, OpChallengerStatus, OpProposerSpec,
  OpProposerStatus,
}
use op_stack_operator.DeepCopy.Memory.{Alloc, Pointer, copy_pointer, pure}

unfoldable pub deep_copy_into_contract_address_config :
    ContractAddressConfig → Alloc ContractAddressConfig
deep_copy_into_contract_address_config x = pure x

unfoldable pub deep_copy_contract_address_config :
    Pointer ContractAddressConfig → Alloc (Pointer ContractAddressConfig)
deep_copy_contract_address_config = copy_pointer deep_copy_into_contract_address_config

unfoldable pub deep_copy_into_logging_config : LoggingConfig → Alloc LoggingConfig
deep_copy_into_logging_config x = pure x

unfoldable pub deep_copy_logging_config : Pointer LoggingConfig → Alloc (Pointer LoggingConfig)
deep_copy_logging_config = copy_pointer deep_copy_into_logging_config

unfoldable pub deep_copy_into_metrics_config : MetricsConfig → Alloc MetricsConfig
deep_copy_into_metrics_config x = pure x

unfoldable pub deep_copy_metrics_config : Pointer MetricsConfig → Alloc (Pointer MetricsConfig)
deep_copy_metrics_config = copy_pointer deep_copy_into_metrics_config

unfoldable pub deep_copy_into_op_batcher_spec : OpBatcherSpec → Alloc OpBatcherSpec
deep_copy_into_op_batcher_spec x = pure x

unfoldable pub deep_copy_op_batcher_spec : Pointer OpBatcherSpec → Alloc (Pointer OpBatcherSpec)
deep_copy_op_batcher_spec = copy_pointer deep_copy_into_op_batcher_spec

unfoldable pub deep_copy_into_op_batcher_status : OpBatcherStatus → Alloc OpBatcherStatus
deep_copy_into_op_batcher_status x = pure x

unfoldable pub deep_copy_op_batcher_status :
    Pointer OpBatcherStatus → Alloc (Pointer OpBatcherStatus)
deep_copy_op_batcher_status = copy_pointer deep_copy_into_op_batcher_status

unfoldable pub deep_copy_into_op_proposer_spec : OpProposerSpec → Alloc OpProposerSpec
deep_copy_into_op_proposer_spec x = pure x

unfoldable pub deep_copy_op_proposer_spec : Pointer OpProposerSpec → Alloc (Pointer OpProposerSpec)
deep_copy_op_proposer_spec = copy_pointer deep_copy_into_op_proposer_spec

unfoldable pub deep_copy_into_op_proposer_status : OpProposerStatus → Alloc OpProposerStatus
deep_copy_into_op_proposer_status x = pure x

unfoldable pub deep_copy_op_proposer_status :
    Pointer OpProposerStatus → Alloc (Pointer OpProposerStatus)
deep_copy_op_proposer_status = copy_pointer deep_copy_into_op_proposer_status

unfoldable pub deep_copy_into_op_challenger_spec : OpChallengerSpec → Alloc OpChallengerSpec
deep_copy_into_op_challenger_spec x = pure x

unfoldable pub deep_copy_op_challenger_spec :
    Pointer OpChallengerSpec → Alloc (Pointer OpChallengerSpec)
deep_copy_op_challenger_spec = copy_pointer deep_copy_into_op_challenger_spec

unfoldable pub deep_copy_into_op_challenger_status : OpChallengerStatus → Alloc OpChallengerStatus
deep_copy_into_op_challenger_status x = pure x

unfoldable pub deep_copy_op_challenger_status :
    Pointer OpChallengerStatus → Alloc (Pointer OpChallengerStatus)
deep_copy_op_challenger_status = copy_pointer deep_copy_into_op_challenger_status

unfoldable pub deep_copy_into_optimism_network_ref : OptimismNetworkRef → Alloc OptimismNetworkRef
deep_copy_into_optimism_network_ref x = pure x

unfoldable pub deep_copy_optimism_network_ref :
    Pointer OptimismNetworkRef → Alloc (Pointer OptimismNetworkRef)
deep_copy_optimism_network_ref = copy_pointer deep_copy_into_optimism_network_ref

unfoldable pub deep_copy_into_p2p_scoring_config : P2pScoringConfig → Alloc P2pScoringConfig
deep_copy_into_p2p_scoring_config x = pure x

unfoldable pub deep_copy_p2p_scoring_config :
    Pointer P2pScoringConfig → Alloc (Pointer P2pScoringConfig)
deep_copy_p2p_scoring_config = copy_pointer deep_copy_into_p2p_scoring_config

unfoldable pub deep_copy_into_rollup_config : RollupConfig → Alloc RollupConfig
deep_copy_into_rollup_config x = pure x

unfoldable pub deep_copy_rollup_config : Pointer RollupConfig → Alloc (Pointer RollupConfig)
deep_copy_rollup_config = copy_pointer deep_copy_into_rollup_config

unfoldable pub deep_copy_into_sequencer_config : SequencerConfig → Alloc SequencerConfig
deep_copy_into_sequencer_config x = pure x

unfoldable pub deep_copy_sequencer_config :
    Pointer SequencerConfig → Alloc (Pointer SequencerConfig)
deep_copy_sequencer_config = copy_pointer deep_copy_into_sequencer_config

unfoldable pub deep_copy_into_sequencer_reference : SequencerReference → Alloc SequencerReference
deep_copy_into_sequencer_reference x = pure x

unfoldable pub deep_copy_sequencer_reference :
    Pointer SequencerReference → Alloc (Pointer SequencerReference)
deep_copy_sequencer_reference = copy_pointer deep_copy_into_sequencer_reference

unfoldable pub deep_copy_into_sync_status_info : SyncStatusInfo → Alloc SyncStatusInfo
deep_copy_into_sync_status_info x = pure x

unfoldable pub deep_copy_sync_status_info : Pointer SyncStatusInfo → Alloc (Pointer SyncStatusInfo)
deep_copy_sync_status_info = copy_pointer deep_copy_into_sync_status_info

unfoldable pub deep_copy_into_service_port_config : ServicePortConfig → Alloc ServicePortConfig
deep_copy_into_service_port_config x = pure (record x { target_port = x.target_port })

unfoldable pub deep_copy_service_port_config :
    Pointer ServicePortConfig → Alloc (Pointer ServicePortConfig)
deep_copy_service_port_config = copy_pointer deep_copy_into_service_port_config
