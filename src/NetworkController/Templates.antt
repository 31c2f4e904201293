-- ===== src/NetworkController/Templates.antt =====
-- generateRollupConfig and generateGenesisConfig of
-- internal/controller/optimismnetwork_controller.go, line by line of their templates.
use op_stack_operator.Prelude.{String, ◌<>◌}
use op_stack_operator.Text.{format_int}
use op_stack_operator.Api.Network.{OptimismNetwork, NetworkContractAddresses}

module _ {Q : Type 0} (network : OptimismNetwork Q) (addresses : NetworkContractAddresses) where
  unfoldable pub generate_rollup_config : String
  generate_rollup_config =
      "{\n"
      <> "\t\"genesis\": {\n"
      <> "\t\t\"l1\": {\n"
      <> "\t\t\t\"hash\": \"0x0000000000000000000000000000000000000000000000000000000000000000\",\n"
      <> "\t\t\t\"number\": 0\n"
      <> "\t\t},\n"
      <> "\t\t\"l2\": {\n"
      <> "\t\t\t\"hash\": \"0x0000000000000000000000000000000000000000000000000000000000000000\",\n"
      <> "\t\t\t\"number\": 0\n"
      <> "\t\t},\n"
      <> "\t\t\"l2_time\": 0,\n"
      <> "\t\t\"system_config\": {\n"
      <> "\t\t\t\"batcherAddr\": \"0x0000000000000000000000000000000000000000\",\n"
      <> "\t\t\t\"overhead\": \"0x00000000000000000000000000000000000000000000000000000000000000bc\",\n"
      <> "\t\t\t\"scalar\": \"0x00000000000000000000000000000000000000000000000000000000000a6fe0\",\n"
      <> "\t\t\t\"gasLimit\": 30000000\n"
      <> "\t\t}\n"
      <> "\t},\n"
      <> "\t\"block_time\": 2,\n"
      <> "\t\"max_sequencer_drift\": 600,\n"
      <> "\t\"seq_window_size\": 3600,\n"
      <> "\t\"channel_timeout\": 300,\n"
      <> "\t\"l1_chain_id\": "
      <> format_int network.spec.l1_chain_id
      <> ",\n"
      <> "\t\"l2_chain_id\": "
      <> format_int network.spec.chain_id
      <> ",\n"
      <> "\t\"regolith_time\": 0,\n"
      <> "\t\"canyon_time\": 0,\n"
      <> "\t\"delta_time\": 0,\n"
      <> "\t\"ecotone_time\": 0,\n"
      <> "\t\"fjord_time\": 0,\n"
      <> "\t\"granite_time\": 0,\n"
      <> "\t\"holocene_time\": 0,\n"
      <> "\t\"batch_inbox_address\": \"0xff00000000000000000000000000000000000000\",\n"
      <> "\t\"deposit_contract_address\": \""
      <> addresses.optimism_portal_addr
      <> "\",\n"
      <> "\t\"l1_system_config_address\": \""
      <> addresses.system_config_addr
      <> "\"\n"
      <> "}"

module _ {Q : Type 0} (network : OptimismNetwork Q) where
  unfoldable pub generate_genesis_config : NetworkContractAddresses → String
  generate_genesis_config _ =
      "{\n"
      <> "\t\"config\": {\n"
      <> "\t\t\"chainId\": "
      <> format_int network.spec.chain_id
      <> ",\n"
      <> "\t\t\"homesteadBlock\": 0,\n"
      <> "\t\t\"eip150Block\": 0,\n"
      <> "\t\t\"eip155Block\": 0,\n"
      <> "\t\t\"eip158Block\": 0,\n"
      <> "\t\t\"byzantiumBlock\": 0,\n"
      <> "\t\t\"constantinopleBlock\": 0,\n"
      <> "\t\t\"petersburgBlock\": 0,\n"
      <> "\t\t\"istanbulBlock\": 0,\n"
      <> "\t\t\"muirGlacierBlock\": 0,\n"
      <> "\t\t\"berlinBlock\": 0,\n"
      <> "\t\t\"londonBlock\": 4,\n"
      <> "\t\t\"arrowGlacierBlock\": 4,\n"
      <> "\t\t\"grayGlacierBlock\": 4,\n"
      <> "\t\t\"mergeNetsplitBlock\": 4,\n"
      <> "\t\t\"shanghaiTime\": 4,\n"
      <> "\t\t\"cancunTime\": 4,\n"
      <> "\t\t\"terminalTotalDifficulty\": 0,\n"
      <> "\t\t\"terminalTotalDifficultyPassed\": true,\n"
      <> "\t\t\"optimism\": {\n"
      <> "\t\t\t\"eip1559Elasticity\": 6,\n"
      <> "\t\t\t\"eip1559Denominator\": 50,\n"
      <> "\t\t\t\"eip1559DenominatorCanyon\": 250\n"
      <> "\t\t}\n"
      <> "\t},\n"
      <> "\t\"nonce\": \"0x0\",\n"
      <> "\t\"timestamp\": \"0x4\",\n"
      <> "\t\"extraData\": \"0x\",\n"
      <> "\t\"gasLimit\": \"0x1c9c380\",\n"
      <> "\t\"difficulty\": \"0x0\",\n"
      <> "\t\"mixHash\": \"0x0000000000000000000000000000000000000000000000000000000000000000\",\n"
      <> "\t\"coinbase\": \"0x4200000000000000000000000000000000000011\",\n"
      <> "\t\"alloc\": {},\n"
      <> "\t\"number\": \"0x0\",\n"
      <> "\t\"gasUsed\": \"0x0\",\n"
      <> "\t\"parentHash\": \"0x0000000000000000000000000000000000000000000000000000000000000000\",\n"
      <> "\t\"baseFeePerGas\": \"0x3b9aca00\",\n"
      <> "\t\"excessBlobGas\": \"0x0\",\n"
      <> "\t\"blobGasUsed\": \"0x0\"\n"
      <> "}"
