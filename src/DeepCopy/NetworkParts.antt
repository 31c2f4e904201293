-- ===== src/DeepCopy/NetworkParts.antt =====
-- The spec and the status of an OptimismNetwork.
use op_stack_operator.Api.Network.{ContractAddressConfig}
use op_stack_operator.DeepCopy.Copies.{
  Copies, copy_each-Copies, copy_pointer-Copies, fields-Copies, pure-Copies, ◌then_field◌,
}
use op_stack_operator.DeepCopy.Library.{Library}
use op_stack_operator.DeepCopy.Memory.{
  Alloc, Pointer, addresses_each, addresses_pointer, contents_each, contents_pointer, copy_each,
  copy_pointer, itself, no_addresses, pure, ◌>>=◌,
}
use op_stack_operator.DeepCopy.NetworkConfig.{
  ConfigSourceStruct, SharedConfigStruct, addresses_config_source, addresses_shared_config,
  contents_config_source, contents_shared_config, deep_copy_into_config_source,
  deep_copy_into_config_source-Copies, deep_copy_into_shared_config,
  deep_copy_into_shared_config-Copies,
}
use op_stack_operator.Prelude.{List, String, refl, ℕ, ◌++◌}
use op_stack_operator.Prelude.Int.{ℤ}

module _ (L : Library) where
  pub record OptimismNetworkSpecStruct : Type 0 where
    pub network_name : String
    pub chain_id : ℤ
    pub l1_chain_id : ℤ
    pub l1_rpc_url : String
    pub l1_beacon_url : String
    pub l1_rpc_timeout : ℤ
    pub rollup_config : Pointer (ConfigSourceStruct L)
    pub l2_genesis : Pointer (ConfigSourceStruct L)
    pub contract_addresses : Pointer ContractAddressConfig
    pub shared_config : Pointer (SharedConfigStruct L)

  unfoldable pub deep_copy_into_optimism_network_spec :
      OptimismNetworkSpecStruct → Alloc OptimismNetworkSpecStruct
  deep_copy_into_optimism_network_spec x = do
    rollup_config ← copy_pointer (deep_copy_into_config_source L) x.rollup_config
    l2_genesis ← copy_pointer (deep_copy_into_config_source L) x.l2_genesis
    contract_addresses ← copy_pointer pure x.contract_addresses
    shared_config ← copy_pointer (deep_copy_into_shared_config L) x.shared_config
    pure (record x {
      rollup_config = rollup_config;
      l2_genesis = l2_genesis;
      contract_addresses = contract_addresses;
      shared_config = shared_config;
    })

  unfoldable pub deep_copy_optimism_network_spec :
      Pointer OptimismNetworkSpecStruct → Alloc (Pointer OptimismNetworkSpecStruct)
  deep_copy_optimism_network_spec = copy_pointer deep_copy_into_optimism_network_spec

  unfoldable pub contents_optimism_network_spec :
      OptimismNetworkSpecStruct → OptimismNetworkSpecStruct
  contents_optimism_network_spec x = record x {
    rollup_config = contents_pointer (contents_config_source L) x.rollup_config;
    l2_genesis = contents_pointer (contents_config_source L) x.l2_genesis;
    contract_addresses = contents_pointer itself x.contract_addresses;
    shared_config = contents_pointer (contents_shared_config L) x.shared_config;
  }

  unfoldable pub addresses_optimism_network_spec : OptimismNetworkSpecStruct → List ℕ
  addresses_optimism_network_spec x =
      addresses_pointer (addresses_config_source L) x.rollup_config
      ++ (addresses_pointer (addresses_config_source L) x.l2_genesis
          ++ (addresses_pointer no_addresses x.contract_addresses
              ++ addresses_pointer (addresses_shared_config L) x.shared_config))

  pub deep_copy_into_optimism_network_spec-Copies :
      Copies contents_optimism_network_spec addresses_optimism_network_spec
        deep_copy_into_optimism_network_spec
  unfolding deep_copy_into_optimism_network_spec contents_optimism_network_spec
      addresses_optimism_network_spec
  deep_copy_into_optimism_network_spec-Copies =
      fields-Copies
        (λ (x : OptimismNetworkSpecStruct).
          (x.rollup_config, (x.l2_genesis, (x.contract_addresses, x.shared_config))))
        (λ x (rollup_config, (l2_genesis, (contract_addresses, shared_config))). record x {
          rollup_config = rollup_config;
          l2_genesis = l2_genesis;
          contract_addresses = contract_addresses;
          shared_config = shared_config;
        })
        (λ x p. refl) (λ x p q. refl)
        (copy_pointer-Copies (deep_copy_into_config_source-Copies L)
          then_field copy_pointer-Copies (deep_copy_into_config_source-Copies L)
          then_field copy_pointer-Copies pure-Copies
          then_field copy_pointer-Copies (deep_copy_into_shared_config-Copies L))

  pub record NetworkContractAddressesStruct : Type 0 where
    pub l2_output_oracle_addr : String
    pub dispute_game_factory_addr : String
    pub optimism_portal_addr : String
    pub system_config_addr : String
    pub l1_cross_domain_messenger_addr : String
    pub l1_standard_bridge_addr : String
    pub l2_cross_domain_messenger_addr : String
    pub l2_standard_bridge_addr : String
    pub l2_to_l1_message_passer_addr : String
    pub last_discovery_time : L.time.Carrier
    pub discovery_method : String

  unfoldable pub deep_copy_into_network_contract_addresses :
      NetworkContractAddressesStruct → Alloc NetworkContractAddressesStruct
  deep_copy_into_network_contract_addresses x = do
    last_discovery_time ← L.time.deep_copy x.last_discovery_time
    pure (record x { last_discovery_time = last_discovery_time })

  unfoldable pub deep_copy_network_contract_addresses :
      Pointer NetworkContractAddressesStruct → Alloc (Pointer NetworkContractAddressesStruct)
  deep_copy_network_contract_addresses = copy_pointer deep_copy_into_network_contract_addresses

  unfoldable pub contents_network_contract_addresses :
      NetworkContractAddressesStruct → NetworkContractAddressesStruct
  contents_network_contract_addresses x = record x {
    last_discovery_time = L.time.contents x.last_discovery_time;
  }

  unfoldable pub addresses_network_contract_addresses : NetworkContractAddressesStruct → List ℕ
  addresses_network_contract_addresses x = L.time.addresses x.last_discovery_time

  pub deep_copy_into_network_contract_addresses-Copies :
      Copies contents_network_contract_addresses addresses_network_contract_addresses
        deep_copy_into_network_contract_addresses
  unfolding deep_copy_into_network_contract_addresses contents_network_contract_addresses
      addresses_network_contract_addresses
  deep_copy_into_network_contract_addresses-Copies =
      fields-Copies (λ (x : NetworkContractAddressesStruct). x.last_discovery_time)
        (λ x last_discovery_time. record x { last_discovery_time = last_discovery_time })
        (λ x p. refl) (λ x p q. refl) (L.time.copies)

  pub record NetworkInfoStruct : Type 0 where
    pub deployment_timestamp : L.time.Carrier
    pub last_updated : L.time.Carrier
    pub discovered_contracts : Pointer NetworkContractAddressesStruct

  unfoldable pub deep_copy_into_network_info : NetworkInfoStruct → Alloc NetworkInfoStruct
  deep_copy_into_network_info x = do
    deployment_timestamp ← L.time.deep_copy x.deployment_timestamp
    last_updated ← L.time.deep_copy x.last_updated
    discovered_contracts ←
        copy_pointer deep_copy_into_network_contract_addresses x.discovered_contracts
    pure (record x {
      deployment_timestamp = deployment_timestamp;
      last_updated = last_updated;
      discovered_contracts = discovered_contracts;
    })

  unfoldable pub deep_copy_network_info :
      Pointer NetworkInfoStruct → Alloc (Pointer NetworkInfoStruct)
  deep_copy_network_info = copy_pointer deep_copy_into_network_info

  unfoldable pub contents_network_info : NetworkInfoStruct → NetworkInfoStruct
  contents_network_info x = record x {
    deployment_timestamp = L.time.contents x.deployment_timestamp;
    last_updated = L.time.contents x.last_updated;
    discovered_contracts =
        contents_pointer contents_network_contract_addresses x.discovered_contracts;
  }

  unfoldable pub addresses_network_info : NetworkInfoStruct → List ℕ
  addresses_network_info x =
      L.time.addresses x.deployment_timestamp
      ++ (L.time.addresses x.last_updated
          ++ addresses_pointer addresses_network_contract_addresses x.discovered_contracts)

  pub deep_copy_into_network_info-Copies :
      Copies contents_network_info addresses_network_info deep_copy_into_network_info
  unfolding deep_copy_into_network_info contents_network_info addresses_network_info
  deep_copy_into_network_info-Copies =
      fields-Copies
        (λ (x : NetworkInfoStruct).
          (x.deployment_timestamp, (x.last_updated, x.discovered_contracts)))
        (λ x (deployment_timestamp, (last_updated, discovered_contracts)). record x {
          deployment_timestamp = deployment_timestamp;
          last_updated = last_updated;
          discovered_contracts = discovered_contracts;
        })
        (λ x p. refl) (λ x p q. refl)
        (L.time.copies
          then_field L.time.copies
          then_field copy_pointer-Copies deep_copy_into_network_contract_addresses-Copies)

  pub record OptimismNetworkStatusStruct : Type 0 where
    pub phase : String
    pub conditions : Pointer (List L.condition.Carrier)
    pub observed_generation : ℤ
    pub network_info : Pointer NetworkInfoStruct

  unfoldable pub deep_copy_into_optimism_network_status :
      OptimismNetworkStatusStruct → Alloc OptimismNetworkStatusStruct
  deep_copy_into_optimism_network_status x = do
    conditions ← copy_pointer (copy_each L.condition.deep_copy) x.conditions
    network_info ← copy_pointer deep_copy_into_network_info x.network_info
    pure (record x { conditions = conditions; network_info = network_info })

  unfoldable pub deep_copy_optimism_network_status :
      Pointer OptimismNetworkStatusStruct → Alloc (Pointer OptimismNetworkStatusStruct)
  deep_copy_optimism_network_status = copy_pointer deep_copy_into_optimism_network_status

  unfoldable pub contents_optimism_network_status :
      OptimismNetworkStatusStruct → OptimismNetworkStatusStruct
  contents_optimism_network_status x = record x {
    conditions = contents_pointer (contents_each L.condition.contents) x.conditions;
    network_info = contents_pointer contents_network_info x.network_info;
  }

  unfoldable pub addresses_optimism_network_status : OptimismNetworkStatusStruct → List ℕ
  addresses_optimism_network_status x =
      addresses_pointer (addresses_each L.condition.addresses) x.conditions
      ++ addresses_pointer addresses_network_info x.network_info

  pub deep_copy_into_optimism_network_status-Copies :
      Copies contents_optimism_network_status addresses_optimism_network_status
        deep_copy_into_optimism_network_status
  unfolding deep_copy_into_optimism_network_status contents_optimism_network_status
      addresses_optimism_network_status
  deep_copy_into_optimism_network_status-Copies =
      fields-Copies (λ (x : OptimismNetworkStatusStruct). (x.conditions, x.network_info))
        (λ x (conditions, network_info). record x {
          conditions = conditions;
          network_info = network_info;
        })
        (λ x p. refl) (λ x p q. refl)
        (copy_pointer-Copies (copy_each-Copies L.condition.copies)
          then_field copy_pointer-Copies deep_copy_into_network_info-Copies)
