-- ===== src/Api/Network.antt =====
-- api/v1alpha1/optimismnetwork_types.go
use op_stack_operator.Prelude.{String, Bool, Option, List}
use op_stack_operator.Prelude.Int.{ℤ}
use op_stack_operator.Api.Meta.{ObjectMeta, Condition}

-- corev1.ConfigMapKeySelector
pub record ConfigMapKeySelector : Type 0 where
  pub name : String
  pub key : String

pub record ConfigSource : Type 0 where
  pub inline : String
  pub config_map_ref : Option ConfigMapKeySelector
  pub auto_discover : Bool

pub record ContractAddressConfig : Type 0 where
  pub system_config_addr : String
  pub l2_output_oracle_addr : String
  pub dispute_game_factory_addr : String
  pub optimism_portal_addr : String
  pub discovery_method : String
  pub cache_timeout : ℤ

pub record LoggingConfig : Type 0 where
  pub level : String
  pub format : String
  pub color : Bool

pub record MetricsConfig : Type 0 where
  pub enabled : Bool
  pub port : ℤ
  pub path : String

-- corev1.ResourceList, by resource name
abbrev pub ResourceList : Type 0 → Type 0
ResourceList Q = List (String × Q)

pub record ResourceConfig (Q : Type 0) : Type 0 where
  pub requests : ResourceList Q
  pub limits : ResourceList Q

-- corev1.SeccompProfile
pub record SeccompProfile : Type 0 where
  pub type : String
  pub localhost_profile : Option String

pub record SecurityConfig : Type 0 where
  pub run_as_non_root : Option Bool
  pub run_as_user : Option ℤ
  pub fs_group : Option ℤ
  pub seccomp_profile : Option SeccompProfile

pub record SharedConfig (Q : Type 0) : Type 0 where
  pub logging : Option LoggingConfig
  pub metrics : Option MetricsConfig
  pub resources : Option (ResourceConfig Q)
  pub security : Option SecurityConfig

pub record OptimismNetworkSpec (Q : Type 0) : Type 0 where
  pub network_name : String
  pub chain_id : ℤ
  pub l1_chain_id : ℤ
  pub l1_rpc_url : String
  pub l1_beacon_url : String
  pub l1_rpc_timeout : ℤ
  pub rollup_config : Option ConfigSource
  pub l2_genesis : Option ConfigSource
  pub contract_addresses : Option ContractAddressConfig
  pub shared_config : Option (SharedConfig Q)

pub record NetworkContractAddresses : Type 0 where
  pub l2_output_oracle_addr : String
  pub dispute_game_factory_addr : String
  pub optimism_portal_addr : String
  pub system_config_addr : String
  pub l1_cross_domain_messenger_addr : String
  pub l1_standard_bridge_addr : String
  pub l2_cross_domain_messenger_addr : String
  pub l2_standard_bridge_addr : String
  pub l2_to_l1_message_passer_addr : String
  pub last_discovery_time : ℤ
  pub discovery_method : String

pub record NetworkInfo : Type 0 where
  pub deployment_timestamp : ℤ
  pub last_updated : ℤ
  pub discovered_contracts : Option NetworkContractAddresses

pub record OptimismNetworkStatus : Type 0 where
  pub phase : String
  pub conditions : List Condition
  pub observed_generation : ℤ
  pub network_info : Option NetworkInfo

pub record OptimismNetwork (Q : Type 0) : Type 0 where
  pub meta : ObjectMeta
  pub spec : OptimismNetworkSpec Q
  pub status : OptimismNetworkStatus
