-- ===== src/Api/Node.antt =====
-- api/v1alpha1/opnode_types.go
use op_stack_operator.Prelude.{String, Bool, Option, List}
use op_stack_operator.Prelude.Int.{ℤ}
use op_stack_operator.Api.Meta.{ObjectMeta, Condition}
use op_stack_operator.Api.Network.{ResourceList}

pub record OptimismNetworkRef : Type 0 where
  pub name : String
  pub namespace : String

pub record SequencerReference : Type 0 where
  pub name : String
  pub namespace : String

-- corev1.SecretKeySelector
pub record SecretKeySelector : Type 0 where
  pub name : String
  pub key : String

pub record SecretKeyRef : Type 0 where
  pub secret_ref : Option SecretKeySelector
  pub generate : Bool

pub record P2pDiscoveryConfig : Type 0 where
  pub enabled : Bool
  pub bootnodes : List String

pub record P2pScoringConfig : Type 0 where
  pub enabled : Bool

pub record P2pConfig : Type 0 where
  pub enabled : Bool
  pub listen_port : ℤ
  pub discovery : Option P2pDiscoveryConfig
  pub static : List String
  pub peer_scoring : Option P2pScoringConfig
  pub bandwidth_limit : String
  pub private_key : Option SecretKeyRef

pub record CorsConfig : Type 0 where
  pub origins : List String
  pub methods : List String

pub record RpcConfig : Type 0 where
  pub enabled : Bool
  pub host : String
  pub port : ℤ
  pub enable_admin : Bool
  pub cors : Option CorsConfig

pub record SequencerConfig : Type 0 where
  pub enabled : Bool
  pub block_time : String
  pub max_tx_per_block : ℤ

pub record EngineConfig : Type 0 where
  pub jwt_secret : Option SecretKeyRef
  pub endpoint : String

pub record OpNodeConfig : Type 0 where
  pub sync_mode : String
  pub p2p : Option P2pConfig
  pub rpc : Option RpcConfig
  pub sequencer : Option SequencerConfig
  pub engine : Option EngineConfig

pub record StorageConfig (Q : Type 0) : Type 0 where
  pub size : Q
  pub storage_class : String
  pub access_mode : String

pub record HttpConfig : Type 0 where
  pub enabled : Bool
  pub host : String
  pub port : ℤ
  pub apis : List String
  pub cors : Option CorsConfig

pub record WsConfig : Type 0 where
  pub enabled : Bool
  pub host : String
  pub port : ℤ
  pub apis : List String
  pub origins : List String

pub record AuthRpcConfig : Type 0 where
  pub host : String
  pub port : ℤ
  pub apis : List String

pub record GethP2pConfig : Type 0 where
  pub port : ℤ
  pub max_peers : ℤ
  pub no_discovery : Bool
  pub net_restrict : String
  pub static : List String

pub record GethNetworkingConfig : Type 0 where
  pub http : Option HttpConfig
  pub ws : Option WsConfig
  pub auth_rpc : Option AuthRpcConfig
  pub p2p : Option GethP2pConfig

pub record TxPoolConfig : Type 0 where
  pub locals : List String
  pub no_locals : Bool
  pub journal : String
  pub journal_remotes : Bool
  pub lifetime : String
  pub price_bump : ℤ
  pub account_slots : ℤ
  pub global_slots : ℤ
  pub account_queue : ℤ
  pub global_queue : ℤ

pub record RollupConfig : Type 0 where
  pub disable_tx_pool_gossip : Bool
  pub compute_pending_block : Bool

pub record OpGethConfig (Q : Type 0) : Type 0 where
  pub network : String
  pub data_dir : String
  pub storage : Option (StorageConfig Q)
  pub sync_mode : String
  pub gc_mode : String
  pub state_scheme : String
  pub cache : ℤ
  pub db_engine : String
  pub networking : Option GethNetworkingConfig
  pub tx_pool : Option TxPoolConfig
  pub rollup : Option RollupConfig

-- corev1.ResourceRequirements
pub record ResourceRequirements (Q : Type 0) : Type 0 where
  pub requests : ResourceList Q
  pub limits : ResourceList Q

pub record OpNodeResources (Q : Type 0) : Type 0 where
  pub op_node : Option (ResourceRequirements Q)
  pub op_geth : Option (ResourceRequirements Q)

-- intstr.IntOrString, a struct of both fields
pub record IntOrString : Type 0 where
  pub int_val : ℤ
  pub str_val : String

pub record ServicePortConfig : Type 0 where
  pub name : String
  pub port : ℤ
  pub target_port : IntOrString
  pub protocol : String

pub record ServiceConfig : Type 0 where
  pub type : String
  pub annotations : List (String × String)
  pub ports : List ServicePortConfig

pub record OpNodeSpec (Q : Type 0) : Type 0 where
  pub optimism_network_ref : OptimismNetworkRef
  pub node_type : String
  pub sequencer_ref : Option SequencerReference
  pub l2_rpc_url : String
  pub op_node : OpNodeConfig
  pub op_geth : OpGethConfig Q
  pub resources : Option (OpNodeResources Q)
  pub service : Option ServiceConfig

pub record ChainHeadInfo : Type 0 where
  pub block_number : ℤ
  pub block_hash : String
  pub timestamp : ℤ

pub record SyncStatusInfo : Type 0 where
  pub current_block : ℤ
  pub highest_block : ℤ
  pub syncing : Bool

pub record NodeInfo : Type 0 where
  pub chain_head : Option ChainHeadInfo
  pub sync_status : Option SyncStatusInfo
  pub peer_count : ℤ
  pub engine_connected : Bool

pub record OpNodeStatus : Type 0 where
  pub phase : String
  pub conditions : List Condition
  pub observed_generation : ℤ
  pub node_info : Option NodeInfo

pub record OpNode (Q : Type 0) : Type 0 where
  pub meta : ObjectMeta
  pub spec : OpNodeSpec Q
  pub status : OpNodeStatus
