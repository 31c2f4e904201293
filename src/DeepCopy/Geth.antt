-- ===== src/DeepCopy/Geth.antt =====
-- The configuration of op-geth.
use op_stack_operator.Api.Node.{RollupConfig}
use op_stack_operator.DeepCopy.Copies.{
  Copies, copy_pointer-Copies, fields-Copies, pure-Copies, ◌then_field◌,
}
use op_stack_operator.DeepCopy.Library.{Library}
use op_stack_operator.DeepCopy.Memory.{
  Alloc, Pointer, addresses_pointer, contents_pointer, copy_pointer, itself, no_addresses, pure,
  ◌>>=◌,
}
use op_stack_operator.DeepCopy.Rpc.{
  AuthRpcConfigStruct, HttpConfigStruct, WsConfigStruct, addresses_auth_rpc_config,
  addresses_http_config, addresses_ws_config, contents_auth_rpc_config, contents_http_config,
  contents_ws_config, deep_copy_into_auth_rpc_config, deep_copy_into_auth_rpc_config-Copies,
  deep_copy_into_http_config, deep_copy_into_http_config-Copies, deep_copy_into_ws_config,
  deep_copy_into_ws_config-Copies,
}
use op_stack_operator.Prelude.{Bool, List, String, refl, ℕ, ◌++◌}
use op_stack_operator.Prelude.Int.{ℤ}

pub record GethP2pConfigStruct : Type 0 where
  pub port : ℤ
  pub max_peers : ℤ
  pub no_discovery : Bool
  pub net_restrict : String
  pub static : Pointer (List String)

unfoldable pub deep_copy_into_geth_p2p_config : GethP2pConfigStruct → Alloc GethP2pConfigStruct
deep_copy_into_geth_p2p_config x = do
  static ← copy_pointer pure x.static
  pure (record x { static = static })

unfoldable pub deep_copy_geth_p2p_config :
    Pointer GethP2pConfigStruct → Alloc (Pointer GethP2pConfigStruct)
deep_copy_geth_p2p_config = copy_pointer deep_copy_into_geth_p2p_config

unfoldable pub contents_geth_p2p_config : GethP2pConfigStruct → GethP2pConfigStruct
contents_geth_p2p_config x = record x { static = contents_pointer itself x.static }

unfoldable pub addresses_geth_p2p_config : GethP2pConfigStruct → List ℕ
addresses_geth_p2p_config x = addresses_pointer no_addresses x.static

pub deep_copy_into_geth_p2p_config-Copies :
    Copies contents_geth_p2p_config addresses_geth_p2p_config deep_copy_into_geth_p2p_config
unfolding deep_copy_into_geth_p2p_config contents_geth_p2p_config addresses_geth_p2p_config
deep_copy_into_geth_p2p_config-Copies =
    fields-Copies (λ (x : GethP2pConfigStruct). x.static) (λ x static. record x { static = static })
      (λ x p. refl) (λ x p q. refl) (copy_pointer-Copies pure-Copies)

pub record GethNetworkingConfigStruct : Type 0 where
  pub http : Pointer HttpConfigStruct
  pub ws : Pointer WsConfigStruct
  pub auth_rpc : Pointer AuthRpcConfigStruct
  pub p2p : Pointer GethP2pConfigStruct

unfoldable pub deep_copy_into_geth_networking_config :
    GethNetworkingConfigStruct → Alloc GethNetworkingConfigStruct
deep_copy_into_geth_networking_config x = do
  http ← copy_pointer deep_copy_into_http_config x.http
  ws ← copy_pointer deep_copy_into_ws_config x.ws
  auth_rpc ← copy_pointer deep_copy_into_auth_rpc_config x.auth_rpc
  p2p ← copy_pointer deep_copy_into_geth_p2p_config x.p2p
  pure (record x { http = http; ws = ws; auth_rpc = auth_rpc; p2p = p2p })

unfoldable pub deep_copy_geth_networking_config :
    Pointer GethNetworkingConfigStruct → Alloc (Pointer GethNetworkingConfigStruct)
deep_copy_geth_networking_config = copy_pointer deep_copy_into_geth_networking_config

unfoldable pub contents_geth_networking_config :
    GethNetworkingConfigStruct → GethNetworkingConfigStruct
contents_geth_networking_config x = record x {
  http = contents_pointer contents_http_config x.http;
  ws = contents_pointer contents_ws_config x.ws;
  auth_rpc = contents_pointer contents_auth_rpc_config x.auth_rpc;
  p2p = contents_pointer contents_geth_p2p_config x.p2p;
}

unfoldable pub addresses_geth_networking_config : GethNetworkingConfigStruct → List ℕ
addresses_geth_networking_config x =
    addresses_pointer addresses_http_config x.http
    ++ (addresses_pointer addresses_ws_config x.ws
        ++ (addresses_pointer addresses_auth_rpc_config x.auth_rpc
            ++ addresses_pointer addresses_geth_p2p_config x.p2p))

pub deep_copy_into_geth_networking_config-Copies :
    Copies contents_geth_networking_config addresses_geth_networking_config
      deep_copy_into_geth_networking_config
unfolding deep_copy_into_geth_networking_config contents_geth_networking_config
    addresses_geth_networking_config
deep_copy_into_geth_networking_config-Copies =
    fields-Copies (λ (x : GethNetworkingConfigStruct). (x.http, (x.ws, (x.auth_rpc, x.p2p))))
      (λ x (http, (ws, (auth_rpc, p2p))). record x {
        http = http;
        ws = ws;
        auth_rpc = auth_rpc;
        p2p = p2p;
      })
      (λ x p. refl) (λ x p q. refl)
      (copy_pointer-Copies deep_copy_into_http_config-Copies
        then_field copy_pointer-Copies deep_copy_into_ws_config-Copies
        then_field copy_pointer-Copies deep_copy_into_auth_rpc_config-Copies
        then_field copy_pointer-Copies deep_copy_into_geth_p2p_config-Copies)

pub record TxPoolConfigStruct : Type 0 where
  pub locals : Pointer (List String)
  pub no_locals : Bool
  pub journal : String
  pub journal_remotes : Bool
  pub lifetime : String
  pub price_bump : ℤ
  pub account_slots : ℤ
  pub global_slots : ℤ
  pub account_queue : ℤ
  pub global_queue : ℤ

unfoldable pub deep_copy_into_tx_pool_config : TxPoolConfigStruct → Alloc TxPoolConfigStruct
deep_copy_into_tx_pool_config x = do
  locals ← copy_pointer pure x.locals
  pure (record x { locals = locals })

unfoldable pub deep_copy_tx_pool_config :
    Pointer TxPoolConfigStruct → Alloc (Pointer TxPoolConfigStruct)
deep_copy_tx_pool_config = copy_pointer deep_copy_into_tx_pool_config

unfoldable pub contents_tx_pool_config : TxPoolConfigStruct → TxPoolConfigStruct
contents_tx_pool_config x = record x { locals = contents_pointer itself x.locals }

unfoldable pub addresses_tx_pool_config : TxPoolConfigStruct → List ℕ
addresses_tx_pool_config x = addresses_pointer no_addresses x.locals

pub deep_copy_into_tx_pool_config-Copies :
    Copies contents_tx_pool_config addresses_tx_pool_config deep_copy_into_tx_pool_config
unfolding deep_copy_into_tx_pool_config contents_tx_pool_config addresses_tx_pool_config
deep_copy_into_tx_pool_config-Copies =
    fields-Copies (λ (x : TxPoolConfigStruct). x.locals) (λ x locals. record x { locals = locals })
      (λ x p. refl) (λ x p q. refl) (copy_pointer-Copies pure-Copies)

module _ (L : Library) where
  pub record StorageConfigStruct : Type 0 where
    pub size : L.quantity.Carrier
    pub storage_class : String
    pub access_mode : String

  unfoldable pub deep_copy_into_storage_config : StorageConfigStruct → Alloc StorageConfigStruct
  deep_copy_into_storage_config x = do
    size ← L.quantity.deep_copy x.size
    pure (record x { size = size })

  unfoldable pub deep_copy_storage_config :
      Pointer StorageConfigStruct → Alloc (Pointer StorageConfigStruct)
  deep_copy_storage_config = copy_pointer deep_copy_into_storage_config

  unfoldable pub contents_storage_config : StorageConfigStruct → StorageConfigStruct
  contents_storage_config x = record x { size = L.quantity.contents x.size }

  unfoldable pub addresses_storage_config : StorageConfigStruct → List ℕ
  addresses_storage_config x = L.quantity.addresses x.size

  pub deep_copy_into_storage_config-Copies :
      Copies contents_storage_config addresses_storage_config deep_copy_into_storage_config
  unfolding deep_copy_into_storage_config contents_storage_config addresses_storage_config
  deep_copy_into_storage_config-Copies =
      fields-Copies (λ (x : StorageConfigStruct). x.size) (λ x size. record x { size = size })
        (λ x p. refl) (λ x p q. refl) (L.quantity.copies)

  pub record OpGethConfigStruct : Type 0 where
    pub network : String
    pub data_dir : String
    pub storage : Pointer StorageConfigStruct
    pub sync_mode : String
    pub gc_mode : String
    pub state_scheme : String
    pub cache : ℤ
    pub db_engine : String
    pub networking : Pointer GethNetworkingConfigStruct
    pub tx_pool : Pointer TxPoolConfigStruct
    pub rollup : Pointer RollupConfig

  unfoldable pub deep_copy_into_op_geth_config : OpGethConfigStruct → Alloc OpGethConfigStruct
  deep_copy_into_op_geth_config x = do
    storage ← copy_pointer deep_copy_into_storage_config x.storage
    networking ← copy_pointer deep_copy_into_geth_networking_config x.networking
    tx_pool ← copy_pointer deep_copy_into_tx_pool_config x.tx_pool
    rollup ← copy_pointer pure x.rollup
    pure (record x {
      storage = storage;
      networking = networking;
      tx_pool = tx_pool;
      rollup = rollup;
    })

  unfoldable pub deep_copy_op_geth_config :
      Pointer OpGethConfigStruct → Alloc (Pointer OpGethConfigStruct)
  deep_copy_op_geth_config = copy_pointer deep_copy_into_op_geth_config

  unfoldable pub contents_op_geth_config : OpGethConfigStruct → OpGethConfigStruct
  contents_op_geth_config x = record x {
    storage = contents_pointer contents_storage_config x.storage;
    networking = contents_pointer contents_geth_networking_config x.networking;
    tx_pool = contents_pointer contents_tx_pool_config x.tx_pool;
    rollup = contents_pointer itself x.rollup;
  }

  unfoldable pub addresses_op_geth_config : OpGethConfigStruct → List ℕ
  addresses_op_geth_config x =
      addresses_pointer addresses_storage_config x.storage
      ++ (addresses_pointer addresses_geth_networking_config x.networking
          ++ (addresses_pointer addresses_tx_pool_config x.tx_pool
              ++ addresses_pointer no_addresses x.rollup))

  pub deep_copy_into_op_geth_config-Copies :
      Copies contents_op_geth_config addresses_op_geth_config deep_copy_into_op_geth_config
  unfolding deep_copy_into_op_geth_config contents_op_geth_config addresses_op_geth_config
  deep_copy_into_op_geth_config-Copies =
      fields-Copies (λ (x : OpGethConfigStruct). (x.storage, (x.networking, (x.tx_pool, x.rollup))))
        (λ x (storage, (networking, (tx_pool, rollup))). record x {
          storage = storage;
          networking = networking;
          tx_pool = tx_pool;
          rollup = rollup;
        })
        (λ x p. refl) (λ x p q. refl)
        (copy_pointer-Copies deep_copy_into_storage_config-Copies
          then_field copy_pointer-Copies deep_copy_into_geth_networking_config-Copies
          then_field copy_pointer-Copies deep_copy_into_tx_pool_config-Copies
          then_field copy_pointer-Copies pure-Copies)
