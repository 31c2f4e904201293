-- ===== src/Discovery.antt =====
-- pkg/discovery/discovery.go: the contract addresses of a network, by one of four methods, with a
-- cache. The service's state is passed and returned; `now`, `dial` and `close` stand for
-- time.Now, ethclient.Dial and the client's Close. The context argument, which is only passed
-- on, is left out.
pub mod Known
pub mod CacheKey
pub mod Cache
pub mod Auto
pub mod Keeps
use op_stack_operator.Prelude.{
  String, ◌<>◌, Bool, true, false, not, ◌||◌, Option, none, some, List, [], if◌then◌else◌, str_eq,
  is_empty,
}
use Known.{no_addresses, get_well_known_addresses}
use CacheKey.{cache_key}
use op_stack_operator.Prelude.Int.{ℤ, pos, ltb_ℤ, ◌+ℤ◌, ◌==ℤ◌}
use op_stack_operator.Prelude.Assoc.{lookup, insert}
use op_stack_operator.Text.{format_int}
use op_stack_operator.Api.Network.{OptimismNetwork, ContractAddressConfig, NetworkContractAddresses}
use op_stack_operator.Runtime.{Result, ok, err, errorf, wrap, Eff, pure, ◌>>=◌, ◌>>◌, or_wrap}

pub record CachedNetworkAddresses : Type 0 where
  pub addresses : NetworkContractAddresses
  pub expires_at : ℤ

pub record ContractDiscoveryService : Type 0 where
  pub cache : List (String × CachedNetworkAddresses)
  pub cache_timeout : ℤ

unfoldable pub new_contract_discovery_service : ℤ → ContractDiscoveryService
new_contract_discovery_service cache_timeout = record { cache = []; cache_timeout = cache_timeout }

unfoldable pub clear_cache : ContractDiscoveryService → ContractDiscoveryService
clear_cache c = record c { cache = [] }

-- A placeholder in the source: it always fails.
unfoldable pub discover_from_superchain_registry : ℤ → Result (Option NetworkContractAddresses)
discover_from_superchain_registry chain_id =
    err (errorf "superchain registry discovery not yet implemented")

abbrev pub or_error : Result NetworkContractAddresses → Result (Option NetworkContractAddresses)
or_error (ok addresses) = ok (some addresses)
or_error (err e) = err e

module _ {Q : Type 0} where
  unfoldable pub get_manual_addresses : OptimismNetwork Q → Option NetworkContractAddresses
  get_manual_addresses network = elim network.spec.contract_addresses [
    | none ↦ none
    | some config ↦ some (record no_addresses {
      system_config_addr = config.system_config_addr;
      l2_output_oracle_addr = config.l2_output_oracle_addr;
      dispute_game_factory_addr = config.dispute_game_factory_addr;
      optimism_portal_addr = config.optimism_portal_addr;
      discovery_method = "manual";
    })
  ]

  unfoldable pub effective_discovery_method : OptimismNetwork Q → String
  effective_discovery_method network = elim network.spec.contract_addresses [
    | none ↦ "auto"
    | some config ↦ if is_empty config.discovery_method then "auto" else config.discovery_method
  ]

  unfoldable pub effective_cache_timeout : ContractDiscoveryService → OptimismNetwork Q → ℤ
  effective_cache_timeout c network = elim network.spec.contract_addresses [
    | none ↦ c.cache_timeout
    | some config ↦
        if ltb_ℤ (pos 0) config.cache_timeout then config.cache_timeout else c.cache_timeout
  ]

  -- The SystemConfig address of the specification, "" where there is none.
  abbrev pub given_system_config : OptimismNetwork Q → String
  given_system_config network = elim network.spec.contract_addresses [
    | none ↦ ""
    | some config ↦ config.system_config_addr
  ]

unfoldable pub is_cache_expired : {W : Type 0} → Eff W ℤ → CachedNetworkAddresses → Eff W Bool
is_cache_expired now cached = do time ← now; pure (ltb_ℤ cached.expires_at time)

module _ {W EthClient : Type 0} (dial : String → Eff W (Result EthClient))
    (close : EthClient → Eff W (Unit {0})) where
  -- `defer client.Close()` runs behind the construction of the result.
  unfoldable pub discover_from_system_config :
      String → String → Eff W (Result NetworkContractAddresses)
  discover_from_system_config l1_rpc_url system_config_addr = do
    dialed ← dial l1_rpc_url
    or_wrap "failed to connect to L1 RPC: " dialed λ client. do
      close client
      pure (ok (record no_addresses { system_config_addr = system_config_addr }))

-- Strategies 2 and 3.
unfoldable pub discover_without_system_config :
    {Q : Type 0} → OptimismNetwork Q → Result NetworkContractAddresses
unfolding discover_from_superchain_registry
discover_without_system_config network =
    let known : Result NetworkContractAddresses =
      elim (get_well_known_addresses network.spec.network_name network.spec.chain_id) [
        | none ↦ err (errorf "unable to discover contract addresses using any method")
        | some addresses ↦ ok (record addresses { discovery_method = "well-known" })
      ] in
    elim (discover_from_superchain_registry network.spec.chain_id) [
      | err _ ↦ known
      | ok none ↦ known
      | ok (some addresses) ↦ ok (record addresses { discovery_method = "superchain-registry" })
    ]

module _ {W EthClient Q : Type 0} (now : Eff W ℤ) (dial : String → Eff W (Result EthClient))
    (close : EthClient → Eff W (Unit {0})) (network : OptimismNetwork Q) where
  unfoldable pub auto_discover_contracts : Eff W (Result NetworkContractAddresses)
  auto_discover_contracts =
      if is_empty (given_system_config network)
      then pure (discover_without_system_config network)
      else do
        discovered ←
            discover_from_system_config dial close network.spec.l1_rpc_url
              (given_system_config network)
        elim discovered [
          | ok addresses ↦ pure (ok (record addresses { discovery_method = "system-config" }))
          | err _ ↦ pure (discover_without_system_config network)
        ]

  -- The switch on the method; `none` for a method that is not known.
  unfoldable pub discover_by : String → Eff W (Option (Result (Option NetworkContractAddresses)))
  unfolding auto_discover_contracts
  discover_by method =
      if str_eq method "auto"
      then (do discovered ← auto_discover_contracts; pure (some (or_error discovered)))
      else if str_eq method "superchain-registry"
      then pure (some (discover_from_superchain_registry network.spec.chain_id))
      else if str_eq method "well-known"
      then pure
          (some (ok (get_well_known_addresses network.spec.network_name network.spec.chain_id)))
      else if str_eq method "manual"
      then pure (some (ok (get_manual_addresses network)))
      else pure none

  -- Behind the switch: the errors, and the new cache entry.
  unfoldable pub store_addresses :
      ContractDiscoveryService
      → Result (Option NetworkContractAddresses)
      → Eff W (Result NetworkContractAddresses × ContractDiscoveryService)
  store_addresses c (err e) = pure (err (wrap "failed to discover contracts: " e), c)
  store_addresses c (ok none) = pure (
    err (
        errorf (
          "unable to discover contract addresses for network "
          <> network.spec.network_name
          <> " (chain ID: "
          <> format_int network.spec.chain_id
          <> ")")),
    c,
  )
  store_addresses c (ok (some found)) = do
    discovered_at ← now
    let addresses : NetworkContractAddresses = record found { last_discovery_time = discovered_at }
    cached_at ← now
    let entry : CachedNetworkAddresses = record {
      addresses = addresses;
      expires_at = cached_at +ℤ effective_cache_timeout c network;
    }
    pure (
      ok addresses,
      record c {
        cache = insert (cache_key network.spec.network_name network.spec.chain_id) entry c.cache;
      },
    )

  -- The cache is read first; time.Now is called for an entry that is there.
  unfoldable pub cached_addresses :
      ContractDiscoveryService → Eff W (Option NetworkContractAddresses)
  unfolding is_cache_expired
  cached_addresses c =
      elim (lookup (cache_key network.spec.network_name network.spec.chain_id) c.cache) [
        | none ↦ pure none
        | some cached ↦ do
          expired ← is_cache_expired now cached
          pure (if expired then none else some cached.addresses)
      ]

  -- Behind the switch's `default`.
  unfoldable pub finish_discovery :
      ContractDiscoveryService
      → Option (Result (Option NetworkContractAddresses))
      → Eff W (Result NetworkContractAddresses × ContractDiscoveryService)
  finish_discovery c none =
      pure (err (errorf ("unknown discovery method: " <> effective_discovery_method network)), c)
  finish_discovery c (some result) = store_addresses c result

  -- Behind the look at the cache.
  unfoldable pub discover_unless :
      ContractDiscoveryService
      → Option NetworkContractAddresses
      → Eff W (Result NetworkContractAddresses × ContractDiscoveryService)
  discover_unless c (some addresses) = pure (ok addresses, c)
  discover_unless c none = do
    outcome ← discover_by (effective_discovery_method network)
    finish_discovery c outcome

  unfoldable pub discover_contracts :
      ContractDiscoveryService → Eff W (Result NetworkContractAddresses × ContractDiscoveryService)
  discover_contracts c = do cached ← cached_addresses c; discover_unless c cached
