-- ===== src/Discovery/Keeps.antt =====
-- DiscoverContracts of pkg/discovery/discovery.go reads the clock, and dials and closes clients: it does
-- nothing else to the world.
use op_stack_operator.Prelude.{inl, inr, String, Option, none, some, str_eq, is_empty, Option-cases}
use op_stack_operator.Prelude.Assoc.{lookup}
use op_stack_operator.Prelude.Int.{ℤ}
use op_stack_operator.Api.Network.{OptimismNetwork, NetworkContractAddresses}
use op_stack_operator.Discovery.{
  ContractDiscoveryService, is_cache_expired, discover_from_system_config, auto_discover_contracts,
  given_system_config, discover_without_system_config, discover_by, store_addresses,
  cached_addresses, finish_discovery, discover_unless, discover_contracts,
  effective_discovery_method,
}
use op_stack_operator.Discovery.Cache.{key_of}
use op_stack_operator.Runtime.{Error, Result, ok, err, pure, Eff}
use op_stack_operator.Cluster.{Keeps}
use op_stack_operator.Cluster.Keeps.{Keeps-or_wrap, Keeps-if}

module _ {W : Type 0} (I : W → Type 0) where
  discover_from_system_config-Keeps :
      {EthClient : Type 0} (dial : String → Eff W (Result EthClient))
      (close : EthClient → Eff W (Unit {0})) (url address : String)
      → Keeps I (dial url)
      → ((client : EthClient) → Keeps I (close client))
      → Keeps I (discover_from_system_config dial close url address)
  unfolding discover_from_system_config
  discover_from_system_config-Keeps dial close url address dials closes w h =
      let (dialed, v) = dial url w in
      Keeps-or_wrap I _ dialed _ v (dials w h) (λ client u k. closes client u k)

  Keeps-either :
      {A B : Type 0} (r : Result A) (f : A → B) (g : Error → B) (w : W)
      → I w
      → let m : Eff W B = elim r [ ok a ↦ pure (f a) | err e ↦ pure (g e) ] in I (m w).1
  Keeps-either (ok a) f g w h = h
  Keeps-either (err e) f g w h = h

  module _ {EthClient Q : Type 0} (now : Eff W ℤ) (dial : String → Eff W (Result EthClient))
      (close : EthClient → Eff W (Unit {0})) (network : OptimismNetwork Q) (clock : Keeps I now)
      (dials : (url : String) → Keeps I (dial url))
      (closes : (client : EthClient) → Keeps I (close client)) where
    auto_discover_contracts-Keeps : Keeps I (auto_discover_contracts now dial close network)
    unfolding auto_discover_contracts
    auto_discover_contracts-Keeps w h =
        let url = network.spec.l1_rpc_url in
        let address = given_system_config network in
        let (discovered, v) = discover_from_system_config dial close url address w in
        Keeps-if I (is_empty address) (pure (discover_without_system_config network)) _ w h (
          Keeps-either discovered (λ a. ok (record a { discovery_method = "system-config" }))
            (λ _. discover_without_system_config network) v
            (discover_from_system_config-Keeps dial close url address (dials url) closes w h))

    discover_by-Keeps : (method : String) → Keeps I (discover_by now dial close network method)
    unfolding discover_by
    discover_by-Keeps method w h =
        Keeps-if I (str_eq method "auto") _ _ w (auto_discover_contracts-Keeps w h) (
          Keeps-if I (str_eq method "superchain-registry") _ _ w h (
            Keeps-if I (str_eq method "well-known") _ _ w h
              (Keeps-if I (str_eq method "manual") _ _ w h h)))

    store_addresses-Keeps :
        (c : ContractDiscoveryService) (r : Result (Option NetworkContractAddresses))
        → Keeps I (store_addresses now dial close network c r)
    unfolding store_addresses
    store_addresses-Keeps c (err e) w h = h
    store_addresses-Keeps c (ok none) w h = h
    store_addresses-Keeps c (ok (some found)) w h = clock _ (clock w h)

    finish_discovery-Keeps :
        (c : ContractDiscoveryService) (o : Option (Result (Option NetworkContractAddresses)))
        → Keeps I (finish_discovery now dial close network c o)
    unfolding finish_discovery
    finish_discovery-Keeps c none w h = h
    finish_discovery-Keeps c (some r) w h = store_addresses-Keeps c r w h

    discover_unless-Keeps :
        (c : ContractDiscoveryService) (cached : Option NetworkContractAddresses)
        → Keeps I (discover_unless now dial close network c cached)
    unfolding discover_unless
    discover_unless-Keeps c (some a) w h = h
    discover_unless-Keeps c none w h =
        let (outcome, v) =
          discover_by now dial close network (effective_discovery_method network) w in
        finish_discovery-Keeps c outcome v (discover_by-Keeps _ w h)

    cached_addresses-Keeps :
        (c : ContractDiscoveryService) → Keeps I (cached_addresses now dial close network c)
    unfolding cached_addresses is_cache_expired
    cached_addresses-Keeps c w h = elim (Option-cases (lookup (key_of network) c.cache)) [
      | inl n ↦ rw (cached_addresses, n) h
      | inr (entry, e) ↦ rw (cached_addresses, e) (clock w h)
    ]

    pub discover_contracts-Keeps :
        (c : ContractDiscoveryService) → Keeps I (discover_contracts now dial close network c)
    unfolding discover_contracts
    discover_contracts-Keeps c w h =
        let (cached, v) = cached_addresses now dial close network c w in
        discover_unless-Keeps c cached v (cached_addresses-Keeps c w h)
