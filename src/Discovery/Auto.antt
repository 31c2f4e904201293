-- ===== src/Discovery/Auto.antt =====
-- autoDiscoverContracts of pkg/discovery/discovery.go: which strategy answers.
use op_stack_operator.Prelude.{String, ◌≡◌, ◌≢◌, ◌⊎◌, true, false, none, some, arith, is_empty}
use op_stack_operator.Prelude.Int.{ℤ}
use op_stack_operator.Api.Network.{OptimismNetwork, NetworkContractAddresses}
use op_stack_operator.Runtime.{Result, ok, err, errorf, Eff}
use op_stack_operator.Discovery.{
  given_system_config, discover_from_system_config, discover_without_system_config,
  auto_discover_contracts,
}
use op_stack_operator.Discovery.Known.{no_addresses, get_well_known_addresses}

-- What automatic discovery answers without a SystemConfig contract to ask.
abbrev pub by_name : {Q : Type 0} → OptimismNetwork Q → Result NetworkContractAddresses
by_name network = elim (get_well_known_addresses network.spec.network_name network.spec.chain_id) [
  | none ↦ err (errorf "unable to discover contract addresses using any method")
  | some addresses ↦ ok (record addresses { discovery_method = "well-known" })
]

-- The answer by what the dial of the L1 endpoint gave, if it was made.
abbrev expected :
    {Q EthClient : Type 0} → OptimismNetwork Q → Result EthClient → Result NetworkContractAddresses
expected network (err _) = by_name network
expected network (ok _) = ok (record no_addresses {
  system_config_addr = given_system_config network;
  discovery_method = "system-config";
})

module _ {W EthClient Q : Type 0} (now : Eff W ℤ) (dial : String → Eff W (Result EthClient))
    (close : EthClient → Eff W (Unit {0})) (network : OptimismNetwork Q) where
  -- Automatic discovery: with no SystemConfig address in the specification the endpoint is not
  -- dialled, and the well-known addresses are the answer or, where there are none, an error; with
  -- one, the endpoint is dialled once, the address itself is the answer if that works, and the
  -- well-known addresses are asked for if it does not. A client that was opened is closed.
  pub auto_discover_contracts_lem :
      (w : W)
      → ((is_empty (given_system_config network) ≡ true)
          → auto_discover_contracts now dial close network w ≡ (by_name network, w))
        × ((is_empty (given_system_config network) ≡ false)
            → let (dialed, w') = dial network.spec.l1_rpc_url w in
              auto_discover_contracts now dial close network w ≡ (
                expected network dialed,
                elim dialed [ err _ ↦ w' | ok client ↦ (close client w').1 ],
              ))
  unfolding auto_discover_contracts discover_from_system_config discover_without_system_config
  auto_discover_contracts_lem w = ground arith

  -- Addresses that automatic discovery returns were found by the SystemConfig contract or are
  -- well-known, and say which; the superchain registry never answers.
  pub auto_discover_contracts-method :
      (w : W) {a : NetworkContractAddresses}
      → (auto_discover_contracts now dial close network w).0 ≡ ok a
      → ((a.discovery_method ≡ "system-config")
          × (a.system_config_addr ≡ given_system_config network))
        ⊎ ((a.discovery_method ≡ "well-known")
            × (get_well_known_addresses network.spec.network_name network.spec.chain_id ≢ none))
  unfolding auto_discover_contracts discover_from_system_config discover_without_system_config
  auto_discover_contracts-method w h = ground arith
