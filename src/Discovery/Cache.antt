-- ===== src/Discovery/Cache.antt =====
-- DiscoverContracts of pkg/discovery/discovery.go: what it does with the cache.
use text.Mathlib.TextPositions.{eq_refl}
use op_stack_operator.Prelude.{
  ◌∙◌, ap, String, ◌≡◌, refl, ◌≢◌, false, Option, none, some, arith, eq_iff,
}
use op_stack_operator.Prelude.Int.{ℤ, ltb_ℤ}
use op_stack_operator.Prelude.Assoc.{lookup, insert, lookup-insert}
use op_stack_operator.Api.Network.{OptimismNetwork, NetworkContractAddresses}
use op_stack_operator.Runtime.{Result, ok, err, Eff}
use op_stack_operator.Discovery.{
  CachedNetworkAddresses, ContractDiscoveryService, cached_addresses, discover_by,
  effective_discovery_method, finish_discovery, discover_unless, store_addresses,
  discover_contracts,
}
use op_stack_operator.Discovery.CacheKey.{cache_key}

abbrev pub key_of : {Q : Type 0} → OptimismNetwork Q → String
key_of network = cache_key network.spec.network_name network.spec.chain_id

-- The addresses under a key, expired or not.
abbrev pub addresses_at : ContractDiscoveryService → String → Option NetworkContractAddresses
addresses_at c key = elim (lookup key c.cache) [ none ↦ none | some entry ↦ some entry.addresses ]

-- What a call may do to the service: an answer is what the cache then holds for the network, an
-- error has changed nothing, and no other entry is touched.
abbrev pub KeepsCache :
    String
    → ContractDiscoveryService
    → Result NetworkContractAddresses
    → ContractDiscoveryService
    → Type 0
KeepsCache key c (ok a) c' =
    (addresses_at c' key ≡ some a)
    × (c'.cache_timeout ≡ c.cache_timeout)
    × ((k : String) → k ≢ key → lookup k c'.cache ≡ lookup k c.cache)
KeepsCache key c (err _) c' = c' ≡ c

module _ {W EthClient Q : Type 0} (now : Eff W ℤ) (dial : String → Eff W (Result EthClient))
    (close : EthClient → Eff W (Unit {0})) (network : OptimismNetwork Q) where
  -- While the entry of a network's key has not expired, its addresses are the answer, the service
  -- stays as it is, and nothing is done but read the clock.
  pub discover_contracts-hit :
      (c : ContractDiscoveryService) (w : W) (entry : CachedNetworkAddresses)
      → lookup (key_of network) c.cache ≡ some entry
      → ltb_ℤ entry.expires_at (now w).0 ≡ false
      → discover_contracts now dial close network c w ≡ ((ok entry.addresses, c), (now w).1)
  unfolding discover_contracts cached_addresses discover_unless
  discover_contracts-hit c w entry h t = ground arith

  addresses_at-insert :
      (c : ContractDiscoveryService) (entry : CachedNetworkAddresses)
      → addresses_at (record c { cache = insert (key_of network) entry c.cache }) (key_of network)
        ≡ some entry.addresses
  addresses_at-insert c entry = ground (
    arith,
    lookup-insert (key_of network) entry c.cache (key_of network),
    eq_refl (key_of network),
  )

  store_addresses-KeepsCache :
      (c : ContractDiscoveryService) (r : Result (Option NetworkContractAddresses)) (w : W)
      → let (answer, c') = (store_addresses now dial close network c r w).0 in
        KeepsCache (key_of network) c answer c'
  unfolding store_addresses
  store_addresses-KeepsCache c (ok (some found)) w = (
    addresses_at-insert c _,
    refl,
    λ k n. rw lookup-insert (ground (arith, eq_iff (key_of network) k)),
  )
  store_addresses-KeepsCache c (ok none) w = refl
  store_addresses-KeepsCache c (err e) w = refl

  finish_discovery-KeepsCache :
      (c : ContractDiscoveryService) (o : Option (Result (Option NetworkContractAddresses))) (w : W)
      → let (answer, c') = (finish_discovery now dial close network c o w).0 in
        KeepsCache (key_of network) c answer c'
  unfolding finish_discovery
  finish_discovery-KeepsCache c none w = refl
  finish_discovery-KeepsCache c (some r) w = store_addresses-KeepsCache c r w

  discover_unless-KeepsCache :
      (c : ContractDiscoveryService) (cached : Option NetworkContractAddresses) (w : W)
      → (cached ≢ none → addresses_at c (key_of network) ≡ cached)
      → let (answer, c') = (discover_unless now dial close network c cached w).0 in
        KeepsCache (key_of network) c answer c'
  unfolding discover_unless
  discover_unless-KeepsCache c none w h =
      let (outcome, v) =
        discover_by now dial close network (effective_discovery_method network) w in
      finish_discovery-KeepsCache c outcome v
  discover_unless-KeepsCache c (some a) w h = (h (cc), refl, λ k n. refl)

  addresses_at_of_cached :
      (c : ContractDiscoveryService) (w : W)
      → (cached_addresses now dial close network c w).0 ≢ none
      → addresses_at c (key_of network) ≡ (cached_addresses now dial close network c w).0
  unfolding cached_addresses
  addresses_at_of_cached c w h = ground arith

  -- DiscoverContracts answers only with what its cache then holds for the network; on an error the
  -- service is unchanged; and neither the entries of other keys nor the timeout are ever touched.
  pub discover_contracts-KeepsCache :
      (c : ContractDiscoveryService) (w : W)
      → let (answer, c') = (discover_contracts now dial close network c w).0 in
        KeepsCache (key_of network) c answer c'
  unfolding discover_contracts
  discover_contracts-KeepsCache c w =
      let (cached, v) = cached_addresses now dial close network c w in
      discover_unless-KeepsCache c cached v (addresses_at_of_cached c w)

module _ {W EthClient Q : Type 0} (now : Eff W ℤ) (dial : String → Eff W (Result EthClient))
    (close : EthClient → Eff W (Unit {0})) where
  -- Two networks of one name and one chain ID share an entry: once the first has been answered,
  -- the second gets the same addresses for as long as the entry lives, whatever discovery method
  -- or manual addresses its own specification has.
  pub discover_contracts-shared :
      (network network' : OptimismNetwork Q) (c : ContractDiscoveryService) (w v : W)
      (a : NetworkContractAddresses) (entry : CachedNetworkAddresses)
      → network.spec.network_name ≡ network'.spec.network_name
      → network.spec.chain_id ≡ network'.spec.chain_id
      → let (answer, c') = (discover_contracts now dial close network c w).0 in
        answer ≡ ok a
        → lookup (key_of network) c'.cache ≡ some entry
        → ltb_ℤ entry.expires_at (now v).0 ≡ false
        → discover_contracts now dial close network' c' v ≡ ((ok a, c'), (now v).1)
  discover_contracts-shared network network' c w v a entry n i h e t =
      let c' = (discover_contracts now dial close network c w).0.1 in
      let same : key_of network ≡ key_of network' = rw (n, i) refl in
      let held : KeepsCache (key_of network) c (ok a) c' =
        rw h at (discover_contracts-KeepsCache now dial close network c w) in
      let cached : entry.addresses ≡ a = ground (arith, held.0, e) in
      discover_contracts-hit now dial close network' c' v entry (rw (← same) e) t
      ∙ ap (λ b. ((ok b, c'), (now v).1)) cached
