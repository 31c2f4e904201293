-- ===== src/Tests/Lookup.antt =====
-- The theorems on images and on contract discovery, on concrete networks and versions.
use op_stack_operator.Prelude.{
  true, false, eq_iff, ℕ, String, ◌≡◌, refl, ◌≢◌, inl, ◌↔◌, none, some, [], ◌∷◌,
}
use op_stack_operator.Prelude.Int.{pos}
use op_stack_operator.Prelude.Assoc.{lookup}
use op_stack_operator.Text.{format_int, format_nat, digits_onto}
use op_stack_operator.Text.Laws.{has_char}
use op_stack_operator.Api.Network.{OptimismNetwork, NetworkContractAddresses}
use op_stack_operator.Runtime.{ok}
use op_stack_operator.Images
use op_stack_operator.Images.Versions
use op_stack_operator.Images.Build
use op_stack_operator.Discovery.{
  CachedNetworkAddresses, ContractDiscoveryService, discover_contracts, cached_addresses,
  discover_unless, is_cache_expired,
}
use op_stack_operator.Discovery.CacheKey.{cache_key, cache_key_injective}
use op_stack_operator.Discovery.Known.{op_sepolia}
use op_stack_operator.Discovery.Cache.{
  key_of, KeepsCache, discover_contracts-KeepsCache, discover_contracts-shared,
}
use op_stack_operator.Tests.Samples.{network}
use op_stack_operator.Tests.World.{start, cluster}

cache_key_injective_example : (◌≡◌ {A = String} "op" "op") × (◌≡◌ {A = ℕ} 10 10)
cache_key_injective_example = cache_key_injective "op" "op" 10 10 refl

abbrev found : NetworkContractAddresses
found = record op_sepolia { discovery_method = "well-known" }

abbrev empty : ContractDiscoveryService
empty = record { cache = []; cache_timeout = pos 100 }

abbrev cached : CachedNetworkAddresses
cached = record { addresses = op_sepolia; expires_at = pos 2000 }

abbrev filled : ContractDiscoveryService
filled = record empty { cache = (cache_key "op-sepolia" (pos 11155420), cached) ∷ [] }

-- The same network, with an address of its own.
abbrev manual_network : OptimismNetwork ℕ
manual_network = record network {
  spec = record network.spec {
    contract_addresses = some (record {
      system_config_addr = "0x01";
      l2_output_oracle_addr = "";
      dispute_game_factory_addr = "";
      optimism_portal_addr = "";
      discovery_method = "manual";
      cache_timeout = pos 0;
    });
  };
}

discover_contracts-shared_example :
    let c = (discover_contracts cluster.now cluster.dial cluster.close network filled start).0.1 in
    discover_contracts cluster.now cluster.dial cluster.close manual_network c start
    ≡ ((ok op_sepolia, c), (cluster.now start).1)
unfolding discover_contracts cached_addresses discover_unless is_cache_expired lookup cache_key
    format_int format_nat digits_onto
discover_contracts-shared_example =
    discover_contracts-shared cluster.now cluster.dial cluster.close network manual_network filled
      start start op_sepolia cached refl refl refl refl refl

discover_contracts-KeepsCache_example :
    let (answer, c') =
      (discover_contracts cluster.now cluster.dial cluster.close network empty start).0 in
    KeepsCache (key_of network) empty answer c'
discover_contracts-KeepsCache_example =
    discover_contracts-KeepsCache cluster.now cluster.dial cluster.close network empty start

extract_version-image_example :
    Images.extract_version_from_image (Images.registry_image "/op-node:" "v1.9.5") ≡ "v1.9.5"
unfolding has_char
extract_version-image_example = Versions.extract_version-image "/op-node" "v1.9.5" refl

validate_image_compatibility_iff_example :
    (Images.validate_image_compatibility Images.stable_first Images.default_images ≡ none)
    ↔ Build.Compatible
        (Images.extract_version_from_image Images.default_images.op_node)
        (Images.extract_version_from_image Images.default_images.op_geth)
        (Images.extract_version_from_image Images.default_images.op_batcher)
        (Images.extract_version_from_image Images.default_images.op_proposer)
validate_image_compatibility_iff_example =
    Build.validate_image_compatibility_iff Images.stable_first Images.default_images

abbrev no_overrides : Images.ImageOverrides
no_overrides = record {
  global_version = "";
  op_node_image = "";
  op_geth_image = "";
  op_batcher_image = "";
  op_proposer_image = "";
  op_challenger_image = "";
  version_set = "";
}

abbrev one_version : Images.ImageOverrides
one_version = record no_overrides { global_version = "v1.9.5" }

build_image_config-global_example :
    (Images.build_image_config Images.stable_first one_version).1 ≡ none
unfolding has_char
build_image_config-global_example =
    Build.build_image_config-global Images.stable_first one_version refl
      (λ e. let h : false ≡ true = (eq_iff "v1.9.5" "").1 e in cc) refl refl refl refl refl

build_image_config-defaults_refused_example :
    (Images.build_image_config Images.stable_first no_overrides).1 ≢ none
build_image_config-defaults_refused_example =
    Build.build_image_config-defaults_refused Images.stable_first no_overrides refl (inl refl) refl
      refl refl
