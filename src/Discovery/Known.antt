-- ===== src/Discovery/Known.antt =====
-- getWellKnownAddresses of pkg/discovery/discovery.go and its tables.
use op_stack_operator.Prelude.{
  String, ◌≡◌, ◌↔◌, ◌⊎◌, ◌||◌, Option, none, some, if◌then◌else◌, str_eq, arith, eq_iff, ◌≢◌,
}
use op_stack_operator.Prelude.Int.{ℤ, pos, ◌==ℤ◌, ==ℤ_iff}
use op_stack_operator.Api.Network.{NetworkContractAddresses}

-- &NetworkContractAddresses{}
abbrev pub no_addresses : NetworkContractAddresses
no_addresses = record {
  l2_output_oracle_addr = "";
  dispute_game_factory_addr = "";
  optimism_portal_addr = "";
  system_config_addr = "";
  l1_cross_domain_messenger_addr = "";
  l1_standard_bridge_addr = "";
  l2_cross_domain_messenger_addr = "";
  l2_standard_bridge_addr = "";
  l2_to_l1_message_passer_addr = "";
  last_discovery_time = pos 0;
  discovery_method = "";
}

abbrev pub op_mainnet : NetworkContractAddresses
op_mainnet = record {
  l2_output_oracle_addr = "0xdfe97868233d1aa22e815a266982f2cf17685a27";
  dispute_game_factory_addr = "0xe5965Ab5962eDc7477C8520243A95517CD252fA9";
  optimism_portal_addr = "0xbEb5Fc579115071764c7423A4f12eDde41f106Ed";
  system_config_addr = "0x229047fed2591dbec1eF1118d64F7aF3dB9EB290";
  l1_cross_domain_messenger_addr = "0x25ace71c97B33Cc4729CF772ae268934F7ab5fA1";
  l1_standard_bridge_addr = "0x99C9fc46f92E8a1c0deC1b1747d010903E884bE1";
  l2_cross_domain_messenger_addr = "0x4200000000000000000000000000000000000007";
  l2_standard_bridge_addr = "0x4200000000000000000000000000000000000010";
  l2_to_l1_message_passer_addr = "0x4200000000000000000000000000000000000016";
  last_discovery_time = pos 0;
  discovery_method = "well-known";
}

abbrev pub op_sepolia : NetworkContractAddresses
op_sepolia = record {
  l2_output_oracle_addr = "0x90E9c4f8a994a250F6aEfd61CAFb4F2e895D458F";
  dispute_game_factory_addr = "0x05F9613aDB30026FFd634f38e5C4dFd30a197Fa1";
  optimism_portal_addr = "0x16Fc5058F25648194471939df75CF27A2fdC48BC";
  system_config_addr = "0x034edD2A225f7f429A63E0f1D2084B9E0A93b538";
  l1_cross_domain_messenger_addr = "0x58Cc85b8D04EA49cC6DBd3CbFFd00B4B8D6cb3ef";
  l1_standard_bridge_addr = "0xFBb0621E0B23b5478B630BD55a5f21f67730B0F1";
  l2_cross_domain_messenger_addr = "0x4200000000000000000000000000000000000007";
  l2_standard_bridge_addr = "0x4200000000000000000000000000000000000010";
  l2_to_l1_message_passer_addr = "0x4200000000000000000000000000000000000016";
  last_discovery_time = pos 0;
  discovery_method = "well-known";
}

abbrev pub base_mainnet : NetworkContractAddresses
base_mainnet = record {
  l2_output_oracle_addr = "0x56315b90c40730925ec5485cf004d835058518A0";
  dispute_game_factory_addr = "0x43edB88C4B80fDD2AdFF2412A7BebF9dF42cB40e";
  optimism_portal_addr = "0x49048044D57e1C92A77f79988d21Fa8fAF74E97e";
  system_config_addr = "0x73a79Fab69143498Ed3712e519A88a918e1f4072";
  l1_cross_domain_messenger_addr = "0x866E82a600A1414e583f7F13623F1aC5d58b0Afa";
  l1_standard_bridge_addr = "0x3154Cf16ccdb4C6d922629664174b904d80F2C35";
  l2_cross_domain_messenger_addr = "0x4200000000000000000000000000000000000007";
  l2_standard_bridge_addr = "0x4200000000000000000000000000000000000010";
  l2_to_l1_message_passer_addr = "0x4200000000000000000000000000000000000016";
  last_discovery_time = pos 0;
  discovery_method = "well-known";
}

unfoldable pub get_well_known_addresses : String → ℤ → Option NetworkContractAddresses
get_well_known_addresses network_name chain_id =
    if str_eq network_name "op-mainnet" || chain_id ==ℤ pos 10
    then some op_mainnet
    else if str_eq network_name "op-sepolia" || chain_id ==ℤ pos 11155420
    then some op_sepolia
    else if str_eq network_name "base-mainnet" || chain_id ==ℤ pos 8453
    then some base_mainnet
    else none

-- The networks that are known, by name or by chain ID.
abbrev pub IsKnown : String → ℤ → Type 0
IsKnown network_name chain_id =
    (network_name ≡ "op-mainnet")
    ⊎ (chain_id ≡ pos 10)
    ⊎ (network_name ≡ "op-sepolia")
    ⊎ (chain_id ≡ pos 11155420)
    ⊎ (network_name ≡ "base-mainnet")
    ⊎ (chain_id ≡ pos 8453)

-- The L2 addresses are those of the predeploys, which are the same on every chain of the OP Stack.
abbrev pub HasPredeploys : NetworkContractAddresses → Type 0
HasPredeploys a =
    (a.l2_cross_domain_messenger_addr ≡ "0x4200000000000000000000000000000000000007")
    × (a.l2_standard_bridge_addr ≡ "0x4200000000000000000000000000000000000010")
    × (a.l2_to_l1_message_passer_addr ≡ "0x4200000000000000000000000000000000000016")

-- There are well-known addresses exactly for the known networks.
pub get_well_known_addresses_iff :
    (network_name : String) (chain_id : ℤ)
    → (get_well_known_addresses network_name chain_id ≢ none) ↔ IsKnown network_name chain_id
unfolding get_well_known_addresses
get_well_known_addresses_iff network_name chain_id = ground (
  arith,
  eq_iff network_name "op-mainnet",
  eq_iff network_name "op-sepolia",
  eq_iff network_name "base-mainnet",
  ==ℤ_iff chain_id (pos 10),
  ==ℤ_iff chain_id (pos 11155420),
  ==ℤ_iff chain_id (pos 8453),
)

-- Well-known addresses carry the predeploys and say that they are well-known.
pub get_well_known_addresses-HasPredeploys :
    (network_name : String) (chain_id : ℤ) {a : NetworkContractAddresses}
    → get_well_known_addresses network_name chain_id ≡ some a
    → HasPredeploys a × (a.discovery_method ≡ "well-known")
unfolding get_well_known_addresses
get_well_known_addresses-HasPredeploys network_name chain_id h = ground arith
