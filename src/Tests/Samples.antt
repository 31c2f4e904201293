-- ===== src/Tests/Samples.antt =====
-- A network and OpNodes for the tests.
use op_stack_operator.Prelude.{ℕ, true, none, some, [], ◌∷◌}
use op_stack_operator.Prelude.Int.{pos}
use op_stack_operator.Api.Network.{OptimismNetwork}
use op_stack_operator.Api.Node.{
  OpNode, P2pConfig, SecretKeyRef, HttpConfig, AuthRpcConfig, GethNetworkingConfig,
}
use op_stack_operator.Resources.Config.{new_meta}

abbrev pub network : OptimismNetwork ℕ
network = record {
  meta = new_meta "op-sepolia" "default" [];
  spec = record {
    network_name = "op-sepolia";
    chain_id = pos 11155420;
    l1_chain_id = pos 11155111;
    l1_rpc_url = "https://l1";
    l1_beacon_url = "";
    l1_rpc_timeout = pos 0;
    rollup_config = some (record { inline = ""; config_map_ref = none; auto_discover = true });
    l2_genesis = none;
    contract_addresses = none;
    shared_config = none;
  };
  status = record {
    phase = "Ready";
    conditions = [];
    observed_generation = pos 0;
    network_info = none;
  };
}

abbrev pub pending_network : OptimismNetwork ℕ
pending_network = record network { status = record network.status { phase = "Error" } }

abbrev pub generated_key : SecretKeyRef
generated_key = record { secret_ref = none; generate = true }

abbrev pub p2p : P2pConfig
p2p = record {
  enabled = true;
  listen_port = pos 9003;
  discovery = none;
  static = [];
  peer_scoring = none;
  bandwidth_limit = "";
  private_key = some generated_key;
}

abbrev pub http : HttpConfig
http = record { enabled = true; host = ""; port = pos 8545; apis = "eth" ∷ "net" ∷ []; cors = none }

abbrev pub auth : AuthRpcConfig
auth = record { host = ""; port = pos 8552; apis = [] }

abbrev pub networking : GethNetworkingConfig
networking = record { http = some http; ws = none; auth_rpc = some auth; p2p = none }

abbrev pub replica : OpNode ℕ
replica = record {
  meta = new_meta "replica-0" "default" [];
  spec = record {
    optimism_network_ref = record { name = "op-sepolia"; namespace = "" };
    node_type = "replica";
    sequencer_ref = some (record { name = "sequencer-0"; namespace = "" });
    l2_rpc_url = "";
    op_node = record {
      sync_mode = "";
      p2p = some p2p;
      rpc = none;
      sequencer = none;
      engine = none;
    };
    op_geth = record {
      network = "";
      data_dir = "";
      storage = none;
      sync_mode = "";
      gc_mode = "";
      state_scheme = "";
      cache = pos 0;
      db_engine = "";
      networking = some networking;
      tx_pool = none;
      rollup = none;
    };
    resources = none;
    service = none;
  };
  status = record { phase = ""; conditions = []; observed_generation = pos 0; node_info = none };
}

abbrev pub sequencer : OpNode ℕ
sequencer = record replica {
  meta = new_meta "sequencer-0" "default" [];
  spec = record replica.spec {
    node_type = "sequencer";
    sequencer_ref = none;
    op_node = record replica.spec.op_node {
      sequencer = some (record { enabled = true; block_time = ""; max_tx_per_block = pos 0 });
    };
  };
}
