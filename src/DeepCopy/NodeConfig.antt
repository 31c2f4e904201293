-- ===== src/DeepCopy/NodeConfig.antt =====
-- The configuration of op-node.
use op_stack_operator.Api.Node.{P2pScoringConfig, SequencerConfig}
use op_stack_operator.DeepCopy.Copies.{
  Copies, copy_pointer-Copies, fields-Copies, pure-Copies, ◌then_field◌,
}
use op_stack_operator.DeepCopy.Library.{Library}
use op_stack_operator.DeepCopy.Memory.{
  Alloc, Pointer, addresses_pointer, contents_pointer, copy_pointer, itself, no_addresses, pure,
  ◌>>=◌,
}
use op_stack_operator.DeepCopy.Rpc.{
  RpcConfigStruct, addresses_rpc_config, contents_rpc_config, deep_copy_into_rpc_config,
  deep_copy_into_rpc_config-Copies,
}
use op_stack_operator.Prelude.{Bool, List, String, refl, ℕ, ◌++◌}
use op_stack_operator.Prelude.Int.{ℤ}

pub record P2pDiscoveryConfigStruct : Type 0 where
  pub enabled : Bool
  pub bootnodes : Pointer (List String)

unfoldable pub deep_copy_into_p2p_discovery_config :
    P2pDiscoveryConfigStruct → Alloc P2pDiscoveryConfigStruct
deep_copy_into_p2p_discovery_config x = do
  bootnodes ← copy_pointer pure x.bootnodes
  pure (record x { bootnodes = bootnodes })

unfoldable pub deep_copy_p2p_discovery_config :
    Pointer P2pDiscoveryConfigStruct → Alloc (Pointer P2pDiscoveryConfigStruct)
deep_copy_p2p_discovery_config = copy_pointer deep_copy_into_p2p_discovery_config

unfoldable pub contents_p2p_discovery_config : P2pDiscoveryConfigStruct → P2pDiscoveryConfigStruct
contents_p2p_discovery_config x = record x { bootnodes = contents_pointer itself x.bootnodes }

unfoldable pub addresses_p2p_discovery_config : P2pDiscoveryConfigStruct → List ℕ
addresses_p2p_discovery_config x = addresses_pointer no_addresses x.bootnodes

pub deep_copy_into_p2p_discovery_config-Copies :
    Copies contents_p2p_discovery_config addresses_p2p_discovery_config
      deep_copy_into_p2p_discovery_config
unfolding deep_copy_into_p2p_discovery_config contents_p2p_discovery_config
    addresses_p2p_discovery_config
deep_copy_into_p2p_discovery_config-Copies =
    fields-Copies (λ (x : P2pDiscoveryConfigStruct). x.bootnodes)
      (λ x bootnodes. record x { bootnodes = bootnodes }) (λ x p. refl) (λ x p q. refl)
      (copy_pointer-Copies pure-Copies)

module _ (L : Library) where
  pub record SecretKeyRefStruct : Type 0 where
    pub secret_ref : Pointer L.secret_key_selector.Carrier
    pub generate : Bool

  unfoldable pub deep_copy_into_secret_key_ref : SecretKeyRefStruct → Alloc SecretKeyRefStruct
  deep_copy_into_secret_key_ref x = do
    secret_ref ← copy_pointer L.secret_key_selector.deep_copy x.secret_ref
    pure (record x { secret_ref = secret_ref })

  unfoldable pub deep_copy_secret_key_ref :
      Pointer SecretKeyRefStruct → Alloc (Pointer SecretKeyRefStruct)
  deep_copy_secret_key_ref = copy_pointer deep_copy_into_secret_key_ref

  unfoldable pub contents_secret_key_ref : SecretKeyRefStruct → SecretKeyRefStruct
  contents_secret_key_ref x = record x {
    secret_ref = contents_pointer L.secret_key_selector.contents x.secret_ref;
  }

  unfoldable pub addresses_secret_key_ref : SecretKeyRefStruct → List ℕ
  addresses_secret_key_ref x = addresses_pointer L.secret_key_selector.addresses x.secret_ref

  pub deep_copy_into_secret_key_ref-Copies :
      Copies contents_secret_key_ref addresses_secret_key_ref deep_copy_into_secret_key_ref
  unfolding deep_copy_into_secret_key_ref contents_secret_key_ref addresses_secret_key_ref
  deep_copy_into_secret_key_ref-Copies =
      fields-Copies (λ (x : SecretKeyRefStruct). x.secret_ref)
        (λ x secret_ref. record x { secret_ref = secret_ref }) (λ x p. refl) (λ x p q. refl)
        (copy_pointer-Copies L.secret_key_selector.copies)

  pub record P2pConfigStruct : Type 0 where
    pub enabled : Bool
    pub listen_port : ℤ
    pub discovery : Pointer P2pDiscoveryConfigStruct
    pub static : Pointer (List String)
    pub peer_scoring : Pointer P2pScoringConfig
    pub bandwidth_limit : String
    pub private_key : Pointer SecretKeyRefStruct

  unfoldable pub deep_copy_into_p2p_config : P2pConfigStruct → Alloc P2pConfigStruct
  deep_copy_into_p2p_config x = do
    discovery ← copy_pointer deep_copy_into_p2p_discovery_config x.discovery
    static ← copy_pointer pure x.static
    peer_scoring ← copy_pointer pure x.peer_scoring
    private_key ← copy_pointer deep_copy_into_secret_key_ref x.private_key
    pure (record x {
      discovery = discovery;
      static = static;
      peer_scoring = peer_scoring;
      private_key = private_key;
    })

  unfoldable pub deep_copy_p2p_config : Pointer P2pConfigStruct → Alloc (Pointer P2pConfigStruct)
  deep_copy_p2p_config = copy_pointer deep_copy_into_p2p_config

  unfoldable pub contents_p2p_config : P2pConfigStruct → P2pConfigStruct
  contents_p2p_config x = record x {
    discovery = contents_pointer contents_p2p_discovery_config x.discovery;
    static = contents_pointer itself x.static;
    peer_scoring = contents_pointer itself x.peer_scoring;
    private_key = contents_pointer contents_secret_key_ref x.private_key;
  }

  unfoldable pub addresses_p2p_config : P2pConfigStruct → List ℕ
  addresses_p2p_config x =
      addresses_pointer addresses_p2p_discovery_config x.discovery
      ++ (addresses_pointer no_addresses x.static
          ++ (addresses_pointer no_addresses x.peer_scoring
              ++ addresses_pointer addresses_secret_key_ref x.private_key))

  pub deep_copy_into_p2p_config-Copies :
      Copies contents_p2p_config addresses_p2p_config deep_copy_into_p2p_config
  unfolding deep_copy_into_p2p_config contents_p2p_config addresses_p2p_config
  deep_copy_into_p2p_config-Copies =
      fields-Copies
        (λ (x : P2pConfigStruct). (x.discovery, (x.static, (x.peer_scoring, x.private_key))))
        (λ x (discovery, (static, (peer_scoring, private_key))). record x {
          discovery = discovery;
          static = static;
          peer_scoring = peer_scoring;
          private_key = private_key;
        })
        (λ x p. refl) (λ x p q. refl)
        (copy_pointer-Copies deep_copy_into_p2p_discovery_config-Copies
          then_field copy_pointer-Copies pure-Copies
          then_field copy_pointer-Copies pure-Copies
          then_field copy_pointer-Copies deep_copy_into_secret_key_ref-Copies)

  pub record EngineConfigStruct : Type 0 where
    pub jwt_secret : Pointer SecretKeyRefStruct
    pub endpoint : String

  unfoldable pub deep_copy_into_engine_config : EngineConfigStruct → Alloc EngineConfigStruct
  deep_copy_into_engine_config x = do
    jwt_secret ← copy_pointer deep_copy_into_secret_key_ref x.jwt_secret
    pure (record x { jwt_secret = jwt_secret })

  unfoldable pub deep_copy_engine_config :
      Pointer EngineConfigStruct → Alloc (Pointer EngineConfigStruct)
  deep_copy_engine_config = copy_pointer deep_copy_into_engine_config

  unfoldable pub contents_engine_config : EngineConfigStruct → EngineConfigStruct
  contents_engine_config x = record x {
    jwt_secret = contents_pointer contents_secret_key_ref x.jwt_secret;
  }

  unfoldable pub addresses_engine_config : EngineConfigStruct → List ℕ
  addresses_engine_config x = addresses_pointer addresses_secret_key_ref x.jwt_secret

  pub deep_copy_into_engine_config-Copies :
      Copies contents_engine_config addresses_engine_config deep_copy_into_engine_config
  unfolding deep_copy_into_engine_config contents_engine_config addresses_engine_config
  deep_copy_into_engine_config-Copies =
      fields-Copies (λ (x : EngineConfigStruct). x.jwt_secret)
        (λ x jwt_secret. record x { jwt_secret = jwt_secret }) (λ x p. refl) (λ x p q. refl)
        (copy_pointer-Copies deep_copy_into_secret_key_ref-Copies)

  pub record OpNodeConfigStruct : Type 0 where
    pub sync_mode : String
    pub p2p : Pointer P2pConfigStruct
    pub rpc : Pointer RpcConfigStruct
    pub sequencer : Pointer SequencerConfig
    pub engine : Pointer EngineConfigStruct

  unfoldable pub deep_copy_into_op_node_config : OpNodeConfigStruct → Alloc OpNodeConfigStruct
  deep_copy_into_op_node_config x = do
    p2p ← copy_pointer deep_copy_into_p2p_config x.p2p
    rpc ← copy_pointer deep_copy_into_rpc_config x.rpc
    sequencer ← copy_pointer pure x.sequencer
    engine ← copy_pointer deep_copy_into_engine_config x.engine
    pure (record x { p2p = p2p; rpc = rpc; sequencer = sequencer; engine = engine })

  unfoldable pub deep_copy_op_node_config :
      Pointer OpNodeConfigStruct → Alloc (Pointer OpNodeConfigStruct)
  deep_copy_op_node_config = copy_pointer deep_copy_into_op_node_config

  unfoldable pub contents_op_node_config : OpNodeConfigStruct → OpNodeConfigStruct
  contents_op_node_config x = record x {
    p2p = contents_pointer contents_p2p_config x.p2p;
    rpc = contents_pointer contents_rpc_config x.rpc;
    sequencer = contents_pointer itself x.sequencer;
    engine = contents_pointer contents_engine_config x.engine;
  }

  unfoldable pub addresses_op_node_config : OpNodeConfigStruct → List ℕ
  addresses_op_node_config x =
      addresses_pointer addresses_p2p_config x.p2p
      ++ (addresses_pointer addresses_rpc_config x.rpc
          ++ (addresses_pointer no_addresses x.sequencer
              ++ addresses_pointer addresses_engine_config x.engine))

  pub deep_copy_into_op_node_config-Copies :
      Copies contents_op_node_config addresses_op_node_config deep_copy_into_op_node_config
  unfolding deep_copy_into_op_node_config contents_op_node_config addresses_op_node_config
  deep_copy_into_op_node_config-Copies =
      fields-Copies (λ (x : OpNodeConfigStruct). (x.p2p, (x.rpc, (x.sequencer, x.engine))))
        (λ x (p2p, (rpc, (sequencer, engine))). record x {
          p2p = p2p;
          rpc = rpc;
          sequencer = sequencer;
          engine = engine;
        })
        (λ x p. refl) (λ x p q. refl)
        (copy_pointer-Copies deep_copy_into_p2p_config-Copies
          then_field copy_pointer-Copies deep_copy_into_rpc_config-Copies
          then_field copy_pointer-Copies pure-Copies
          then_field copy_pointer-Copies deep_copy_into_engine_config-Copies)
