-- ===== src/Resources/Args.antt =====
-- The command lines of the two containers: createOpGethContainer and createOpNodeContainer of
-- pkg/resources/statefulset.go up to the container literal.
use op_stack_operator.Prelude.{
  String, ◌<>◌, List, [], ◌∷◌, ◌++◌, Memᴰ, map, Option, if◌then◌else◌, is_empty, non_empty,
  and_then, only_if, on_some,
}
use op_stack_operator.Prelude.Int.{ℤ, pos}
use op_stack_operator.Text.{format_int}
use op_stack_operator.Api.Network.{OptimismNetwork, LoggingConfig, MetricsConfig}
use op_stack_operator.Api.Node.{
  OpNode, HttpConfig, WsConfig, AuthRpcConfig, RpcConfig, P2pConfig, SequencerConfig,
}
use op_stack_operator.Resources.Config.{
  get_default_string, get_default_int32, join_strings, enabled_http, enabled_ws, auth_rpc,
  enabled_rpc, enabled_p2p, enabled_sequencer, usable_key, get_auth_rpc_port,
}
use op_stack_operator.Resources.Endpoint.{get_sequencer_endpoint}

-- `args = append(args, prefix+strings)` under `if len(strs) > 0`
abbrev pub list_arg : String → List String → List String
list_arg prefix strs = if non_empty strs then (prefix <> join_strings strs) ∷ [] else []

-- The same for a text that may be empty.
abbrev pub text_arg : String → String → List String
text_arg prefix text = if is_empty text then [] else (prefix <> text) ∷ []

abbrev pub port_arg : String → ℤ → ℤ → String
port_arg prefix port default_port = prefix <> format_int (get_default_int32 port default_port)

unfoldable pub http_args : HttpConfig → List String
http_args config =
    "--http"
    ∷ ("--http.addr=" <> get_default_string config.host "0.0.0.0")
    ∷ port_arg "--http.port=" config.port (pos 8545)
    ∷ (list_arg "--http.api=" config.apis
        ++ on_some config.cors [] (λ cors. list_arg "--http.corsdomain=" cors.origins))

unfoldable pub ws_args : WsConfig → List String
ws_args config =
    "--ws"
    ∷ ("--ws.addr=" <> get_default_string config.host "0.0.0.0")
    ∷ port_arg "--ws.port=" config.port (pos 8546)
    ∷ (list_arg "--ws.api=" config.apis ++ list_arg "--ws.origins=" config.origins)

unfoldable pub auth_rpc_args : AuthRpcConfig → List String
auth_rpc_args config =
    ("--authrpc.addr=" <> get_default_string config.host "127.0.0.1")
    ∷ port_arg "--authrpc.port=" config.port (pos 8551)
    ∷ "--authrpc.jwtsecret=/secrets/jwt/jwt"
    ∷ []

unfoldable pub rpc_args : RpcConfig → List String
rpc_args config =
    ("--rpc.addr=" <> get_default_string config.host "0.0.0.0")
    ∷ port_arg "--rpc.port=" config.port (pos 9545)
    ∷ (if config.enable_admin then "--rpc.enable-admin" ∷ [] else [])

unfoldable pub p2p_args : P2pConfig → List String
p2p_args config =
    port_arg "--p2p.listen.tcp=" config.listen_port (pos 9003)
    ∷ (on_some config.discovery [] (λ d. if d.enabled then [] else "--p2p.no-discovery" ∷ [])
        ++ (map (λ peer. "--p2p.static=" <> peer) config.static
            ++ on_some (usable_key config) []
                (λ _. "--p2p.priv.path=/secrets/p2p/private-key" ∷ [])))

unfoldable pub sequencer_args : SequencerConfig → List String
sequencer_args config =
    "--sequencer.enabled"
    ∷ (if is_empty config.block_time then [] else "--sequencer.l1-confs=4" ∷ [])

unfoldable pub logging_args : LoggingConfig → List String
logging_args logging =
    text_arg "--log.level=" logging.level ++ text_arg "--log.format=" logging.format

unfoldable pub metrics_args : MetricsConfig → List String
metrics_args metrics =
    "--metrics.enabled"
    ∷ "--metrics.addr=0.0.0.0"
    ∷ port_arg "--metrics.port=" metrics.port (pos 7300)
    ∷ []

module _ {Q : Type 0} (op_node : OpNode Q) where
  abbrev pub data_dir : String
  data_dir =
      if is_empty op_node.spec.op_geth.data_dir then "/data/geth" else op_node.spec.op_geth.data_dir

  abbrev pub sync_mode : String
  sync_mode =
      if is_empty op_node.spec.op_geth.sync_mode then "snap" else op_node.spec.op_geth.sync_mode

module _ {Q : Type 0} (network : OptimismNetwork Q) where
  abbrev pub shared_logging : Option LoggingConfig
  shared_logging = and_then network.spec.shared_config (λ c. c.logging)

  abbrev pub enabled_metrics : Option MetricsConfig
  enabled_metrics = only_if (λ m. m.enabled) (and_then network.spec.shared_config (λ c. c.metrics))

module _ {Q : Type 0} (op_node : OpNode Q) (network : OptimismNetwork Q) where
  unfoldable pub op_geth_args : List String
  op_geth_args =
      ("--datadir=" <> data_dir op_node)
      ∷ ("--networkid=" <> format_int network.spec.chain_id)
      ∷ ("--rollup.sequencerhttp=" <> get_sequencer_endpoint op_node network)
      ∷ ("--syncmode=" <> sync_mode op_node)
      ∷ (on_some (enabled_http op_node) [] http_args
          ++ (on_some (enabled_ws op_node) [] ws_args
              ++ on_some (auth_rpc op_node) [] auth_rpc_args))

  unfoldable pub op_node_args : List String
  op_node_args =
      ("--l1=" <> network.spec.l1_rpc_url)
      ∷ ("--l2=http://127.0.0.1:" <> format_int (get_auth_rpc_port op_node))
      ∷ "--l2.jwt-secret=/secrets/jwt/jwt"
      ∷ "--rollup.config=/config/rollup.json"
      ∷ (text_arg "--network=" network.spec.network_name
          ++ (on_some (enabled_rpc op_node) [] rpc_args
              ++ (on_some (enabled_p2p op_node) [] p2p_args
                  ++ (on_some (enabled_sequencer op_node) [] sequencer_args
                      ++ (on_some (shared_logging network) [] logging_args
                          ++ on_some (enabled_metrics network) [] metrics_args)))))

-- Behind the four arguments that each command line begins with.
pub behind4 :
    {a : String} {w x y z : String} {args : List String}
    → Memᴰ a args
    → Memᴰ a (w ∷ x ∷ y ∷ z ∷ args)
behind4 m = Memᴰ.tail (Memᴰ.tail (Memᴰ.tail (Memᴰ.tail m)))
