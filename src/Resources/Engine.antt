-- ===== src/Resources/Engine.antt =====
-- The Engine API, by which op-node drives op-geth.
use mathlib.Core.List.Memᴰ
use op_stack_operator.Prelude.{◌<>◌, ◌≡◌, refl, some, [], Memᴰ, on_some}
use op_stack_operator.Prelude.Int.{pos}
use op_stack_operator.Text.{format_int}
use op_stack_operator.Api.Network.{OptimismNetwork}
use op_stack_operator.Api.Node.{OpNode, AuthRpcConfig}
use op_stack_operator.Resources.Config.{auth_rpc, get_default_int32, get_auth_rpc_port}
use op_stack_operator.Resources.Args.{behind4, op_geth_args, op_node_args, auth_rpc_args}

module _ {Q : Type 0} (op_node : OpNode Q) (network : OptimismNetwork Q) where
  -- Where AuthRPC is configured, the port that op-geth serves the Engine API at is the port that
  -- op-node dials on the loopback address, and both are given the same JWT file.
  pub engine_ports_agree :
      (config : AuthRpcConfig)
      → auth_rpc op_node ≡ some config
      → let port = format_int (get_auth_rpc_port op_node) in
        Memᴰ ("--authrpc.port=" <> port) (op_geth_args op_node network)
        × Memᴰ ("--l2=http://127.0.0.1:" <> port) (op_node_args op_node network)
        × Memᴰ "--authrpc.jwtsecret=/secrets/jwt/jwt" (op_geth_args op_node network)
        × Memᴰ "--l2.jwt-secret=/secrets/jwt/jwt" (op_node_args op_node network)
  unfolding op_geth_args op_node_args auth_rpc_args
  engine_ports_agree config e =
      let port : get_auth_rpc_port op_node ≡ get_default_int32 config.port (pos 8551) =
        unfold get_auth_rpc_port in rw e refl in
      let served : Memᴰ ("--authrpc.port=" <> format_int (get_auth_rpc_port op_node))
          (on_some (auth_rpc op_node) [] auth_rpc_args) =
        rw (e, port) (Memᴰ.tail (Memᴰ.head refl)) in
      let keyed : Memᴰ "--authrpc.jwtsecret=/secrets/jwt/jwt"
          (on_some (auth_rpc op_node) [] auth_rpc_args) =
        rw e (Memᴰ.tail (Memᴰ.tail (Memᴰ.head refl))) in
      (
        behind4 (Memᴰ.append_right _ (Memᴰ.append_right _ served)),
        Memᴰ.tail (Memᴰ.head refl),
        behind4 (Memᴰ.append_right _ (Memᴰ.append_right _ keyed)),
        Memᴰ.tail (Memᴰ.tail (Memᴰ.head refl)),
      )
