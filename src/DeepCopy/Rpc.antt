-- ===== src/DeepCopy/Rpc.antt =====
-- The HTTP, WebSocket and authenticated RPC servers of op-geth, and the RPC server of op-node.
use op_stack_operator.DeepCopy.Copies.{
  Copies, copy_pointer-Copies, fields-Copies, pure-Copies, ◌then_field◌,
}
use op_stack_operator.DeepCopy.Memory.{
  Alloc, Pointer, addresses_pointer, contents_pointer, copy_pointer, itself, no_addresses, pure,
  ◌>>=◌,
}
use op_stack_operator.Prelude.{Bool, List, String, refl, ℕ, ◌++◌}
use op_stack_operator.Prelude.Int.{ℤ}

pub record CorsConfigStruct : Type 0 where
  pub origins : Pointer (List String)
  pub methods : Pointer (List String)

unfoldable pub deep_copy_into_cors_config : CorsConfigStruct → Alloc CorsConfigStruct
deep_copy_into_cors_config x = do
  origins ← copy_pointer pure x.origins
  methods ← copy_pointer pure x.methods
  pure (record x { origins = origins; methods = methods })

unfoldable pub deep_copy_cors_config : Pointer CorsConfigStruct → Alloc (Pointer CorsConfigStruct)
deep_copy_cors_config = copy_pointer deep_copy_into_cors_config

unfoldable pub contents_cors_config : CorsConfigStruct → CorsConfigStruct
contents_cors_config x = record x {
  origins = contents_pointer itself x.origins;
  methods = contents_pointer itself x.methods;
}

unfoldable pub addresses_cors_config : CorsConfigStruct → List ℕ
addresses_cors_config x =
    addresses_pointer no_addresses x.origins ++ addresses_pointer no_addresses x.methods

pub deep_copy_into_cors_config-Copies :
    Copies contents_cors_config addresses_cors_config deep_copy_into_cors_config
unfolding deep_copy_into_cors_config contents_cors_config addresses_cors_config
deep_copy_into_cors_config-Copies =
    fields-Copies (λ (x : CorsConfigStruct). (x.origins, x.methods))
      (λ x (origins, methods). record x { origins = origins; methods = methods }) (λ x p. refl)
      (λ x p q. refl) (copy_pointer-Copies pure-Copies then_field copy_pointer-Copies pure-Copies)

pub record AuthRpcConfigStruct : Type 0 where
  pub host : String
  pub port : ℤ
  pub apis : Pointer (List String)

unfoldable pub deep_copy_into_auth_rpc_config : AuthRpcConfigStruct → Alloc AuthRpcConfigStruct
deep_copy_into_auth_rpc_config x = do
  apis ← copy_pointer pure x.apis
  pure (record x { apis = apis })

unfoldable pub deep_copy_auth_rpc_config :
    Pointer AuthRpcConfigStruct → Alloc (Pointer AuthRpcConfigStruct)
deep_copy_auth_rpc_config = copy_pointer deep_copy_into_auth_rpc_config

unfoldable pub contents_auth_rpc_config : AuthRpcConfigStruct → AuthRpcConfigStruct
contents_auth_rpc_config x = record x { apis = contents_pointer itself x.apis }

unfoldable pub addresses_auth_rpc_config : AuthRpcConfigStruct → List ℕ
addresses_auth_rpc_config x = addresses_pointer no_addresses x.apis

pub deep_copy_into_auth_rpc_config-Copies :
    Copies contents_auth_rpc_config addresses_auth_rpc_config deep_copy_into_auth_rpc_config
unfolding deep_copy_into_auth_rpc_config contents_auth_rpc_config addresses_auth_rpc_config
deep_copy_into_auth_rpc_config-Copies =
    fields-Copies (λ (x : AuthRpcConfigStruct). x.apis) (λ x apis. record x { apis = apis })
      (λ x p. refl) (λ x p q. refl) (copy_pointer-Copies pure-Copies)

pub record HttpConfigStruct : Type 0 where
  pub enabled : Bool
  pub host : String
  pub port : ℤ
  pub apis : Pointer (List String)
  pub cors : Pointer CorsConfigStruct

unfoldable pub deep_copy_into_http_config : HttpConfigStruct → Alloc HttpConfigStruct
deep_copy_into_http_config x = do
  apis ← copy_pointer pure x.apis
  cors ← copy_pointer deep_copy_into_cors_config x.cors
  pure (record x { apis = apis; cors = cors })

unfoldable pub deep_copy_http_config : Pointer HttpConfigStruct → Alloc (Pointer HttpConfigStruct)
deep_copy_http_config = copy_pointer deep_copy_into_http_config

unfoldable pub contents_http_config : HttpConfigStruct → HttpConfigStruct
contents_http_config x = record x {
  apis = contents_pointer itself x.apis;
  cors = contents_pointer contents_cors_config x.cors;
}

unfoldable pub addresses_http_config : HttpConfigStruct → List ℕ
addresses_http_config x =
    addresses_pointer no_addresses x.apis ++ addresses_pointer addresses_cors_config x.cors

pub deep_copy_into_http_config-Copies :
    Copies contents_http_config addresses_http_config deep_copy_into_http_config
unfolding deep_copy_into_http_config contents_http_config addresses_http_config
deep_copy_into_http_config-Copies =
    fields-Copies (λ (x : HttpConfigStruct). (x.apis, x.cors))
      (λ x (apis, cors). record x { apis = apis; cors = cors }) (λ x p. refl) (λ x p q. refl)
      (copy_pointer-Copies pure-Copies
        then_field copy_pointer-Copies deep_copy_into_cors_config-Copies)

pub record WsConfigStruct : Type 0 where
  pub enabled : Bool
  pub host : String
  pub port : ℤ
  pub apis : Pointer (List String)
  pub origins : Pointer (List String)

unfoldable pub deep_copy_into_ws_config : WsConfigStruct → Alloc WsConfigStruct
deep_copy_into_ws_config x = do
  apis ← copy_pointer pure x.apis
  origins ← copy_pointer pure x.origins
  pure (record x { apis = apis; origins = origins })

unfoldable pub deep_copy_ws_config : Pointer WsConfigStruct → Alloc (Pointer WsConfigStruct)
deep_copy_ws_config = copy_pointer deep_copy_into_ws_config

unfoldable pub contents_ws_config : WsConfigStruct → WsConfigStruct
contents_ws_config x = record x {
  apis = contents_pointer itself x.apis;
  origins = contents_pointer itself x.origins;
}

unfoldable pub addresses_ws_config : WsConfigStruct → List ℕ
addresses_ws_config x =
    addresses_pointer no_addresses x.apis ++ addresses_pointer no_addresses x.origins

pub deep_copy_into_ws_config-Copies :
    Copies contents_ws_config addresses_ws_config deep_copy_into_ws_config
unfolding deep_copy_into_ws_config contents_ws_config addresses_ws_config
deep_copy_into_ws_config-Copies =
    fields-Copies (λ (x : WsConfigStruct). (x.apis, x.origins))
      (λ x (apis, origins). record x { apis = apis; origins = origins }) (λ x p. refl)
      (λ x p q. refl) (copy_pointer-Copies pure-Copies then_field copy_pointer-Copies pure-Copies)

pub record RpcConfigStruct : Type 0 where
  pub enabled : Bool
  pub host : String
  pub port : ℤ
  pub enable_admin : Bool
  pub cors : Pointer CorsConfigStruct

unfoldable pub deep_copy_into_rpc_config : RpcConfigStruct → Alloc RpcConfigStruct
deep_copy_into_rpc_config x = do
  cors ← copy_pointer deep_copy_into_cors_config x.cors
  pure (record x { cors = cors })

unfoldable pub deep_copy_rpc_config : Pointer RpcConfigStruct → Alloc (Pointer RpcConfigStruct)
deep_copy_rpc_config = copy_pointer deep_copy_into_rpc_config

unfoldable pub contents_rpc_config : RpcConfigStruct → RpcConfigStruct
contents_rpc_config x = record x { cors = contents_pointer contents_cors_config x.cors }

unfoldable pub addresses_rpc_config : RpcConfigStruct → List ℕ
addresses_rpc_config x = addresses_pointer addresses_cors_config x.cors

pub deep_copy_into_rpc_config-Copies :
    Copies contents_rpc_config addresses_rpc_config deep_copy_into_rpc_config
unfolding deep_copy_into_rpc_config contents_rpc_config addresses_rpc_config
deep_copy_into_rpc_config-Copies =
    fields-Copies (λ (x : RpcConfigStruct). x.cors) (λ x cors. record x { cors = cors })
      (λ x p. refl) (λ x p q. refl) (copy_pointer-Copies deep_copy_into_cors_config-Copies)
