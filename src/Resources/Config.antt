-- ===== src/Resources/Config.antt =====
-- The helper functions of pkg/resources/statefulset.go, the guards that its functions share, and
-- the labels, which are written out in CreateOpNodeStatefulSet and CreateOpNodeService alike.
use op_stack_operator.Prelude.{
  String, ◌<>◌, ◌≡◌, refl, ◌∙◌, ap, ◌||◌, Option, none, List, [], ◌∷◌, if◌then◌else◌, is_empty,
  is_some, and_then, only_if, on_some,
}
use text.Mathlib.TextLemmas.{append_assoc}
use op_stack_operator.Prelude.Int.{ℤ, pos, ◌==ℤ◌}
use op_stack_operator.Text.{join}
use op_stack_operator.Api.Meta.{ObjectMeta}
use op_stack_operator.Api.Network.{OptimismNetwork}
use op_stack_operator.Api.Node.{
  OpNode, HttpConfig, WsConfig, AuthRpcConfig, P2pConfig, RpcConfig, SecretKeyRef, SequencerConfig,
}

unfoldable pub get_default_string : String → String → String
get_default_string value default_value = if is_empty value then default_value else value

unfoldable pub get_default_int32 : ℤ → ℤ → ℤ
get_default_int32 value default_value = if value ==ℤ pos 0 then default_value else value

-- The loop of joinStrings.
unfoldable pub join_onto : String → List String → String
join_onto result [] = result
join_onto result (s ∷ strs) = join_onto (result <> "," <> s) strs

unfoldable pub join_strings : List String → String
unfolding join_onto
join_strings [] = ""
join_strings (s ∷ strs) = join_onto s strs

join_onto-append :
    (s t : String) (strs : List String) → join_onto (s <> t) strs ≡ s <> join_onto t strs
unfolding join_onto
join_onto-append s t [] = refl
join_onto-append s t (u ∷ strs) = rw append_assoc (join_onto-append s (t <> "," <> u) strs)

join_onto-eq-join : (s : String) (strs : List String) → join_onto s strs ≡ join "," (s ∷ strs)
unfolding join_onto join
join_onto-eq-join s [] = refl
join_onto-eq-join s (t ∷ strs) =
    join_onto-append s ("," <> t) strs
    ∙ ap (λ r. s <> r) (join_onto-append "," t strs ∙ ap (λ r. "," <> r) (join_onto-eq-join t strs))

-- joinStrings is strings.Join with a comma.
pub join_strings-eq-join : (strs : List String) → join_strings strs ≡ join "," strs
unfolding join_strings join
join_strings-eq-join [] = refl
join_strings-eq-join (s ∷ strs) = join_onto-eq-join s strs

-- P2P.PrivateKey != nil && (Generate || SecretRef != nil), of a P2P configuration
abbrev pub usable_key : P2pConfig → Option SecretKeyRef
usable_key p2p = only_if (λ k. k.generate || is_some k.secret_ref) p2p.private_key

module _ {Q : Type 0} (op_node : OpNode Q) where
  -- opNode.Spec.OpGeth.Networking != nil && Networking.HTTP != nil
  abbrev pub http : Option HttpConfig
  http = and_then op_node.spec.op_geth.networking (λ n. n.http)

  abbrev pub enabled_http : Option HttpConfig
  enabled_http = only_if (λ c. c.enabled) http

  abbrev pub enabled_ws : Option WsConfig
  enabled_ws = only_if (λ c. c.enabled) (and_then op_node.spec.op_geth.networking (λ n. n.ws))

  abbrev pub auth_rpc : Option AuthRpcConfig
  auth_rpc = and_then op_node.spec.op_geth.networking (λ n. n.auth_rpc)

  abbrev pub enabled_rpc : Option RpcConfig
  enabled_rpc = only_if (λ c. c.enabled) op_node.spec.op_node.rpc

  abbrev pub enabled_p2p : Option P2pConfig
  enabled_p2p = only_if (λ c. c.enabled) op_node.spec.op_node.p2p

  abbrev pub enabled_sequencer : Option SequencerConfig
  enabled_sequencer = only_if (λ c. c.enabled) op_node.spec.op_node.sequencer

  -- The same guard with P2P != nil, whether P2P is enabled or not.
  abbrev pub p2p_key : Option SecretKeyRef
  p2p_key = and_then op_node.spec.op_node.p2p usable_key

  unfoldable pub get_op_geth_http_port : ℤ
  get_op_geth_http_port = on_some http (pos 8545) (λ c. get_default_int32 c.port (pos 8545))

  unfoldable pub get_auth_rpc_port : ℤ
  get_auth_rpc_port = on_some auth_rpc (pos 8551) (λ c. get_default_int32 c.port (pos 8551))

  unfoldable pub node_labels : OptimismNetwork Q → List (String × String)
  node_labels network =
      ("app.kubernetes.io/name", "opnode")
      ∷ ("app.kubernetes.io/instance", op_node.meta.name)
      ∷ ("app.kubernetes.io/component", "consensus-layer")
      ∷ ("app.kubernetes.io/part-of", "op-stack")
      ∷ ("app.kubernetes.io/managed-by", "op-stack-operator")
      ∷ ("optimism.io/network", network.spec.network_name)
      ∷ ("optimism.io/node-type", op_node.spec.node_type)
      ∷ []

-- metav1.ObjectMeta{Name: name, Namespace: namespace, Labels: labels}
abbrev pub new_meta : String → String → List (String × String) → ObjectMeta
new_meta name namespace labels = record {
  name = name;
  namespace = namespace;
  generation = pos 0;
  deletion_timestamp = none;
  finalizers = [];
  labels = labels;
  annotations = [];
  owner_references = [];
}
