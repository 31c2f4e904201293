-- ===== src/Resources/Endpoint.antt =====
-- getSequencerEndpoint of pkg/resources/statefulset.go.
use op_stack_operator.Prelude.{String, ◌<>◌, not, ◌&&◌, if◌then◌else◌, is_empty, str_eq, on_some}
use op_stack_operator.Prelude.Int.{ℤ, pos}
use op_stack_operator.Text.{format_int}
use op_stack_operator.Api.Network.{OptimismNetwork}
use op_stack_operator.Api.Node.{OpNode, SequencerReference}
use op_stack_operator.Resources.Config.{enabled_sequencer, get_op_geth_http_port}

-- fmt.Sprintf("http://%s:%d", host, port)
abbrev pub http_url : String → ℤ → String
http_url host port = "http://" <> host <> ":" <> format_int port

-- The host of a sequencer reference.
unfoldable pub sequencer_service_name : String → SequencerReference → String
sequencer_service_name own_namespace ref =
    if not (is_empty ref.namespace) && not (str_eq ref.namespace own_namespace)
    then ref.name <> "." <> ref.namespace <> ".svc.cluster.local"
    else ref.name

module _ {Q : Type 0} (op_node : OpNode Q) (network : OptimismNetwork Q) where
  -- What a node that is no sequencer itself asks.
  unfoldable pub upstream_endpoint : String
  upstream_endpoint =
      if not (is_empty op_node.spec.l2_rpc_url)
      then op_node.spec.l2_rpc_url
      else on_some op_node.spec.sequencer_ref
          (http_url (network.meta.name <> "-sequencer") (pos 8545))
          (λ ref. http_url (sequencer_service_name op_node.meta.namespace ref) (pos 8545))

  unfoldable pub get_sequencer_endpoint : String
  unfolding upstream_endpoint
  get_sequencer_endpoint =
      on_some (enabled_sequencer op_node) upstream_endpoint
        (λ _. http_url "127.0.0.1" (get_op_geth_http_port op_node))
