-- ===== src/Resources/Service.antt =====
-- pkg/resources/service.go
use op_stack_operator.Prelude.{
  String, not, ◌||◌, Option, List, [], ◌∷◌, ◌++◌, map, if◌then◌else◌, is_empty, non_empty, only_if,
  on_some, and_then,
}
use op_stack_operator.Prelude.Int.{ℤ, pos, ◌==ℤ◌}
use op_stack_operator.Api.Network.{OptimismNetwork}
use op_stack_operator.Api.Node.{OpNode, IntOrString, ServicePortConfig, ServiceConfig}
use op_stack_operator.Resources.Objects.{ServicePort, Service}
use op_stack_operator.Resources.Config.{
  get_default_int32, enabled_http, enabled_ws, enabled_rpc, enabled_p2p, node_labels, new_meta,
}

-- intstr.FromInt32
abbrev pub from_int32 : ℤ → IntOrString
from_int32 port = record { int_val = port; str_val = "" }

-- A ServicePort whose target port is its port.
abbrev pub tcp_port : String → ℤ → ServicePort
tcp_port name port = record {
  name = name;
  port = port;
  target_port = from_int32 port;
  protocol = "TCP";
}

-- The body of the loop of buildServicePorts.
unfoldable pub custom_port : ServicePortConfig → ServicePort
custom_port config = record {
  name = config.name;
  port = config.port;
  target_port =
      if not (config.target_port.int_val ==ℤ pos 0) || not (is_empty config.target_port.str_val)
      then config.target_port
      else from_int32 config.port;
  protocol = if is_empty config.protocol then "TCP" else config.protocol;
}

unfoldable pub port_if : {A : Type 0} → String → Option A → (A → ℤ) → ℤ → List ServicePort
port_if name config port default_port =
    on_some config [] (λ c. tcp_port name (get_default_int32 (port c) default_port) ∷ [])

module _ {Q : Type 0} (op_node : OpNode Q) where
  unfoldable pub build_default_service_ports : List ServicePort
  build_default_service_ports =
      port_if "geth-http" (enabled_http op_node) (λ c. c.port) (pos 8545)
      ++ (port_if "geth-ws" (enabled_ws op_node) (λ c. c.port) (pos 8546)
          ++ (port_if "geth-p2p" (and_then op_node.spec.op_geth.networking (λ n. n.p2p))
                (λ c. c.port) (pos 30303)
              ++ (port_if "node-rpc" (enabled_rpc op_node) (λ c. c.port) (pos 9545)
                  ++ (port_if "node-p2p" (enabled_p2p op_node) (λ c. c.listen_port) (pos 9003)
                      ++ tcp_port "metrics" (pos 7300) ∷ []))))

  -- opNode.Spec.Service != nil && len(Ports) > 0
  abbrev pub custom_ports : Option ServiceConfig
  custom_ports = only_if (λ s. non_empty s.ports) op_node.spec.service

  unfoldable pub build_service_ports : List ServicePort
  unfolding build_default_service_ports
  build_service_ports =
      on_some custom_ports build_default_service_ports (λ s. map custom_port s.ports)

  unfoldable pub create_op_node_service : OptimismNetwork Q → Service
  create_op_node_service network = record {
    meta =
        record (new_meta op_node.meta.name op_node.meta.namespace (node_labels op_node network)) {
          annotations = on_some op_node.spec.service [] (λ s. s.annotations);
        };
    spec = record {
      type =
          on_some (only_if (λ s. not (is_empty s.type)) op_node.spec.service) "ClusterIP"
            (λ s. s.type);
      selector = node_labels op_node network;
      ports = build_service_ports;
    };
  }
