-- ===== src/Tests/Objects.antt =====
-- The theorems on StatefulSets, Services and conditions, on the objects of the in-memory cluster.

use op_stack_operator.Prelude.{
  String, ℕ, ◌≡◌, refl, ◌≢◌, true, false, some, List, [], Memᴰ, All, if◌then◌else◌, str_eq,
}
use op_stack_operator.Prelude.Int.{pos, ==ℤ_iff}
use op_stack_operator.Api.Meta.{Condition, condition_true, condition_false}
use op_stack_operator.Api.Node.{OpNode}
use op_stack_operator.Conditions.{set_condition, get_condition}
use op_stack_operator.Conditions.Laws.{written, get_condition-set_condition}
use op_stack_operator.Resources.Objects.{Container}
use op_stack_operator.Resources.Config.{get_default_int32, get_op_geth_http_port}
use op_stack_operator.Resources.StatefulSet.{create_op_node_stateful_set}
use op_stack_operator.Resources.Service.{tcp_port, create_op_node_service}
use op_stack_operator.Resources.Endpoint.{http_url, get_sequencer_endpoint}
use op_stack_operator.Resources.Mounts.{Resolves, create_op_node_stateful_set-Resolves}
use op_stack_operator.Resources.Ports
use op_stack_operator.Tests.Samples.{network, http, networking, replica, sequencer}
use op_stack_operator.Tests.World.{cluster}

create_op_node_stateful_set-Resolves_example :
    let set = create_op_node_stateful_set cluster.is_zero cluster.must_parse replica network in
    All (λ (c : Container ℕ). All (Resolves set) c.volume_mounts) set.spec.template.containers
create_op_node_stateful_set-Resolves_example =
    create_op_node_stateful_set-Resolves cluster.is_zero cluster.must_parse replica network

-- A replica whose op-geth listens elsewhere.
abbrev moved : OpNode ℕ
moved = record replica {
  spec = record replica.spec {
    op_geth = record replica.spec.op_geth {
      networking = some (record networking { http = some (record http { port = pos 8600 }) });
    };
  };
}

moved-port : get_op_geth_http_port moved ≢ pos 8545
unfolding get_op_geth_http_port get_default_int32
moved-port e = let h : false ≡ true = (==ℤ_iff (pos 8600) (pos 8545)).1 e in cc

get_sequencer_endpoint-reaches_example :
    let service = create_op_node_service sequencer network in
    (host : String) × (get_sequencer_endpoint replica network ≡ http_url host (pos 8545))
    × Ports.NamesService "default" host service.meta
    × Memᴰ (tcp_port "geth-http" (pos 8545)) service.spec.ports
unfolding get_op_geth_http_port get_default_int32
get_sequencer_endpoint-reaches_example =
    Ports.get_sequencer_endpoint-reaches replica sequencer network
      (record { name = "sequencer-0"; namespace = "" }) http refl refl refl refl refl refl refl refl

abbrev conditions : List Condition
conditions = set_condition (pos 7) [] "SecretsReady" condition_true "SecretsReconciled" "ready"

get_condition-set_condition_example :
    get_condition
      (set_condition (pos 8) conditions "ServiceReady" condition_false "Failed" "no")
      "SecretsReady"
    ≡ (if str_eq "ServiceReady" "SecretsReady"
        then some (
            written
              (pos 8)
              (get_condition conditions "ServiceReady")
              "ServiceReady"
              condition_false
              "Failed"
              "no")
        else get_condition conditions "SecretsReady")
get_condition-set_condition_example =
    get_condition-set_condition (pos 8) conditions "ServiceReady" condition_false "Failed" "no"
      "SecretsReady"
