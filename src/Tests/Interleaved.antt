-- ===== src/Tests/Interleaved.antt =====
-- Runs of the operator in the in-memory cluster while somebody else edits the OpNode all the time.
use op_stack_operator.Prelude.{◌≡◌, refl, ap, ◌∙◌}
use op_stack_operator.Prelude.Assoc.{lookup}
use op_stack_operator.Cluster.Interleaved.{interleave}
use op_stack_operator.Discovery.{
  discover_unless, cached_addresses, finish_discovery, discover_by, effective_discovery_method,
  store_addresses, discover_without_system_config,
}
use op_stack_operator.Discovery.Known.{get_well_known_addresses}
use op_stack_operator.NodeController.Reconcile as Node
use op_stack_operator.NetworkController.Reconcile as Network
use op_stack_operator.System.{State, node_run, network_run, here, next}
use op_stack_operator.System.Interleaved.{Holds, secret_stays, interleaved-keeps_promises}
use op_stack_operator.Tests.Controllers.{jwt_secret}
use op_stack_operator.Tests.Places.{view_of}
use op_stack_operator.Tests.Samples.{sequencer}
use op_stack_operator.Tests.Server.{server}
use op_stack_operator.Tests.System.{Edits, jwt_key, network_key, replica_key, s0}
use op_stack_operator.Tests.World.{cluster, World}

-- Whatever the OpNode was, it is a sequencer now.
abbrev meddle : World → World
meddle w = record w { node = record w.node { spec = sequencer.spec } }

abbrev m1 : State cluster
m1 =
    let (run, w) = Network.reconcile (interleave meddle cluster) network_key s0.1 s0.0 in (w, run.1)

abbrev m2 : State cluster
m2 = ((Node.reconcile (interleave meddle cluster) replica_key m1.0).1, m1.1)

interleaved-keeps_promises_example :
    Holds cluster server (secret_stays jwt_key jwt_secret) (server.view m2.0)
unfolding server view_of
interleaved-keeps_promises_example =
    interleaved-keeps_promises cluster server Edits meddle (secret_stays jwt_key jwt_secret)
      (λ w h. h) (λ w w' e h. ap (λ f. f jwt_key) e ∙ h)
      (next (network_run network_key) (next (node_run replica_key) here)) refl

-- The network becomes Ready and the OpNode runs, as what it was edited into.
meddled_end :
    (m2.0.its_network.status.phase ≡ "Ready")
    × (m2.0.node.spec ≡ sequencer.spec)
    × (m2.0.node.status.phase ≡ "Running")
unfolding Node.reconcile Network.reconcile discover_unless cached_addresses lookup finish_discovery
    discover_by effective_discovery_method store_addresses discover_without_system_config
    get_well_known_addresses
meddled_end = (refl, refl, refl)
