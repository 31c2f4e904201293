-- ===== src/Tests/System.antt =====
-- Runs of the operator in the in-memory cluster.
use op_stack_operator.Prelude.{map, ◌≡◌, ◌↔◌, Bool, true, false, refl, ℕ, [], ◌∷◌, some, none}
use op_stack_operator.Api.Meta.{NamespacedName}
use op_stack_operator.Prelude.Assoc.{lookup}
use op_stack_operator.Discovery.{
  discover_unless, cached_addresses, finish_discovery, discover_by, effective_discovery_method,
  store_addresses, discover_without_system_config,
}
use op_stack_operator.Discovery.Known.{get_well_known_addresses}
use op_stack_operator.NodeController.Status.{op_node_finalizer}
use op_stack_operator.NodeController.Reconcile as Node
use op_stack_operator.NetworkController.Reconcile as Network
use op_stack_operator.System.{Reach, State, node_run, network_run, environment, here, next}
use op_stack_operator.NodeController.Confined.{reconcile-Keeps}
use op_stack_operator.NetworkController.Confined.{network_reconcile-Keeps}
use op_stack_operator.Cluster.Within.{Within}
use op_stack_operator.System.Requeue.{reconcilers-Within}
use op_stack_operator.Manager.Rbac.{manager_role, restrict}
use op_stack_operator.Manager.Permissions.{reconcilers-restrict}
use op_stack_operator.Manager.Options.{Flags, default_flags, TlsConfig, manager_options}
use op_stack_operator.Manager.Tls.{configure, expected_tls, manager_options-tls}
use op_stack_operator.Manager.Main.{main, cert_watcher, run_manager, set_up, add_watcher, serve}
use op_stack_operator.Manager.Trace.{Call, start, recorder, run_calls, planned_calls, main-calls}
use op_stack_operator.Cluster.Server.{View}
use op_stack_operator.System.Served.{Survives, node_footprint, network_footprint}
use op_stack_operator.System.Promises.{HasSecret, HasSecret-Survives}
use op_stack_operator.Tests.Places.{view_of}
use op_stack_operator.Tests.Server.{server}
use op_stack_operator.Tests.Samples.{replica, sequencer, network, pending_network}
use op_stack_operator.Tests.World.{cluster, World}
use op_stack_operator.Tests.Controllers.{jwt_secret, with_jwt}

abbrev pub jwt_key : NamespacedName
jwt_key = record { name = "replica-0-jwt"; namespace = "default" }

-- The JWT secret is there as it was.
abbrev JwtKept : View ℕ → Type 0
JwtKept = HasSecret cluster server jwt_key jwt_secret

abbrev HasJwt : World → Type 0
HasJwt w = JwtKept (server.view w)

JwtKept-Survives : Survives cluster server JwtKept
JwtKept-Survives = HasSecret-Survives cluster server jwt_key jwt_secret

-- Others leave the secrets alone.
abbrev pub Edits : World → World → Type 0
Edits w w' = (server.view w').secrets ≡ (server.view w).secrets

abbrev pub replica_key : NamespacedName
replica_key = record { name = "replica-0"; namespace = "default" }

abbrev pub network_key : NamespacedName
network_key = record { name = "op-sepolia"; namespace = "default" }

abbrev pub s0 : State cluster
s0 = (
  record with_jwt {
    node = record replica { meta = record replica.meta { finalizers = op_node_finalizer ∷ [] } };
    its_network = record network {
      meta = record network.meta { finalizers = Network.optimism_network_finalizer ∷ [] };
    };
  },
  none,
)

-- The network, the OpNode, an edit of the OpNode, and the OpNode again.
abbrev s1 : State cluster
s1 = let (run, w) = Network.reconcile cluster network_key s0.1 s0.0 in (w, run.1)

abbrev s2 : State cluster
s2 = ((Node.reconcile cluster replica_key s1.0).1, s1.1)

abbrev s3 : State cluster
s3 = (record s2.0 { node = record s2.0.node { spec = sequencer.spec } }, s2.1)

abbrev s4 : State cluster
s4 = ((Node.reconcile cluster replica_key s3.0).1, s3.1)

both_runs : Reach cluster Edits s0 s4
unfolding server view_of
both_runs =
    next (network_run network_key)
      (next (node_run replica_key) (next (environment refl) (next (node_run replica_key) here)))

reconcile-Keeps_example : HasJwt (Node.reconcile cluster replica_key s1.0).1
unfolding server view_of
reconcile-Keeps_example =
    reconcile-Keeps cluster HasJwt (λ _. Unit {0})
      (node_footprint cluster server JwtKept JwtKept-Survives) replica_key s1.0
      (network_reconcile-Keeps cluster HasJwt (λ _. Unit {0})
        (network_footprint cluster server JwtKept JwtKept-Survives) network_key none s0.0 refl)

network_reconcile-Keeps_example : HasJwt (Network.reconcile cluster network_key none s0.0).1
unfolding server view_of
network_reconcile-Keeps_example =
    network_reconcile-Keeps cluster HasJwt (λ _. Unit {0})
      (network_footprint cluster server JwtKept JwtKept-Survives) network_key none s0.0 refl

reconcilers-Within_example :
    Within 300000000000 (Node.reconcile cluster replica_key s0.0).0
    × Within 3600000000000 (Network.reconcile cluster replica_key none s0.0).0.0
reconcilers-Within_example = reconcilers-Within cluster replica_key none s0.0

reconcilers-restrict_example :
    (Node.reconcile (restrict manager_role cluster) replica_key s0.0
      ≡ Node.reconcile cluster replica_key s0.0)
    × (Network.reconcile (restrict manager_role cluster) replica_key none s0.0
        ≡ Network.reconcile cluster replica_key none s0.0)
reconcilers-restrict_example = reconcilers-restrict cluster replica_key none s0.0

manager_options-tls_example :
    let options = manager_options {Watcher = ℕ} default_flags (some 1) (some 2) in
    let c : TlsConfig ℕ = record { next_protos = "h2" ∷ []; get_certificate = none } in
    (configure options.webhook_tls_opts c ≡ expected_tls default_flags (some 1) c)
    × (configure options.metrics.tls_opts c ≡ expected_tls default_flags (some 2) c)
    × ((options.metrics.filter_provider ≡ none) ↔ (options.metrics.secure_serving ≡ false))
manager_options-tls_example =
    manager_options-tls default_flags (some 1) (some 2)
      (record { next_protos = "h2" ∷ []; get_certificate = none })

-- A webhook certificate, and a manager that fails to start.
abbrev webhook_flags : Flags
webhook_flags = record default_flags { webhook_cert_path = "/certs" }

abbrev fails_to_start : Call → Bool
fails_to_start start = true
fails_to_start _ = false

main-calls_example :
    main (recorder fails_to_start) webhook_flags []
    ≡ run_calls fails_to_start (planned_calls webhook_flags) []
main-calls_example = main-calls fails_to_start webhook_flags []

main_exits : (main (recorder fails_to_start) webhook_flags []).0 ≡ 1
unfolding main cert_watcher run_manager set_up add_watcher serve
main_exits = refl

-- The two runs end with the network Ready and the OpNode Running, with its two secrets.
runs_end :
    (s2.0.its_network.status.phase ≡ "Ready")
    × (s2.0.node.status.phase ≡ "Running")
    × (map (λ s. s.meta.name) s2.0.secrets ≡ "replica-0-jwt" ∷ "replica-0-p2p" ∷ [])
unfolding Node.reconcile Network.reconcile discover_unless cached_addresses lookup finish_discovery
    discover_by effective_discovery_method store_addresses discover_without_system_config
    get_well_known_addresses
runs_end = (refl, refl, refl)

-- A network that failed before, and a run for it.
abbrev r0 : State cluster
r0 = (
  record s0.0 { its_network = record s0.0.its_network { status = pending_network.status } },
  none,
)

abbrev r1 : State cluster
r1 = let (run, w) = Network.reconcile cluster network_key r0.1 r0.0 in (w, run.1)

-- That run ends with the network Ready.
ends_ready : r1.0.its_network.status.phase ≡ "Ready"
unfolding Network.reconcile discover_unless cached_addresses lookup finish_discovery discover_by
    effective_discovery_method store_addresses discover_without_system_config
    get_well_known_addresses
ends_ready = refl
