-- ===== src/Tests/Progress.antt =====
-- What runs of the controllers leave in the in-memory cluster, continued: finalizers, ConfigMaps, the
-- status of a network and a generated P2P key.
use op_stack_operator.Prelude.{◌≡◌, refl, true, some, ℕ, [], ◌∷◌}
use op_stack_operator.Prelude.Int.{pos}
use op_stack_operator.Api.Meta.{NamespacedName, ObjectMeta}
use op_stack_operator.Api.Network.{OptimismNetwork}
use op_stack_operator.Api.Node.{OpNode}
use op_stack_operator.Runtime.{ok}
use op_stack_operator.Resources.Objects.{ConfigMap}
use op_stack_operator.Discovery.Known.{op_sepolia}
use op_stack_operator.NodeController.Secrets.{new_secret}
use op_stack_operator.NodeController.Keys.{CreatesP2p, reconcile_p2p_secret-created}
use op_stack_operator.NodeController.Reconcile as Node
use op_stack_operator.NodeController.Converges.{ReadsBack}
use op_stack_operator.NodeController.Progress.{
  GoesOn, StoredOpNode, AddsFinalizer, with_finalizer, reconcile-progresses,
}
use op_stack_operator.NetworkController.Reconcile as Network
use op_stack_operator.NetworkController.ConfigMaps.{rollup_config_map, reconcile_rollup_config}
use op_stack_operator.NetworkController.Converges.{
  StoredConfigMap, Holds, reconcile_rollup_config-Holds,
}
use op_stack_operator.NetworkController.Written as NetworkWritten
use op_stack_operator.Tests.Samples.{network, replica, generated_key}
use op_stack_operator.Tests.World.{cluster, World, start, missing, random_bytes}
use op_stack_operator.Tests.Controllers.{cluster-RetriesConflicts, random_bytes-small}
use op_stack_operator.Tests.Converges.{place-ReadsBack, cluster-KeepsNames}

op_nodes-ReadsBack :
    ReadsBack (λ w. w) (λ (o : OpNode ℕ). o.meta) (StoredOpNode cluster) cluster.op_nodes
op_nodes-ReadsBack =
    place-ReadsBack (λ (o : OpNode ℕ). o.meta) (λ w. some w.node) (λ o w. record w { node = o })
      (λ o p. record o { status = p.status }) (StoredOpNode cluster) (λ o w. refl)
      (λ o. (refl, refl, refl))

config_maps-ReadsBack :
    ReadsBack (λ w. w) (λ (c : ConfigMap). c.meta) StoredConfigMap cluster.config_maps
config_maps-ReadsBack =
    place-ReadsBack (λ (c : ConfigMap). c.meta) (λ w. w.config_map)
      (λ c w. record w { config_map = some c }) (λ old new. new) StoredConfigMap (λ c w. refl)
      (λ c. refl)

cluster-AddsFinalizer : AddsFinalizer cluster
cluster-AddsFinalizer meta = (refl, refl, refl)

abbrev replica_name : NamespacedName
replica_name = record { name = "replica-0"; namespace = "default" }

abbrev finalized : World
finalized = record start { node = with_finalizer cluster replica }

reconcile-progresses_example :
    (Node.reconcile cluster replica_name start
      ≡ (ok (record { requeue = true; requeue_after = pos 0 }), finalized))
    × GoesOn cluster replica_name replica.spec finalized
reconcile-progresses_example =
    reconcile-progresses cluster (λ w. w) replica_name start start finalized replica
      op_nodes-ReadsBack cluster-AddsFinalizer refl refl refl refl

reconcile_rollup_config-Holds_example :
    Holds cluster
      (λ w. w)
      config_maps-ReadsBack
      (record { name = "op-sepolia-rollup-config"; namespace = "default" })
      (rollup_config_map cluster network op_sepolia)
      (reconcile_rollup_config cluster network op_sepolia start).1
unfolding reconcile_rollup_config
reconcile_rollup_config-Holds_example =
    reconcile_rollup_config-Holds cluster (λ w. w) config_maps-ReadsBack cluster-KeepsNames network
      op_sepolia start refl refl

abbrev failing_network : OptimismNetwork ℕ
failing_network = record network { status = record network.status { phase = "Error" } }

network_update_status_with_retry-Wrote_example :
    NetworkWritten.Wrote cluster failing_network (record start { its_network = failing_network })
unfolding Network.update_status_with_retry
network_update_status_with_retry-Wrote_example =
    NetworkWritten.network_update_status_with_retry-Wrote cluster failing_network start
      (record start { its_network = failing_network }) cluster-RetriesConflicts refl

abbrev p2p_meta : ObjectMeta
p2p_meta = record (new_secret cluster replica "replica-0-p2p" "p2p-secret" "private-key" "").meta {
  owner_references = ("OpNode", "replica-0") ∷ [];
}

reconcile_p2p_secret-created_example :
    CreatesP2p cluster replica network random_bytes p2p_meta start start
reconcile_p2p_secret-created_example =
    reconcile_p2p_secret-created cluster replica network generated_key missing random_bytes p2p_meta
      start start start refl refl refl refl refl random_bytes-small refl refl refl
