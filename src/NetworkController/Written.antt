-- ===== src/NetworkController/Written.antt =====
-- What a successful updateStatusWithRetry of internal/controller/optimismnetwork_controller.go has
-- written.
use op_stack_operator.Prelude.{◌≡◌, refl, ◌∙◌}
use op_stack_operator.Api.Meta.{NamespacedName}
use op_stack_operator.Api.Network.{OptimismNetwork}
use op_stack_operator.Runtime.{Result, ok, err, or_return}
use op_stack_operator.Cluster.{Cluster, RetriesConflicts}
use op_stack_operator.Cluster.Retries.{Retried-ends}
use op_stack_operator.NetworkController.Reconcile.{write_status, update_status_with_retry}

module _ {W EthClient Q : Type 0} (cluster : Cluster W EthClient Q)
    (network : OptimismNetwork Q) where
  abbrev its_key : NamespacedName
  its_key = record { name = network.meta.name; namespace = network.meta.namespace }

  -- The run ends, in `w'`, with the update of what the call before it read, and only the status of
  -- that is another one.
  abbrev pub Wrote : W → Type 0
  Wrote w' =
      (latest : OptimismNetwork Q) × (v u : W) × (cluster.networks.get its_key v ≡ (ok latest, u))
      × (cluster.networks.update_status (record latest { status = network.status }) u ≡ (ok tt, w'))

  read-Wrote :
      (v w' : W) (run : Result (OptimismNetwork Q) × W)
      → cluster.networks.get its_key v ≡ run
      → or_return run.0
          (λ latest. cluster.networks.update_status (record latest { status = network.status }))
          run.1
        ≡ (ok tt, w')
      → Wrote w'
  read-Wrote v w' (ok latest, u) read written = (latest, v, u, read, written)
  read-Wrote v w' (err e, u) read failed = cc

  -- Where updateStatusWithRetry of a network succeeds, and RetryOnConflict repeats a call only
  -- behind a conflict, its last call updated the status of the network that the call before it
  -- read: metadata and specification are those read, and the whole status is the one to be written.
  pub network_update_status_with_retry-Wrote :
      (w w' : W)
      → RetriesConflicts cluster
      → update_status_with_retry cluster network w ≡ (ok tt, w')
      → Wrote w'
  unfolding update_status_with_retry write_status
  network_update_status_with_retry-Wrote w w' retries h =
      let f = write_status cluster network in
      let (v, e) = Retried-ends cluster.backoff f w (cluster.retry_on_conflict f w) (retries f w) in
      read-Wrote v w' (cluster.networks.get its_key v) refl (e ∙ h)
