-- ===== src/NodeController/Reconcile.antt =====
-- Reconcile of internal/controller/opnode_controller.go, cut into its steps: each ends with the
-- object whose status is written, or is followed by the next one. The local variable opNode is
-- passed on from step to step.
use op_stack_operator.Prelude.{
  ℕ, ◌*◌, String, ◌<>◌, Bool, true, false, not, if◌then◌else◌, str_eq, is_some, is_empty,
}
use op_stack_operator.Prelude.Int.{pos}
use op_stack_operator.Api.Meta.{NamespacedName, condition_true, condition_false}
use op_stack_operator.Api.Network.{OptimismNetwork}
use op_stack_operator.Api.Node.{OpNode}
use op_stack_operator.Runtime.{Result, ok, err, is_not_found, Eff, pure, ◌>>=◌, or_return}
use op_stack_operator.Cluster.{Cluster, Outcome}
use op_stack_operator.NodeController.Spec.{validate_configuration}
use op_stack_operator.NodeController.Secrets.{reconcile_secrets}
use op_stack_operator.NodeController.Objects.{reconcile_stateful_set, reconcile_service}
use op_stack_operator.NodeController.Status.{
  op_node_finalizer, phase_pending, phase_initializing, phase_running, phase_error,
  update_node_status, update_status_with_retry, handle_deletion, mark, with_phase, observed,
}

abbrev pub done : Outcome
done = record { requeue = false; requeue_after = pos 0 }

-- ctrl.Result{RequeueAfter: n * time.Minute}, in nanoseconds
abbrev pub after_minutes : ℕ → Outcome
after_minutes n = record { requeue = false; requeue_after = pos (n * 60000000000) }

-- The switch on the phase behind updateStatus.
unfoldable pub requeue_interval : String → Outcome
requeue_interval phase =
    if str_eq phase phase_error
    then after_minutes 2
    else if str_eq phase phase_pending
    then after_minutes 1
    else if str_eq phase phase_initializing
    then after_minutes 1
    else if str_eq phase phase_running
    then after_minutes 5
    else after_minutes 1

module _ {W EthClient Q : Type 0} (cluster : Cluster W EthClient Q) where
  unfoldable pub fetch_optimism_network : OpNode Q → Eff W (Result (OptimismNetwork Q))
  fetch_optimism_network op_node =
      let ref = op_node.spec.optimism_network_ref in
      cluster.networks.get (record {
        name = ref.name;
        namespace = if is_empty ref.namespace then op_node.meta.namespace else ref.namespace;
      })

  -- The status update, whose error is only logged, and the result.
  unfoldable pub publish : OpNode Q → Outcome → Eff W (Result Outcome)
  unfolding update_status_with_retry
  publish op_node outcome = do
    _ ← update_status_with_retry cluster (observed op_node)
    pure (ok outcome)

  -- From the label updateStatus on.
  abbrev pub finish : OpNode Q → Eff W (Result Outcome)
  finish op_node = publish op_node (requeue_interval op_node.status.phase)

  -- A step that failed.
  unfoldable pub fail : OpNode Q → String → String → String → Outcome → Eff W (Result Outcome)
  unfolding mark publish
  fail op_node type reason message outcome = do
    marked ← mark cluster op_node type condition_false reason message
    publish (with_phase phase_error marked) outcome

  module _ (network : OptimismNetwork Q) where
    -- Behind reconcileService, by its error.
    unfoldable pub after_service : OpNode Q → Result (Unit {0}) → Eff W (Result Outcome)
    unfolding mark update_node_status fail publish requeue_interval
    after_service op_node (err e) =
        fail op_node "ServiceReady" "ServiceReconciliationFailed"
          ("Failed to reconcile Service: " <> e.text) (requeue_interval phase_error)
    after_service op_node (ok _) = do
      ready ←
          mark cluster op_node "ServiceReady" condition_true "ServiceReconciled" "Service is ready"
      finish (with_phase phase_running (update_node_status ready))

    unfoldable pub from_service : OpNode Q → Eff W (Result Outcome)
    unfolding reconcile_service after_service
    from_service op_node = do
      result ← reconcile_service cluster op_node network
      after_service op_node result

    -- Behind reconcileStatefulSet, by its error.
    unfoldable pub after_stateful_set : OpNode Q → Result (Unit {0}) → Eff W (Result Outcome)
    unfolding mark fail from_service requeue_interval
    after_stateful_set op_node (err e) =
        fail op_node "StatefulSetReady" "StatefulSetReconciliationFailed"
          ("Failed to reconcile StatefulSet: " <> e.text) (requeue_interval phase_error)
    after_stateful_set op_node (ok _) = do
      ready ←
          mark cluster op_node "StatefulSetReady" condition_true "StatefulSetReconciled"
            "StatefulSet is ready"
      from_service ready

    unfoldable pub from_stateful_set : OpNode Q → Eff W (Result Outcome)
    unfolding reconcile_stateful_set after_stateful_set
    from_stateful_set op_node = do
      result ← reconcile_stateful_set cluster op_node network
      after_stateful_set op_node result

    -- Behind reconcileSecrets, by its error.
    unfoldable pub after_secrets : OpNode Q → Result (Unit {0}) → Eff W (Result Outcome)
    unfolding mark fail from_stateful_set requeue_interval
    after_secrets op_node (err e) =
        fail op_node "SecretsReady" "SecretReconciliationFailed"
          ("Failed to reconcile secrets: " <> e.text) (requeue_interval phase_error)
    after_secrets op_node (ok _) = do
      ready ←
          mark cluster op_node "SecretsReady" condition_true "SecretsReconciled"
            "All required secrets are ready"
      from_stateful_set ready

    unfoldable pub from_secrets : OpNode Q → Eff W (Result Outcome)
    unfolding reconcile_secrets after_secrets
    from_secrets op_node = do
      result ← reconcile_secrets cluster op_node
      after_secrets op_node result

    -- Behind the test whether the network is ready.
    unfoldable pub if_ready : Bool → OpNode Q → Eff W (Result Outcome)
    unfolding mark publish from_secrets
    if_ready false op_node = do
      waiting ←
          mark cluster op_node "NetworkReady" condition_false "NetworkNotReady"
            "OptimismNetwork is not ready"
      publish (with_phase phase_pending waiting) (after_minutes 1)
    if_ready true op_node = do
      ready ←
          mark cluster op_node "NetworkReady" condition_true "NetworkReady"
            "OptimismNetwork is ready"
      from_secrets (with_phase phase_initializing ready)

  -- Behind the fetch of the network, by its outcome.
  unfoldable pub after_fetch : OpNode Q → Result (OptimismNetwork Q) → Eff W (Result Outcome)
  unfolding mark fail if_ready
  after_fetch op_node (err e) =
      fail op_node "NetworkReference" "NetworkNotFound"
        ("Failed to fetch OptimismNetwork: " <> e.text) (after_minutes 2)
  after_fetch op_node (ok network) = do
    found ←
        mark cluster op_node "NetworkReference" condition_true "NetworkFound"
          "OptimismNetwork reference resolved successfully"
    if_ready network (str_eq network.status.phase "Ready") found

  -- Behind the validation, by its error.
  unfoldable pub after_validation : OpNode Q → Result (Unit {0}) → Eff W (Result Outcome)
  unfolding fetch_optimism_network mark fail after_fetch
  after_validation op_node (err e) =
      fail op_node "ConfigurationValid" "InvalidConfiguration" e.text (after_minutes 5)
  after_validation op_node (ok _) = do
    valid ←
        mark cluster op_node "ConfigurationValid" condition_true "ValidConfiguration"
          "OpNode configuration is valid"
    fetched ← fetch_optimism_network valid
    after_fetch valid fetched

  unfoldable pub reconcile_live : OpNode Q → Eff W (Result Outcome)
  unfolding validate_configuration after_validation
  reconcile_live op_node = after_validation op_node (validate_configuration cluster.is_zero op_node)

  -- Behind the fetch of the object.
  unfoldable pub reconcile_found : OpNode Q → Eff W (Result Outcome)
  unfolding handle_deletion reconcile_live
  reconcile_found op_node =
      if is_some op_node.meta.deletion_timestamp
      then handle_deletion cluster op_node
      else if not (cluster.contains_finalizer op_node.meta op_node_finalizer)
      then (do
        updated ←
            cluster.op_nodes.update
              (record op_node { meta = cluster.add_finalizer op_node.meta op_node_finalizer })
        or_return updated λ _. pure (ok (record { requeue = true; requeue_after = pos 0 })))
      else reconcile_live op_node

  -- Behind Get, by its outcome.
  unfoldable pub after_get : Result (OpNode Q) → Eff W (Result Outcome)
  unfolding reconcile_found
  after_get (ok op_node) = reconcile_found op_node
  after_get (err e) = if is_not_found e then pure (ok done) else pure (err e)

  unfoldable pub reconcile : NamespacedName → Eff W (Result Outcome)
  unfolding after_get
  reconcile request = do fetched ← cluster.op_nodes.get request; after_get fetched
