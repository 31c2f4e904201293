-- ===== src/NodeController/Confined.antt =====
-- Reconcile of internal/controller/opnode_controller.go, step by step, does nothing but the calls of
-- its footprint.
use op_stack_operator.Prelude.{
  All, [], ◌∷◌, ◌≡◌, refl, inl, inr, Bool, true, false, is_some, str_eq, not,
}
use op_stack_operator.Api.Meta.{NamespacedName, ObjectMeta, condition_true}
use op_stack_operator.Api.Network.{OptimismNetwork}
use op_stack_operator.Api.Node.{OpNode}
use op_stack_operator.Runtime.{Result, ok, err, is_not_found, pure}
use op_stack_operator.Cluster.{Cluster, Keeps}
use op_stack_operator.Cluster.Keeps.{Keeps-or_return, Keeps-if}
use op_stack_operator.NodeController.Spec.{validate_configuration}
use op_stack_operator.NodeController.Secrets.{reconcile_secrets}
use op_stack_operator.NodeController.Objects.{reconcile_stateful_set, reconcile_service}
use op_stack_operator.NodeController.Status.{
  op_node_finalizer, phase_error, phase_initializing, phase_running, update_node_status, mark,
  with_phase, handle_deletion,
}
use op_stack_operator.NodeController.Reconcile.{
  done, after_minutes, requeue_interval, after_service, from_service, after_stateful_set,
  from_stateful_set, after_secrets, from_secrets, if_ready, after_fetch, fetch_optimism_network,
  after_validation, reconcile_live, reconcile_found, after_get, reconcile,
}
use op_stack_operator.NodeController.Coherent.{
  IsTrue, through_network_ready, through_secrets, through_stateful_set, All-mark,
}
use op_stack_operator.NodeController.Guards.{publish-Keeps, fail-Keeps, if_not_ready-Keeps}
use op_stack_operator.NodeController.Footprint.{NodeFootprint, FinalizerChange}
use op_stack_operator.NodeController.Calls.{
  reconcile_secrets-Keeps, reconcile_stateful_set-Keeps, reconcile_service-Keeps,
}

module _ {W EthClient Q : Type 0} (cluster : Cluster W EthClient Q) (I : W → Type 0)
    (Node : ObjectMeta → Type 0) (calls : NodeFootprint cluster I Node) where
  module _ (network : OptimismNetwork Q) where
    after_service-Keeps :
        (o : OpNode Q) (r : Result (Unit {0}))
        → All (IsTrue o) through_stateful_set
        → Keeps I (after_service cluster network o r)
    unfolding after_service mark update_node_status
    after_service-Keeps o (err e) marks w h =
        fail-Keeps cluster I calls.status_only o _ _ _ (requeue_interval phase_error) w h
    after_service-Keeps o (ok _) marks w h =
        let (ready, v) =
          mark cluster o "ServiceReady" condition_true "ServiceReconciled" "Service is ready" w in
        publish-Keeps cluster I calls.status_only
          (with_phase phase_running (update_node_status ready)) (requeue_interval phase_running)
          (λ _. All-mark cluster o through_stateful_set "ServiceReady" _ _ w marks) v
          (calls.status_only.0 w h)

    from_service-Keeps :
        (o : OpNode Q)
        → Node o.meta
        → All (IsTrue o) through_stateful_set
        → Keeps I (from_service cluster network o)
    unfolding from_service
    from_service-Keeps o known marks w h =
        let (r, v) = reconcile_service cluster o network w in
        after_service-Keeps o r marks v
          (reconcile_service-Keeps cluster I Node calls o known network w h)

    after_stateful_set-Keeps :
        (o : OpNode Q) (r : Result (Unit {0}))
        → Node o.meta
        → All (IsTrue o) through_secrets
        → Keeps I (after_stateful_set cluster network o r)
    unfolding after_stateful_set mark
    after_stateful_set-Keeps o (err e) known marks w h =
        fail-Keeps cluster I calls.status_only o _ _ _ (requeue_interval phase_error) w h
    after_stateful_set-Keeps o (ok _) known marks w h =
        let (ready, v) =
          mark cluster o "StatefulSetReady" condition_true "StatefulSetReconciled"
            "StatefulSet is ready" w in
        from_service-Keeps ready known
          (All-mark cluster o through_secrets "StatefulSetReady" _ _ w marks) v
          (calls.status_only.0 w h)

    from_stateful_set-Keeps :
        (o : OpNode Q)
        → Node o.meta
        → All (IsTrue o) through_secrets
        → Keeps I (from_stateful_set cluster network o)
    unfolding from_stateful_set
    from_stateful_set-Keeps o known marks w h =
        let (r, v) = reconcile_stateful_set cluster o network w in
        after_stateful_set-Keeps o r known marks v
          (reconcile_stateful_set-Keeps cluster I Node calls o known network w h)

    after_secrets-Keeps :
        (o : OpNode Q) (r : Result (Unit {0}))
        → Node o.meta
        → All (IsTrue o) through_network_ready
        → Keeps I (after_secrets cluster network o r)
    unfolding after_secrets mark
    after_secrets-Keeps o (err e) known marks w h =
        fail-Keeps cluster I calls.status_only o _ _ _ (requeue_interval phase_error) w h
    after_secrets-Keeps o (ok _) known marks w h =
        let (ready, v) =
          mark cluster o "SecretsReady" condition_true "SecretsReconciled"
            "All required secrets are ready" w in
        from_stateful_set-Keeps ready known
          (All-mark cluster o through_network_ready "SecretsReady" _ _ w marks) v
          (calls.status_only.0 w h)

    from_secrets-Keeps :
        (o : OpNode Q)
        → Node o.meta
        → All (IsTrue o) through_network_ready
        → Keeps I (from_secrets cluster network o)
    unfolding from_secrets
    from_secrets-Keeps o known marks w h =
        let (r, v) = reconcile_secrets cluster o w in
        after_secrets-Keeps o r known marks v
          (reconcile_secrets-Keeps cluster I Node calls o known w h)

    if_ready-Keeps :
        (ready : Bool) (o : OpNode Q)
        → Node o.meta
        → All (IsTrue o) ("NetworkReference" ∷ "ConfigurationValid" ∷ [])
        → Keeps I (if_ready cluster network ready o)
    unfolding if_ready mark
    if_ready-Keeps false o known marks w h =
        if_not_ready-Keeps cluster I calls.status_only network o w h
    if_ready-Keeps true o known marks w h =
        let (ready, v) =
          mark cluster o "NetworkReady" condition_true "NetworkReady" "OptimismNetwork is ready"
            w in
        from_secrets-Keeps (with_phase phase_initializing ready) known
          (All-mark cluster o ("NetworkReference" ∷ "ConfigurationValid" ∷ []) "NetworkReady" _ _ w
            marks)
          v (calls.status_only.0 w h)

  after_fetch-Confined :
      (o : OpNode Q) (fetched : Result (OptimismNetwork Q))
      → Node o.meta
      → All (IsTrue o) ("ConfigurationValid" ∷ [])
      → Keeps I (after_fetch cluster o fetched)
  unfolding after_fetch mark
  after_fetch-Confined o (err e) known marks w h =
      fail-Keeps cluster I calls.status_only o _ _ _ (after_minutes 2) w h
  after_fetch-Confined o (ok network) known marks w h =
      let (found, v) =
        mark cluster o "NetworkReference" condition_true "NetworkFound"
          "OptimismNetwork reference resolved successfully" w in
      if_ready-Keeps network (str_eq network.status.phase "Ready") found known
        (All-mark cluster o ("ConfigurationValid" ∷ []) "NetworkReference" _ _ w marks) v
        (calls.status_only.0 w h)

  after_validation-Confined :
      (o : OpNode Q) (result : Result (Unit {0}))
      → Node o.meta
      → Keeps I (after_validation cluster o result)
  unfolding after_validation mark fetch_optimism_network
  after_validation-Confined o (err e) known w h =
      fail-Keeps cluster I calls.status_only o _ _ _ (after_minutes 5) w h
  after_validation-Confined o (ok _) known w h =
      let (valid, v) =
        mark cluster o "ConfigurationValid" condition_true "ValidConfiguration"
          "OpNode configuration is valid" w in
      let (fetched, u) = fetch_optimism_network cluster valid v in
      after_fetch-Confined valid fetched known (All-mark cluster o [] "ConfigurationValid" _ _ w tt)
        u (calls.status_only.1 _ v (calls.status_only.0 w h))

  after_get-Keeps :
      (key : NamespacedName) (w : W) (run : Result (OpNode Q) × W)
      → cluster.op_nodes.get key w ≡ run
      → I w
      → I run.1
      → I (after_get cluster run.0 run.1).1
  unfolding after_get reconcile_found handle_deletion reconcile_live
  after_get-Keeps key w (ok o, v) e h k =
      let known = calls.node_read key w v o e h in
      let finalize : (o' : OpNode Q)
          → FinalizerChange cluster I o o'
          → I (cluster.op_nodes.update o' v).1 =
        λ o' c. calls.finalizers key w v o o' e c k in
      Keeps-if I (is_some o.meta.deletion_timestamp) _ _ v
        (Keeps-or_return I _ _ _ (finalize _ (refl, refl, inr refl)) (λ _ u j. j))
        (Keeps-if I (not (cluster.contains_finalizer o.meta op_node_finalizer)) _ _ v
          (Keeps-or_return I _ _ _ (finalize _ (refl, refl, inl refl)) (λ _ u j. j))
          (after_validation-Confined o (validate_configuration cluster.is_zero o) known v k))
  after_get-Keeps key w (err e, v) _ h k =
      Keeps-if I (is_not_found e) (pure (ok done)) (pure (err e)) v k k

  -- A run for an OpNode does nothing but look up OpNodes, networks and its own objects, read the
  -- clock and random bytes, write back the OpNode that it read with the finalizer added or removed,
  -- or with another status, Running only with every condition True, create its two secrets, and
  -- create or update the StatefulSet and the Service of its own name: a property of the world that
  -- survives these calls, and retries of what it survives, survives the run.
  pub reconcile-Keeps : (request : NamespacedName) → Keeps I (reconcile cluster request)
  unfolding reconcile
  reconcile-Keeps request w h =
      after_get-Keeps request w (cluster.op_nodes.get request w) refl h
        (calls.status_only.2 request w h)
