-- ===== src/NodeController/Published.antt =====
-- What status Reconcile of internal/controller/opnode_controller.go writes: the phase, the
-- conditions and the requeue interval always fit together.
use op_stack_operator.Prelude.{String, ◌≡◌, refl, inl, inr, Bool, true, false, [], ◌∷◌, All, str_eq}
use op_stack_operator.Api.Meta.{condition_true, condition_false}
use op_stack_operator.Api.Network.{OptimismNetwork}
use op_stack_operator.Api.Node.{OpNode}
use op_stack_operator.Runtime.{Result, ok, err}
use op_stack_operator.Cluster.{Cluster, Outcome}
use op_stack_operator.NodeController.Spec.{validate_configuration}
use op_stack_operator.NodeController.Secrets.{reconcile_secrets}
use op_stack_operator.NodeController.Objects.{reconcile_stateful_set, reconcile_service}
use op_stack_operator.NodeController.Status.{
  phase_pending, phase_initializing, phase_running, phase_error, update_node_status, mark,
  with_phase,
}
use op_stack_operator.NodeController.Reconcile.{
  after_minutes, fetch_optimism_network, fail, after_service, from_service, from_stateful_set,
  after_stateful_set, after_secrets, from_secrets, if_ready, after_fetch, after_validation,
  reconcile_live,
}
use op_stack_operator.NodeController.Coherent.{
  through_network_ready, through_secrets, through_stateful_set, IsTrue, IsFalse, Coherent,
  Publishes, All-mark, IsFalse-mark,
}

module _ {W EthClient Q : Type 0} (cluster : Cluster W EthClient Q) where
  module _ (base : OpNode Q) where
    -- An object with the metadata and the specification of `base`.
    abbrev OfBase : OpNode Q → Type 0
    OfBase o = (o.meta ≡ base.meta) × (o.spec ≡ base.spec)

    fail-Publishes :
        (o : OpNode Q) (type reason message : String) (outcome : Outcome) (w : W)
        → OfBase o
        → ((p : OpNode Q) → p.status.phase ≡ phase_error → IsFalse p type → Coherent p outcome)
        → Publishes cluster base (fail cluster o type reason message outcome w)
    unfolding fail mark
    fail-Publishes o type reason message outcome w b coherent =
        let (marked, v) = mark cluster o type condition_false reason message w in
        (
          with_phase phase_error marked,
          outcome,
          v,
          refl,
          b.0,
          b.1,
          coherent (with_phase phase_error marked) refl
              (IsFalse-mark cluster o type reason message w),
        )

    module _ (network : OptimismNetwork Q) where
      after_service-Publishes :
          (o : OpNode Q) (result : Result (Unit {0})) (w : W)
          → OfBase o
          → All (IsTrue o) through_stateful_set
          → Publishes cluster base (after_service cluster network o result w)
      unfolding after_service mark
      after_service-Publishes o (err e) w b h =
          fail-Publishes o _ _ _ _ w b (λ p q f. inr (inr (inr (q, inr (inr (inr f)), refl))))
      after_service-Publishes o (ok _) w b h =
          let (ready, u) =
            mark cluster o "ServiceReady" condition_true "ServiceReconciled" "Service is ready" w in
          (
            with_phase phase_running (update_node_status ready),
            after_minutes 5,
            u,
            refl,
            b.0,
            b.1,
            inl (refl, All-mark cluster o through_stateful_set "ServiceReady" _ _ w h, refl),
          )

      from_service-Publishes :
          (o : OpNode Q) (w : W)
          → OfBase o
          → All (IsTrue o) through_stateful_set
          → Publishes cluster base (from_service cluster network o w)
      unfolding from_service
      from_service-Publishes o w b h =
          let (result, v) = reconcile_service cluster o network w in
          after_service-Publishes o result v b h

      after_stateful_set-Publishes :
          (o : OpNode Q) (result : Result (Unit {0})) (w : W)
          → OfBase o
          → All (IsTrue o) through_secrets
          → Publishes cluster base (after_stateful_set cluster network o result w)
      unfolding after_stateful_set mark from_service
      after_stateful_set-Publishes o (err e) w b h =
          fail-Publishes o _ _ _ _ w b (λ p q f. inr (inr (inr (q, inr (inr (inl f)), refl))))
      after_stateful_set-Publishes o (ok _) w b h =
          let (ready, u) =
            mark cluster o "StatefulSetReady" condition_true "StatefulSetReconciled"
              "StatefulSet is ready" w in
          from_service-Publishes ready u b
            (All-mark cluster o through_secrets "StatefulSetReady" _ _ w h)

      from_stateful_set-Publishes :
          (o : OpNode Q) (w : W)
          → OfBase o
          → All (IsTrue o) through_secrets
          → Publishes cluster base (from_stateful_set cluster network o w)
      unfolding from_stateful_set
      from_stateful_set-Publishes o w b h =
          let (result, v) = reconcile_stateful_set cluster o network w in
          after_stateful_set-Publishes o result v b h

      after_secrets-Publishes :
          (o : OpNode Q) (result : Result (Unit {0})) (w : W)
          → OfBase o
          → All (IsTrue o) through_network_ready
          → Publishes cluster base (after_secrets cluster network o result w)
      unfolding after_secrets mark from_stateful_set
      after_secrets-Publishes o (err e) w b h =
          fail-Publishes o _ _ _ _ w b (λ p q f. inr (inr (inr (q, inr (inl f), refl))))
      after_secrets-Publishes o (ok _) w b h =
          let (ready, u) =
            mark cluster o "SecretsReady" condition_true "SecretsReconciled"
              "All required secrets are ready" w in
          from_stateful_set-Publishes ready u b
            (All-mark cluster o through_network_ready "SecretsReady" _ _ w h)

      from_secrets-Publishes :
          (o : OpNode Q) (w : W)
          → OfBase o
          → All (IsTrue o) through_network_ready
          → Publishes cluster base (from_secrets cluster network o w)
      unfolding from_secrets
      from_secrets-Publishes o w b h =
          let (result, v) = reconcile_secrets cluster o w in after_secrets-Publishes o result v b h

      if_ready-Publishes :
          (o : OpNode Q) (ready : Bool) (w : W)
          → OfBase o
          → All (IsTrue o) ("NetworkReference" ∷ "ConfigurationValid" ∷ [])
          → Publishes cluster base (if_ready cluster network ready o w)
      unfolding if_ready mark from_secrets
      if_ready-Publishes o false w b h =
          let (waiting, u) =
            mark cluster o "NetworkReady" condition_false "NetworkNotReady"
              "OptimismNetwork is not ready" w in
          (
            with_phase phase_pending waiting,
            after_minutes 1,
            u,
            refl,
            b.0,
            b.1,
            inr (inl (refl, IsFalse-mark cluster o "NetworkReady" _ _ w, refl)),
          )
      if_ready-Publishes o true w b h =
          let (ready, u) =
            mark cluster o "NetworkReady" condition_true "NetworkReady" "OptimismNetwork is ready"
              w in
          from_secrets-Publishes (with_phase phase_initializing ready) u b (
            All-mark cluster o ("NetworkReference" ∷ "ConfigurationValid" ∷ []) "NetworkReady" _ _ w
              h)

    after_fetch-Publishes :
        (o : OpNode Q) (fetched : Result (OptimismNetwork Q)) (w : W)
        → OfBase o
        → All (IsTrue o) ("ConfigurationValid" ∷ [])
        → Publishes cluster base (after_fetch cluster o fetched w)
    unfolding after_fetch mark
    after_fetch-Publishes o (err e) w b h =
        fail-Publishes o _ _ _ _ w b (λ p q f. inr (inr (inr (q, inl f, refl))))
    after_fetch-Publishes o (ok network) w b h =
        let (found, u) =
          mark cluster o "NetworkReference" condition_true "NetworkFound"
            "OptimismNetwork reference resolved successfully" w in
        if_ready-Publishes network found (str_eq network.status.phase "Ready") u b
          (All-mark cluster o ("ConfigurationValid" ∷ []) "NetworkReference" _ _ w h)

    after_validation-Publishes :
        (o : OpNode Q) (result : Result (Unit {0})) (w : W)
        → OfBase o
        → Publishes cluster base (after_validation cluster o result w)
    unfolding after_validation mark
    after_validation-Publishes o (err e) w b =
        fail-Publishes o _ _ _ _ w b (λ p q f. inr (inr (inl (q, f, refl))))
    after_validation-Publishes o (ok _) w b =
        let (valid, u) =
          mark cluster o "ConfigurationValid" condition_true "ValidConfiguration"
            "OpNode configuration is valid" w in
        let (fetched, v) = fetch_optimism_network cluster valid u in
        after_fetch-Publishes valid fetched v b
          (All-mark cluster o [] "ConfigurationValid" _ _ w tt)

  -- From the validation on, a run always ends with updateStatusWithRetry, whose error is dropped,
  -- of an object with the metadata and the specification that were read and with its generation as
  -- the observed one: Running with all six conditions True, to be looked at again in five minutes;
  -- Pending with the network not ready, in one; Error with an invalid specification, in five, or
  -- with the condition of a failed step False, in two. The result is that interval, never an
  -- error.
  pub reconcile_live-Publishes :
      (op_node : OpNode Q) (w : W) → Publishes cluster op_node (reconcile_live cluster op_node w)
  unfolding reconcile_live
  reconcile_live-Publishes op_node w =
      after_validation-Publishes op_node op_node (validate_configuration cluster.is_zero op_node) w
        (refl, refl)
