-- ===== src/NetworkController/Calls.antt =====
-- The L1 test, the status updates and the ConfigMaps of
-- internal/controller/optimismnetwork_controller.go do nothing but the calls of the footprint.
use op_stack_operator.Prelude.{◌≡◌, refl, String, ◌<>◌}
use op_stack_operator.Api.Meta.{NamespacedName, ObjectMeta, condition_false}
use op_stack_operator.Api.Network.{OptimismNetwork, NetworkContractAddresses}
use op_stack_operator.Runtime.{Result, ok, err, is_not_found, pure, Eff, or_return, or_wrap}
use op_stack_operator.Resources.Objects.{ConfigMap}
use op_stack_operator.Cluster.{Cluster, Keeps, Outcome}
use op_stack_operator.Cluster.Keeps.{Keeps-or_return, Keeps-or_wrap, Keeps-or_return_of, Keeps-if}
use op_stack_operator.NetworkController.L1.{test_l1_connectivity, l1_timeout, half}
use op_stack_operator.NetworkController.ConfigMaps.{
  auto_discovers, write_config_map, create_or_update_config_map, rollup_config_map,
  genesis_config_map, write_owned, reconcile_rollup_config, reconcile_genesis,
  reconcile_config_maps,
}
use op_stack_operator.NetworkController.Reconcile.{
  with_phase, observed, write_status, update_status_with_retry, mark, publish_error, fail,
  publish_ready,
}
use op_stack_operator.NetworkController.Footprint.{NetworkFootprint, ConfigMapWrites}
use op_stack_operator.NetworkController.Coherent.{IsHonest, IsComplete, error-IsHonest}

module _ {W EthClient Q : Type 0} (cluster : Cluster W EthClient Q) (I : W → Type 0)
    (Network : ObjectMeta → Type 0) (calls : NetworkFootprint cluster I Network) where
  write_status-Keeps :
      (n : OptimismNetwork Q) → IsHonest n.status → Keeps I (write_status cluster n)
  unfolding write_status
  write_status-Keeps n honest w h =
      let key : NamespacedName = record { name = n.meta.name; namespace = n.meta.namespace } in
      Keeps-or_return_of I (cluster.networks.get key w) _ (calls.look_up key w h)
        (λ latest v e k. calls.statuses key w v latest _ e (refl, refl, honest) k)

  update_status_with_retry-Keeps :
      (n : OptimismNetwork Q) → IsHonest n.status → Keeps I (update_status_with_retry cluster n)
  unfolding update_status_with_retry
  update_status_with_retry-Keeps n honest =
      calls.retries (write_status cluster n) (write_status-Keeps n honest)

  pub publish_error-Keeps :
      (n : OptimismNetwork Q) (outcome : Outcome) → Keeps I (publish_error cluster n outcome)
  unfolding publish_error
  publish_error-Keeps n outcome w h =
      update_status_with_retry-Keeps (with_phase "Error" n)
        (error-IsHonest (with_phase "Error" n).status refl) w h

  pub fail-Keeps :
      (n : OptimismNetwork Q) (type reason message : String) (outcome : Outcome)
      → Keeps I (fail cluster n type reason message outcome)
  unfolding fail mark
  fail-Keeps n type reason message outcome w h =
      let (marked, v) = mark cluster n type condition_false reason message w in
      publish_error-Keeps marked outcome v (calls.clock w h)

  pub publish_ready-Keeps :
      (n : OptimismNetwork Q) → IsComplete n.status → Keeps I (publish_ready cluster n)
  unfolding publish_ready
  publish_ready-Keeps n complete w h =
      let ready = observed (with_phase "Ready" n) in
      let (updated, v) = update_status_with_retry cluster ready w in
      Keeps-or_return I updated _ v (update_status_with_retry-Keeps ready (λ _. complete) w h)
        (λ _ u k. k)

  pub test_l1_connectivity-Keeps :
      (n : OptimismNetwork Q) → Keeps I (test_l1_connectivity cluster n)
  unfolding test_l1_connectivity
  test_l1_connectivity-Keeps n w h =
      let (dialed, v) = cluster.dial_context (l1_timeout cluster n) n.spec.l1_rpc_url w in
      Keeps-or_wrap I _ dialed _ v (calls.dials_context _ _ w h) λ client u k.
        let (answered, x) = cluster.chain_id (half (l1_timeout cluster n)) client u in
        let (_, y) = cluster.close client x in
        Keeps-or_wrap I _ answered _ y (calls.closes client x (calls.asks _ client u k))
          (λ _ z j. j)

  write_config_map-Keeps :
      (c : ConfigMap) (run : Result ConfigMap × W)
      → Keeps I (cluster.config_maps.create c)
      → ((existing : ConfigMap) (v : W)
          → run ≡ (ok existing, v)
          → I v
          → I (cluster.config_maps.update (record existing { contents = c.contents }) v).1)
      → I run.1
      → I (write_config_map cluster c run.0 run.1).1
  unfolding write_config_map
  write_config_map-Keeps c (ok existing, v) create update h = update existing v refl h
  write_config_map-Keeps c (err e, v) create update h =
      Keeps-if I (is_not_found e) (cluster.config_maps.create c) (pure (err e)) v (create v h) h

  module _ (n : OptimismNetwork Q) (known : Network n.meta) where
    owned_config_map-Keeps :
        (suffix error_prefix : String) (c : ConfigMap) (r : Result ObjectMeta)
        → ConfigMapWrites cluster I suffix n.meta
        → c.meta.name ≡ n.meta.name <> suffix
        → c.meta.namespace ≡ n.meta.namespace
        → cluster.set_controller_reference "OptimismNetwork" n.meta c.meta ≡ r
        → (w : W) → I w
        → let step : Eff W (Result (Unit {0})) = or_return r (λ meta w.
          let (written, v) = create_or_update_config_map cluster (record c { meta = meta }) w in
          or_wrap error_prefix written (λ _. pure (ok tt)) v) in
          I (step w).1
    unfolding create_or_update_config_map
    owned_config_map-Keeps suffix error_prefix c (err e) writes a b _ w h = h
    owned_config_map-Keeps suffix error_prefix c (ok meta) writes a b owned w h =
        let new : ConfigMap = record c { meta = meta } in
        let key : NamespacedName = record { name = meta.name; namespace = meta.namespace } in
        let allowed = writes meta (c.meta, a, b, owned) in
        let (written, v) = create_or_update_config_map cluster new w in
        Keeps-or_wrap I error_prefix written (λ _. pure (ok tt)) v
          (write_config_map-Keeps new (cluster.config_maps.get key w) (allowed.1 new refl)
            (λ existing u e k. allowed.2 w u existing _ e refl k) (allowed.0 w h))
          (λ _ u k. k)

    module _ (addresses : NetworkContractAddresses) where
      reconcile_rollup_config-Keeps : Keeps I (reconcile_rollup_config cluster n addresses)
      unfolding reconcile_rollup_config write_owned
      reconcile_rollup_config-Keeps w h =
          Keeps-if I (auto_discovers n.spec.rollup_config) _ (pure (ok tt)) w
            (owned_config_map-Keeps "-rollup-config" "failed to create rollup config map: "
              (rollup_config_map cluster n addresses) _ (calls.rollup_configs n.meta known) refl
              refl refl w h)
            h

      reconcile_genesis-Keeps : Keeps I (reconcile_genesis cluster n addresses)
      unfolding reconcile_genesis write_owned
      reconcile_genesis-Keeps w h =
          Keeps-if I (auto_discovers n.spec.l2_genesis) _ (pure (ok tt)) w
            (owned_config_map-Keeps "-genesis" "failed to create genesis config map: "
              (genesis_config_map cluster n addresses) _ (calls.genesis_configs n.meta known) refl
              refl refl w h)
            h

      pub reconcile_config_maps-Keeps : Keeps I (reconcile_config_maps cluster n addresses)
      unfolding reconcile_config_maps
      reconcile_config_maps-Keeps w h =
          let (rollup, v) = reconcile_rollup_config cluster n addresses w in
          Keeps-or_return I rollup _ v (reconcile_rollup_config-Keeps w h)
            (λ _. reconcile_genesis-Keeps)
