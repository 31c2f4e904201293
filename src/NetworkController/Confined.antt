-- ===== src/NetworkController/Confined.antt =====
-- Reconcile of internal/controller/optimismnetwork_controller.go, step by step, does nothing but the
-- calls of its footprint.
use op_stack_operator.Prelude.{
  All, [], ◌∷◌, ◌≡◌, refl, inl, inr, ◌<>◌, Option, is_some, not, on_some,
}
use op_stack_operator.Api.Meta.{NamespacedName, ObjectMeta, condition_true}
use op_stack_operator.Api.Network.{OptimismNetwork, NetworkContractAddresses}
use op_stack_operator.Discovery.{ContractDiscoveryService}
use op_stack_operator.Discovery.Keeps.{discover_contracts-Keeps}
use op_stack_operator.Runtime.{Result, ok, err, is_not_found, pure}
use op_stack_operator.Cluster.{Cluster, Keeps}
use op_stack_operator.Cluster.Keeps.{Keeps-or_return, Keeps-if}
use op_stack_operator.NetworkController.Spec.{validate_configuration}
use op_stack_operator.NetworkController.L1.{test_l1_connectivity}
use op_stack_operator.NetworkController.ConfigMaps.{reconcile_config_maps}
use op_stack_operator.NetworkController.Reconcile.{
  optimism_network_finalizer, after_minutes, fresh_service, with_contracts, handle_deletion, mark,
  discover_contract_addresses, after_config_maps, after_discovery, after_l1, after_validation,
  reconcile_live, reconcile_found, after_get, reconcile,
}
use op_stack_operator.NetworkController.Calls.{
  publish_error-Keeps, fail-Keeps, publish_ready-Keeps, test_l1_connectivity-Keeps,
  reconcile_config_maps-Keeps,
}
use op_stack_operator.NetworkController.Footprint.{NetworkFootprint, FinalizerChange}
use op_stack_operator.NetworkController.Coherent.{IsComplete, IsTrue, through_l1, All-mark}

module _ {W EthClient Q : Type 0} (cluster : Cluster W EthClient Q) (I : W → Type 0)
    (Network : ObjectMeta → Type 0) (calls : NetworkFootprint cluster I Network) where
  after_config_maps-Keeps :
      (n : OptimismNetwork Q) (r : Result (Unit {0}))
      → IsComplete n.status
      → Keeps I (after_config_maps cluster n r)
  unfolding after_config_maps
  after_config_maps-Keeps n (err e) complete w h =
      publish_error-Keeps cluster I Network calls n (after_minutes 2) w h
  after_config_maps-Keeps n (ok _) complete w h =
      publish_ready-Keeps cluster I Network calls n complete w h

  after_discovery-Keeps :
      (n : OptimismNetwork Q) (r : Result NetworkContractAddresses)
      → Network n.meta
      → All (IsTrue cluster n) through_l1
      → Keeps I (after_discovery cluster n r)
  unfolding after_discovery mark
  after_discovery-Keeps n (err e) known marks w h =
      fail-Keeps cluster I Network calls n _ _ _ (after_minutes 5) w h
  after_discovery-Keeps n (ok a) known marks w h =
      let (discovered, v) =
        mark cluster n "ContractsDiscovered" condition_true "AddressesResolved"
          ("Contract addresses discovered via " <> a.discovery_method) w in
      let (time, u) = cluster.now v in
      let informed = with_contracts a time discovered in
      let (result, x) = reconcile_config_maps cluster informed a u in
      after_config_maps-Keeps informed result
        (All-mark cluster n through_l1 "ContractsDiscovered" _ _ w marks, (a, refl)) x
        (reconcile_config_maps-Keeps cluster I Network calls informed known a u
          (calls.clock v (calls.clock w h)))

  discover_contract_addresses-Keeps :
      (n : OptimismNetwork Q) (service : Option ContractDiscoveryService)
      → Keeps I (discover_contract_addresses cluster n service)
  unfolding discover_contract_addresses
  discover_contract_addresses-Keeps n service =
      discover_contracts-Keeps I cluster.now cluster.dial cluster.close n calls.clock calls.dials
        calls.closes (on_some service fresh_service (λ s. s))

  after_l1-Keeps :
      (n : OptimismNetwork Q) (service : Option ContractDiscoveryService) (r : Result (Unit {0}))
      → Network n.meta
      → All (IsTrue cluster n) ("ConfigurationValid" ∷ [])
      → Keeps I (after_l1 cluster n service r)
  unfolding after_l1 mark
  after_l1-Keeps n service (err e) known marks w h =
      fail-Keeps cluster I Network calls n _ _ _ (after_minutes 2) w h
  after_l1-Keeps n service (ok _) known marks w h =
      let (connected, v) =
        mark cluster n "L1Connected" condition_true "L1ConnectionSuccess"
          "Successfully connected to L1 RPC endpoint" w in
      let ((addresses, _), u) = discover_contract_addresses cluster connected service v in
      after_discovery-Keeps connected addresses known
        (All-mark cluster n ("ConfigurationValid" ∷ []) "L1Connected" _ _ w marks) u
        (discover_contract_addresses-Keeps connected service v (calls.clock w h))

  after_validation-Keeps :
      (n : OptimismNetwork Q) (service : Option ContractDiscoveryService) (r : Result (Unit {0}))
      → Network n.meta
      → Keeps I (after_validation cluster n service r)
  unfolding after_validation mark
  after_validation-Keeps n service (err e) known w h =
      fail-Keeps cluster I Network calls n _ _ _ (after_minutes 5) w h
  after_validation-Keeps n service (ok _) known w h =
      let (valid, v) =
        mark cluster n "ConfigurationValid" condition_true "ValidConfiguration"
          "Network configuration is valid" w in
      let (tested, u) = test_l1_connectivity cluster valid v in
      after_l1-Keeps valid service tested known
        (All-mark cluster n [] "ConfigurationValid" _ _ w tt) u
        (test_l1_connectivity-Keeps cluster I Network calls valid v (calls.clock w h))

  after_get-Keeps :
      (service : Option ContractDiscoveryService) (key : NamespacedName) (w : W)
      (run : Result (OptimismNetwork Q) × W)
      → cluster.networks.get key w ≡ run
      → I w
      → I run.1
      → I (after_get cluster service run.0 run.1).1
  unfolding after_get reconcile_found handle_deletion reconcile_live
  after_get-Keeps service key w (ok n, v) e h k =
      let known = calls.network_read key w v n e h in
      let finalize : (n' : OptimismNetwork Q)
          → FinalizerChange cluster n n'
          → I (cluster.networks.update n' v).1 =
        λ n' c. calls.finalizers key w v n n' e c k in
      Keeps-if I (is_some n.meta.deletion_timestamp) _ _ v
        (Keeps-or_return I _ _ _ (finalize _ (refl, refl, inr refl)) (λ _ u j. j))
        (Keeps-if I (not (cluster.contains_finalizer n.meta optimism_network_finalizer)) _ _ v
          (Keeps-or_return I _ _ _ (finalize _ (refl, refl, inl refl)) (λ _ u j. j))
          (after_validation-Keeps n service (validate_configuration n) known v k))
  after_get-Keeps service key w (err e, v) _ h k =
      Keeps-if I (is_not_found e) (pure (ok (after_minutes 0), service)) (pure (err e, service)) v k
        k

  -- A run for a network does nothing but look up networks and its own ConfigMaps, read the clock,
  -- dial, ask and close L1 clients, write back the network that it read with the finalizer added or
  -- removed, or with another status, which is Ready only with every condition True and contract addresses found, and create its two ConfigMaps or replace their contents: a
  -- property of the world that survives these calls, and retries of what it survives, survives the
  -- run.
  pub network_reconcile-Keeps :
      (request : NamespacedName) (service : Option ContractDiscoveryService)
      → Keeps I (reconcile cluster request service)
  unfolding reconcile
  network_reconcile-Keeps request service w h =
      after_get-Keeps service request w (cluster.networks.get request w) refl h
        (calls.look_up request w h)
