-- ===== src/NetworkController/Reconcile.antt =====
-- Reconcile of internal/controller/optimismnetwork_controller.go with handleDeletion,
-- updateStatusWithRetry and discoverContractAddresses, cut into its steps. The reconciler's
-- DiscoveryService, `none` for nil, is passed in and returned.
use op_stack_operator.Prelude.{
  ℕ, ◌*◌, String, ◌<>◌, true, false, not, Option, none, some, if◌then◌else◌, is_some, on_some,
}
use op_stack_operator.Prelude.Int.{ℤ, pos}
use op_stack_operator.Api.Meta.{NamespacedName, ConditionStatus, condition_true, condition_false}
use op_stack_operator.Api.Network.{OptimismNetwork, NetworkContractAddresses, NetworkInfo}
use op_stack_operator.Conditions.{set_condition}
use op_stack_operator.Discovery.{
  ContractDiscoveryService, new_contract_discovery_service, discover_contracts,
}
use op_stack_operator.Runtime.{Result, ok, err, is_not_found, Eff, pure, ◌>>=◌, or_return}
use op_stack_operator.Cluster.{Cluster, Outcome}
use op_stack_operator.NetworkController.Spec.{validate_configuration}
use op_stack_operator.NetworkController.L1.{test_l1_connectivity}
use op_stack_operator.NetworkController.ConfigMaps.{reconcile_config_maps}

abbrev pub optimism_network_finalizer : String
optimism_network_finalizer = "optimismnetwork.optimism.io/finalizer"

-- ctrl.Result{RequeueAfter: n * time.Minute}, in nanoseconds
abbrev pub after_minutes : ℕ → Outcome
after_minutes n = record { requeue = false; requeue_after = pos (n * 60000000000) }

-- NewContractDiscoveryService(24 * time.Hour)
abbrev pub fresh_service : ContractDiscoveryService
fresh_service = new_contract_discovery_service (pos 86400000000000)

abbrev pub no_network_info : NetworkInfo
no_network_info = record {
  deployment_timestamp = pos 0;
  last_updated = pos 0;
  discovered_contracts = none;
}

module _ {Q : Type 0} where
  abbrev pub with_phase : String → OptimismNetwork Q → OptimismNetwork Q
  with_phase phase network = record network { status = record network.status { phase = phase } }

  -- network.Status.ObservedGeneration = network.Generation
  abbrev pub observed : OptimismNetwork Q → OptimismNetwork Q
  observed network = record network {
    status = record network.status { observed_generation = network.meta.generation };
  }

  -- Status.NetworkInfo with the addresses and the time of their discovery
  abbrev pub with_contracts : NetworkContractAddresses → ℤ → OptimismNetwork Q → OptimismNetwork Q
  with_contracts addresses time network =
      let info = on_some network.status.network_info no_network_info (λ i. i) in
      record network {
        status = record network.status {
          network_info =
              some (record info { discovered_contracts = some addresses; last_updated = time });
        };
      }

module _ {W EthClient Q : Type 0} (cluster : Cluster W EthClient Q) where
  unfoldable pub handle_deletion : OptimismNetwork Q → Eff W (Result Outcome)
  handle_deletion network = do
    updated ←
        cluster.networks.update (record network {
          meta = cluster.remove_finalizer network.meta optimism_network_finalizer;
        })
    or_return updated λ _. pure (ok (after_minutes 0))

  -- One attempt of updateStatusWithRetry: the four fields are all that the status has.
  unfoldable pub write_status : OptimismNetwork Q → Eff W (Result (Unit {0}))
  write_status network = do
    found ←
        cluster.networks.get
          (record { name = network.meta.name; namespace = network.meta.namespace })
    or_return found λ latest. cluster.networks.update_status (record latest {
      status = record latest.status {
        phase = network.status.phase;
        observed_generation = network.status.observed_generation;
        conditions = network.status.conditions;
        network_info = network.status.network_info;
      };
    })

  unfoldable pub update_status_with_retry : OptimismNetwork Q → Eff W (Result (Unit {0}))
  unfolding write_status
  update_status_with_retry network = cluster.retry_on_conflict (write_status network)

  -- utils.SetCondition(&network.Status.Conditions, …)
  unfoldable pub mark :
      OptimismNetwork Q → String → ConditionStatus → String → String → Eff W (OptimismNetwork Q)
  mark network type status reason message = do
    time ← cluster.now
    pure (record network {
      status = record network.status {
        conditions = set_condition time network.status.conditions type status reason message;
      };
    })

  unfoldable pub discover_contract_addresses :
      OptimismNetwork Q
      → Option ContractDiscoveryService
      → Eff W (Result NetworkContractAddresses × ContractDiscoveryService)
  unfolding discover_contracts new_contract_discovery_service
  discover_contract_addresses network service =
      discover_contracts cluster.now cluster.dial cluster.close network
        (on_some service fresh_service (λ s. s))

  -- A status with the phase Error, whose update's error is only logged, and the result.
  unfoldable pub publish_error : OptimismNetwork Q → Outcome → Eff W (Result Outcome)
  unfolding update_status_with_retry
  publish_error network outcome = do
    _ ← update_status_with_retry (with_phase "Error" network)
    pure (ok outcome)

  -- A step that failed.
  unfoldable pub fail :
      OptimismNetwork Q → String → String → String → Outcome → Eff W (Result Outcome)
  unfolding mark publish_error
  fail network type reason message outcome = do
    marked ← mark network type condition_false reason message
    publish_error marked outcome

  -- The final status, whose update's error is returned.
  unfoldable pub publish_ready : OptimismNetwork Q → Eff W (Result Outcome)
  unfolding update_status_with_retry
  publish_ready network = do
    updated ← update_status_with_retry (observed (with_phase "Ready" network))
    or_return updated λ _. pure (ok (after_minutes 60))

  -- Behind reconcileConfigMaps, by its error.
  unfoldable pub after_config_maps : OptimismNetwork Q → Result (Unit {0}) → Eff W (Result Outcome)
  unfolding publish_error publish_ready
  after_config_maps network (err e) = publish_error network (after_minutes 2)
  after_config_maps network (ok _) = publish_ready network

  -- Behind discoverContractAddresses, by its outcome.
  unfoldable pub after_discovery :
      OptimismNetwork Q → Result NetworkContractAddresses → Eff W (Result Outcome)
  unfolding mark fail reconcile_config_maps after_config_maps
  after_discovery network (err e) =
      fail network "ContractsDiscovered" "DiscoveryFailed"
        ("Failed to discover contracts: " <> e.text) (after_minutes 5)
  after_discovery network (ok addresses) = do
    discovered ←
        mark network "ContractsDiscovered" condition_true "AddressesResolved"
          ("Contract addresses discovered via " <> addresses.discovery_method)
    time ← cluster.now
    let informed = with_contracts addresses time discovered
    reconciled ← reconcile_config_maps cluster informed addresses
    after_config_maps informed reconciled

  -- The result of a step that leaves the service as it is.
  abbrev pub leaving :
      Option ContractDiscoveryService
      → Eff W (Result Outcome)
      → Eff W (Result Outcome × Option ContractDiscoveryService)
  leaving service step = do result ← step; pure (result, service)

  -- Behind testL1Connectivity, by its error.
  unfoldable pub after_l1 :
      OptimismNetwork Q
      → Option ContractDiscoveryService
      → Result (Unit {0})
      → Eff W (Result Outcome × Option ContractDiscoveryService)
  unfolding mark fail discover_contract_addresses after_discovery
  after_l1 network service (err e) = leaving service (
      fail network "L1Connected" "L1ConnectionFailed" ("Failed to connect to L1: " <> e.text)
        (after_minutes 2))
  after_l1 network service (ok _) = do
    connected ←
        mark network "L1Connected" condition_true "L1ConnectionSuccess"
          "Successfully connected to L1 RPC endpoint"
    (addresses, service') ← discover_contract_addresses connected service
    leaving (some service') (after_discovery connected addresses)

  -- Behind the validation, by its error.
  unfoldable pub after_validation :
      OptimismNetwork Q
      → Option ContractDiscoveryService
      → Result (Unit {0})
      → Eff W (Result Outcome × Option ContractDiscoveryService)
  unfolding mark fail test_l1_connectivity after_l1
  after_validation network service (err e) =
      leaving service
        (fail network "ConfigurationValid" "InvalidConfiguration" e.text (after_minutes 5))
  after_validation network service (ok _) = do
    valid ←
        mark network "ConfigurationValid" condition_true "ValidConfiguration"
          "Network configuration is valid"
    tested ← test_l1_connectivity cluster valid
    after_l1 valid service tested

  unfoldable pub reconcile_live :
      OptimismNetwork Q
      → Option ContractDiscoveryService
      → Eff W (Result Outcome × Option ContractDiscoveryService)
  unfolding validate_configuration after_validation
  reconcile_live network service = after_validation network service (validate_configuration network)

  -- Behind the fetch of the object.
  unfoldable pub reconcile_found :
      OptimismNetwork Q
      → Option ContractDiscoveryService
      → Eff W (Result Outcome × Option ContractDiscoveryService)
  unfolding handle_deletion reconcile_live
  reconcile_found network service =
      if is_some network.meta.deletion_timestamp
      then leaving service (handle_deletion network)
      else if not (cluster.contains_finalizer network.meta optimism_network_finalizer)
      then leaving service (do
        updated ← cluster.networks.update (record network {
          meta = cluster.add_finalizer network.meta optimism_network_finalizer;
        })
        or_return updated λ _. pure (ok (record { requeue = true; requeue_after = pos 0 })))
      else reconcile_live network service

  -- Behind Get, by its outcome.
  unfoldable pub after_get :
      Option ContractDiscoveryService
      → Result (OptimismNetwork Q)
      → Eff W (Result Outcome × Option ContractDiscoveryService)
  unfolding reconcile_found
  after_get service (ok network) = reconcile_found network service
  after_get service (err e) =
      if is_not_found e then pure (ok (after_minutes 0), service) else pure (err e, service)

  unfoldable pub reconcile :
      NamespacedName
      → Option ContractDiscoveryService
      → Eff W (Result Outcome × Option ContractDiscoveryService)
  unfolding after_get
  reconcile request service = do fetched ← cluster.networks.get request; after_get service fetched
