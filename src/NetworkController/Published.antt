-- ===== src/NetworkController/Published.antt =====
-- What status Reconcile of internal/controller/optimismnetwork_controller.go writes.
use op_stack_operator.Prelude.{String, ◌<>◌, ◌≡◌, refl, ◌⊎◌, inl, inr, Option, some, [], ◌∷◌, All}
use op_stack_operator.Api.Meta.{condition_true, condition_false}
use op_stack_operator.Api.Network.{OptimismNetwork, NetworkContractAddresses}
use op_stack_operator.Conditions.Marks.{ShowsFalse-set_condition}
use op_stack_operator.NetworkController.Coherent.{
  through_l1, all_conditions, contracts_in, IsTrue, IsFalse, All-mark,
}
use op_stack_operator.Discovery.{ContractDiscoveryService}
use op_stack_operator.Runtime.{Result, ok, err}
use op_stack_operator.Cluster.{Cluster, Outcome}
use op_stack_operator.NetworkController.Spec.{validate_configuration}
use op_stack_operator.NetworkController.L1.{test_l1_connectivity}
use op_stack_operator.NetworkController.ConfigMaps.{reconcile_config_maps}
use op_stack_operator.NetworkController.Reconcile.{
  after_minutes, with_contracts, mark, discover_contract_addresses, publish_error, publish_ready,
  fail, after_config_maps, after_discovery, after_l1, after_validation, reconcile_live,
}

module _ {W EthClient Q : Type 0} (cluster : Cluster W EthClient Q) where
  -- Status.NetworkInfo.DiscoveredContracts, none for a nil on the way
  abbrev pub contracts : OptimismNetwork Q → Option NetworkContractAddresses
  contracts o = contracts_in o.status

  -- Why a run ends in phase Error, and when the next one is due.
  abbrev pub Failure : OptimismNetwork Q → Outcome → Type 0
  Failure o outcome =
      (IsFalse cluster o "ConfigurationValid" × (outcome ≡ after_minutes 5))
      ⊎ ((IsFalse cluster o "L1Connected" × (outcome ≡ after_minutes 2))
          ⊎ ((IsFalse cluster o "ContractsDiscovered" × (outcome ≡ after_minutes 5))
              ⊎ (All (IsTrue cluster o) all_conditions × (outcome ≡ after_minutes 2))))

  -- The run writes the status Ready with every condition True and the contracts found, or Error.
  abbrev pub Publishes : OptimismNetwork Q → Result Outcome × W → Type 0
  Publishes network run =
      (o : OptimismNetwork Q) × (v : W) × (o.meta ≡ network.meta)
      × (o.spec ≡ network.spec)
      × (((run ≡ publish_ready cluster o v)
            × All (IsTrue cluster o) all_conditions
            × ((a : NetworkContractAddresses) × (contracts o ≡ some a)))
          ⊎ ((outcome : Outcome) × (run ≡ publish_error cluster o outcome v) × Failure o outcome))

  module _ (base : OptimismNetwork Q) where
    abbrev OfBase : OptimismNetwork Q → Type 0
    OfBase o = (o.meta ≡ base.meta) × (o.spec ≡ base.spec)

    fail-Publishes :
        (o : OptimismNetwork Q) (type reason message : String) (outcome : Outcome) (w : W)
        → OfBase o
        → ((p : OptimismNetwork Q) → IsFalse cluster p type → Failure p outcome)
        → Publishes base (fail cluster o type reason message outcome w)
    unfolding fail mark
    fail-Publishes o type reason message outcome w b failure =
        let (marked, v) = mark cluster o type condition_false reason message w in
        (
          marked,
          v,
          b.0,
          b.1,
          inr (
            outcome,
            refl,
            failure marked (
                ShowsFalse-set_condition (cluster.now w).0 o.status.conditions type reason message),
          ),
        )

    after_config_maps-Publishes :
        (o : OptimismNetwork Q) (a : NetworkContractAddresses) (result : Result (Unit {0})) (w : W)
        → OfBase o
        → All (IsTrue cluster o) all_conditions
        → contracts o ≡ some a
        → Publishes base (after_config_maps cluster o result w)
    unfolding after_config_maps
    after_config_maps-Publishes o a (ok _) w b h c = (o, w, b.0, b.1, inl (refl, h, (a, c)))
    after_config_maps-Publishes o a (err e) w b h c =
        (o, w, b.0, b.1, inr (after_minutes 2, refl, inr (inr (inr (h, refl)))))

    after_discovery-Publishes :
        (o : OptimismNetwork Q) (result : Result NetworkContractAddresses) (w : W)
        → OfBase o
        → All (IsTrue cluster o) through_l1
        → Publishes base (after_discovery cluster o result w)
    unfolding after_discovery mark
    after_discovery-Publishes o (err e) w b h =
        fail-Publishes o _ _ _ (after_minutes 5) w b (λ p f. inr (inr (inl (f, refl))))
    after_discovery-Publishes o (ok a) w b h =
        let (discovered, v) =
          mark cluster o "ContractsDiscovered" condition_true "AddressesResolved"
            ("Contract addresses discovered via " <> a.discovery_method) w in
        let (time, u) = cluster.now v in
        let informed = with_contracts a time discovered in
        let (result, x) = reconcile_config_maps cluster informed a u in
        after_config_maps-Publishes informed a result x b
          (All-mark cluster o through_l1 "ContractsDiscovered" _ _ w h) refl

    after_l1-Publishes :
        (o : OptimismNetwork Q) (service : Option ContractDiscoveryService)
        (result : Result (Unit {0})) (w : W)
        → OfBase o
        → All (IsTrue cluster o) ("ConfigurationValid" ∷ [])
        → let (run, v) = after_l1 cluster o service result w in Publishes base (run.0, v)
    unfolding after_l1 mark
    after_l1-Publishes o service (err e) w b h =
        fail-Publishes o _ _ _ (after_minutes 2) w b (λ p f. inr (inl (f, refl)))
    after_l1-Publishes o service (ok _) w b h =
        let (connected, v) =
          mark cluster o "L1Connected" condition_true "L1ConnectionSuccess"
            "Successfully connected to L1 RPC endpoint" w in
        let ((addresses, _), u) = discover_contract_addresses cluster connected service v in
        after_discovery-Publishes connected addresses u b
          (All-mark cluster o ("ConfigurationValid" ∷ []) "L1Connected" _ _ w h)

    after_validation-Publishes :
        (o : OptimismNetwork Q) (service : Option ContractDiscoveryService)
        (result : Result (Unit {0})) (w : W)
        → OfBase o
        → let (run, v) = after_validation cluster o service result w in Publishes base (run.0, v)
    unfolding after_validation mark
    after_validation-Publishes o service (err e) w b =
        fail-Publishes o _ _ _ (after_minutes 5) w b (λ p f. inl (f, refl))
    after_validation-Publishes o service (ok _) w b =
        let (valid, v) =
          mark cluster o "ConfigurationValid" condition_true "ValidConfiguration"
            "Network configuration is valid" w in
        let (tested, u) = test_l1_connectivity cluster valid v in
        after_l1-Publishes valid service tested u b
          (All-mark cluster o [] "ConfigurationValid" _ _ w tt)

  -- From the validation on, a run for a network always ends with updateStatusWithRetry of an
  -- object with the metadata and the specification that were read: Ready with all three conditions
  -- True and the contracts that were found, or Error with the condition of the failed step False
  -- and a retry in five minutes (specification, discovery) or two (L1). Where only the ConfigMaps
  -- failed, the phase is Error, with a retry in two minutes, although every condition is True.
  pub network_reconcile_live-Publishes :
      (network : OptimismNetwork Q) (service : Option ContractDiscoveryService) (w : W)
      → let (run, v) = reconcile_live cluster network service w in Publishes network (run.0, v)
  unfolding reconcile_live
  network_reconcile_live-Publishes network service w =
      after_validation-Publishes network network service (validate_configuration network) w
        (refl, refl)
