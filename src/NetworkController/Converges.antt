-- ===== src/NetworkController/Converges.antt =====
-- What reconcileConfigMaps of internal/controller/optimismnetwork_controller.go leaves in the cluster.
use op_stack_operator.Prelude.{ap, subst, ◌≡◌, refl, inl, inr, String, ◌<>◌, true, Bool-cases}
use op_stack_operator.Api.Meta.{NamespacedName, ObjectMeta}
use op_stack_operator.Api.Network.{OptimismNetwork, NetworkContractAddresses}
use op_stack_operator.Runtime.{Result, ok, err, is_not_found, Eff, or_return, or_wrap, pure}
use op_stack_operator.Resources.Objects.{ConfigMap}
use op_stack_operator.Cluster.{Cluster}
use op_stack_operator.Api.Meta.{name_of}
use op_stack_operator.NodeController.Converges.{ReadsBack, KeepsNames}
use op_stack_operator.NetworkController.ConfigMaps.{
  auto_discovers, write_config_map, create_or_update_config_map, rollup_config_map,
  genesis_config_map, write_owned, reconcile_rollup_config, reconcile_genesis,
}

-- The server stores a ConfigMap with its contents.
abbrev pub StoredConfigMap : ConfigMap → ConfigMap → Type 0
StoredConfigMap sent found = found.contents ≡ sent.contents

module _ {W EthClient Q : Type 0} (cluster : Cluster W EthClient Q) (settle : W → W)
    (reads : ReadsBack settle (λ (c : ConfigMap). c.meta) StoredConfigMap cluster.config_maps) where
  -- A ConfigMap with the contents of `c` is found under that name.
  abbrev pub Holds : NamespacedName → ConfigMap → W → Type 0
  Holds key c w =
      (found : ConfigMap) × ((cluster.config_maps.get key (settle w)).0 ≡ ok found)
      × (found.contents ≡ c.contents)

  write_config_map-Holds :
      (c : ConfigMap) (w : W) (run : Result ConfigMap × W)
      → cluster.config_maps.get (name_of c.meta) w ≡ run
      → (write_config_map cluster c run.0 run.1).0 ≡ ok tt
      → Holds (name_of c.meta) c (write_config_map cluster c run.0 run.1).1
  unfolding write_config_map
  write_config_map-Holds c w (ok e, v) read h =
      let new : ConfigMap = record e { contents = c.contents } in
      let named = reads.0 (name_of c.meta) w e (ap (λ r. r.0) read) in
      let (found, there, stored) = reads.2 (name_of c.meta) w v e new read named (inr refl) h in
      (
        found,
        subst
            (λ k.
              (cluster.config_maps.get k (settle (cluster.config_maps.update new v).1)).0
              ≡ ok found)
            named there,
        stored,
      )
  write_config_map-Holds c w (err e, v) _ h = elim (Bool-cases (is_not_found e)) [
    | inl n ↦
        let created : (cluster.config_maps.create c v).0 ≡ ok tt = rw n at h in
        rw n (reads.1 c v created)
    | inr n ↦ let failed = rw n at h in cc
  ]

  create_or_update_config_map-Holds :
      (c : ConfigMap) (w : W)
      → (create_or_update_config_map cluster c w).0 ≡ ok tt
      → Holds (name_of c.meta) c (create_or_update_config_map cluster c w).1
  unfolding create_or_update_config_map
  create_or_update_config_map-Holds c w h =
      write_config_map-Holds c w (cluster.config_maps.get (name_of c.meta) w) refl h

  module _ (names : KeepsNames cluster) (network : OptimismNetwork Q)
      (addresses : NetworkContractAddresses) where
    wrapped-ok :
        (prefix : String) (r : Result (Unit {0})) (w : W)
        → (or_wrap prefix r (λ _. pure (ok tt)) w).0 ≡ ok tt
        → (r ≡ ok tt) × ((or_wrap prefix r (λ _. pure (ok tt)) w).1 ≡ w)
    wrapped-ok prefix (ok u) w h = (refl, refl)
    wrapped-ok prefix (err e) w h = cc

    owned-Holds :
        (prefix : String) (c : ConfigMap) (r : Result ObjectMeta) (w : W)
        → let step : Eff W (Result (Unit {0})) = or_return r (λ meta w.
          let (written, v) = create_or_update_config_map cluster (record c { meta = meta }) w in
          or_wrap prefix written (λ _. pure (ok tt)) v) in
          cluster.set_controller_reference "OptimismNetwork" network.meta c.meta ≡ r
          → (step w).0 ≡ ok tt
          → Holds (name_of c.meta) c (step w).1
    owned-Holds prefix c (ok meta) w owned h =
        let new : ConfigMap = record c { meta = meta } in
        let (written, v) = create_or_update_config_map cluster new w in
        let (succeeded, same) = wrapped-ok prefix written v h in
        let (found, there, contents) = create_or_update_config_map-Holds new w succeeded in
        let named = (names "OptimismNetwork" network.meta c.meta meta owned).0 in
        (found, rw (same, ← named) there, contents)
    owned-Holds prefix c (err e) w owned h = cc

    -- Where the rollup configuration is to be discovered, its step succeeds,
    -- SetControllerReference keeps names, the API server stores the contents of a ConfigMap as
    -- they are sent, and nobody else writes: once the client's cache has caught up, the ConfigMap
    -- that is found under the network's name with -rollup-config has the configuration generated
    -- from the addresses under rollup.json, and nothing else, whatever was there before.
    pub reconcile_rollup_config-Holds :
        (w : W)
        → auto_discovers network.spec.rollup_config ≡ true
        → (reconcile_rollup_config cluster network addresses w).0 ≡ ok tt
        → Holds
            (record {
              name = network.meta.name <> "-rollup-config";
              namespace = network.meta.namespace;
            })
            (rollup_config_map cluster network addresses)
            (reconcile_rollup_config cluster network addresses w).1
    unfolding reconcile_rollup_config write_owned
    reconcile_rollup_config-Holds w a h =
        let h' = rw a at h in
        rw a (
          owned-Holds "failed to create rollup config map: "
            (rollup_config_map cluster network addresses) _ w refl h')

    -- Likewise for the genesis, under genesis.json.
    pub reconcile_genesis-Holds :
        (w : W)
        → auto_discovers network.spec.l2_genesis ≡ true
        → (reconcile_genesis cluster network addresses w).0 ≡ ok tt
        → Holds
            (record { name = network.meta.name <> "-genesis"; namespace = network.meta.namespace })
            (genesis_config_map cluster network addresses)
            (reconcile_genesis cluster network addresses w).1
    unfolding reconcile_genesis write_owned
    reconcile_genesis-Holds w a h =
        let h' = rw a at h in
        rw a (
          owned-Holds "failed to create genesis config map: "
            (genesis_config_map cluster network addresses) _ w refl h')
