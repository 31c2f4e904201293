-- ===== src/NetworkController/ConfigMaps.antt =====
-- reconcileConfigMaps and createOrUpdateConfigMap of
-- internal/controller/optimismnetwork_controller.go.
use op_stack_operator.Prelude.{String, ◌<>◌, Bool, Option, [], ◌∷◌, if◌then◌else◌, is_some, only_if}
use op_stack_operator.Api.Network.{OptimismNetwork, ConfigSource, NetworkContractAddresses}
use op_stack_operator.Runtime.{Result, ok, err, is_not_found, Eff, pure, ◌>>=◌, or_return, or_wrap}
use op_stack_operator.Resources.Objects.{ConfigMap}
use op_stack_operator.Resources.Config.{new_meta}
use op_stack_operator.Cluster.{Cluster}
use op_stack_operator.NetworkController.Templates.{generate_rollup_config, generate_genesis_config}

-- source != nil && source.AutoDiscover
abbrev pub auto_discovers : Option ConfigSource → Bool
auto_discovers source = is_some (only_if (λ s. s.auto_discover) source)

module _ {W EthClient Q : Type 0} (cluster : Cluster W EthClient Q) where
  -- Behind Get: create what is not found, or put the new data into what is there.
  unfoldable pub write_config_map : ConfigMap → Result ConfigMap → Eff W (Result (Unit {0}))
  write_config_map config_map (ok existing) =
      cluster.config_maps.update (record existing { contents = config_map.contents })
  write_config_map config_map (err e) =
      if is_not_found e then cluster.config_maps.create config_map else pure (err e)

  unfoldable pub create_or_update_config_map : ConfigMap → Eff W (Result (Unit {0}))
  unfolding write_config_map
  create_or_update_config_map config_map = do
    existing ←
        cluster.config_maps.get
          (record { name = config_map.meta.name; namespace = config_map.meta.namespace })
    write_config_map config_map existing

  module _ (network : OptimismNetwork Q) (addresses : NetworkContractAddresses) where
    abbrev pub rollup_config_map : ConfigMap
    rollup_config_map = record {
      meta = new_meta (network.meta.name <> "-rollup-config") network.meta.namespace [];
      contents = ("rollup.json", generate_rollup_config network addresses) ∷ [];
    }

    abbrev pub genesis_config_map : ConfigMap
    genesis_config_map = record {
      meta = new_meta (network.meta.name <> "-genesis") network.meta.namespace [];
      contents = ("genesis.json", generate_genesis_config network addresses) ∷ [];
    }

    -- SetControllerReference and createOrUpdateConfigMap
    unfoldable pub write_owned : String → ConfigMap → Eff W (Result (Unit {0}))
    unfolding create_or_update_config_map
    write_owned error_prefix config_map =
        or_return (cluster.set_controller_reference "OptimismNetwork" network.meta config_map.meta)
          λ meta. do
            written ← create_or_update_config_map (record config_map { meta = meta })
            or_wrap error_prefix written λ _. pure (ok tt)

    unfoldable pub reconcile_rollup_config : Eff W (Result (Unit {0}))
    unfolding write_owned
    reconcile_rollup_config =
        if auto_discovers network.spec.rollup_config
        then write_owned "failed to create rollup config map: " rollup_config_map
        else pure (ok tt)

    unfoldable pub reconcile_genesis : Eff W (Result (Unit {0}))
    unfolding write_owned
    reconcile_genesis =
        if auto_discovers network.spec.l2_genesis
        then write_owned "failed to create genesis config map: " genesis_config_map
        else pure (ok tt)

    unfoldable pub reconcile_config_maps : Eff W (Result (Unit {0}))
    unfolding reconcile_rollup_config reconcile_genesis
    reconcile_config_maps = do
      rollup ← reconcile_rollup_config
      or_return rollup λ _. reconcile_genesis
