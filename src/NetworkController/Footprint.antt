-- ===== src/NetworkController/Footprint.antt =====
-- All that Reconcile of internal/controller/optimismnetwork_controller.go does to the world: the calls
-- it may make, as what a property of the world has to survive to survive a run.
use op_stack_operator.Prelude.{◌≡◌, ◌⊎◌, String, ◌<>◌}
use op_stack_operator.Prelude.Int.{ℤ}
use op_stack_operator.Api.Meta.{NamespacedName, ObjectMeta}
use op_stack_operator.Api.Network.{OptimismNetwork}
use op_stack_operator.Runtime.{Result, ok, Eff}
use op_stack_operator.Resources.Objects.{ConfigMap}
use op_stack_operator.Cluster.{Cluster, Keeps}
use op_stack_operator.Cluster.Keeps.{WritesBack, Owned}
use op_stack_operator.NetworkController.Reconcile.{optimism_network_finalizer}
use op_stack_operator.NetworkController.Coherent.{IsHonest}

-- Only the status is another one, and it is honest.
abbrev pub StatusChange : {Q : Type 0} → OptimismNetwork Q → OptimismNetwork Q → Type 0
StatusChange n n' = (n'.meta ≡ n.meta) × (n'.spec ≡ n.spec) × IsHonest n'.status

module _ {W EthClient Q : Type 0} (cluster : Cluster W EthClient Q) where
  -- The finalizer of the operator is added or removed.
  abbrev pub FinalizerChange : OptimismNetwork Q → OptimismNetwork Q → Type 0
  FinalizerChange n n' =
      (n'.spec ≡ n.spec)
      × (n'.status ≡ n.status)
      × ((n'.meta ≡ cluster.add_finalizer n.meta optimism_network_finalizer)
          ⊎ (n'.meta ≡ cluster.remove_finalizer n.meta optimism_network_finalizer))

  module _ (I : W → Type 0) where
    -- A ConfigMap that SetControllerReference may leave under a name: looked up under the name that
    -- it has, and created, or its contents put into what is there.
    abbrev pub ConfigMapWrites : String → ObjectMeta → Type 0
    ConfigMapWrites suffix owner =
        (meta : ObjectMeta)
        → Owned cluster "OptimismNetwork" owner (owner.name <> suffix) meta
        → let key : NamespacedName = record { name = meta.name; namespace = meta.namespace } in
          Keeps I (cluster.config_maps.get key)
          × ((c : ConfigMap) → c.meta ≡ meta → Keeps I (cluster.config_maps.create c))
          × WritesBack I cluster.config_maps cluster.config_maps.update (λ c c'. c'.meta ≡ c.meta)
              key

    -- `I` is not ended by the calls of a run, where `Network` holds of the metadata of a network
    -- that is read. There are no others: OpNodes and their objects are not touched.
    pub record NetworkFootprint (Network : ObjectMeta → Type 0) : Type 0 where
      pub clock : Keeps I cluster.now
      pub look_up : (key : NamespacedName) → Keeps I (cluster.networks.get key)
      pub network_read :
          (key : NamespacedName) (w v : W) (n : OptimismNetwork Q)
          → cluster.networks.get key w ≡ (ok n, v)
          → I w
          → Network n.meta
      pub statuses :
          (key : NamespacedName)
          → WritesBack I cluster.networks cluster.networks.update_status StatusChange key
      pub finalizers :
          (key : NamespacedName)
          → WritesBack I cluster.networks cluster.networks.update FinalizerChange key
      pub retries :
          (f : Eff W (Result (Unit {0}))) → Keeps I f → Keeps I (cluster.retry_on_conflict f)
      pub dials : (url : String) → Keeps I (cluster.dial url)
      pub dials_context : (timeout : ℤ) (url : String) → Keeps I (cluster.dial_context timeout url)
      pub asks : (timeout : ℤ) (client : EthClient) → Keeps I (cluster.chain_id timeout client)
      pub closes : (client : EthClient) → Keeps I (cluster.close client)
      pub rollup_configs :
          (owner : ObjectMeta) → Network owner → ConfigMapWrites "-rollup-config" owner
      pub genesis_configs : (owner : ObjectMeta) → Network owner → ConfigMapWrites "-genesis" owner
