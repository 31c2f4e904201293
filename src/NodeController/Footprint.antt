-- ===== src/NodeController/Footprint.antt =====
-- All that Reconcile of internal/controller/opnode_controller.go does to the world: the calls it may
-- make, as what a property of the world has to survive to survive a run.
use op_stack_operator.Prelude.{ℕ, ◌≡◌, ◌⊎◌, String, ◌<>◌}
use op_stack_operator.Api.Meta.{NamespacedName, ObjectMeta}
use op_stack_operator.Api.Node.{OpNode}
use op_stack_operator.Runtime.{ok}
use op_stack_operator.Resources.Objects.{Secret, StatefulSet, Service}
use op_stack_operator.Cluster.{Client, Cluster, Keeps}
use op_stack_operator.Cluster.Keeps.{WritesBack, Owned}
use op_stack_operator.NodeController.Objects.{updated_stateful_set, updated_service}
use op_stack_operator.NodeController.Status.{op_node_finalizer}
use op_stack_operator.NodeController.Guards.{StatusOnly}

module _ {W EthClient Q : Type 0} (cluster : Cluster W EthClient Q) (I : W → Type 0) where
  -- The finalizer of the operator is added or removed.
  abbrev pub FinalizerChange : OpNode Q → OpNode Q → Type 0
  FinalizerChange o o' =
      (o'.spec ≡ o.spec)
      × (o'.status ≡ o.status)
      × ((o'.meta ≡ cluster.add_finalizer o.meta op_node_finalizer)
          ⊎ (o'.meta ≡ cluster.remove_finalizer o.meta op_node_finalizer))

  -- Objects that have the name of their owner: looked up, created with a reference to the owner,
  -- or updated from what was just read.
  abbrev pub OwnedWrites :
      {A : Type 0} → (A → ObjectMeta) → Client W A → (A → A → Type 0) → ObjectMeta → Type 0
  OwnedWrites {A} meta client Change owner =
      let key : NamespacedName = record { name = owner.name; namespace = owner.namespace } in
      Keeps I (client.get key)
      × ((a : A) → Owned cluster "OpNode" owner owner.name (meta a) → Keeps I (client.create a))
      × WritesBack I client client.update Change key

  -- Secrets are looked up and created, never updated.
  abbrev pub SecretWrites : String → ObjectMeta → Type 0
  SecretWrites suffix owner =
      Keeps I
        (cluster.secrets.get (record { name = owner.name <> suffix; namespace = owner.namespace }))
      × ((s : Secret)
          → Owned cluster "OpNode" owner (owner.name <> suffix) s.meta
          → Keeps I (cluster.secrets.create s))

  -- `I` is not ended by the calls of a run, where `Node` holds of the metadata of an OpNode that
  -- is read. There are no others: no ConfigMap or secret is updated, no network written.
  pub record NodeFootprint (Node : ObjectMeta → Type 0) : Type 0 where
    pub status_only : StatusOnly cluster I
    pub node_read :
        (key : NamespacedName) (w v : W) (o : OpNode Q)
        → cluster.op_nodes.get key w ≡ (ok o, v)
        → I w
        → Node o.meta
    pub finalizers :
        (key : NamespacedName)
        → WritesBack I cluster.op_nodes cluster.op_nodes.update FinalizerChange key
    pub random : (n : ℕ) → Keeps I (cluster.read_random n)
    pub jwt_secrets : (owner : ObjectMeta) → Node owner → SecretWrites "-jwt" owner
    pub p2p_secrets : (owner : ObjectMeta) → Node owner → SecretWrites "-p2p" owner
    pub sets :
        (owner : ObjectMeta)
        → Node owner
        → OwnedWrites
            (λ (s : StatefulSet Q). s.meta)
            cluster.stateful_sets
            (λ s s'. (desired : StatefulSet Q) × (s' ≡ updated_stateful_set desired s))
            owner
    pub its_services :
        (owner : ObjectMeta)
        → Node owner
        → OwnedWrites
            (λ (s : Service). s.meta)
            cluster.services
            (λ s s'. (desired : Service) × (s' ≡ updated_service desired s))
            owner
