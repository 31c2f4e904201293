-- ===== src/NodeController/Serves.antt =====
-- What reconcileService of internal/controller/opnode_controller.go leaves in the cluster.
use op_stack_operator.Prelude.{◌∙◌, ◌≡◌, refl, inl, inr}
use op_stack_operator.Api.Meta.{ObjectMeta}
use op_stack_operator.Api.Network.{OptimismNetwork}
use op_stack_operator.Api.Node.{OpNode}
use op_stack_operator.Runtime.{Result, ok, err, or_return}
use op_stack_operator.Resources.Config.{node_labels}
use op_stack_operator.Resources.Objects.{Service}
use op_stack_operator.Resources.Service.{create_op_node_service}
use op_stack_operator.Cluster.{Cluster}
use op_stack_operator.NodeController.Objects.{
  create_or_update, node_key, updated_service, reconcile_service,
}
use op_stack_operator.Api.Meta.{name_of}
use op_stack_operator.NodeController.Converges.{ReadsBack, KeepsNames, create_or_update-Converged}

-- The server stores a Service with its ports, its type and its labels.
abbrev pub StoredService : Service → Service → Type 0
StoredService sent found =
    (found.spec.ports ≡ sent.spec.ports)
    × (found.spec.type ≡ sent.spec.type)
    × (found.meta.labels ≡ sent.meta.labels)

module _ {W EthClient Q : Type 0} (cluster : Cluster W EthClient Q) (settle : W → W)
    (op_node : OpNode Q) (network : OptimismNetwork Q) where
  -- What is found as the Service of the OpNode has the ports, the type and the labels that
  -- CreateOpNodeService gives.
  abbrev pub Serves : W → Type 0
  Serves w' =
      let desired = create_op_node_service op_node network in
      (s : Service) × ((cluster.services.get (node_key op_node) (settle w')).0 ≡ ok s)
      × (s.spec.ports ≡ desired.spec.ports)
      × (s.spec.type ≡ desired.spec.type)
      × (s.meta.labels ≡ desired.meta.labels)

  owned-Serves :
      (owned : Result ObjectMeta) (w : W)
      → let desired = create_op_node_service op_node network in
        let run =
          or_return owned
            (λ meta.
              let service : Service = record desired { meta = meta } in
              create_or_update cluster.services
                (node_key op_node)
                service
                (updated_service service))
            w in
        ReadsBack settle (λ (s : Service). s.meta) StoredService cluster.services
        → ((meta : ObjectMeta)
            → owned ≡ ok meta
            → (name_of meta ≡ node_key op_node) × (meta.labels ≡ node_labels op_node network))
        → run.0 ≡ ok tt
        → Serves run.1
  unfolding create_op_node_service node_labels
  owned-Serves (ok meta) w reads names h =
      let desired = create_op_node_service op_node network in
      let service : Service = record desired { meta = meta } in
      let labels = (names meta refl).1 in
      let (sent, found, there, stored, which) =
        create_or_update-Converged settle (λ (s : Service). s.meta) StoredService cluster.services
          (node_key op_node) service (updated_service service) w reads (names meta refl).0
          (λ s. refl) (λ s. refl) h in
      let same : StoredService service sent = elim which [
        | inl e ↦ rw e (refl, refl, refl)
        | inr (current, e) ↦ rw e (refl, refl, refl)
      ] in
      (found, there, stored.0 ∙ same.0, stored.1 ∙ same.1, stored.2 ∙ same.2 ∙ labels)
  owned-Serves (err e) w reads names h = cc

  -- Where reconcileService succeeds, SetControllerReference keeps names and labels, the API
  -- server stores the ports, the type and the labels of a Service as they are sent, and nobody
  -- else writes: once the client's cache has caught up, the Service that is found under the
  -- OpNode's name has the ports, the type and the labels that CreateOpNodeService gives, whether
  -- one was there before or not.
  pub reconcile_service-Serves :
      (w : W)
      → ReadsBack settle (λ (s : Service). s.meta) StoredService cluster.services
      → KeepsNames cluster
      → (reconcile_service cluster op_node network w).0 ≡ ok tt
      → Serves (reconcile_service cluster op_node network w).1
  unfolding reconcile_service
  reconcile_service-Serves w reads names h =
      let desired = create_op_node_service op_node network in
      owned-Serves (cluster.set_controller_reference "OpNode" op_node.meta desired.meta) w reads
        (λ meta e. names "OpNode" op_node.meta desired.meta meta e) h
