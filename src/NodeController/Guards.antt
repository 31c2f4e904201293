-- ===== src/NodeController/Guards.antt =====
-- When Reconcile of internal/controller/opnode_controller.go touches nothing but the OpNode.
use op_stack_operator.Prelude.{
  sym, subst, All, ◌≡◌, String, refl, ◌≢◌, ◌⊎◌, inl, inr, true, false, is_some, arith, Bool-cases,
}
use op_stack_operator.Api.Meta.{condition_false, NamespacedName}
use op_stack_operator.Api.Network.{OptimismNetwork}
use op_stack_operator.Api.Node.{OpNode, OpNodeStatus}
use op_stack_operator.Runtime.{Result, ok, Eff}
use op_stack_operator.Cluster.{Cluster, Keeps, Outcome}
use op_stack_operator.Cluster.Keeps.{WritesBack, Keeps-or_return, Keeps-or_return_of}
use op_stack_operator.Conditions.Marks.{ShowsTrue}
use op_stack_operator.NodeController.Written.{copy_conditions-id}
use op_stack_operator.NodeController.Coherent.{
  all_conditions, IsHonest, phase_error-IsHonest, phase_pending-IsHonest,
}
use op_stack_operator.NodeController.Status.{
  copy_status, observed, with_phase, phase_error, phase_pending, op_node_finalizer, write_status,
  update_status_with_retry, handle_deletion, mark,
}
use op_stack_operator.NodeController.Reconcile.{
  after_minutes, publish, fail, if_ready, reconcile_found,
}

copy_status-IsHonest :
    (status latest : OpNodeStatus) → IsHonest status → IsHonest (copy_status status latest)
unfolding copy_status
copy_status-IsHonest status latest honest r =
    subst (λ cs. All (ShowsTrue cs) all_conditions) (sym (copy_conditions-id status.conditions))
      (honest r)

-- Only the status is another one, and it is honest.
abbrev pub StatusChange : {Q : Type 0} → OpNode Q → OpNode Q → Type 0
StatusChange o o' = (o'.meta ≡ o.meta) × (o'.spec ≡ o.spec) × IsHonest o'.status

module _ {W EthClient Q : Type 0} (cluster : Cluster W EthClient Q) (I : W → Type 0) where
  -- `I` is not ended by what a run may do while the network is not ready.
  abbrev pub StatusOnly : Type 0
  StatusOnly =
      Keeps I cluster.now
      × ((key : NamespacedName) → Keeps I (cluster.networks.get key))
      × ((key : NamespacedName) → Keeps I (cluster.op_nodes.get key))
      × ((key : NamespacedName)
          → WritesBack I cluster.op_nodes cluster.op_nodes.update_status StatusChange key)
      × ((f : Eff W (Result (Unit {0}))) → Keeps I f → Keeps I (cluster.retry_on_conflict f))

  -- No network that is read is ready.
  abbrev pub NoneReady : Type 0
  NoneReady =
      (key : NamespacedName) (w : W) (network : OptimismNetwork Q)
      → I w
      → (cluster.networks.get key w).0 ≡ ok network
      → network.status.phase ≢ "Ready"

  module _ (only : StatusOnly) where
    write_status-Keeps : (o : OpNode Q) → IsHonest o.status → Keeps I (write_status cluster o)
    unfolding write_status
    write_status-Keeps o honest w h =
        let key : NamespacedName = record { name = o.meta.name; namespace = o.meta.namespace } in
        Keeps-or_return_of I (cluster.op_nodes.get key w) _ (only.2 key w h) (λ latest v e k.
          only.3 key w v latest _ e (refl, refl, copy_status-IsHonest o.status latest.status honest)
            k)

    pub publish-Keeps :
        (o : OpNode Q) (outcome : Outcome) → IsHonest o.status → Keeps I (publish cluster o outcome)
    unfolding publish update_status_with_retry
    publish-Keeps o outcome honest w h =
        only.4 (write_status cluster (observed o)) (write_status-Keeps (observed o) honest) w h

    pub fail-Keeps :
        (o : OpNode Q) (type reason message : String) (outcome : Outcome)
        → Keeps I (fail cluster o type reason message outcome)
    unfolding fail mark
    fail-Keeps o type reason message outcome w h =
        let (marked, v) = mark cluster o type condition_false reason message w in
        publish-Keeps (with_phase phase_error marked) outcome
          (phase_error-IsHonest (with_phase phase_error marked).status refl) v (only.0 w h)

    pub if_not_ready-Keeps :
        (network : OptimismNetwork Q) (o : OpNode Q) → Keeps I (if_ready cluster network false o)
    unfolding if_ready mark
    if_not_ready-Keeps network o w h =
        let (waiting, v) =
          mark cluster o "NetworkReady" condition_false "NetworkNotReady"
            "OptimismNetwork is not ready" w in
        publish-Keeps (with_phase phase_pending waiting) (after_minutes 1)
          (phase_pending-IsHonest (with_phase phase_pending waiting).status refl) v (only.0 w h)

  -- The finalizer comes first: as long as an OpNode that is not being deleted lacks it, and once
  -- it is being deleted, reconciling it does nothing but update the OpNode itself.
  pub reconcile_found-OnlyUpdates :
      ((o : OpNode Q) → Keeps I (cluster.op_nodes.update o))
      → (o : OpNode Q)
      → (is_some o.meta.deletion_timestamp ≡ true)
        ⊎ (cluster.contains_finalizer o.meta op_node_finalizer ≡ false)
      → Keeps I (reconcile_found cluster o)
  unfolding reconcile_found handle_deletion
  reconcile_found-OnlyUpdates updates o d w h =
      elim (Bool-cases (is_some o.meta.deletion_timestamp)) [
        | inl deleted ↦ rw deleted (Keeps-or_return I _ _ _ (updates _ w h) (λ _ v k. k))
        | inr live ↦
            let missing : cluster.contains_finalizer o.meta op_node_finalizer ≡ false =
              ground (arith, d, live) in
            rw (live, missing) (Keeps-or_return I _ _ _ (updates _ w h) (λ _ v k. k))
      ]
