-- ===== src/NodeController/Requeue.antt =====
-- How long Reconcile of internal/controller/opnode_controller.go asks to wait.
use op_stack_operator.Prelude.{ℕ, refl, ap, arith, inl, inr, not, is_some, subst, sym}
use op_stack_operator.Api.Meta.{NamespacedName}
use op_stack_operator.Api.Node.{OpNode}
use op_stack_operator.Runtime.{Result, ok, err, is_not_found, pure}
use op_stack_operator.Cluster.{Cluster, Outcome}
use op_stack_operator.Cluster.Within.{Within, Within-or_return, Within-if}
use op_stack_operator.NodeController.Status.{op_node_finalizer, handle_deletion}
use op_stack_operator.NodeController.Reconcile.{
  done, publish, reconcile_live, reconcile_found, after_get, reconcile,
}
use op_stack_operator.NodeController.Coherent.{Coherent}
use op_stack_operator.NodeController.Published.{reconcile_live-Publishes}

-- Five minutes.
abbrev pub longest : ℕ
longest = 300000000000

module _ {W EthClient Q : Type 0} (cluster : Cluster W EthClient Q) where
  Coherent-Within :
      (o : OpNode Q) (outcome : Outcome) → Coherent o outcome → Within longest (ok outcome)
  Coherent-Within o outcome (inl h) = (300000000000, ap (λ r. r.requeue_after) h.2, omega arith)
  Coherent-Within o outcome (inr (inl h)) =
      (60000000000, ap (λ r. r.requeue_after) h.2, omega arith)
  Coherent-Within o outcome (inr (inr (inl h))) =
      (300000000000, ap (λ r. r.requeue_after) h.2, omega arith)
  Coherent-Within o outcome (inr (inr (inr h))) =
      (120000000000, ap (λ r. r.requeue_after) h.2, omega arith)

  reconcile_live-Within : (o : OpNode Q) (w : W) → Within longest (reconcile_live cluster o w).0
  unfolding publish
  reconcile_live-Within o w =
      let (written, outcome, v, run, _, _, coherent) = reconcile_live-Publishes cluster o w in
      subst (λ r. Within longest r.0) (sym run) (Coherent-Within written outcome coherent)

  after_get-Within :
      (found : Result (OpNode Q)) (w : W) → Within longest (after_get cluster found w).0
  unfolding after_get reconcile_found handle_deletion
  after_get-Within (ok o) w =
      Within-if longest (is_some o.meta.deletion_timestamp) _ _ w
        (Within-or_return longest _ _ _ (0, refl, omega arith))
        (Within-if longest (not (cluster.contains_finalizer o.meta op_node_finalizer)) _ _ w
          (Within-or_return longest _ _ _ (0, refl, omega arith)) (reconcile_live-Within o w))
  after_get-Within (err e) w =
      Within-if longest (is_not_found e) (pure (ok done)) (pure (err e)) w (0, refl, omega arith) tt

  pub reconcile-Within :
      (request : NamespacedName) (w : W) → Within longest (reconcile cluster request w).0
  unfolding reconcile
  reconcile-Within request w =
      let (found, v) = cluster.op_nodes.get request w in after_get-Within found v
