-- ===== src/NetworkController/Requeue.antt =====
-- How long Reconcile of internal/controller/optimismnetwork_controller.go asks to wait.
use op_stack_operator.Prelude.{
  ℕ, Bool, true, false, if◌then◌else◌, refl, ap, arith, inl, inr, Option, not, is_some, subst, sym,
}
use op_stack_operator.Prelude.Int.{pos}
use op_stack_operator.Api.Meta.{NamespacedName}
use op_stack_operator.Api.Network.{OptimismNetwork}
use op_stack_operator.Discovery.{ContractDiscoveryService}
use op_stack_operator.Runtime.{Result, ok, err, is_not_found, pure, Eff}
use op_stack_operator.Cluster.{Cluster, Outcome}
use op_stack_operator.Cluster.Within.{Within, Within-or_return}
use op_stack_operator.NetworkController.Reconcile.{
  optimism_network_finalizer, after_minutes, handle_deletion, publish_error, publish_ready,
  reconcile_live, reconcile_found, after_get, reconcile,
}
use op_stack_operator.NetworkController.Published.{Failure, network_reconcile_live-Publishes}

-- One hour.
abbrev pub longest : ℕ
longest = 3600000000000

module _ {W EthClient Q : Type 0} (cluster : Cluster W EthClient Q) where
  Failure-Within :
      (o : OptimismNetwork Q) (outcome : Outcome)
      → Failure cluster o outcome
      → Within longest (ok outcome)
  Failure-Within o outcome (inl h) = (300000000000, ap (λ r. r.requeue_after) h.1, omega arith)
  Failure-Within o outcome (inr (inl h)) =
      (120000000000, ap (λ r. r.requeue_after) h.1, omega arith)
  Failure-Within o outcome (inr (inr (inl h))) =
      (300000000000, ap (λ r. r.requeue_after) h.1, omega arith)
  Failure-Within o outcome (inr (inr (inr h))) =
      (120000000000, ap (λ r. r.requeue_after) h.1, omega arith)

  publish_ready-Within :
      (o : OptimismNetwork Q) (w : W) → Within longest (publish_ready cluster o w).0
  unfolding publish_ready
  publish_ready-Within o w = Within-or_return longest _ _ _ (3600000000000, refl, omega arith)

  reconcile_live-Within :
      (n : OptimismNetwork Q) (service : Option ContractDiscoveryService) (w : W)
      → Within longest (reconcile_live cluster n service w).0.0
  unfolding publish_error
  reconcile_live-Within n service w =
      let (o, v, _, _, ends) = network_reconcile_live-Publishes cluster n service w in
      elim ends [
        | inl ready ↦ subst (λ r. Within longest r.0) (sym ready.0) (publish_ready-Within o v)
        | inr (outcome, run, failure) ↦
            subst (λ r. Within longest r.0) (sym run) (Failure-Within o outcome failure)
      ]

  -- The service is passed by.
  Within-if_leaving :
      (b : Bool) (m n : Eff W (Result Outcome × Option ContractDiscoveryService)) (w : W)
      → Within longest (m w).0.0
      → Within longest (n w).0.0
      → Within longest ((if b then m else n) w).0.0
  Within-if_leaving true m n w h k = h
  Within-if_leaving false m n w h k = k

  after_get-Within :
      (service : Option ContractDiscoveryService) (found : Result (OptimismNetwork Q)) (w : W)
      → Within longest (after_get cluster service found w).0.0
  unfolding after_get reconcile_found handle_deletion
  after_get-Within service (ok n) w =
      Within-if_leaving (is_some n.meta.deletion_timestamp) _ _ w
        (Within-or_return longest _ (after_minutes 0) _ (0, refl, omega arith))
        (Within-if_leaving (not (cluster.contains_finalizer n.meta optimism_network_finalizer)) _ _
          w
          (Within-or_return longest _ (record { requeue = true; requeue_after = pos 0 }) _
            (0, refl, omega arith))
          (reconcile_live-Within n service w))
  after_get-Within service (err e) w =
      Within-if_leaving (is_not_found e) (pure (ok (after_minutes 0), service))
        (pure (err e, service)) w (0, refl, omega arith) tt

  pub network_reconcile-Within :
      (request : NamespacedName) (service : Option ContractDiscoveryService) (w : W)
      → Within longest (reconcile cluster request service w).0.0
  unfolding reconcile
  network_reconcile-Within request service w =
      let (found, v) = cluster.networks.get request w in after_get-Within service found v
