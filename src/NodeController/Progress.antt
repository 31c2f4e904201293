-- ===== src/NodeController/Progress.antt =====
-- Two runs of Reconcile of internal/controller/opnode_controller.go, one after the other.
use op_stack_operator.Prelude.{inl, subst, ◌≡◌, refl, ◌∙◌, true, false, is_some, ap}
use op_stack_operator.Prelude.Int.{pos}
use op_stack_operator.Api.Meta.{NamespacedName, ObjectMeta}
use op_stack_operator.Api.Node.{OpNode, OpNodeSpec}
use op_stack_operator.Runtime.{ok}
use op_stack_operator.Cluster.{Cluster}
use op_stack_operator.NodeController.Status.{op_node_finalizer}
use op_stack_operator.NodeController.Reconcile.{
  reconcile_live, reconcile_found, after_get, reconcile,
}
use op_stack_operator.Api.Meta.{name_of}
use op_stack_operator.NodeController.Converges.{ReadsBack}

module _ {W EthClient Q : Type 0} (cluster : Cluster W EthClient Q) where
  -- AddFinalizer adds the finalizer and changes neither the name nor the deletion timestamp.
  abbrev pub AddsFinalizer : Type 0
  AddsFinalizer =
      (meta : ObjectMeta)
      → let meta' = cluster.add_finalizer meta op_node_finalizer in
        (name_of meta' ≡ name_of meta)
        × (meta'.deletion_timestamp ≡ meta.deletion_timestamp)
        × (cluster.contains_finalizer meta' op_node_finalizer ≡ true)

  abbrev pub with_finalizer : OpNode Q → OpNode Q
  with_finalizer o = record o { meta = cluster.add_finalizer o.meta op_node_finalizer }

  reconcile_read :
      (request : NamespacedName) (w : W) (o : OpNode Q)
      → (cluster.op_nodes.get request w).0 ≡ ok o
      → is_some o.meta.deletion_timestamp ≡ false
      → cluster.contains_finalizer o.meta op_node_finalizer ≡ true
      → reconcile cluster request w ≡ reconcile_live cluster o (cluster.op_nodes.get request w).1
  unfolding reconcile after_get reconcile_found
  reconcile_read request w o h d f = rw (h, d, f) refl

  -- The server stores an updated OpNode with its specification, its deletion timestamp and its
  -- finalizers. Of its status nothing is said: that is a subresource, which Update leaves alone.
  abbrev pub StoredOpNode : OpNode Q → OpNode Q → Type 0
  StoredOpNode sent found =
      (found.spec ≡ sent.spec)
      × (found.meta.deletion_timestamp ≡ sent.meta.deletion_timestamp)
      × (cluster.contains_finalizer found.meta op_node_finalizer
          ≡ cluster.contains_finalizer sent.meta op_node_finalizer)

  -- The run goes on to the validation, with an OpNode that has that specification and the finalizer.
  abbrev pub GoesOn : NamespacedName → OpNodeSpec Q → W → Type 0
  GoesOn request spec w =
      (o : OpNode Q) × (o.spec ≡ spec)
      × (cluster.contains_finalizer o.meta op_node_finalizer ≡ true)
      × (reconcile cluster request w ≡ reconcile_live cluster o (cluster.op_nodes.get request w).1)

  -- An OpNode that is not being deleted and lacks the finalizer, where the update succeeds, the
  -- API server stores the specification, the deletion timestamp and the finalizers as they are
  -- sent, and nobody else writes: the first run adds it and asks to be run again at once, and the
  -- next run, once the client's cache has caught up, goes on to the validation, with an OpNode of
  -- the same specification that has the finalizer.
  pub reconcile-progresses :
      (settle : W → W) (request : NamespacedName) (w v u : W) (o : OpNode Q)
      → ReadsBack settle (λ (p : OpNode Q). p.meta) StoredOpNode cluster.op_nodes
      → AddsFinalizer
      → cluster.op_nodes.get request w ≡ (ok o, v)
      → is_some o.meta.deletion_timestamp ≡ false
      → cluster.contains_finalizer o.meta op_node_finalizer ≡ false
      → cluster.op_nodes.update (with_finalizer o) v ≡ (ok tt, u)
      → (reconcile cluster request w ≡ (ok (record { requeue = true; requeue_after = pos 0 }), u))
        × GoesOn request o.spec (settle u)
  unfolding reconcile after_get reconcile_found
  reconcile-progresses settle request w v u o reads adds read alive lacks updated =
      let (named, kept, has) = adds o.meta in
      let requested : name_of (with_finalizer o).meta ≡ request =
        named ∙ reads.0 request w o (ap (λ r. r.0) read) in
      let living : is_some (with_finalizer o).meta.deletion_timestamp ≡ false =
        ap is_some kept ∙ alive in
      let (found, there, (spec, timestamp, finalizer)) =
        reads.2 request w v o (with_finalizer o) read requested (inl living)
          (ap (λ r. r.0) updated) in
      let back : (cluster.op_nodes.get request (settle u)).0 ≡ ok found =
        subst (λ r. (cluster.op_nodes.get request (settle r.1)).0 ≡ ok found) updated
          (subst
            (λ k.
              (cluster.op_nodes.get k (settle (cluster.op_nodes.update (with_finalizer o) v).1)).0
              ≡ ok found)
            requested there) in
      (
        rw (read, alive, lacks, updated) refl,
        (
          found,
          spec,
          finalizer ∙ has,
          reconcile_read request (settle u) found back (ap is_some timestamp ∙ living)
              (finalizer ∙ has),
        ),
      )
