-- ===== src/NodeController/Converges.antt =====
-- What reconcileStatefulSet and reconcileService of internal/controller/opnode_controller.go leave
-- in the cluster.
use op_stack_operator.Prelude.{
  ap, subst, is_some, false, ◌≡◌, refl, ◌∙◌, ◌⊎◌, inl, inr, String, Bool-cases,
}
use op_stack_operator.Api.Meta.{name_of, NamespacedName, ObjectMeta}
use op_stack_operator.Api.Network.{OptimismNetwork}
use op_stack_operator.Api.Node.{OpNode}
use op_stack_operator.Runtime.{Result, ok, err, is_not_found, or_return}
use op_stack_operator.Resources.Objects.{StatefulSet, StatefulSetSpec}
use op_stack_operator.Resources.StatefulSet.{create_op_node_stateful_set}
use op_stack_operator.Resources.Config.{node_labels}
use op_stack_operator.Cluster.{Client, Cluster}
use op_stack_operator.NodeController.Objects.{
  write_found, create_or_update, node_key, updated_stateful_set, reconcile_stateful_set,
}

-- An update after which the object is still there: it is not being deleted, or its finalizers are
-- the ones that it had.
abbrev pub Stays : ObjectMeta → ObjectMeta → Type 0
Stays meta meta' = (is_some meta'.deletion_timestamp ≡ false) ⊎ (meta'.finalizers ≡ meta.finalizers)

-- Look-ups on an API server, where nobody else writes and `settle` stands for the time in which the
-- client's cache catches up: an object is found under its own name, and once the cache has caught up,
-- what was created, or read and then updated, with success is found as the server has stored it,
-- which `Stored` relates to what was sent.
abbrev pub ReadsBack :
    {W A : Type 0} → (W → W) → (A → ObjectMeta) → (A → A → Type 0) → Client W A → Type 0
ReadsBack {W} {A} settle meta Stored client =
    let Found : A → W → Type 0 = λ a w.
      (found : A) × ((client.get (name_of (meta a)) (settle w)).0 ≡ ok found) × Stored a found in
    ((key : NamespacedName) (w : W) (a : A) → (client.get key w).0 ≡ ok a → name_of (meta a) ≡ key)
    × ((a : A) (w : W) → (client.create a w).0 ≡ ok tt → Found a (client.create a w).1)
    × ((key : NamespacedName) (w v : W) (a a' : A)
        → client.get key w ≡ (ok a, v)
        → name_of (meta a') ≡ key
        → Stays (meta a) (meta a')
        → (client.update a' v).0 ≡ ok tt
        → Found a' (client.update a' v).1)

module _ {W A : Type 0} (settle : W → W) (meta : A → ObjectMeta) (Stored : A → A → Type 0)
    (client : Client W A) (key : NamespacedName) (desired : A) (updated : A → A) where
  -- What is found afterwards: the desired object, or what an existing one was updated to, as it is
  -- stored.
  abbrev pub Converged : W → Type 0
  Converged w' =
      (sent : A) × (found : A) × ((client.get key (settle w')).0 ≡ ok found)
      × Stored sent found
      × ((sent ≡ desired) ⊎ ((current : A) × (sent ≡ updated current)))

  write_found-Converged :
      (w : W) (run : Result A × W)
      → client.get key w ≡ run
      → ReadsBack settle meta Stored client
      → name_of (meta desired) ≡ key
      → ((a : A) → name_of (meta (updated a)) ≡ name_of (meta a))
      → ((a : A) → (meta (updated a)).finalizers ≡ (meta a).finalizers)
      → (write_found client desired updated run.0 run.1).0 ≡ ok tt
      → Converged (write_found client desired updated run.0 run.1).1
  unfolding write_found
  write_found-Converged w (ok current, v) e reads named kept same h =
      let its : name_of (meta (updated current)) ≡ key =
        kept current ∙ reads.0 key w current (ap (λ r. r.0) e) in
      let (found, there, stored) =
        reads.2 key w v current (updated current) e its (inr (same current)) h in
      (
        updated current,
        found,
        subst (λ k. (client.get k (settle (client.update (updated current) v).1)).0 ≡ ok found) its
            there,
        stored,
        inr (current, refl),
      )
  write_found-Converged w (err e, v) _ reads named kept same h =
      elim (Bool-cases (is_not_found e)) [
        | inl n ↦
            let created : (client.create desired v).0 ≡ ok tt = rw n at h in
            let (found, there, stored) = reads.1 desired v created in
            rw n (desired, found, rw named at there, stored, inl refl)
        | inr n ↦ let failed = rw n at h in cc
      ]

  pub create_or_update-Converged :
      (w : W)
      → ReadsBack settle meta Stored client
      → name_of (meta desired) ≡ key
      → ((a : A) → name_of (meta (updated a)) ≡ name_of (meta a))
      → ((a : A) → (meta (updated a)).finalizers ≡ (meta a).finalizers)
      → (create_or_update client key desired updated w).0 ≡ ok tt
      → Converged (create_or_update client key desired updated w).1
  unfolding create_or_update
  create_or_update-Converged w reads named kept same h =
      write_found-Converged w (client.get key w) refl reads named kept same h

-- SetControllerReference keeps the name and the labels of what it gives an owner.
abbrev pub KeepsNames : {W EthClient Q : Type 0} → Cluster W EthClient Q → Type 0
KeepsNames cluster =
    (kind : String) (owner meta meta' : ObjectMeta)
    → cluster.set_controller_reference kind owner meta ≡ ok meta'
    → (name_of meta' ≡ name_of meta) × (meta'.labels ≡ meta.labels)

module _ {W EthClient Q : Type 0} (cluster : Cluster W EthClient Q) (settle : W → W)
    (default : StatefulSetSpec Q → StatefulSetSpec Q) (op_node : OpNode Q)
    (network : OptimismNetwork Q) where
  -- The server stores a StatefulSet with its labels, and with its specification, in which `default`
  -- stands for what the server fills in where a field is not set, such as the timeout of a probe.
  abbrev pub StoredSet : StatefulSet Q → StatefulSet Q → Type 0
  StoredSet sent found = (found.spec ≡ default sent.spec) × (found.meta.labels ≡ sent.meta.labels)

  -- What is found as the StatefulSet of the OpNode is as CreateOpNodeStatefulSet gives it, with what
  -- the server fills in.
  abbrev pub AsDesired : W → Type 0
  AsDesired w' =
      let desired =
        create_op_node_stateful_set cluster.is_zero cluster.must_parse op_node network in
      (s : StatefulSet Q) × ((cluster.stateful_sets.get (node_key op_node) (settle w')).0 ≡ ok s)
      × (s.spec ≡ default desired.spec)
      × (s.meta.labels ≡ desired.meta.labels)

  owned-AsDesired :
      (owned : Result ObjectMeta) (w : W)
      → let desired =
          create_op_node_stateful_set cluster.is_zero cluster.must_parse op_node network in
        let run =
          or_return owned
            (λ meta.
              let set : StatefulSet Q = record desired { meta = meta } in
              create_or_update cluster.stateful_sets
                (node_key op_node)
                set
                (updated_stateful_set set))
            w in
        ReadsBack settle (λ (s : StatefulSet Q). s.meta) StoredSet cluster.stateful_sets
        → ((meta : ObjectMeta)
            → owned ≡ ok meta
            → (name_of meta ≡ node_key op_node) × (meta.labels ≡ node_labels op_node network))
        → run.0 ≡ ok tt
        → AsDesired run.1
  unfolding create_op_node_stateful_set node_labels
  owned-AsDesired (ok meta) w reads names h =
      let desired =
        create_op_node_stateful_set cluster.is_zero cluster.must_parse op_node network in
      let set : StatefulSet Q = record desired { meta = meta } in
      let labels = (names meta refl).1 in
      let (sent, found, there, stored, which) =
        create_or_update-Converged settle (λ (s : StatefulSet Q). s.meta) StoredSet
          cluster.stateful_sets (node_key op_node) set (updated_stateful_set set) w reads
          (names meta refl).0 (λ s. refl) (λ s. refl) h in
      elim which [
        | inl e ↦ (
          found,
          there,
          stored.0 ∙ ap (λ s. default s.spec) e,
          stored.1 ∙ ap (λ (s : StatefulSet Q). s.meta.labels) e ∙ labels,
        )
        | inr (current, e) ↦ (
          found,
          there,
          stored.0 ∙ ap (λ s. default s.spec) e,
          stored.1 ∙ ap (λ (s : StatefulSet Q). s.meta.labels) e ∙ labels,
        )
      ]
  owned-AsDesired (err e) w reads names h = cc

  -- Where reconcileStatefulSet succeeds, SetControllerReference keeps names and labels, the API
  -- server stores the labels of a StatefulSet as they are sent, and nobody else writes: once the
  -- client's cache has caught up, the StatefulSet that is found under the OpNode's name has the
  -- labels that CreateOpNodeStatefulSet gives, and its specification with what the API server
  -- fills in where a field is not set, whether one was there before or not.
  pub reconcile_stateful_set-Converges :
      (w : W)
      → ReadsBack settle (λ (s : StatefulSet Q). s.meta) StoredSet cluster.stateful_sets
      → KeepsNames cluster
      → (reconcile_stateful_set cluster op_node network w).0 ≡ ok tt
      → AsDesired (reconcile_stateful_set cluster op_node network w).1
  unfolding reconcile_stateful_set
  reconcile_stateful_set-Converges w reads names h =
      let desired =
        create_op_node_stateful_set cluster.is_zero cluster.must_parse op_node network in
      owned-AsDesired (cluster.set_controller_reference "OpNode" op_node.meta desired.meta) w reads
        (λ meta e. names "OpNode" op_node.meta desired.meta meta e) h
