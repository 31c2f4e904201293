-- ===== src/System/Promises.antt =====
-- Which properties of the objects of an API server that behaves as documented no call of the operator
-- ends.
use op_stack_operator.Prelude.{◌≡◌, sym, ◌∙◌, ap, subst, inl, inr, Option, some}
use op_stack_operator.Api.Meta.{NamespacedName, ObjectMeta, name_of}
use op_stack_operator.Api.Network.{OptimismNetwork, OptimismNetworkSpec}
use op_stack_operator.Api.Node.{OpNode, OpNodeSpec}
use op_stack_operator.Resources.Objects.{Secret}
use op_stack_operator.Runtime.{ok}
use op_stack_operator.Cluster.{Cluster}
use op_stack_operator.Cluster.Server.{View, OldOr, ApiServer}
use op_stack_operator.NodeController.Footprint as Node
use op_stack_operator.NetworkController.Footprint as Network
use op_stack_operator.NodeController.Coherent.{IsHonest}
use op_stack_operator.NetworkController.Coherent as NetworkCoherent
use op_stack_operator.NodeController.Status.{op_node_finalizer}
use op_stack_operator.NetworkController.Reconcile.{optimism_network_finalizer}
use op_stack_operator.System.Served.{Survives}

module _ {A S : Type 0} (part : A → S) (P : S → Type 0) where
  -- Of what is found, if anything, that part has a property.
  abbrev pub Only : Option A → Type 0
  Only found = (a : A) → found ≡ some a → P (part a)

  module _ {Q : Type 0} (at : View Q → NamespacedName → Option A) (key : NamespacedName)
      (before after : View Q) where
    -- Writing an object whose part has it.
    Only-written :
        (New : NamespacedName → S → Type 0)
        → OldOr part at before after New
        → ((s : S) → New key s → P s)
        → Only (at before key)
        → Only (at after key)
    Only-written New old_or new_part h new e = elim (old_or key new e) [
      | inl (old, there, unchanged) ↦ subst P (sym unchanged) (h old there)
      | inr written ↦ new_part (part new) written
    ]

    -- Writing back an object that was read earlier, with the part that it had.
    Only-updated :
        (meta : A → ObjectMeta) (request : NamespacedName) (earlier : View Q) (a a' : A)
        → at earlier request ≡ some a
        → name_of (meta a') ≡ request
        → part a' ≡ part a
        → OldOr part at before after (λ k s. (name_of (meta a') ≡ k) × (s ≡ part a'))
        → Only (at earlier key)
        → Only (at before key)
        → Only (at after key)
    Only-updated meta request earlier a a' read named same old_or k h =
        Only-written (λ k s. (name_of (meta a') ≡ k) × (s ≡ part a')) old_or
          (λ s w.
            let here : key ≡ request = sym w.0 ∙ named in
            subst P (sym (w.1 ∙ same)) (k a (ap (at earlier) here ∙ read)))
          h

module _ {W EthClient Q : Type 0} (cluster : Cluster W EthClient Q)
    (server : ApiServer cluster) where
  abbrev pub HasSecret : NamespacedName → Secret → View Q → Type 0
  HasSecret key secret v = v.secrets key ≡ some secret

  abbrev pub OnlyNode : NamespacedName → OpNodeSpec Q → View Q → Type 0
  OnlyNode key σ v = Only (λ (o : OpNode Q). o.spec) (λ τ. τ ≡ σ) (v.nodes key)

  abbrev pub OnlyNetwork : NamespacedName → OptimismNetworkSpec Q → View Q → Type 0
  OnlyNetwork key σ v = Only (λ (n : OptimismNetwork Q). n.spec) (λ τ. τ ≡ σ) (v.networks key)

  pub HasSecret-Survives :
      (key : NamespacedName) (secret : Secret) → Survives cluster server (HasSecret key secret)
  HasSecret-Survives key secret = record {
    secret_created = λ s w h. (server.secret_created s w).2 key secret h;
    node_updated =
        λ request w v u o o' read change earlier h. ap (λ f. f key) (server.nodes.2 o' u).0.0 ∙ h;
    node_status =
        λ request w v u o o' read change earlier h. ap (λ f. f key) (server.nodes.3 o' u).0.0 ∙ h;
    network_updated = λ request w v u n n' read change earlier h.
        ap (λ f. f key) (server.networks.2 n' u).0.0 ∙ h;
    network_status = λ request w v u n n' read change earlier h.
        ap (λ f. f key) (server.networks.3 n' u).0.0 ∙ h;
  }

  -- The update of the finalizers is of the object that was read.
  node_finalized :
      (request : NamespacedName) (w v : W) (o o' : OpNode Q)
      → cluster.op_nodes.get request w ≡ (ok o, v)
      → Node.FinalizerChange cluster (λ u. Unit {0}) o o'
      → name_of o'.meta ≡ request
  node_finalized request w v o o' read change =
      let its = (server.nodes.1 request w v o read).1 in
      elim change.2 [
        | inl e ↦ ap name_of e ∙ server.finalizer_added o.meta op_node_finalizer ∙ its
        | inr e ↦ ap name_of e ∙ server.finalizer_removed o.meta op_node_finalizer ∙ its
      ]

  network_finalized :
      (request : NamespacedName) (w v : W) (n n' : OptimismNetwork Q)
      → cluster.networks.get request w ≡ (ok n, v)
      → Network.FinalizerChange cluster n n'
      → name_of n'.meta ≡ request
  network_finalized request w v n n' read change =
      let its = (server.networks.1 request w v n read).1 in
      elim change.2 [
        | inl e ↦ ap name_of e ∙ server.finalizer_added n.meta optimism_network_finalizer ∙ its
        | inr e ↦ ap name_of e ∙ server.finalizer_removed n.meta optimism_network_finalizer ∙ its
      ]

  pub OnlyNode-Survives :
      (key : NamespacedName) (σ : OpNodeSpec Q) → Survives cluster server (OnlyNode key σ)
  OnlyNode-Survives key σ =
      let There = Only (λ (o : OpNode Q). o.spec) (λ τ. τ ≡ σ) in
      record {
        secret_created = λ s w h. subst (λ f. There (f key)) (sym (server.secret_created s w).0) h;
        node_updated = λ request w v u o o' read change earlier h.
            Only-updated (λ (o : OpNode Q). o.spec) (λ τ. τ ≡ σ) (λ u. u.nodes) key (server.view u)
              (server.view (cluster.op_nodes.update o' u).1) (λ o. o.meta) request (server.view v) o
              o' (server.nodes.1 request w v o read).0 (node_finalized request w v o o' read change)
              change.0 (server.nodes.2 o' u).1 earlier h;
        node_status = λ request w v u o o' read change earlier h.
            Only-written (λ (o : OpNode Q). o.spec) (λ τ. τ ≡ σ) (λ u. u.nodes) key (server.view u)
              (server.view (cluster.op_nodes.update_status o' u).1) (λ k s. ⊥)
              (server.nodes.3 o' u).1 (λ s impossible. elim impossible [ ]) h;
        network_updated = λ request w v u n n' read change earlier h.
            subst (λ f. There (f key)) (sym (server.networks.2 n' u).0.1) h;
        network_status = λ request w v u n n' read change earlier h.
            subst (λ f. There (f key)) (sym (server.networks.3 n' u).0.1) h;
      }

  pub OnlyNetwork-Survives :
      (key : NamespacedName) (σ : OptimismNetworkSpec Q)
      → Survives cluster server (OnlyNetwork key σ)
  OnlyNetwork-Survives key σ =
      let There = Only (λ (n : OptimismNetwork Q). n.spec) (λ τ. τ ≡ σ) in
      record {
        secret_created = λ s w h. subst (λ f. There (f key)) (sym (server.secret_created s w).1) h;
        node_updated = λ request w v u o o' read change earlier h.
            subst (λ f. There (f key)) (sym (server.nodes.2 o' u).0.1) h;
        node_status = λ request w v u o o' read change earlier h.
            subst (λ f. There (f key)) (sym (server.nodes.3 o' u).0.1) h;
        network_updated = λ request w v u n n' read change earlier h.
            Only-updated (λ (n : OptimismNetwork Q). n.spec) (λ τ. τ ≡ σ) (λ u. u.networks) key
              (server.view u) (server.view (cluster.networks.update n' u).1) (λ n. n.meta) request
              (server.view v) n n' (server.networks.1 request w v n read).0
              (network_finalized request w v n n' read change) change.0 (server.networks.2 n' u).1
              earlier h;
        network_status = λ request w v u n n' read change earlier h.
            Only-written (λ (n : OptimismNetwork Q). n.spec) (λ τ. τ ≡ σ) (λ u. u.networks) key
              (server.view u) (server.view (cluster.networks.update_status n' u).1) (λ k s. ⊥)
              (server.networks.3 n' u).1 (λ s impossible. elim impossible [ ]) h;
      }

  -- Every OpNode there is has an honest status.
  abbrev pub AllHonest : View Q → Type 0
  AllHonest v = (key : NamespacedName) → Only (λ (o : OpNode Q). o.status) IsHonest (v.nodes key)

  pub AllHonest-Survives : Survives cluster server AllHonest
  AllHonest-Survives =
      let Honest = Only (λ (o : OpNode Q). o.status) IsHonest in
      record {
        secret_created =
            λ s w h key. subst (λ f. Honest (f key)) (sym (server.secret_created s w).0) (h key);
        node_updated = λ request w v u o o' read change earlier h key.
            Only-updated (λ (o : OpNode Q). o.status) IsHonest (λ u. u.nodes) key (server.view u)
              (server.view (cluster.op_nodes.update o' u).1) (λ o. o.meta) request (server.view v) o
              o' (server.nodes.1 request w v o read).0 (node_finalized request w v o o' read change)
              change.1 (server.nodes.2 o' u).2 (earlier key) (h key);
        node_status = λ request w v u o o' read change earlier h key.
            Only-written (λ (o : OpNode Q). o.status) IsHonest (λ u. u.nodes) key (server.view u)
              (server.view (cluster.op_nodes.update_status o' u).1)
              (λ k s. (name_of o'.meta ≡ k) × (s ≡ o'.status)) (server.nodes.3 o' u).2
              (λ s written. subst IsHonest (sym written.1) change.2) (h key);
        network_updated = λ request w v u n n' read change earlier h key.
            subst (λ f. Honest (f key)) (sym (server.networks.2 n' u).0.1) (h key);
        network_status = λ request w v u n n' read change earlier h key.
            subst (λ f. Honest (f key)) (sym (server.networks.3 n' u).0.1) (h key);
      }

  -- Every network there is has an honest status.
  abbrev pub AllReady : View Q → Type 0
  AllReady v =
      (key : NamespacedName)
      → Only (λ (n : OptimismNetwork Q). n.status) NetworkCoherent.IsHonest (v.networks key)

  pub AllReady-Survives : Survives cluster server AllReady
  AllReady-Survives =
      let status = λ (n : OptimismNetwork Q). n.status in
      let Honest = Only status NetworkCoherent.IsHonest in
      record {
        secret_created =
            λ s w h key. subst (λ f. Honest (f key)) (sym (server.secret_created s w).1) (h key);
        node_updated = λ request w v u o o' read change earlier h key.
            subst (λ f. Honest (f key)) (sym (server.nodes.2 o' u).0.1) (h key);
        node_status = λ request w v u o o' read change earlier h key.
            subst (λ f. Honest (f key)) (sym (server.nodes.3 o' u).0.1) (h key);
        network_updated = λ request w v u n n' read change earlier h key.
            Only-updated status NetworkCoherent.IsHonest (λ u. u.networks) key (server.view u)
              (server.view (cluster.networks.update n' u).1) (λ n. n.meta) request (server.view v) n
              n' (server.networks.1 request w v n read).0
              (network_finalized request w v n n' read change) change.1 (server.networks.2 n' u).2
              (earlier key) (h key);
        network_status = λ request w v u n n' read change earlier h key.
            Only-written status NetworkCoherent.IsHonest (λ u. u.networks) key (server.view u)
              (server.view (cluster.networks.update_status n' u).1)
              (λ k s. (name_of n'.meta ≡ k) × (s ≡ n'.status)) (server.networks.3 n' u).2
              (λ s written. subst NetworkCoherent.IsHonest (sym written.1) change.2) (h key);
      }
