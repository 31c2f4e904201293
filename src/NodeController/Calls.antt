-- ===== src/NodeController/Calls.antt =====
-- The secrets, the StatefulSet and the Service of internal/controller/opnode_controller.go: their
-- reconciliation does nothing but the calls of the footprint.
use op_stack_operator.Prelude.{◌≡◌, refl, String, ◌<>◌, is_some}
use op_stack_operator.Api.Meta.{ObjectMeta}
use op_stack_operator.Api.Network.{OptimismNetwork}
use op_stack_operator.Api.Node.{OpNode}
use op_stack_operator.Runtime.{Result, ok, err, is_not_found, pure, Eff, or_return}
use op_stack_operator.Resources.Objects.{Secret, StatefulSet, Service}
use op_stack_operator.Resources.StatefulSet.{create_op_node_stateful_set}
use op_stack_operator.Resources.Service.{create_op_node_service}
use op_stack_operator.Cluster.{Client, Cluster, Keeps}
use op_stack_operator.Cluster.Keeps.{Owned, Keeps-or_return, Keeps-or_wrap, Keeps-if}
use op_stack_operator.NodeController.Secrets.{
  generate_jwt_token, generate_p2p_private_key, create_owned_secret, new_secret, create_jwt_secret,
  create_p2p_secret, unless_found, reconcile_jwt_secret, reconcile_p2p_secret, reconcile_secrets,
  secret_key, generated_p2p_key,
}
use op_stack_operator.NodeController.Objects.{
  create_or_update, write_found, node_key, updated_stateful_set, updated_service,
  reconcile_stateful_set, reconcile_service,
}
use op_stack_operator.NodeController.Footprint.{NodeFootprint, OwnedWrites, SecretWrites}

module _ {W EthClient Q : Type 0} (cluster : Cluster W EthClient Q) (I : W → Type 0) where
  write_found-Keeps :
      {A : Type 0} (client : Client W A) (desired : A) (updated : A → A) (run : Result A × W)
      → I run.1
      → Keeps I (client.create desired)
      → ((a : A) (v : W) → run ≡ (ok a, v) → I v → I (client.update (updated a) v).1)
      → I (write_found client desired updated run.0 run.1).1
  unfolding write_found
  write_found-Keeps client desired updated (ok a, v) h create update = update a v refl h
  write_found-Keeps client desired updated (err e, v) h create update =
      Keeps-if I (is_not_found e) (client.create desired) (pure (err e)) v (create v h) h

  module _ (Node : ObjectMeta → Type 0) (calls : NodeFootprint cluster I Node) where
    module _ (o : OpNode Q) (known : Node o.meta) where
      unless_found-Keeps :
          (found : Result Secret) (create : Eff W (Result (Unit {0})))
          → Keeps I create
          → Keeps I (unless_found cluster o found create)
      unfolding unless_found
      unless_found-Keeps (ok _) create keeps w h = h
      unless_found-Keeps (err e) create keeps w h =
          Keeps-if I (is_not_found e) create (pure (err e)) w (keeps w h) h

      -- SetControllerReference, then Create, for a secret of the node.
      create_owned_secret-Keeps :
          (secret : Secret) (suffix : String)
          → SecretWrites cluster I suffix o.meta
          → secret.meta.name ≡ o.meta.name <> suffix
          → secret.meta.namespace ≡ o.meta.namespace
          → (r : Result ObjectMeta)
          → cluster.set_controller_reference "OpNode" o.meta secret.meta ≡ r
          → (w : W) → I w
          → I (or_return r (λ meta. cluster.secrets.create (record secret { meta = meta })) w).1
      create_owned_secret-Keeps secret suffix writes n m (ok meta) e w h =
          writes.1 (record secret { meta = meta }) (secret.meta, n, m, e) w h
      create_owned_secret-Keeps secret suffix writes n m (err e) _ w h = h

      generate_jwt_token-Keeps : Keeps I (generate_jwt_token cluster)
      unfolding generate_jwt_token
      generate_jwt_token-Keeps w h =
          let (drawn, v) = cluster.read_random 32 w in
          Keeps-or_return I drawn _ v (calls.random 32 w h) (λ _ u k. k)

      create_jwt_secret-Keeps : Keeps I (create_jwt_secret cluster o)
      unfolding create_jwt_secret create_owned_secret
      create_jwt_secret-Keeps w h =
          let (generated, v) = generate_jwt_token cluster w in
          Keeps-or_wrap I _ generated _ v (generate_jwt_token-Keeps w h) (λ token.
            create_owned_secret-Keeps
              (new_secret cluster o (o.meta.name <> "-jwt") "jwt-secret" "jwt" token) "-jwt"
              (calls.jwt_secrets o.meta known) refl refl _ refl)

      generate_p2p_private_key-Keeps : Keeps I (generate_p2p_private_key cluster)
      unfolding generate_p2p_private_key
      generate_p2p_private_key-Keeps w h =
          let (drawn, v) = cluster.read_random 32 w in
          Keeps-or_return I drawn _ v (calls.random 32 w h) (λ _ u k. k)

      create_p2p_secret-Keeps : Keeps I (create_p2p_secret cluster o)
      unfolding create_p2p_secret create_owned_secret
      create_p2p_secret-Keeps w h =
          let (generated, v) = generate_p2p_private_key cluster w in
          Keeps-or_wrap I _ generated _ v (generate_p2p_private_key-Keeps w h) (λ token.
            create_owned_secret-Keeps
              (new_secret cluster o (o.meta.name <> "-p2p") "p2p-secret" "private-key" token) "-p2p"
              (calls.p2p_secrets o.meta known) refl refl _ refl)

      reconcile_jwt_secret-Keeps : Keeps I (reconcile_jwt_secret cluster o)
      unfolding reconcile_jwt_secret
      reconcile_jwt_secret-Keeps w h =
          let (found, v) = cluster.secrets.get (secret_key cluster o "-jwt") w in
          unless_found-Keeps found (create_jwt_secret cluster o) create_jwt_secret-Keeps v
            ((calls.jwt_secrets o.meta known).0 w h)

      reconcile_p2p_secret-Keeps : Keeps I (reconcile_p2p_secret cluster o)
      unfolding reconcile_p2p_secret
      reconcile_p2p_secret-Keeps w h =
          let (found, v) = cluster.secrets.get (secret_key cluster o "-p2p") w in
          unless_found-Keeps found (create_p2p_secret cluster o) create_p2p_secret-Keeps v
            ((calls.p2p_secrets o.meta known).0 w h)

      pub reconcile_secrets-Keeps : Keeps I (reconcile_secrets cluster o)
      unfolding reconcile_secrets
      reconcile_secrets-Keeps w h =
          let (jwt, v) = reconcile_jwt_secret cluster o w in
          Keeps-or_wrap I _ jwt _ v (reconcile_jwt_secret-Keeps w h) λ _ u k.
            let (p2p, x) = reconcile_p2p_secret cluster o u in
            Keeps-if I (is_some (generated_p2p_key cluster o)) _ (pure (ok tt)) u
              (Keeps-or_wrap I _ p2p _ x (reconcile_p2p_secret-Keeps u k) (λ _ y j. j)) k

      create_or_update-Keeps :
          {A : Type 0} (meta : A → ObjectMeta) (client : Client W A) (Change : A → A → Type 0)
          (desired : A) (updated : A → A)
          → OwnedWrites cluster I meta client Change o.meta
          → Owned cluster "OpNode" o.meta o.meta.name (meta desired)
          → ((a : A) → Change a (updated a))
          → Keeps I (create_or_update client (node_key o) desired updated)
      unfolding create_or_update
      create_or_update-Keeps meta client Change desired updated writes owned changed w h =
          write_found-Keeps client desired updated (client.get (node_key o) w) (writes.0 w h)
            (writes.1 desired owned) (λ a v e k. writes.2 w v a (updated a) e (changed a) k)

      module _ (network : OptimismNetwork Q) where
        owned_set-Keeps :
            (desired : StatefulSet Q) (r : Result ObjectMeta)
            → desired.meta.name ≡ o.meta.name
            → desired.meta.namespace ≡ o.meta.namespace
            → cluster.set_controller_reference "OpNode" o.meta desired.meta ≡ r
            → (w : W) → I w
            → I
                (or_return r
                  (λ meta.
                    let owned : StatefulSet Q = record desired { meta = meta } in
                    create_or_update cluster.stateful_sets
                      (node_key o)
                      owned
                      (updated_stateful_set owned))
                  w).1
        owned_set-Keeps desired (ok meta) n m e w h =
            let owned : StatefulSet Q = record desired { meta = meta } in
            create_or_update-Keeps (λ (s : StatefulSet Q). s.meta) cluster.stateful_sets _ owned
              (updated_stateful_set owned) (calls.sets o.meta known) (desired.meta, n, m, e)
              (λ s. (owned, refl)) w h
        owned_set-Keeps desired (err _) n m e w h = h

        pub reconcile_stateful_set-Keeps : Keeps I (reconcile_stateful_set cluster o network)
        unfolding reconcile_stateful_set create_op_node_stateful_set
        reconcile_stateful_set-Keeps w h =
            owned_set-Keeps
              (create_op_node_stateful_set cluster.is_zero cluster.must_parse o network) _ refl refl
              refl w h

        owned_service-Keeps :
            (desired : Service) (r : Result ObjectMeta)
            → desired.meta.name ≡ o.meta.name
            → desired.meta.namespace ≡ o.meta.namespace
            → cluster.set_controller_reference "OpNode" o.meta desired.meta ≡ r
            → (w : W) → I w
            → I
                (or_return r
                  (λ meta.
                    let owned : Service = record desired { meta = meta } in
                    create_or_update cluster.services (node_key o) owned (updated_service owned))
                  w).1
        owned_service-Keeps desired (ok meta) n m e w h =
            let owned : Service = record desired { meta = meta } in
            create_or_update-Keeps (λ (s : Service). s.meta) cluster.services _ owned
              (updated_service owned) (calls.its_services o.meta known) (desired.meta, n, m, e)
              (λ s. (owned, refl)) w h
        owned_service-Keeps desired (err _) n m e w h = h

        pub reconcile_service-Keeps : Keeps I (reconcile_service cluster o network)
        unfolding reconcile_service create_op_node_service
        reconcile_service-Keeps w h =
            owned_service-Keeps (create_op_node_service o network) _ refl refl refl w h
