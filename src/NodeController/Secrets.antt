-- ===== src/NodeController/Secrets.antt =====
-- The secrets of an OpNode: reconcileSecrets, reconcileJWTSecret and reconcileP2PSecret of
-- internal/controller/opnode_controller.go, with generateJWTToken and generateP2PPrivateKey.
use op_stack_operator.Prelude.{
  String, ◌<>◌, Option, List, [], ◌∷◌, if◌then◌else◌, and_then, only_if, is_some,
}
use op_stack_operator.Text.Hex.{encode_to_string}
use op_stack_operator.Api.Meta.{NamespacedName}
use op_stack_operator.Api.Node.{OpNode, SecretKeyRef}
use op_stack_operator.Runtime.{Result, ok, err, is_not_found, Eff, pure, ◌>>=◌, or_return, or_wrap}
use op_stack_operator.Resources.Objects.{Secret}
use op_stack_operator.Resources.Config.{new_meta}
use op_stack_operator.Cluster.{Cluster}

module _ {W EthClient Q : Type 0} (cluster : Cluster W EthClient Q) where
  unfoldable pub generate_jwt_token : Eff W (Result String)
  generate_jwt_token = do
    drawn ← cluster.read_random 32
    or_return drawn λ bytes. pure (ok (encode_to_string bytes))

  unfoldable pub generate_p2p_private_key : Eff W (Result String)
  generate_p2p_private_key = do
    drawn ← cluster.read_random 32
    or_return drawn λ bytes. pure (ok (encode_to_string bytes))

  module _ (op_node : OpNode Q) where
    abbrev pub secret_labels : String → List (String × String)
    secret_labels component =
        ("app.kubernetes.io/name", "opnode")
        ∷ ("app.kubernetes.io/instance", op_node.meta.name)
        ∷ ("app.kubernetes.io/component", component)
        ∷ ("app.kubernetes.io/managed-by", "op-stack-operator")
        ∷ []

    -- The secret of that name, component, key and value.
    abbrev pub new_secret : String → String → String → String → Secret
    new_secret name component key value = record {
      meta = new_meta name op_node.meta.namespace (secret_labels component);
      type = "Opaque";
      contents = (key, value) ∷ [];
    }

    -- SetControllerReference, then Create.
    unfoldable pub create_owned_secret : Secret → Eff W (Result (Unit {0}))
    create_owned_secret secret =
        or_return (cluster.set_controller_reference "OpNode" op_node.meta secret.meta)
          λ meta. cluster.secrets.create (record secret { meta = meta })

    unfoldable pub create_jwt_secret : Eff W (Result (Unit {0}))
    unfolding generate_jwt_token create_owned_secret
    create_jwt_secret = do
      generated ← generate_jwt_token
      or_wrap "failed to generate JWT token: " generated λ token.
          create_owned_secret (new_secret (op_node.meta.name <> "-jwt") "jwt-secret" "jwt" token)

    unfoldable pub create_p2p_secret : Eff W (Result (Unit {0}))
    unfolding generate_p2p_private_key create_owned_secret
    create_p2p_secret = do
      generated ← generate_p2p_private_key
      or_wrap "failed to generate P2P private key: " generated λ private_key.
          create_owned_secret
            (new_secret (op_node.meta.name <> "-p2p") "p2p-secret" "private-key" private_key)

    -- The branches on the outcome of Get.
    unfoldable pub unless_found :
        {A : Type 0} → Result A → Eff W (Result (Unit {0})) → Eff W (Result (Unit {0}))
    unless_found (ok _) create = pure (ok tt)
    unless_found (err e) create = if is_not_found e then create else pure (err e)

    abbrev pub secret_key : String → NamespacedName
    secret_key suffix = record {
      name = op_node.meta.name <> suffix;
      namespace = op_node.meta.namespace;
    }

    unfoldable pub reconcile_jwt_secret : Eff W (Result (Unit {0}))
    unfolding create_jwt_secret unless_found
    reconcile_jwt_secret = do
      found ← cluster.secrets.get (secret_key "-jwt")
      unless_found found create_jwt_secret

    unfoldable pub reconcile_p2p_secret : Eff W (Result (Unit {0}))
    unfolding create_p2p_secret unless_found
    reconcile_p2p_secret = do
      found ← cluster.secrets.get (secret_key "-p2p")
      unless_found found create_p2p_secret

    -- P2P != nil && PrivateKey != nil && PrivateKey.Generate
    abbrev pub generated_p2p_key : Option SecretKeyRef
    generated_p2p_key =
        only_if (λ k. k.generate) (and_then op_node.spec.op_node.p2p (λ p. p.private_key))

    unfoldable pub reconcile_secrets : Eff W (Result (Unit {0}))
    unfolding reconcile_jwt_secret reconcile_p2p_secret
    reconcile_secrets = do
      jwt ← reconcile_jwt_secret
      or_wrap "failed to reconcile JWT secret: " jwt λ _.
          if is_some generated_p2p_key
          then (do
            p2p ← reconcile_p2p_secret
            or_wrap "failed to reconcile P2P secret: " p2p λ _. pure (ok tt))
          else pure (ok tt)
