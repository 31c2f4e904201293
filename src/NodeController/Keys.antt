-- ===== src/NodeController/Keys.antt =====
-- The secrets of an OpNode, over several components: what internal/controller/opnode_controller.go
-- creates is what pkg/resources/statefulset.go mounts.

use op_stack_operator.Prelude.{
  ℕ, ◌<◌, String, ◌<>◌, ◌≡◌, refl, true, some, List, Memᴰ, All, length, arith,
}
use op_stack_operator.Prelude.Assoc.{lookup}
use op_stack_operator.Text.Bytes.{byte_length}
use op_stack_operator.Text.Hex.{
  encode_to_string, read_hex, read_hex-encode_to_string, byte_length-encode_to_string,
}
use op_stack_operator.Api.Meta.{ObjectMeta}
use op_stack_operator.Api.Network.{OptimismNetwork}
use op_stack_operator.Api.Node.{OpNode, SecretKeyRef}
use op_stack_operator.Runtime.{Error, ok, err, is_not_found}
use op_stack_operator.Resources.Objects.{Secret, secret}
use op_stack_operator.Resources.Pod.{create_volumes, p2p_secret_name}
use op_stack_operator.Resources.Config.{p2p_key}
use op_stack_operator.Cluster.{Cluster}
use op_stack_operator.NodeController.Secrets.{
  reconcile_jwt_secret, create_jwt_secret, generate_jwt_token, create_owned_secret, unless_found,
  create_p2p_secret, generate_p2p_private_key, new_secret, secret_key, reconcile_p2p_secret,
}

module _ {W EthClient Q : Type 0} (cluster : Cluster W EthClient Q) (op_node : OpNode Q) where
  -- The run from `w` is the creation, in `u`, of a secret with that metadata, whose key jwt holds
  -- 64 hexadecimal digits for the bytes, and which the pod mounts.
  abbrev pub CreatesJwt : OptimismNetwork Q → List ℕ → ObjectMeta → W → W → Type 0
  CreatesJwt network bytes meta w u =
      (s : Secret) × (token : String) × (reconcile_jwt_secret cluster op_node w
        ≡ cluster.secrets.create s u)
      × (s.meta ≡ meta)
      × (lookup "jwt" s.contents ≡ some token)
      × (read_hex token ≡ bytes)
      × (byte_length token ≡ 64)
      × Memᴰ (record { name = "jwt-secret"; source = secret s.meta.name })
          (create_volumes op_node network)

  -- Where the look-up finds no JWT secret under the OpNode's name with -jwt, 32 random bytes are
  -- drawn, and SetControllerReference succeeds and keeps the secret's name, the run ends with the
  -- creation of a secret with the metadata that SetControllerReference gave, whose value under the
  -- key jwt is 64 bytes of hexadecimal digits that stand for the bytes drawn; it has the name of the
  -- secret that the pod mounts. This is so whatever engine.jwtSecret says: where its secretRef names
  -- an existing secret, which by SPEC.md is then the one in use, the new secret is created and
  -- mounted all the same.
  pub reconcile_jwt_secret-created :
      (network : OptimismNetwork Q) (e : Error) (bytes : List ℕ) (meta : ObjectMeta) (w v u : W)
      → cluster.secrets.get (secret_key cluster op_node "-jwt") w ≡ (err e, v)
      → is_not_found e ≡ true
      → cluster.read_random 32 v ≡ (ok bytes, u)
      → All (λ b. b < 256) bytes
      → length bytes ≡ 32
      → cluster.set_controller_reference "OpNode" op_node.meta
          (new_secret cluster op_node (op_node.meta.name <> "-jwt") "jwt-secret" "jwt" "").meta
        ≡ ok meta
      → meta.name ≡ op_node.meta.name <> "-jwt"
      → CreatesJwt network bytes meta w u
  unfolding reconcile_jwt_secret unless_found create_jwt_secret generate_jwt_token
      create_owned_secret lookup create_volumes
  reconcile_jwt_secret-created network e bytes meta w v u h n r a l m named =
      let token = encode_to_string bytes in
      let s : Secret =
        record (new_secret cluster op_node (op_node.meta.name <> "-jwt") "jwt-secret" "jwt" token) {
          meta = meta;
        } in
      (
        s,
        token,
        rw (h, n, r, m) refl,
        refl,
        refl,
        read_hex-encode_to_string bytes a,
        omega (arith, byte_length-encode_to_string bytes, l),
        rw named (Memᴰ.head refl),
      )

  -- The run from `w` is the creation, in `u`, of a secret with that metadata, whose private-key
  -- holds 64 hexadecimal digits for the bytes, and which the pod mounts for op-node.
  abbrev pub CreatesP2p : OptimismNetwork Q → List ℕ → ObjectMeta → W → W → Type 0
  CreatesP2p network bytes meta w u =
      (s : Secret) × (private_key : String) × (reconcile_p2p_secret cluster op_node w
        ≡ cluster.secrets.create s u)
      × (s.meta ≡ meta)
      × (lookup "private-key" s.contents ≡ some private_key)
      × (read_hex private_key ≡ bytes)
      × (byte_length private_key ≡ 64)
      × Memᴰ (record { name = "p2p-key"; source = secret s.meta.name })
          (create_volumes op_node network)

  -- For a P2P key that is to be generated: where the look-up finds no secret for it, 32 random
  -- bytes are drawn, and SetControllerReference succeeds and keeps the secret's name, the run ends
  -- with the creation of a secret whose value under private-key is 64 bytes of hexadecimal digits
  -- that stand for the bytes drawn; it has the name of the secret that the pod mounts as the key.
  pub reconcile_p2p_secret-created :
      (network : OptimismNetwork Q) (key : SecretKeyRef) (e : Error) (bytes : List ℕ)
      (meta : ObjectMeta) (w v u : W)
      → p2p_key op_node ≡ some key
      → key.generate ≡ true
      → cluster.secrets.get (secret_key cluster op_node "-p2p") w ≡ (err e, v)
      → is_not_found e ≡ true
      → cluster.read_random 32 v ≡ (ok bytes, u)
      → All (λ b. b < 256) bytes
      → length bytes ≡ 32
      → cluster.set_controller_reference "OpNode" op_node.meta
          (new_secret cluster op_node
            (op_node.meta.name <> "-p2p")
            "p2p-secret"
            "private-key"
            "").meta
        ≡ ok meta
      → meta.name ≡ op_node.meta.name <> "-p2p"
      → CreatesP2p network bytes meta w u
  unfolding reconcile_p2p_secret unless_found create_p2p_secret generate_p2p_private_key
      create_owned_secret lookup create_volumes p2p_secret_name
  reconcile_p2p_secret-created network key e bytes meta w v u k g h n r a l m named =
      let private_key = encode_to_string bytes in
      let name = op_node.meta.name <> "-p2p" in
      let s : Secret =
        record (new_secret cluster op_node name "p2p-secret" "private-key" private_key) {
          meta = meta;
        } in
      (
        s,
        private_key,
        rw (h, n, r, m) refl,
        refl,
        refl,
        read_hex-encode_to_string bytes a,
        omega (arith, byte_length-encode_to_string bytes, l),
        rw (named, k, g) (Memᴰ.tail (Memᴰ.tail (Memᴰ.head refl))),
      )
