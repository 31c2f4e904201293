-- ===== src/Resources/Mounts.antt =====
-- The pod is wired up: its mounts are of volumes that it has, and a P2P key reaches op-node.
use mathlib.Core.List.Memᴰ
use op_stack_operator.Prelude.{
  String, ◌≡◌, refl, ◌⊎◌, inl, inr, Bool, true, Option, none, some, List, [], ◌∷◌, map, Memᴰ, arith,
  All, on_some,
}
use op_stack_operator.Api.Network.{OptimismNetwork}
use op_stack_operator.Api.Node.{OpNode, SecretKeyRef, P2pConfig}
use op_stack_operator.Resources.Objects.{
  VolumeMount, Volume, VolumeSource, secret, Container, StatefulSet,
}
use op_stack_operator.Resources.Config.{p2p_key, usable_key, enabled_p2p}
use op_stack_operator.Resources.Args.{behind4, op_node_args, p2p_args}
use op_stack_operator.Resources.Pod.{
  mount, create_op_geth_container, create_op_node_container, create_volumes, p2p_secret_name,
}
use op_stack_operator.Resources.StatefulSet.{create_op_node_stateful_set}

-- A mount of a container is of a volume of the pod or of a claim template of the set.
abbrev pub Resolves : {Q : Type 0} → StatefulSet Q → VolumeMount → Type 0
Resolves set mount =
    Memᴰ mount.name (map (λ v. v.name) set.spec.template.volumes)
    ⊎ Memᴰ mount.name (map (λ c. c.name) set.spec.volume_claim_templates)

p2p_mount-Resolves :
    (key : Option SecretKeyRef) (jwt rollup : String) (source : SecretKeyRef → VolumeSource)
    (claims : List String)
    → All
        (λ m.
          Memᴰ m.name (
            jwt
            ∷ rollup
            ∷ map
                (λ (v : Volume). v.name)
                (on_some key [] (λ k. record { name = "p2p-key"; source = source k } ∷ [])))
          ⊎ Memᴰ m.name claims)
        (on_some key [] (λ _. mount "p2p-key" "/secrets/p2p" true ∷ []))
p2p_mount-Resolves none jwt rollup source claims = tt
p2p_mount-Resolves (some key) jwt rollup source claims =
    (inl (Memᴰ.tail (Memᴰ.tail (Memᴰ.head refl))), tt)

module _ {Q : Type 0} (is_zero : Q → Bool) (must_parse : String → Q) (op_node : OpNode Q)
    (network : OptimismNetwork Q) where
  -- Every volume mount of every container names a volume of the pod or a claim template.
  pub create_op_node_stateful_set-Resolves :
      let set = create_op_node_stateful_set is_zero must_parse op_node network in
      All (λ (c : Container Q). All (Resolves set) c.volume_mounts) set.spec.template.containers
  unfolding create_op_node_stateful_set create_volumes create_op_geth_container
      create_op_node_container
  create_op_node_stateful_set-Resolves = (
    (inr (Memᴰ.head refl), (inl (Memᴰ.head refl), (inl (Memᴰ.tail (Memᴰ.head refl)), tt))),
    (
      (
        inl (Memᴰ.head refl),
        (inl (Memᴰ.tail (Memᴰ.head refl)), p2p_mount-Resolves (p2p_key op_node) _ _ _ _),
      ),
      tt,
    ),
  )

  key_of_enabled :
      {config : P2pConfig} → enabled_p2p op_node ≡ some config → p2p_key op_node ≡ usable_key config
  key_of_enabled h = ground arith

  -- A P2P key that is generated or referenced is wired through where P2P is enabled: op-node is
  -- told its path, mounts the volume there, and the volume is of the secret that the key names.
  pub p2p_key_wired :
      (config : P2pConfig) (key : SecretKeyRef)
      → enabled_p2p op_node ≡ some config
      → usable_key config ≡ some key
      → Memᴰ "--p2p.priv.path=/secrets/p2p/private-key" (op_node_args op_node network)
        × Memᴰ
            (mount "p2p-key" "/secrets/p2p" true)
            (create_op_node_container must_parse op_node network).volume_mounts
        × Memᴰ
            (record { name = "p2p-key"; source = secret (p2p_secret_name op_node key) })
            (create_volumes op_node network)
  unfolding create_op_node_container create_volumes op_node_args p2p_args
  p2p_key_wired config key p k =
      let told : String = "--p2p.priv.path=/secrets/p2p/private-key" in
      let path : Memᴰ told (on_some (usable_key config) [] (λ _. told ∷ [])) =
        rw k (Memᴰ.head refl) in
      let args : Memᴰ told (on_some (enabled_p2p op_node) [] p2p_args) =
        rw p (Memᴰ.tail (Memᴰ.append_right _ (Memᴰ.append_right _ path))) in
      (
        behind4 (Memᴰ.append_right _ (Memᴰ.append_right _ (Memᴰ.append_left _ args))),
        Memᴰ.tail (Memᴰ.tail (rw (key_of_enabled p, k) (Memᴰ.head refl))),
        Memᴰ.tail (Memᴰ.tail (rw (key_of_enabled p, k) (Memᴰ.head refl))),
      )
