-- ===== src/NodeController/Spec.antt =====
-- validateConfiguration of internal/controller/opnode_controller.go.
use op_stack_operator.Prelude.{
  String, ◌≡◌, refl, ◌≢◌, ◌⊎◌, inl, inr, ◌↔◌, Bool, true, false, not, ◌&&◌, ◌||◌, Option, none,
  arith, ltb, if◌then◌else◌, is_empty, str_eq, is_some, and_then, only_if, eq_iff,
}
use op_stack_operator.Text.{has_prefix}
use op_stack_operator.Text.Bytes.{byte_length, byte_length_of_prefix}
use op_stack_operator.Api.Node.{OpNode, StorageConfig, P2pDiscoveryConfig}
use op_stack_operator.Runtime.{Error, Result, ok, err, errorf}
use op_stack_operator.Resources.Config.{enabled_sequencer}

abbrev pub has_http_scheme : String → Bool
has_http_scheme url = has_prefix url "http://" || has_prefix url "https://"

-- The chains of tests, on their outcomes.
sequencer_tests :
    (sequencer discovery url : Bool) (e f g : Error)
    → ((if not sequencer then err e else if discovery then err f else if url then err g else ok tt)
        ≡ ok tt)
      ↔ ((sequencer ≡ true) × (discovery ≡ false) × (url ≡ false))
sequencer_tests sequencer discovery url e f g = ground arith

type_tests :
    (unnamed untyped is_sequencer is_replica : Bool) (sequencer storage : Result (Unit {0}))
    (e f g : Error)
    → ((if unnamed
          then err e
          else if untyped
          then err f
          else if not is_sequencer && not is_replica
          then err g
          else if is_sequencer
          then elim sequencer [ ok _ ↦ storage | err h ↦ err h ]
          else storage)
        ≡ ok tt)
      ↔ ((unnamed ≡ false)
          × (untyped ≡ false)
          × (((is_sequencer ≡ false) × (is_replica ≡ true))
              ⊎ ((is_sequencer ≡ true) × (sequencer ≡ ok tt)))
          × (storage ≡ ok tt))
type_tests true untyped is_sequencer is_replica sequencer storage e f g = ground arith
type_tests false true is_sequencer is_replica sequencer storage e f g = ground arith
type_tests false false true is_replica (ok u) storage e f g = ground arith
type_tests false false true is_replica (err h) storage e f g = ground arith
type_tests false false false true sequencer storage e f g = ground arith
type_tests false false false false sequencer storage e f g = ground arith

url_test :
    (unset short http https : Bool)
    → (http || https ≡ true → short ≡ false)
    → (not unset && (short || (not http && not https)) ≡ false)
      ↔ ((unset ≡ true) ⊎ (http || https ≡ true))
url_test unset short http https h = ground arith

is_some_iff {ℓ} : {A : Type ℓ} (o : Option A) → (is_some o ≡ false) ↔ (o ≡ none)
is_some_iff o = ground arith

storage_test :
    {A : Type 0} (o : Option A) (e : Error)
    → ((if is_some o then err e else ok tt) ≡ ok tt) ↔ (o ≡ none)
storage_test o e = ground arith

module _ {Q : Type 0} (is_zero : Q → Bool) (op_node : OpNode Q) where
  -- P2P != nil && Discovery != nil && Discovery.Enabled
  abbrev pub enabled_discovery : Option P2pDiscoveryConfig
  enabled_discovery =
      only_if (λ d. d.enabled) (and_then op_node.spec.op_node.p2p (λ p. p.discovery))

  -- Storage != nil && Size.IsZero()
  abbrev pub unsized_storage : Option (StorageConfig Q)
  unsized_storage = only_if (λ s. is_zero s.size) op_node.spec.op_geth.storage

  abbrev pub bad_url : Bool
  bad_url =
      not (is_empty op_node.spec.l2_rpc_url)
      && (ltb (byte_length op_node.spec.l2_rpc_url) 7
          || (not (has_prefix op_node.spec.l2_rpc_url "http://")
              && not (has_prefix op_node.spec.l2_rpc_url "https://")))

  unfoldable pub validate_sequencer : Result (Unit {0})
  validate_sequencer =
      if not (is_some (enabled_sequencer op_node))
      then err (errorf "sequencer configuration is required for sequencer nodes")
      else if is_some enabled_discovery
      then err (errorf "sequencer nodes should have P2P discovery disabled for security")
      else if bad_url
      then err (errorf "L2RpcUrl must be a valid HTTP/HTTPS URL")
      else ok tt

  unfoldable pub validate_storage : Result (Unit {0})
  validate_storage =
      if is_some unsized_storage then err (errorf "storage size must be specified") else ok tt

  unfoldable pub validate_configuration : Result (Unit {0})
  unfolding validate_sequencer validate_storage
  validate_configuration =
      if is_empty op_node.spec.optimism_network_ref.name
      then err (errorf "optimismNetworkRef.name is required")
      else if is_empty op_node.spec.node_type
      then err (errorf "nodeType is required")
      else if not (str_eq op_node.spec.node_type "sequencer")
          && not (str_eq op_node.spec.node_type "replica")
      then err (errorf "nodeType must be 'sequencer' or 'replica'")
      else if str_eq op_node.spec.node_type "sequencer"
      then elim validate_sequencer [ ok _ ↦ validate_storage | err e ↦ err e ]
      else validate_storage

  -- What a sequencer must have: it is enabled, its peers are not discovered, and its L2 RPC URL is
  -- empty or has the scheme http or https.
  abbrev pub ValidSequencer : Type 0
  ValidSequencer =
      (is_some (enabled_sequencer op_node) ≡ true)
      × (enabled_discovery ≡ none)
      × ((op_node.spec.l2_rpc_url ≡ "") ⊎ (has_http_scheme op_node.spec.l2_rpc_url ≡ true))

  abbrev pub ValidSpec : Type 0
  ValidSpec =
      (op_node.spec.optimism_network_ref.name ≢ "")
      × ((op_node.spec.node_type ≡ "replica")
          ⊎ ((op_node.spec.node_type ≡ "sequencer") × ValidSequencer))
      × (unsized_storage ≡ none)

  short_of_scheme :
      has_http_scheme op_node.spec.l2_rpc_url ≡ true
      → ltb (byte_length op_node.spec.l2_rpc_url) 7 ≡ false
  unfolding byte_length
  short_of_scheme h = ground (
    arith,
    byte_length_of_prefix op_node.spec.l2_rpc_url "http://",
    byte_length_of_prefix op_node.spec.l2_rpc_url "https://",
  )

  validate_sequencer_iff : (validate_sequencer ≡ ok tt) ↔ ValidSequencer
  unfolding validate_sequencer
  validate_sequencer_iff =
      let tests =
        sequencer_tests (is_some (enabled_sequencer op_node)) (is_some enabled_discovery) bad_url _
          _ _ in
      let url = url_test (is_empty op_node.spec.l2_rpc_url) _ _ _ short_of_scheme in
      let empty = eq_iff op_node.spec.l2_rpc_url "" in
      let discovery = is_some_iff enabled_discovery in
      (
        λ h.
            let (a, b, c) = tests.0 h in
            (a, discovery.0 b, elim (url.0 c) [ inl e ↦ inl (empty.0 e) | inr e ↦ inr e ]),
        λ h.
            tests.1
              (h.0, discovery.1 h.1, url.1 (elim h.2 [ inl e ↦ inl (empty.1 e) | inr e ↦ inr e ])),
      )

  validate_storage_iff : (validate_storage ≡ ok tt) ↔ (unsized_storage ≡ none)
  unfolding validate_storage
  validate_storage_iff = storage_test unsized_storage _

  -- validateConfiguration accepts a specification exactly if it names a network, its node type is
  -- replica, or sequencer with what a sequencer must have, and a storage has a size. Its test of
  -- the URL's length adds nothing to the scheme.
  pub validate_configuration_iff : (validate_configuration ≡ ok tt) ↔ ValidSpec
  unfolding validate_configuration
  validate_configuration_iff =
      let t = op_node.spec.node_type in
      let tests =
        type_tests (is_empty op_node.spec.optimism_network_ref.name) (is_empty t)
          (str_eq t "sequencer") (str_eq t "replica") validate_sequencer validate_storage _ _ _ in
      let named = eq_iff op_node.spec.optimism_network_ref.name "" in
      (
        λ h.
            let (u, _, k, s) = tests.0 h in
            (
              λ e. ground (arith, named, u, e),
              elim k [
                | inl (_, r) ↦ inl ((eq_iff t "replica").0 r)
                | inr (q, v) ↦ inr ((eq_iff t "sequencer").0 q, validate_sequencer_iff.0 v)
              ],
              validate_storage_iff.0 s,
            ),
        λ h.
            let u : is_empty op_node.spec.optimism_network_ref.name ≡ false =
              ground (arith, named, h.0) in
            elim h.1 [
              | inl r ↦
                  tests.1 (u, rw r refl, inl (rw r refl, rw r refl), validate_storage_iff.1 h.2)
              | inr (q, v) ↦ tests.1 (
                u,
                rw q refl,
                inr (rw q refl, validate_sequencer_iff.1 v),
                validate_storage_iff.1 h.2,
              )
            ],
      )
