-- ===== src/Resources/Ports.antt =====
-- The ports of the Service, the listeners of the containers and the probes.
use mathlib.Core.List.Memᴰ
use op_stack_operator.Prelude.{
  ◌⊎◌, sym, ◌∙◌, Bool-cases, is_empty, if◌then◌else◌, String, ◌<>◌, ◌≡◌, refl, ◌≢◌, Bool, false,
  Option, none, some, List, [], ◌∷◌, ◌++◌, arith, All, Memᴰ, on_some, str_eq, eq_iff, Option-cases,
  inl, inr, ap,
}
use op_stack_operator.Prelude.Int.{ℤ, pos, ==ℤ_iff}
use op_stack_operator.Text.{format_int}
use op_stack_operator.Api.Meta.{ObjectMeta}
use op_stack_operator.Api.Network.{OptimismNetwork}
use op_stack_operator.Api.Node.{OpNode, HttpConfig, SequencerReference}
use op_stack_operator.Resources.Objects.{ServicePort}
use op_stack_operator.Resources.Config.{
  enabled_http, enabled_sequencer, get_default_int32, get_op_geth_http_port,
}
use op_stack_operator.Resources.Endpoint.{http_url, get_sequencer_endpoint, sequencer_service_name}
use op_stack_operator.Resources.Args.{behind4, op_geth_args, http_args}
use op_stack_operator.Resources.Pod.{create_op_geth_container}
use op_stack_operator.Resources.StatefulSet.{create_op_node_stateful_set}
use op_stack_operator.Resources.Service.{
  tcp_port, port_if, custom_ports, build_default_service_ports, build_service_ports,
  create_op_node_service,
}

-- No name is used twice, which Kubernetes asks of the ports of a Service.
abbrev pub DistinctNames : List ServicePort → Type 0
DistinctNames [] = Unit
DistinctNames (p ∷ ps) = All (λ (q : ServicePort). q.name ≢ p.name) ps × DistinctNames ps

ne_of_str_eq : (s t : String) → str_eq s t ≡ false → s ≢ t
ne_of_str_eq s t h = ground (arith, eq_iff s t)

module _ {A : Type 0} (name : String) (config : Option A) (port : A → ℤ) (default_port : ℤ)
    (rest : List ServicePort) where
  -- One more port, if it is configured, in front of ports with other names.
  All-port_if :
      (other : String)
      → str_eq name other ≡ false
      → All (λ (q : ServicePort). q.name ≢ other) rest
      → All (λ (q : ServicePort). q.name ≢ other) (port_if name config port default_port ++ rest)
  unfolding port_if
  All-port_if other h r = elim (Option-cases config) [
    | inl e ↦ rw e r
    | inr (c, e) ↦ rw e (ne_of_str_eq name other h, r)
  ]

  DistinctNames-port_if :
      All (λ (q : ServicePort). q.name ≢ name) rest
      → DistinctNames rest
      → DistinctNames (port_if name config port default_port ++ rest)
  unfolding port_if
  DistinctNames-port_if n r = elim (Option-cases config) [
    | inl e ↦ rw e r
    | inr (c, e) ↦ rw e (n, r)
  ]

  All-port_if_ne-zero :
      default_port ≢ pos 0
      → All (λ (q : ServicePort). q.port ≢ pos 0) rest
      → All (λ (q : ServicePort). q.port ≢ pos 0) (port_if name config port default_port ++ rest)
  unfolding port_if get_default_int32
  All-port_if_ne-zero d r = elim (Option-cases config) [
    | inl e ↦ rw e r
    | inr (c, e) ↦ rw e (ground (arith, ==ℤ_iff (port c) (pos 0)), r)
  ]

-- Names other than those of the last ports.
fresh :
    (name : String)
    → str_eq "metrics" name ≡ false
    → All (λ (q : ServicePort). q.name ≢ name) (tcp_port "metrics" (pos 7300) ∷ [])
fresh name m = (ne_of_str_eq "metrics" name m, tt)

module _ {Q : Type 0} (op_node : OpNode Q) where
  -- The default ports of the Service have distinct names and numbers other than 0, whatever the
  -- specification configures.
  pub build_default_service_ports-DistinctNames :
      DistinctNames (build_default_service_ports op_node)
      × All (λ (p : ServicePort). p.port ≢ pos 0) (build_default_service_ports op_node)
  unfolding build_default_service_ports
  build_default_service_ports-DistinctNames = (
    DistinctNames-port_if _ _ _ _ _
        (All-port_if _ _ _ _ _ _ refl (
          All-port_if _ _ _ _ _ _ refl
            (All-port_if _ _ _ _ _ _ refl (All-port_if _ _ _ _ _ _ refl (fresh "geth-http" refl)))))
        (DistinctNames-port_if _ _ _ _ _
          (All-port_if _ _ _ _ _ _ refl
            (All-port_if _ _ _ _ _ _ refl (All-port_if _ _ _ _ _ _ refl (fresh "geth-ws" refl))))
          (DistinctNames-port_if _ _ _ _ _
            (All-port_if _ _ _ _ _ _ refl (All-port_if _ _ _ _ _ _ refl (fresh "geth-p2p" refl)))
            (DistinctNames-port_if _ _ _ _ _ (All-port_if _ _ _ _ _ _ refl (fresh "node-rpc" refl))
              (DistinctNames-port_if _ _ _ _ _ (fresh "node-p2p" refl) (tt, tt))))),
    All-port_if_ne-zero _ _ _ _ _ (ground arith) (
        All-port_if_ne-zero _ _ _ _ _ (ground arith) (
          All-port_if_ne-zero _ _ _ _ _ (ground arith) (
            All-port_if_ne-zero _ _ _ _ _ (ground arith)
              (All-port_if_ne-zero _ _ _ _ _ (ground arith) (ground arith, tt))))),
  )

  http_port_of_enabled :
      {config : HttpConfig}
      → enabled_http op_node ≡ some config
      → get_op_geth_http_port op_node ≡ get_default_int32 config.port (pos 8545)
  unfolding get_op_geth_http_port
  http_port_of_enabled h = ground arith

  -- Where op-geth's HTTP server is enabled and the specification gives no ports, the Service's
  -- geth-http port, its target, and the port that op-geth is told to listen on are the same.
  pub http_ports_agree :
      (network : OptimismNetwork Q) (config : HttpConfig)
      → enabled_http op_node ≡ some config
      → custom_ports op_node ≡ none
      → let port = get_op_geth_http_port op_node in
        Memᴰ (tcp_port "geth-http" port) (create_op_node_service op_node network).spec.ports
        × Memᴰ ("--http.port=" <> format_int port) (op_geth_args op_node network)
  unfolding create_op_node_service build_service_ports port_if op_geth_args http_args
  http_ports_agree network config e c =
      let port = http_port_of_enabled e in
      let listens : Memᴰ ("--http.port=" <> format_int (get_op_geth_http_port op_node))
          (on_some (enabled_http op_node) [] http_args) =
        rw (e, port) (Memᴰ.tail (Memᴰ.tail (Memᴰ.head refl))) in
      (rw (c, e) (Memᴰ.head (ap (tcp_port "geth-http") port)), behind4 (Memᴰ.append_left _ listens))

  -- The Service selects the pods of the StatefulSet, and is the one that the set names.
  pub create_op_node_service-selects :
      (is_zero : Q → Bool) (must_parse : String → Q) (network : OptimismNetwork Q)
      → let service = create_op_node_service op_node network in
        let set = create_op_node_stateful_set is_zero must_parse op_node network in
        (service.spec.selector ≡ set.spec.template.labels)
        × (set.spec.match_labels ≡ set.spec.template.labels)
        × (service.meta.name ≡ set.spec.service_name)
        × (service.meta.namespace ≡ set.meta.namespace)
  unfolding create_op_node_service create_op_node_stateful_set
  create_op_node_service-selects is_zero must_parse network = (refl, refl, refl, refl)

  -- An HTTP port other than 8545 is not the port of op-geth's liveness and readiness probes.
  pub probe_misses_configured_port :
      (must_parse : String → Q) (network : OptimismNetwork Q)
      → get_op_geth_http_port op_node ≢ pos 8545
      → let container = create_op_geth_container must_parse op_node network in
        (container.liveness_probe.port ≢ get_op_geth_http_port op_node)
        × (container.readiness_probe.port ≢ get_op_geth_http_port op_node)
  unfolding create_op_geth_container
  probe_misses_configured_port must_parse network h = ground arith

-- In a pod of that namespace the host is the name of the Service: its name in the same namespace, or
-- its name in the domain of the cluster.
abbrev pub NamesService : String → String → ObjectMeta → Type 0
NamesService own_namespace host service =
    ((host ≡ service.name) × (service.namespace ≡ own_namespace))
    ⊎ (host ≡ service.name <> "." <> service.namespace <> ".svc.cluster.local")

-- The namespace that a reference means, in an object of that namespace.
abbrev pub meant_namespace : String → SequencerReference → String
meant_namespace own_namespace ref = if is_empty ref.namespace then own_namespace else ref.namespace

sequencer_service_name-NamesService :
    (own_namespace : String) (ref : SequencerReference) (service : ObjectMeta)
    → service.name ≡ ref.name
    → service.namespace ≡ meant_namespace own_namespace ref
    → NamesService own_namespace (sequencer_service_name own_namespace ref) service
unfolding sequencer_service_name
sequencer_service_name-NamesService own_namespace ref service n m =
    elim (Bool-cases (is_empty ref.namespace)) [
      | inl e ↦ let here = rw e at m in inl (rw e (sym n), here)
      | inr e ↦
          let there = rw e at m in
          elim (Bool-cases (str_eq ref.namespace own_namespace)) [
            | inl same ↦
                inl (rw (e, same) (sym n), there ∙ (eq_iff ref.namespace own_namespace).0 same)
            | inr other ↦ inr (rw (e, other, n, there) refl)
          ]
    ]

module _ {Q : Type 0} (replica sequencer : OpNode Q) where
  -- A replica that does not run a sequencer itself and has no external URL, with a reference to a
  -- sequencer, in the replica's namespace if the reference names none, asks the sequencer's Service at
  -- a port that the Service has, if the sequencer serves HTTP at 8545 by the default ports: in the
  -- replica's namespace, the host asked is the name of that Service, also across namespaces.
  pub get_sequencer_endpoint-reaches :
      (network : OptimismNetwork Q) (ref : SequencerReference) (config : HttpConfig)
      → enabled_sequencer replica ≡ none
      → replica.spec.l2_rpc_url ≡ ""
      → replica.spec.sequencer_ref ≡ some ref
      → sequencer.meta.name ≡ ref.name
      → sequencer.meta.namespace ≡ meant_namespace replica.meta.namespace ref
      → enabled_http sequencer ≡ some config
      → custom_ports sequencer ≡ none
      → get_op_geth_http_port sequencer ≡ pos 8545
      → let service = create_op_node_service sequencer network in
        (host : String) × (get_sequencer_endpoint replica network ≡ http_url host (pos 8545))
        × NamesService replica.meta.namespace host service.meta
        × Memᴰ (tcp_port "geth-http" (pos 8545)) service.spec.ports
  unfolding get_sequencer_endpoint create_op_node_service
  get_sequencer_endpoint-reaches network ref config s u r n m e c p = (
    sequencer_service_name replica.meta.namespace ref,
    rw (s, u, r) refl,
    sequencer_service_name-NamesService replica.meta.namespace ref
        (create_op_node_service sequencer network).meta n m,
    rw (← p) (http_ports_agree sequencer network config e c).0,
  )
