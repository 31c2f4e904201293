-- ===== src/System/Served.antt =====
-- The system on an API server that behaves as documented: of all the calls of the two reconcilers, five
-- can change which secrets, OpNodes and networks there are.
use op_stack_operator.Prelude.{String, sym, subst}
use op_stack_operator.Api.Meta.{NamespacedName, ObjectMeta}
use op_stack_operator.Resources.Objects.{Secret}
use op_stack_operator.Runtime.{Result, Eff}
use op_stack_operator.Cluster.{Cluster, Keeps}
use op_stack_operator.Cluster.Interleaved.{behind, behind-Keeps, interleave, WritesLater}
use op_stack_operator.Cluster.Retries.{Retried-Keeps}
use op_stack_operator.Cluster.Server.{View, Quiet, ApiServer}
use op_stack_operator.NodeController.Guards.{StatusChange}
use op_stack_operator.NodeController.Footprint as Node
use op_stack_operator.NodeController.Footprint.{NodeFootprint}
use op_stack_operator.NetworkController.Footprint as Network
use op_stack_operator.NetworkController.Footprint.{NetworkFootprint}
use op_stack_operator.System.{State, Reach, Reach-Keeps}

module _ {W EthClient Q : Type 0} (cluster : Cluster W EthClient Q)
    (server : ApiServer cluster) where
  module _ (P : View Q → Type 0) where
    abbrev pub I : W → Type 0
    I w = P (server.view w)

    Quiet-Keeps : {A : Type 0} (m : Eff W A) → Quiet server.view m → Keeps I m
    Quiet-Keeps m quiet w h = subst P (sym (quiet w)) h

    retry-Keeps :
        (f : Eff W (Result (Unit {0}))) → Keeps I f → Keeps I (cluster.retry_on_conflict f)
    retry-Keeps f keeps w h =
        Retried-Keeps I cluster.backoff f keeps (λ v k. subst P (sym (server.waits v)) k) w _
          (server.retries f w) h

    -- The calls that change the view end nothing.
    pub record Survives : Type 0 where
      pub secret_created : (s : Secret) → Keeps I (cluster.secrets.create s)
      pub node_updated :
          (key : NamespacedName)
          → WritesLater I cluster.op_nodes cluster.op_nodes.update
              (Node.FinalizerChange cluster I)
              key
      pub node_status :
          (key : NamespacedName)
          → WritesLater I cluster.op_nodes cluster.op_nodes.update_status StatusChange key
      pub network_updated :
          (key : NamespacedName)
          → WritesLater I cluster.networks cluster.networks.update
              (Network.FinalizerChange cluster)
              key
      pub network_status :
          (key : NamespacedName)
          → WritesLater I cluster.networks cluster.networks.update_status Network.StatusChange key

    -- The same with others between the calls of a run, as far as they do not end it themselves.
    module _ (survives : Survives) (others : W → W) (kept : (w : W) → I w → I (others w)) where
      QuietBehind-Keeps :
          {A : Type 0} (m : Eff W A) → Quiet server.view m → Keeps I (behind others m)
      QuietBehind-Keeps m quiet = behind-Keeps others I kept m (Quiet-Keeps m quiet)

      secret_writes :
          (suffix : String) (owner : ObjectMeta)
          → Node.SecretWrites (interleave others cluster) I suffix owner
      secret_writes suffix owner = (
        QuietBehind-Keeps (cluster.secrets.get _) (server.secret_read _),
        λ s owned.
            behind-Keeps others I kept (cluster.secrets.create s) (survives.secret_created s),
      )

      pub interleaved_node_footprint : NodeFootprint (interleave others cluster) I (λ _. Unit {0})
      interleaved_node_footprint = record {
        status_only = (
          QuietBehind-Keeps cluster.now server.clock,
          λ key. QuietBehind-Keeps (cluster.networks.get key) (server.networks.0 key),
          λ key. QuietBehind-Keeps (cluster.op_nodes.get key) (server.nodes.0 key),
          λ key w v o o' read change h.
              survives.node_status key (others w) v (others v) o o' read change h (kept v h),
          retry-Keeps,
        );
        node_read = λ key w v o e h. tt;
        finalizers = λ key w v o o' read change h.
            survives.node_updated key (others w) v (others v) o o' read change h (kept v h);
        random = λ n. QuietBehind-Keeps (cluster.read_random n) (server.random n);
        jwt_secrets = λ owner _. secret_writes "-jwt" owner;
        p2p_secrets = λ owner _. secret_writes "-p2p" owner;
        sets = λ owner _. (
          QuietBehind-Keeps (cluster.stateful_sets.get _) (server.stateful_sets.0 _),
          λ s owned. QuietBehind-Keeps (cluster.stateful_sets.create s) (server.stateful_sets.1 s),
          λ w v s s' read change.
              QuietBehind-Keeps (cluster.stateful_sets.update s') (server.stateful_sets.2 s') v,
        );
        its_services = λ owner _. (
          QuietBehind-Keeps (cluster.services.get _) (server.services.0 _),
          λ s owned. QuietBehind-Keeps (cluster.services.create s) (server.services.1 s),
          λ w v s s' read change.
              QuietBehind-Keeps (cluster.services.update s') (server.services.2 s') v,
        );
      }

      config_map_writes :
          (suffix : String) (owner : ObjectMeta)
          → Network.ConfigMapWrites (interleave others cluster) I suffix owner
      config_map_writes suffix owner meta owned = (
        QuietBehind-Keeps (cluster.config_maps.get _) (server.config_maps.0 _),
        λ c e. QuietBehind-Keeps (cluster.config_maps.create c) (server.config_maps.1 c),
        λ w v c c' read change.
            QuietBehind-Keeps (cluster.config_maps.update c') (server.config_maps.2 c') v,
      )

      pub interleaved_network_footprint :
          NetworkFootprint (interleave others cluster) I (λ _. Unit {0})
      interleaved_network_footprint = record {
        clock = QuietBehind-Keeps cluster.now server.clock;
        look_up = λ key. QuietBehind-Keeps (cluster.networks.get key) (server.networks.0 key);
        network_read = λ key w v n e h. tt;
        statuses = λ key w v n n' read change h.
            survives.network_status key (others w) v (others v) n n' read change h (kept v h);
        finalizers = λ key w v n n' read change h.
            survives.network_updated key (others w) v (others v) n n' read change h (kept v h);
        retries = retry-Keeps;
        dials = λ url. QuietBehind-Keeps (cluster.dial url) (server.dials url);
        dials_context = λ timeout url.
            QuietBehind-Keeps (cluster.dial_context timeout url) (server.dials_context timeout url);
        asks = λ timeout client.
            QuietBehind-Keeps (cluster.chain_id timeout client) (server.asks timeout client);
        closes = λ client. QuietBehind-Keeps (cluster.close client) (server.closes client);
        rollup_configs = λ owner _. config_map_writes "-rollup-config" owner;
        genesis_configs = λ owner _. config_map_writes "-genesis" owner;
      }

      -- What survives these calls, and what others do between them and between the runs, holds in
      -- every state that is reached.
      pub Reach-Survives_interleaved :
          (Environment : W → W → Type 0)
          → ((w w' : W) → Environment w w' → I w → I w')
          → {s t : State cluster} → Reach (interleave others cluster) Environment s t
          → I s.0
          → I t.0
      Reach-Survives_interleaved Environment steps_of_others steps h =
          Reach-Keeps (interleave others cluster) Environment I (λ _. Unit {0}) (λ _. Unit {0})
            interleaved_node_footprint interleaved_network_footprint steps_of_others steps h

    -- Nobody is between the calls.
    module _ (survives : Survives) where
      pub node_footprint : NodeFootprint cluster I (λ _. Unit {0})
      node_footprint = interleaved_node_footprint survives (λ w. w) (λ w h. h)

      pub network_footprint : NetworkFootprint cluster I (λ _. Unit {0})
      network_footprint = interleaved_network_footprint survives (λ w. w) (λ w h. h)
