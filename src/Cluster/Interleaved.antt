-- ===== src/Cluster/Interleaved.antt =====
-- A cluster in which others act before every single call: a run of a reconciler is then interleaved
-- with what others do.
use op_stack_operator.Runtime.{Result, ok, Eff}
use op_stack_operator.Prelude.{◌≡◌}
use op_stack_operator.Api.Meta.{NamespacedName}
use op_stack_operator.Cluster.{Client, Cluster, Keeps}

-- What others do is a function of the world, which may hold the rest of what they have planned.
module _ {W : Type 0} (others : W → W) where
  abbrev pub behind : {A : Type 0} → Eff W A → Eff W A
  behind m w = m (others w)

  abbrev pub client_behind : {A : Type 0} → Client W A → Client W A
  client_behind client = record {
    get = λ key. behind (client.get key);
    create = λ a. behind (client.create a);
    update = λ a. behind (client.update a);
    update_status = λ a. behind (client.update_status a);
  }

  -- RetryOnConflict makes no call of its own: the attempts do.
  abbrev pub interleave : {EthClient Q : Type 0} → Cluster W EthClient Q → Cluster W EthClient Q
  interleave cluster = record cluster {
    op_nodes = client_behind cluster.op_nodes;
    networks = client_behind cluster.networks;
    secrets = client_behind cluster.secrets;
    stateful_sets = client_behind cluster.stateful_sets;
    services = client_behind cluster.services;
    config_maps = client_behind cluster.config_maps;
    now = behind cluster.now;
    read_random = λ n. behind (cluster.read_random n);
    dial = λ url. behind (cluster.dial url);
    dial_context = λ timeout url. behind (cluster.dial_context timeout url);
    chain_id = λ timeout client. behind (cluster.chain_id timeout client);
    close = λ client. behind (cluster.close client);
  }

  module _ (I : W → Type 0) (kept : (w : W) → I w → I (others w)) where
    pub behind-Keeps : {A : Type 0} (m : Eff W A) → Keeps I m → Keeps I (behind m)
    behind-Keeps m keeps w h = keeps (others w) (kept w h)

module _ {W : Type 0} (I : W → Type 0) where
  -- Writing back, in any later state, what was read under that key.
  abbrev pub WritesLater :
      {A : Type 0}
      → Client W A
      → (A → Eff W (Result (Unit {0})))
      → (A → A → Type 0)
      → NamespacedName
      → Type 0
  WritesLater {A} client write Change key =
      (w v u : W) (a a' : A)
      → client.get key w ≡ (ok a, v)
      → Change a a'
      → I v
      → I u
      → I (write a' u).1
