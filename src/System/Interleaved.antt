-- ===== src/System/Interleaved.antt =====
-- The promises of the operator while others act in the middle of its runs: the two reconcilers of
-- internal/controller, each of whose calls others come before.
use op_stack_operator.Api.Meta.{NamespacedName}
use op_stack_operator.Api.Network.{OptimismNetworkSpec}
use op_stack_operator.Api.Node.{OpNodeSpec}
use op_stack_operator.Resources.Objects.{Secret}
use op_stack_operator.Cluster.{Cluster}
use op_stack_operator.Cluster.Interleaved.{interleave}
use op_stack_operator.Cluster.Server.{View, ApiServer}
use op_stack_operator.System.{State, Reach}
use op_stack_operator.System.Served.{Survives, Reach-Survives_interleaved}
use op_stack_operator.System.Promises.{
  HasSecret, OnlyNode, OnlyNetwork, AllHonest, AllReady, HasSecret-Survives, OnlyNode-Survives,
  OnlyNetwork-Survives, AllHonest-Survives, AllReady-Survives,
}

-- A secret stays as it is; an OpNode or a network of a name has no other specification; every OpNode
-- that is Running, every network that is Ready, has what its status says.
pub data Promise (Q : Type 0) : Type 0 where
  secret_stays : NamespacedName → Secret → Promise Q
  node_spec_stays : NamespacedName → OpNodeSpec Q → Promise Q
  network_spec_stays : NamespacedName → OptimismNetworkSpec Q → Promise Q
  running_is_honest ready_is_honest : Promise Q

module _ {W EthClient Q : Type 0} (cluster : Cluster W EthClient Q)
    (server : ApiServer cluster) where
  abbrev pub Holds : Promise Q → View Q → Type 0
  Holds (secret_stays key secret) = HasSecret cluster server key secret
  Holds (node_spec_stays key spec) = OnlyNode cluster server key spec
  Holds (network_spec_stays key spec) = OnlyNetwork cluster server key spec
  Holds running_is_honest = AllHonest cluster server
  Holds ready_is_honest = AllReady cluster server

  Holds-Survives : (promise : Promise Q) → Survives cluster server (Holds promise)
  Holds-Survives (secret_stays key secret) = HasSecret-Survives cluster server key secret
  Holds-Survives (node_spec_stays key spec) = OnlyNode-Survives cluster server key spec
  Holds-Survives (network_spec_stays key spec) = OnlyNetwork-Survives cluster server key spec
  Holds-Survives running_is_honest = AllHonest-Survives cluster server
  Holds-Survives ready_is_honest = AllReady-Survives cluster server

  -- On an API server that behaves as documented, whatever runs of the two reconcilers follow each
  -- other, and whatever others do between the runs and before each single call of a run: what the
  -- operator promises (a secret stays as it is, an OpNode or a network has no other specification
  -- than the given one, every OpNode that is Running has all six conditions True, every network that
  -- is Ready has all three True and contract addresses) holds in every state that is reached, if it
  -- held at first and what others do does not end it.
  pub interleaved-keeps_promises :
      (Environment : W → W → Type 0) (others : W → W) (promise : Promise Q)
      → ((w : W) → Holds promise (server.view w) → Holds promise (server.view (others w)))
      → ((w w' : W)
          → Environment w w'
          → Holds promise (server.view w)
          → Holds promise (server.view w'))
      → {s t : State cluster} → Reach (interleave others cluster) Environment s t
      → Holds promise (server.view s.0)
      → Holds promise (server.view t.0)
  interleaved-keeps_promises Environment others promise between behind steps h =
      Reach-Survives_interleaved cluster server (Holds promise) (Holds-Survives promise) others
        between Environment behind steps h
