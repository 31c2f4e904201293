-- ===== src/Cluster/Server.antt =====
-- The API server as far as the operator's promises need it: which secrets, OpNodes and networks it
-- has, and the documented behaviour of the calls with respect to them.
use op_stack_operator.Prelude.{ℕ, String, ◌≡◌, ◌⊎◌, Option, some}
use op_stack_operator.Prelude.Int.{ℤ}
use op_stack_operator.Api.Meta.{NamespacedName, ObjectMeta, name_of}
use op_stack_operator.Api.Network.{OptimismNetwork}
use op_stack_operator.Api.Node.{OpNode}
use op_stack_operator.Resources.Objects.{Secret}
use op_stack_operator.Runtime.{ok, Eff}
use op_stack_operator.Cluster.{Client, Cluster, RetriesConflicts}

-- The objects under their names.
pub record View (Q : Type 0) : Type 0 where
  pub secrets : NamespacedName → Option Secret
  pub nodes : NamespacedName → Option (OpNode Q)
  pub networks : NamespacedName → Option (OptimismNetwork Q)

-- What is there under a name after a call was there before, or has that specification.
abbrev pub OldOr :
    {Q A S : Type 0}
    → (A → S)
    → (View Q → NamespacedName → Option A)
    → View Q
    → View Q
    → (NamespacedName → S → Type 0)
    → Type 0
OldOr {A = A} spec at before after New =
    (key : NamespacedName) (new : A)
    → at after key ≡ some new
    → ((old : A) × (at before key ≡ some old) × (spec new ≡ spec old)) ⊎ New key (spec new)

module _ {W Q : Type 0} (view : W → View Q) where
  -- A call that changes none of them.
  abbrev pub Quiet : {A : Type 0} → Eff W A → Type 0
  Quiet m = (w : W) → view (m w).1 ≡ view w

  -- Calls on objects of another kind.
  abbrev pub Elsewhere : {A : Type 0} → Client W A → Type 0
  Elsewhere {A} client =
      ((key : NamespacedName) → Quiet (client.get key))
      × ((a : A) → Quiet (client.create a))
      × ((a : A) → Quiet (client.update a))

  module _ {A S T : Type 0} (meta : A → ObjectMeta) (spec : A → S) (status : A → T)
      (at : View Q → NamespacedName → Option A) (SameOthers : View Q → View Q → Type 0)
      (client : Client W A) where
    -- A custom resource with a status subresource. Get finds what is there under its name; Update
    -- gives the object of that name its specification, and may give it its status or remove the
    -- object where it loses its last finalizer; an update of the status changes no specification.
    abbrev pub ServesResource : Type 0
    ServesResource =
        ((key : NamespacedName) → Quiet (client.get key))
        × ((key : NamespacedName) (w v : W) (a : A)
            → client.get key w ≡ (ok a, v)
            → (at (view v) key ≡ some a) × (name_of (meta a) ≡ key))
        × ((a : A) (w : W)
            → let after = view (client.update a w).1 in
              SameOthers (view w) after
              × OldOr spec at (view w) after (λ key σ. (name_of (meta a) ≡ key) × (σ ≡ spec a))
              × OldOr status at (view w) after (λ key τ. (name_of (meta a) ≡ key) × (τ ≡ status a)))
        × ((a : A) (w : W)
            → let after = view (client.update_status a w).1 in
              SameOthers (view w) after
              × OldOr spec at (view w) after (λ key σ. ⊥)
              × OldOr status at (view w) after (λ key τ. (name_of (meta a) ≡ key) × (τ ≡ status a)))

abbrev pub SameButNodes : {Q : Type 0} → View Q → View Q → Type 0
SameButNodes v v' = (v'.secrets ≡ v.secrets) × (v'.networks ≡ v.networks)

abbrev pub SameButNetworks : {Q : Type 0} → View Q → View Q → Type 0
SameButNetworks v v' = (v'.secrets ≡ v.secrets) × (v'.nodes ≡ v.nodes)

pub record ApiServer {W EthClient Q : Type 0} (cluster : Cluster W EthClient Q) : Type 0 where
  pub view : W → View Q
  pub nodes :
      ServesResource view
        (λ (o : OpNode Q). o.meta)
        (λ o. o.spec)
        (λ o. o.status)
        (λ v. v.nodes)
        SameButNodes
        cluster.op_nodes
  pub networks :
      ServesResource view
        (λ (n : OptimismNetwork Q). n.meta)
        (λ n. n.spec)
        (λ n. n.status)
        (λ v. v.networks)
        SameButNetworks
        cluster.networks
  pub secret_read : (key : NamespacedName) → Quiet view (cluster.secrets.get key)
  -- Create refuses a name that is taken.
  pub secret_created :
      (s : Secret) (w : W)
      → let after = view (cluster.secrets.create s w).1 in
        (after.nodes ≡ (view w).nodes)
        × (after.networks ≡ (view w).networks)
        × ((key : NamespacedName) (old : Secret)
            → (view w).secrets key ≡ some old
            → after.secrets key ≡ some old)
  pub stateful_sets : Elsewhere view cluster.stateful_sets
  pub services : Elsewhere view cluster.services
  pub config_maps : Elsewhere view cluster.config_maps
  pub clock : Quiet view cluster.now
  pub random : (n : ℕ) → Quiet view (cluster.read_random n)
  pub dials : (url : String) → Quiet view (cluster.dial url)
  pub dials_context : (timeout : ℤ) (url : String) → Quiet view (cluster.dial_context timeout url)
  pub asks : (timeout : ℤ) (client : EthClient) → Quiet view (cluster.chain_id timeout client)
  pub closes : (client : EthClient) → Quiet view (cluster.close client)
  pub retries : RetriesConflicts cluster
  pub waits : (w : W) → view (cluster.backoff w) ≡ view w
  -- AddFinalizer and RemoveFinalizer keep the name.
  pub finalizer_added :
      (meta : ObjectMeta) (f : String) → name_of (cluster.add_finalizer meta f) ≡ name_of meta
  pub finalizer_removed :
      (meta : ObjectMeta) (f : String) → name_of (cluster.remove_finalizer meta f) ≡ name_of meta
