-- ===== src/Cluster.antt =====
-- What the reconcilers call of controller-runtime, client-go, crypto/rand and go-ethereum, none of
-- which is code of this repository: a record of operations on the world `W`, and the behaviour of
-- these that theorems assume. Each operation is one call that the API server, the L1 endpoint or
-- the operating system answers; other clients may act in between, as `W` is not looked into.
pub mod Keeps
pub mod Within
pub mod Retries
pub mod Server
pub mod Interleaved
use native.Mathlib.Decide.{dec_lt}
use op_stack_operator.Prelude.{◌⊎◌, inl, inr, String, ◌≡◌, Bool, true, List, ℕ, ◌<◌}
use op_stack_operator.Prelude.Int.{ℤ, pos, negsuc}
use op_stack_operator.Api.Meta.{NamespacedName, ObjectMeta}
use op_stack_operator.Api.Network.{OptimismNetwork}
use op_stack_operator.Api.Node.{OpNode}
use op_stack_operator.Resources.Objects.{Secret, StatefulSet, Service, ConfigMap}
use op_stack_operator.Runtime.{Error, Result, err, is_conflict, Eff}

-- client.Client and its Status() at one kind of object.
pub record Client (W A : Type 0) : Type 0 where
  pub get : NamespacedName → Eff W (Result A)
  pub create : A → Eff W (Result (Unit {0}))
  pub update : A → Eff W (Result (Unit {0}))
  pub update_status : A → Eff W (Result (Unit {0}))

-- `EthClient` is ethclient.Client, `Q` resource.Quantity.
pub record Cluster (W EthClient Q : Type 0) : Type 0 where
  pub op_nodes : Client W (OpNode Q)
  pub networks : Client W (OptimismNetwork Q)
  pub secrets : Client W Secret
  pub stateful_sets : Client W (StatefulSet Q)
  pub services : Client W Service
  pub config_maps : Client W ConfigMap
  -- time.Now and metav1.Now
  pub now : Eff W ℤ
  -- rand.Read of that many bytes
  pub read_random : ℕ → Eff W (Result (List ℕ))
  -- SetControllerReference: the owner's kind, the owner, the metadata that gets the reference
  pub set_controller_reference : String → ObjectMeta → ObjectMeta → Result ObjectMeta
  pub contains_finalizer : ObjectMeta → String → Bool
  pub add_finalizer : ObjectMeta → String → ObjectMeta
  pub remove_finalizer : ObjectMeta → String → ObjectMeta
  -- retry.RetryOnConflict with retry.DefaultRetry
  pub retry_on_conflict : Eff W (Result (Unit {0})) → Eff W (Result (Unit {0}))
  -- what passes between two attempts of it
  pub backoff : W → W
  pub is_zero : Q → Bool
  pub must_parse : String → Q
  pub dial : String → Eff W (Result EthClient)
  -- DialContext and ChainID under a context with that timeout; ChainID answers a big.Int
  pub dial_context : ℤ → String → Eff W (Result EthClient)
  pub chain_id : ℤ → EthClient → Eff W (Result ℤ)
  pub close : EthClient → Eff W (Unit {0})
  -- (big.Int).Int64
  pub int64 : ℤ → ℤ

-- The runs of an action under RetryOnConflict: an attempt that meets a conflict may be followed
-- by another one, and the outcome is that of the last attempt.
pub data Retried {W : Type 0} (backoff : W → W) (f : Eff W (Result (Unit {0})))
    : W → Result (Unit {0}) × W → Type 0 where
  last : {w : W} → Retried backoff f w (f w)
  again :
      {w : W} {e : Error} {w' : W} {r : Result (Unit {0}) × W}
      → f w ≡ (err e, w')
      → is_conflict e ≡ true
      → Retried backoff f (backoff w') r
      → Retried backoff f w r

module _ {W EthClient Q : Type 0} (cluster : Cluster W EthClient Q) where
  -- The documented behaviour of RetryOnConflict.
  abbrev pub RetriesConflicts : Type 0
  RetriesConflicts =
      (f : Eff W (Result (Unit {0}))) (w : W)
      → Retried cluster.backoff f w (cluster.retry_on_conflict f w)

-- An int64 can have that value.
abbrev pub InInt64 : ℤ → Type 0
InInt64 (pos n) = n < 9223372036854775808
InInt64 (negsuc n) = n < 9223372036854775808

pub InInt64-cases : (z : ℤ) → InInt64 z ⊎ (¬ InInt64 z)
InInt64-cases (pos n) = elim (dec_lt n 9223372036854775808) [ yes h ↦ inl h | no h ↦ inr h ]
InInt64-cases (negsuc n) = elim (dec_lt n 9223372036854775808) [ yes h ↦ inl h | no h ↦ inr h ]

-- The documented behaviour of Int64: it is undefined for other values.
abbrev pub FitsInt64 : {W EthClient Q : Type 0} → Cluster W EthClient Q → Type 0
FitsInt64 cluster = (z : ℤ) → InInt64 z → cluster.int64 z ≡ z

-- A property of the world that a call does not end.
abbrev pub Keeps : {W A : Type 0} → (W → Type 0) → Eff W A → Type 0
Keeps {W} I m = (w : W) → I w → I (m w).1

-- (ctrl.Result)
pub record Outcome : Type 0 where
  pub requeue : Bool
  pub requeue_after : ℤ
