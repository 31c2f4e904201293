-- ===== src/Tests/Controllers.antt =====
-- The controllers' theorems on the in-memory cluster.
use op_stack_operator.Prelude.{
  ℕ, ◌<◌, ◌≡◌, refl, ◌↔◌, inl, inr, Bool, true, ◌&&◌, none, List, [], ◌∷◌, arith, Bool-cases, All,
  ltb, ltb→lt,
}
use op_stack_operator.Prelude.Int.{pos}
use op_stack_operator.Api.Meta.{ObjectMeta}
use op_stack_operator.Api.Node.{OpNode}
use op_stack_operator.Runtime.{Error, Result, ok, err, is_conflict, Eff, other}
use op_stack_operator.Resources.Objects.{Secret}
use op_stack_operator.Cluster.{Cluster, Retried, last, again, RetriesConflicts, Keeps}
use op_stack_operator.NodeController.Spec
use op_stack_operator.NodeController.Secrets.{new_secret}
use op_stack_operator.NodeController.Status.{update_status_with_retry}
use op_stack_operator.NodeController.Reconcile.{reconcile_live}
use op_stack_operator.NodeController.Coherent.{Publishes}
use op_stack_operator.NodeController.Published.{reconcile_live-Publishes}
use op_stack_operator.NodeController.Keys.{CreatesJwt, reconcile_jwt_secret-created}
use op_stack_operator.NodeController.Written.{Wrote, update_status_with_retry-Wrote}
use op_stack_operator.NetworkController.Spec as NetworkSpec
use op_stack_operator.NetworkController.L1.{
  AnswersChainId, test_l1_connectivity, test_l1_connectivity-closes,
}
use op_stack_operator.NetworkController.Reconcile as NetworkReconcile
use op_stack_operator.NetworkController.Published as NetworkPublished
use op_stack_operator.Tests.Samples.{network, pending_network, replica, sequencer}
use op_stack_operator.Tests.World.{missing, World, start, second_attempt, random_bytes, cluster}

reconcile_live-Publishes_example : Publishes cluster replica (reconcile_live cluster replica start)
reconcile_live-Publishes_example = reconcile_live-Publishes cluster replica start

-- A world whose network is not ready and that has no secret.
abbrev waiting : World
waiting = record start { its_network = pending_network }

abbrev Waiting : World → Type 0
Waiting w = (w.its_network ≡ pending_network) × (w.secrets ≡ [])

pub second_attempt-Keeps :
    (I : World → Type 0) (f : Eff World (Result (Unit {0})))
    → Keeps I f
    → (run : Result (Unit {0}) × World) → I run.1
    → I (second_attempt f run).1
second_attempt-Keeps I f keeps (ok u, w) h = h
second_attempt-Keeps I f keeps (err e, w) h = elim (Bool-cases (is_conflict e)) [
  | inl c ↦ rw c (keeps w h)
  | inr c ↦ rw c h
]

validate_configuration_iff_example :
    (Spec.validate_configuration cluster.is_zero sequencer ≡ ok tt)
    ↔ Spec.ValidSpec cluster.is_zero sequencer
validate_configuration_iff_example = Spec.validate_configuration_iff cluster.is_zero sequencer

network_validate_configuration_iff_example :
    (NetworkSpec.validate_configuration network ≡ ok tt) ↔ NetworkSpec.ValidSpec network
network_validate_configuration_iff_example = NetworkSpec.network_validate_configuration_iff network

network_reconcile_live-Publishes_example :
    let (run, v) = NetworkReconcile.reconcile_live cluster network none start in
    NetworkPublished.Publishes cluster network (run.0, v)
network_reconcile_live-Publishes_example =
    NetworkPublished.network_reconcile_live-Publishes cluster network none start

test_l1_connectivity-closes_example :
    ((test_l1_connectivity cluster network start).1 ≡ (cluster.close 0 start).1)
    × (((test_l1_connectivity cluster network start).0 ≡ ok tt)
        ↔ AnswersChainId cluster network (ok (pos 11155111)))
test_l1_connectivity-closes_example =
    test_l1_connectivity-closes cluster network 0 (ok (pos 11155111)) start start start
      (λ z h. refl) (omega arith) refl refl

-- The secrets of the replica, and worlds that have one of them.
abbrev pub jwt_secret : Secret
jwt_secret = new_secret cluster replica "replica-0-jwt" "jwt-secret" "jwt" "00"

abbrev pub with_jwt : World
with_jwt = record start { secrets = jwt_secret ∷ [] }

-- The replica with a P2P key of its own.
abbrev keyed : OpNode ℕ
keyed = record replica {
  spec = record replica.spec { op_node = record replica.spec.op_node { p2p = none } };
}

-- A cluster that refuses to look up secrets.
abbrev forbidden : Error
forbidden = record { reason = other; text = "forbidden" }

abbrev refusing : Cluster World ℕ ℕ
refusing = record cluster { secrets = record cluster.secrets { get = λ key w. (err forbidden, w) } }

abbrev owned_meta : ObjectMeta
owned_meta = record jwt_secret.meta { owner_references = ("OpNode", "replica-0") ∷ [] }

below : ℕ → List ℕ → Bool
below n [] = true
below n (b ∷ bytes) = ltb b n && below n bytes

All-below : (n : ℕ) (bytes : List ℕ) → below n bytes ≡ true → All (λ b. b < n) bytes
unfolding below
All-below n [] h = tt
All-below n (b ∷ bytes) h = (ltb→lt b n (ground (arith, h)), All-below n bytes (ground (arith, h)))

pub random_bytes-small : All (λ b. b < 256) random_bytes
unfolding below
random_bytes-small = All-below 256 random_bytes refl

reconcile_jwt_secret-created_example :
    CreatesJwt cluster replica network random_bytes owned_meta start start
reconcile_jwt_secret-created_example =
    reconcile_jwt_secret-created cluster replica network missing random_bytes owned_meta start start
      start refl refl refl random_bytes-small refl refl refl

second_attempt-Retried :
    (f : Eff World (Result (Unit {0}))) (w : World) (run : Result (Unit {0}) × World)
    → f w ≡ run
    → Retried (λ v. v) f w (second_attempt f run)
second_attempt-Retried f w (ok u, v) h = rw (← h) last
second_attempt-Retried f w (err e, v) h = elim (Bool-cases (is_conflict e)) [
  | inl c ↦ rw c (again h c last)
  | inr c ↦ rw (c, ← h) last
]

pub cluster-RetriesConflicts : RetriesConflicts cluster
cluster-RetriesConflicts f w = second_attempt-Retried f w (f w) refl

update_status_with_retry-Wrote_example :
    Wrote cluster replica (update_status_with_retry cluster replica start)
update_status_with_retry-Wrote_example =
    update_status_with_retry-Wrote cluster replica cluster-RetriesConflicts start
