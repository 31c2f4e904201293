-- ===== src/Tests/Converges.antt =====
-- What the OpNode controller leaves in the in-memory cluster, and what pods mount of it.
use text.Mathlib.TextPositions.{eq_refl}
use op_stack_operator.Prelude.{ℕ, ◌≡◌, refl, sym, ap, true, Option, some, [], ◌∷◌, arith}
use op_stack_operator.Api.Meta.{ObjectMeta}
use op_stack_operator.Resources.Objects.{StatefulSet}
use op_stack_operator.NodeController.Objects.{reconcile_stateful_set}
use op_stack_operator.Api.Meta.{name_of}
use op_stack_operator.NodeController.Converges.{
  ReadsBack, KeepsNames, StoredSet, AsDesired, reconcile_stateful_set-Converges,
}
use op_stack_operator.Prelude.Assoc.{lookup}
use op_stack_operator.Prelude.{Memᴰ}
use op_stack_operator.Resources.Objects.{Service, config_map}
use op_stack_operator.Resources.Args.{op_node_args}
use op_stack_operator.Resources.Pod.{mount, create_op_node_container, create_volumes}
use op_stack_operator.NodeController.Objects.{reconcile_service}
use op_stack_operator.NodeController.Serves.{StoredService, Serves, reconcile_service-Serves}
use op_stack_operator.NetworkController.Templates.{generate_rollup_config}
use op_stack_operator.NetworkController.ConfigMaps.{rollup_config_map}
use op_stack_operator.NetworkController.Mounted.{rollup_config_mounted}
use op_stack_operator.Discovery.Known.{op_sepolia}
use op_stack_operator.Runtime.{Result, ok, err}
use op_stack_operator.Tests.Samples.{network, replica}
use op_stack_operator.Tests.World.{over, find, find_lem, same_key_lem, place, World, start, cluster}

over-finds :
    {A : Type 0} (meta : A → ObjectMeta) (at : World → Option A) (put : A → World → World) (a : A)
    (r : Result A) (w : World)
    → ((v : World) → at (put a v) ≡ some a)
    → (over (λ old. put a) r w).0 ≡ ok tt
    → find meta (name_of (meta a)) (at (over (λ old. put a) r w).1) ≡ ok a
over-finds meta at put a (ok old) w same h =
    rw (same w, eq_refl (meta a).name, eq_refl (meta a).namespace) refl
over-finds meta at put a (err e) w same h = cc

-- The in-memory cluster has no cache and stores what it is sent.
pub place-ReadsBack :
    {A : Type 0} (meta : A → ObjectMeta) (at : World → Option A) (put : A → World → World)
    (merge : A → A → A) (Stored : A → A → Type 0)
    → ((a : A) (w : World) → at (put a w) ≡ some a)
    → ((a : A) → Stored a a)
    → ReadsBack (λ w. w) meta Stored (place meta at put merge)
place-ReadsBack meta at put merge Stored same stored = (
  λ key w a h. same_key_lem key (meta a) (find_lem meta key (at w) a h).1,
  λ a w h. (a, rw (same a w, eq_refl (meta a).name, eq_refl (meta a).namespace) refl, stored a),
  λ key w v a a' read named stays h. (
    a',
    over-finds meta at put a' (find meta (name_of (meta a')) (at v)) v (same a') h,
    stored a',
  ),
)

cluster-ReadsBack :
    ReadsBack
      (λ w. w)
      (λ (s : StatefulSet ℕ). s.meta)
      (StoredSet cluster (λ w. w) (λ s. s) replica network)
      cluster.stateful_sets
cluster-ReadsBack =
    place-ReadsBack (λ (s : StatefulSet ℕ). s.meta) (λ w. w.set) (λ s w. record w { set = some s })
      (λ old new. new) (StoredSet cluster (λ w. w) (λ s. s) replica network) (λ s w. refl)
      (λ s. (refl, refl))

services-ReadsBack : ReadsBack (λ w. w) (λ (s : Service). s.meta) StoredService cluster.services
services-ReadsBack =
    place-ReadsBack (λ (s : Service). s.meta) (λ w. w.service)
      (λ s w. record w { service = some s }) (λ old new. new) StoredService (λ s w. refl)
      (λ s. (refl, refl, refl))

pub cluster-KeepsNames : KeepsNames cluster
cluster-KeepsNames kind owner meta meta' h =
    let e : record meta { owner_references = (kind, owner.name) ∷ [] } ≡ meta' =
      ground (arith, h) in
    (ap name_of (sym e), ap (λ m. m.labels) (sym e))

reconcile_stateful_set-Converges_example :
    AsDesired cluster
      (λ w. w)
      (λ s. s)
      replica
      network
      (reconcile_stateful_set cluster replica network start).1
unfolding reconcile_stateful_set
reconcile_stateful_set-Converges_example =
    reconcile_stateful_set-Converges cluster (λ w. w) (λ s. s) replica network start
      cluster-ReadsBack cluster-KeepsNames refl

reconcile_service-Serves_example :
    Serves cluster (λ w. w) replica network (reconcile_service cluster replica network start).1
unfolding reconcile_service
reconcile_service-Serves_example =
    reconcile_service-Serves cluster (λ w. w) replica network start services-ReadsBack
      cluster-KeepsNames refl

rollup_config_mounted_example :
    let written = rollup_config_map cluster network op_sepolia in
    (lookup "rollup.json" written.contents ≡ some (generate_rollup_config network op_sepolia))
    × Memᴰ
        (record { name = "rollup-config"; source = config_map written.meta.name })
        (create_volumes replica network)
    × Memᴰ
        (mount "rollup-config" "/config" true)
        (create_op_node_container cluster.must_parse replica network).volume_mounts
    × Memᴰ "--rollup.config=/config/rollup.json" (op_node_args replica network)
rollup_config_mounted_example = rollup_config_mounted cluster replica network op_sepolia
