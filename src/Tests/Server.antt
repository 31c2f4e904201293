-- ===== src/Tests/Server.antt =====
-- The in-memory cluster behaves as an API server does.
use op_stack_operator.Prelude.{ℕ, refl, some}
use op_stack_operator.Api.Meta.{name_of}
use op_stack_operator.Api.Network.{OptimismNetwork}
use op_stack_operator.Api.Node.{OpNode}
use op_stack_operator.Cluster.Server.{ApiServer}
use op_stack_operator.Tests.World.{cluster, World}
use op_stack_operator.Tests.Places.{
  node_updated_status, node_status_written, network_updated_status, network_status_written,
  name_found, view_of, over-same, node_read, network_read, node_updated, node_status_updated,
  network_updated, network_status_updated, the_found, secret_kept, secret_elsewhere,
}
use op_stack_operator.Tests.Controllers.{cluster-RetriesConflicts}

unfoldable pub server : ApiServer cluster
unfolding view_of
server = record {
  view = view_of;
  nodes = (
    λ key w. refl,
    node_read,
    λ o w. (
      (
        over-same (λ v. (view_of v).secrets) (λ old v. record v { node = o }) _ w (λ a v. refl),
        over-same (λ v. (view_of v).networks) (λ old v. record v { node = o }) _ w (λ a v. refl),
      ),
      node_updated o _ w,
      node_updated_status o _ w,
    ),
    λ o w.
        let put =
          λ (old : OpNode ℕ) (v : World). record v { node = record old { status = o.status } } in
        (
          (
            over-same (λ v. (view_of v).secrets) put _ w (λ a v. refl),
            over-same (λ v. (view_of v).networks) put _ w (λ a v. refl),
          ),
          node_status_updated o _ w
              (λ old. the_found (λ (p : OpNode ℕ). p.meta) (name_of o.meta) w.node old),
          node_status_written o _ w
              (λ old. name_found (λ (p : OpNode ℕ). p.meta) (name_of o.meta) w.node old),
        ),
  );
  networks = (
    λ key w. refl,
    network_read,
    λ n w. (
      (
        over-same (λ v. (view_of v).secrets) (λ old v. record v { its_network = n }) _ w
            (λ a v. refl),
        over-same (λ v. (view_of v).nodes) (λ old v. record v { its_network = n }) _ w
            (λ a v. refl),
      ),
      network_updated n _ w,
      network_updated_status n _ w,
    ),
    λ n w.
        let put = λ (old : OptimismNetwork ℕ) (v : World). record v {
          its_network = record old { status = n.status };
        } in
        (
          (
            over-same (λ v. (view_of v).secrets) put _ w (λ a v. refl),
            over-same (λ v. (view_of v).nodes) put _ w (λ a v. refl),
          ),
          network_status_updated n _ w (λ old.
              the_found (λ (p : OptimismNetwork ℕ). p.meta) (name_of n.meta) w.its_network old),
          network_status_written n _ w (λ old.
              name_found (λ (p : OptimismNetwork ℕ). p.meta) (name_of n.meta) w.its_network old),
        ),
  );
  secret_read = λ key w. refl;
  secret_created = λ s w. (
    secret_elsewhere (λ v. (view_of v).nodes) s _ w (λ l v. refl),
    secret_elsewhere (λ v. (view_of v).networks) s _ w (λ l v. refl),
    secret_kept s _ w,
  );
  stateful_sets = (
    λ key w. refl,
    λ s w. refl,
    λ s w. over-same view_of (λ old v. record v { set = some s }) _ w (λ a v. refl),
  );
  services = (
    λ key w. refl,
    λ s w. refl,
    λ s w. over-same view_of (λ old v. record v { service = some s }) _ w (λ a v. refl),
  );
  config_maps = (
    λ key w. refl,
    λ c w. refl,
    λ c w. over-same view_of (λ old v. record v { config_map = some c }) _ w (λ a v. refl),
  );
  clock = λ w. refl;
  random = λ n w. refl;
  dials = λ url w. refl;
  dials_context = λ timeout url w. refl;
  asks = λ timeout client w. refl;
  closes = λ client w. refl;
  retries = cluster-RetriesConflicts;
  waits = λ w. refl;
  finalizer_added = λ meta f. refl;
  finalizer_removed = λ meta f. refl;
}
