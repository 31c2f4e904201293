-- ===== src/Manager/Watched.antt =====
-- The kinds that the controllers of internal/controller watch: api/v1alpha1 registers those that they
-- are for, and the markers let the manager list and watch all of them.
use op_stack_operator.Prelude.{
  String, ◌≡◌, refl, true, ◌&&◌, List, [], ◌∷◌, All, Memᴰ, on_some, false,
}
use op_stack_operator.Prelude.Assoc.{lookup}
use op_stack_operator.Api.Scaffold.{GroupKind, registered_kinds}
use op_stack_operator.Manager.Controllers.{
  ControllerOptions, op_node_controller, optimism_network_controller, op_batcher_controller,
  op_proposer_controller, op_challenger_controller, controllers,
}
use op_stack_operator.Manager.Rbac.{
  manager_role, op_node_rules, optimism_network_rules, op_batcher_rules, op_proposer_rules,
  op_challenger_rules, grants,
}

-- The names that the API server gives the kinds.
abbrev pub resources : List (String × String)
resources =
    ("OpNode", "opnodes")
    ∷ ("OptimismNetwork", "optimismnetworks")
    ∷ ("OpBatcher", "opbatchers")
    ∷ ("OpProposer", "opproposers")
    ∷ ("OpChallenger", "opchallengers")
    ∷ ("StatefulSet", "statefulsets")
    ∷ ("Service", "services")
    ∷ ("Secret", "secrets")
    ∷ ("ConfigMap", "configmaps")
    ∷ []

abbrev pub Watchable : GroupKind → Type 0
Watchable k =
    on_some (lookup k.kind resources) false (λ resource.
      grants manager_role "list" k.group resource && grants manager_role "watch" k.group resource)
    ≡ true

-- Each controller is for a kind that the scheme knows, and may list and watch that kind and those
-- that it owns.
abbrev pub IsWatched : ControllerOptions → Type 0
IsWatched c = Memᴰ c.its_kind registered_kinds × Watchable c.its_kind × All Watchable c.owns

pub controllers-IsWatched : All IsWatched controllers
unfolding op_node_controller optimism_network_controller op_batcher_controller
    op_proposer_controller op_challenger_controller op_node_rules optimism_network_rules
    op_batcher_rules op_proposer_rules op_challenger_rules lookup
controllers-IsWatched = (
  (Memᴰ.tail (Memᴰ.tail (Memᴰ.tail (Memᴰ.tail (Memᴰ.head refl)))), refl, (refl, tt)),
  (
    (Memᴰ.tail (Memᴰ.tail (Memᴰ.head refl)), refl, (refl, (refl, (refl, tt)))),
    (
      (Memᴰ.head refl, refl, tt),
      (
        (Memᴰ.tail (Memᴰ.tail (Memᴰ.tail (Memᴰ.head refl))), refl, tt),
        ((Memᴰ.tail (Memᴰ.head refl), refl, tt), tt),
      ),
    ),
  ),
)
