-- ===== src/Manager/Rbac.antt =====
-- The permissions that the kubebuilder:rbac markers of internal/controller ask for, and an API server
-- that grants nothing else.
use op_stack_operator.Prelude.{
  String, ◌<>◌, Bool, false, ◌&&◌, ◌||◌, List, [], ◌∷◌, ◌++◌, str_eq, if◌then◌else◌,
}
use op_stack_operator.Runtime.{Error, Result, err, other, Eff, pure}
use op_stack_operator.Cluster.{Client, Cluster}

pub record Rule : Type 0 where
  pub group : String
  pub resources : List String
  pub verbs : List String

abbrev pub all_verbs : List String
all_verbs = "get" ∷ "list" ∷ "watch" ∷ "create" ∷ "update" ∷ "patch" ∷ "delete" ∷ []

-- The three markers that every controller has for its own kind.
abbrev pub own_rules : String → List Rule
own_rules resource =
    record { group = "optimism.optimism.io"; resources = resource ∷ []; verbs = all_verbs }
    ∷ record {
      group = "optimism.optimism.io";
      resources = (resource <> "/status") ∷ [];
      verbs = "get" ∷ "update" ∷ "patch" ∷ [];
    }
    ∷ record {
      group = "optimism.optimism.io";
      resources = (resource <> "/finalizers") ∷ [];
      verbs = "update" ∷ [];
    }
    ∷ []

unfoldable pub op_node_rules : List Rule
op_node_rules =
    own_rules "opnodes"
    ++ (record {
      group = "";
      resources = "secrets" ∷ "configmaps" ∷ "services" ∷ [];
      verbs = all_verbs;
    }
        ∷ record { group = "apps"; resources = "statefulsets" ∷ []; verbs = all_verbs }
        ∷ [])

unfoldable pub optimism_network_rules : List Rule
optimism_network_rules =
    own_rules "optimismnetworks"
    ++ (record { group = ""; resources = "configmaps" ∷ "secrets" ∷ []; verbs = all_verbs } ∷ [])

unfoldable pub op_batcher_rules : List Rule
op_batcher_rules = own_rules "opbatchers"

unfoldable pub op_proposer_rules : List Rule
op_proposer_rules = own_rules "opproposers"

unfoldable pub op_challenger_rules : List Rule
op_challenger_rules = own_rules "opchallengers"

-- The one role that the markers are collected in.
abbrev pub manager_role : List Rule
manager_role =
    op_node_rules
    ++ (optimism_network_rules ++ (op_batcher_rules ++ (op_proposer_rules ++ op_challenger_rules)))

abbrev pub names : List String → String → Bool
names [] name = false
names (n ∷ others) name = str_eq n name || names others name

abbrev pub grants : List Rule → String → String → String → Bool
grants [] verb group resource = false
grants (rule ∷ rules) verb group resource =
    (names rule.verbs verb && (str_eq rule.group group && names rule.resources resource))
    || grants rules verb group resource

abbrev pub forbidden : Error
forbidden = record { reason = other; text = "forbidden" }

module _ {W : Type 0} (role : List Rule) where
  -- A call that the role does not grant fails and changes nothing.
  abbrev pub if_granted :
      {B : Type 0} → String → String → String → Eff W (Result B) → Eff W (Result B)
  if_granted verb group resource call =
      if grants role verb group resource then call else pure (err forbidden)

  abbrev pub restricted : {A : Type 0} → String → String → Client W A → Client W A
  restricted group resource client = record {
    get = λ key. if_granted "get" group resource (client.get key);
    create = λ a. if_granted "create" group resource (client.create a);
    update = λ a. if_granted "update" group resource (client.update a);
    update_status = λ a. if_granted "update" group (resource <> "/status") (client.update_status a);
  }

  abbrev pub restrict : {EthClient Q : Type 0} → Cluster W EthClient Q → Cluster W EthClient Q
  restrict cluster = record cluster {
    op_nodes = restricted "optimism.optimism.io" "opnodes" cluster.op_nodes;
    networks = restricted "optimism.optimism.io" "optimismnetworks" cluster.networks;
    secrets = restricted "" "secrets" cluster.secrets;
    stateful_sets = restricted "apps" "statefulsets" cluster.stateful_sets;
    services = restricted "" "services" cluster.services;
    config_maps = restricted "" "configmaps" cluster.config_maps;
  }
