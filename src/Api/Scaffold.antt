-- ===== src/Api/Scaffold.antt =====
-- api/v1alpha1/groupversion_info.go, the types of api/v1alpha1/opbatcher_types.go,
-- opproposer_types.go and opchallenger_types.go, which are still placeholders, and the kinds that the
-- init functions of the package register.
use op_stack_operator.Prelude.{String, List, [], ◌∷◌}
use op_stack_operator.Api.Meta.{ObjectMeta}

pub record GroupVersion : Type 0 where
  pub group : String
  pub version : String

-- (GroupVersion)
abbrev pub group_version : GroupVersion
group_version = record { group = "optimism.optimism.io"; version = "v1alpha1" }

pub record OpBatcherSpec : Type 0 where
  pub foo : String

pub record OpBatcherStatus : Type 0 where

pub record OpBatcher : Type 0 where
  pub meta : ObjectMeta
  pub spec : OpBatcherSpec
  pub status : OpBatcherStatus

pub record OpProposerSpec : Type 0 where
  pub foo : String

pub record OpProposerStatus : Type 0 where

pub record OpProposer : Type 0 where
  pub meta : ObjectMeta
  pub spec : OpProposerSpec
  pub status : OpProposerStatus

pub record OpChallengerSpec : Type 0 where
  pub foo : String

pub record OpChallengerStatus : Type 0 where

pub record OpChallenger : Type 0 where
  pub meta : ObjectMeta
  pub spec : OpChallengerSpec
  pub status : OpChallengerStatus

-- A kind of objects in an API group; the core group is "".
pub record GroupKind : Type 0 where
  pub group : String
  pub kind : String

abbrev pub optimism : String → GroupKind
optimism kind = record { group = group_version.group; kind = kind }

abbrev pub op_node_kind : GroupKind
op_node_kind = optimism "OpNode"

abbrev pub optimism_network_kind : GroupKind
optimism_network_kind = optimism "OptimismNetwork"

abbrev pub op_batcher_kind : GroupKind
op_batcher_kind = optimism "OpBatcher"

abbrev pub op_proposer_kind : GroupKind
op_proposer_kind = optimism "OpProposer"

abbrev pub op_challenger_kind : GroupKind
op_challenger_kind = optimism "OpChallenger"

-- What the init functions pass to SchemeBuilder.Register, the lists of objects aside, in the order
-- of the files.
abbrev pub registered_kinds : List GroupKind
registered_kinds =
    op_batcher_kind ∷ op_challenger_kind ∷ op_node_kind ∷ op_proposer_kind ∷ optimism_network_kind
    ∷ []
