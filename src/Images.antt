-- ===== src/Images.antt =====
-- pkg/config/images.go: the image names and the versions that go together. A `range` over the Go
-- map VersionCompatibilityMatrix visits its entries in an unspecified order, which is a parameter
-- of the functions that have such a loop.
pub mod Versions
pub mod Build
use op_stack_operator.Prelude.{
  ℕ, ◌*◌, ◌≤◌, String, ◌<>◌, Bool, true, false, not, ◌&&◌, ◌||◌, Option, none, some, List, [], ◌∷◌,
  length, last_or, leb, if◌then◌else◌, str_eq, is_empty,
}
use op_stack_operator.Prelude.Int.{ℤ, pos}
use op_stack_operator.Text.{split, join, contains}

abbrev pub optimism_registry : String
optimism_registry = "us-docker.pkg.dev/oplabs-tools-artifacts/images"

abbrev pub default_op_stack_version : String
default_op_stack_version = "v1.13.3"

abbrev pub default_op_geth_version : String
default_op_geth_version = "v1.101511.0"

pub record ImageConfig : Type 0 where
  pub op_geth : String
  pub op_node : String
  pub op_batcher : String
  pub op_proposer : String
  pub op_challenger : String

-- fmt.Sprintf("%s/<component>:%s", OptimismRegistry, version)
abbrev pub registry_image : String → String → String
registry_image component version = optimism_registry <> component <> version

abbrev pub default_images : ImageConfig
default_images = record {
  op_geth = registry_image "/op-geth:" default_op_geth_version;
  op_node = registry_image "/op-node:" default_op_stack_version;
  op_batcher = registry_image "/op-batcher:" "v1.12.0";
  op_proposer = registry_image "/op-proposer:" "v1.10.0";
  op_challenger = registry_image "/op-challenger:" "v1.5.1";
}

pub record VersionSet : Type 0 where
  pub op_node : String
  pub op_geth : String
  pub op_batcher : String
  pub op_proposer : String
  pub op_challenger : String

abbrev pub stable : VersionSet
stable = record {
  op_node = "v1.13.3";
  op_geth = "v1.101511.0";
  op_batcher = "v1.12.0";
  op_proposer = "v1.10.0";
  op_challenger = "v1.5.1";
}

abbrev pub latest : VersionSet
latest = record {
  op_node = "latest";
  op_geth = "latest";
  op_batcher = "latest";
  op_proposer = "latest";
  op_challenger = "latest";
}

-- The two orders in which a `range` can visit the matrix.
pub data MatrixOrder : Type 0 where
  stable_first latest_first : MatrixOrder

abbrev pub version_compatibility_matrix : MatrixOrder → List (String × VersionSet)
version_compatibility_matrix stable_first = ("stable-v1.13", stable) ∷ ("latest", latest) ∷ []
version_compatibility_matrix latest_first = ("latest", latest) ∷ ("stable-v1.13", stable) ∷ []

unfoldable pub extract_version_from_image : String → String
extract_version_from_image image =
    if is_empty image
    then ""
    else let parts = split ":" image in if leb 2 (length parts) then last_or "" parts else ""

-- The loop of ValidateImageCompatibility over the matrix.
unfoldable pub is_known_pair : List (String × VersionSet) → String → String → Bool
is_known_pair [] op_node_version op_geth_version = false
is_known_pair ((name, versions) ∷ matrix) op_node_version op_geth_version =
    str_eq op_node_version versions.op_node && str_eq op_geth_version versions.op_geth
    || is_known_pair matrix op_node_version op_geth_version

-- Without its loop variables: `none` where the method returns nil.
unfoldable pub validate_versions : MatrixOrder → String → String → String → String → Option String
validate_versions order op_node_version op_geth_version op_batcher_version op_proposer_version =
    if not (is_empty op_node_version)
      && not (is_empty op_batcher_version)
      && not (is_empty op_proposer_version)
      && (not (str_eq op_node_version op_batcher_version)
          || not (str_eq op_node_version op_proposer_version))
    then some (
        "OP Stack component versions must match: op-node=" <> op_node_version <> ", op-batcher="
        <> op_batcher_version <> ", op-proposer=" <> op_proposer_version)
    else if is_known_pair (version_compatibility_matrix order) op_node_version op_geth_version
    then none
    else if not (is_empty op_node_version) && not (is_empty op_geth_version)
    then none
    else some "unable to validate version compatibility"

unfoldable pub validate_image_compatibility : MatrixOrder → ImageConfig → Option String
validate_image_compatibility order ic =
    validate_versions order (extract_version_from_image ic.op_node)
      (extract_version_from_image ic.op_geth) (extract_version_from_image ic.op_batcher)
      (extract_version_from_image ic.op_proposer)

-- The loop of GetCompatibleOpGethVersion over the matrix.
unfoldable pub find_op_geth : List (String × VersionSet) → String → String → Option String
find_op_geth [] major_minor op_stack_version = none
find_op_geth ((name, versions) ∷ matrix) major_minor op_stack_version =
    if contains name major_minor || str_eq versions.op_node op_stack_version
    then some versions.op_geth
    else find_op_geth matrix major_minor op_stack_version

-- `parts[:2]` of the split, where there are two.
unfoldable pub major_minor : List String → Option String
major_minor (major ∷ minor ∷ parts) = some (join "." (major ∷ minor ∷ []))
major_minor _ = none

-- The function's error is always nil.
unfoldable pub get_compatible_op_geth_version : MatrixOrder → String → String
get_compatible_op_geth_version order op_stack_version =
    if is_empty op_stack_version
    then default_op_geth_version
    else if str_eq op_stack_version "latest"
    then "latest"
    else elim (major_minor (split "." op_stack_version)) [
      | none ↦ default_op_geth_version
      | some prefix ↦
          elim (find_op_geth (version_compatibility_matrix order) prefix op_stack_version) [
            | none ↦ default_op_geth_version
            | some version ↦ version
          ]
    ]

-- A look-up in the Go map VersionCompatibilityMatrix.
unfoldable pub lookup_version_set : String → List (String × VersionSet) → Option VersionSet
lookup_version_set version_name [] = none
lookup_version_set version_name ((name, versions) ∷ matrix) =
    if str_eq name version_name then some versions else lookup_version_set version_name matrix

-- `none` where the method returns an error.
unfoldable pub get_version_set : String → Option VersionSet
unfolding lookup_version_set
get_version_set version_name =
    lookup_version_set version_name (version_compatibility_matrix stable_first)

abbrev pub or_keep : String → String → String → String
or_keep component version old = if is_empty version then old else registry_image component version

unfoldable pub apply_version_set : ImageConfig → VersionSet → ImageConfig
apply_version_set ic versions = record {
  op_geth = or_keep "/op-geth:" versions.op_geth ic.op_geth;
  op_node = or_keep "/op-node:" versions.op_node ic.op_node;
  op_batcher = or_keep "/op-batcher:" versions.op_batcher ic.op_batcher;
  op_proposer = or_keep "/op-proposer:" versions.op_proposer ic.op_proposer;
  op_challenger = or_keep "/op-challenger:" versions.op_challenger ic.op_challenger;
}

pub record ImageOverrides : Type 0 where
  pub global_version : String
  pub op_node_image : String
  pub op_geth_image : String
  pub op_batcher_image : String
  pub op_proposer_image : String
  pub op_challenger_image : String
  pub version_set : String

abbrev pub override : String → String → String
override new old = if is_empty new then old else new

unfoldable pub apply_global_version : ImageConfig → String → ImageConfig
apply_global_version config version = if is_empty version then config else record config {
  op_node = registry_image "/op-node:" version;
  op_batcher = registry_image "/op-batcher:" version;
  op_proposer = registry_image "/op-proposer:" version;
}

unfoldable pub apply_images : ImageConfig → ImageOverrides → ImageConfig
apply_images config overrides = record {
  op_geth = override overrides.op_geth_image config.op_geth;
  op_node = override overrides.op_node_image config.op_node;
  op_batcher = override overrides.op_batcher_image config.op_batcher;
  op_proposer = override overrides.op_proposer_image config.op_proposer;
  op_challenger = override overrides.op_challenger_image config.op_challenger;
}

-- Everything behind the version set: the configuration and the error, if there is one.
unfoldable pub finish_image_config :
    MatrixOrder → ImageConfig → ImageOverrides → ImageConfig × Option String
unfolding apply_global_version apply_images
finish_image_config order base overrides =
    let config = apply_images (apply_global_version base overrides.global_version) overrides in
    elim (validate_image_compatibility order config) [
      | none ↦ (config, none)
      | some err ↦ (config, some ("image compatibility validation failed: " <> err))
    ]

unfoldable pub build_image_config : MatrixOrder → ImageOverrides → ImageConfig × Option String
unfolding finish_image_config
build_image_config order overrides =
    if is_empty overrides.version_set
    then finish_image_config order default_images overrides
    else elim (get_version_set overrides.version_set) [
      | none ↦ (default_images, some ("version set " <> overrides.version_set <> " not found"))
      | some versions ↦
          finish_image_config order (apply_version_set default_images versions) overrides
    ]

pub record CacheConfig : Type 0 where
  pub enable_image_cache : Bool
  pub cache_timeout : ℤ
  pub pull_policy : String

abbrev pub hour : ℕ
hour = 3600 * 1000000000

abbrev pub default_cache_config : CacheConfig
default_cache_config = record {
  enable_image_cache = true;
  cache_timeout = pos (24 * hour);
  pull_policy = "IfNotPresent";
}
