-- ===== src/Images/Build.antt =====
-- BuildImageConfig and ValidateImageCompatibility: what is accepted, and which image is chosen.
use mathlib.Core.Option
use op_stack_operator.Prelude.{
  String, ◌≡◌, refl, ◌≢◌, ◌↔◌, ◌⊎◌, inl, inr, true, false, Option, none, some, arith, if◌then◌else◌,
  str_eq, is_empty, eq_iff,
}
use op_stack_operator.Text.{split}
use op_stack_operator.Text.Laws.{has_char}
use op_stack_operator.Images.{
  ImageConfig, registry_image, default_images, extract_version_from_image, MatrixOrder,
  stable_first, latest_first, validate_versions, is_known_pair, version_compatibility_matrix,
  validate_image_compatibility, get_version_set, override, ImageOverrides, build_image_config,
  finish_image_config, apply_version_set, default_op_geth_version,
}
use op_stack_operator.Images.Versions.{extract_version-image}

-- The contract of the check, in terms of the versions of op-node, op-geth, op-batcher and
-- op-proposer.
abbrev pub Compatible : String → String → String → String → Type 0
Compatible node geth batcher proposer =
    (node ≢ "")
    × (geth ≢ "")
    × ((batcher ≡ "") ⊎ (proposer ≡ "") ⊎ ((node ≡ batcher) × (node ≡ proposer)))

is_empty_of-eq : (s t : String) → is_empty t ≡ false → str_eq s t ≡ true → is_empty s ≡ false
is_empty_of-eq s t h e = let p = (eq_iff s t).0 e in rw p h

-- Only versions that are there are known to go together.
is_known_pair-ne :
    (order : MatrixOrder) (node geth : String)
    → is_known_pair (version_compatibility_matrix order) node geth ≡ true
    → (is_empty node ≡ false) × (is_empty geth ≡ false)
unfolding is_known_pair
is_known_pair-ne stable_first n g h = ground (
  arith,
  is_empty_of-eq n "v1.13.3" refl,
  is_empty_of-eq g "v1.101511.0" refl,
  is_empty_of-eq n "latest" refl,
  is_empty_of-eq g "latest" refl,
)
is_known_pair-ne latest_first n g h = ground (
  arith,
  is_empty_of-eq n "v1.13.3" refl,
  is_empty_of-eq g "v1.101511.0" refl,
  is_empty_of-eq n "latest" refl,
  is_empty_of-eq g "latest" refl,
)

module _ (order : MatrixOrder) (node geth batcher proposer : String) where
  validate_versions_sound :
      validate_versions order node geth batcher proposer ≡ none
      → Compatible node geth batcher proposer
  unfolding validate_versions
  validate_versions_sound h = ground (
    arith,
    is_known_pair-ne order node geth,
    eq_iff node "",
    eq_iff geth "",
    eq_iff batcher "",
    eq_iff proposer "",
    eq_iff node batcher,
    eq_iff node proposer,
  )

  validate_versions_complete :
      Compatible node geth batcher proposer
      → validate_versions order node geth batcher proposer ≡ none
  unfolding validate_versions
  validate_versions_complete h = ground (
    arith,
    eq_iff node "",
    eq_iff geth "",
    eq_iff batcher "",
    eq_iff proposer "",
    eq_iff node batcher,
    eq_iff node proposer,
  )

-- The check passes exactly where op-node and op-geth have a version and, if op-batcher and
-- op-proposer have one too, the three of the OP Stack are the same; the matrix and the order in
-- which it is visited change nothing.
pub validate_image_compatibility_iff :
    (order : MatrixOrder) (ic : ImageConfig)
    → (validate_image_compatibility order ic ≡ none)
      ↔ Compatible
          (extract_version_from_image ic.op_node)
          (extract_version_from_image ic.op_geth)
          (extract_version_from_image ic.op_batcher)
          (extract_version_from_image ic.op_proposer)
unfolding validate_image_compatibility
validate_image_compatibility_iff order ic =
    (validate_versions_sound order _ _ _ _, validate_versions_complete order _ _ _ _)

-- The image that a component ends with: its own override, else the global version where it has
-- one, else the version set's or the default.
abbrev pub chosen : String → String → String → String → String
chosen own component global base =
    override own (if is_empty global then base else registry_image component global)

-- The images before any override; there are none where the version set is not known.
abbrev pub base_images : ImageOverrides → Option ImageConfig
base_images o =
    if is_empty o.version_set
    then some default_images
    else Option.map (apply_version_set default_images) (get_version_set o.version_set)

-- What the result shows, for a base.
abbrev pub FollowsPrecedence :
    MatrixOrder → ImageConfig → ImageOverrides → ImageConfig × Option String → Type 0
FollowsPrecedence order base o (config, err) =
    (config.op_node ≡ chosen o.op_node_image "/op-node:" o.global_version base.op_node)
    × (config.op_geth ≡ override o.op_geth_image base.op_geth)
    × (config.op_batcher
        ≡ chosen o.op_batcher_image "/op-batcher:" o.global_version base.op_batcher)
    × (config.op_proposer
        ≡ chosen o.op_proposer_image "/op-proposer:" o.global_version base.op_proposer)
    × (config.op_challenger ≡ override o.op_challenger_image base.op_challenger)
    × ((err ≡ none) ↔ (validate_image_compatibility order config ≡ none))

finish_image_config-FollowsPrecedence :
    (order : MatrixOrder) (base : ImageConfig) (o : ImageOverrides)
    → FollowsPrecedence order base o (finish_image_config order base o)
unfolding finish_image_config
finish_image_config-FollowsPrecedence order base o = ground arith

build_image_config-finish :
    (order : MatrixOrder) (o : ImageOverrides) (base : ImageConfig)
    → base_images o ≡ some base
    → build_image_config order o ≡ finish_image_config order base o
unfolding build_image_config
build_image_config-finish order o base h = ground arith

-- The configuration and the error, where no version set is asked for or one that is known.
build_image_config-precedence :
    (order : MatrixOrder) (o : ImageOverrides) (base : ImageConfig)
    → base_images o ≡ some base
    → FollowsPrecedence order base o (build_image_config order o)
build_image_config-precedence order o base h =
    rw (build_image_config-finish order o base h)
      (finish_image_config-FollowsPrecedence order base o)

module _ (order : MatrixOrder) (o : ImageOverrides)
    (plain : base_images o ≡ some default_images) where
  -- The error, by the versions of the images that the precedence gives.
  build_image_config_iff :
      (node geth batcher proposer : String)
      → extract_version_from_image
          (chosen o.op_node_image "/op-node:" o.global_version default_images.op_node)
        ≡ node
      → extract_version_from_image (override o.op_geth_image default_images.op_geth) ≡ geth
      → extract_version_from_image
          (chosen o.op_batcher_image "/op-batcher:" o.global_version default_images.op_batcher)
        ≡ batcher
      → extract_version_from_image
          (chosen o.op_proposer_image "/op-proposer:" o.global_version default_images.op_proposer)
        ≡ proposer
      → ((build_image_config order o).1 ≡ none) ↔ Compatible node geth batcher proposer
  build_image_config_iff node geth batcher proposer n g b p =
      let config = (build_image_config order o).0 in
      let (en, eg, eb, ep, ec, err) = build_image_config-precedence order o default_images plain in
      let checked : (validate_image_compatibility order config ≡ none)
          ↔ Compatible node geth batcher proposer =
        rw (← n, ← g, ← b, ← p, ← en, ← eg, ← eb, ← ep)
          (validate_image_compatibility_iff order config) in
      (λ e. checked.0 (err.0 e), λ c. err.1 (checked.1 c))

-- With a global version that has no colon in it, no version set, and no override of the op-node, op-geth,
-- op-batcher and op-proposer images, the configuration is accepted, whatever is said of op-challenger.
pub build_image_config-global :
    (order : MatrixOrder) (o : ImageOverrides)
    → o.version_set ≡ ""
    → o.global_version ≢ ""
    → has_char ":" o.global_version ≡ false
    → o.op_node_image ≡ ""
    → o.op_geth_image ≡ ""
    → o.op_batcher_image ≡ ""
    → o.op_proposer_image ≡ ""
    → (build_image_config order o).1 ≡ none
build_image_config-global order o s h c n g b p =
    let version = o.global_version in
    let base : base_images o ≡ some default_images = ground (arith, eq_iff o.version_set "") in
    let named : is_empty version ≡ false = ground (arith, eq_iff version "") in
    (build_image_config_iff order o base version default_op_geth_version version version
        (rw (n, named) (extract_version-image "/op-node" version c))
        (rw g (extract_version-image "/op-geth" default_op_geth_version (unfold has_char in refl)))
        (rw (b, named) (extract_version-image "/op-batcher" version c))
        (rw (p, named) (extract_version-image "/op-proposer" version c))).1
      (ground (arith, eq_iff default_op_geth_version ""))

-- With no global version, no version set or the set "stable-v1.13", and no override of the op-node, op-batcher and
-- op-proposer images, the configuration is refused: the default versions fail the check themselves.
pub build_image_config-defaults_refused :
    (order : MatrixOrder) (o : ImageOverrides)
    → o.global_version ≡ ""
    → (o.version_set ≡ "") ⊎ (o.version_set ≡ "stable-v1.13")
    → o.op_node_image ≡ ""
    → o.op_batcher_image ≡ ""
    → o.op_proposer_image ≡ ""
    → (build_image_config order o).1 ≢ none
unfolding get_version_set apply_version_set extract_version_from_image split
build_image_config-defaults_refused order o g v n b p e =
    let base : base_images o ≡ some default_images = elim v [
      | inl q ↦ rw q refl
      | inr q ↦ rw q refl
    ] in
    let refused =
      (build_image_config_iff order o base "v1.13.3" _ "v1.12.0" "v1.10.0" (rw (n, g) refl) refl
          (rw (b, g) refl) (rw (p, g) refl)).0
        e in
    ground (arith, refused.2, eq_iff "v1.12.0" "", eq_iff "v1.10.0" "", eq_iff "v1.13.3" "v1.12.0")
