-- ===== src/NetworkController/Spec.antt =====
-- validateConfiguration and validateConfigSource of
-- internal/controller/optimismnetwork_controller.go.
use op_stack_operator.Prelude.{
  ℕ, ◌+◌, String, ◌<>◌, ◌≡◌, ◌≢◌, ◌⊎◌, ◌↔◌, Bool, true, false, not, Option, none, some, arith, ltb,
  if◌then◌else◌, is_empty, is_some, eq_iff,
}
use op_stack_operator.Prelude.Int.{pos, ◌==ℤ◌, ==ℤ_iff}
use op_stack_operator.Api.Network.{ConfigSource, OptimismNetwork}
use op_stack_operator.Runtime.{Error, Result, ok, err, errorf}

-- `if test { sourceCount++ }`
abbrev pub count : Bool → ℕ
count true = 1
count false = 0

unfoldable pub source_count : ConfigSource → ℕ
source_count source =
    count (not (is_empty source.inline))
    + count (is_some source.config_map_ref)
    + count source.auto_discover

unfoldable pub validate_config_source : Option ConfigSource → String → Result (Unit {0})
unfolding source_count
validate_config_source none field_name = ok tt
validate_config_source (some source) field_name =
    if ltb 1 (source_count source)
    then err (
        errorf
          (field_name <> ": only one of inline, configMapRef, or autoDiscover can be specified"))
    else ok tt

module _ {Q : Type 0} (network : OptimismNetwork Q) where
  unfoldable pub validate_sources : Result (Unit {0})
  unfolding validate_config_source
  validate_sources = elim (validate_config_source network.spec.rollup_config "rollupConfig") [
    | err e ↦ err e
    | ok _ ↦ validate_config_source network.spec.l2_genesis "l2Genesis"
  ]

  unfoldable pub validate_configuration : Result (Unit {0})
  unfolding validate_sources
  validate_configuration =
      if network.spec.chain_id ==ℤ pos 0
      then err (errorf "chainID is required")
      else if network.spec.l1_chain_id ==ℤ pos 0
      then err (errorf "l1ChainID is required")
      else if is_empty network.spec.l1_rpc_url
      then err (errorf "l1RpcUrl is required")
      else if network.spec.chain_id ==ℤ network.spec.l1_chain_id
      then err (errorf "chainID cannot be the same as l1ChainID")
      else validate_sources

-- At most one of the three sources is given.
abbrev pub AtMostOne : Option ConfigSource → Type 0
AtMostOne none = Unit
AtMostOne (some source) =
    ((source.inline ≡ "") ⊎ (source.config_map_ref ≡ none))
    × ((source.inline ≡ "") ⊎ (source.auto_discover ≡ false))
    × ((source.config_map_ref ≡ none) ⊎ (source.auto_discover ≡ false))

validate_config_source_iff :
    (source : Option ConfigSource) (field_name : String)
    → (validate_config_source source field_name ≡ ok tt) ↔ AtMostOne source
unfolding validate_config_source
validate_config_source_iff none field_name = ground arith
validate_config_source_iff (some source) field_name = ground (arith, eq_iff source.inline "")

both_tests :
    (first second : Result (Unit {0}))
    → (elim first [ err e ↦ err e | ok _ ↦ second ] ≡ ok tt) ↔ ((first ≡ ok tt) × (second ≡ ok tt))
both_tests (ok u) second = ground arith
both_tests (err e) second = ground arith

field_tests :
    (a b c d : Bool) (e f g h : Error) (rest : Result (Unit {0}))
    → ((if a then err e else if b then err f else if c then err g else if d then err h else rest)
        ≡ ok tt)
      ↔ ((a ≡ false) × (b ≡ false) × (c ≡ false) × (d ≡ false) × (rest ≡ ok tt))
field_tests a b c d e f g h rest = ground arith

-- A test that is false exactly if the equation it tests does not hold.
fails_iff : {P : Type 0} (b : Bool) → ((b ≡ true) ↔ P) → (b ≡ false) ↔ (P → ⊥)
fails_iff b h = ground (arith, h)

module _ {Q : Type 0} (network : OptimismNetwork Q) where
  abbrev pub ValidSpec : Type 0
  ValidSpec =
      (network.spec.chain_id ≢ pos 0)
      × (network.spec.l1_chain_id ≢ pos 0)
      × (network.spec.l1_rpc_url ≢ "")
      × (network.spec.chain_id ≢ network.spec.l1_chain_id)
      × AtMostOne network.spec.rollup_config
      × AtMostOne network.spec.l2_genesis

  validate_sources_iff :
      (validate_sources network ≡ ok tt)
      ↔ (AtMostOne network.spec.rollup_config × AtMostOne network.spec.l2_genesis)
  unfolding validate_sources
  validate_sources_iff =
      let tests = both_tests (validate_config_source network.spec.rollup_config "rollupConfig") _ in
      let rollup = validate_config_source_iff network.spec.rollup_config "rollupConfig" in
      let genesis = validate_config_source_iff network.spec.l2_genesis "l2Genesis" in
      (
        λ h. (rollup.0 (tests.0 h).0, genesis.0 (tests.0 h).1),
        λ h. tests.1 (rollup.1 h.0, genesis.1 h.1),
      )

  -- validateConfiguration accepts a specification exactly if the two chain IDs are given and
  -- differ, the L1 RPC URL is given, and of the rollup configuration and of the L2 genesis at most
  -- one source is given.
  pub network_validate_configuration_iff : (validate_configuration network ≡ ok tt) ↔ ValidSpec
  unfolding validate_configuration
  network_validate_configuration_iff =
      let tests =
        field_tests (network.spec.chain_id ==ℤ pos 0) (network.spec.l1_chain_id ==ℤ pos 0)
          (is_empty network.spec.l1_rpc_url) (network.spec.chain_id ==ℤ network.spec.l1_chain_id) _
          _ _ _ (validate_sources network) in
      let id = fails_iff _ (==ℤ_iff network.spec.chain_id (pos 0)) in
      let l1_id = fails_iff _ (==ℤ_iff network.spec.l1_chain_id (pos 0)) in
      let url = fails_iff _ (eq_iff network.spec.l1_rpc_url "") in
      let same = fails_iff _ (==ℤ_iff network.spec.chain_id network.spec.l1_chain_id) in
      let sources = validate_sources_iff in
      (
        λ h.
            let (a, b, c, d, e) = tests.0 h in
            (id.0 a, l1_id.0 b, url.0 c, same.0 d, (sources.0 e).0, (sources.0 e).1),
        λ (a, b, c, d, e, f). tests.1 (id.1 a, l1_id.1 b, url.1 c, same.1 d, sources.1 (e, f)),
      )
