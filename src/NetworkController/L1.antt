-- ===== src/NetworkController/L1.antt =====
-- testL1Connectivity of internal/controller/optimismnetwork_controller.go.
use op_stack_operator.Prelude.{
  ap, sym, ◌∙◌, ◌⊎◌, inl, inr, ℕ, zero, suc, ◌/◌, ◌<>◌, ◌≡◌, refl, ◌↔◌, arith, if◌then◌else◌,
}
use op_stack_operator.Prelude.Int.{ℤ, pos, negsuc, ◌==ℤ◌, ==ℤ_iff}
use op_stack_operator.Text.{format_int}
use op_stack_operator.Api.Network.{OptimismNetwork}
use op_stack_operator.Runtime.{Result, ok, err, errorf, Eff, pure, ◌>>=◌, ◌>>◌, or_wrap}
use op_stack_operator.Cluster.{Cluster, InInt64, InInt64-cases, FitsInt64}

abbrev pub minus : ℕ → ℤ
minus zero = pos 0
minus (suc n) = negsuc n

-- Go's `timeout / 2`, which rounds towards zero.
abbrev pub half : ℤ → ℤ
half (pos n) = pos (n / 2)
half (negsuc n) = minus (suc n / 2)

module _ {W EthClient Q : Type 0} (cluster : Cluster W EthClient Q)
    (network : OptimismNetwork Q) where
  abbrev pub l1_timeout : ℤ
  l1_timeout =
      if network.spec.l1_rpc_timeout ==ℤ pos 0 then pos 10000000000 else network.spec.l1_rpc_timeout

  -- The test of the chain ID that the endpoint answered, after its conversion to an int64.
  unfoldable pub check_chain_id : ℤ → Result (Unit {0})
  check_chain_id chain_id =
      if cluster.int64 chain_id ==ℤ network.spec.l1_chain_id
      then ok tt
      else err (
          errorf (
            "L1 chain ID mismatch: expected "
            <> format_int network.spec.l1_chain_id
            <> ", got "
            <> format_int (cluster.int64 chain_id)))

  -- The deferred Close runs last, on every path behind a successful dial.
  unfoldable pub test_l1_connectivity : Eff W (Result (Unit {0}))
  unfolding check_chain_id
  test_l1_connectivity = do
    dialed ← cluster.dial_context l1_timeout network.spec.l1_rpc_url
    or_wrap "failed to connect to L1 RPC: " dialed λ client. do
      answered ← cluster.chain_id (half l1_timeout) client
      cluster.close client
      or_wrap "failed to get L1 chain ID: " answered λ chain_id. pure (check_chain_id chain_id)

  -- The endpoint answered the L1 chain ID of the specification, or a number that does not fit an
  -- int64, whose conversion, of which nothing is documented, is that chain ID.
  abbrev pub AnswersChainId : Result ℤ → Type 0
  AnswersChainId answered =
      (answered ≡ ok network.spec.l1_chain_id)
      ⊎ ((id : ℤ) × (answered ≡ ok id)
          × (¬ InInt64 id)
          × (cluster.int64 id ≡ network.spec.l1_chain_id))

  converted :
      (id : ℤ)
      → FitsInt64 cluster
      → cluster.int64 id ≡ network.spec.l1_chain_id
      → AnswersChainId (ok id)
  converted id fits e = elim (InInt64-cases id) [
    | inl h ↦ inl (ap ok (sym (fits id h) ∙ e))
    | inr h ↦ inr (id, refl, h, e)
  ]

  unconverted :
      (id : ℤ)
      → FitsInt64 cluster
      → InInt64 network.spec.l1_chain_id
      → AnswersChainId (ok id)
      → cluster.int64 id ≡ network.spec.l1_chain_id
  unconverted id fits small (inl e) =
      let same : id ≡ network.spec.l1_chain_id = cc in
      ap cluster.int64 same ∙ fits network.spec.l1_chain_id small
  unconverted id fits small (inr (other, e, _, c)) =
      let same : id ≡ other = cc in ap cluster.int64 same ∙ c

  -- Behind a successful dial the client is closed last, whatever the endpoint answers. Where the
  -- specification's L1 chain ID is an int64 and the conversion to int64 keeps the numbers that fit,
  -- the test succeeds exactly if the endpoint answers that chain ID, or a number that does not fit
  -- an int64 and is converted to it.
  pub test_l1_connectivity-closes :
      (client : EthClient) (answered : Result ℤ) (w v u : W)
      → FitsInt64 cluster
      → InInt64 network.spec.l1_chain_id
      → cluster.dial_context l1_timeout network.spec.l1_rpc_url w ≡ (ok client, v)
      → cluster.chain_id (half l1_timeout) client v ≡ (answered, u)
      → ((test_l1_connectivity w).1 ≡ (cluster.close client u).1)
        × (((test_l1_connectivity w).0 ≡ ok tt) ↔ AnswersChainId answered)
  unfolding test_l1_connectivity check_chain_id
  test_l1_connectivity-closes client (ok id) w v u fits small h k =
      let test = ==ℤ_iff (cluster.int64 id) network.spec.l1_chain_id in
      rw (h, k)
        (
          refl,
          (
            λ e. converted id fits (ground (arith, e, test)),
            λ a. let c = unconverted id fits small a in ground (arith, c, test),
          ),
        )
  test_l1_connectivity-closes client (err e) w v u fits small h k =
      rw (h, k) (refl, ((λ f. cc), λ a. elim a [ inl f ↦ cc | inr (id, f, _, _) ↦ cc ]))
