-- ===== src/DeepCopy/Objects.antt =====
-- The DeepCopyObject methods: the deep copy of a kind as a runtime.Object, an interface value. A nil
-- interface is `none`; an interface value that holds a pointer is that pointer under its kind, also
-- where the pointer itself is nil.
use op_stack_operator.DeepCopy.Resources.{
  OpNodeStruct, deep_copy_op_node, deep_copy_into_op_node-Copies, contents_op_node,
  addresses_op_node, OpNodeListStruct, deep_copy_op_node_list, deep_copy_into_op_node_list-Copies,
  contents_op_node_list, addresses_op_node_list, OptimismNetworkStruct, deep_copy_optimism_network,
  deep_copy_into_optimism_network-Copies, contents_optimism_network, addresses_optimism_network,
  OptimismNetworkListStruct, deep_copy_optimism_network_list,
  deep_copy_into_optimism_network_list-Copies, contents_optimism_network_list,
  addresses_optimism_network_list,
}
use op_stack_operator.DeepCopy.Scaffold.{
  OpBatcherStruct, deep_copy_op_batcher, deep_copy_into_op_batcher-Copies, contents_op_batcher,
  addresses_op_batcher, OpBatcherListStruct, deep_copy_op_batcher_list,
  deep_copy_into_op_batcher_list-Copies, contents_op_batcher_list, addresses_op_batcher_list,
  OpProposerStruct, deep_copy_op_proposer, deep_copy_into_op_proposer-Copies, contents_op_proposer,
  addresses_op_proposer, OpProposerListStruct, deep_copy_op_proposer_list,
  deep_copy_into_op_proposer_list-Copies, contents_op_proposer_list, addresses_op_proposer_list,
  OpChallengerStruct, deep_copy_op_challenger, deep_copy_into_op_challenger-Copies,
  contents_op_challenger, addresses_op_challenger, OpChallengerListStruct,
  deep_copy_op_challenger_list, deep_copy_into_op_challenger_list-Copies,
  contents_op_challenger_list, addresses_op_challenger_list,
}
use op_stack_operator.DeepCopy.Library.{Library}
use op_stack_operator.DeepCopy.Memory.{
  Pointer, Alloc, ◌>>=◌, pure, copy_pointer, contents_pointer, addresses_pointer,
}
use op_stack_operator.DeepCopy.Copies.{copy_pointer-Copies, Copies, Between}
use op_stack_operator.Prelude.{ℕ, ◌≡◌, refl, Bool, true, false, Option, none, some, List}

abbrev pub is_nil : {A : Type 0} → Pointer A → Bool
is_nil none = true
is_nil (some p) = false

module _ (L : Library) where
  -- runtime.Object, as far as the types of this package implement it
  pub data Object : Type 0 where
    op_node : Pointer (OpNodeStruct L) → Object
    op_node_list : Pointer (OpNodeListStruct L) → Object
    optimism_network : Pointer (OptimismNetworkStruct L) → Object
    optimism_network_list : Pointer (OptimismNetworkListStruct L) → Object
    op_batcher : Pointer (OpBatcherStruct L) → Object
    op_batcher_list : Pointer (OpBatcherListStruct L) → Object
    op_proposer : Pointer (OpProposerStruct L) → Object
    op_proposer_list : Pointer (OpProposerListStruct L) → Object
    op_challenger : Pointer (OpChallengerStruct L) → Object
    op_challenger_list : Pointer (OpChallengerListStruct L) → Object

  -- if c := in.DeepCopy(); c != nil { return c }; return nil
  abbrev object_unless_nil : {A : Type 0} → (Pointer A → Object) → Pointer A → Option Object
  object_unless_nil kind none = none
  object_unless_nil kind (some c) = some (kind (some c))

  pub deep_copy_object_op_node : Pointer (OpNodeStruct L) → Alloc (Option Object)
  deep_copy_object_op_node p = do c ← deep_copy_op_node L p; pure (object_unless_nil op_node c)

  pub deep_copy_object_op_node_list : Pointer (OpNodeListStruct L) → Alloc (Option Object)
  deep_copy_object_op_node_list p = do
    c ← deep_copy_op_node_list L p
    pure (object_unless_nil op_node_list c)

  pub deep_copy_object_optimism_network : Pointer (OptimismNetworkStruct L) → Alloc (Option Object)
  deep_copy_object_optimism_network p = do
    c ← deep_copy_optimism_network L p
    pure (object_unless_nil optimism_network c)

  pub deep_copy_object_optimism_network_list :
      Pointer (OptimismNetworkListStruct L) → Alloc (Option Object)
  deep_copy_object_optimism_network_list p = do
    c ← deep_copy_optimism_network_list L p
    pure (object_unless_nil optimism_network_list c)

  pub deep_copy_object_op_batcher : Pointer (OpBatcherStruct L) → Alloc (Option Object)
  deep_copy_object_op_batcher p = do
    c ← deep_copy_op_batcher L p
    pure (object_unless_nil op_batcher c)

  pub deep_copy_object_op_batcher_list : Pointer (OpBatcherListStruct L) → Alloc (Option Object)
  deep_copy_object_op_batcher_list p = do
    c ← deep_copy_op_batcher_list L p
    pure (object_unless_nil op_batcher_list c)

  pub deep_copy_object_op_proposer : Pointer (OpProposerStruct L) → Alloc (Option Object)
  deep_copy_object_op_proposer p = do
    c ← deep_copy_op_proposer L p
    pure (object_unless_nil op_proposer c)

  pub deep_copy_object_op_proposer_list : Pointer (OpProposerListStruct L) → Alloc (Option Object)
  deep_copy_object_op_proposer_list p = do
    c ← deep_copy_op_proposer_list L p
    pure (object_unless_nil op_proposer_list c)

  pub deep_copy_object_op_challenger : Pointer (OpChallengerStruct L) → Alloc (Option Object)
  deep_copy_object_op_challenger p = do
    c ← deep_copy_op_challenger L p
    pure (object_unless_nil op_challenger c)

  pub deep_copy_object_op_challenger_list :
      Pointer (OpChallengerListStruct L) → Alloc (Option Object)
  deep_copy_object_op_challenger_list p = do
    c ← deep_copy_op_challenger_list L p
    pure (object_unless_nil op_challenger_list c)

  -- The call o.DeepCopyObject(), by the kind of the object.
  unfoldable pub deep_copy_object : Object → Alloc (Option Object)
  unfolding deep_copy_object_op_node deep_copy_object_op_node_list deep_copy_object_optimism_network
      deep_copy_object_optimism_network_list deep_copy_object_op_batcher
      deep_copy_object_op_batcher_list deep_copy_object_op_proposer
      deep_copy_object_op_proposer_list deep_copy_object_op_challenger
      deep_copy_object_op_challenger_list
  deep_copy_object (op_node p) = deep_copy_object_op_node p
  deep_copy_object (op_node_list p) = deep_copy_object_op_node_list p
  deep_copy_object (optimism_network p) = deep_copy_object_optimism_network p
  deep_copy_object (optimism_network_list p) = deep_copy_object_optimism_network_list p
  deep_copy_object (op_batcher p) = deep_copy_object_op_batcher p
  deep_copy_object (op_batcher_list p) = deep_copy_object_op_batcher_list p
  deep_copy_object (op_proposer p) = deep_copy_object_op_proposer p
  deep_copy_object (op_proposer_list p) = deep_copy_object_op_proposer_list p
  deep_copy_object (op_challenger p) = deep_copy_object_op_challenger p
  deep_copy_object (op_challenger_list p) = deep_copy_object_op_challenger_list p

  unfoldable pub contents_object : Object → Object
  contents_object (op_node p) = op_node (contents_pointer (contents_op_node L) p)
  contents_object (op_node_list p) = op_node_list (contents_pointer (contents_op_node_list L) p)
  contents_object (optimism_network p) =
      optimism_network (contents_pointer (contents_optimism_network L) p)
  contents_object (optimism_network_list p) =
      optimism_network_list (contents_pointer (contents_optimism_network_list L) p)
  contents_object (op_batcher p) = op_batcher (contents_pointer (contents_op_batcher L) p)
  contents_object (op_batcher_list p) =
      op_batcher_list (contents_pointer (contents_op_batcher_list L) p)
  contents_object (op_proposer p) = op_proposer (contents_pointer (contents_op_proposer L) p)
  contents_object (op_proposer_list p) =
      op_proposer_list (contents_pointer (contents_op_proposer_list L) p)
  contents_object (op_challenger p) = op_challenger (contents_pointer (contents_op_challenger L) p)
  contents_object (op_challenger_list p) =
      op_challenger_list (contents_pointer (contents_op_challenger_list L) p)

  unfoldable pub addresses_object : Object → List ℕ
  addresses_object (op_node p) = addresses_pointer (addresses_op_node L) p
  addresses_object (op_node_list p) = addresses_pointer (addresses_op_node_list L) p
  addresses_object (optimism_network p) = addresses_pointer (addresses_optimism_network L) p
  addresses_object (optimism_network_list p) =
      addresses_pointer (addresses_optimism_network_list L) p
  addresses_object (op_batcher p) = addresses_pointer (addresses_op_batcher L) p
  addresses_object (op_batcher_list p) = addresses_pointer (addresses_op_batcher_list L) p
  addresses_object (op_proposer p) = addresses_pointer (addresses_op_proposer L) p
  addresses_object (op_proposer_list p) = addresses_pointer (addresses_op_proposer_list L) p
  addresses_object (op_challenger p) = addresses_pointer (addresses_op_challenger L) p
  addresses_object (op_challenger_list p) = addresses_pointer (addresses_op_challenger_list L) p

  -- The interface value holds a nil pointer.
  unfoldable pub holds_nil : Object → Bool
  holds_nil (op_node p) = is_nil p
  holds_nil (op_node_list p) = is_nil p
  holds_nil (optimism_network p) = is_nil p
  holds_nil (optimism_network_list p) = is_nil p
  holds_nil (op_batcher p) = is_nil p
  holds_nil (op_batcher_list p) = is_nil p
  holds_nil (op_proposer p) = is_nil p
  holds_nil (op_proposer_list p) = is_nil p
  holds_nil (op_challenger p) = is_nil p
  holds_nil (op_challenger_list p) = is_nil p

  -- What DeepCopyObject of `o` answers, with the free memory from `n` on: the nil interface for a nil
  -- pointer, with nothing allocated, and else a pointer of the same kind to a copy in fresh memory.
  abbrev pub Answers : Object → ℕ → Option Object × ℕ → Type 0
  Answers o n (none, m) = (holds_nil o ≡ true) × (m ≡ n)
  Answers o n (some o', m) =
      (holds_nil o ≡ false)
      × (holds_nil o' ≡ false)
      × (contents_object o' ≡ contents_object o)
      × Between n m (addresses_object o')

  -- So it is for one kind, given what the functions on objects do at that kind.
  module _ {A : Type 0} {contents : A → A} {addresses : A → List ℕ} {copy : A → Alloc A}
      (kind : Pointer A → Object)
      (contents_kind : (p : Pointer A)
        → contents_object (kind p) ≡ kind (contents_pointer contents p))
      (addresses_kind : (p : Pointer A) → addresses_object (kind p) ≡ addresses_pointer addresses p)
      (holds_nil_kind : (p : Pointer A) → holds_nil (kind p) ≡ is_nil p)
      (law : Copies contents addresses copy) where
    answered :
        (p : Pointer A) (n : ℕ)
        → Answers (kind p) n ((copy_pointer copy p >>= λ c. pure (object_unless_nil kind c)) n)
    unfolding copy_pointer
    answered none n = (holds_nil_kind none, refl)
    answered (some p) n =
        let (made, m) = copy_pointer copy (some p) n in
        let h = (copy_pointer-Copies law).copied (some p) n in
        (
          holds_nil_kind (some p),
          holds_nil_kind made,
          rw (contents_kind made, contents_kind (some p), h.0) refl,
          rw (addresses_kind made) h.1,
        )

  -- DeepCopyObject of each of the ten kinds (the five resources and their lists), with the free memory
  -- from `n` on: for a nil pointer it answers the nil interface, not an interface that holds a nil
  -- pointer, and allocates nothing; for any other it answers an interface that holds a pointer of the
  -- same kind with the same contents, and every address of that is newly allocated and stands there
  -- once.
  pub deep_copy_object-Answers : (o : Object) (n : ℕ) → Answers o n (deep_copy_object o n)
  unfolding deep_copy_object contents_object addresses_object holds_nil deep_copy_op_node
      deep_copy_op_node_list deep_copy_optimism_network deep_copy_optimism_network_list
      deep_copy_op_batcher deep_copy_op_batcher_list deep_copy_op_proposer
      deep_copy_op_proposer_list deep_copy_op_challenger deep_copy_op_challenger_list
  deep_copy_object-Answers (op_node p) =
      answered op_node (λ p. refl) (λ p. refl) (λ p. refl) (deep_copy_into_op_node-Copies L) p
  deep_copy_object-Answers (op_node_list p) =
      answered op_node_list (λ p. refl) (λ p. refl) (λ p. refl)
        (deep_copy_into_op_node_list-Copies L) p
  deep_copy_object-Answers (optimism_network p) =
      answered optimism_network (λ p. refl) (λ p. refl) (λ p. refl)
        (deep_copy_into_optimism_network-Copies L) p
  deep_copy_object-Answers (optimism_network_list p) =
      answered optimism_network_list (λ p. refl) (λ p. refl) (λ p. refl)
        (deep_copy_into_optimism_network_list-Copies L) p
  deep_copy_object-Answers (op_batcher p) =
      answered op_batcher (λ p. refl) (λ p. refl) (λ p. refl) (deep_copy_into_op_batcher-Copies L) p
  deep_copy_object-Answers (op_batcher_list p) =
      answered op_batcher_list (λ p. refl) (λ p. refl) (λ p. refl)
        (deep_copy_into_op_batcher_list-Copies L) p
  deep_copy_object-Answers (op_proposer p) =
      answered op_proposer (λ p. refl) (λ p. refl) (λ p. refl) (deep_copy_into_op_proposer-Copies L)
        p
  deep_copy_object-Answers (op_proposer_list p) =
      answered op_proposer_list (λ p. refl) (λ p. refl) (λ p. refl)
        (deep_copy_into_op_proposer_list-Copies L) p
  deep_copy_object-Answers (op_challenger p) =
      answered op_challenger (λ p. refl) (λ p. refl) (λ p. refl)
        (deep_copy_into_op_challenger-Copies L) p
  deep_copy_object-Answers (op_challenger_list p) =
      answered op_challenger_list (λ p. refl) (λ p. refl) (λ p. refl)
        (deep_copy_into_op_challenger_list-Copies L) p
