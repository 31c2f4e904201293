-- ===== src/DeepCopy/Scaffold.antt =====
-- The batcher, proposer and challenger resources and their lists.
use op_stack_operator.Api.Scaffold.{
  OpBatcherSpec, OpBatcherStatus, OpChallengerSpec, OpChallengerStatus, OpProposerSpec,
  OpProposerStatus,
}
use op_stack_operator.DeepCopy.Copies.{
  Copies, copy_each-Copies, copy_pointer-Copies, fields-Copies, ◌then_field◌,
}
use op_stack_operator.DeepCopy.Library.{Library, TypeMeta}
use op_stack_operator.DeepCopy.Memory.{
  Alloc, Pointer, addresses_each, addresses_pointer, contents_each, contents_pointer, copy_each,
  copy_pointer, pure, ◌>>=◌,
}
use op_stack_operator.Prelude.{List, refl, ℕ, ◌++◌}

module _ (L : Library) where
  pub record OpBatcherStruct : Type 0 where
    pub type_meta : TypeMeta
    pub object_meta : L.object_meta.Carrier
    pub spec : OpBatcherSpec
    pub status : OpBatcherStatus

  unfoldable pub deep_copy_into_op_batcher : OpBatcherStruct → Alloc OpBatcherStruct
  deep_copy_into_op_batcher x = do
    object_meta ← L.object_meta.deep_copy x.object_meta
    pure (record x {
      type_meta = x.type_meta;
      object_meta = object_meta;
      spec = x.spec;
      status = x.status;
    })

  unfoldable pub deep_copy_op_batcher : Pointer OpBatcherStruct → Alloc (Pointer OpBatcherStruct)
  deep_copy_op_batcher = copy_pointer deep_copy_into_op_batcher

  unfoldable pub contents_op_batcher : OpBatcherStruct → OpBatcherStruct
  contents_op_batcher x = record x { object_meta = L.object_meta.contents x.object_meta }

  unfoldable pub addresses_op_batcher : OpBatcherStruct → List ℕ
  addresses_op_batcher x = L.object_meta.addresses x.object_meta

  pub deep_copy_into_op_batcher-Copies :
      Copies contents_op_batcher addresses_op_batcher deep_copy_into_op_batcher
  unfolding deep_copy_into_op_batcher contents_op_batcher addresses_op_batcher
  deep_copy_into_op_batcher-Copies =
      fields-Copies (λ (x : OpBatcherStruct). x.object_meta)
        (λ x object_meta. record x { object_meta = object_meta }) (λ x p. refl) (λ x p q. refl)
        (L.object_meta.copies)

  pub record OpBatcherListStruct : Type 0 where
    pub type_meta : TypeMeta
    pub list_meta : L.list_meta.Carrier
    pub items : Pointer (List OpBatcherStruct)

  unfoldable pub deep_copy_into_op_batcher_list : OpBatcherListStruct → Alloc OpBatcherListStruct
  deep_copy_into_op_batcher_list x = do
    list_meta ← L.list_meta.deep_copy x.list_meta
    items ← copy_pointer (copy_each deep_copy_into_op_batcher) x.items
    pure (record x { type_meta = x.type_meta; list_meta = list_meta; items = items })

  unfoldable pub deep_copy_op_batcher_list :
      Pointer OpBatcherListStruct → Alloc (Pointer OpBatcherListStruct)
  deep_copy_op_batcher_list = copy_pointer deep_copy_into_op_batcher_list

  unfoldable pub contents_op_batcher_list : OpBatcherListStruct → OpBatcherListStruct
  contents_op_batcher_list x = record x {
    list_meta = L.list_meta.contents x.list_meta;
    items = contents_pointer (contents_each contents_op_batcher) x.items;
  }

  unfoldable pub addresses_op_batcher_list : OpBatcherListStruct → List ℕ
  addresses_op_batcher_list x =
      L.list_meta.addresses x.list_meta
      ++ addresses_pointer (addresses_each addresses_op_batcher) x.items

  pub deep_copy_into_op_batcher_list-Copies :
      Copies contents_op_batcher_list addresses_op_batcher_list deep_copy_into_op_batcher_list
  unfolding deep_copy_into_op_batcher_list contents_op_batcher_list addresses_op_batcher_list
  deep_copy_into_op_batcher_list-Copies =
      fields-Copies (λ (x : OpBatcherListStruct). (x.list_meta, x.items))
        (λ x (list_meta, items). record x { list_meta = list_meta; items = items }) (λ x p. refl)
        (λ x p q. refl)
        (L.list_meta.copies
          then_field copy_pointer-Copies (copy_each-Copies deep_copy_into_op_batcher-Copies))

  pub record OpProposerStruct : Type 0 where
    pub type_meta : TypeMeta
    pub object_meta : L.object_meta.Carrier
    pub spec : OpProposerSpec
    pub status : OpProposerStatus

  unfoldable pub deep_copy_into_op_proposer : OpProposerStruct → Alloc OpProposerStruct
  deep_copy_into_op_proposer x = do
    object_meta ← L.object_meta.deep_copy x.object_meta
    pure (record x {
      type_meta = x.type_meta;
      object_meta = object_meta;
      spec = x.spec;
      status = x.status;
    })

  unfoldable pub deep_copy_op_proposer : Pointer OpProposerStruct → Alloc (Pointer OpProposerStruct)
  deep_copy_op_proposer = copy_pointer deep_copy_into_op_proposer

  unfoldable pub contents_op_proposer : OpProposerStruct → OpProposerStruct
  contents_op_proposer x = record x { object_meta = L.object_meta.contents x.object_meta }

  unfoldable pub addresses_op_proposer : OpProposerStruct → List ℕ
  addresses_op_proposer x = L.object_meta.addresses x.object_meta

  pub deep_copy_into_op_proposer-Copies :
      Copies contents_op_proposer addresses_op_proposer deep_copy_into_op_proposer
  unfolding deep_copy_into_op_proposer contents_op_proposer addresses_op_proposer
  deep_copy_into_op_proposer-Copies =
      fields-Copies (λ (x : OpProposerStruct). x.object_meta)
        (λ x object_meta. record x { object_meta = object_meta }) (λ x p. refl) (λ x p q. refl)
        (L.object_meta.copies)

  pub record OpProposerListStruct : Type 0 where
    pub type_meta : TypeMeta
    pub list_meta : L.list_meta.Carrier
    pub items : Pointer (List OpProposerStruct)

  unfoldable pub deep_copy_into_op_proposer_list : OpProposerListStruct → Alloc OpProposerListStruct
  deep_copy_into_op_proposer_list x = do
    list_meta ← L.list_meta.deep_copy x.list_meta
    items ← copy_pointer (copy_each deep_copy_into_op_proposer) x.items
    pure (record x { type_meta = x.type_meta; list_meta = list_meta; items = items })

  unfoldable pub deep_copy_op_proposer_list :
      Pointer OpProposerListStruct → Alloc (Pointer OpProposerListStruct)
  deep_copy_op_proposer_list = copy_pointer deep_copy_into_op_proposer_list

  unfoldable pub contents_op_proposer_list : OpProposerListStruct → OpProposerListStruct
  contents_op_proposer_list x = record x {
    list_meta = L.list_meta.contents x.list_meta;
    items = contents_pointer (contents_each contents_op_proposer) x.items;
  }

  unfoldable pub addresses_op_proposer_list : OpProposerListStruct → List ℕ
  addresses_op_proposer_list x =
      L.list_meta.addresses x.list_meta
      ++ addresses_pointer (addresses_each addresses_op_proposer) x.items

  pub deep_copy_into_op_proposer_list-Copies :
      Copies contents_op_proposer_list addresses_op_proposer_list deep_copy_into_op_proposer_list
  unfolding deep_copy_into_op_proposer_list contents_op_proposer_list addresses_op_proposer_list
  deep_copy_into_op_proposer_list-Copies =
      fields-Copies (λ (x : OpProposerListStruct). (x.list_meta, x.items))
        (λ x (list_meta, items). record x { list_meta = list_meta; items = items }) (λ x p. refl)
        (λ x p q. refl)
        (L.list_meta.copies
          then_field copy_pointer-Copies (copy_each-Copies deep_copy_into_op_proposer-Copies))

  pub record OpChallengerStruct : Type 0 where
    pub type_meta : TypeMeta
    pub object_meta : L.object_meta.Carrier
    pub spec : OpChallengerSpec
    pub status : OpChallengerStatus

  unfoldable pub deep_copy_into_op_challenger : OpChallengerStruct → Alloc OpChallengerStruct
  deep_copy_into_op_challenger x = do
    object_meta ← L.object_meta.deep_copy x.object_meta
    pure (record x {
      type_meta = x.type_meta;
      object_meta = object_meta;
      spec = x.spec;
      status = x.status;
    })

  unfoldable pub deep_copy_op_challenger :
      Pointer OpChallengerStruct → Alloc (Pointer OpChallengerStruct)
  deep_copy_op_challenger = copy_pointer deep_copy_into_op_challenger

  unfoldable pub contents_op_challenger : OpChallengerStruct → OpChallengerStruct
  contents_op_challenger x = record x { object_meta = L.object_meta.contents x.object_meta }

  unfoldable pub addresses_op_challenger : OpChallengerStruct → List ℕ
  addresses_op_challenger x = L.object_meta.addresses x.object_meta

  pub deep_copy_into_op_challenger-Copies :
      Copies contents_op_challenger addresses_op_challenger deep_copy_into_op_challenger
  unfolding deep_copy_into_op_challenger contents_op_challenger addresses_op_challenger
  deep_copy_into_op_challenger-Copies =
      fields-Copies (λ (x : OpChallengerStruct). x.object_meta)
        (λ x object_meta. record x { object_meta = object_meta }) (λ x p. refl) (λ x p q. refl)
        (L.object_meta.copies)

  pub record OpChallengerListStruct : Type 0 where
    pub type_meta : TypeMeta
    pub list_meta : L.list_meta.Carrier
    pub items : Pointer (List OpChallengerStruct)

  unfoldable pub deep_copy_into_op_challenger_list :
      OpChallengerListStruct → Alloc OpChallengerListStruct
  deep_copy_into_op_challenger_list x = do
    list_meta ← L.list_meta.deep_copy x.list_meta
    items ← copy_pointer (copy_each deep_copy_into_op_challenger) x.items
    pure (record x { type_meta = x.type_meta; list_meta = list_meta; items = items })

  unfoldable pub deep_copy_op_challenger_list :
      Pointer OpChallengerListStruct → Alloc (Pointer OpChallengerListStruct)
  deep_copy_op_challenger_list = copy_pointer deep_copy_into_op_challenger_list

  unfoldable pub contents_op_challenger_list : OpChallengerListStruct → OpChallengerListStruct
  contents_op_challenger_list x = record x {
    list_meta = L.list_meta.contents x.list_meta;
    items = contents_pointer (contents_each contents_op_challenger) x.items;
  }

  unfoldable pub addresses_op_challenger_list : OpChallengerListStruct → List ℕ
  addresses_op_challenger_list x =
      L.list_meta.addresses x.list_meta
      ++ addresses_pointer (addresses_each addresses_op_challenger) x.items

  pub deep_copy_into_op_challenger_list-Copies :
      Copies contents_op_challenger_list addresses_op_challenger_list
        deep_copy_into_op_challenger_list
  unfolding deep_copy_into_op_challenger_list contents_op_challenger_list
      addresses_op_challenger_list
  deep_copy_into_op_challenger_list-Copies =
      fields-Copies (λ (x : OpChallengerListStruct). (x.list_meta, x.items))
        (λ x (list_meta, items). record x { list_meta = list_meta; items = items }) (λ x p. refl)
        (λ x p q. refl)
        (L.list_meta.copies
          then_field copy_pointer-Copies (copy_each-Copies deep_copy_into_op_challenger-Copies))
