-- ===== src/DeepCopy/NodeStatus.antt =====
-- The status of an OpNode.
use op_stack_operator.Api.Node.{SyncStatusInfo}
use op_stack_operator.DeepCopy.Copies.{
  Copies, copy_each-Copies, copy_pointer-Copies, fields-Copies, pure-Copies, ◌then_field◌,
}
use op_stack_operator.DeepCopy.Library.{Library}
use op_stack_operator.DeepCopy.Memory.{
  Alloc, Pointer, addresses_each, addresses_pointer, contents_each, contents_pointer, copy_each,
  copy_pointer, itself, no_addresses, pure, ◌>>=◌,
}
use op_stack_operator.Prelude.{Bool, List, String, refl, ℕ, ◌++◌}
use op_stack_operator.Prelude.Int.{ℤ}

module _ (L : Library) where
  pub record ChainHeadInfoStruct : Type 0 where
    pub block_number : ℤ
    pub block_hash : String
    pub timestamp : L.time.Carrier

  unfoldable pub deep_copy_into_chain_head_info : ChainHeadInfoStruct → Alloc ChainHeadInfoStruct
  deep_copy_into_chain_head_info x = do
    timestamp ← L.time.deep_copy x.timestamp
    pure (record x { timestamp = timestamp })

  unfoldable pub deep_copy_chain_head_info :
      Pointer ChainHeadInfoStruct → Alloc (Pointer ChainHeadInfoStruct)
  deep_copy_chain_head_info = copy_pointer deep_copy_into_chain_head_info

  unfoldable pub contents_chain_head_info : ChainHeadInfoStruct → ChainHeadInfoStruct
  contents_chain_head_info x = record x { timestamp = L.time.contents x.timestamp }

  unfoldable pub addresses_chain_head_info : ChainHeadInfoStruct → List ℕ
  addresses_chain_head_info x = L.time.addresses x.timestamp

  pub deep_copy_into_chain_head_info-Copies :
      Copies contents_chain_head_info addresses_chain_head_info deep_copy_into_chain_head_info
  unfolding deep_copy_into_chain_head_info contents_chain_head_info addresses_chain_head_info
  deep_copy_into_chain_head_info-Copies =
      fields-Copies (λ (x : ChainHeadInfoStruct). x.timestamp)
        (λ x timestamp. record x { timestamp = timestamp }) (λ x p. refl) (λ x p q. refl)
        (L.time.copies)

  pub record NodeInfoStruct : Type 0 where
    pub chain_head : Pointer ChainHeadInfoStruct
    pub sync_status : Pointer SyncStatusInfo
    pub peer_count : ℤ
    pub engine_connected : Bool

  unfoldable pub deep_copy_into_node_info : NodeInfoStruct → Alloc NodeInfoStruct
  deep_copy_into_node_info x = do
    chain_head ← copy_pointer deep_copy_into_chain_head_info x.chain_head
    sync_status ← copy_pointer pure x.sync_status
    pure (record x { chain_head = chain_head; sync_status = sync_status })

  unfoldable pub deep_copy_node_info : Pointer NodeInfoStruct → Alloc (Pointer NodeInfoStruct)
  deep_copy_node_info = copy_pointer deep_copy_into_node_info

  unfoldable pub contents_node_info : NodeInfoStruct → NodeInfoStruct
  contents_node_info x = record x {
    chain_head = contents_pointer contents_chain_head_info x.chain_head;
    sync_status = contents_pointer itself x.sync_status;
  }

  unfoldable pub addresses_node_info : NodeInfoStruct → List ℕ
  addresses_node_info x =
      addresses_pointer addresses_chain_head_info x.chain_head
      ++ addresses_pointer no_addresses x.sync_status

  pub deep_copy_into_node_info-Copies :
      Copies contents_node_info addresses_node_info deep_copy_into_node_info
  unfolding deep_copy_into_node_info contents_node_info addresses_node_info
  deep_copy_into_node_info-Copies =
      fields-Copies (λ (x : NodeInfoStruct). (x.chain_head, x.sync_status))
        (λ x (chain_head, sync_status). record x {
          chain_head = chain_head;
          sync_status = sync_status;
        })
        (λ x p. refl) (λ x p q. refl)
        (copy_pointer-Copies deep_copy_into_chain_head_info-Copies
          then_field copy_pointer-Copies pure-Copies)

  pub record OpNodeStatusStruct : Type 0 where
    pub phase : String
    pub conditions : Pointer (List L.condition.Carrier)
    pub observed_generation : ℤ
    pub node_info : Pointer NodeInfoStruct

  unfoldable pub deep_copy_into_op_node_status : OpNodeStatusStruct → Alloc OpNodeStatusStruct
  deep_copy_into_op_node_status x = do
    conditions ← copy_pointer (copy_each L.condition.deep_copy) x.conditions
    node_info ← copy_pointer deep_copy_into_node_info x.node_info
    pure (record x { conditions = conditions; node_info = node_info })

  unfoldable pub deep_copy_op_node_status :
      Pointer OpNodeStatusStruct → Alloc (Pointer OpNodeStatusStruct)
  deep_copy_op_node_status = copy_pointer deep_copy_into_op_node_status

  unfoldable pub contents_op_node_status : OpNodeStatusStruct → OpNodeStatusStruct
  contents_op_node_status x = record x {
    conditions = contents_pointer (contents_each L.condition.contents) x.conditions;
    node_info = contents_pointer contents_node_info x.node_info;
  }

  unfoldable pub addresses_op_node_status : OpNodeStatusStruct → List ℕ
  addresses_op_node_status x =
      addresses_pointer (addresses_each L.condition.addresses) x.conditions
      ++ addresses_pointer addresses_node_info x.node_info

  pub deep_copy_into_op_node_status-Copies :
      Copies contents_op_node_status addresses_op_node_status deep_copy_into_op_node_status
  unfolding deep_copy_into_op_node_status contents_op_node_status addresses_op_node_status
  deep_copy_into_op_node_status-Copies =
      fields-Copies (λ (x : OpNodeStatusStruct). (x.conditions, x.node_info))
        (λ x (conditions, node_info). record x { conditions = conditions; node_info = node_info })
        (λ x p. refl) (λ x p q. refl)
        (copy_pointer-Copies (copy_each-Copies L.condition.copies)
          then_field copy_pointer-Copies deep_copy_into_node_info-Copies)
