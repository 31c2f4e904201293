-- ===== src/DeepCopy/Resources.antt =====
-- The OpNode and OptimismNetwork resources and their lists.
use op_stack_operator.DeepCopy.Copies.{
  Copies, copy_each-Copies, copy_pointer-Copies, fields-Copies, ◌then_field◌,
}
use op_stack_operator.DeepCopy.Library.{Library, TypeMeta}
use op_stack_operator.DeepCopy.Memory.{
  Alloc, Pointer, addresses_each, addresses_pointer, contents_each, contents_pointer, copy_each,
  copy_pointer, pure, ◌>>=◌,
}
use op_stack_operator.DeepCopy.NetworkParts.{
  OptimismNetworkSpecStruct, OptimismNetworkStatusStruct, addresses_optimism_network_spec,
  addresses_optimism_network_status, contents_optimism_network_spec,
  contents_optimism_network_status, deep_copy_into_optimism_network_spec,
  deep_copy_into_optimism_network_spec-Copies, deep_copy_into_optimism_network_status,
  deep_copy_into_optimism_network_status-Copies,
}
use op_stack_operator.DeepCopy.NodeSpec.{
  OpNodeSpecStruct, addresses_op_node_spec, contents_op_node_spec, deep_copy_into_op_node_spec,
  deep_copy_into_op_node_spec-Copies,
}
use op_stack_operator.DeepCopy.NodeStatus.{
  OpNodeStatusStruct, addresses_op_node_status, contents_op_node_status,
  deep_copy_into_op_node_status, deep_copy_into_op_node_status-Copies,
}
use op_stack_operator.Prelude.{List, refl, ℕ, ◌++◌}

module _ (L : Library) where
  pub record OpNodeStruct : Type 0 where
    pub type_meta : TypeMeta
    pub object_meta : L.object_meta.Carrier
    pub spec : OpNodeSpecStruct L
    pub status : OpNodeStatusStruct L

  unfoldable pub deep_copy_into_op_node : OpNodeStruct → Alloc OpNodeStruct
  deep_copy_into_op_node x = do
    object_meta ← L.object_meta.deep_copy x.object_meta
    spec ← deep_copy_into_op_node_spec L x.spec
    status ← deep_copy_into_op_node_status L x.status
    pure (record x {
      type_meta = x.type_meta;
      object_meta = object_meta;
      spec = spec;
      status = status;
    })

  unfoldable pub deep_copy_op_node : Pointer OpNodeStruct → Alloc (Pointer OpNodeStruct)
  deep_copy_op_node = copy_pointer deep_copy_into_op_node

  unfoldable pub contents_op_node : OpNodeStruct → OpNodeStruct
  contents_op_node x = record x {
    object_meta = L.object_meta.contents x.object_meta;
    spec = contents_op_node_spec L x.spec;
    status = contents_op_node_status L x.status;
  }

  unfoldable pub addresses_op_node : OpNodeStruct → List ℕ
  addresses_op_node x =
      L.object_meta.addresses x.object_meta
      ++ (addresses_op_node_spec L x.spec ++ addresses_op_node_status L x.status)

  pub deep_copy_into_op_node-Copies :
      Copies contents_op_node addresses_op_node deep_copy_into_op_node
  unfolding deep_copy_into_op_node contents_op_node addresses_op_node
  deep_copy_into_op_node-Copies =
      fields-Copies (λ (x : OpNodeStruct). (x.object_meta, (x.spec, x.status)))
        (λ x (object_meta, (spec, status)). record x {
          object_meta = object_meta;
          spec = spec;
          status = status;
        })
        (λ x p. refl) (λ x p q. refl)
        (L.object_meta.copies
          then_field (deep_copy_into_op_node_spec-Copies L)
          then_field (deep_copy_into_op_node_status-Copies L))

  pub record OpNodeListStruct : Type 0 where
    pub type_meta : TypeMeta
    pub list_meta : L.list_meta.Carrier
    pub items : Pointer (List OpNodeStruct)

  unfoldable pub deep_copy_into_op_node_list : OpNodeListStruct → Alloc OpNodeListStruct
  deep_copy_into_op_node_list x = do
    list_meta ← L.list_meta.deep_copy x.list_meta
    items ← copy_pointer (copy_each deep_copy_into_op_node) x.items
    pure (record x { type_meta = x.type_meta; list_meta = list_meta; items = items })

  unfoldable pub deep_copy_op_node_list :
      Pointer OpNodeListStruct → Alloc (Pointer OpNodeListStruct)
  deep_copy_op_node_list = copy_pointer deep_copy_into_op_node_list

  unfoldable pub contents_op_node_list : OpNodeListStruct → OpNodeListStruct
  contents_op_node_list x = record x {
    list_meta = L.list_meta.contents x.list_meta;
    items = contents_pointer (contents_each contents_op_node) x.items;
  }

  unfoldable pub addresses_op_node_list : OpNodeListStruct → List ℕ
  addresses_op_node_list x =
      L.list_meta.addresses x.list_meta
      ++ addresses_pointer (addresses_each addresses_op_node) x.items

  pub deep_copy_into_op_node_list-Copies :
      Copies contents_op_node_list addresses_op_node_list deep_copy_into_op_node_list
  unfolding deep_copy_into_op_node_list contents_op_node_list addresses_op_node_list
  deep_copy_into_op_node_list-Copies =
      fields-Copies (λ (x : OpNodeListStruct). (x.list_meta, x.items))
        (λ x (list_meta, items). record x { list_meta = list_meta; items = items }) (λ x p. refl)
        (λ x p q. refl)
        (L.list_meta.copies
          then_field copy_pointer-Copies (copy_each-Copies deep_copy_into_op_node-Copies))

  pub record OptimismNetworkStruct : Type 0 where
    pub type_meta : TypeMeta
    pub object_meta : L.object_meta.Carrier
    pub spec : OptimismNetworkSpecStruct L
    pub status : OptimismNetworkStatusStruct L

  unfoldable pub deep_copy_into_optimism_network :
      OptimismNetworkStruct → Alloc OptimismNetworkStruct
  deep_copy_into_optimism_network x = do
    object_meta ← L.object_meta.deep_copy x.object_meta
    spec ← deep_copy_into_optimism_network_spec L x.spec
    status ← deep_copy_into_optimism_network_status L x.status
    pure (record x {
      type_meta = x.type_meta;
      object_meta = object_meta;
      spec = spec;
      status = status;
    })

  unfoldable pub deep_copy_optimism_network :
      Pointer OptimismNetworkStruct → Alloc (Pointer OptimismNetworkStruct)
  deep_copy_optimism_network = copy_pointer deep_copy_into_optimism_network

  unfoldable pub contents_optimism_network : OptimismNetworkStruct → OptimismNetworkStruct
  contents_optimism_network x = record x {
    object_meta = L.object_meta.contents x.object_meta;
    spec = contents_optimism_network_spec L x.spec;
    status = contents_optimism_network_status L x.status;
  }

  unfoldable pub addresses_optimism_network : OptimismNetworkStruct → List ℕ
  addresses_optimism_network x =
      L.object_meta.addresses x.object_meta
      ++ (addresses_optimism_network_spec L x.spec ++ addresses_optimism_network_status L x.status)

  pub deep_copy_into_optimism_network-Copies :
      Copies contents_optimism_network addresses_optimism_network deep_copy_into_optimism_network
  unfolding deep_copy_into_optimism_network contents_optimism_network addresses_optimism_network
  deep_copy_into_optimism_network-Copies =
      fields-Copies (λ (x : OptimismNetworkStruct). (x.object_meta, (x.spec, x.status)))
        (λ x (object_meta, (spec, status)). record x {
          object_meta = object_meta;
          spec = spec;
          status = status;
        })
        (λ x p. refl) (λ x p q. refl)
        (L.object_meta.copies
          then_field (deep_copy_into_optimism_network_spec-Copies L)
          then_field (deep_copy_into_optimism_network_status-Copies L))

  pub record OptimismNetworkListStruct : Type 0 where
    pub type_meta : TypeMeta
    pub list_meta : L.list_meta.Carrier
    pub items : Pointer (List OptimismNetworkStruct)

  unfoldable pub deep_copy_into_optimism_network_list :
      OptimismNetworkListStruct → Alloc OptimismNetworkListStruct
  deep_copy_into_optimism_network_list x = do
    list_meta ← L.list_meta.deep_copy x.list_meta
    items ← copy_pointer (copy_each deep_copy_into_optimism_network) x.items
    pure (record x { type_meta = x.type_meta; list_meta = list_meta; items = items })

  unfoldable pub deep_copy_optimism_network_list :
      Pointer OptimismNetworkListStruct → Alloc (Pointer OptimismNetworkListStruct)
  deep_copy_optimism_network_list = copy_pointer deep_copy_into_optimism_network_list

  unfoldable pub contents_optimism_network_list :
      OptimismNetworkListStruct → OptimismNetworkListStruct
  contents_optimism_network_list x = record x {
    list_meta = L.list_meta.contents x.list_meta;
    items = contents_pointer (contents_each contents_optimism_network) x.items;
  }

  unfoldable pub addresses_optimism_network_list : OptimismNetworkListStruct → List ℕ
  addresses_optimism_network_list x =
      L.list_meta.addresses x.list_meta
      ++ addresses_pointer (addresses_each addresses_optimism_network) x.items

  pub deep_copy_into_optimism_network_list-Copies :
      Copies contents_optimism_network_list addresses_optimism_network_list
        deep_copy_into_optimism_network_list
  unfolding deep_copy_into_optimism_network_list contents_optimism_network_list
      addresses_optimism_network_list
  deep_copy_into_optimism_network_list-Copies =
      fields-Copies (λ (x : OptimismNetworkListStruct). (x.list_meta, x.items))
        (λ x (list_meta, items). record x { list_meta = list_meta; items = items }) (λ x p. refl)
        (λ x p q. refl)
        (L.list_meta.copies
          then_field copy_pointer-Copies (copy_each-Copies deep_copy_into_optimism_network-Copies))
