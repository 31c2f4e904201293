-- ===== src/DeepCopy/NodeSpec.antt =====
-- The spec of an OpNode.
use op_stack_operator.Api.Node.{OptimismNetworkRef, SequencerReference, ServicePortConfig}
use op_stack_operator.DeepCopy.Copies.{
  Copies, copy_each-Copies, copy_entry-Copies, copy_pointer-Copies, fields-Copies, pure-Copies,
  ◌then_field◌,
}
use op_stack_operator.DeepCopy.Geth.{
  OpGethConfigStruct, addresses_op_geth_config, contents_op_geth_config,
  deep_copy_into_op_geth_config, deep_copy_into_op_geth_config-Copies,
}
use op_stack_operator.DeepCopy.Library.{Library}
use op_stack_operator.DeepCopy.Memory.{
  Alloc, Pointer, addresses_each, addresses_entry, addresses_pointer, contents_each, contents_entry,
  contents_pointer, copy_each, copy_entry, copy_pointer, itself, no_addresses, pure, ◌>>=◌,
}
use op_stack_operator.DeepCopy.NodeConfig.{
  OpNodeConfigStruct, addresses_op_node_config, contents_op_node_config,
  deep_copy_into_op_node_config, deep_copy_into_op_node_config-Copies,
}
use op_stack_operator.Prelude.{List, String, refl, ℕ, ◌++◌}

pub record ServiceConfigStruct : Type 0 where
  pub type : String
  pub annotations : Pointer (List (String × String))
  pub ports : Pointer (List ServicePortConfig)

unfoldable pub deep_copy_into_service_config : ServiceConfigStruct → Alloc ServiceConfigStruct
deep_copy_into_service_config x = do
  annotations ← copy_pointer (copy_each (copy_entry pure)) x.annotations
  ports ← copy_pointer pure x.ports
  pure (record x { annotations = annotations; ports = ports })

unfoldable pub deep_copy_service_config :
    Pointer ServiceConfigStruct → Alloc (Pointer ServiceConfigStruct)
deep_copy_service_config = copy_pointer deep_copy_into_service_config

unfoldable pub contents_service_config : ServiceConfigStruct → ServiceConfigStruct
contents_service_config x = record x {
  annotations = contents_pointer (contents_each (contents_entry itself)) x.annotations;
  ports = contents_pointer itself x.ports;
}

unfoldable pub addresses_service_config : ServiceConfigStruct → List ℕ
addresses_service_config x =
    addresses_pointer (addresses_each (addresses_entry no_addresses)) x.annotations
    ++ addresses_pointer no_addresses x.ports

pub deep_copy_into_service_config-Copies :
    Copies contents_service_config addresses_service_config deep_copy_into_service_config
unfolding deep_copy_into_service_config contents_service_config addresses_service_config
deep_copy_into_service_config-Copies =
    fields-Copies (λ (x : ServiceConfigStruct). (x.annotations, x.ports))
      (λ x (annotations, ports). record x { annotations = annotations; ports = ports })
      (λ x p. refl) (λ x p q. refl)
      (copy_pointer-Copies (copy_each-Copies (copy_entry-Copies pure-Copies))
        then_field copy_pointer-Copies pure-Copies)

module _ (L : Library) where
  pub record OpNodeResourcesStruct : Type 0 where
    pub op_node : Pointer L.resource_requirements.Carrier
    pub op_geth : Pointer L.resource_requirements.Carrier

  unfoldable pub deep_copy_into_op_node_resources :
      OpNodeResourcesStruct → Alloc OpNodeResourcesStruct
  deep_copy_into_op_node_resources x = do
    op_node ← copy_pointer L.resource_requirements.deep_copy x.op_node
    op_geth ← copy_pointer L.resource_requirements.deep_copy x.op_geth
    pure (record x { op_node = op_node; op_geth = op_geth })

  unfoldable pub deep_copy_op_node_resources :
      Pointer OpNodeResourcesStruct → Alloc (Pointer OpNodeResourcesStruct)
  deep_copy_op_node_resources = copy_pointer deep_copy_into_op_node_resources

  unfoldable pub contents_op_node_resources : OpNodeResourcesStruct → OpNodeResourcesStruct
  contents_op_node_resources x = record x {
    op_node = contents_pointer L.resource_requirements.contents x.op_node;
    op_geth = contents_pointer L.resource_requirements.contents x.op_geth;
  }

  unfoldable pub addresses_op_node_resources : OpNodeResourcesStruct → List ℕ
  addresses_op_node_resources x =
      addresses_pointer L.resource_requirements.addresses x.op_node
      ++ addresses_pointer L.resource_requirements.addresses x.op_geth

  pub deep_copy_into_op_node_resources-Copies :
      Copies contents_op_node_resources addresses_op_node_resources deep_copy_into_op_node_resources
  unfolding deep_copy_into_op_node_resources contents_op_node_resources addresses_op_node_resources
  deep_copy_into_op_node_resources-Copies =
      fields-Copies (λ (x : OpNodeResourcesStruct). (x.op_node, x.op_geth))
        (λ x (op_node, op_geth). record x { op_node = op_node; op_geth = op_geth }) (λ x p. refl)
        (λ x p q. refl)
        (copy_pointer-Copies L.resource_requirements.copies
          then_field copy_pointer-Copies L.resource_requirements.copies)

  pub record OpNodeSpecStruct : Type 0 where
    pub optimism_network_ref : OptimismNetworkRef
    pub node_type : String
    pub sequencer_ref : Pointer SequencerReference
    pub l2_rpc_url : String
    pub op_node : OpNodeConfigStruct L
    pub op_geth : OpGethConfigStruct L
    pub resources : Pointer OpNodeResourcesStruct
    pub service : Pointer ServiceConfigStruct

  unfoldable pub deep_copy_into_op_node_spec : OpNodeSpecStruct → Alloc OpNodeSpecStruct
  deep_copy_into_op_node_spec x = do
    sequencer_ref ← copy_pointer pure x.sequencer_ref
    op_node ← deep_copy_into_op_node_config L x.op_node
    op_geth ← deep_copy_into_op_geth_config L x.op_geth
    resources ← copy_pointer deep_copy_into_op_node_resources x.resources
    service ← copy_pointer deep_copy_into_service_config x.service
    pure (record x {
      optimism_network_ref = x.optimism_network_ref;
      sequencer_ref = sequencer_ref;
      op_node = op_node;
      op_geth = op_geth;
      resources = resources;
      service = service;
    })

  unfoldable pub deep_copy_op_node_spec :
      Pointer OpNodeSpecStruct → Alloc (Pointer OpNodeSpecStruct)
  deep_copy_op_node_spec = copy_pointer deep_copy_into_op_node_spec

  unfoldable pub contents_op_node_spec : OpNodeSpecStruct → OpNodeSpecStruct
  contents_op_node_spec x = record x {
    sequencer_ref = contents_pointer itself x.sequencer_ref;
    op_node = contents_op_node_config L x.op_node;
    op_geth = contents_op_geth_config L x.op_geth;
    resources = contents_pointer contents_op_node_resources x.resources;
    service = contents_pointer contents_service_config x.service;
  }

  unfoldable pub addresses_op_node_spec : OpNodeSpecStruct → List ℕ
  addresses_op_node_spec x =
      addresses_pointer no_addresses x.sequencer_ref
      ++ (addresses_op_node_config L x.op_node
          ++ (addresses_op_geth_config L x.op_geth
              ++ (addresses_pointer addresses_op_node_resources x.resources
                  ++ addresses_pointer addresses_service_config x.service)))

  pub deep_copy_into_op_node_spec-Copies :
      Copies contents_op_node_spec addresses_op_node_spec deep_copy_into_op_node_spec
  unfolding deep_copy_into_op_node_spec contents_op_node_spec addresses_op_node_spec
  deep_copy_into_op_node_spec-Copies =
      fields-Copies
        (λ (x : OpNodeSpecStruct).
          (x.sequencer_ref, (x.op_node, (x.op_geth, (x.resources, x.service)))))
        (λ x (sequencer_ref, (op_node, (op_geth, (resources, service)))). record x {
          sequencer_ref = sequencer_ref;
          op_node = op_node;
          op_geth = op_geth;
          resources = resources;
          service = service;
        })
        (λ x p. refl) (λ x p q. refl)
        (copy_pointer-Copies pure-Copies
          then_field (deep_copy_into_op_node_config-Copies L)
          then_field (deep_copy_into_op_geth_config-Copies L)
          then_field copy_pointer-Copies deep_copy_into_op_node_resources-Copies
          then_field copy_pointer-Copies deep_copy_into_service_config-Copies)
