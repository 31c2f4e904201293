-- ===== src/Tests/Memory.antt =====
-- Deep copies of API types that stand in memory.
use op_stack_operator.Prelude.{ℕ, ◌≡◌, refl, true, none, some, List, [], ◌∷◌, String, arith}
use op_stack_operator.Prelude.Int.{ℤ, pos}
use op_stack_operator.DeepCopy.Memory.{
  Pointer, pure, itself, no_addresses, copy_pointer, contents_pointer, addresses_pointer, copy_each,
  copy_entry, addresses_each, addresses_entry,
}
use op_stack_operator.DeepCopy.Copies.{pure-Copies, copy_pointer-Copies}
use op_stack_operator.DeepCopy.Library.{Foreign, Library}
use op_stack_operator.DeepCopy.NetworkConfig.{
  SharedConfigStruct, addresses_shared_config, addresses_security_config, addresses_resource_config,
  deep_copy_into_shared_config, deep_copy_into_security_config, deep_copy_into_resource_config,
  deep_copy_shared_config,
}
use op_stack_operator.DeepCopy.Separate.{IsDeepCopy}
use op_stack_operator.DeepCopy.Types.{shared_config, deep_copy}
use op_stack_operator.DeepCopy.Extent.{contents_of, addresses_of}
use op_stack_operator.DeepCopy.Isolated.{deep_copy-IsDeepCopy}
use op_stack_operator.DeepCopy.Scaffold.{OpBatcherStruct}
use op_stack_operator.DeepCopy.Objects.{Object, deep_copy_object, deep_copy_object-Answers, Answers}

-- A type that holds no pointer.
abbrev flat : Type 0 → Foreign
flat A = record {
  Carrier = A;
  contents = itself;
  addresses = no_addresses;
  deep_copy = pure;
  copies = pure-Copies;
}

-- A type that is one pointer, such as object metadata with labels only.
abbrev boxed : Type 0 → Foreign
boxed A = record {
  Carrier = Pointer A;
  contents = contents_pointer itself;
  addresses = addresses_pointer no_addresses;
  deep_copy = copy_pointer pure;
  copies = copy_pointer-Copies pure-Copies;
}

abbrev sample_library : Library
sample_library = record {
  object_meta = boxed (List (String × String));
  list_meta = flat String;
  condition = flat String;
  time = flat ℤ;
  quantity = boxed ℕ;
  secret_key_selector = flat String;
  config_map_key_selector = flat String;
  resource_requirements = flat (Unit {0});
  seccomp_profile = flat String;
}

abbrev at : {A : Type 0} → ℕ → A → Pointer A
at a x = some (record { address = a; content = x })

-- A shared configuration with two pointers into its security settings and one quantity.
abbrev sample_shared : Pointer (SharedConfigStruct sample_library)
sample_shared = at 1 (record {
  logging = none;
  metrics = none;
  resources = at 2 (record { requests = at 3 (("cpu", at 4 7) ∷ []); limits = none });
  security = at 5 (record {
    run_as_non_root = at 6 true;
    run_as_user = none;
    fs_group = at 7 (pos 1000);
    seccomp_profile = none;
  });
})

deep_copy-IsDeepCopy_example :
    IsDeepCopy
      (contents_pointer (contents_of sample_library shared_config))
      (addresses_pointer (addresses_of sample_library shared_config))
      sample_shared
      (deep_copy sample_library shared_config sample_shared 40).0
unfolding addresses_of addresses_shared_config addresses_resource_config addresses_security_config
    addresses_pointer addresses_each addresses_entry
deep_copy-IsDeepCopy_example =
    deep_copy-IsDeepCopy sample_library shared_config sample_shared 40 (omega arith)

-- The copy stands at 40 to 46.
copied_to :
    addresses_pointer
      (addresses_of sample_library shared_config)
      (deep_copy sample_library shared_config sample_shared 40).0
    ≡ 40 ∷ 41 ∷ 42 ∷ 43 ∷ 44 ∷ 45 ∷ 46 ∷ []
unfolding addresses_of addresses_shared_config addresses_resource_config addresses_security_config
    addresses_pointer addresses_each addresses_entry deep_copy deep_copy_into_shared_config
    deep_copy_into_security_config deep_copy_into_resource_config deep_copy_shared_config
    copy_pointer copy_each copy_entry
copied_to = refl

abbrev sample_batcher : OpBatcherStruct sample_library
sample_batcher = record {
  type_meta = record { kind = "OpBatcher"; api_version = "optimism.optimism.io/v1alpha1" };
  object_meta = at 9 (("app", "batcher") ∷ []);
  spec = record { foo = "bar" };
  status = record {};
}

deep_copy_object-Answers_example :
    Answers sample_library
      (Object.op_batcher (at 8 sample_batcher))
      40
      (deep_copy_object sample_library (Object.op_batcher (at 8 sample_batcher)) 40)
deep_copy_object-Answers_example =
    deep_copy_object-Answers sample_library (Object.op_batcher (at 8 sample_batcher)) 40
