-- ===== src/DeepCopy/NetworkConfig.antt =====
-- The configuration that an OptimismNetwork shares.
use op_stack_operator.Api.Network.{LoggingConfig, MetricsConfig}
use op_stack_operator.DeepCopy.Copies.{
  Copies, copy_each-Copies, copy_entry-Copies, copy_pointer-Copies, fields-Copies, pure-Copies,
  ◌then_field◌,
}
use op_stack_operator.DeepCopy.Library.{Library}
use op_stack_operator.DeepCopy.Memory.{
  Alloc, Pointer, addresses_each, addresses_entry, addresses_pointer, contents_each, contents_entry,
  contents_pointer, copy_each, copy_entry, copy_pointer, itself, no_addresses, pure, ◌>>=◌,
}
use op_stack_operator.Prelude.{Bool, List, String, refl, ℕ, ◌++◌}
use op_stack_operator.Prelude.Int.{ℤ}

module _ (L : Library) where
  pub record ConfigSourceStruct : Type 0 where
    pub inline : String
    pub config_map_ref : Pointer L.config_map_key_selector.Carrier
    pub auto_discover : Bool

  unfoldable pub deep_copy_into_config_source : ConfigSourceStruct → Alloc ConfigSourceStruct
  deep_copy_into_config_source x = do
    config_map_ref ← copy_pointer L.config_map_key_selector.deep_copy x.config_map_ref
    pure (record x { config_map_ref = config_map_ref })

  unfoldable pub deep_copy_config_source :
      Pointer ConfigSourceStruct → Alloc (Pointer ConfigSourceStruct)
  deep_copy_config_source = copy_pointer deep_copy_into_config_source

  unfoldable pub contents_config_source : ConfigSourceStruct → ConfigSourceStruct
  contents_config_source x = record x {
    config_map_ref = contents_pointer L.config_map_key_selector.contents x.config_map_ref;
  }

  unfoldable pub addresses_config_source : ConfigSourceStruct → List ℕ
  addresses_config_source x = addresses_pointer L.config_map_key_selector.addresses x.config_map_ref

  pub deep_copy_into_config_source-Copies :
      Copies contents_config_source addresses_config_source deep_copy_into_config_source
  unfolding deep_copy_into_config_source contents_config_source addresses_config_source
  deep_copy_into_config_source-Copies =
      fields-Copies (λ (x : ConfigSourceStruct). x.config_map_ref)
        (λ x config_map_ref. record x { config_map_ref = config_map_ref }) (λ x p. refl)
        (λ x p q. refl) (copy_pointer-Copies L.config_map_key_selector.copies)

  pub record ResourceConfigStruct : Type 0 where
    pub requests : Pointer (List (String × L.quantity.Carrier))
    pub limits : Pointer (List (String × L.quantity.Carrier))

  unfoldable pub deep_copy_into_resource_config : ResourceConfigStruct → Alloc ResourceConfigStruct
  deep_copy_into_resource_config x = do
    requests ← copy_pointer (copy_each (copy_entry L.quantity.deep_copy)) x.requests
    limits ← copy_pointer (copy_each (copy_entry L.quantity.deep_copy)) x.limits
    pure (record x { requests = requests; limits = limits })

  unfoldable pub deep_copy_resource_config :
      Pointer ResourceConfigStruct → Alloc (Pointer ResourceConfigStruct)
  deep_copy_resource_config = copy_pointer deep_copy_into_resource_config

  unfoldable pub contents_resource_config : ResourceConfigStruct → ResourceConfigStruct
  contents_resource_config x = record x {
    requests = contents_pointer (contents_each (contents_entry L.quantity.contents)) x.requests;
    limits = contents_pointer (contents_each (contents_entry L.quantity.contents)) x.limits;
  }

  unfoldable pub addresses_resource_config : ResourceConfigStruct → List ℕ
  addresses_resource_config x =
      addresses_pointer (addresses_each (addresses_entry L.quantity.addresses)) x.requests
      ++ addresses_pointer (addresses_each (addresses_entry L.quantity.addresses)) x.limits

  pub deep_copy_into_resource_config-Copies :
      Copies contents_resource_config addresses_resource_config deep_copy_into_resource_config
  unfolding deep_copy_into_resource_config contents_resource_config addresses_resource_config
  deep_copy_into_resource_config-Copies =
      fields-Copies (λ (x : ResourceConfigStruct). (x.requests, x.limits))
        (λ x (requests, limits). record x { requests = requests; limits = limits }) (λ x p. refl)
        (λ x p q. refl)
        (copy_pointer-Copies (copy_each-Copies (copy_entry-Copies L.quantity.copies))
          then_field copy_pointer-Copies (copy_each-Copies (copy_entry-Copies L.quantity.copies)))

  pub record SecurityConfigStruct : Type 0 where
    pub run_as_non_root : Pointer Bool
    pub run_as_user : Pointer ℤ
    pub fs_group : Pointer ℤ
    pub seccomp_profile : Pointer L.seccomp_profile.Carrier

  unfoldable pub deep_copy_into_security_config : SecurityConfigStruct → Alloc SecurityConfigStruct
  deep_copy_into_security_config x = do
    run_as_non_root ← copy_pointer pure x.run_as_non_root
    run_as_user ← copy_pointer pure x.run_as_user
    fs_group ← copy_pointer pure x.fs_group
    seccomp_profile ← copy_pointer L.seccomp_profile.deep_copy x.seccomp_profile
    pure (record x {
      run_as_non_root = run_as_non_root;
      run_as_user = run_as_user;
      fs_group = fs_group;
      seccomp_profile = seccomp_profile;
    })

  unfoldable pub deep_copy_security_config :
      Pointer SecurityConfigStruct → Alloc (Pointer SecurityConfigStruct)
  deep_copy_security_config = copy_pointer deep_copy_into_security_config

  unfoldable pub contents_security_config : SecurityConfigStruct → SecurityConfigStruct
  contents_security_config x = record x {
    run_as_non_root = contents_pointer itself x.run_as_non_root;
    run_as_user = contents_pointer itself x.run_as_user;
    fs_group = contents_pointer itself x.fs_group;
    seccomp_profile = contents_pointer L.seccomp_profile.contents x.seccomp_profile;
  }

  unfoldable pub addresses_security_config : SecurityConfigStruct → List ℕ
  addresses_security_config x =
      addresses_pointer no_addresses x.run_as_non_root
      ++ (addresses_pointer no_addresses x.run_as_user
          ++ (addresses_pointer no_addresses x.fs_group
              ++ addresses_pointer L.seccomp_profile.addresses x.seccomp_profile))

  pub deep_copy_into_security_config-Copies :
      Copies contents_security_config addresses_security_config deep_copy_into_security_config
  unfolding deep_copy_into_security_config contents_security_config addresses_security_config
  deep_copy_into_security_config-Copies =
      fields-Copies
        (λ (x : SecurityConfigStruct).
          (x.run_as_non_root, (x.run_as_user, (x.fs_group, x.seccomp_profile))))
        (λ x (run_as_non_root, (run_as_user, (fs_group, seccomp_profile))). record x {
          run_as_non_root = run_as_non_root;
          run_as_user = run_as_user;
          fs_group = fs_group;
          seccomp_profile = seccomp_profile;
        })
        (λ x p. refl) (λ x p q. refl)
        (copy_pointer-Copies pure-Copies
          then_field copy_pointer-Copies pure-Copies
          then_field copy_pointer-Copies pure-Copies
          then_field copy_pointer-Copies L.seccomp_profile.copies)

  pub record SharedConfigStruct : Type 0 where
    pub logging : Pointer LoggingConfig
    pub metrics : Pointer MetricsConfig
    pub resources : Pointer ResourceConfigStruct
    pub security : Pointer SecurityConfigStruct

  unfoldable pub deep_copy_into_shared_config : SharedConfigStruct → Alloc SharedConfigStruct
  deep_copy_into_shared_config x = do
    logging ← copy_pointer pure x.logging
    metrics ← copy_pointer pure x.metrics
    resources ← copy_pointer deep_copy_into_resource_config x.resources
    security ← copy_pointer deep_copy_into_security_config x.security
    pure (record x {
      logging = logging;
      metrics = metrics;
      resources = resources;
      security = security;
    })

  unfoldable pub deep_copy_shared_config :
      Pointer SharedConfigStruct → Alloc (Pointer SharedConfigStruct)
  deep_copy_shared_config = copy_pointer deep_copy_into_shared_config

  unfoldable pub contents_shared_config : SharedConfigStruct → SharedConfigStruct
  contents_shared_config x = record x {
    logging = contents_pointer itself x.logging;
    metrics = contents_pointer itself x.metrics;
    resources = contents_pointer contents_resource_config x.resources;
    security = contents_pointer contents_security_config x.security;
  }

  unfoldable pub addresses_shared_config : SharedConfigStruct → List ℕ
  addresses_shared_config x =
      addresses_pointer no_addresses x.logging
      ++ (addresses_pointer no_addresses x.metrics
          ++ (addresses_pointer addresses_resource_config x.resources
              ++ addresses_pointer addresses_security_config x.security))

  pub deep_copy_into_shared_config-Copies :
      Copies contents_shared_config addresses_shared_config deep_copy_into_shared_config
  unfolding deep_copy_into_shared_config contents_shared_config addresses_shared_config
  deep_copy_into_shared_config-Copies =
      fields-Copies
        (λ (x : SharedConfigStruct). (x.logging, (x.metrics, (x.resources, x.security))))
        (λ x (logging, (metrics, (resources, security))). record x {
          logging = logging;
          metrics = metrics;
          resources = resources;
          security = security;
        })
        (λ x p. refl) (λ x p q. refl)
        (copy_pointer-Copies pure-Copies
          then_field copy_pointer-Copies pure-Copies
          then_field copy_pointer-Copies deep_copy_into_resource_config-Copies
          then_field copy_pointer-Copies deep_copy_into_security_config-Copies)
