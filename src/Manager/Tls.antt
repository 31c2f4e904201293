-- ===== src/Manager/Tls.antt =====
-- What the options of cmd/main.go make of the TLS configuration of the two servers.
use op_stack_operator.Prelude.{
  ◌≡◌, refl, ◌↔◌, false, Option, none, some, List, [], ◌∷◌, if◌then◌else◌, Bool-cases, inl, inr,
  arith,
}
use op_stack_operator.Manager.Options.{
  Flags, TlsConfig, TlsOption, base_tls_opts, with_watcher, metrics_server_options, manager_options,
}

module _ {Watcher : Type 0} where
  -- A server applies its options to its configuration, one after the other.
  unfoldable pub configure : List (TlsOption Watcher) → TlsConfig Watcher → TlsConfig Watcher
  configure [] c = c
  configure (option ∷ options) c = configure options (option c)

  -- HTTP/1.1 alone unless HTTP/2 is enabled, and the certificate of the watcher if there is one.
  abbrev pub expected_tls : Flags → Option Watcher → TlsConfig Watcher → TlsConfig Watcher
  expected_tls flags watcher c = record {
    next_protos = if flags.enable_http2 then c.next_protos else "http/1.1" ∷ [];
    get_certificate = elim watcher [ none ↦ c.get_certificate | some w ↦ some w ];
  }

  configure-with_watcher :
      (flags : Flags) (watcher : Option Watcher) (c : TlsConfig Watcher)
      → configure (with_watcher watcher (base_tls_opts flags)) c ≡ expected_tls flags watcher c
  unfolding configure with_watcher base_tls_opts
  configure-with_watcher flags none c = elim (Bool-cases flags.enable_http2) [
    | inl e ↦ rw e refl
    | inr e ↦ rw e refl
  ]
  configure-with_watcher flags (some w) c = elim (Bool-cases flags.enable_http2) [
    | inl e ↦ rw e refl
    | inr e ↦ rw e refl
  ]

  -- Unless HTTP/2 is enabled, both servers offer HTTP/1.1 and nothing else, whatever their
  -- configuration was; each presents the certificate of its own watcher where it has one, and
  -- neither that of the other. The metrics server is filtered by authentication and authorization
  -- exactly if it serves securely.
  pub manager_options-tls :
      (flags : Flags) (webhook metrics : Option Watcher) (c : TlsConfig Watcher)
      → let options = manager_options flags webhook metrics in
        (configure options.webhook_tls_opts c ≡ expected_tls flags webhook c)
        × (configure options.metrics.tls_opts c ≡ expected_tls flags metrics c)
        × ((options.metrics.filter_provider ≡ none) ↔ (options.metrics.secure_serving ≡ false))
  unfolding manager_options metrics_server_options
  manager_options-tls flags webhook metrics c =
      (configure-with_watcher flags webhook c, configure-with_watcher flags metrics c, ground arith)
