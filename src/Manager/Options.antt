-- ===== src/Manager/Options.antt =====
-- The flags of cmd/main.go and the options that it makes of them for controller-runtime: the TLS
-- options of the two servers, the metrics server's options and the manager's. `Watcher` stands for
-- certwatcher.CertWatcher.
use op_stack_operator.Prelude.{
  String, Bool, true, false, not, Option, none, some, List, [], ◌∷◌, ◌++◌, if◌then◌else◌,
}

-- The variables that flag.Parse fills in.
pub record Flags : Type 0 where
  pub metrics_addr : String
  pub metrics_cert_path : String
  pub metrics_cert_name : String
  pub metrics_cert_key : String
  pub webhook_cert_path : String
  pub webhook_cert_name : String
  pub webhook_cert_key : String
  pub enable_leader_election : Bool
  pub probe_addr : String
  pub secure_metrics : Bool
  pub enable_http2 : Bool

-- Their values where no flag is given.
abbrev pub default_flags : Flags
default_flags = record {
  metrics_addr = "0";
  metrics_cert_path = "";
  metrics_cert_name = "tls.crt";
  metrics_cert_key = "tls.key";
  webhook_cert_path = "";
  webhook_cert_name = "tls.crt";
  webhook_cert_key = "tls.key";
  enable_leader_election = false;
  probe_addr = ":8081";
  secure_metrics = true;
  enable_http2 = false;
}

module _ (Watcher : Type 0) where
  -- The fields of tls.Config that are set; GetCertificate is that of a watcher.
  pub record TlsConfig : Type 0 where
    pub next_protos : List String
    pub get_certificate : Option Watcher

  abbrev pub TlsOption : Type 0
  TlsOption = TlsConfig → TlsConfig

  -- (filters.WithAuthenticationAndAuthorization)
  pub data FilterProvider : Type 0 where
    with_authentication_and_authorization : FilterProvider

  -- (metricsserver.Options)
  pub record MetricsOptions : Type 0 where
    pub bind_address : String
    pub secure_serving : Bool
    pub tls_opts : List TlsOption
    pub filter_provider : Option FilterProvider

  -- (ctrl.Options, the webhook server by the TLSOpts it was made with)
  pub record ManagerOptions : Type 0 where
    pub metrics : MetricsOptions
    pub webhook_tls_opts : List TlsOption
    pub health_probe_bind_address : String
    pub leader_election : Bool
    pub leader_election_id : String

module _ {Watcher : Type 0} where
  abbrev pub disable_http2 : TlsOption Watcher
  disable_http2 c = record c { next_protos = "http/1.1" ∷ [] }

  unfoldable pub base_tls_opts : Flags → List (TlsOption Watcher)
  base_tls_opts flags = if not flags.enable_http2 then disable_http2 ∷ [] else []

  -- What a server with a certificate watcher appends; `none` is a nil watcher. Every append to
  -- tlsOpts reallocates, as its capacity is its length, so the two servers share no option.
  unfoldable pub with_watcher : Option Watcher → List (TlsOption Watcher) → List (TlsOption Watcher)
  with_watcher none opts = opts
  with_watcher (some watcher) opts =
      opts ++ (λ config. record config { get_certificate = some watcher }) ∷ []

  unfoldable pub metrics_server_options : Flags → Option Watcher → MetricsOptions Watcher
  unfolding base_tls_opts with_watcher
  metrics_server_options flags watcher = record {
    bind_address = flags.metrics_addr;
    secure_serving = flags.secure_metrics;
    tls_opts = with_watcher watcher (base_tls_opts flags);
    filter_provider =
        if flags.secure_metrics then some with_authentication_and_authorization else none;
  }

  unfoldable pub manager_options : Flags → Option Watcher → Option Watcher → ManagerOptions Watcher
  unfolding base_tls_opts with_watcher metrics_server_options
  manager_options flags webhook_watcher metrics_watcher = record {
    metrics = metrics_server_options flags metrics_watcher;
    webhook_tls_opts = with_watcher webhook_watcher (base_tls_opts flags);
    health_probe_bind_address = flags.probe_addr;
    leader_election = flags.enable_leader_election;
    leader_election_id = "bd57a1ae.optimism.io";
  }
