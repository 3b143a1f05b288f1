-- ===== src/Process/Main.antt =====
-- cmd/main.go, from the parsed flags on. Text flags are as `flag.Parse` leaves them.

pub mod Plan
pub mod Tls
pub mod Started
use cluster_api_provider_vmw.Base.{
  String, ◌==◌, Bool, true, false, not, Option, none, some, List, [], ◌∷◌, ◌++◌, if◌then◌else◌,
}
use cluster_api_provider_vmw.Program.{M, pure, ◌>>=◌, ◌>>◌}
use cluster_api_provider_vmw.Process.{
  CertFiles, TlsOption, disable_http2, certificate_from, MetricsOptions, ManagerOptions, SetupCall,
  new_cert_watcher, get_config, new_manager, add_watcher, add_healthz_check, add_readyz_check,
  start, Host, or_exit, step,
}
use cluster_api_provider_vmw.Process.Scheme.{init_scheme}
use cluster_api_provider_vmw.Process.Controllers.{setup_cluster, setup_machine}

-- The variables at the head of `main`.
pub record Flags : Type 0 where
  pub metrics_addr : String
  pub probe_addr : String
  pub enable_leader_election : Bool
  pub secure_metrics : Bool
  pub webhook_cert_path : String
  pub webhook_cert_name : String
  pub webhook_cert_key : String
  pub metrics_cert_path : String
  pub metrics_cert_name : String
  pub metrics_cert_key : String
  pub enable_http2 : Bool

-- Their values when no flag is given.
abbrev pub default_flags : Flags
default_flags = record {
  metrics_addr = "0";
  probe_addr = ":8081";
  enable_leader_election = false;
  secure_metrics = true;
  webhook_cert_path = "";
  webhook_cert_name = "tls.crt";
  webhook_cert_key = "tls.key";
  metrics_cert_path = "";
  metrics_cert_name = "tls.crt";
  metrics_cert_key = "tls.key";
  enable_http2 = false;
}

-- `tlsOpts`
abbrev pub tls_opts : Flags → List TlsOption
tls_opts flags = if flags.enable_http2 then [] else (disable_http2 ∷ [])

abbrev pub webhook_files : Flags → CertFiles
webhook_files flags = record {
  directory = flags.webhook_cert_path;
  certificate = flags.webhook_cert_name;
  key = flags.webhook_cert_key;
}

abbrev pub metrics_files : Flags → CertFiles
metrics_files flags = record {
  directory = flags.metrics_cert_path;
  certificate = flags.metrics_cert_name;
  key = flags.metrics_cert_key;
}

module _ (F : Host) where
  -- A certificate watcher, where a path is given.
  unfoldable pub watcher : String → CertFiles → M (List SetupCall) (Option CertFiles)
  watcher path files =
      if path == "" then pure none else (step F (new_cert_watcher files) >> pure (some files))

  -- `if watcher != nil { mgr.Add(watcher) }`
  unfoldable pub add_cert_watcher : Option CertFiles → M (List SetupCall) (Unit {0})
  add_cert_watcher none = pure tt
  add_cert_watcher (some files) = step F (add_watcher files)

-- `append(opts, func(config) { config.GetCertificate = watcher.GetCertificate })`. The slices that
-- the code appends to are full or nil, so no two of them share what is appended.
abbrev pub with_certificate : Option CertFiles → List TlsOption → List TlsOption
with_certificate none opts = opts
with_certificate (some files) opts = opts ++ certificate_from files ∷ []

-- `metricsServerOptions`
abbrev pub metrics_options : Flags → Option CertFiles → MetricsOptions
metrics_options flags files = record {
  bind_address = flags.metrics_addr;
  secure_serving = flags.secure_metrics;
  tls_opts = with_certificate files (tls_opts flags);
  has_filter = flags.secure_metrics;
}

-- The `ctrl.Options`
abbrev pub manager_options : Flags → Option CertFiles → Option CertFiles → ManagerOptions
manager_options flags webhook metrics = record {
  metrics = metrics_options flags metrics;
  webhook = with_certificate webhook (tls_opts flags);
  health_probe = flags.probe_addr;
  leader_election = flags.enable_leader_election;
  leader_election_id = "f0dce41d.cluster.x-k8s.io";
}

module _ (F : Host) where
  -- What `main` does with the manager it has built.
  unfoldable pub run_manager : Option CertFiles → Option CertFiles → M (List SetupCall) (Unit {0})
  run_manager webhook metrics = do
    error ← setup_cluster F
    or_exit F error
    error' ← setup_machine F
    or_exit F error'
    add_cert_watcher F metrics
    add_cert_watcher F webhook
    step F (add_healthz_check "healthz")
    step F (add_readyz_check "readyz")
    step F start

  -- `main`
  unfoldable pub main : Flags → M (List SetupCall) (Unit {0})
  main flags = do
    webhook ← watcher F flags.webhook_cert_path (webhook_files flags)
    metrics ← watcher F flags.metrics_cert_path (metrics_files flags)
    step F get_config
    step F (new_manager (manager_options flags webhook metrics))
    run_manager webhook metrics
