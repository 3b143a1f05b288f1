-- ===== src/Process.antt =====
-- The start of the process: what cmd/main.go, api/v1alpha1/groupversion_info.go and the two
-- `SetupWithManager` ask of controller-runtime. The manager, the certificate watchers and the
-- schemes are its code, so `Host` answers each call from the calls before it.
pub mod Scheme
pub mod Controllers
pub mod Main
use cluster_api_provider_vmw.Base.{String, Bool, Option, none, some, List, [], ◌∷◌}
use cluster_api_provider_vmw.Remote.{Error}
use cluster_api_provider_vmw.Program.{M, State, pure, crash, quit, done, ◌>>=◌}

pub record GroupVersion : Type 0 where
  pub group : String
  pub version : String

-- What `runtime.Scheme` is told: the types of another module, or names of types of this one.
pub data Registration : Type 0 where
  client_go cluster_api ipam : Registration
  known_types : GroupVersion → List String → Registration

-- The two files that `certwatcher.New` is given: `filepath.Join` of the directory and each name.
pub record CertFiles : Type 0 where
  pub directory : String
  pub certificate : String
  pub key : String

-- The functions on a TLS configuration that the code writes.
pub data TlsOption : Type 0 where
  disable_http2 : TlsOption
  certificate_from : CertFiles → TlsOption

pub record MetricsOptions : Type 0 where
  pub bind_address : String
  pub secure_serving : Bool
  pub tls_opts : List TlsOption
  pub has_filter : Bool

-- `ctrl.Options`, with the options of the webhook server.
pub record ManagerOptions : Type 0 where
  pub metrics : MetricsOptions
  pub webhook : List TlsOption
  pub health_probe : String
  pub leader_election : Bool
  pub leader_election_id : String

-- What a controller is built from: the kind it reconciles, the kind it watches besides, the kind
-- to which the objects of the second are mapped, and whether paused clusters are left out.
pub record ControllerSetup : Type 0 where
  pub object : String
  pub watched : String
  pub mapped : String × GroupVersion
  pub only_unpaused : Bool
  pub name : String

pub data SetupCall : Type 0 where
  register : Registration → SetupCall
  new_cert_watcher : CertFiles → SetupCall
  get_config : SetupCall
  new_manager : ManagerOptions → SetupCall
  complete : ControllerSetup → SetupCall
  add_watcher : CertFiles → SetupCall
  add_healthz_check : String → SetupCall
  add_readyz_check : String → SetupCall
  start : SetupCall

-- The error that a call returns, if it returns one.
pub record Host : Type 0 where
  pub answer : List SetupCall → SetupCall → Option Error

-- The start of the process is an action on the list of these calls, the latest first.
module _ (F : Host) where
  unfoldable pub ask : SetupCall → M (List SetupCall) (Option Error)
  ask c s = (done (F.answer s.object c), record s { object = c ∷ s.object })

  -- `if err != nil { os.Exit(1) }`
  unfoldable pub or_exit : Option Error → M (List SetupCall) (Unit {0})
  or_exit none = pure tt
  or_exit (some e) = quit

  unfoldable pub step : SetupCall → M (List SetupCall) (Unit {0})
  unfolding ask or_exit
  step c = ask c >>= or_exit

  -- `utilruntime.Must`
  unfoldable pub or_panic : Option Error → M (List SetupCall) (Unit {0})
  or_panic none = pure tt
  or_panic (some e) = crash

  unfoldable pub must : SetupCall → M (List SetupCall) (Unit {0})
  unfolding ask or_panic
  must c = ask c >>= or_panic
