-- ===== src/Start.antt =====
-- cmd/main.go, and what it calls of controller-runtime. Logging is left out, with the options of the
-- logger, and so are the scheme and `mgr.GetScheme()`, which no handler reads.
pub mod Setup
pub mod Main
pub mod Trace
pub mod Follow
pub mod Order
pub mod Entries
pub mod Guards
pub mod Last
pub mod Starting
use namespace_quota_operator.Common.{Bool, true, false, List, [], ◌∷◌, Option, none, some}
use namespace_quota_operator.Text.{Text, codes}
use namespace_quota_operator.Effect.{Result, Action}
use namespace_quota_operator.Api.{Namespace}
use namespace_quota_operator.Webhook.{RuntimeObject}

-- What the command line sets.
pub record Flags : Type 0 where
  pub metrics_addr : Text
  pub probe_addr : Text
  pub enable_leader_election : Bool
  pub secure_metrics : Bool
  pub webhook_cert_path : Text
  pub webhook_cert_name : Text
  pub webhook_cert_key : Text
  pub metrics_cert_path : Text
  pub metrics_cert_name : Text
  pub metrics_cert_key : Text
  pub enable_http2 : Bool

-- The flags of an empty command line.
abbrev pub default_flags : Flags
default_flags = record {
  metrics_addr = codes "0";
  probe_addr = codes ":8081";
  enable_leader_election = false;
  secure_metrics = true;
  webhook_cert_path = [];
  webhook_cert_name = codes "tls.crt";
  webhook_cert_key = codes "tls.key";
  metrics_cert_path = [];
  metrics_cert_name = codes "tls.crt";
  metrics_cert_key = codes "tls.key";
  enable_http2 = false;
}

-- The fields of crypto/tls.Config that the operator sets. A certificate watcher stands for its method
-- `GetCertificate`.
pub record TlsConfig (Watcher : Type 0) : Type 0 where
  pub next_protos : List Text
  pub get_certificate : Option Watcher

-- `func(*tls.Config)`
abbrev pub TlsOption : Type 0 → Type 0
TlsOption Watcher = TlsConfig Watcher → TlsConfig Watcher

-- metricsserver.Options. A filter provider is there or not: the operator knows one,
-- filters.WithAuthenticationAndAuthorization.
pub record MetricsOptions (Watcher : Type 0) : Type 0 where
  pub bind_address : Text
  pub secure_serving : Bool
  pub tls_opts : List (TlsOption Watcher)
  pub is_filtered : Bool

-- ctrl.Options; `webhook_tls_opts` are the options of the webhook server.
pub record ManagerOptions (Watcher : Type 0) : Type 0 where
  pub metrics : MetricsOptions Watcher
  pub webhook_tls_opts : List (TlsOption Watcher)
  pub health_probe_bind_address : Text
  pub leader_election : Bool
  pub leader_election_id : Text

-- `For(…)` of the builders.
pub data Kind : Type 0 where
  namespace_kind : Kind
  quota_profile_kind : Kind
  resource_quota_kind : Kind
  limit_range_kind : Kind

-- What `ctrl.NewControllerManagedBy` is given.
pub record Controller (State : Type 0) : Type 0 where
  pub for_kind : Kind
  pub named : Text
  pub reconciler : Text → Text → Action State (Unit {0})

-- What `WithDefaulter` and `WithValidator` are given.
pub data Handler (State Rq Lr Context : Type 0) : Type 0 where
  defaulter : (RuntimeObject Rq Lr → Action State Namespace) → Handler State Rq Lr Context
  validator :
      (Context → RuntimeObject Rq Lr → Action State (Unit {0}))
      → (Context → RuntimeObject Rq Lr → RuntimeObject Rq Lr → Action State (Unit {0}))
      → (Context → RuntimeObject Rq Lr → Action State (Unit {0}))
      → Handler State Rq Lr Context

-- What `ctrl.NewWebhookManagedBy` is given.
pub record Hook (State Rq Lr Context : Type 0) : Type 0 where
  pub for_kind : Kind
  pub handler : Handler State Rq Lr Context

-- The library's calls, on an unknown state of the process. There is one manager, and the environment
-- is one that the process does not change.
pub record Runtime (State Rq Lr Context : Type 0) : Type 1 where
  pub World : Type 0
  pub Watcher : Type 0
  pub Config : Type 0
  -- os.Getenv
  pub getenv : Text → Text
  -- filepath.Join
  pub join : Text → Text → Text
  -- certwatcher.New
  pub new_watcher : Text → Text → World → Result Watcher × World
  -- ctrl.GetConfigOrDie
  pub get_config : World → Result Config × World
  -- ctrl.NewManager
  pub new_manager : Config → ManagerOptions Watcher → World → Result (Unit {0}) × World
  -- `Complete` of the two builders
  pub complete_controller : Controller State → World → Result (Unit {0}) × World
  pub complete_webhook : Hook State Rq Lr Context → World → Result (Unit {0}) × World
  -- mgr.Add, mgr.AddHealthzCheck, mgr.AddReadyzCheck and mgr.Start
  pub add : Watcher → World → Result (Unit {0}) × World
  pub add_healthz_check : Text → World → Result (Unit {0}) × World
  pub add_readyz_check : Text → World → Result (Unit {0}) × World
  pub start : World → Result (Unit {0}) × World
