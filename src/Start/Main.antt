-- ===== src/Start/Main.antt =====
-- cmd/main.go: `main`, from the parsed flags on. `os.Exit(1)` ends the process with the error that the
-- code logs before it.
use namespace_quota_operator.Common.{
  not, List, [], ◌∷◌, ◌++◌, Option, none, some, if◌then◌else◌, ltb, length,
}
use namespace_quota_operator.Text.{Text, codes, ◌==◌}
use namespace_quota_operator.Effect.{Result, Action, pure, command, ◌>>=◌, ◌>>◌}
use namespace_quota_operator.Client.{Client}
use namespace_quota_operator.Start.{Flags, TlsOption, MetricsOptions, ManagerOptions, Runtime}
use namespace_quota_operator.Start.Setup.{
  setup_profile_controller, setup_namespace_controller, setup_profile_webhook,
  setup_namespace_webhook, setup_resource_quota_webhook, setup_limit_range_webhook,
}

module _ {Watcher : Type 0} where
  unfoldable pub disable_http2 : TlsOption Watcher
  disable_http2 config = record config { next_protos = codes "http/1.1" ∷ [] }

  -- `config.GetCertificate = watcher.GetCertificate`
  unfoldable pub serve_certificate : Watcher → TlsOption Watcher
  serve_certificate watcher config = record config { get_certificate = some watcher }

  unfoldable pub tls_opts : Flags → List (TlsOption Watcher)
  tls_opts flags = if not flags.enable_http2 then disable_http2 ∷ [] else []

  -- The options, and the certificate of the watcher if there is one. A slice that holds one pointer has
  -- room for one, so the two servers' slices share nothing.
  unfoldable pub with_watcher : List (TlsOption Watcher) → Option Watcher → List (TlsOption Watcher)
  with_watcher opts none = opts
  with_watcher opts (some watcher) = opts ++ serve_certificate watcher ∷ []

  unfoldable pub metrics_options : Flags → Option Watcher → MetricsOptions Watcher
  metrics_options flags watcher = record {
    bind_address = flags.metrics_addr;
    secure_serving = flags.secure_metrics;
    tls_opts = with_watcher (tls_opts flags) watcher;
    is_filtered = flags.secure_metrics;
  }

  unfoldable pub manager_options : Flags → Option Watcher → Option Watcher → ManagerOptions Watcher
  manager_options flags webhook_watcher metrics_watcher = record {
    metrics = metrics_options flags metrics_watcher;
    webhook_tls_opts = with_watcher (tls_opts flags) webhook_watcher;
    health_probe_bind_address = flags.probe_addr;
    leader_election = flags.enable_leader_election;
    leader_election_id = codes "19935b34.dev.operator";
  }

module _ {Rq Lr Context : Type 0} (c : Client Rq Lr) (username : Context → Result Text)
    (r : Runtime c.State Rq Lr Context) where
  -- The watcher of a certificate, if the flags give a path.
  unfoldable pub watch : Text → Text → Text → Action r.World (Option r.Watcher)
  watch path name key =
      if ltb 0 (length path)
      then (do
        watcher ← command (r.new_watcher (r.join path name) (r.join path key))
        pure (some watcher))
      else pure none

  unfoldable pub if_webhooks : Action r.World (Unit {0}) → Action r.World (Unit {0})
  if_webhooks setup =
      if not (r.getenv (codes "ENABLE_WEBHOOKS") == codes "false") then setup else pure tt

  unfoldable pub add_watcher : Option r.Watcher → Action r.World (Unit {0})
  add_watcher none = pure tt
  add_watcher (some watcher) = command (r.add watcher)

  -- From the first controller to the last webhook.
  unfoldable pub set_up : Action r.World (Unit {0})
  set_up =
      setup_profile_controller c username r
      >> if_webhooks (setup_profile_webhook c username r)
      >> setup_namespace_controller c username r
      >> if_webhooks (setup_namespace_webhook c username r)
      >> if_webhooks (setup_resource_quota_webhook c username r)
      >> if_webhooks (setup_limit_range_webhook c username r)

  -- What is done with the manager once it is made.
  unfoldable pub run_manager : Option r.Watcher → Option r.Watcher → Action r.World (Unit {0})
  run_manager webhook_watcher metrics_watcher =
      set_up
      >> add_watcher metrics_watcher
      >> add_watcher webhook_watcher
      >> command (r.add_healthz_check (codes "healthz"))
      >> command (r.add_readyz_check (codes "readyz"))
      >> command r.start

  -- The manager, from its configuration on.
  unfoldable pub made_manager :
      Flags → Option r.Watcher → Option r.Watcher → Action r.World (Unit {0})
  made_manager flags webhook_watcher metrics_watcher = do
    config ← command r.get_config
    command (r.new_manager config (manager_options flags webhook_watcher metrics_watcher))
    run_manager webhook_watcher metrics_watcher

  unfoldable pub main : Flags → Action r.World (Unit {0})
  main flags = do
    webhook_watcher ← watch flags.webhook_cert_path flags.webhook_cert_name flags.webhook_cert_key
    metrics_watcher ← watch flags.metrics_cert_path flags.metrics_cert_name flags.metrics_cert_key
    made_manager flags webhook_watcher metrics_watcher
