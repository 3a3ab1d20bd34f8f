-- ===== src/Start/Guards.antt =====
-- cmd/main.go: which webhooks the process registers, and what the servers are set to.
use namespace_quota_operator.Common.{
  ◌≡◌, refl, ap, ◌∙◌, arith, false, List, [], ◌∷◌, Option, none, some, if◌then◌else◌, All,
  All-append,
}
use namespace_quota_operator.Text.{Text, codes}
use namespace_quota_operator.Effect.{Result}
use namespace_quota_operator.Client.{Client}
use namespace_quota_operator.Start.{Flags, TlsConfig, TlsOption, Runtime}
use namespace_quota_operator.Start.Main.{
  disable_http2, serve_certificate, tls_opts, with_watcher, metrics_options, manager_options, main,
}
use namespace_quota_operator.Start.Trace.{Call, makes_manager, serves, Calls, traced}
use namespace_quota_operator.Start.Follow.{All-Run}
use namespace_quota_operator.Start.Order.{set_up_calls, main-Run}
use namespace_quota_operator.Start.Entries.{set_up_calls-All}

module _ {State Rq Lr Context Watcher : Type 0} where
  abbrev pub IsNoWebhook : Call State Rq Lr Context Watcher → Type 0
  IsNoWebhook (serves hook) = ⊥
  IsNoWebhook _ = Unit

-- What a server makes of its TLS options: it applies them in order.
abbrev pub configured :
    {Watcher : Type 0} → List (TlsOption Watcher) → TlsConfig Watcher → TlsConfig Watcher
configured [] config = config
configured (opt ∷ opts) config = configured opts (opt config)

module _ {Watcher : Type 0} where
  -- What the flags and a watcher make of a TLS configuration.
  abbrev pub tls_config : Flags → Option Watcher → TlsConfig Watcher → TlsConfig Watcher
  tls_config flags none config = record config {
    next_protos = if flags.enable_http2 then config.next_protos else codes "http/1.1" ∷ [];
  }
  tls_config flags (some watcher) config = record {
    next_protos = if flags.enable_http2 then config.next_protos else codes "http/1.1" ∷ [];
    get_certificate = some watcher;
  }

  with_watcher-configured :
      (flags : Flags) (watcher : Option Watcher) (config : TlsConfig Watcher)
      → configured (with_watcher (tls_opts flags) watcher) config ≡ tls_config flags watcher config
  unfolding with_watcher tls_opts disable_http2 serve_certificate
  with_watcher-configured flags none config = ground arith
  with_watcher-configured flags (some watcher) config = ground arith

  -- Each of the two servers ends up with the certificate of its own watcher, or with the one that
  -- it started with if it has no watcher, and with HTTP/1.1 alone unless HTTP/2 is enabled; the
  -- metrics are filtered exactly if they are served securely.
  pub manager_options-configured :
      (flags : Flags) (webhook_watcher metrics_watcher : Option Watcher)
      (config : TlsConfig Watcher)
      → let options = manager_options flags webhook_watcher metrics_watcher in
        (configured options.webhook_tls_opts config ≡ tls_config flags webhook_watcher config)
        × (configured options.metrics.tls_opts config ≡ tls_config flags metrics_watcher config)
        × (options.metrics.is_filtered ≡ options.metrics.secure_serving)
  unfolding manager_options metrics_options
  manager_options-configured flags webhook_watcher metrics_watcher config = (
    with_watcher-configured flags webhook_watcher config,
    with_watcher-configured flags metrics_watcher config,
    refl,
  )

  tls_config-http1 :
      (flags : Flags) (watcher : Option Watcher) (config : TlsConfig Watcher)
      → flags.enable_http2 ≡ false
      → (tls_config flags watcher config).next_protos ≡ codes "http/1.1" ∷ []
  tls_config-http1 flags none config off = ground arith
  tls_config-http1 flags (some watcher) config off = ground arith

module _ {State Rq Lr Context Watcher : Type 0} (config : TlsConfig Watcher) where
  -- The servers of a manager that is made speak HTTP/1.1 only, from this configuration on, and the
  -- metrics are filtered where they are served securely.
  abbrev pub IsGuarded : Call State Rq Lr Context Watcher → Type 0
  IsGuarded (makes_manager options) =
      ((configured options.webhook_tls_opts config).next_protos ≡ codes "http/1.1" ∷ [])
      × ((configured options.metrics.tls_opts config).next_protos ≡ codes "http/1.1" ∷ [])
      × (options.metrics.is_filtered ≡ options.metrics.secure_serving)
  IsGuarded _ = Unit

module _ {Rq Lr Context : Type 0} (c : Client Rq Lr) (username : Context → Result Text)
    (r : Runtime c.State Rq Lr Context) (flags : Flags) (w : r.World) where
  -- The calls of `main`.
  abbrev pub calls : Calls r
  calls = (main c username (traced r) flags (w, [])).1.1

  -- If ENABLE_WEBHOOKS is `false`, `main` registers no webhook, whatever the library does and
  -- whatever the flags are.
  pub main-without_webhooks :
      r.getenv (codes "ENABLE_WEBHOOKS") ≡ codes "false" → All IsNoWebhook calls
  main-without_webhooks off =
      let (webhook_watcher, metrics_watcher, runs) = main-Run c username r flags w in
      All-Run IsNoWebhook runs (
        All-append IsNoWebhook (set_up_calls c username r flags webhook_watcher metrics_watcher) _
          (set_up_calls-All c username r IsNoWebhook (λ _ _. tt) tt tt tt (λ on _. on off) (λ _. tt)
            (λ _. tt) (λ _. tt) flags webhook_watcher metrics_watcher tt)
          (tt, tt))

  -- If HTTP/2 is not enabled, a manager that `main` makes has TLS options that leave the webhook
  -- server and the metrics server with HTTP/1.1 alone, whatever configuration they start from, and
  -- filters its metrics exactly if it serves them securely.
  pub main-http1 :
      (config : TlsConfig r.Watcher) → flags.enable_http2 ≡ false → All (IsGuarded config) calls
  main-http1 config off =
      let (webhook_watcher, metrics_watcher, runs) = main-Run c username r flags w in
      let (webhook, metrics, filtered) =
        manager_options-configured flags webhook_watcher metrics_watcher config in
      All-Run (IsGuarded config) runs (
        All-append (IsGuarded config)
          (set_up_calls c username r flags webhook_watcher metrics_watcher) _
          (set_up_calls-All c username r (IsGuarded config) (λ _ _. tt) tt tt tt (λ _ _. tt)
            (λ _. tt) (λ _. tt) (λ _. tt) flags webhook_watcher metrics_watcher
            (
              ap (λ o. o.next_protos) webhook ∙ tls_config-http1 flags webhook_watcher config off,
              ap (λ o. o.next_protos) metrics ∙ tls_config-http1 flags metrics_watcher config off,
              filtered,
            ))
          (tt, tt))
