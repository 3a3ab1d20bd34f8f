-- ===== src/Tests/Starts.antt =====
-- cmd/main.go with a library whose calls are numbered and fail at one number.
use namespace_quota_operator.Common.{
  ℕ, suc, ◌≡◌, refl, [], ◌∷◌, ◌++◌, Option, none, some, if◌then◌else◌, eqb, All, Some, inl, inr,
}
use namespace_quota_operator.Text.{Text, codes, text_dec}
use namespace_quota_operator.Effect.{Result, ok, err, done, fail, api}
use namespace_quota_operator.Client.Memory.{Cluster}
use namespace_quota_operator.Start.{Flags, default_flags, TlsConfig, Runtime}
use namespace_quota_operator.Start.Setup.{
  setup_profile_controller, setup_namespace_controller, setup_profile_webhook,
  setup_namespace_webhook, setup_resource_quota_webhook, setup_limit_range_webhook,
}
use namespace_quota_operator.Start.Main.{
  manager_options, watch, if_webhooks, add_watcher, set_up, run_manager, made_manager, main,
}
use namespace_quota_operator.Start.Trace.{traced}
use namespace_quota_operator.Start.Follow.{Run}
use namespace_quota_operator.Start.Order.{main_plan, main-Run}
use namespace_quota_operator.Start.Guards.{
  IsNoWebhook, IsGuarded, configured, tls_config, calls, manager_options-configured,
  main-without_webhooks, main-http1,
}
use namespace_quota_operator.Start.Starting.{Obtained, main-starts}
use namespace_quota_operator.Start.Last.{IsStart}
use namespace_quota_operator.Tests.Samples

abbrev numbered : {A : Type 0} → ℕ → A → ℕ → Result A × ℕ
numbered fails_at a n = (if eqb n fails_at then err (api 500) else ok a, suc n)

abbrev runtime : Text → ℕ → Runtime (Cluster ℕ ℕ) ℕ ℕ Text
runtime env fails_at = record {
  World = ℕ;
  Watcher = Text;
  Config = Unit {0};
  getenv = λ _. env;
  join = λ a b. a ++ b'/' ∷ b;
  new_watcher = λ cert key. numbered fails_at cert;
  get_config = numbered fails_at tt;
  new_manager = λ config options. numbered fails_at tt;
  complete_controller = λ controller. numbered fails_at tt;
  complete_webhook = λ hook. numbered fails_at tt;
  add = λ watcher. numbered fails_at tt;
  add_healthz_check = λ name. numbered fails_at tt;
  add_readyz_check = λ name. numbered fails_at tt;
  start = numbered fails_at tt;
}

-- A certificate for the webhooks.
abbrev flags : Flags
flags = record default_flags { webhook_cert_path = codes "/certs" }

abbrev base : TlsConfig Text
base = record { next_protos = codes "h2" ∷ []; get_certificate = none }

-- A library that never fails, one that fails at the fifth call, and one without webhooks.
main_outcomes :
    (main Samples.api ok (runtime [] 100) flags 0 ≡ (done tt, 13))
    × (main Samples.api ok (runtime [] 4) flags 0 ≡ (fail (api 500), 5))
    × (main Samples.api ok (runtime (codes "false") 100) flags 0 ≡ (done tt, 9))
unfolding main made_manager run_manager add_watcher set_up if_webhooks watch
    setup_profile_controller setup_namespace_controller setup_profile_webhook
    setup_namespace_webhook setup_resource_quota_webhook setup_limit_range_webhook text_dec
main_outcomes = (refl, refl, refl)

main-Run_example :
    (webhook_watcher metrics_watcher : Option Text) × Run
      (main_plan Samples.api ok (runtime [] 4) flags webhook_watcher metrics_watcher)
      (calls Samples.api ok (runtime [] 4) flags 0)
      (main Samples.api ok (traced (runtime [] 4)) flags (0, [])).0
main-Run_example = main-Run Samples.api ok (runtime [] 4) flags 0

reached : Some IsStart (calls Samples.api ok (runtime [] 100) flags 0)
unfolding main made_manager run_manager add_watcher set_up if_webhooks watch
    setup_profile_controller setup_namespace_controller setup_profile_webhook
    setup_namespace_webhook setup_resource_quota_webhook setup_limit_range_webhook text_dec
reached = inr (inr (inr (inr (inr (inr (inr (inr (inr (inr (inr (inr (inl tt))))))))))))

main-starts_example :
    (webhook_watcher metrics_watcher : Option Text) × (w1 w2 : ℕ) × Obtained Samples.api ok
      (runtime [] 100)
      flags.webhook_cert_path
      flags.webhook_cert_name
      flags.webhook_cert_key
      0
      webhook_watcher
      w1
    × Obtained Samples.api ok
        (runtime [] 100)
        flags.metrics_cert_path
        flags.metrics_cert_name
        flags.metrics_cert_key
        w1
        metrics_watcher
        w2
    × (calls Samples.api ok (runtime [] 100) flags 0
        ≡ main_plan Samples.api ok (runtime [] 100) flags webhook_watcher metrics_watcher)
main-starts_example = main-starts Samples.api ok (runtime [] 100) flags 0 reached

main-without_webhooks_example :
    All IsNoWebhook (calls Samples.api ok (runtime (codes "false") 100) flags 0)
main-without_webhooks_example =
    main-without_webhooks Samples.api ok (runtime (codes "false") 100) flags 0 refl

main-http1_example : All (IsGuarded base) (calls Samples.api ok (runtime [] 100) flags 0)
main-http1_example = main-http1 Samples.api ok (runtime [] 100) flags 0 base refl

manager_options-configured_example :
    (configured (manager_options flags (some (codes "w")) none).webhook_tls_opts base
      ≡ tls_config flags (some (codes "w")) base)
    × (configured (manager_options flags (some (codes "w")) none).metrics.tls_opts base
        ≡ tls_config flags none base)
    × ((manager_options flags (some (codes "w")) none).metrics.is_filtered
        ≡ (manager_options flags (some (codes "w")) none).metrics.secure_serving)
manager_options-configured_example = manager_options-configured flags (some (codes "w")) none base
