-- ===== src/Start/Entries.antt =====
-- cmd/main.go: a property of each call that `main` makes before it starts the manager.
use namespace_quota_operator.Common.{
  ◌≢◌, [], ◌∷◌, ◌++◌, Option, none, some, ltb, length, Bool-cases, inl, inr, All, All-append,
  if_pos, if_neg,
}
use namespace_quota_operator.Text.{Text, codes, text_dec}
use namespace_quota_operator.Effect.{Result}
use namespace_quota_operator.Client.{Client}
use namespace_quota_operator.Start.{Flags, Hook, Runtime}
use namespace_quota_operator.Start.Setup.{profile_controller, namespace_controller, profile_webhook}
use namespace_quota_operator.Start.Main.{manager_options}
use namespace_quota_operator.Start.Trace.{
  Call, watches, reads_config, makes_manager, controls, serves, adds, checks_health,
  checks_readiness, Calls,
}
use namespace_quota_operator.Start.Order.{
  watch_plan, if_enabled, add_plan, set_up_plan, run_plan, managed_plan, set_up_calls,
}

module _ {Rq Lr Context : Type 0} (c : Client Rq Lr) (username : Context → Result Text)
    (r : Runtime c.State Rq Lr Context) where
  module _ (P : Call c.State Rq Lr Context r.Watcher → Type 0)
      (watched : (cert key : Text) → P (watches cert key)) (configured : P reads_config)
      (profiles : P (controls (profile_controller c username)))
      (namespaces : P (controls (namespace_controller c username)))
      (served : r.getenv (codes "ENABLE_WEBHOOKS") ≢ codes "false"
        → (hook : Hook c.State Rq Lr Context) → P (serves hook))
      (added : (watcher : r.Watcher) → P (adds watcher))
      (healthy : (name : Text) → P (checks_health name))
      (ready : (name : Text) → P (checks_readiness name)) where
    watch_plan-All : (path name key : Text) → All P (watch_plan c username r path name key)
    watch_plan-All path name key = elim (Bool-cases (ltb 0 (length path))) [
      | inl given ↦ rw given (watched _ _, tt)
      | inr absent ↦ rw absent tt
    ]

    if_enabled-All :
        (calls : Calls r)
        → (r.getenv (codes "ENABLE_WEBHOOKS") ≢ codes "false" → All P calls)
        → All P (if_enabled c username r calls)
    if_enabled-All calls h = elim (text_dec (r.getenv (codes "ENABLE_WEBHOOKS")) (codes "false")) [
      | yes disabled ↦ rw (if_pos _ disabled) tt
      | no enabled ↦ rw (if_neg _ enabled) (h enabled)
    ]

    add_plan-All : (watcher : Option r.Watcher) → All P (add_plan c username r watcher)
    add_plan-All none = tt
    add_plan-All (some watcher) = (added watcher, tt)

    set_up_plan-All : All P (set_up_plan c username r)
    set_up_plan-All = (
      profiles,
      All-append P (if_enabled c username r (serves (profile_webhook c username) ∷ [])) _
          (if_enabled-All _ (λ enabled. (served enabled _, tt)))
          (
            namespaces,
            if_enabled-All _
                (λ enabled. (served enabled _, (served enabled _, (served enabled _, tt)))),
          ),
    )

    run_plan-All :
        (webhook_watcher metrics_watcher : Option r.Watcher)
        → All P (run_plan c username r webhook_watcher metrics_watcher)
    run_plan-All webhook_watcher metrics_watcher =
        All-append P
          (set_up_plan c username r
            ++ add_plan c username r metrics_watcher
            ++ add_plan c username r webhook_watcher)
          _
          (All-append P (set_up_plan c username r ++ add_plan c username r metrics_watcher) _
            (All-append P (set_up_plan c username r) _ set_up_plan-All
              (add_plan-All metrics_watcher))
            (add_plan-All webhook_watcher))
          (healthy _, (ready _, tt))

    -- All calls with the manager before its start.
    pub managed_plan-All :
        (flags : Flags) (webhook_watcher metrics_watcher : Option r.Watcher)
        → P (makes_manager (manager_options flags webhook_watcher metrics_watcher))
        → All P (managed_plan c username r flags webhook_watcher metrics_watcher)
    managed_plan-All flags webhook_watcher metrics_watcher made =
        (configured, (made, run_plan-All webhook_watcher metrics_watcher))

    -- All calls of the plan but the last.
    pub set_up_calls-All :
        (flags : Flags) (webhook_watcher metrics_watcher : Option r.Watcher)
        → P (makes_manager (manager_options flags webhook_watcher metrics_watcher))
        → All P (set_up_calls c username r flags webhook_watcher metrics_watcher)
    set_up_calls-All flags webhook_watcher metrics_watcher made =
        All-append P
          (watch_plan c username r flags.webhook_cert_path flags.webhook_cert_name
            flags.webhook_cert_key)
          _ (watch_plan-All flags.webhook_cert_path flags.webhook_cert_name flags.webhook_cert_key)
          (All-append P
            (watch_plan c username r flags.metrics_cert_path flags.metrics_cert_name
              flags.metrics_cert_key)
            _
            (watch_plan-All flags.metrics_cert_path flags.metrics_cert_name flags.metrics_cert_key)
            (managed_plan-All flags webhook_watcher metrics_watcher made))
