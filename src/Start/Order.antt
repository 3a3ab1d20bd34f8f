-- ===== src/Start/Order.antt =====
-- cmd/main.go: the order of the calls that `main` makes.
use mathlib.Core.Path.{subst}
use namespace_quota_operator.Common.{
  refl, not, [], ◌∷◌, ◌++◌, append_assoc, Option, none, some, if◌then◌else◌, ltb, length,
  Bool-cases, inl, inr,
}
use namespace_quota_operator.Text.{Text, codes, ◌==◌}
use namespace_quota_operator.Effect.{Result, Action, pure}
use namespace_quota_operator.Client.{Client}
use namespace_quota_operator.Start.{Flags, Runtime}
use namespace_quota_operator.Start.Setup.{
  profile_controller, namespace_controller, profile_webhook, namespace_webhook,
  resource_quota_webhook, limit_range_webhook, setup_profile_controller, setup_namespace_controller,
  setup_profile_webhook, setup_namespace_webhook, setup_resource_quota_webhook,
  setup_limit_range_webhook,
}
use namespace_quota_operator.Start.Main.{
  manager_options, watch, if_webhooks, add_watcher, set_up, run_manager, made_manager, main,
}
use namespace_quota_operator.Start.Trace.{
  watches, reads_config, makes_manager, controls, serves, adds, checks_health, checks_readiness,
  starts, Calls, traced,
}
use namespace_quota_operator.Start.Follow.{
  Run, Follows, Follows-pure, Follows-bind, Follows-call, Follows-if, Follows-then, Explores,
  Explores-bind, Follows-Explores, Explores-plan,
}

module _ {Rq Lr Context : Type 0} (c : Client Rq Lr) (username : Context → Result Text)
    (r : Runtime c.State Rq Lr Context) where
  abbrev pub watch_plan : Text → Text → Text → Calls r
  watch_plan path name key =
      if ltb 0 (length path) then watches (r.join path name) (r.join path key) ∷ [] else []

  -- The calls that stand under the test of ENABLE_WEBHOOKS.
  abbrev pub if_enabled : Calls r → Calls r
  if_enabled calls = if not (r.getenv (codes "ENABLE_WEBHOOKS") == codes "false") then calls else []

  abbrev pub add_plan : Option r.Watcher → Calls r
  add_plan none = []
  add_plan (some watcher) = adds watcher ∷ []

  abbrev pub set_up_plan : Calls r
  set_up_plan =
      controls (profile_controller c username)
        ∷ if_enabled (serves (profile_webhook c username) ∷ [])
      ++ controls (namespace_controller c username)
        ∷ if_enabled (
            serves (namespace_webhook c username)
            ∷ serves (resource_quota_webhook c username)
            ∷ serves (limit_range_webhook c username)
            ∷ [])

  abbrev pub run_plan : Option r.Watcher → Option r.Watcher → Calls r
  run_plan webhook_watcher metrics_watcher =
      set_up_plan
      ++ add_plan metrics_watcher
      ++ add_plan webhook_watcher
      ++ checks_health (codes "healthz") ∷ checks_readiness (codes "readyz") ∷ []

  abbrev pub managed_plan : Flags → Option r.Watcher → Option r.Watcher → Calls r
  managed_plan flags webhook_watcher metrics_watcher =
      reads_config
      ∷ makes_manager (manager_options flags webhook_watcher metrics_watcher)
      ∷ run_plan webhook_watcher metrics_watcher

  -- What `main` is to do before it starts the manager, by its flags and the watchers that it gets.
  abbrev pub set_up_calls : Flags → Option r.Watcher → Option r.Watcher → Calls r
  set_up_calls flags webhook_watcher metrics_watcher =
      watch_plan flags.webhook_cert_path flags.webhook_cert_name flags.webhook_cert_key
      ++ (watch_plan flags.metrics_cert_path flags.metrics_cert_name flags.metrics_cert_key
          ++ managed_plan flags webhook_watcher metrics_watcher)

  abbrev pub main_plan : Flags → Option r.Watcher → Option r.Watcher → Calls r
  main_plan flags webhook_watcher metrics_watcher =
      set_up_calls flags webhook_watcher metrics_watcher ++ starts ∷ []

  watch-Follows :
      (path name key : Text)
      → Follows (watch_plan path name key) (watch c username (traced r) path name key)
  unfolding watch
  watch-Follows path name key = Follows-if (ltb 0 (length path)) none (
      Follows-bind (λ watcher. pure (some watcher))
        (Follows-call _ (r.new_watcher (r.join path name) (r.join path key)))
        (λ watcher. Follows-pure (some watcher)))

  if_webhooks-Follows :
      {plan : Calls r} {m : Action (traced r).World (Unit {0})}
      → Follows plan m
      → Follows (if_enabled plan) (if_webhooks c username (traced r) m)
  unfolding if_webhooks
  if_webhooks-Follows h =
      Follows-if (not (r.getenv (codes "ENABLE_WEBHOOKS") == codes "false")) tt h

  profile_controller-Follows :
      Follows
        (controls (profile_controller c username) ∷ [])
        (setup_profile_controller c username (traced r))
  unfolding setup_profile_controller
  profile_controller-Follows =
      Follows-call _ (r.complete_controller (profile_controller c username))

  namespace_controller-Follows :
      Follows
        (controls (namespace_controller c username) ∷ [])
        (setup_namespace_controller c username (traced r))
  unfolding setup_namespace_controller
  namespace_controller-Follows =
      Follows-call _ (r.complete_controller (namespace_controller c username))

  profile_webhook-Follows :
      Follows
        (serves (profile_webhook c username) ∷ [])
        (setup_profile_webhook c username (traced r))
  unfolding setup_profile_webhook
  profile_webhook-Follows = Follows-call _ (r.complete_webhook (profile_webhook c username))

  namespace_webhook-Follows :
      Follows
        (serves (namespace_webhook c username) ∷ [])
        (setup_namespace_webhook c username (traced r))
  unfolding setup_namespace_webhook
  namespace_webhook-Follows = Follows-call _ (r.complete_webhook (namespace_webhook c username))

  resource_quota_webhook-Follows :
      Follows
        (serves (resource_quota_webhook c username) ∷ [])
        (setup_resource_quota_webhook c username (traced r))
  unfolding setup_resource_quota_webhook
  resource_quota_webhook-Follows =
      Follows-call _ (r.complete_webhook (resource_quota_webhook c username))

  limit_range_webhook-Follows :
      Follows
        (serves (limit_range_webhook c username) ∷ [])
        (setup_limit_range_webhook c username (traced r))
  unfolding setup_limit_range_webhook
  limit_range_webhook-Follows = Follows-call _ (r.complete_webhook (limit_range_webhook c username))

  set_up-Follows : Follows set_up_plan (set_up c username (traced r))
  unfolding set_up
  set_up-Follows =
      subst (λ plan. Follows plan (set_up c username (traced r)))
        (elim (Bool-cases (not (r.getenv (codes "ENABLE_WEBHOOKS") == codes "false"))) [
          | inl enabled ↦ rw enabled refl
          | inr disabled ↦ rw disabled refl
        ])
        (Follows-then
          (Follows-then
            (Follows-then
              (Follows-then
                (Follows-then profile_controller-Follows
                  (if_webhooks-Follows profile_webhook-Follows))
                namespace_controller-Follows)
              (if_webhooks-Follows namespace_webhook-Follows))
            (if_webhooks-Follows resource_quota_webhook-Follows))
          (if_webhooks-Follows limit_range_webhook-Follows))

  add_watcher-Follows :
      (watcher : Option r.Watcher)
      → Follows (add_plan watcher) (add_watcher c username (traced r) watcher)
  unfolding add_watcher
  add_watcher-Follows none = Follows-pure tt
  add_watcher-Follows (some watcher) = Follows-call _ (r.add watcher)

  run_manager-Follows :
      (webhook_watcher metrics_watcher : Option r.Watcher)
      → Follows
          (run_plan webhook_watcher metrics_watcher ++ starts ∷ [])
          (run_manager c username (traced r) webhook_watcher metrics_watcher)
  unfolding run_manager
  run_manager-Follows webhook_watcher metrics_watcher =
      subst
        (λ plan. Follows plan (run_manager c username (traced r) webhook_watcher metrics_watcher))
        (simp (append_assoc))
        (Follows-then
          (Follows-then
            (Follows-then
              (Follows-then (Follows-then set_up-Follows (add_watcher-Follows metrics_watcher))
                (add_watcher-Follows webhook_watcher))
              (Follows-call _ (r.add_healthz_check (codes "healthz"))))
            (Follows-call _ (r.add_readyz_check (codes "readyz"))))
          (Follows-call _ r.start))

  pub made_manager-Follows :
      (flags : Flags) (webhook_watcher metrics_watcher : Option r.Watcher)
      → Follows
          (managed_plan flags webhook_watcher metrics_watcher ++ starts ∷ [])
          (made_manager c username (traced r) flags webhook_watcher metrics_watcher)
  unfolding made_manager
  made_manager-Follows flags webhook_watcher metrics_watcher =
      Follows-bind _ (Follows-call _ r.get_config) (λ config.
        Follows-then
          (Follows-call _
            (r.new_manager config (manager_options flags webhook_watcher metrics_watcher)))
          (run_manager-Follows webhook_watcher metrics_watcher))

  made_manager-Explores :
      (flags : Flags) (webhook_watcher metrics_watcher : Option r.Watcher)
      → Explores
          (λ (watchers : Option r.Watcher × Option r.Watcher).
            managed_plan flags watchers.0 watchers.1 ++ starts ∷ [])
          (made_manager c username (traced r) flags webhook_watcher metrics_watcher)
  made_manager-Explores flags webhook_watcher metrics_watcher =
      Follows-Explores _ (webhook_watcher, metrics_watcher)
        (made_manager-Follows flags webhook_watcher metrics_watcher)

  main-Explores :
      (flags : Flags)
      → Explores
          (λ (watchers : Option r.Watcher × Option r.Watcher).
            main_plan flags watchers.0 watchers.1)
          (main c username (traced r) flags)
  unfolding main
  main-Explores flags =
      Explores-plan (λ watchers. simp (append_assoc))
        (Explores-bind _ _
          (λ webhook_watcher.
            Explores-bind _ _ (made_manager-Explores flags webhook_watcher) (none, none)
              (watch-Follows flags.metrics_cert_path flags.metrics_cert_name
                flags.metrics_cert_key))
          (none, none)
          (watch-Follows flags.webhook_cert_path flags.webhook_cert_name flags.webhook_cert_key))

  -- Whatever the library does and whatever the flags are, the calls of `main` are those of its
  -- plan, in order, for some watchers: all of them if it ends without error, and otherwise up to
  -- and with the call whose error it exits with. It does not panic.
  pub main-Run :
      (flags : Flags) (w : r.World)
      → (webhook_watcher metrics_watcher : Option r.Watcher) × Run
          (main_plan flags webhook_watcher metrics_watcher)
          (main c username (traced r) flags (w, [])).1.1
          (main c username (traced r) flags (w, [])).0
  main-Run flags w =
      let (watchers, log, same, runs) = (main-Explores flags).run w [] in
      (watchers.0, watchers.1, rw same runs)
