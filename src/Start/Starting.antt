-- ===== src/Start/Starting.antt =====
-- cmd/main.go: what has been done once the manager is started, and where its watchers come from.
use mathlib.Core.Path.{subst}
use namespace_quota_operator.Common.{
  ◌≡◌, ◌≢◌, ◌⊎◌, refl, ap, ◌∙◌, true, [], ◌∷◌, ◌++◌, append_assoc, append-nil, ℕ, Option, none,
  some, ltb, length, Bool-cases, All, All-append, inl, inr, Some, arith,
}
use namespace_quota_operator.Text.{Text}
use namespace_quota_operator.Effect.{Error, Result, ok, err, Outcome, done, fail, continue, ◌>>=◌}
use namespace_quota_operator.Client.{Client}
use namespace_quota_operator.Start.{Flags, Runtime}
use namespace_quota_operator.Start.Main.{watch, made_manager, main}
use namespace_quota_operator.Start.Trace.{starts, Calls, traced}
use namespace_quota_operator.Start.Order.{watch_plan, managed_plan, main_plan, made_manager-Follows}
use namespace_quota_operator.Start.Entries.{managed_plan-All}
use namespace_quota_operator.Start.Guards.{calls}
use namespace_quota_operator.Start.Last.{
  IsStart, IsSetUp, append-StartsLast, Run-starts, Some-after, none-IsStart,
}

module _ {Rq Lr Context : Type 0} (c : Client Rq Lr) (username : Context → Result Text)
    (r : Runtime c.State Rq Lr Context) where
  -- The watcher of a certificate: there is none, and nothing was done, exactly if its path is empty,
  -- and otherwise it is what certwatcher.New returned for the two files.
  abbrev pub Obtained : Text → Text → Text → r.World → Option r.Watcher → r.World → Type 0
  Obtained path name key w none w' = (path ≡ []) × (w' ≡ w)
  Obtained path name key w (some watcher) w' =
      (path ≢ []) × (r.new_watcher (r.join path name) (r.join path key) w ≡ (ok watcher, w'))

  watch_plan-IsSetUp : (path name key : Text) → All IsSetUp (watch_plan c username r path name key)
  watch_plan-IsSetUp path name key = elim (Bool-cases (ltb 0 (length path))) [
    | inl given ↦ rw given (tt, tt)
    | inr absent ↦ rw absent tt
  ]

  managed_plan-IsSetUp :
      (flags : Flags) (webhook_watcher metrics_watcher : Option r.Watcher)
      → All IsSetUp (managed_plan c username r flags webhook_watcher metrics_watcher)
  managed_plan-IsSetUp flags webhook_watcher metrics_watcher =
      managed_plan-All c username r IsSetUp (λ _ _. tt) tt tt tt (λ _ _. tt) (λ _. tt) (λ _. tt)
        (λ _. tt) flags webhook_watcher metrics_watcher tt

  -- A certificate is watched: its watcher is obtained, or the call fails.
  abbrev Watches :
      Text
      → Text
      → Text
      → r.World
      → Calls r
      → Outcome (Option r.Watcher) × (r.World × Calls r)
      → Type 0
  Watches path name key w before result =
      let log = before ++ watch_plan c username r path name key in
      ((watcher : Option r.Watcher) × (w' : r.World) × Obtained path name key w watcher w'
        × (result ≡ (done watcher, (w', log))))
      ⊎ ((e : Error) × (w' : r.World) × (result ≡ (fail e, (w', log))))

  called-Watches :
      (x : ℕ) (path name key : Text) (w : r.World) (before : Calls r)
      (a : Result r.Watcher × r.World)
      → r.new_watcher (r.join (x ∷ path) name) (r.join (x ∷ path) key) w ≡ a
      → Watches
          (x ∷ path)
          name
          key
          w
          before
          (watch c username (traced r) (x ∷ path) name key (w, before))
  unfolding watch
  called-Watches x path name key w before (ok watcher, w') same =
      let given : ltb 0 (length (x ∷ path)) ≡ true = ground arith in
      inl (some watcher, w', ((λ e. cc), same), rw (given, same))
  called-Watches x path name key w before (err e, w') same =
      let given : ltb 0 (length (x ∷ path)) ≡ true = ground arith in inr (e, w', rw (given, same))

  watch-Watches :
      (path name key : Text) (w : r.World) (before : Calls r)
      → Watches path name key w before (watch c username (traced r) path name key (w, before))
  unfolding watch
  watch-Watches [] name key w before = inl (none, w, (refl, refl), rw (append-nil before))
  watch-Watches (x ∷ path) name key w before =
      called-Watches x path name key w before
        (r.new_watcher (r.join (x ∷ path) name) (r.join (x ∷ path) key) w) refl

  module _ (flags : Flags) (w : r.World) where
    -- The plan of `main`, with the watchers that were obtained.
    abbrev pub Plans : Calls r → Type 0
    Plans log =
        (webhook_watcher metrics_watcher : Option r.Watcher) × (w1 w2 : r.World) × Obtained
          flags.webhook_cert_path flags.webhook_cert_name flags.webhook_cert_key w webhook_watcher
          w1
        × Obtained flags.metrics_cert_path flags.metrics_cert_name flags.metrics_cert_key w1
            metrics_watcher w2
        × (log ≡ main_plan c username r flags webhook_watcher metrics_watcher)

    managed :
        (before : Calls r) (webhook_watcher metrics_watcher : Option r.Watcher) (w2 : r.World)
        → All IsSetUp before
        → let after =
            made_manager c username (traced r) flags webhook_watcher metrics_watcher (w2, before) in
          Some IsStart after.1.1
          → after.1.1
            ≡ before
              ++ (managed_plan c username r flags webhook_watcher metrics_watcher ++ starts ∷ [])
    managed before webhook_watcher metrics_watcher w2 quiet reached =
        let (log, same, runs) =
          (made_manager-Follows c username r flags webhook_watcher metrics_watcher).run w2 before in
        let done_all =
          Run-starts
            (append-StartsLast (managed_plan c username r flags webhook_watcher metrics_watcher)
              (managed_plan-IsSetUp flags webhook_watcher metrics_watcher))
            runs (Some-after before log quiet (subst (Some IsStart) same reached)) in
        same ∙ ap (λ l. before ++ l) done_all

    -- What follows the watch of the metrics' certificate, with the outcome of the watch.
    abbrev with_metrics :
        Option r.Watcher
        → Outcome (Option r.Watcher) × (r.World × Calls r)
        → Outcome (Unit {0}) × (r.World × Calls r)
    with_metrics webhook_watcher (o, s) =
        continue o (made_manager c username (traced r) flags webhook_watcher) s

    metrics :
        (webhook_watcher : Option r.Watcher) (w1 : r.World) (before : Calls r)
        (result : Outcome (Option r.Watcher) × (r.World × Calls r))
        → All IsSetUp before
        → Watches flags.metrics_cert_path flags.metrics_cert_name flags.metrics_cert_key w1 before
            result
        → Some IsStart (with_metrics webhook_watcher result).1.1
        → (metrics_watcher : Option r.Watcher) × (w2 : r.World) × Obtained flags.metrics_cert_path
            flags.metrics_cert_name flags.metrics_cert_key w1 metrics_watcher w2
          × ((with_metrics webhook_watcher result).1.1
              ≡ (before
                  ++ watch_plan c username r flags.metrics_cert_path flags.metrics_cert_name
                      flags.metrics_cert_key)
                ++ (managed_plan c username r flags webhook_watcher metrics_watcher ++ starts ∷ []))
    metrics webhook_watcher w1 before result quiet (inl (metrics_watcher, w2, got, same)) reached =
        let quiet' = All-append IsSetUp before _ quiet (watch_plan-IsSetUp _ _ _) in
        let plan =
          managed _ webhook_watcher metrics_watcher w2 quiet'
            (subst (λ a. Some IsStart (with_metrics webhook_watcher a).1.1) same reached) in
        (metrics_watcher, w2, got, ap (λ a. (with_metrics webhook_watcher a).1.1) same ∙ plan)
    metrics webhook_watcher w1 before result quiet (inr (e, w2, same)) reached = absurd (
        none-IsStart _ (All-append IsSetUp before _ quiet (watch_plan-IsSetUp _ _ _))
          (subst (λ a. Some IsStart (with_metrics webhook_watcher a).1.1) same reached))

    abbrev with_webhooks :
        Outcome (Option r.Watcher) × (r.World × Calls r) → Outcome (Unit {0}) × (r.World × Calls r)
    with_webhooks (o, s) =
        continue o
          (λ webhook_watcher.
            watch c username (traced r) flags.metrics_cert_path flags.metrics_cert_name
              flags.metrics_cert_key
            >>= made_manager c username (traced r) flags webhook_watcher)
          s

    webhooks :
        (result : Outcome (Option r.Watcher) × (r.World × Calls r))
        → Watches flags.webhook_cert_path flags.webhook_cert_name flags.webhook_cert_key w [] result
        → Some IsStart (with_webhooks result).1.1
        → Plans (with_webhooks result).1.1
    webhooks result (inl (webhook_watcher, w1, got, same)) reached =
        let (metrics_watcher, w2, got', plan) =
          metrics webhook_watcher w1 _ _ (watch_plan-IsSetUp _ _ _)
            (watch-Watches flags.metrics_cert_path flags.metrics_cert_name flags.metrics_cert_key w1
              _)
            (subst (λ a. Some IsStart (with_webhooks a).1.1) same reached) in
        (
          webhook_watcher,
          metrics_watcher,
          w1,
          w2,
          got,
          got',
          ap (λ a. (with_webhooks a).1.1) same ∙ plan ∙ simp (append_assoc),
        )
    webhooks result (inr (e, w1, same)) reached = absurd (
        none-IsStart _ (watch_plan-IsSetUp _ _ _)
          (subst (λ a. Some IsStart (with_webhooks a).1.1) same reached))

    -- Whatever the library does and whatever the flags are, if `main` starts the manager, it has
    -- made every call of its plan before: certificates, the manager, both controllers, the webhooks
    -- that are enabled, the watchers, and the health checks, in this order. The plan is that of the
    -- watchers that certwatcher.New returned for the certificate of the webhooks first and for that
    -- of the metrics then, of none where the flags give no path.
    pub main-starts :
        Some IsStart (calls c username r flags w)
        → (webhook_watcher metrics_watcher : Option r.Watcher) × (w1 w2 : r.World) × Obtained
            flags.webhook_cert_path flags.webhook_cert_name flags.webhook_cert_key w webhook_watcher
            w1
          × Obtained flags.metrics_cert_path flags.metrics_cert_name flags.metrics_cert_key w1
              metrics_watcher w2
          × (calls c username r flags w
              ≡ main_plan c username r flags webhook_watcher metrics_watcher)
    unfolding main
    main-starts reached =
        webhooks _
          (watch-Watches flags.webhook_cert_path flags.webhook_cert_name flags.webhook_cert_key w
            [])
          reached
