-- ===== src/Start/Trace.antt =====
-- The calls that cmd/main.go makes, in order: a runtime that does what another does and keeps a list.
use namespace_quota_operator.Common.{List, [], ◌∷◌, ◌++◌}
use namespace_quota_operator.Text.{Text}
use namespace_quota_operator.Effect.{Result}
use namespace_quota_operator.Start.{ManagerOptions, Controller, Hook, Runtime}

pub data Call (State Rq Lr Context Watcher : Type 0) : Type 0 where
  watches : Text → Text → Call State Rq Lr Context Watcher
  reads_config : Call State Rq Lr Context Watcher
  makes_manager : ManagerOptions Watcher → Call State Rq Lr Context Watcher
  controls : Controller State → Call State Rq Lr Context Watcher
  serves : Hook State Rq Lr Context → Call State Rq Lr Context Watcher
  adds : Watcher → Call State Rq Lr Context Watcher
  checks_health : Text → Call State Rq Lr Context Watcher
  checks_readiness : Text → Call State Rq Lr Context Watcher
  starts : Call State Rq Lr Context Watcher

-- A call with its entry at the end of the list.
abbrev pub logged :
    {World Entry A : Type 0}
    → Entry
    → (World → Result A × World)
    → World × List Entry
    → Result A × (World × List Entry)
logged entry f (w, log) = let (a, w') = f w in (a, (w', log ++ entry ∷ []))

module _ {State Rq Lr Context : Type 0} (r : Runtime State Rq Lr Context) where
  abbrev pub Calls : Type 0
  Calls = List (Call State Rq Lr Context r.Watcher)

  abbrev pub traced : Runtime State Rq Lr Context
  traced = record {
    World = r.World × Calls;
    Watcher = r.Watcher;
    Config = r.Config;
    getenv = r.getenv;
    join = r.join;
    new_watcher = λ cert key. logged (watches cert key) (r.new_watcher cert key);
    get_config = logged reads_config r.get_config;
    new_manager = λ config options. logged (makes_manager options) (r.new_manager config options);
    complete_controller =
        λ controller. logged (controls controller) (r.complete_controller controller);
    complete_webhook = λ hook. logged (serves hook) (r.complete_webhook hook);
    add = λ watcher. logged (adds watcher) (r.add watcher);
    add_healthz_check = λ name. logged (checks_health name) (r.add_healthz_check name);
    add_readyz_check = λ name. logged (checks_readiness name) (r.add_readyz_check name);
    start = logged starts r.start;
  }
