-- ===== src/Start/Last.antt =====
-- cmd/main.go: runs of a plan whose last call is the start of the manager.
use namespace_quota_operator.Common.{◌≡◌, refl, ap, List, [], ◌∷◌, ◌++◌, All, inl, inr, Some}
use namespace_quota_operator.Effect.{Outcome}
use namespace_quota_operator.Start.Trace.{Call, starts}
use namespace_quota_operator.Start.Follow.{Run, finished, failed, performed}

module _ {State Rq Lr Context Watcher : Type 0} where
  abbrev pub IsStart : Call State Rq Lr Context Watcher → Type 0
  IsStart starts = Unit
  IsStart _ = ⊥

  abbrev pub IsSetUp : Call State Rq Lr Context Watcher → Type 0
  IsSetUp starts = ⊥
  IsSetUp _ = Unit

  -- The start stands at the end at most.
  abbrev pub StartsLast : List (Call State Rq Lr Context Watcher) → Type 0
  StartsLast [] = Unit
  StartsLast (x ∷ []) = Unit
  StartsLast (x ∷ y ∷ rest) = IsSetUp x × StartsLast (y ∷ rest)

  pub append-StartsLast :
      (calls : List (Call State Rq Lr Context Watcher))
      → All IsSetUp calls
      → StartsLast (calls ++ starts ∷ [])
  append-StartsLast [] _ = tt
  append-StartsLast (x ∷ []) (p, _) = (p, tt)
  append-StartsLast (x ∷ y ∷ rest) (p, h) = (p, append-StartsLast (y ∷ rest) h)

  tail-StartsLast :
      (x : Call State Rq Lr Context Watcher) (rest : List (Call State Rq Lr Context Watcher))
      → StartsLast (x ∷ rest)
      → StartsLast rest
  tail-StartsLast x [] _ = tt
  tail-StartsLast x (y ∷ rest) (p, h) = h

  start_is_last :
      (x : Call State Rq Lr Context Watcher) (rest : List (Call State Rq Lr Context Watcher))
      → StartsLast (x ∷ rest)
      → IsStart x
      → rest ≡ []
  start_is_last x [] _ _ = refl
  start_is_last starts (y ∷ rest) (p, _) _ = absurd p
  start_is_last _ (y ∷ rest) (p, _) s = absurd s

  Run-short :
      {plan log : List (Call State Rq Lr Context Watcher)} {o : Outcome (Unit {0})}
      → Run plan log o
      → plan ≡ []
      → log ≡ []
  Run-short (finished a) e = refl
  Run-short (failed x rest f) e = cc
  Run-short (performed x rest log o run) e = cc

  -- A run that comes to the start has done all of its plan.
  pub Run-starts :
      {plan log : List (Call State Rq Lr Context Watcher)} {o : Outcome (Unit {0})}
      → StartsLast plan
      → Run plan log o
      → Some IsStart log
      → log ≡ plan
  Run-starts last (finished a) _ = refl
  Run-starts last (failed x rest e) (inl s) = rw (start_is_last x rest last s)
  Run-starts last (failed x rest e) (inr h) = absurd h
  Run-starts last (performed x rest log o run) (inl s) =
      let short = start_is_last x rest last s in rw (short, Run-short run short)
  Run-starts last (performed x rest log o run) (inr h) =
      ap (λ l. x ∷ l) (Run-starts (tail-StartsLast x rest last) run h)

  pub Some-after :
      (before rest : List (Call State Rq Lr Context Watcher))
      → All IsSetUp before
      → Some IsStart (before ++ rest)
      → Some IsStart rest
  Some-after [] rest _ h = h
  Some-after (starts ∷ before) rest (p, _) _ = absurd p
  Some-after (_ ∷ before) rest (_, ps) (inl s) = absurd s
  Some-after (_ ∷ before) rest (_, ps) (inr h) = Some-after before rest ps h

  pub none-IsStart :
      (log : List (Call State Rq Lr Context Watcher)) → All IsSetUp log → ¬ Some IsStart log
  none-IsStart [] _ h = h
  none-IsStart (starts ∷ log) (p, _) _ = p
  none-IsStart (_ ∷ log) (_, ps) (inl s) = s
  none-IsStart (_ ∷ log) (_, ps) (inr h) = none-IsStart log ps h
