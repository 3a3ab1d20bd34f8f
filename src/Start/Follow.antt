-- ===== src/Start/Follow.antt =====
-- Actions that make planned calls one after the other and stop at the first that fails.
use mathlib.Core.Path.{subst}
use namespace_quota_operator.Common.{
  ◌≡◌, refl, sym, ap, fun_ext, ◌∙◌, Bool, true, false, List, [], ◌∷◌, ◌++◌, append_assoc,
  append-nil, if◌then◌else◌, All,
}
use namespace_quota_operator.Effect.{
  Error, Result, ok, err, Outcome, done, fail, Action, pure, command, continue, ◌>>=◌, ◌>>◌,
}
use namespace_quota_operator.Start.Trace.{logged}

-- How far a plan was carried out: to its end, or up to and with an entry that failed.
pub data Run {A Entry : Type 0} : List Entry → List Entry → Outcome A → Type 0 where
  finished : (a : A) → Run [] [] (done a)
  failed : (x : Entry) (rest : List Entry) (e : Error) → Run (x ∷ rest) (x ∷ []) (fail e)
  performed :
      (x : Entry) (rest log : List Entry) (o : Outcome A)
      → Run rest log o
      → Run (x ∷ rest) (x ∷ log) o

module _ {A Entry : Type 0} (P : Entry → Type 0) where
  pub All-Run : {plan log : List Entry} {o : Outcome A} → Run plan log o → All P plan → All P log
  All-Run (finished a) h = tt
  All-Run (failed x rest e) (p, h) = (p, tt)
  All-Run (performed x rest log o run) (p, h) = (p, All-Run run h)

-- The calls of an action, from any state, run a plan.
module _ {World Entry : Type 0} where
  pub record Follows {A : Type 0} (plan : List Entry) (m : Action (World × List Entry) A)
      : Type 0 where
    pub run :
        (w : World) (before : List Entry)
        → (log : List Entry) × ((m (w, before)).1.1 ≡ before ++ log)
          × Run plan log (m (w, before)).0

  pub Follows-pure : {A : Type 0} (a : A) → Follows [] (pure a)
  Follows-pure a = record { run = λ w before. ([], sym (append-nil before), finished a) }

  pub Follows-call :
      {A : Type 0} (x : Entry) (f : World → Result A × World)
      → Follows (x ∷ []) (command (logged x f))
  Follows-call x f = record { run = λ w before. (x ∷ [], refl, called x (f w).0) }
    where
      called :
          {A : Type 0} (x : Entry) (r : Result A)
          → Run (x ∷ []) (x ∷ []) (elim r [ ok a ↦ done a | err e ↦ fail e ])
      called x (ok a) = performed x [] [] _ (finished a)
      called x (err e) = failed x [] e

  -- The calls of an action run one plan of a family.
  pub record Explores {A I : Type 0} (plan : I → List Entry) (m : Action (World × List Entry) A)
      : Type 0 where
    pub run :
        (w : World) (before : List Entry)
        → (i : I) × (log : List Entry) × ((m (w, before)).1.1 ≡ before ++ log)
          × Run (plan i) log (m (w, before)).0

  pub Follows-Explores :
      {A I : Type 0} (plan : I → List Entry) (i : I) {m : Action (World × List Entry) A}
      → Follows (plan i) m
      → Explores plan m
  Follows-Explores plan i h = record {
    run = λ w before. let (log, reached, runs) = h.run w before in (i, log, reached, runs);
  }

  pub Explores-plan :
      {A I : Type 0} {plan plan' : I → List Entry} {m : Action (World × List Entry) A}
      → ((i : I) → plan i ≡ plan' i)
      → Explores plan m
      → Explores plan' m
  Explores-plan {m = m} same h = subst (λ plan. Explores plan m) (fun_ext same) h

  -- What follows runs one plan of a family, and if the first action fails, any of them would do.
  module _ {A B I : Type 0} (after : I → List Entry) (f : A → Action (World × List Entry) B)
      (next : (a : A) → Explores after (f a)) (default : I) where
    -- What follows an outcome.
    Run-continue :
        {plan log : List Entry} {o : Outcome A} (s : World × List Entry)
        → Run plan log o
        → (i : I) × (rest : List Entry) × ((continue o f s).1.1 ≡ s.1 ++ rest)
          × Run (plan ++ after i) (log ++ rest) (continue o f s).0
    Run-continue s (finished a) = (next a).run s.0 s.1
    Run-continue s (failed x rest e) = (default, [], sym (append-nil s.1), failed x _ e)
    Run-continue s (performed x rest log o run) =
        let (i, more, reached, runs) = Run-continue s run in
        (i, more, reached, performed x _ _ _ runs)

    pub Explores-bind :
        {plan : List Entry} {m : Action (World × List Entry) A}
        → Follows plan m
        → Explores (λ i. plan ++ after i) (m >>= f)
    Explores-bind {plan} {m} first = record {
      run = λ w before.
          let (log, reached, runs) = first.run w before in
          let (i, more, reached', runs') = Run-continue (m (w, before)).1 runs in
          (
            i,
            log ++ more,
            reached' ∙ ap (λ l. l ++ more) reached ∙ append_assoc before log more,
            runs',
          );
    }

  pub Follows-bind :
      {A B : Type 0} {plan after : List Entry} {m : Action (World × List Entry) A}
      (f : A → Action (World × List Entry) B)
      → Follows plan m
      → ((a : A) → Follows after (f a))
      → Follows (plan ++ after) (m >>= f)
  Follows-bind {plan = plan} {after} {m} f first next =
      let both =
        Explores-bind (λ (i : Unit {0}). after) f
          (λ a. Follows-Explores (λ (i : Unit {0}). after) tt (next a)) tt first in
      record {
        run = λ w before. let (_, log, reached, runs) = both.run w before in (log, reached, runs);
      }

  pub Follows-then :
      {plan after : List Entry} {m n : Action (World × List Entry) (Unit {0})}
      → Follows plan m
      → Follows after n
      → Follows (plan ++ after) (m >> n)
  Follows-then {n = n} first next = Follows-bind (λ _. n) first (λ _. next)

  pub Follows-if :
      {A : Type 0} (b : Bool) {plan : List Entry} {m : Action (World × List Entry) A} (a : A)
      → Follows plan m
      → Follows (if b then plan else []) (if b then m else pure a)
  Follows-if true a h = h
  Follows-if false a h = Follows-pure a
