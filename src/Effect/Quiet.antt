-- ===== src/Effect/Quiet.antt =====
-- Actions that return no error, whatever the state is: a rule for each way to build one. They may panic.
use namespace_quota_operator.Common.{
  ℕ, suc, ◌≡◌, ◌≢◌, Bool, true, false, List, [], ◌∷◌, Option, none, some, if◌then◌else◌,
}
use namespace_quota_operator.Effect.{
  Error, Result, ok, Outcome, done, fail, panic, Action, must, pure, lift, query, attempt, continue,
  ◌>>=◌, for_each, for_each_from,
}

pub record Quiet {S A : Type 0} (m : Action S A) : Type 0 where
  pub at : (s : S) (e : Error) → (m s).0 ≢ fail e

-- A read that succeeds in every state.
abbrev pub Reads : {S A : Type 0} → (S → Result A) → Type 0
Reads {S} {A} read = (s : S) → (a : A) × (read s ≡ ok a)

module _ {S : Type 0} where
  pub Quiet-pure : {A : Type 0} (a : A) → Quiet {S = S} (pure a)
  Quiet-pure a = record { at = λ s e h. cc }

  pub Quiet-must : {A : Type 0} (o : Option A) → Quiet {S = S} (lift (must o))
  Quiet-must none = record { at = λ s e h. cc }
  Quiet-must (some a) = record { at = λ s e h. cc }

  pub Quiet-panic : {A : Type 0} → Quiet {S = S} {A = A} (lift panic)
  Quiet-panic = record { at = λ s e h. cc }

  pub Quiet-attempt : (f : S → Result (Unit {0}) × S) → Quiet (attempt f)
  Quiet-attempt f = record { at = λ s e h. cc }

  pub Quiet-query : {A : Type 0} (read : S → Result A) → Reads read → Quiet (query read)
  Quiet-query read reads = record { at = λ s e. let (a, h) = reads s in rw h (λ k. cc) }

  continued :
      {A B : Type 0} (f : A → Action S B) (o : Outcome A) (s : S) (e : Error)
      → o ≢ fail e
      → ((a : A) → Quiet (f a))
      → (continue o f s).0 ≢ fail e
  continued f (done a) s e h k = (k a).at s e
  continued f (fail x) s e h k = λ p. h (cc p)
  continued f panic s e h k = λ p. cc

  pub Quiet-bind :
      {A B : Type 0} (m : Action S A) (f : A → Action S B)
      → Quiet m
      → ((a : A) → Quiet (f a))
      → Quiet (m >>= f)
  Quiet-bind m f h k = record { at = λ s e. continued f (m s).0 (m s).1 e (h.at s e) k }

  pub Quiet-if :
      {A : Type 0} (b : Bool) {m n : Action S A} → Quiet m → Quiet n → Quiet (if b then m else n)
  Quiet-if true hm hn = hm
  Quiet-if false hm hn = hn

  -- A test that the state is handed to.
  pub Quiet-test :
      {A : Type 0} (b : Bool) (m n : Action S A)
      → Quiet m
      → Quiet n
      → Quiet (λ s. if b then m s else n s)
  Quiet-test true m n hm hn = record { at = hm.at }
  Quiet-test false m n hm hn = record { at = hn.at }

  pub Quiet-option :
      {A B : Type 0} (o : Option A) {m : Action S B} {f : A → Action S B}
      → Quiet m
      → ((a : A) → Quiet (f a))
      → Quiet (elim o [ none ↦ m | some a ↦ f a ])
  Quiet-option none hm hf = hm
  Quiet-option (some a) hm hf = hf a

  pub Quiet-for_each :
      {Item : Type 0} (body : Item → Action S (Unit {0}))
      → ((x : Item) → Quiet (body x))
      → (xs : List Item) → Quiet (for_each body xs)
  unfolding for_each
  Quiet-for_each body k [] = Quiet-pure tt
  Quiet-for_each body k (x ∷ xs) =
      Quiet-bind (body x) (λ _. for_each body xs) (k x) (λ _. Quiet-for_each body k xs)

  pub Quiet-for_each_from :
      {Item : Type 0} (body : ℕ → Item → Action S (Unit {0}))
      → ((i : ℕ) (x : Item) → Quiet (body i x))
      → (i : ℕ) (xs : List Item) → Quiet (for_each_from body i xs)
  unfolding for_each_from
  Quiet-for_each_from body k i [] = Quiet-pure tt
  Quiet-for_each_from body k i (x ∷ xs) =
      Quiet-bind (body i x) (λ _. for_each_from body (suc i) xs) (k i x)
        (λ _. Quiet-for_each_from body k (suc i) xs)
