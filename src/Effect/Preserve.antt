-- ===== src/Effect/Preserve.antt =====
-- Actions that keep an invariant of the state, whatever they return: a rule for each way to build one.
use namespace_quota_operator.Common.{
  ℕ, suc, ◌≡◌, refl, Bool, true, false, List, [], ◌∷◌, Option, none, some, if◌then◌else◌, All,
}
use namespace_quota_operator.Effect.{
  Result, ok, err, Outcome, done, fail, panic, Action, lift, query, command, attempt, continue,
  ◌>>=◌, for_each, for_each_from,
}

module _ {S : Type 0} (Inv : S → Type 0) where
  pub record Preserves {A : Type 0} (m : Action S A) : Type 0 where
    pub at : (s : S) → Inv s → Inv (m s).1

  -- A write that keeps the invariant.
  abbrev pub Keeps : {A : Type 0} → (S → A × S) → Type 0
  Keeps f = (s : S) → Inv s → Inv (f s).1

  pub Preserves-lift : {A : Type 0} (o : Outcome A) → Preserves (lift o)
  Preserves-lift o = record { at = λ s h. h }

  pub Preserves-query : {A : Type 0} (f : S → Result A) → Preserves (query f)
  Preserves-query f = record { at = λ s h. h }

  pub Preserves-command : (f : S → Result (Unit {0}) × S) → Keeps f → Preserves (command f)
  Preserves-command f k = record { at = k }

  pub Preserves-attempt : (f : S → Result (Unit {0}) × S) → Keeps f → Preserves (attempt f)
  Preserves-attempt f k = record { at = k }

  continued :
      {A B : Type 0} (f : A → Action S B) (o : Outcome A) (s : S)
      → ((a : A) → o ≡ done a → Preserves (f a))
      → Inv s
      → Inv (continue o f s).1
  continued f (done a) s k h = (k a refl).at s h
  continued f (fail e) s k h = h
  continued f panic s k h = h

  pub Preserves-bind :
      {A B : Type 0} (m : Action S A) (f : A → Action S B)
      → Preserves m
      → ((a : A) → Preserves (f a))
      → Preserves (m >>= f)
  Preserves-bind m f h k = record {
    at = λ s i. continued f (m s).0 (m s).1 (λ a _. k a) (h.at s i);
  }

  returned_continued :
      {A B : Type 0} (P : A → Type 0) (f : A → Action S B)
      → ((a : A) → P a → Preserves (f a))
      → (r : Result A) (s : S) → ((a : A) → r ≡ ok a → P a)
      → Inv s
      → Inv (continue (elim r [ ok a ↦ done a | err e ↦ fail e ]) f s).1
  returned_continued P f k (ok a) s known h = (k a (known a refl)).at s h
  returned_continued P f k (err e) s known h = h

  -- What is read in a state that has the invariant has a property.
  pub Preserves-read :
      {A B : Type 0} (P : A → Type 0) (read : S → Result A) (f : A → Action S B)
      → ((s : S) (a : A) → Inv s → read s ≡ ok a → P a)
      → ((a : A) → P a → Preserves (f a))
      → Preserves (query read >>= f)
  Preserves-read P read f known k = record {
    at = λ s h. returned_continued P f k (read s) s (λ a e. known s a h e) h;
  }

  pub Preserves-if :
      {A : Type 0} (b : Bool) {m n : Action S A}
      → Preserves m
      → Preserves n
      → Preserves (if b then m else n)
  Preserves-if true hm hn = hm
  Preserves-if false hm hn = hn

  -- A test that the state is handed to.
  pub Preserves-test :
      {A : Type 0} (b : Bool) (m n : Action S A)
      → Preserves m
      → Preserves n
      → Preserves (λ s. if b then m s else n s)
  Preserves-test true m n hm hn = record { at = hm.at }
  Preserves-test false m n hm hn = record { at = hn.at }

  pub Preserves-option :
      {A B : Type 0} (o : Option A) {m : Action S B} {f : A → Action S B}
      → Preserves m
      → ((a : A) → Preserves (f a))
      → Preserves (elim o [ none ↦ m | some a ↦ f a ])
  Preserves-option none hm hf = hm
  Preserves-option (some a) hm hf = hf a

  pub Preserves-for_each :
      {Item : Type 0} (P : Item → Type 0) (body : Item → Action S (Unit {0}))
      → ((x : Item) → P x → Preserves (body x))
      → (xs : List Item) → All P xs
      → Preserves (for_each body xs)
  unfolding for_each
  Preserves-for_each P body k [] _ = Preserves-lift (done tt)
  Preserves-for_each P body k (x ∷ xs) (p, h) =
      Preserves-bind (body x) (λ _. for_each body xs) (k x p)
        (λ _. Preserves-for_each P body k xs h)

  pub Preserves-for_each_from :
      {Item : Type 0} (body : ℕ → Item → Action S (Unit {0}))
      → ((i : ℕ) (x : Item) → Preserves (body i x))
      → (i : ℕ) (xs : List Item) → Preserves (for_each_from body i xs)
  unfolding for_each_from
  Preserves-for_each_from body k i [] = Preserves-lift (done tt)
  Preserves-for_each_from body k i (x ∷ xs) =
      Preserves-bind (body i x) (λ _. for_each_from body (suc i) xs) (k i x)
        (λ _. Preserves-for_each_from body k (suc i) xs)
