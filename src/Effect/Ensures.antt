-- ===== src/Effect/Ensures.antt =====
-- What an action returns, from any state, if it returns a value: a rule for each way to build one.
use namespace_quota_operator.Common.{◌≡◌, refl, Bool, true, false, if◌then◌else◌}
use namespace_quota_operator.Effect.{Outcome, done, fail, panic, Action, pure, continue, ◌>>=◌}

-- The value, if there is one, has the property.
abbrev pub Returns {ℓ} : {A : Type ℓ} → Outcome A → (A → Type ℓ) → Type ℓ
Returns (done a) P = P a
Returns (fail e) P = Unit
Returns panic P = Unit

pub record Ensures {ℓ} {S A : Type ℓ} (P : A → Type ℓ) (m : Action S A) : Type ℓ where
  pub at : (s : S) → Returns (m s).0 P

module _ {ℓ} {S A : Type ℓ} {P : A → Type ℓ} where
  pub Ensures-pure : (a : A) → P a → Ensures {S = S} P (pure a)
  Ensures-pure a h = record { at = λ s. h }

  pub Ensures-if :
      (b : Bool) (m n : Action S A)
      → (b ≡ true → Ensures P m)
      → (b ≡ false → Ensures P n)
      → Ensures P (if b then m else n)
  Ensures-if true m n km kn = km refl
  Ensures-if false m n km kn = kn refl

  -- A returned value has the property.
  pub Ensures-done : {m : Action S A} → Ensures P m → (s : S) (a : A) → (m s).0 ≡ done a → P a
  Ensures-done {m} e s a h = rw h at (e.at s)

module _ {ℓ} {A : Type ℓ} {P Q : A → Type ℓ} where
  Returns-map : (o : Outcome A) → Returns o P → ((a : A) → P a → Q a) → Returns o Q
  Returns-map (done a) h f = f a h
  Returns-map (fail e) h f = tt
  Returns-map panic h f = tt

module _ {ℓ} {S A : Type ℓ} {P Q : A → Type ℓ} where
  pub Ensures-map : (m : Action S A) → Ensures P m → ((a : A) → P a → Q a) → Ensures Q m
  Ensures-map m h f = record { at = λ s. Returns-map (m s).0 (h.at s) f }

module _ {ℓ} {A : Type ℓ} where
  any : (o : Outcome A) → Returns o (λ _. Unit {ℓ})
  any (done a) = tt
  any (fail e) = tt
  any panic = tt

module _ {ℓ} {S A : Type ℓ} where
  -- Of an action that may return anything.
  pub Ensures-any : (m : Action S A) → Ensures (λ _. Unit {ℓ}) m
  Ensures-any m = record { at = λ s. any (m s).0 }

module _ {ℓ} {S A B : Type ℓ} {P : A → Type ℓ} {Q : B → Type ℓ} where
  continue-Returns :
      (o : Outcome A) (f : A → Action S B) (s : S)
      → Returns o P
      → ((a : A) → P a → Ensures Q (f a))
      → Returns (continue o f s).0 Q
  continue-Returns (done a) f s h k = (k a h).at s
  continue-Returns (fail e) f s h k = tt
  continue-Returns panic f s h k = tt

  pub Ensures-bind :
      (m : Action S A) (f : A → Action S B)
      → Ensures P m
      → ((a : A) → P a → Ensures Q (f a))
      → Ensures Q (m >>= f)
  Ensures-bind m f h k = record {
    at = λ s. let (o, s') = m s in continue-Returns o f s' (h.at s) k;
  }
