-- ===== src/Effect.antt =====
-- Errors, panics and state: a Go function that may return an error or panic while it changes the
-- cluster behind the client.
pub mod Ensures
pub mod Frame
pub mod Preserve
pub mod Quiet
use namespace_quota_operator.Text.{Text}
use namespace_quota_operator.Common.{ℕ, suc, List, [], ◌∷◌, Option, none, some}

-- The errors that the operator tells apart or makes; `api` stands for any other error of the API
-- server, and `refused` carries the text of an admission webhook's answer.
pub data Error : Type 0 where
  not_found : Error
  api : ℕ → Error
  invalid_index : Error
  wrong_object : Error
  refused : Text → Error
  duplicate_match_name : Text → Text → Text → Error
  duplicate_match_labels : Text → Text → Error
  list_failed : Error → Error

-- What a call of the API returns.
pub data Result {ℓ} (A : Type ℓ) : Type ℓ where
  ok : A → Result A
  err : Error → Result A

-- What a Go function does: it returns a value, returns an error, or panics.
pub data Outcome {ℓ} (A : Type ℓ) : Type ℓ where
  done : A → Outcome A
  fail : Error → Outcome A
  panic : Outcome A

-- An action on a state. What was done before an error or a panic stays done.
abbrev pub Action {ℓ} : Type ℓ → Type ℓ → Type ℓ
Action S A = S → Outcome A × S

module _ {ℓ} {A : Type ℓ} where
  abbrev pub returned : Result A → Outcome A
  returned (ok a) = done a
  returned (err e) = fail e

  -- A value, or a panic where there is none.
  abbrev pub must : Option A → Outcome A
  must none = panic
  must (some a) = done a

module _ {ℓ} {S A : Type ℓ} where
  abbrev pub pure : A → Action S A
  pure a s = (done a, s)

  abbrev pub raise : Error → Action S A
  raise e s = (fail e, s)

  -- A pure step that may fail or panic.
  abbrev pub lift : Outcome A → Action S A
  lift o s = (o, s)

  -- A read.
  abbrev pub query : (S → Result A) → Action S A
  query f s = (returned (f s), s)

  -- A write.
  abbrev pub command : (S → Result A × S) → Action S A
  command f s = let (r, s') = f s in (returned r, s')

  -- A write whose error is logged and dropped.
  abbrev pub attempt : (S → Result A × S) → Action S (Unit {ℓ})
  attempt f s = (done tt, (f s).1)

module _ {ℓ} {S A B : Type ℓ} where
  abbrev pub continue : Outcome A → (A → Action S B) → Action S B
  continue (done a) f s = f a s
  continue (fail e) f s = (fail e, s)
  continue panic f s = (panic, s)

  infixl 10 ◌>>=◌ ◌>>◌
  abbrev pub ◌>>=◌ : Action S A → (A → Action S B) → Action S B
  ◌>>=◌ m f s = let (r, s') = m s in continue r f s'

  abbrev pub ◌>>◌ : Action S A → Action S B → Action S B
  m >> n = m >>= λ _. n

-- `for _, item := range items { … }`, which stops at an error or a panic of the body.
unfoldable pub for_each {ℓ} :
    {S A : Type ℓ} → (A → Action S (Unit {ℓ})) → List A → Action S (Unit {ℓ})
for_each body [] = pure tt
for_each body (x ∷ xs) = body x >> for_each body xs

-- `for i, item := range items { … }`, from an index on.
unfoldable pub for_each_from {ℓ} :
    {S A : Type ℓ} → (ℕ → A → Action S (Unit {ℓ})) → ℕ → List A → Action S (Unit {ℓ})
for_each_from body i [] = pure tt
for_each_from body i (x ∷ xs) = body i x >> for_each_from body (suc i) xs
