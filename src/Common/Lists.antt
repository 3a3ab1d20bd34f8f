-- ===== src/Common/Lists.antt =====
-- Lists measured and indexed by native numbers, and predicates by recursion on a list.
use Prim.Native.Nat.{ℕ, zero, suc, ◌+◌, ◌<◌, ◌≤◌}
use mathlib.Core.Path.{◌≡◌, refl}
use mathlib.Core.Logic.{◌≢◌, ◌⊎◌, inl, inr}
use mathlib.Core.List.{List, [], ◌∷◌, ◌++◌}
use mathlib.Core.Option.{Option, none, some}
use native.Mathlib.Omega.{arith}

module _ {ℓ} {A : Type ℓ} where
  abbrev pub length : List A → ℕ
  length [] = 0
  length (x ∷ xs) = suc (length xs)

  abbrev pub get_elem? : List A → ℕ → Option A
  get_elem? [] i = none
  get_elem? (x ∷ xs) zero = some x
  get_elem? (x ∷ xs) (suc i) = get_elem? xs i

  pub get_elem?-ne-none : (xs : List A) (i : ℕ) → i < length xs → get_elem? xs i ≢ none
  get_elem?-ne-none [] i h = absurd (omega arith)
  get_elem?-ne-none (x ∷ xs) zero h = cc
  get_elem?-ne-none (x ∷ xs) (suc i) h = get_elem?-ne-none xs i (omega arith)

  pub get_elem?-lt : (xs : List A) (i : ℕ) {x : A} → get_elem? xs i ≡ some x → i < length xs
  get_elem?-lt [] i h = cc
  get_elem?-lt (y ∷ xs) zero h = omega arith
  get_elem?-lt (y ∷ xs) (suc i) h = omega (arith, get_elem?-lt xs i h)

  pub get_elem?-le : (xs : List A) (i : ℕ) → get_elem? xs i ≡ none → length xs ≤ i
  get_elem?-le [] i h = omega arith
  get_elem?-le (y ∷ xs) zero h = cc
  get_elem?-le (y ∷ xs) (suc i) h = omega (arith, get_elem?-le xs i h)

  pub get_elem?-none : (xs : List A) (i : ℕ) → length xs ≤ i → get_elem? xs i ≡ none
  get_elem?-none [] i h = refl
  get_elem?-none (y ∷ xs) zero h = absurd (omega arith)
  get_elem?-none (y ∷ xs) (suc i) h = get_elem?-none xs i (omega arith)

  pub length-append : (xs ys : List A) → length (xs ++ ys) ≡ length xs + length ys
  length-append [] ys = omega arith
  length-append (x ∷ xs) ys = omega (arith, length-append xs ys)

module _ {ℓ κ} {A : Type ℓ} (P : A → Type κ) where
  abbrev pub All : List A → Type κ
  All [] = Unit
  All (x ∷ xs) = P x × All xs

  pub All-append : (xs ys : List A) → All xs → All ys → All (xs ++ ys)
  All-append [] ys _ hy = hy
  All-append (x ∷ xs) ys (px, hx) hy = (px, All-append xs ys hx hy)

module _ {ℓ} {A : Type ℓ} where
  -- Some element has the property.
  abbrev pub Some : (A → Type 0) → List A → Type 0
  Some P [] = ⊥
  Some P (x ∷ xs) = P x ⊎ Some P xs

  pub Some-map : (P Q : A → Type 0) (xs : List A) → ((x : A) → P x → Q x) → Some P xs → Some Q xs
  Some-map P Q [] f h = absurd h
  Some-map P Q (x ∷ xs) f (inl p) = inl (f x p)
  Some-map P Q (x ∷ xs) f (inr h) = inr (Some-map P Q xs f h)

-- An element that has the property of some element, and the one of all.
pub All-Some :
    {A : Type 0} (P Q : A → Type 0) (xs : List A) → All P xs → Some Q xs → (x : A) × P x × Q x
All-Some P Q [] _ h = absurd h
All-Some P Q (x ∷ xs) (p, ps) (inl h) = (x, p, h)
All-Some P Q (x ∷ xs) (p, ps) (inr h) = All-Some P Q xs ps h

pub All-zip :
    {A : Type 0} (P Q R : A → Type 0) (xs : List A)
    → All P xs
    → All Q xs
    → All R xs
    → All (λ x. P x × Q x × R x) xs
All-zip P Q R [] _ _ _ = tt
All-zip P Q R (x ∷ xs) (p, ps) (q, qs) (r, rs) = ((p, q, r), All-zip P Q R xs ps qs rs)

pub All-Unit : {A : Type 0} (xs : List A) → All (λ _. Unit {0}) xs
All-Unit [] = tt
All-Unit (x ∷ xs) = (tt, All-Unit xs)
