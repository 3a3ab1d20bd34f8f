-- ===== src/Effect/Frame.antt =====
-- Loops that leave a view of the state alone.
use namespace_quota_operator.Common.{ℕ, suc, ◌≡◌, refl, ◌∙◌, List, [], ◌∷◌}
use namespace_quota_operator.Effect.{
  Outcome, done, fail, panic, Action, continue, for_each, for_each_from,
}

-- A loop whose rounds leave a view of the state alone leaves it alone.
pub continue-frame :
    {S A : Type 0} (view : S → A) (m : Action S (Unit {0}))
    → ((s : S) → view (m s).1 ≡ view s)
    → (r : Outcome (Unit {0})) (s : S) → view (continue r (λ _. m) s).1 ≡ view s
continue-frame view m h (done a) s = h s
continue-frame view m h (fail e) s = refl
continue-frame view m h panic s = refl

pub for_each-frame :
    {S A Item : Type 0} (view : S → A) (body : Item → Action S (Unit {0}))
    → ((x : Item) (s : S) → view (body x s).1 ≡ view s)
    → (xs : List Item) (s : S) → view (for_each body xs s).1 ≡ view s
unfolding for_each
for_each-frame view body h [] s = refl
for_each-frame view body h (x ∷ xs) s =
    continue-frame view (for_each body xs) (for_each-frame view body h xs) (body x s).0 (body x s).1
    ∙ h x s

pub for_each_from-frame :
    {S A Item : Type 0} (view : S → A) (body : ℕ → Item → Action S (Unit {0}))
    → ((i : ℕ) (x : Item) (s : S) → view (body i x s).1 ≡ view s)
    → (i : ℕ) (xs : List Item) (s : S) → view (for_each_from body i xs s).1 ≡ view s
unfolding for_each_from
for_each_from-frame view body h i [] s = refl
for_each_from-frame view body h i (x ∷ xs) s =
    continue-frame view (for_each_from body (suc i) xs) (for_each_from-frame view body h (suc i) xs)
      (body i x s).0 (body i x s).1
    ∙ h i x s
