-- ===== src/Client/Rounds.antt =====
-- A loop over the objects of a namespace whose rounds each rewrite one object.
use mathlib.Core.Option.{some-injective}
use mathlib.Core.Path.{subst}
use namespace_quota_operator.Common.{
  ◌≡◌, refl, ◌∙◌, List, [], ◌∷◌, none, some, true, false, All, arith,
}
use namespace_quota_operator.Text.{Text, ◌==◌, text_dec, text_eq_refl}
use namespace_quota_operator.Effect.{Outcome, done, Action, for_each}
use namespace_quota_operator.Api.{Object}
use namespace_quota_operator.Client.Laws.{named, NodupNames, overwrite}

module _ {State Spec : Type 0} (objects : State → Text → List (Object Spec)) where
  -- The action ended well, and its state is `s` but for the object `o`, which is now one that has the
  -- property.
  abbrev pub Rewrites :
      (Object Spec → Type 0) → Object Spec → State → Outcome (Unit {0}) × State → Type 0
  Rewrites P o s r =
      (r.0 ≡ done tt)
      × ((o' : Object Spec) × P o'
          × ((ns n : Text)
              → named n (objects r.1 ns) ≡ overwrite o (some o') ns n (named n (objects s ns))))

  module _ (Before : Object Spec → Object Spec → Type 0)
      (step : Object Spec → Action State (Unit {0})) (namespace : Text)
      (rewrites : (o : Object Spec) (s : State)
        → o.namespace ≡ namespace
        → named o.name (objects s namespace) ≡ some o
        → Rewrites (Before o) o s (step o s)) where
    abbrev Ready : State → List (Object Spec) → Type 0
    Ready s = All (λ o. (o.namespace ≡ namespace) × (named o.name (objects s namespace) ≡ some o))

    Ready-step :
        (x x' : Object Spec) (s s' : State) (os : List (Object Spec))
        → ((ns n : Text)
            → named n (objects s' ns) ≡ overwrite x (some x') ns n (named n (objects s ns)))
        → named x.name os ≡ none
        → Ready s os
        → Ready s' os
    unfolding named
    Ready-step x x' s s' [] w fresh h = tt
    Ready-step x x' s s' (o ∷ os) w fresh ((p, e), h) =
        ((p, ground (arith, w namespace o.name)), Ready-step x x' s s' os w (ground arith) h)

    -- What a loop over a list leaves of the object of a name: of one in the list what its round makes
    -- of it, and any other as it was.
    abbrev Left : State → State → List (Object Spec) → Text → Type 0
    Left s s' os n =
        ((o : Object Spec)
          → named n os ≡ some o
          → (o' : Object Spec) × Before o o' × (named n (objects s' namespace) ≡ some o'))
        × (named n os ≡ none → named n (objects s' namespace) ≡ named n (objects s namespace))

    Left-cons :
        (x x' : Object Spec) (s s' s'' : State) (os : List (Object Spec)) (n : Text)
        → x.namespace ≡ namespace
        → Before x x'
        → ((ns n : Text)
            → named n (objects s' ns) ≡ overwrite x (some x') ns n (named n (objects s ns)))
        → named x.name os ≡ none
        → Left s' s'' os n
        → Left s s'' (x ∷ os) n
    unfolding named
    Left-cons x x' s s' s'' os n placed before w fresh (hit, miss) = elim (text_dec n x.name) [
      | yes same ↦
          let e : (n == x.name) ≡ true = ground (arith, same) in
          let now : named n (objects s'' namespace) ≡ some x' =
            miss (cc (same, fresh)) ∙ w namespace n ∙ rw (placed, text_eq_refl namespace, e) refl in
          rw e (
            λ o h.
                subst
                  (λ o.
                    (o' : Object Spec) × Before o o' × (named n (objects s'' namespace) ≡ some o'))
                  (some-injective x o h) (x', before, now),
            λ h. cc h,
          )
      | no differs ↦
          let e : (n == x.name) ≡ false = ground (arith, differs) in
          rw e (hit, λ h. miss h ∙ w namespace n ∙ rw (placed, text_eq_refl namespace, e) refl)
    ]

    pub for_each-rewrites :
        (os : List (Object Spec)) (s : State)
        → NodupNames os
        → Ready s os
        → ((for_each step os s).0 ≡ done tt) × ((n : Text) → Left s (for_each step os s).1 os n)
    unfolding for_each named
    for_each-rewrites [] s _ _ = (refl, λ n. (λ o h. cc h, λ h. refl))
    for_each-rewrites (x ∷ os) s (fresh, nodup) ((p, e), h) =
        let (finished, (x', before, written)) = rewrites x s p e in
        let s' : State = (step x s).1 in
        let (finished', left) =
          for_each-rewrites os s' nodup (Ready-step x x' s s' os written fresh h) in
        rw finished (
          finished',
          λ n. Left-cons x x' s s' (for_each step os s').1 os n p before written fresh (left n),
        )
