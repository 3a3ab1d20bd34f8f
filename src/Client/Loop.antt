-- ===== src/Client/Loop.antt =====
-- A loop over the objects of a namespace whose rounds each settle one object.
use mathlib.Core.Path.{subst}
use namespace_quota_operator.Common.{
  ◌≡◌, refl, List, [], ◌∷◌, Option, none, some, if◌then◌else◌, All, arith, Bool-cases, inl, inr,
}
use namespace_quota_operator.Text.{Text, ◌==◌}
use namespace_quota_operator.Effect.{done, Action, for_each}
use namespace_quota_operator.Api.{Object}
use namespace_quota_operator.Client.Laws.{named, NodupNames, overwrite}

module _ {Spec : Type 0} where
  abbrev pub settled_by :
      (Object Spec → Option (Object Spec))
      → Option (Object Spec)
      → Option (Object Spec)
      → Option (Object Spec)
  settled_by settle none old = old
  settled_by settle (some o) old = settle o

  pub settled_by_self :
      (settle : Object Spec → Option (Object Spec)) (old : Option (Object Spec))
      → settled_by settle old old ≡ settled_by settle old none
  settled_by_self settle none = refl
  settled_by_self settle (some o) = refl

  -- A property of every object of a list holds of the one that a name stands for.
  pub named-All :
      (P : Object Spec → Type 0) (n : Text) (os : List (Object Spec)) {o : Object Spec}
      → All P os
      → named n os ≡ some o
      → P o × (n ≡ o.name)
  unfolding named
  named-All P n [] h e = cc
  named-All P n (x ∷ os) {o} (px, h) e = elim (Bool-cases (n == x.name)) [
    | inl same ↦ (subst P (ground arith) px, ground arith)
    | inr differs ↦ named-All P n os h (ground arith)
  ]

  named_self_cons :
      (y : Object Spec) (os part : List (Object Spec))
      → named y.name os ≡ none
      → All (λ o. named o.name os ≡ some o) part
      → All (λ o. named o.name (y ∷ os) ≡ some o) part
  unfolding named
  named_self_cons y os [] fresh h = tt
  named_self_cons y os (o ∷ part) fresh (e, h) = (ground arith, named_self_cons y os part fresh h)

  -- With distinct names, each object of a list is the one that its name stands for.
  pub named_self :
      (os : List (Object Spec)) → NodupNames os → All (λ o. named o.name os ≡ some o) os
  unfolding named
  named_self [] _ = tt
  named_self (o ∷ os) (fresh, nodup) =
      (ground arith, named_self_cons o os os fresh (named_self os nodup))

-- A property of all objects that names stand for holds of each object that its name stands for.
pub All-named :
    {Spec : Type 0} (P : Object Spec → Type 0) (os part : List (Object Spec))
    → ((n : Text) (o : Object Spec) → named n os ≡ some o → P o)
    → All (λ o. named o.name os ≡ some o) part
    → All P part
All-named P os [] h _ = tt
All-named P os (o ∷ part) h (e, es) = (h o.name o e, All-named P os part h es)

module _ {State Spec : Type 0} (objects : State → Text → List (Object Spec))
    (Good : Object Spec → Type 0) (settle : Object Spec → Option (Object Spec))
    (step : Object Spec → Action State (Unit {0})) (namespace : Text) where
  -- A round settles the object that it is given and touches no other.
  abbrev pub Settles : Type 0
  Settles =
      (o : Object Spec) (s : State)
      → Good o
      → o.namespace ≡ namespace
      → named o.name (objects s namespace) ≡ some o
      → ((step o s).0 ≡ done tt)
        × ((ns n : Text)
            → named n (objects (step o s).1 ns)
              ≡ overwrite o (settle o) ns n (named n (objects s ns)))

  abbrev Ready : State → List (Object Spec) → Type 0
  Ready s =
      All (λ o. Good o × (o.namespace ≡ namespace) × (named o.name (objects s namespace) ≡ some o))

  -- A round on another object leaves the rest of the list ready.
  Ready-step :
      (x : Object Spec) (s s' : State) (os : List (Object Spec))
      → ((ns n : Text)
          → named n (objects s' ns) ≡ overwrite x (settle x) ns n (named n (objects s ns)))
      → named x.name os ≡ none
      → Ready s os
      → Ready s' os
  unfolding named
  Ready-step x s s' [] w fresh h = tt
  Ready-step x s s' (o ∷ os) w fresh ((g, p, e), h) =
      ((g, p, ground (arith, w namespace o.name)), Ready-step x s s' os w (ground arith) h)

  pub for_each-settles :
      Settles
      → (os : List (Object Spec)) (s : State) → NodupNames os
      → Ready s os
      → ((for_each step os s).0 ≡ done tt)
        × ((ns n : Text)
            → named n (objects (for_each step os s).1 ns) ≡ (
                if ns == namespace
                then settled_by settle (named n os) (named n (objects s ns))
                else named n (objects s ns)))
  unfolding for_each named
  for_each-settles settles [] s _ _ = (refl, λ ns n. ground arith)
  for_each-settles settles (x ∷ os) s (fresh, nodup) ((g, p, e), h) =
      let (finished, written) = settles x s g p e in
      let s' : State = (step x s).1 in
      let (finished', written') =
        for_each-settles settles os s' nodup (Ready-step x s s' os written fresh h) in
      rw finished (finished', λ ns n. ground (arith, written ns n, written' ns n))
