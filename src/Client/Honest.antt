-- ===== src/Client/Honest.antt =====
-- What holds of an API whether its calls succeed or fail: what is there was there before or was just
-- written, a delete at most marks an object, and a write of one kind leaves the others alone.
use mathlib.Core.Path.{subst}
use namespace_quota_operator.Common.{◌≡◌, sym, ◌⊎◌, inl, inr, List, some, All, All-Unit}
use namespace_quota_operator.Text.{Text}
use namespace_quota_operator.Effect.{ok}
use namespace_quota_operator.Effect.Preserve.{Keeps}
use namespace_quota_operator.Api.{Object}
use namespace_quota_operator.Client.{Verbs}
use namespace_quota_operator.Client.Laws.{named}
use namespace_quota_operator.Client.Loop.{All-named}

pub record IsHonest {State Spec : Type 0} (v : Verbs State (Object Spec))
    (objects : State → Text → List (Object Spec)) : Type 0 where
  pub got :
      (ns n : Text) (s : State) (o : Object Spec)
      → v.get ns n s ≡ ok o
      → named n (objects s ns) ≡ some o
  pub listed :
      (ns : Text) (s : State) (os : List (Object Spec))
      → v.list ns s ≡ ok os
      → All (λ o. named o.name (objects s ns) ≡ some o) os
  pub created :
      (o : Object Spec) (s : State) (ns n : Text) (x : Object Spec)
      → named n (objects (v.create o s).1 ns) ≡ some x
      → (named n (objects s ns) ≡ some x) ⊎ (x ≡ o)
  pub updated :
      (o : Object Spec) (s : State) (ns n : Text) (x : Object Spec)
      → named n (objects (v.update o s).1 ns) ≡ some x
      → (named n (objects s ns) ≡ some x) ⊎ (x ≡ o)
  pub deleted :
      (o : Object Spec) (s : State) (ns n : Text) (x : Object Spec)
      → named n (objects (v.delete o s).1 ns) ≡ some x
      → (y : Object Spec) × (named n (objects s ns) ≡ some y)
        × (x.name ≡ y.name)
        × (x.labels ≡ y.labels)
        × (x.finalizers ≡ y.finalizers)
        × (x.namespace ≡ y.namespace)
        × (x.spec ≡ y.spec)

-- The writes of one kind do not change a view of the others.
pub record IsApart {State Obj View : Type 0} (v : Verbs State Obj) (view : State → View)
    : Type 0 where
  pub create : (o : Obj) (s : State) → view (v.create o s).1 ≡ view s
  pub update : (o : Obj) (s : State) → view (v.update o s).1 ≡ view s
  pub delete : (o : Obj) (s : State) → view (v.delete o s).1 ≡ view s

-- Reads yield good objects where the invariant holds, and writes of good objects keep it.
pub record IsKept {State Spec : Type 0} (v : Verbs State (Object Spec)) (Inv : State → Type 0)
    (Good : Object Spec → Type 0) : Type 0 where
  pub got : (ns n : Text) (s : State) (o : Object Spec) → Inv s → v.get ns n s ≡ ok o → Good o
  pub listed :
      (ns : Text) (s : State) (os : List (Object Spec)) → Inv s → v.list ns s ≡ ok os → All Good os
  pub created : (o : Object Spec) → Good o → Keeps Inv (v.create o)
  pub updated : (o : Object Spec) → Good o → Keeps Inv (v.update o)
  pub deleted : (o : Object Spec) → Keeps Inv (v.delete o)

-- Every object of the cluster is good.
abbrev pub Everywhere :
    {State Spec : Type 0}
    → (Object Spec → Type 0)
    → (State → Text → List (Object Spec))
    → State
    → Type 0
Everywhere {Spec = Spec} Good objects s =
    (ns n : Text) (o : Object Spec) → named n (objects s ns) ≡ some o → Good o

module _ {State Spec Rest : Type 0} (v : Verbs State (Object Spec))
    (objects : State → Text → List (Object Spec)) (honest : IsHonest v objects)
    (Good : Object Spec → Type 0)
    (stable : (x y : Object Spec)
      → x.name ≡ y.name
      → x.labels ≡ y.labels
      → x.finalizers ≡ y.finalizers
      → Good y
      → Good x)
    (rest : State → Rest) (apart : IsApart v rest) (Others : Rest → Type 0) where
  -- Good objects here, and something that holds of the rest of the state.
  pub Everywhere-IsKept : IsKept v (λ s. Everywhere Good objects s × Others (rest s)) Good
  Everywhere-IsKept = record {
    got = λ ns n s o (good, _) e. good ns n o (honest.got ns n s o e);
    listed =
        λ ns s os (good, _) e. All-named Good (objects s ns) os (good ns) (honest.listed ns s os e);
    created = λ o g s (good, others). (
      λ ns n x e. elim (honest.created o s ns n x e) [
        | inl before ↦ good ns n x before
        | inr new ↦ subst Good (sym new) g
      ],
      subst Others (sym (apart.create o s)) others,
    );
    updated = λ o g s (good, others). (
      λ ns n x e. elim (honest.updated o s ns n x e) [
        | inl before ↦ good ns n x before
        | inr new ↦ subst Good (sym new) g
      ],
      subst Others (sym (apart.update o s)) others,
    );
    deleted = λ o s (good, others). (
      λ ns n x e.
          let (y, before, name, labels, finalizers, _, _) = honest.deleted o s ns n x e in
          stable x y name labels finalizers (good ns n y before),
      subst Others (sym (apart.delete o s)) others,
    );
  }

-- An invariant in other words.
pub IsKept-swap :
    {State Spec : Type 0} {v : Verbs State (Object Spec)} {Inv Inv' : State → Type 0}
    {Good : Object Spec → Type 0}
    → ((s : State) → Inv s → Inv' s)
    → ((s : State) → Inv' s → Inv s)
    → IsKept v Inv Good
    → IsKept v Inv' Good
IsKept-swap to from k = record {
  got = λ ns n s o h e. k.got ns n s o (from s h) e;
  listed = λ ns s os h e. k.listed ns s os (from s h) e;
  created = λ o g s h. to _ (k.created o g s (from s h));
  updated = λ o g s h. to _ (k.updated o g s (from s h));
  deleted = λ o s h. to _ (k.deleted o s (from s h));
}

-- What writes of one kind leave alone they keep as it is.
pub IsApart-IsKept :
    {State Spec View : Type 0} (v : Verbs State (Object Spec)) (view : State → View)
    → IsApart v view
    → (V : View → Type 0) → IsKept v (λ s. V (view s)) (λ _. Unit)
IsApart-IsKept v view apart V = record {
  got = λ ns n s o h e. tt;
  listed = λ ns s os h e. All-Unit os;
  created = λ o _ s h. subst V (sym (apart.create o s)) h;
  updated = λ o _ s h. subst V (sym (apart.update o s)) h;
  deleted = λ o s h. subst V (sym (apart.delete o s)) h;
}
