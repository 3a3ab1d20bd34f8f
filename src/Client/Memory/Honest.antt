-- ===== src/Client/Memory/Honest.antt =====
-- The cluster in memory is an honest API.
use mathlib.Core.Path.{subst}
use mathlib.Core.Option.{none-ne-some, some-injective}
use namespace_quota_operator.Common.{
  ◌≡◌, refl, sym, ◌∙◌, ◌⊎◌, inl, inr, ◌&&◌, List, [], ◌∷◌, Option, none, some, All, Some,
  Bool-cases, arith,
}
use namespace_quota_operator.Text.{Text, ◌==◌}
use namespace_quota_operator.Effect.{ok}
use namespace_quota_operator.Api.{Object}
use namespace_quota_operator.Client.Laws.{named, found, overwrite}
use namespace_quota_operator.Client.Loop.{named_self, named-All}
use namespace_quota_operator.Client.Honest.{IsHonest, IsApart}
use namespace_quota_operator.Client.Listing.{
  listed, drop_object, listed-NodupNames, listed-All, named-listed_cons, named-listed_drop,
  listed-Some,
}
use namespace_quota_operator.Client.Memory.{
  exists, remove_object, delete_found, memory_verbs, create_frame, update_frame, delete_frame,
}

module _ {Spec : Type 0} where
  found-ok : (old : Option (Object Spec)) (o : Object Spec) → found old ≡ ok o → old ≡ some o
  found-ok none o e = cc
  found-ok (some x) o e = cc

  -- What stands after a write was written or was there.
  overwrite-some :
      (o new : Object Spec) (ns n : Text) (old : Option (Object Spec)) (x : Object Spec)
      → overwrite o (some new) ns n old ≡ some x
      → (old ≡ some x) ⊎ ((x ≡ new) × (ns ≡ o.namespace) × (n ≡ o.name))
  overwrite-some o new ns n old x e = elim (Bool-cases (ns == o.namespace && n == o.name)) [
    | inl hit ↦ inr (sym (some-injective _ _ (rw hit at e)), ground arith, ground arith)
    | inr miss ↦ inl (rw miss at e)
  ]

  overwrite-none :
      (o : Object Spec) (ns n : Text) (old : Option (Object Spec)) (x : Object Spec)
      → overwrite o none ns n old ≡ some x
      → old ≡ some x
  overwrite-none o ns n old x e = elim (Bool-cases (ns == o.namespace && n == o.name)) [
    | inl hit ↦ absurd (none-ne-some x (rw hit at e))
    | inr miss ↦ rw miss at e
  ]

new_or_old : {A B C D : Type 0} → A ⊎ (B × C × D) → A ⊎ B
new_or_old (inl a) = inl a
new_or_old (inr (b, _, _)) = inr b

module _ {State Spec : Type 0} (kept : State → List (Object Spec))
    (keep : List (Object Spec) → State → State)
    (kept-keep : (os : List (Object Spec)) (s : State) → kept (keep os s) ≡ os) where
  written :
      (o : Object Spec) (s : State) (ns n : Text) (x : Object Spec)
      → named n (listed (kept (keep (o ∷ kept s) s)) ns) ≡ some x
      → (named n (listed (kept s) ns) ≡ some x) ⊎ ((x ≡ o) × (ns ≡ o.namespace) × (n ≡ o.name))
  written o s ns n x e =
      overwrite-some o o ns n (named n (listed (kept s) ns)) x
        (sym (named-listed_cons o (kept s) ns n) ∙ rw (kept-keep (o ∷ kept s) s) at e)

  -- What stands after a delete was there, but for the mark.
  abbrev Was : State → Text → Text → Object Spec → Type 0
  Was s ns n x =
      (y : Object Spec) × (named n (listed (kept s) ns) ≡ some y)
      × (x.name ≡ y.name)
      × (x.labels ≡ y.labels)
      × (x.finalizers ≡ y.finalizers)
      × (x.namespace ≡ y.namespace)
      × (x.spec ≡ y.spec)

  removed :
      (o : Object Spec) (fs : List Text) (s : State) (ns n : Text) (x : Object Spec)
      → named o.name (listed (kept s) o.namespace) ≡ some o
      → named n (listed (kept (remove_object kept keep o fs s)) ns) ≡ some x
      → Was s ns n x
  unfolding remove_object
  removed o [] s ns n x stored e = (
    x,
    overwrite-none o ns n (named n (listed (kept s) ns)) x
        (sym (named-listed_drop o (kept s) ns n) ∙ rw (kept-keep (drop_object o (kept s)) s) at e),
    refl,
    refl,
    refl,
    refl,
    refl,
  )
  removed o (f ∷ fs) s ns n x stored e =
      let marked : Object Spec = record o {
        meta = record o.meta { deletion_timestamp = some 1 };
      } in
      elim (written marked s ns n x e) [
        | inl before ↦ (x, before, refl, refl, refl, refl, refl)
        | inr (new, here, name) ↦
            (o, cc (stored, here, name), cc new, cc new, cc new, cc new, cc new)
      ]

  deleted :
      (o : Object Spec) (old : Option (Object Spec)) (s : State) (ns n : Text) (x : Object Spec)
      → named o.name (listed (kept s) o.namespace) ≡ old
      → named n (listed (kept (delete_found kept keep old s).1) ns) ≡ some x
      → Was s ns n x
  unfolding delete_found
  deleted o none s ns n x there e = (x, e, refl, refl, refl, refl, refl)
  deleted o (some y) s ns n x there e =
      let (placed, name) =
        named-All (λ o. o.namespace ≡ _) o.name (listed (kept s) o.namespace)
          (listed-All (kept s) o.namespace) there in
      removed y y.finalizers s ns n x (cc (there, placed, name)) e

  pub memory_verbs-IsHonest : IsHonest (memory_verbs kept keep) (λ s. listed (kept s))
  unfolding memory_verbs
  memory_verbs-IsHonest = record {
    got = λ ns n s o e. found-ok (named n (listed (kept s) ns)) o e;
    listed = λ ns s os e.
        subst (All (λ o. named o.name (listed (kept s) ns) ≡ some o)) (cc e)
          (named_self (listed (kept s) ns) (listed-NodupNames (kept s) ns));
    created = λ o s ns n x e. elim (Bool-cases (exists kept keep o s)) [
      | inl there ↦ inl (rw there at e)
      | inr free ↦ new_or_old (written o s ns n x (rw free at e))
    ];
    updated = λ o s ns n x e. elim (Bool-cases (exists kept keep o s)) [
      | inl there ↦ new_or_old (written o s ns n x (rw there at e))
      | inr free ↦ inl (rw free at e)
    ];
    deleted =
        λ o s ns n x e. deleted o (named o.name (listed (kept s) o.namespace)) s ns n x refl e;
  }

  pub memory_verbs-IsApart :
      {View : Type 0} (view : State → View)
      → ((os : List (Object Spec)) (s : State) → view (keep os s) ≡ view s)
      → IsApart (memory_verbs kept keep) view
  memory_verbs-IsApart view apart = record {
    create = create_frame kept keep view apart;
    update = update_frame kept keep view apart;
    delete = delete_frame kept keep view apart;
  }

  pub memory_verbs-Some :
      (s : State) (os : List (Object Spec))
      → (memory_verbs kept keep).list_all s ≡ ok os
      → (ns n : Text) (o : Object Spec) → named n (listed (kept s) ns) ≡ some o
      → Some (λ x. x ≡ o) os
  unfolding memory_verbs
  memory_verbs-Some s os e ns n o stored =
      subst (Some (λ x. x ≡ o)) (cc e) (listed-Some (kept s) ns n stored)
