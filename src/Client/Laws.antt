-- ===== src/Client/Laws.antt =====
-- What a strongly consistent API promises of one kind of object while no one else writes. An update
-- keeps the object: that of an object which is being deleted is one that leaves a finalizer.
use namespace_quota_operator.Common.{
  ◌≡◌, ◌≢◌, List, [], ◌∷◌, Option, none, some, true, ◌&&◌, if◌then◌else◌, All,
}
use namespace_quota_operator.Text.{Text, ◌==◌}
use namespace_quota_operator.Effect.{Result, ok, err, not_found}
use namespace_quota_operator.Api.{Object}
use namespace_quota_operator.Client.{Verbs, Library}

module _ {Spec : Type 0} where
  -- The first object of a name.
  unfoldable pub named : Text → List (Object Spec) → Option (Object Spec)
  named n [] = none
  named n (o ∷ os) = if n == o.name then some o else named n os

  -- No two objects of a list have one name.
  abbrev pub NodupNames : List (Object Spec) → Type 0
  NodupNames [] = Unit
  NodupNames (o ∷ os) = (named o.name os ≡ none) × NodupNames os

  abbrev pub found : Option (Object Spec) → Result (Object Spec)
  found none = err not_found
  found (some o) = ok o

  -- One object of the cluster is replaced, or removed, and the others stay.
  abbrev pub overwrite :
      Object Spec → Option (Object Spec) → Text → Text → Option (Object Spec) → Option (Object Spec)
  overwrite o new ns n old = if ns == o.namespace && n == o.name then new else old

-- What the operator relies on in the library calls.
pub record IsLawful (l : Library) : Type 0 where
  pub keys_nil : l.keys [] ≡ []
  pub contains-add :
      (fs : List Text) (f : Text) → l.contains_finalizer (l.add_finalizer fs f) f ≡ true

-- `objects s ns` lists what the cluster holds in the namespace `ns`. A delete takes effect at once for
-- an object that has no finalizers.
pub record IsConsistent {State Spec : Type 0} (v : Verbs State (Object Spec))
    (objects : State → Text → List (Object Spec)) : Type 0 where
  pub get_lem : (ns n : Text) (s : State) → v.get ns n s ≡ found (named n (objects s ns))
  pub list_lem : (ns : Text) (s : State) → v.list ns s ≡ ok (objects s ns)
  pub nodup : (s : State) (ns : Text) → NodupNames (objects s ns)
  pub placed : (s : State) (ns : Text) → All (λ o. o.namespace ≡ ns) (objects s ns)
  pub create_ok :
      (o : Object Spec) (s : State)
      → named o.name (objects s o.namespace) ≡ none
      → (v.create o s).0 ≡ ok tt
  pub create_lem :
      (o : Object Spec) (s : State) (ns n : Text)
      → named o.name (objects s o.namespace) ≡ none
      → named n (objects (v.create o s).1 ns) ≡ overwrite o (some o) ns n (named n (objects s ns))
  pub update_ok :
      (o : Object Spec) (s : State)
      → named o.name (objects s o.namespace) ≢ none
      → (v.update o s).0 ≡ ok tt
  pub update_lem :
      (o : Object Spec) (s : State) (ns n : Text)
      → named o.name (objects s o.namespace) ≢ none
      → named n (objects (v.update o s).1 ns) ≡ overwrite o (some o) ns n (named n (objects s ns))
  pub delete_ok :
      (o : Object Spec) (s : State)
      → o.finalizers ≡ []
      → named o.name (objects s o.namespace) ≡ some o
      → (v.delete o s).0 ≡ ok tt
  pub delete_lem :
      (o : Object Spec) (s : State) (ns n : Text)
      → o.finalizers ≡ []
      → named o.name (objects s o.namespace) ≡ some o
      → named n (objects (v.delete o s).1 ns) ≡ overwrite o none ns n (named n (objects s ns))
