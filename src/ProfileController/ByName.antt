-- ===== src/ProfileController/ByName.antt =====
-- `reconcileNamespace` for a profile that selects a namespace by its name.
use namespace_quota_operator.Common.{
  ◌≡◌, ◌≢◌, refl, sym, ◌∙◌, ap, true, false, List, [], ◌∷◌, Option, none, some, if◌then◌else◌,
  arith, Bool-cases, inl, inr,
}
use namespace_quota_operator.Text.{Text, ◌==◌, text_dec}
use namespace_quota_operator.Effect.{
  ok, Outcome, done, fail, panic, Action, continue, pure, for_each, ◌>>◌,
}
use namespace_quota_operator.Api.{NamespaceSelector, QuotaProfile, Namespace}
use namespace_quota_operator.Client.{Client}
use namespace_quota_operator.Client.Laws.{named, NodupNames, IsConsistent}
use namespace_quota_operator.Client.Loop.{named-All}
use namespace_quota_operator.ProfileController.{
  label_and_update, label_named, label_selected, reconcile_namespace,
}
use namespace_quota_operator.ProfileController.Labelling.{
  IsLabelled, KeepsRest-name, set_quota_profile_labels-done,
}

module _ {Rq Lr : Type 0} (c : Client Rq Lr) (q : QuotaProfile Rq Lr) (name : Text) where
  abbrev label_found : Option Namespace → Action c.State (Unit {0})
  label_found none = pure tt
  label_found (some ns) = label_and_update c q ns

  label_loop-none :
      (os : List Namespace) (s : c.State)
      → named name os ≡ none
      → for_each (label_named c q name) os s ≡ (done tt, s)
  unfolding for_each named label_named
  label_loop-none [] s h = refl
  label_loop-none (o ∷ os) s h = elim (Bool-cases (name == o.name)) [
    | inl same ↦ cc (rw same at h)
    | inr differs ↦
        let e : (o.name == name) ≡ false = ground arith in
        rw e (label_loop-none os s (rw differs at h))
  ]

  -- After the last round that writes, no other does.
  label_last :
      (o : Namespace) (os : List Namespace) (s : c.State)
      → named name os ≡ none
      → (label_and_update c q o >> for_each (label_named c q name) os) s ≡ label_and_update c q o s
  label_last o os s h = ends (label_and_update c q o s)
    where
      ends :
          (r : Outcome (Unit {0}) × c.State)
          → continue r.0 (λ _. for_each (label_named c q name) os) r.1 ≡ r
      ends (done tt, s') = label_loop-none os s' h
      ends (fail e, s') = refl
      ends (panic, s') = refl

  -- The loop labels the one namespace of the name, if there is one.
  label_loop :
      (os : List Namespace) (s : c.State)
      → NodupNames os
      → for_each (label_named c q name) os s ≡ label_found (named name os) s
  unfolding for_each named label_named
  label_loop [] s _ = refl
  label_loop (o ∷ os) s (fresh, nodup) = elim (text_dec name o.name) [
    | yes same ↦
        let e : (o.name == name) ≡ true = ground (arith, same) in
        let e' : (name == o.name) ≡ true = ground (arith, same) in
        rw (e, e') (label_last o os s (cc (same, fresh)))
    | no differs ↦
        let e : (o.name == name) ≡ false = ground (arith, differs) in
        let e' : (name == o.name) ≡ false = ground (arith, differs) in
        rw (e, e') (label_loop os s nodup)
  ]

  selected :
      (selector : NamespaceSelector) (items : List Namespace)
      → selector.match_name ≡ some name
      → label_selected c q selector items ≡ for_each (label_named c q name) items
  unfolding label_selected
  selected selector items h = rw (h, label_selected) refl

  -- Of all rounds the one on the namespace of the name is left.
  pub reconcile_namespace-label :
      (namespace profile : Text) (s : c.State) (items : List Namespace) (ns : Namespace)
      → c.namespaces.list_all s ≡ ok items
      → c.profiles.get namespace profile s ≡ ok q
      → q.spec.match_name ≡ some name
      → NodupNames items
      → named name items ≡ some ns
      → reconcile_namespace c namespace profile s ≡ label_and_update c q ns s
  unfolding reconcile_namespace
  reconcile_namespace-label namespace profile s items ns listed there by_name nodup stored =
      rw
        (
          listed,
          there,
          selected q.spec.namespace_selector items by_name,
          label_loop items s nodup,
          stored,
        )
        refl

module _ {Rq Lr : Type 0} (c : Client Rq Lr) (objects : c.State → Text → List Namespace)
    (api : IsConsistent c.namespaces objects)
    (clock_frame : (s : c.State) → objects (c.now s).1 ≡ objects s) (q : QuotaProfile Rq Lr)
    (s : c.State) (ns : Namespace) where
  -- The namespace of the name is there with the profile's label, and the others are as they were.
  abbrev pub LabelsOnly : Text → Outcome (Unit {0}) × c.State → Type 0
  LabelsOnly n r =
      (r.0 ≡ done tt)
      × ((ns' : Namespace) × IsLabelled c q ns ns'
          × ((m : Text)
              → named m (objects r.1 []) ≡ (if m == n then some ns' else named m (objects s []))))

  pub label_and_update-LabelsOnly :
      (n : Text)
      → named n (objects s []) ≡ some ns
      → ns.labels ≢ none
      → LabelsOnly n (label_and_update c q ns s)
  unfolding label_and_update
  label_and_update-LabelsOnly n stored some_map =
      let (ns', set, labelled) = set_quota_profile_labels-done c q ns s some_map in
      let (placed, same) =
        named-All (λ o. o.namespace ≡ []) n (objects s []) (api.placed s []) stored in
      let name' : ns'.name ≡ n = KeepsRest-name labelled.keeps ∙ sym same in
      let placed' : ns'.namespace ≡ [] = ap (λ x. x.namespace) labelled.keeps.rest ∙ placed in
      let t : c.State = (c.now s).1 in
      let there : named ns'.name (objects t ns'.namespace) ≢ none =
        λ h. cc (clock_frame s, name', placed', stored, h) in
      rw set (
        rw (api.update_ok ns' t there) refl,
        (
          ns',
          labelled,
          λ m. ground (arith, name', placed', clock_frame s, api.update_lem ns' t [] m there),
        ),
      )

  -- With a consistent API for namespaces, which reading the clock does not touch: reconciling the
  -- namespaces for a stored profile that selects a namespace by its name, where that namespace
  -- exists and has a map of labels, ends without error. Afterwards the namespace carries the
  -- profile's label, with all but the operator's two labels as before, and every other namespace is
  -- as it was.
  pub reconcile_namespace-by_name :
      (namespace profile n : Text)
      → c.namespaces.list_all s ≡ ok (objects s [])
      → c.profiles.get namespace profile s ≡ ok q
      → q.spec.match_name ≡ some n
      → named n (objects s []) ≡ some ns
      → ns.labels ≢ none
      → LabelsOnly n (reconcile_namespace c namespace profile s)
  reconcile_namespace-by_name namespace profile n listed there by_name stored some_map =
      rw
        (reconcile_namespace-label c q n namespace profile s (objects s []) ns listed there by_name
          (api.nodup s []) stored)
        (label_and_update-LabelsOnly n stored some_map)
