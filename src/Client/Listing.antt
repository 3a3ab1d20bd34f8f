-- ===== src/Client/Listing.antt =====
-- A list of objects read as the contents of a cluster: newer objects hide older ones of their name.
use mathlib.Core.Option.{some-injective}
use namespace_quota_operator.Common.{
  ◌≡◌, refl, sym, ◌∙◌, Some, List, [], ◌∷◌, none, some, ◌&&◌, if◌then◌else◌, All, arith, Bool-cases,
  inl, inr,
}
use namespace_quota_operator.Text.{Text, ◌==◌}
use namespace_quota_operator.Api.{Object}
use namespace_quota_operator.Client.Laws.{named, NodupNames, overwrite}

module _ {Spec : Type 0} where
  in_namespace : Text → List (Object Spec) → List (Object Spec)
  in_namespace ns [] = []
  in_namespace ns (o ∷ os) =
      let rest = in_namespace ns os in if ns == o.namespace then o ∷ rest else rest

  without : Text → List (Object Spec) → List (Object Spec)
  without n [] = []
  without n (o ∷ os) = let rest = without n os in if n == o.name then rest else o ∷ rest

  -- A newer object hides the older ones of its name.
  distinct : List (Object Spec) → List (Object Spec)
  distinct [] = []
  distinct (o ∷ os) = o ∷ without o.name (distinct os)

  unfoldable pub drop_object : Object Spec → List (Object Spec) → List (Object Spec)
  drop_object d [] = []
  drop_object d (o ∷ os) =
      let rest = drop_object d os in
      if o.namespace == d.namespace && o.name == d.name then rest else o ∷ rest

  unfoldable pub listed : List (Object Spec) → Text → List (Object Spec)
  unfolding in_namespace without distinct
  listed os ns = distinct (in_namespace ns os)

  named-without :
      (n m : Text) (os : List (Object Spec))
      → named n (without m os) ≡ (if n == m then none else named n os)
  unfolding named without
  named-without n m [] = ground arith
  named-without n m (o ∷ os) = ground (arith, named-without n m os)

  named-distinct : (n : Text) (os : List (Object Spec)) → named n (distinct os) ≡ named n os
  unfolding named distinct
  named-distinct n [] = refl
  named-distinct n (o ∷ os) =
      ground (arith, named-without n o.name (distinct os), named-distinct n os)

  without-NodupNames :
      (n : Text) (os : List (Object Spec)) → NodupNames os → NodupNames (without n os)
  unfolding without
  without-NodupNames n [] _ = tt
  without-NodupNames n (o ∷ os) (fresh, h) =
      ground (arith, without-NodupNames n os h, named-without o.name n os, fresh)

  distinct-NodupNames : (os : List (Object Spec)) → NodupNames (distinct os)
  unfolding distinct
  distinct-NodupNames [] = tt
  distinct-NodupNames (o ∷ os) = (
    ground (arith, named-without o.name o.name (distinct os)),
    without-NodupNames o.name (distinct os) (distinct-NodupNames os),
  )

  without-All :
      (P : Object Spec → Type 0) (n : Text) (os : List (Object Spec))
      → All P os
      → All P (without n os)
  unfolding without
  without-All P n [] _ = tt
  without-All P n (o ∷ os) (p, h) = elim (Bool-cases (n == o.name)) [
    | inl e ↦ rw (e, without) (without-All P n os h)
    | inr e ↦ rw (e, without) (p, without-All P n os h)
  ]

  distinct-All :
      (P : Object Spec → Type 0) (os : List (Object Spec)) → All P os → All P (distinct os)
  unfolding distinct
  distinct-All P [] _ = tt
  distinct-All P (o ∷ os) (p, h) = (p, without-All P o.name (distinct os) (distinct-All P os h))

  in_namespace-All :
      (ns : Text) (os : List (Object Spec)) → All (λ o. o.namespace ≡ ns) (in_namespace ns os)
  unfolding in_namespace
  in_namespace-All ns [] = tt
  in_namespace-All ns (o ∷ os) = ground (arith, in_namespace-All ns os)

  pub listed-NodupNames : (os : List (Object Spec)) (ns : Text) → NodupNames (listed os ns)
  unfolding listed
  listed-NodupNames os ns = distinct-NodupNames (in_namespace ns os)

  pub listed-All :
      (os : List (Object Spec)) (ns : Text) → All (λ o. o.namespace ≡ ns) (listed os ns)
  unfolding listed
  listed-All os ns = distinct-All _ (in_namespace ns os) (in_namespace-All ns os)

  pub named-listed_cons :
      (o : Object Spec) (os : List (Object Spec)) (ns n : Text)
      → named n (listed (o ∷ os) ns) ≡ overwrite o (some o) ns n (named n (listed os ns))
  unfolding listed named
  named-listed_cons o os ns n = ground (
    arith,
    named-distinct n (in_namespace ns os),
    named-without n o.name (distinct (in_namespace ns os)),
  )

  named-drop :
      (o : Object Spec) (os : List (Object Spec)) (ns n : Text)
      → named n (in_namespace ns (drop_object o os))
        ≡ overwrite o none ns n (named n (in_namespace ns os))
  unfolding named in_namespace drop_object
  named-drop o [] ns n = ground arith
  named-drop o (x ∷ os) ns n = ground (arith, named-drop o os ns n)

  pub named-listed_drop :
      (o : Object Spec) (os : List (Object Spec)) (ns n : Text)
      → named n (listed (drop_object o os) ns) ≡ overwrite o none ns n (named n (listed os ns))
  unfolding listed
  named-listed_drop o os ns n = ground (
    arith,
    named-distinct n (in_namespace ns os),
    named-distinct n (in_namespace ns (drop_object o os)),
    named-drop o os ns n,
  )

  in_namespace-Some :
      (ns n : Text) (os : List (Object Spec)) {p : Object Spec}
      → named n (in_namespace ns os) ≡ some p
      → Some (λ o. o ≡ p) os
  unfolding named in_namespace
  in_namespace-Some ns n [] e = absurd (cc e)
  in_namespace-Some ns n (o ∷ os) e = elim (Bool-cases (ns == o.namespace)) [
    | inr out ↦ inr (in_namespace-Some ns n os (rw out at e))
    | inl within ↦ elim (Bool-cases (n == o.name)) [
      | inl same ↦ inl (some-injective _ _ (rw (within, same) at e))
      | inr differs ↦ inr (in_namespace-Some ns n os (rw (within, differs) at e))
    ]
  ]

  pub listed-Some :
      (os : List (Object Spec)) (ns n : Text) {p : Object Spec}
      → named n (listed os ns) ≡ some p
      → Some (λ o. o ≡ p) os
  unfolding listed
  listed-Some os ns n e =
      in_namespace-Some ns n os (sym (named-distinct n (in_namespace ns os)) ∙ e)
