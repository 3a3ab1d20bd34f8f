-- ===== src/NamespaceController/Idempotence.antt =====
-- `reconcileResourceQuotas` twice in a row: what becomes of the object of one name.
use native.Mathlib.Nat.{add-zero, zero-add}
use mathlib.Core.Option.{none-ne-some}
use mathlib.Core.Path.{subst}
use namespace_quota_operator.Common.{
  ℕ, zero, suc, ◌+◌, ◌≤◌, ◌≡◌, refl, sym, ◌∙◌, ap, ◌⊎◌, inl, inr, true, false, List, [], ◌∷◌,
  Option, none, some, length, get_elem?, get_elem?-lt, arith, Option-cases, if_pos, if_neg,
}
use namespace_quota_operator.Text.{Text, text_dec, text_eq_refl, ◌==◌}
use namespace_quota_operator.Text.Decimal.{ℤ, pos, negsuc, max_int}
use namespace_quota_operator.Labels.{find}
use namespace_quota_operator.Effect.{Outcome, done, fail, panic}
use namespace_quota_operator.Api.{Object, QuotaProfile, quota_profile_label_key}
use namespace_quota_operator.Client.Loop.{settled_by}
use namespace_quota_operator.Ids.{get_profile_id, get_resource_quota_index}
use namespace_quota_operator.Ids.Index.{resource_quota_index-id}
use namespace_quota_operator.NamespaceController.{with_spec}
use namespace_quota_operator.NamespaceController.Sweep.{
  IsOwnedBy, refreshed, settled_labelled, settled_quota,
}
use namespace_quota_operator.NamespaceController.Fill.{
  quota_id, filled, filled_from, filled_from-past,
}
use namespace_quota_operator.NamespaceController.Quotas.{reconciled}
use namespace_quota_operator.NamespaceController.Convergence.{
  IsNotForeign, swept-IsNotForeign, managed-IsOwnedBy,
}

module _ {Rq Lr : Type 0} (q : QuotaProfile Rq Lr) where
  refreshed_twice :
      (o : Object Rq) (index : Outcome ℤ)
      → IsOwnedBy q o
      → get_resource_quota_index o.name ≡ index
      → settled_by (settled_quota q) (refreshed q o index) none ≡ refreshed q o index
  unfolding settled_quota
  refreshed_twice o panic owned e =
      rw (owned, text_eq_refl (get_profile_id q.namespace q.name), e) refl
  refreshed_twice o (fail _) owned e =
      rw (owned, text_eq_refl (get_profile_id q.namespace q.name), e) refl
  refreshed_twice o (done (negsuc i)) owned e =
      rw (owned, text_eq_refl (get_profile_id q.namespace q.name), e) refl
  refreshed_twice o (done (pos i)) owned e =
      elim (Option-cases (get_elem? q.spec.resource_quota_specs i)) [
        | inl unused ↦ rw unused refl
        | inr (spec, used) ↦
            rw used (rw (owned, text_eq_refl (get_profile_id q.namespace q.name), e, used) refl)
      ]

  settled_twice_labelled :
      (o : Object Rq) (l : Option Text)
      → find o.labels quota_profile_label_key ≡ l
      → settled_by (settled_quota q) (settled_labelled q o l) none ≡ settled_labelled q o l
  unfolding settled_quota
  settled_twice_labelled o none e = rw e refl
  settled_twice_labelled o (some label) e =
      elim (text_dec label (get_profile_id q.namespace q.name)) [
        | no other ↦ rw (if_neg _ other) refl
        | yes own ↦
            rw (if_pos _ own)
              (refreshed_twice o (get_resource_quota_index o.name) (cc (e, own)) refl)
      ]

  settled_twice :
      (old : Option (Object Rq))
      → settled_by (settled_quota q) (settled_by (settled_quota q) old none) none
        ≡ settled_by (settled_quota q) old none
  unfolding settled_quota
  settled_twice none = refl
  settled_twice (some o) = settled_twice_labelled o (find o.labels quota_profile_label_key) refl

  -- A quota that is named after an index and has its specification is settled.
  settled_fixed :
      (namespace : Text) (k : ℕ) (spec : Rq) (o : Object Rq)
      → o.name ≡ quota_id q namespace k
      → k ≤ max_int
      → get_elem? q.spec.resource_quota_specs k ≡ some spec
      → o.spec ≡ spec
      → IsNotForeign q o
      → settled_quota q o ≡ some o
  unfolding settled_quota
  settled_fixed namespace k spec o name fits used same (inl unmanaged) = rw unmanaged refl
  settled_fixed namespace k spec o name fits used same (inr owned) =
      let index : get_resource_quota_index o.name ≡ done (pos k) =
        cc (name, resource_quota_index-id q.namespace q.name k fits) in
      rw (owned, text_eq_refl (get_profile_id q.namespace q.name), index, used)
        (ap (λ x. some (with_spec o x)) (sym same))

  module _ (namespace : Text) where
    -- The loop leaves every object of the name alone, or fills that of one index.
    Fate : ℕ → List Rq → Text → Type 0
    Fate i specs n =
        ((old : Option (Object Rq)) → filled_from q namespace i specs n old ≡ old)
        ⊎ ((k : ℕ) × (spec : Rq) × (get_elem? specs k ≡ some spec)
            × (n ≡ quota_id q namespace (i + k))
            × ((old : Option (Object Rq))
                → filled_from q namespace i specs n old
                  ≡ some (filled q namespace (i + k) spec old)))

    Fate-later :
        (i : ℕ) (spec : Rq) (specs : List Rq) (n : Text)
        → (n == quota_id q namespace i) ≡ false
        → Fate (suc i) specs n
        → Fate i (spec ∷ specs) n
    unfolding Fate filled_from
    Fate-later i spec specs n e (inl alone) = inl (λ old. rw e (alone old))
    Fate-later i spec specs n e (inr (k, x, get, name, fills)) =
        let shift : i + suc k ≡ suc i + k = omega arith in
        inr (suc k, x, get, rw shift name, λ old. rw (e, shift) (fills old))

    fate : (i : ℕ) (specs : List Rq) (n : Text) → i + length specs ≤ max_int + 1 → Fate i specs n
    unfolding Fate filled_from
    fate i [] n fits = inl (λ old. refl)
    fate i (spec ∷ specs) n fits = elim (text_dec n (quota_id q namespace i)) [
      | yes same ↦
          let e : (n == quota_id q namespace i) ≡ true = ground (arith, same) in
          inr (
            zero,
            spec,
            refl,
            rw add-zero same,
            λ old.
                rw (e, add-zero)
                  (subst
                    (λ n.
                      filled_from q namespace (suc i) specs n (some (filled q namespace i spec old))
                      ≡ some (filled q namespace i spec old))
                    (sym same)
                    (filled_from-past q namespace (suc i) specs i
                      (some (filled q namespace i spec old)) (omega arith) (omega arith))),
          )
      | no differs ↦
          Fate-later i spec specs n (ground (arith, differs)) (fate (suc i) specs n (omega arith))
    ]

  refreshed-keeps :
      (o x : Object Rq) (index : Outcome ℤ)
      → refreshed q o index ≡ some x
      → (x.name ≡ o.name) × (x.finalizers ≡ o.finalizers) × (x.labels ≡ o.labels)
  refreshed-keeps o x panic e = (cc, cc, cc)
  refreshed-keeps o x (fail _) e = (cc, cc, cc)
  refreshed-keeps o x (done (negsuc i)) e = (cc, cc, cc)
  refreshed-keeps o x (done (pos i)) e = (ground arith, ground arith, ground arith)

  settled_labelled-keeps :
      (o x : Object Rq) (l : Option Text)
      → settled_labelled q o l ≡ some x
      → (x.name ≡ o.name) × (x.finalizers ≡ o.finalizers) × (x.labels ≡ o.labels)
  settled_labelled-keeps o x none e = (cc, cc, cc)
  settled_labelled-keeps o x (some label) e =
      elim (text_dec label (get_profile_id q.namespace q.name)) [
        | yes own ↦ refreshed-keeps o x (get_resource_quota_index o.name) (rw (if_pos _ own) at e)
        | no other ↦ absurd (none-ne-some x (rw (if_neg _ other) at e))
      ]

  pub settled-keeps :
      (old : Option (Object Rq)) (x : Object Rq)
      → settled_by (settled_quota q) old none ≡ some x
      → (o : Object Rq) × (old ≡ some o)
        × (x.name ≡ o.name)
        × (x.finalizers ≡ o.finalizers)
        × (x.labels ≡ o.labels)
  unfolding settled_quota
  settled-keeps none x e = cc
  settled-keeps (some o) x e =
      let (name, finalizers, labels) =
        settled_labelled-keeps o x (find o.labels quota_profile_label_key) e in
      (o, refl, name, finalizers, labels)

  module _ (namespace : Text) where
    filled-name :
        (k : ℕ) (spec : Rq) (old : Option (Object Rq)) (n : Text)
        → n ≡ quota_id q namespace k
        → ((x : Object Rq) → old ≡ some x → x.name ≡ n)
        → (filled q namespace k spec old).name ≡ quota_id q namespace k
    filled-name k spec none n e h = refl
    filled-name k spec (some x) n e h = h x refl ∙ e

    filled-IsNotForeign :
        (k : ℕ) (spec : Rq) (old : Option (Object Rq))
        → ((x : Object Rq) → old ≡ some x → IsNotForeign q x)
        → IsNotForeign q (filled q namespace k spec old)
    filled-IsNotForeign k spec none h =
        inr (managed-IsOwnedBy q (quota_id q namespace k) namespace spec)
    filled-IsNotForeign k spec (some x) h = h x refl

    filled_twice :
        (k : ℕ) (spec : Rq) (old : Option (Object Rq))
        → filled q namespace k spec (some (filled q namespace k spec old))
          ≡ filled q namespace k spec old
    filled_twice k spec none = refl
    filled_twice k spec (some x) = refl

    filled-same :
        (k : ℕ) (spec : Rq) (old : Option (Object Rq)) → (filled q namespace k spec old).spec ≡ spec
    filled-same k spec none = refl
    filled-same k spec (some x) = refl

    swept_names :
        (n : Text) (old : Option (Object Rq))
        → ((o : Object Rq) → old ≡ some o → o.name ≡ n)
        → (x : Object Rq) → settled_by (settled_quota q) old none ≡ some x
        → x.name ≡ n
    swept_names n old names x e =
        let (o, was, name, _, _) = settled-keeps old x e in name ∙ names o was

    twice_by-Fate :
        (n : Text) (old : Option (Object Rq))
        → length q.spec.resource_quota_specs ≤ max_int
        → ((o : Object Rq) → old ≡ some o → o.name ≡ n)
        → Fate namespace 0 q.spec.resource_quota_specs n
        → reconciled q namespace n (reconciled q namespace n old) ≡ reconciled q namespace n old
    unfolding reconciled Fate
    twice_by-Fate n old fits names (inl alone) =
        alone _ ∙ rw (alone (settled_by (settled_quota q) old none)) (settled_twice old)
    twice_by-Fate n old fits names (inr (k, spec, used, name, fills)) =
        let swept : Option (Object Rq) = settled_by (settled_quota q) old none in
        let o : Object Rq = filled q namespace (0 + k) spec swept in
        let fixed : settled_quota q o ≡ some o =
          settled_fixed namespace (0 + k) spec o
            (filled-name (0 + k) spec swept n name (swept_names n old names))
            (omega (arith, get_elem?-lt q.spec.resource_quota_specs k used)) (rw zero-add used)
            (filled-same (0 + k) spec swept)
            (filled-IsNotForeign (0 + k) spec swept (swept-IsNotForeign q old)) in
        rw (fills swept, fixed, fills (some o), filled_twice (0 + k) spec swept) refl

    -- Reconciling twice is reconciling once.
    pub reconciled_twice :
        (n : Text) (old : Option (Object Rq))
        → length q.spec.resource_quota_specs ≤ max_int
        → ((o : Object Rq) → old ≡ some o → o.name ≡ n)
        → reconciled q namespace n (reconciled q namespace n old) ≡ reconciled q namespace n old
    reconciled_twice n old fits names =
        twice_by-Fate n old fits names
          (fate namespace 0 q.spec.resource_quota_specs n (omega arith))
