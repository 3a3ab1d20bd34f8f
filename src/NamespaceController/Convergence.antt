-- ===== src/NamespaceController/Convergence.antt =====
-- What holds of a namespace after `reconcileResourceQuotas`, with a consistent API.
use native.Mathlib.Nat.{zero-add}
use mathlib.Core.Option.{none-ne-some}
use namespace_quota_operator.Common.{
  All-Unit, ℕ, ◌≤◌, ◌<◌, ◌≡◌, ◌≢◌, refl, sym, ◌∙◌, ◌⊎◌, inl, inr, List, Option, none, some, length,
  get_elem?, get_elem?-none, All, arith, if_pos, if_neg,
}
use namespace_quota_operator.Text.{Text, text_dec, text_eq_refl}
use namespace_quota_operator.Text.Decimal.{ℤ, pos, negsuc, max_int, itoa}
use namespace_quota_operator.Labels.{find, lookup}
use namespace_quota_operator.Effect.{Outcome, done, fail, panic}
use namespace_quota_operator.Api.{Object, QuotaProfile, quota_profile_label_key}
use namespace_quota_operator.Client.{Client}
use namespace_quota_operator.Client.Laws.{named, IsConsistent}
use namespace_quota_operator.Client.Loop.{named-All, settled_by}
use namespace_quota_operator.Ids.{get_profile_id, get_resource_quota_id, get_resource_quota_index}
use namespace_quota_operator.Ids.Index.{resource_quota_index-id}
use namespace_quota_operator.NamespaceController.{managed, reconcile_resource_quotas}
use namespace_quota_operator.NamespaceController.Sweep.{
  IsOwnedBy, IsSweepable, refreshed, settled_labelled, settled_quota,
}
use namespace_quota_operator.NamespaceController.Fill.{
  quota_id, filled_from-other, filled_from-keeps, filled_from-get,
}
use namespace_quota_operator.NamespaceController.Quotas.{
  reconciled, reconcile_resource_quotas-reconciled,
}

done_pos-injective : {i j : ℕ} → done (pos i) ≡ done (pos j) → i ≡ j
done_pos-injective e = cc

-- The object carries no profile label.
abbrev pub IsUnmanaged : {Spec : Type 0} → Object Spec → Type 0
IsUnmanaged o = find o.labels quota_profile_label_key ≡ none

module _ {Rq Lr : Type 0} (q : QuotaProfile Rq Lr) where
  -- The object carries no profile label, or that of the profile.
  abbrev pub IsNotForeign : Object Rq → Type 0
  IsNotForeign o = IsUnmanaged o ⊎ IsOwnedBy q o

  refreshed-labels :
      (o x : Object Rq) (index : Outcome ℤ) → refreshed q o index ≡ some x → x.labels ≡ o.labels
  refreshed-labels o x panic e = cc
  refreshed-labels o x (fail _) e = cc
  refreshed-labels o x (done (negsuc i)) e = cc
  refreshed-labels o x (done (pos i)) e = ground arith

  settled-IsNotForeign :
      (o : Object Rq) (l : Option Text)
      → find o.labels quota_profile_label_key ≡ l
      → (x : Object Rq) → settled_labelled q o l ≡ some x
      → IsNotForeign x
  settled-IsNotForeign o none e x h = inl (cc (e, h))
  settled-IsNotForeign o (some label) e x h =
      elim (text_dec label (get_profile_id q.namespace q.name)) [
        | yes own ↦ inr (
            cc (
              e,
              own,
              refreshed-labels o x (get_resource_quota_index o.name) (rw (if_pos _ own) at h),
            ))
        | no other ↦ absurd (none-ne-some x (rw (if_neg _ other) at h))
      ]

  pub swept-IsNotForeign :
      (old : Option (Object Rq)) (x : Object Rq)
      → settled_by (settled_quota q) old none ≡ some x
      → IsNotForeign x
  unfolding settled_quota
  swept-IsNotForeign none x h = cc
  swept-IsNotForeign (some o) x h =
      settled-IsNotForeign o (find o.labels quota_profile_label_key) refl x h

  pub managed-IsOwnedBy :
      (name namespace : Text) (spec : Rq)
      → IsOwnedBy q (managed name namespace (get_profile_id q.namespace q.name) spec)
  unfolding find lookup
  managed-IsOwnedBy name namespace spec = ground arith

  -- An index past the specifications leaves nothing of a quota of the profile.
  settled-surplus :
      (o : Object Rq) (i : ℕ)
      → IsOwnedBy q o
      → get_resource_quota_index o.name ≡ done (pos i)
      → length q.spec.resource_quota_specs ≤ i
      → settled_quota q o ≡ none
  unfolding settled_quota
  settled-surplus o i owned index surplus = rw (
    owned,
    text_eq_refl (get_profile_id q.namespace q.name),
    index,
    get_elem?-none q.spec.resource_quota_specs i surplus,
  )

module _ {Rq Lr : Type 0} (c : Client Rq Lr) (objects : c.State → Text → List (Object Rq))
    (api : IsConsistent c.quotas objects) (q : QuotaProfile Rq Lr) (namespace : Text) (s : c.State)
    (sweepable : All (IsSweepable q) (objects s namespace)) where
  after_name :
      (n : Text)
      → named n (objects (reconcile_resource_quotas c q namespace s).1 namespace)
        ≡ reconciled q namespace n (named n (objects s namespace))
  after_name n =
      (reconcile_resource_quotas-reconciled c objects api q namespace s sweepable).1 namespace n
      ∙ rw (text_eq_refl namespace) refl

  -- With a consistent API, and quotas in the namespace that have no finalizers where they carry a
  -- profile label, and a dash in their names where it is the profile's: afterwards each
  -- specification of the profile is that of the quota named after its index, if the profile has at
  -- most `max_int` specifications.
  pub reconcile-quotas-converge :
      length q.spec.resource_quota_specs ≤ max_int
      → (i : ℕ) (spec : Rq) → get_elem? q.spec.resource_quota_specs i ≡ some spec
      → (o : Object Rq) × (named
            (get_resource_quota_id q.namespace q.name (itoa i))
            (objects (reconcile_resource_quotas c q namespace s).1 namespace)
          ≡ some o)
        × (o.spec ≡ spec)
  unfolding reconciled
  reconcile-quotas-converge fits i spec h = rw (after_name (quota_id q namespace i)) (
      rw zero-add at (
        filled_from-get q namespace 0 q.spec.resource_quota_specs i
          (settled_by (settled_quota q) (named (quota_id q namespace i) (objects s namespace)) none)
          h (omega arith)))

  -- With a consistent API, and quotas in the namespace that have no finalizers where they carry a
  -- profile label, and a dash in their names where it is the profile's: afterwards every quota of
  -- the namespace carries no profile label or that of the profile.
  pub reconcile-quotas-IsNotForeign :
      (n : Text) (o : Object Rq)
      → named n (objects (reconcile_resource_quotas c q namespace s).1 namespace) ≡ some o
      → IsNotForeign q o
  unfolding reconciled
  reconcile-quotas-IsNotForeign n o h =
      filled_from-keeps q namespace (IsNotForeign q)
        (λ i spec. inr (managed-IsOwnedBy q (quota_id q namespace i) namespace spec))
        (λ o spec k. k) 0 q.spec.resource_quota_specs n
        (settled_by (settled_quota q) (named n (objects s namespace)) none)
        (swept-IsNotForeign q (named n (objects s namespace))) o (sym (after_name n) ∙ h)

  -- With a consistent API, and quotas in the namespace that have no finalizers where they carry a
  -- profile label, and a dash in their names where it is the profile's: a quota without the profile
  -- label stays as it is, unless its name is that of an index of the profile.
  pub reconcile-quotas-unmanaged :
      (n : Text) (o : Object Rq)
      → named n (objects s namespace) ≡ some o
      → IsUnmanaged o
      → ((i : ℕ)
          → i < length q.spec.resource_quota_specs
          → n ≢ get_resource_quota_id q.namespace q.name (itoa i))
      → named n (objects (reconcile_resource_quotas c q namespace s).1 namespace) ≡ some o
  unfolding reconciled settled_quota
  reconcile-quotas-unmanaged n o h unmanaged other =
      after_name n
      ∙ rw (h, unmanaged)
          (filled_from-other q namespace 0 q.spec.resource_quota_specs n (some o)
            (λ j lo hi. other j (omega arith)))

  -- With a consistent API, and quotas in the namespace that have no finalizers where they carry a
  -- profile label, and a dash in their names where it is the profile's: a quota of the profile
  -- whose name yields an index that is no longer in use is gone, if the profile has at most
  -- `max_int` specifications.
  pub reconcile-quotas-surplus :
      (n : Text) (o : Object Rq) (i : ℕ)
      → named n (objects s namespace) ≡ some o
      → IsOwnedBy q o
      → get_resource_quota_index n ≡ done (pos i)
      → length q.spec.resource_quota_specs ≤ i
      → length q.spec.resource_quota_specs ≤ max_int
      → named n (objects (reconcile_resource_quotas c q namespace s).1 namespace) ≡ none
  unfolding reconciled settled_quota
  reconcile-quotas-surplus n o i h owned index surplus fits =
      let (_, name) =
        named-All (λ o. Unit {0}) n (objects s namespace) (All-Unit (objects s namespace)) h in
      let gone : settled_quota q o ≡ none =
        settled-surplus q o i owned (cc (name, index)) surplus in
      after_name n
      ∙ rw (h, gone)
          (filled_from-other q namespace 0 q.spec.resource_quota_specs n none (λ j lo hi e. omega (
            arith,
            done_pos-injective {i = i} {j = j}
                (cc (e, index, resource_quota_index-id q.namespace q.name j (omega arith))),
          )))
