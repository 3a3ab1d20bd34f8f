-- ===== src/NamespaceController/Limits.antt =====
-- What holds of a namespace after `reconcileLimitRanges`, with a consistent API.
use native.Mathlib.Nat.{zero-add}
use namespace_quota_operator.Common.{
  All-zip, ℕ, ◌≤◌, ◌<◌, ◌≡◌, refl, ◌∙◌, true, false, List, [], ◌∷◌, none, some, leb, length,
  get_elem?, All, arith,
}
use namespace_quota_operator.Text.{Text, text_eq_refl}
use namespace_quota_operator.Text.Decimal.{pos, max_int, itoa}
use namespace_quota_operator.Effect.{done, for_each}
use namespace_quota_operator.Api.{Object, QuotaProfile}
use namespace_quota_operator.Client.{Client}
use namespace_quota_operator.Client.Laws.{named, IsConsistent}
use namespace_quota_operator.Client.Loop.{
  named-All, named_self, settled_by, settled_by_self, for_each-settles,
}
use namespace_quota_operator.Ids.{get_profile_id, get_limit_range_id, get_limit_range_index}
use namespace_quota_operator.NamespaceController.{
  with_spec, sweep_limit, limits_of_list, reconcile_limit_ranges,
}
use namespace_quota_operator.NamespaceController.Sweep.{IsOwnedBy, IsSweepable}
use namespace_quota_operator.NamespaceController.LimitSweep.{settled_limit, sweep_limit-Settles}
use namespace_quota_operator.NamespaceController.LimitCreate.{
  created, created_from-get, create_loop,
}

module _ {Rq Lr : Type 0} (c : Client Rq Lr) (objects : c.State → Text → List (Object Lr))
    (api : IsConsistent c.limits objects) (q : QuotaProfile Rq Lr) (namespace : Text)
    (s : c.State) where
  -- With a consistent API, in a namespace without limit ranges: the reconciliation ends without
  -- error, and each specification of the profile gets a limit range named after its index, with the
  -- label of the profile, if the profile has at most `max_int` specifications.
  pub reconcile-limits-create :
      objects s namespace ≡ []
      → length q.spec.limit_range_specs ≤ max_int
      → (i : ℕ) (spec : Lr) → get_elem? q.spec.limit_range_specs i ≡ some spec
      → ((reconcile_limit_ranges c q namespace s).0 ≡ done tt)
        × (named
              (get_limit_range_id q.namespace q.name (itoa i))
              (objects (reconcile_limit_ranges c q namespace s).1 namespace)
            ≡ some (created q namespace i spec))
  unfolding reconcile_limit_ranges limits_of_list named
  reconcile-limits-create empty fits i spec h =
      let (finished, written) =
        create_loop c objects api q namespace 0 q.spec.limit_range_specs s (omega arith)
          (λ j lo hi. rw empty refl) in
      let n : Text = get_limit_range_id q.namespace q.name (itoa i) in
      rw (api.list_lem namespace s, empty)
        (
          finished,
          written n
              ∙ (rw zero-add at (
                  created_from-get q namespace 0 q.spec.limit_range_specs i
                    (named n (objects s namespace)) h (omega arith))),
        )

  module _ (x : Object Lr) (rest : List (Object Lr)) (nonempty : objects s namespace ≡ x ∷ rest)
      (enough : length q.spec.resource_quota_specs ≤ length q.spec.limit_range_specs)
      (sweepable : All (IsSweepable q) (objects s namespace)) where
    swept :
        ((for_each (sweep_limit c q) (objects s namespace) s).0 ≡ done tt)
        × ((n : Text)
            → named n (objects (for_each (sweep_limit c q) (objects s namespace) s).1 namespace)
              ≡ settled_by (settled_limit q) (named n (objects s namespace)) none)
    swept =
        let os = objects s namespace in
        let (finished, written) =
          for_each-settles objects (IsSweepable q) (settled_limit q) (sweep_limit c q) namespace
            (sweep_limit-Settles c objects api q namespace enough) os s (api.nodup s namespace)
            (All-zip _ _ _ os sweepable (api.placed s namespace)
              (named_self os (api.nodup s namespace))) in
        (
          finished,
          λ n.
              written namespace n
              ∙ rw (text_eq_refl namespace) (settled_by_self (settled_limit q) (named n os)),
        )

    index_of_object :
        (n : Text) (o : Object Lr) (i : ℕ)
        → named n (objects s namespace) ≡ some o
        → get_limit_range_index n ≡ done (pos i)
        → get_limit_range_index o.name ≡ done (pos i)
    index_of_object n o i h index =
        let (_, name) =
          named-All (λ o. o.namespace ≡ namespace) n (objects s namespace) (api.placed s namespace)
            h in
        cc (name, index)

    -- With a consistent API, in a namespace that holds a limit range, whose limit ranges have no
    -- finalizers where they carry a profile label, and a dash in their names where it is the
    -- profile's, and for a profile with no fewer limit ranges than resource quotas: the
    -- reconciliation ends without error or panic, and what a name stands for afterwards is
    -- `settled_limit` of what it stood for.
    pub reconcile-limits-settle :
        ((reconcile_limit_ranges c q namespace s).0 ≡ done tt)
        × ((n : Text)
            → named n (objects (reconcile_limit_ranges c q namespace s).1 namespace)
              ≡ settled_by (settled_limit q) (named n (objects s namespace)) none)
    unfolding reconcile_limit_ranges limits_of_list
    reconcile-limits-settle =
        let (finished, written) = swept in
        rw (api.list_lem namespace s, nonempty)
          (rw nonempty at finished, λ n. rw nonempty at written n)

    -- With a consistent API, in a namespace that holds a limit range, whose limit ranges have no
    -- finalizers where they carry a profile label, and a dash in their names where it is the
    -- profile's, and for a profile with no fewer limit ranges than resource quotas: a limit range
    -- of the profile whose index is below the number of resource quotas ends up with the
    -- specification of its index.
    pub reconcile-limits-update :
        (n : Text) (o : Object Lr) (i : ℕ) (spec : Lr)
        → named n (objects s namespace) ≡ some o
        → IsOwnedBy q o
        → get_limit_range_index n ≡ done (pos i)
        → i < length q.spec.resource_quota_specs
        → get_elem? q.spec.limit_range_specs i ≡ some spec
        → named n (objects (reconcile_limit_ranges c q namespace s).1 namespace)
          ≡ some (with_spec o spec)
    unfolding settled_limit
    reconcile-limits-update n o i spec h owned index within used =
        let below : leb (length q.spec.resource_quota_specs) i ≡ false = ground arith in
        reconcile-limits-settle.1 n
        ∙ rw h (
            rw
              (
                owned,
                text_eq_refl (get_profile_id q.namespace q.name),
                index_of_object n o i h index,
                below,
                used,
              )
              refl)

    -- With a consistent API, in a namespace that holds a limit range, whose limit ranges have no
    -- finalizers where they carry a profile label, and a dash in their names where it is the
    -- profile's, and for a profile with no fewer limit ranges than resource quotas: a limit range
    -- of the profile whose index is not below the number of resource quotas is deleted, also if the
    -- profile has a limit range of that index.
    pub reconcile-limits-surplus :
        (n : Text) (o : Object Lr) (i : ℕ)
        → named n (objects s namespace) ≡ some o
        → IsOwnedBy q o
        → get_limit_range_index n ≡ done (pos i)
        → length q.spec.resource_quota_specs ≤ i
        → named n (objects (reconcile_limit_ranges c q namespace s).1 namespace) ≡ none
    unfolding settled_limit
    reconcile-limits-surplus n o i h owned index past =
        let over : leb (length q.spec.resource_quota_specs) i ≡ true = ground arith in
        reconcile-limits-settle.1 n
        ∙ rw h (
            rw
              (
                owned,
                text_eq_refl (get_profile_id q.namespace q.name),
                index_of_object n o i h index,
                over,
              )
              refl)
