-- ===== src/NamespaceController/Removal.antt =====
-- `deleteManagedResourceQuotas` and `deleteManagedLimitRanges`: a namespace that no profile selects.
use namespace_quota_operator.Common.{
  is_some-ne-none, All-zip, ◌≡◌, ◌≢◌, arith, if◌then◌else◌, Bool, false, List, [], Option, none,
  some, is_some, if◌then◌else◌, All, arith, Bool-cases, inl, inr,
}
use namespace_quota_operator.Text.{Text, ◌==◌}
use namespace_quota_operator.Labels.{find}
use namespace_quota_operator.Effect.{Outcome, done, Action, for_each}
use namespace_quota_operator.Effect.Frame.{for_each-frame}
use namespace_quota_operator.Api.{Object, quota_profile_label_key}
use namespace_quota_operator.Client.{Client}
use namespace_quota_operator.Client.Laws.{named, NodupNames, IsConsistent}
use namespace_quota_operator.Client.Loop.{
  Settles, named_self, settled_by, settled_by_self, for_each-settles,
}
use namespace_quota_operator.Client.Writes.{kept-Writes, deleted-Writes}
use namespace_quota_operator.NamespaceController.{
  delete_managed_quota, delete_managed_resource_quotas, delete_managed_limit,
  delete_managed_limit_ranges, clean_up,
}

module _ {Spec : Type 0} where
  -- The object carries the profile label and is not being deleted already.
  abbrev pub is_removable : Object Spec → Bool
  is_removable o =
      if is_some o.deletion_timestamp
      then false
      else is_some (find o.labels quota_profile_label_key)

  unfoldable pub kept : Object Spec → Option (Object Spec)
  kept o = if is_removable o then none else some o

  -- If the object carries a profile label it has no finalizers.
  abbrev pub IsPlain : Object Spec → Type 0
  IsPlain o = find o.labels quota_profile_label_key ≢ none → o.finalizers ≡ []

  module _ {State : Type 0} (objects : State → Text → List (Object Spec)) (namespace : Text)
      (s : State) where
    -- What a removal leaves: the objects of `kept` in the namespace, all in the others, and no error.
    abbrev pub Removes : Outcome (Unit {0}) × State → Type 0
    Removes r =
        (r.0 ≡ done tt)
        × ((ns n : Text)
            → named n (objects r.1 ns) ≡ (
                if ns == namespace
                then settled_by kept (named n (objects s ns)) none
                else named n (objects s ns)))

    removal_loop :
        (step : Object Spec → Action State (Unit {0}))
        → All IsPlain (objects s namespace)
        → All (λ o. o.namespace ≡ namespace) (objects s namespace)
        → All (λ o. named o.name (objects s namespace) ≡ some o) (objects s namespace)
        → Settles objects IsPlain kept step namespace
        → NodupNames (objects s namespace)
        → Removes (for_each step (objects s namespace) s)
    removal_loop step plain placed self settles nodup =
        let os = objects s namespace in
        let (finished, written) =
          for_each-settles objects IsPlain kept step namespace settles os s nodup
            (All-zip _ _ _ os plain placed self) in
        (finished, λ ns n. ground (arith, written ns n, settled_by_self kept (named n os)))

module _ {Rq Lr : Type 0} (c : Client Rq Lr) (quotas : c.State → Text → List (Object Rq))
    (limits : c.State → Text → List (Object Lr)) (quotas_api : IsConsistent c.quotas quotas)
    (limits_api : IsConsistent c.limits limits) (namespace : Text) where
  delete_managed_quota-Settles : Settles quotas IsPlain kept (delete_managed_quota c) namespace
  unfolding delete_managed_quota kept
  delete_managed_quota-Settles o s plain placed stored =
      elim (Bool-cases (is_some o.deletion_timestamp)) [
        | inl going ↦ rw going (kept-Writes c.quotas quotas quotas_api o s placed stored)
        | inr staying ↦ elim (Bool-cases (is_some (find o.labels quota_profile_label_key))) [
          | inl labelled ↦
              rw (staying, labelled)
                (deleted-Writes c.quotas quotas quotas_api o s placed stored
                  (plain (is_some-ne-none _ labelled)))
          | inr bare ↦ rw (staying, bare) (kept-Writes c.quotas quotas quotas_api o s placed stored)
        ]
      ]

  delete_managed_limit-Settles : Settles limits IsPlain kept (delete_managed_limit c) namespace
  unfolding delete_managed_limit kept
  delete_managed_limit-Settles o s plain placed stored =
      elim (Bool-cases (is_some o.deletion_timestamp)) [
        | inl going ↦ rw going (kept-Writes c.limits limits limits_api o s placed stored)
        | inr staying ↦ elim (Bool-cases (is_some (find o.labels quota_profile_label_key))) [
          | inl labelled ↦
              rw (staying, labelled)
                (deleted-Writes c.limits limits limits_api o s placed stored
                  (plain (is_some-ne-none _ labelled)))
          | inr bare ↦ rw (staying, bare) (kept-Writes c.limits limits limits_api o s placed stored)
        ]
      ]

  delete_managed_quotas-Removes :
      (s : c.State)
      → All IsPlain (quotas s namespace)
      → Removes quotas namespace s (delete_managed_resource_quotas c namespace s)
  unfolding delete_managed_resource_quotas
  delete_managed_quotas-Removes s plain =
      let nodup = quotas_api.nodup s namespace in
      rw (quotas_api.list_lem namespace s) (
        removal_loop quotas namespace s (delete_managed_quota c) plain
          (quotas_api.placed s namespace) (named_self (quotas s namespace) nodup)
          delete_managed_quota-Settles nodup)

  delete_managed_limits-Removes :
      (s : c.State)
      → All IsPlain (limits s namespace)
      → Removes limits namespace s (delete_managed_limit_ranges c namespace s)
  unfolding delete_managed_limit_ranges
  delete_managed_limits-Removes s plain =
      let nodup = limits_api.nodup s namespace in
      rw (limits_api.list_lem namespace s) (
        removal_loop limits namespace s (delete_managed_limit c) plain
          (limits_api.placed s namespace) (named_self (limits s namespace) nodup)
          delete_managed_limit-Settles nodup)

  module _
      (quotas_frame : (o : Object Lr) (s : c.State) → quotas (c.limits.delete o s).1 ≡ quotas s)
      (limits_frame : (o : Object Rq) (s : c.State)
        → limits (c.quotas.delete o s).1 ≡ limits s) where
    quota_round-frame :
        (o : Object Rq) (s : c.State) → limits (delete_managed_quota c o s).1 ≡ limits s
    unfolding delete_managed_quota
    quota_round-frame o s = ground (arith, limits_frame o s)

    limit_round-frame :
        (o : Object Lr) (s : c.State) → quotas (delete_managed_limit c o s).1 ≡ quotas s
    unfolding delete_managed_limit
    limit_round-frame o s = ground (arith, quotas_frame o s)

    quotas_loop-frame :
        (s : c.State) → limits (delete_managed_resource_quotas c namespace s).1 ≡ limits s
    unfolding delete_managed_resource_quotas
    quotas_loop-frame s =
        rw (quotas_api.list_lem namespace s)
          (for_each-frame limits (delete_managed_quota c) quota_round-frame (quotas s namespace) s)

    limits_loop-frame :
        (s : c.State) → quotas (delete_managed_limit_ranges c namespace s).1 ≡ quotas s
    unfolding delete_managed_limit_ranges
    limits_loop-frame s =
        rw (limits_api.list_lem namespace s)
          (for_each-frame quotas (delete_managed_limit c) limit_round-frame (limits s namespace) s)

    pub clean_up-Removes :
        (s : c.State)
        → All IsPlain (quotas s namespace)
        → All IsPlain (limits s namespace)
        → Removes quotas namespace s (clean_up c namespace s)
          × Removes limits namespace s (clean_up c namespace s)
    unfolding clean_up
    clean_up-Removes s plain_quotas plain_limits =
        let (finished, written) = delete_managed_quotas-Removes s plain_quotas in
        let s' : c.State = (delete_managed_resource_quotas c namespace s).1 in
        let (finished', written') =
          delete_managed_limits-Removes s' (rw (quotas_loop-frame s) plain_limits) in
        rw finished (
          (finished', λ ns n. rw (limits_loop-frame s') (written ns n)),
          (finished', λ ns n. rw (quotas_loop-frame s) at written' ns n),
        )
