-- ===== src/NamespaceController.antt =====
-- internal/controller/namespace_controller.go: `NamespaceReconciler`. Logging is left out, and with it
-- the branches that differ in what they log alone.
pub mod Sweep
pub mod Convergence
pub mod Quotas
pub mod Fill
pub mod LimitSweep
pub mod LimitCreate
pub mod Limits
pub mod LimitTwice
pub mod Removal
pub mod Unlabelled
pub mod Preserve
pub mod Quiet
pub mod Labelled
pub mod LabelledLimits
pub mod Idempotence
pub mod Twice
use namespace_quota_operator.Common.{
  ℕ, ◌+◌, Bool, true, false, List, [], ◌∷◌, Option, none, some, is_some, leb, if◌then◌else◌, length,
  get_elem?,
}
use namespace_quota_operator.Text.{Text, ◌==◌}
use namespace_quota_operator.Text.Decimal.{ℤ, pos, negsuc, itoa}
use namespace_quota_operator.Labels.{Labels, find}
use namespace_quota_operator.Effect.{
  Error, not_found, Result, ok, err, Outcome, done, fail, panic, Action, must, pure, raise, lift,
  query, attempt, ◌>>=◌, ◌>>◌, for_each, for_each_from,
}
use namespace_quota_operator.Api.{
  Object, ObjectMeta, zero_meta, QuotaProfile, Namespace, quota_profile_label_key,
}
use namespace_quota_operator.Client.{Verbs, Client}
use namespace_quota_operator.Ids.{
  get_profile_id, split_profile_id, get_resource_quota_id, get_resource_quota_index,
  get_limit_range_id, get_limit_range_index,
}

-- `specs[index]`; `none` where Go panics with an index out of range.
abbrev pub at_index : {A : Type 0} → List A → ℤ → Option A
at_index specs (pos i) = get_elem? specs i
at_index specs (negsuc i) = none

-- `index >= n`
abbrev pub reaches : ℤ → ℕ → Bool
reaches (pos i) n = leb n i
reaches (negsuc i) n = false

-- An object with another specification.
abbrev pub with_spec : {Spec : Type 0} → Object Spec → Spec → Object Spec
with_spec o spec = record o { spec = spec }

-- A new object of the operator: name, namespace, the profile label and the specification.
abbrev pub managed : {Spec : Type 0} → Text → Text → Text → Spec → Object Spec
managed name namespace profile_id spec = record {
  meta = record zero_meta {
    name = name;
    namespace = namespace;
    labels = some ((quota_profile_label_key, profile_id) ∷ []);
  };
  spec = spec;
}

module _ {Rq Lr : Type 0} (c : Client Rq Lr) where
  -- A quota of this profile: a name that yields no index is left alone, an index that is not in use
  -- is deleted, and the others get their specification.
  unfoldable pub refresh_quota :
      QuotaProfile Rq Lr → Object Rq → Outcome ℤ → Action c.State (Unit {0})
  refresh_quota q rq panic s = (panic, s)
  refresh_quota q rq (fail e) s = (done tt, s)
  refresh_quota q rq (done index) s =
      if reaches index (length q.spec.resource_quota_specs)
      then attempt (c.quotas.delete rq) s
      else (do
        spec ← lift (must (at_index q.spec.resource_quota_specs index))
        attempt (c.quotas.update (with_spec rq spec)))
          s

  -- By the profile label: an unmanaged object is skipped, one of another profile is deleted.
  unfoldable pub sweep_labelled_quota :
      QuotaProfile Rq Lr → Object Rq → Option Text → Action c.State (Unit {0})
  unfolding refresh_quota
  sweep_labelled_quota q rq none = pure tt
  sweep_labelled_quota q rq (some label) =
      if label == get_profile_id q.namespace q.name
      then refresh_quota q rq (get_resource_quota_index rq.name)
      else attempt (c.quotas.delete rq)

  -- One round of the loop over the objects that are there.
  unfoldable pub sweep_quota : QuotaProfile Rq Lr → Object Rq → Action c.State (Unit {0})
  unfolding sweep_labelled_quota
  sweep_quota q rq = sweep_labelled_quota q rq (find rq.labels quota_profile_label_key)

  -- By what `Get` returns: the quota is updated if it is found, created if it is not, and skipped at
  -- any other error.
  unfoldable pub fill_found :
      QuotaProfile Rq Lr → Text → Text → Rq → Result (Object Rq) → Action c.State (Unit {0})
  fill_found q namespace name spec (ok rq) = attempt (c.quotas.update (with_spec rq spec))
  fill_found q namespace name spec (err not_found) =
      attempt (c.quotas.create (managed name namespace (get_profile_id q.namespace q.name) spec))
  fill_found q namespace name spec (err e) = pure tt

  -- One round of the loop over the profile's specifications.
  unfoldable pub fill_quota : QuotaProfile Rq Lr → Text → ℕ → Rq → Action c.State (Unit {0})
  unfolding fill_found
  fill_quota q namespace i spec s =
      let name : Text = get_resource_quota_id q.namespace q.name (itoa i) in
      fill_found q namespace name spec (c.quotas.get namespace name s) s

  unfoldable pub reconcile_resource_quotas : QuotaProfile Rq Lr → Text → Action c.State (Unit {0})
  reconcile_resource_quotas q namespace = do
    items ← query (c.quotas.list namespace)
    for_each (sweep_quota q) items
    for_each_from (fill_quota q namespace) 0 q.spec.resource_quota_specs

  -- The index is compared with the number of resource quotas, and then taken in the limit ranges.
  unfoldable pub refresh_limit :
      QuotaProfile Rq Lr → Object Lr → Outcome ℤ → Action c.State (Unit {0})
  refresh_limit q lr panic s = (panic, s)
  refresh_limit q lr (fail e) s = (done tt, s)
  refresh_limit q lr (done index) s =
      if reaches index (length q.spec.resource_quota_specs)
      then attempt (c.limits.delete lr) s
      else (do
        spec ← lift (must (at_index q.spec.limit_range_specs index))
        attempt (c.limits.update (with_spec lr spec)))
          s

  -- By the profile label: an unmanaged object is skipped, one of another profile is deleted.
  unfoldable pub sweep_labelled_limit :
      QuotaProfile Rq Lr → Object Lr → Option Text → Action c.State (Unit {0})
  unfolding refresh_limit
  sweep_labelled_limit q lr none = pure tt
  sweep_labelled_limit q lr (some label) =
      if label == get_profile_id q.namespace q.name
      then refresh_limit q lr (get_limit_range_index lr.name)
      else attempt (c.limits.delete lr)

  -- One round of the loop over the objects that are there.
  unfoldable pub sweep_limit : QuotaProfile Rq Lr → Object Lr → Action c.State (Unit {0})
  unfolding sweep_labelled_limit
  sweep_limit q lr = sweep_labelled_limit q lr (find lr.labels quota_profile_label_key)

  unfoldable pub create_limit : QuotaProfile Rq Lr → Text → ℕ → Lr → Action c.State (Unit {0})
  create_limit q namespace i spec = attempt (
      c.limits.create (
        managed (get_limit_range_id q.namespace q.name (itoa i)) namespace
          (get_profile_id q.namespace q.name) spec))

  -- The specifications are created only if the namespace holds no limit range at all.
  unfoldable pub limits_of_list :
      QuotaProfile Rq Lr → Text → List (Object Lr) → Action c.State (Unit {0})
  limits_of_list q namespace [] =
      for_each_from (create_limit q namespace) 0 q.spec.limit_range_specs
  limits_of_list q namespace (lr ∷ rest) = for_each (sweep_limit q) (lr ∷ rest)

  unfoldable pub reconcile_limit_ranges : QuotaProfile Rq Lr → Text → Action c.State (Unit {0})
  unfolding limits_of_list
  reconcile_limit_ranges q namespace = do
    items ← query (c.limits.list namespace)
    limits_of_list q namespace items

  unfoldable pub reconcile_resources : QuotaProfile Rq Lr → Text → Action c.State (Unit {0})
  reconcile_resources q namespace =
      reconcile_resource_quotas q namespace >> reconcile_limit_ranges q namespace

  unfoldable pub delete_managed_quota : Object Rq → Action c.State (Unit {0})
  delete_managed_quota rq =
      if is_some rq.deletion_timestamp
      then pure tt
      else if is_some (find rq.labels quota_profile_label_key)
      then attempt (c.quotas.delete rq)
      else pure tt

  unfoldable pub delete_managed_resource_quotas : Text → Action c.State (Unit {0})
  delete_managed_resource_quotas namespace = do
    items ← query (c.quotas.list namespace)
    for_each delete_managed_quota items

  unfoldable pub delete_managed_limit : Object Lr → Action c.State (Unit {0})
  delete_managed_limit lr =
      if is_some lr.deletion_timestamp
      then pure tt
      else if is_some (find lr.labels quota_profile_label_key)
      then attempt (c.limits.delete lr)
      else pure tt

  unfoldable pub delete_managed_limit_ranges : Text → Action c.State (Unit {0})
  delete_managed_limit_ranges namespace = do
    items ← query (c.limits.list namespace)
    for_each delete_managed_limit items

  unfoldable pub clean_up : Text → Action c.State (Unit {0})
  clean_up namespace =
      delete_managed_resource_quotas namespace >> delete_managed_limit_ranges namespace

  -- The profile that the label names; a profile that is not found ends the reconciliation.
  unfoldable pub follow_label : Text → Text → Action c.State (Unit {0})
  follow_label namespace profile_id s =
      let (profile_namespace, profile_name) = split_profile_id profile_id in
      elim (c.profiles.get profile_namespace profile_name s) [
        | ok q ↦ reconcile_resources q namespace s
        | err not_found ↦ (done tt, s)
        | err e ↦ (fail e, s)
      ]

  unfoldable pub reconcile_found : Namespace → Action c.State (Unit {0})
  reconcile_found ns =
      if is_some ns.deletion_timestamp
      then pure tt
      else elim (find ns.labels quota_profile_label_key) [
        | none ↦ clean_up ns.name
        | some profile_id ↦ follow_label ns.name profile_id
      ]

  -- `Reconcile`; the `ctrl.Result` is always empty.
  unfoldable pub reconcile : Text → Text → Action c.State (Unit {0})
  unfolding reconcile_found
  reconcile namespace name s = elim (c.namespaces.get namespace name s) [
    | err not_found ↦ (done tt, s)
    | err e ↦ (fail e, s)
    | ok ns ↦ reconcile_found ns s
  ]
