-- ===== src/ProfileController.antt =====
-- internal/controller/quotaprofile_controller.go: `QuotaProfileReconciler`. Logging is left out.
pub mod Labelling
pub mod Precedence
pub mod Outranked
pub mod Deletion
pub mod ByName
pub mod Named
pub mod ByLabel
pub mod Finalizer
pub mod Preserve
use namespace_quota_operator.Common.{
  ℕ, Bool, true, false, ◌&&◌, ◌||◌, List, [], ◌∷◌, ◌++◌, Option, none, some, ltb, eqb,
  if◌then◌else◌,
}
use namespace_quota_operator.Text.{Text, codes, ◌==◌}
use namespace_quota_operator.Text.Decimal.{itoa}
use namespace_quota_operator.Labels.{Labels, Entries, find, value, assign, delete}
use namespace_quota_operator.Effect.{
  Error, not_found, Result, ok, err, Outcome, done, fail, panic, Action, must, pure, raise, lift,
  query, command, ◌>>=◌, ◌>>◌, for_each,
}
use namespace_quota_operator.Api.{
  Object, ObjectMeta, zero_meta, NamespaceSelector, QuotaProfileSpec, QuotaProfile, Namespace,
  quota_profile_finalizer, quota_profile_label_key, quota_profile_last_update_timestamp,
}
use namespace_quota_operator.Client.{Verbs, Client}
use namespace_quota_operator.Ids.{split_profile_id}

-- `&quotav1alpha1.QuotaProfile{}`
abbrev pub zero_profile : {Rq Lr : Type 0} → QuotaProfile Rq Lr
zero_profile = record {
  meta = zero_meta;
  spec = record {
    namespace_selector = record { match_labels = none; match_name = none };
    precedence = 0;
    resource_quota_specs = [];
    limit_range_specs = [];
  };
}

-- The comparison of a pointer with the address of a new composite literal, as in
-- `existingProfile == &quotav1alpha1.QuotaProfile{}`: two pointers to distinct variables differ.
abbrev pub is_new_address : Bool
is_new_address = false

-- A namespace with other labels.
abbrev pub with_labels : Namespace → Labels → Namespace
with_labels ns labels = record ns { meta = record ns.meta { labels = labels } }

-- `DeletionTimestamp.IsZero()`: no pointer, or the zero time.
abbrev pub is_zero : Option ℕ → Bool
is_zero none = true
is_zero (some t) = eqb t 0

-- `client.IgnoreNotFound(err)` after a `Get` into a new variable: an object that is not found leaves
-- the variable zero.
abbrev pub or_zero : {A : Type 0} → A → Result A → Result A
or_zero zero_value (ok a) = ok a
or_zero zero_value (err not_found) = ok zero_value
or_zero zero_value (err e) = err e

abbrev pub first : List Text → Option Text
first [] = none
first (k ∷ ks) = some k

module _ {Rq Lr : Type 0} (c : Client Rq Lr) where
  -- time.Now().UnixMicro()
  abbrev pub unix_micro : Action c.State ℕ
  unix_micro s = let (t, s') = c.now s in (done t, s')

  unfoldable pub set_quota_profile_labels :
      Namespace → QuotaProfile Rq Lr → Action c.State Namespace
  set_quota_profile_labels ns q = do
    labels ← lift (must (assign ns.labels quota_profile_label_key (q.namespace ++ b'.' ∷ q.name)))
    stamp ← unix_micro
    labels' ← lift (must (assign labels quota_profile_last_update_timestamp (itoa stamp)))
    pure (with_labels ns labels')

  -- `setQuotaProfileLabels(ns, q)` and `return r.Update(ctx, ns)`.
  unfoldable pub label_and_update : QuotaProfile Rq Lr → Namespace → Action c.State (Unit {0})
  unfolding set_quota_profile_labels
  label_and_update q ns = do ns' ← set_quota_profile_labels ns q; command (c.namespaces.update ns')

  -- Does the profile select the namespace by its name?
  unfoldable pub names_namespace : QuotaProfile Rq Lr → Namespace → Bool
  names_namespace q ns = elim q.spec.match_name [ none ↦ false | some name ↦ ns.name == name ]

  -- The end of `resolveConflict`, once the existing profile is read.
  unfoldable pub keep_or_replace :
      QuotaProfile Rq Lr → QuotaProfile Rq Lr → Namespace → Action c.State (Unit {0})
  unfolding names_namespace
  keep_or_replace existing q ns =
      if is_new_address
      then label_and_update q ns
      else if names_namespace existing ns
      then label_and_update existing ns
      else if ltb q.spec.precedence existing.spec.precedence
          || ltb q.creation_timestamp existing.creation_timestamp
      then label_and_update existing ns
      else label_and_update q ns

  unfoldable pub resolve_conflict : QuotaProfile Rq Lr → Namespace → Action c.State (Unit {0})
  resolve_conflict q ns =
      let (existing_namespace, existing_name) =
        split_profile_id (value ns.labels quota_profile_label_key) in
      if existing_namespace == q.namespace && existing_name == q.name
      then label_and_update q ns
      else (do
        existing ←
            query (λ s. or_zero zero_profile (c.profiles.get existing_namespace existing_name s))
        keep_or_replace existing q ns)

  -- `make(map[string]string)` where the map is nil.
  abbrev pub with_map : Labels → Labels
  with_map none = some []
  with_map (some m) = some m

  unfoldable pub add_label_to_namespace : QuotaProfile Rq Lr → Namespace → Action c.State (Unit {0})
  add_label_to_namespace q ns =
      let made : Namespace = with_labels ns (with_map ns.labels) in
      if value made.labels quota_profile_label_key == []
      then label_and_update q made
      else resolve_conflict q made

  -- One round of the loop for a selector by name.
  unfoldable pub label_named : QuotaProfile Rq Lr → Text → Namespace → Action c.State (Unit {0})
  label_named q name ns = if ns.name == name then label_and_update q ns else pure tt

  -- One round of the loop for a selector by labels: the selector's first key, and the value there.
  unfoldable pub label_matching :
      QuotaProfile Rq Lr → Entries → Namespace → Action c.State (Unit {0})
  label_matching q selector ns = elim ns.labels [
    | none ↦ pure tt
    | some m ↦ (do
      key ← lift (must (first (c.keys selector)))
      if value ns.labels key == value (some selector) key
          then add_label_to_namespace q ns
          else pure tt)
  ]

  unfoldable pub label_selected :
      QuotaProfile Rq Lr → NamespaceSelector → List Namespace → Action c.State (Unit {0})
  label_selected q selector items = elim selector.match_name [
    | some name ↦ for_each (label_named q name) items
    | none ↦ elim selector.match_labels [
      | some m ↦ for_each (label_matching q m) items
      | none ↦ pure tt
    ]
  ]

  unfoldable pub reconcile_namespace : Text → Text → Action c.State (Unit {0})
  unfolding label_selected
  reconcile_namespace namespace name = do
    items ← query c.namespaces.list_all
    q ← query (c.profiles.get namespace name)
    label_selected q q.spec.namespace_selector items

  -- By the profile label: the labels go where they name this profile.
  unfoldable pub clean_labelled :
      QuotaProfile Rq Lr → Namespace → Option Text → Action c.State (Unit {0})
  clean_labelled q ns none = pure tt
  clean_labelled q ns (some profile_id) =
      let (profile_namespace, profile_name) = split_profile_id profile_id in
      if profile_namespace == q.namespace && profile_name == q.name
      then command (
          c.namespaces.update (
            with_labels ns (
              delete (delete ns.labels quota_profile_label_key)
                quota_profile_last_update_timestamp)))
      else pure tt

  -- One round of the cleanup loop.
  unfoldable pub clean_namespace : QuotaProfile Rq Lr → Namespace → Action c.State (Unit {0})
  unfolding clean_labelled
  clean_namespace q ns = clean_labelled q ns (find ns.labels quota_profile_label_key)

  abbrev pub with_finalizers : QuotaProfile Rq Lr → List Text → QuotaProfile Rq Lr
  with_finalizers q fs = record q { meta = record q.meta { finalizers = fs } }

  unfoldable pub handle_deletion : QuotaProfile Rq Lr → Action c.State (Unit {0})
  handle_deletion q =
      if c.contains_finalizer q.finalizers quota_profile_finalizer
      then (do
        items ← query c.namespaces.list_all
        for_each (clean_namespace q) items
        command (
            c.profiles.update
              (with_finalizers q (c.remove_finalizer q.finalizers quota_profile_finalizer))))
      else pure tt

  -- Add the finalizer if it is not there.
  unfoldable pub ensure_finalizer : QuotaProfile Rq Lr → Action c.State (Unit {0})
  ensure_finalizer q =
      if c.contains_finalizer q.finalizers quota_profile_finalizer
      then pure tt
      else command (
          c.profiles.update
            (with_finalizers q (c.add_finalizer q.finalizers quota_profile_finalizer)))

  unfoldable pub reconcile_found : Text → Text → QuotaProfile Rq Lr → Action c.State (Unit {0})
  reconcile_found namespace name q =
      if is_zero q.deletion_timestamp
      then ensure_finalizer q >> reconcile_namespace namespace name
      else handle_deletion q

  -- `Reconcile`; the `ctrl.Result` is always empty.
  unfoldable pub reconcile : Text → Text → Action c.State (Unit {0})
  unfolding reconcile_found
  reconcile namespace name s = elim (c.profiles.get namespace name s) [
    | err not_found ↦ (done tt, s)
    | err e ↦ (fail e, s)
    | ok q ↦ reconcile_found namespace name q s
  ]
