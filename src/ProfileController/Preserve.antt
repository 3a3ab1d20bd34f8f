-- ===== src/ProfileController/Preserve.antt =====
-- An invariant that no update of a namespace or of a profile breaks, nor the clock, is one that
-- `Reconcile` of profiles keeps.
use namespace_quota_operator.Common.{◌≡◌, refl, List, ◌∷◌, ◌++◌, Option, none, some, All-Unit}
use namespace_quota_operator.Text.{Text, ◌==◌}
use namespace_quota_operator.Text.Decimal.{itoa}
use namespace_quota_operator.Labels.{Entries, find, value, assign}
use namespace_quota_operator.Effect.{
  not_found, api, invalid_index, wrong_object, refused, duplicate_match_name,
  duplicate_match_labels, list_failed, Result, ok, err, done, must, lift, query,
}
use namespace_quota_operator.Effect.Preserve.{
  Preserves, Keeps, Preserves-lift, Preserves-query, Preserves-command, Preserves-bind,
  Preserves-if, Preserves-option, Preserves-for_each,
}
use namespace_quota_operator.Api.{
  NamespaceSelector, QuotaProfile, Namespace, quota_profile_label_key,
  quota_profile_last_update_timestamp,
}
use namespace_quota_operator.Client.{Client}
use namespace_quota_operator.ProfileController.{
  first, with_labels, with_finalizers, names_namespace, unix_micro, set_quota_profile_labels,
  label_and_update, keep_or_replace, resolve_conflict, add_label_to_namespace, label_named,
  label_matching, label_selected, reconcile_namespace, clean_labelled, clean_namespace,
  handle_deletion, ensure_finalizer, reconcile_found, reconcile,
}

clock-Preserves :
    {Rq Lr : Type 0} (c : Client Rq Lr) (Inv : c.State → Type 0)
    → Keeps Inv c.now
    → Preserves Inv (unix_micro c)
clock-Preserves c Inv clock = record { at = clock }

-- Setting the labels reads the clock alone.
pub set_labels-Preserves :
    {Rq Lr : Type 0} (c : Client Rq Lr) (Inv : c.State → Type 0)
    → Keeps Inv c.now
    → (ns : Namespace) (q : QuotaProfile Rq Lr) → Preserves Inv (set_quota_profile_labels c ns q)
unfolding set_quota_profile_labels
set_labels-Preserves c Inv clock ns q =
    Preserves-bind Inv
      (lift (must (assign ns.labels quota_profile_label_key (q.namespace ++ b'.' ∷ q.name)))) _
      (Preserves-lift Inv _)
      (λ labels. Preserves-bind Inv (unix_micro c) _ (clock-Preserves c Inv clock) (λ stamp.
        Preserves-bind Inv
          (lift (must (assign labels quota_profile_last_update_timestamp (itoa stamp)))) _
          (Preserves-lift Inv _) (λ labels'. Preserves-lift Inv (done (with_labels ns labels')))))

module _ {Rq Lr : Type 0} (c : Client Rq Lr) (Inv : c.State → Type 0) (clock : Keeps Inv c.now)
    (namespaces : (ns : Namespace) → Keeps Inv (c.namespaces.update ns)) where
  label-Preserves :
      (q : QuotaProfile Rq Lr) (ns : Namespace) → Preserves Inv (label_and_update c q ns)
  unfolding label_and_update
  label-Preserves q ns =
      Preserves-bind Inv _ _ (set_labels-Preserves c Inv clock ns q)
        (λ ns'. Preserves-command Inv _ (namespaces ns'))

  keep_or_replace-Preserves :
      (existing q : QuotaProfile Rq Lr) (ns : Namespace)
      → Preserves Inv (keep_or_replace c existing q ns)
  unfolding keep_or_replace
  keep_or_replace-Preserves existing q ns =
      Preserves-if Inv (names_namespace c existing ns) (label-Preserves existing ns)
        (Preserves-if Inv _ (label-Preserves existing ns) (label-Preserves q ns))

  resolve_conflict-Preserves :
      (q : QuotaProfile Rq Lr) (ns : Namespace) → Preserves Inv (resolve_conflict c q ns)
  unfolding resolve_conflict
  resolve_conflict-Preserves q ns = Preserves-if Inv _ (label-Preserves q ns) (
      Preserves-bind Inv _ _ (Preserves-query Inv _)
        (λ existing. keep_or_replace-Preserves existing q ns))

  add_label-Preserves :
      (q : QuotaProfile Rq Lr) (ns : Namespace) → Preserves Inv (add_label_to_namespace c q ns)
  unfolding add_label_to_namespace
  add_label-Preserves q ns =
      Preserves-if Inv _ (label-Preserves q _) (resolve_conflict-Preserves q _)

  label_named-Preserves :
      (q : QuotaProfile Rq Lr) (name : Text) (ns : Namespace)
      → Preserves Inv (label_named c q name ns)
  unfolding label_named
  label_named-Preserves q name ns =
      Preserves-if Inv _ (label-Preserves q ns) (Preserves-lift Inv (done tt))

  label_matching-Preserves :
      (q : QuotaProfile Rq Lr) (selector : Entries) (ns : Namespace)
      → Preserves Inv (label_matching c q selector ns)
  unfolding label_matching
  label_matching-Preserves q selector ns =
      Preserves-option Inv ns.labels (Preserves-lift Inv (done tt)) (λ m.
        Preserves-bind Inv (lift (must (first (c.keys selector)))) _ (Preserves-lift Inv _) (λ key.
          Preserves-if Inv (value ns.labels key == value (some selector) key)
            (add_label-Preserves q ns) (Preserves-lift Inv (done tt))))

  label_selected-Preserves :
      (q : QuotaProfile Rq Lr) (selector : NamespaceSelector) (items : List Namespace)
      → Preserves Inv (label_selected c q selector items)
  unfolding label_selected
  label_selected-Preserves q selector items =
      Preserves-option Inv selector.match_name
        (Preserves-option Inv selector.match_labels (Preserves-lift Inv (done tt)) (λ m.
          Preserves-for_each Inv (λ _. Unit) (label_matching c q m)
            (λ ns _. label_matching-Preserves q m ns) items (All-Unit items)))
        (λ name.
          Preserves-for_each Inv (λ _. Unit) (label_named c q name)
            (λ ns _. label_named-Preserves q name ns) items (All-Unit items))

  pub reconcile_namespace-Preserves :
      (namespace name : Text) → Preserves Inv (reconcile_namespace c namespace name)
  unfolding reconcile_namespace
  reconcile_namespace-Preserves namespace name =
      Preserves-bind Inv (query c.namespaces.list_all) _ (Preserves-query Inv c.namespaces.list_all)
        (λ items.
          Preserves-bind Inv (query (c.profiles.get namespace name)) _
            (Preserves-query Inv (c.profiles.get namespace name))
            (λ q. label_selected-Preserves q q.spec.namespace_selector items))

  clean_labelled-Preserves :
      (q : QuotaProfile Rq Lr) (ns : Namespace) (l : Option Text)
      → Preserves Inv (clean_labelled c q ns l)
  unfolding clean_labelled
  clean_labelled-Preserves q ns none = Preserves-lift Inv (done tt)
  clean_labelled-Preserves q ns (some id) =
      Preserves-if Inv _ (Preserves-command Inv _ (namespaces _)) (Preserves-lift Inv (done tt))

  module _ (q : QuotaProfile Rq Lr)
      (profiles : (fs : List Text) → Keeps Inv (c.profiles.update (with_finalizers c q fs))) where
    handle_deletion-Preserves : Preserves Inv (handle_deletion c q)
    unfolding handle_deletion clean_namespace
    handle_deletion-Preserves =
        Preserves-if Inv _
          (Preserves-bind Inv (query c.namespaces.list_all) _
            (Preserves-query Inv c.namespaces.list_all)
            (λ items.
              Preserves-bind Inv _ _
                (Preserves-for_each Inv (λ _. Unit) (clean_namespace c q)
                  (λ ns _. clean_labelled-Preserves q ns (find ns.labels quota_profile_label_key))
                  items (All-Unit items))
                (λ _. Preserves-command Inv _ (profiles _))))
          (Preserves-lift Inv (done tt))

    pub found-Preserves :
        (namespace name : Text) → Preserves Inv (reconcile_found c namespace name q)
    unfolding reconcile_found ensure_finalizer
    found-Preserves namespace name =
        Preserves-if Inv _
          (Preserves-bind Inv _ _
            (Preserves-if Inv _ (Preserves-lift Inv (done tt))
              (Preserves-command Inv _ (profiles _)))
            (λ _. reconcile_namespace-Preserves namespace name))
          handle_deletion-Preserves

-- What holds of the state, and after the reconciliation of a profile that is found, holds after
-- `Reconcile`.
module _ {Rq Lr : Type 0} (c : Client Rq Lr) (P : c.State → Type 0) (namespace name : Text)
    (s : c.State) (h : P s) where
  by_result :
      (r : Result (QuotaProfile Rq Lr))
      → c.profiles.get namespace name s ≡ r
      → ((q : QuotaProfile Rq Lr) → r ≡ ok q → P (reconcile_found c namespace name q s).1)
      → P (reconcile c namespace name s).1
  unfolding reconcile
  by_result (ok q) e k = rw (e, reconcile) (k q refl)
  by_result (err not_found) e k = rw (e, reconcile) h
  by_result (err (api n)) e k = rw (e, reconcile) h
  by_result (err invalid_index) e k = rw (e, reconcile) h
  by_result (err wrong_object) e k = rw (e, reconcile) h
  by_result (err (refused t)) e k = rw (e, reconcile) h
  by_result (err (duplicate_match_name a b d)) e k = rw (e, reconcile) h
  by_result (err (duplicate_match_labels a b)) e k = rw (e, reconcile) h
  by_result (err (list_failed x)) e k = rw (e, reconcile) h

  pub reconcile-found :
      ((q : QuotaProfile Rq Lr)
        → c.profiles.get namespace name s ≡ ok q
        → P (reconcile_found c namespace name q s).1)
      → P (reconcile c namespace name s).1
  reconcile-found k = by_result (c.profiles.get namespace name s) refl k

-- An invariant that no update of a profile breaks.
pub reconcile-Preserves :
    {Rq Lr : Type 0} (c : Client Rq Lr) (Inv : c.State → Type 0)
    → Keeps Inv c.now
    → ((ns : Namespace) → Keeps Inv (c.namespaces.update ns))
    → ((q : QuotaProfile Rq Lr) → Keeps Inv (c.profiles.update q))
    → (namespace name : Text) → Preserves Inv (reconcile c namespace name)
reconcile-Preserves c Inv clock namespaces profiles namespace name = record {
  at = λ s h. reconcile-found c Inv namespace name s h (λ q _.
      (found-Preserves c Inv clock namespaces q (λ fs. profiles (with_finalizers c q fs)) namespace
          name).at
        s h);
}
