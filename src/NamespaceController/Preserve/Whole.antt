-- ===== src/NamespaceController/Preserve/Whole.antt =====
-- An invariant that writes of good objects keep is one that `Reconcile` of namespaces keeps, whatever
-- the API answers.
use namespace_quota_operator.Common.{◌≡◌, refl, is_some}
use namespace_quota_operator.Text.{Text}
use namespace_quota_operator.Labels.{find}
use namespace_quota_operator.Effect.{
  not_found, api, invalid_index, wrong_object, refused, duplicate_match_name,
  duplicate_match_labels, list_failed, Result, ok, err, done,
}
use namespace_quota_operator.Effect.Preserve.{
  Preserves, Preserves-lift, Preserves-bind, Preserves-if, Preserves-option,
}
use namespace_quota_operator.Api.{Object, QuotaProfile, Namespace, quota_profile_label_key}
use namespace_quota_operator.Client.{Client}
use namespace_quota_operator.Client.Honest.{IsKept}
use namespace_quota_operator.Ids.{split_profile_id, get_resource_quota_id, get_limit_range_id}
use namespace_quota_operator.NamespaceController.{
  reconcile_resource_quotas, reconcile_resources, delete_managed_resource_quotas, clean_up,
  follow_label, reconcile_found, reconcile,
}
use namespace_quota_operator.NamespaceController.Preserve.{IsManaged}
use namespace_quota_operator.NamespaceController.Preserve.Quotas.{
  reconcile_quotas-Preserves, delete_quotas-Preserves,
}
use namespace_quota_operator.NamespaceController.Preserve.Limits.{
  reconcile_limits-Preserves, delete_limits-Preserves,
}

module _ {Rq Lr : Type 0} (c : Client Rq Lr) (Inv : c.State → Type 0) (GoodRq : Object Rq → Type 0)
    (GoodLr : Object Lr → Type 0) (kept_quotas : IsKept c.quotas Inv GoodRq)
    (kept_limits : IsKept c.limits Inv GoodLr)
    (makes_quotas : IsManaged get_resource_quota_id GoodRq)
    (makes_limits : IsManaged get_limit_range_id GoodLr) where
  resources-Preserves :
      (q : QuotaProfile Rq Lr) (namespace : Text)
      → Preserves Inv (reconcile_resources c q namespace)
  unfolding reconcile_resources
  resources-Preserves q namespace =
      Preserves-bind Inv (reconcile_resource_quotas c q namespace) _
        (reconcile_quotas-Preserves c Inv GoodRq kept_quotas makes_quotas q namespace)
        (λ _. reconcile_limits-Preserves c Inv GoodLr kept_limits makes_limits q namespace)

  clean_up-Preserves : (namespace : Text) → Preserves Inv (clean_up c namespace)
  unfolding clean_up
  clean_up-Preserves namespace =
      Preserves-bind Inv (delete_managed_resource_quotas c namespace) _
        (delete_quotas-Preserves c Inv GoodRq kept_quotas makes_quotas namespace)
        (λ _. delete_limits-Preserves c Inv GoodLr kept_limits makes_limits namespace)

  follow-keeps :
      (namespace id : Text) (s : c.State) (r : Result (QuotaProfile Rq Lr))
      → c.profiles.get (split_profile_id id).0 (split_profile_id id).1 s ≡ r
      → Inv s
      → Inv (follow_label c namespace id s).1
  unfolding follow_label
  follow-keeps namespace id s (ok q) e h =
      rw (e, follow_label) ((resources-Preserves q namespace).at s h)
  follow-keeps namespace id s (err not_found) e h = rw (e, follow_label) h
  follow-keeps namespace id s (err (api n)) e h = rw (e, follow_label) h
  follow-keeps namespace id s (err invalid_index) e h = rw (e, follow_label) h
  follow-keeps namespace id s (err wrong_object) e h = rw (e, follow_label) h
  follow-keeps namespace id s (err (refused t)) e h = rw (e, follow_label) h
  follow-keeps namespace id s (err (duplicate_match_name a b d)) e h = rw (e, follow_label) h
  follow-keeps namespace id s (err (duplicate_match_labels a b)) e h = rw (e, follow_label) h
  follow-keeps namespace id s (err (list_failed x)) e h = rw (e, follow_label) h

  follow-Preserves : (namespace id : Text) → Preserves Inv (follow_label c namespace id)
  follow-Preserves namespace id = record {
    at = λ s h.
        let (a, b) = split_profile_id id in
        follow-keeps namespace id s (c.profiles.get a b s) refl h;
  }

  found-Preserves : (ns : Namespace) → Preserves Inv (reconcile_found c ns)
  unfolding reconcile_found
  found-Preserves ns =
      Preserves-if Inv (is_some ns.deletion_timestamp) (Preserves-lift Inv (done tt)) (
        Preserves-option Inv (find ns.labels quota_profile_label_key) (clean_up-Preserves ns.name)
          (λ id. follow-Preserves ns.name id))

  by_result :
      (namespace name : Text) (s : c.State) (r : Result Namespace)
      → c.namespaces.get namespace name s ≡ r
      → Inv s
      → Inv (reconcile c namespace name s).1
  unfolding reconcile
  by_result namespace name s (ok ns) e h = rw (e, reconcile) ((found-Preserves ns).at s h)
  by_result namespace name s (err not_found) e h = rw (e, reconcile) h
  by_result namespace name s (err (api n)) e h = rw (e, reconcile) h
  by_result namespace name s (err invalid_index) e h = rw (e, reconcile) h
  by_result namespace name s (err wrong_object) e h = rw (e, reconcile) h
  by_result namespace name s (err (refused t)) e h = rw (e, reconcile) h
  by_result namespace name s (err (duplicate_match_name a b d)) e h = rw (e, reconcile) h
  by_result namespace name s (err (duplicate_match_labels a b)) e h = rw (e, reconcile) h
  by_result namespace name s (err (list_failed x)) e h = rw (e, reconcile) h

  pub reconcile-Preserves : (namespace name : Text) → Preserves Inv (reconcile c namespace name)
  reconcile-Preserves namespace name = record {
    at = λ s h. by_result namespace name s (c.namespaces.get namespace name s) refl h;
  }
