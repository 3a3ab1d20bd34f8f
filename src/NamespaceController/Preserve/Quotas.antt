-- ===== src/NamespaceController/Preserve/Quotas.antt =====
-- An invariant that writes of good quotas keep is one that the loops over quotas keep, whatever the
-- API answers.
use namespace_quota_operator.Common.{
  ℕ, ◌≡◌, refl, Option, none, some, is_some, length, All, All-Unit,
}
use namespace_quota_operator.Text.{Text, ◌==◌}
use namespace_quota_operator.Text.Decimal.{ℤ, itoa}
use namespace_quota_operator.Labels.{find}
use namespace_quota_operator.Effect.{
  not_found, api, invalid_index, wrong_object, refused, duplicate_match_name,
  duplicate_match_labels, list_failed, Result, ok, err, Outcome, done, fail, panic, must, lift,
  query, attempt, ◌>>=◌, for_each,
}
use namespace_quota_operator.Effect.Preserve.{
  Preserves, Preserves-lift, Preserves-query, Preserves-read, Preserves-attempt, Preserves-bind,
  Preserves-if, Preserves-test, Preserves-for_each, Preserves-for_each_from,
}
use namespace_quota_operator.Api.{Object, QuotaProfile, quota_profile_label_key}
use namespace_quota_operator.Client.{Client}
use namespace_quota_operator.Client.Honest.{IsKept}
use namespace_quota_operator.Ids.{get_profile_id, get_resource_quota_id, get_resource_quota_index}
use namespace_quota_operator.NamespaceController.{
  at_index, reaches, with_spec, refresh_quota, sweep_labelled_quota, sweep_quota, fill_found,
  fill_quota, reconcile_resource_quotas, delete_managed_quota, delete_managed_resource_quotas,
}
use namespace_quota_operator.NamespaceController.Preserve.{IsManaged}

module _ {Rq Lr : Type 0} (c : Client Rq Lr) (Inv : c.State → Type 0) (Good : Object Rq → Type 0)
    (kept : IsKept c.quotas Inv Good) (makes : IsManaged get_resource_quota_id Good) where
  refresh_quota-Preserves :
      (q : QuotaProfile Rq Lr) (o : Object Rq) (index : Outcome ℤ)
      → Good o
      → Preserves Inv (refresh_quota c q o index)
  unfolding refresh_quota
  refresh_quota-Preserves q o panic g = Preserves-lift Inv panic
  refresh_quota-Preserves q o (fail e) g = Preserves-lift Inv (done tt)
  refresh_quota-Preserves q o (done index) g =
      Preserves-test Inv (reaches index (length q.spec.resource_quota_specs))
        (attempt (c.quotas.delete o))
        (lift (must (at_index q.spec.resource_quota_specs index)) >>= λ spec.
          attempt (c.quotas.update (with_spec o spec)))
        (Preserves-attempt Inv (c.quotas.delete o) (kept.deleted o))
        (Preserves-bind Inv (lift (must (at_index q.spec.resource_quota_specs index))) _
          (Preserves-lift Inv _)
          (λ spec.
            Preserves-attempt Inv (c.quotas.update (with_spec o spec))
              (kept.updated (with_spec o spec) (makes.respec o spec g))))

  sweep_labelled_quota-Preserves :
      (q : QuotaProfile Rq Lr) (o : Object Rq) (l : Option Text)
      → Good o
      → Preserves Inv (sweep_labelled_quota c q o l)
  unfolding sweep_labelled_quota
  sweep_labelled_quota-Preserves q o none g = Preserves-lift Inv (done tt)
  sweep_labelled_quota-Preserves q o (some label) g =
      Preserves-if Inv (label == get_profile_id q.namespace q.name)
        (refresh_quota-Preserves q o (get_resource_quota_index o.name) g)
        (Preserves-attempt Inv (c.quotas.delete o) (kept.deleted o))

  fill_found-keeps :
      (q : QuotaProfile Rq Lr) (namespace : Text) (i : ℕ) (spec : Rq) (r : Result (Object Rq))
      → ((o : Object Rq) → r ≡ ok o → Good o)
      → Preserves Inv
          (fill_found c q namespace (get_resource_quota_id q.namespace q.name (itoa i)) spec r)
  unfolding fill_found
  fill_found-keeps q namespace i spec (ok o) g =
      Preserves-attempt Inv (c.quotas.update (with_spec o spec))
        (kept.updated (with_spec o spec) (makes.respec o spec (g o refl)))
  fill_found-keeps q namespace i spec (err not_found) g =
      Preserves-attempt Inv (c.quotas.create _)
        (kept.created _ (makes.fresh q.namespace q.name namespace i spec))
  fill_found-keeps q namespace i spec (err (api n)) g = Preserves-lift Inv (done tt)
  fill_found-keeps q namespace i spec (err invalid_index) g = Preserves-lift Inv (done tt)
  fill_found-keeps q namespace i spec (err wrong_object) g = Preserves-lift Inv (done tt)
  fill_found-keeps q namespace i spec (err (refused t)) g = Preserves-lift Inv (done tt)
  fill_found-keeps q namespace i spec (err (duplicate_match_name a b d)) g =
      Preserves-lift Inv (done tt)
  fill_found-keeps q namespace i spec (err (duplicate_match_labels a b)) g =
      Preserves-lift Inv (done tt)
  fill_found-keeps q namespace i spec (err (list_failed e)) g = Preserves-lift Inv (done tt)

  fill_quota-Preserves :
      (q : QuotaProfile Rq Lr) (namespace : Text) (i : ℕ) (spec : Rq)
      → Preserves Inv (fill_quota c q namespace i spec)
  unfolding fill_quota
  fill_quota-Preserves q namespace i spec = record {
    at = λ s h.
        let name = get_resource_quota_id q.namespace q.name (itoa i) in
        (fill_found-keeps q namespace i spec (c.quotas.get namespace name s)
            (λ o e. kept.got namespace name s o h e)).at
          s h;
  }

  pub reconcile_quotas-Preserves :
      (q : QuotaProfile Rq Lr) (namespace : Text)
      → Preserves Inv (reconcile_resource_quotas c q namespace)
  unfolding reconcile_resource_quotas sweep_quota
  reconcile_quotas-Preserves q namespace =
      Preserves-read Inv (All Good) (c.quotas.list namespace) _ (kept.listed namespace)
        (λ items good.
          Preserves-bind Inv (for_each (sweep_quota c q) items) _
            (Preserves-for_each Inv Good (sweep_quota c q)
              (λ o g. sweep_labelled_quota-Preserves q o (find o.labels quota_profile_label_key) g)
              items good)
            (λ _.
              Preserves-for_each_from Inv (fill_quota c q namespace)
                (fill_quota-Preserves q namespace) 0 q.spec.resource_quota_specs))

  delete_quota-Preserves : (o : Object Rq) → Preserves Inv (delete_managed_quota c o)
  unfolding delete_managed_quota
  delete_quota-Preserves o =
      Preserves-if Inv (is_some o.deletion_timestamp) (Preserves-lift Inv (done tt)) (
        Preserves-if Inv (is_some (find o.labels quota_profile_label_key))
          (Preserves-attempt Inv (c.quotas.delete o) (kept.deleted o))
          (Preserves-lift Inv (done tt)))

  pub delete_quotas-Preserves :
      (namespace : Text) → Preserves Inv (delete_managed_resource_quotas c namespace)
  unfolding delete_managed_resource_quotas
  delete_quotas-Preserves namespace =
      Preserves-bind Inv (query (c.quotas.list namespace)) _
        (Preserves-query Inv (c.quotas.list namespace))
        (λ items.
          Preserves-for_each Inv (λ _. Unit) (delete_managed_quota c)
            (λ o _. delete_quota-Preserves o) items (All-Unit items))
