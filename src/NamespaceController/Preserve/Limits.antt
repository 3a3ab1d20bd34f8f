-- ===== src/NamespaceController/Preserve/Limits.antt =====
-- An invariant that writes of good limit ranges keep is one that the loops over limit ranges keep,
-- whatever the API answers.
use namespace_quota_operator.Common.{
  ℕ, List, [], ◌∷◌, Option, none, some, is_some, length, All, All-Unit,
}
use namespace_quota_operator.Text.{Text, ◌==◌}
use namespace_quota_operator.Text.Decimal.{ℤ}
use namespace_quota_operator.Labels.{find}
use namespace_quota_operator.Effect.{Outcome, done, fail, panic, must, lift, query, attempt, ◌>>=◌}
use namespace_quota_operator.Effect.Preserve.{
  Preserves, Preserves-lift, Preserves-query, Preserves-read, Preserves-attempt, Preserves-bind,
  Preserves-if, Preserves-test, Preserves-for_each, Preserves-for_each_from,
}
use namespace_quota_operator.Api.{Object, QuotaProfile, quota_profile_label_key}
use namespace_quota_operator.Client.{Client}
use namespace_quota_operator.Client.Honest.{IsKept}
use namespace_quota_operator.Ids.{get_profile_id, get_limit_range_id, get_limit_range_index}
use namespace_quota_operator.NamespaceController.{
  at_index, reaches, with_spec, refresh_limit, sweep_labelled_limit, sweep_limit, create_limit,
  limits_of_list, reconcile_limit_ranges, delete_managed_limit, delete_managed_limit_ranges,
}
use namespace_quota_operator.NamespaceController.Preserve.{IsManaged}

module _ {Rq Lr : Type 0} (c : Client Rq Lr) (Inv : c.State → Type 0) (Good : Object Lr → Type 0)
    (kept : IsKept c.limits Inv Good) (makes : IsManaged get_limit_range_id Good) where
  refresh_limit-Preserves :
      (q : QuotaProfile Rq Lr) (o : Object Lr) (index : Outcome ℤ)
      → Good o
      → Preserves Inv (refresh_limit c q o index)
  unfolding refresh_limit
  refresh_limit-Preserves q o panic g = Preserves-lift Inv panic
  refresh_limit-Preserves q o (fail e) g = Preserves-lift Inv (done tt)
  refresh_limit-Preserves q o (done index) g =
      Preserves-test Inv (reaches index (length q.spec.resource_quota_specs))
        (attempt (c.limits.delete o))
        (lift (must (at_index q.spec.limit_range_specs index)) >>= λ spec.
          attempt (c.limits.update (with_spec o spec)))
        (Preserves-attempt Inv (c.limits.delete o) (kept.deleted o))
        (Preserves-bind Inv (lift (must (at_index q.spec.limit_range_specs index))) _
          (Preserves-lift Inv _)
          (λ spec.
            Preserves-attempt Inv (c.limits.update (with_spec o spec))
              (kept.updated (with_spec o spec) (makes.respec o spec g))))

  sweep_labelled_limit-Preserves :
      (q : QuotaProfile Rq Lr) (o : Object Lr) (l : Option Text)
      → Good o
      → Preserves Inv (sweep_labelled_limit c q o l)
  unfolding sweep_labelled_limit
  sweep_labelled_limit-Preserves q o none g = Preserves-lift Inv (done tt)
  sweep_labelled_limit-Preserves q o (some label) g =
      Preserves-if Inv (label == get_profile_id q.namespace q.name)
        (refresh_limit-Preserves q o (get_limit_range_index o.name) g)
        (Preserves-attempt Inv (c.limits.delete o) (kept.deleted o))

  create_limit-Preserves :
      (q : QuotaProfile Rq Lr) (namespace : Text) (i : ℕ) (spec : Lr)
      → Preserves Inv (create_limit c q namespace i spec)
  unfolding create_limit
  create_limit-Preserves q namespace i spec =
      Preserves-attempt Inv (c.limits.create _)
        (kept.created _ (makes.fresh q.namespace q.name namespace i spec))

  limits_of_list-Preserves :
      (q : QuotaProfile Rq Lr) (namespace : Text) (items : List (Object Lr))
      → All Good items
      → Preserves Inv (limits_of_list c q namespace items)
  unfolding limits_of_list sweep_limit
  limits_of_list-Preserves q namespace [] _ =
      Preserves-for_each_from Inv (create_limit c q namespace) (create_limit-Preserves q namespace)
        0 q.spec.limit_range_specs
  limits_of_list-Preserves q namespace (x ∷ rest) good =
      Preserves-for_each Inv Good (sweep_limit c q)
        (λ o g. sweep_labelled_limit-Preserves q o (find o.labels quota_profile_label_key) g)
        (x ∷ rest) good

  pub reconcile_limits-Preserves :
      (q : QuotaProfile Rq Lr) (namespace : Text)
      → Preserves Inv (reconcile_limit_ranges c q namespace)
  unfolding reconcile_limit_ranges
  reconcile_limits-Preserves q namespace =
      Preserves-read Inv (All Good) (c.limits.list namespace) _ (kept.listed namespace)
        (λ items good. limits_of_list-Preserves q namespace items good)

  delete_limit-Preserves : (o : Object Lr) → Preserves Inv (delete_managed_limit c o)
  unfolding delete_managed_limit
  delete_limit-Preserves o =
      Preserves-if Inv (is_some o.deletion_timestamp) (Preserves-lift Inv (done tt)) (
        Preserves-if Inv (is_some (find o.labels quota_profile_label_key))
          (Preserves-attempt Inv (c.limits.delete o) (kept.deleted o))
          (Preserves-lift Inv (done tt)))

  pub delete_limits-Preserves :
      (namespace : Text) → Preserves Inv (delete_managed_limit_ranges c namespace)
  unfolding delete_managed_limit_ranges
  delete_limits-Preserves namespace =
      Preserves-bind Inv (query (c.limits.list namespace)) _
        (Preserves-query Inv (c.limits.list namespace))
        (λ items.
          Preserves-for_each Inv (λ _. Unit) (delete_managed_limit c)
            (λ o _. delete_limit-Preserves o) items (All-Unit items))
