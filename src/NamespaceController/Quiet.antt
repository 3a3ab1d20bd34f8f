-- ===== src/NamespaceController/Quiet.antt =====
-- Which errors `Reconcile` of namespaces returns: those of its reads. Indices that cannot be read and
-- errors of writes are logged and dropped.
use namespace_quota_operator.Common.{
  ℕ, ◌≡◌, ◌≢◌, refl, List, [], ◌∷◌, Option, none, some, is_some, length,
}
use namespace_quota_operator.Text.{Text, ◌==◌}
use namespace_quota_operator.Text.Decimal.{ℤ}
use namespace_quota_operator.Labels.{find}
use namespace_quota_operator.Effect.{
  Error, not_found, api, invalid_index, wrong_object, refused, duplicate_match_name,
  duplicate_match_labels, list_failed, Result, ok, err, Outcome, done, fail, panic, must, lift,
  query, attempt, ◌>>=◌, for_each,
}
use namespace_quota_operator.Effect.Quiet.{
  Quiet, Reads, Quiet-pure, Quiet-must, Quiet-panic, Quiet-attempt, Quiet-query, Quiet-bind,
  Quiet-if, Quiet-test, Quiet-option, Quiet-for_each, Quiet-for_each_from,
}
use namespace_quota_operator.Api.{Object, QuotaProfile, Namespace, quota_profile_label_key}
use namespace_quota_operator.Client.{Client}
use namespace_quota_operator.Ids.{
  get_profile_id, split_profile_id, get_resource_quota_index, get_limit_range_index,
}
use namespace_quota_operator.NamespaceController.{
  at_index, reaches, with_spec, refresh_quota, sweep_labelled_quota, sweep_quota, fill_found,
  fill_quota, reconcile_resource_quotas, refresh_limit, sweep_labelled_limit, sweep_limit,
  create_limit, limits_of_list, reconcile_limit_ranges, reconcile_resources, delete_managed_quota,
  delete_managed_resource_quotas, delete_managed_limit, delete_managed_limit_ranges, clean_up,
  follow_label, reconcile_found, reconcile,
}

module _ {Rq Lr : Type 0} (c : Client Rq Lr) where
  refresh_quota-Quiet :
      (q : QuotaProfile Rq Lr) (o : Object Rq) (index : Outcome ℤ)
      → Quiet (refresh_quota c q o index)
  unfolding refresh_quota
  refresh_quota-Quiet q o panic = Quiet-panic
  refresh_quota-Quiet q o (fail e) = Quiet-pure tt
  refresh_quota-Quiet q o (done index) =
      Quiet-test (reaches index (length q.spec.resource_quota_specs)) (attempt (c.quotas.delete o))
        (lift (must (at_index q.spec.resource_quota_specs index)) >>= λ spec.
          attempt (c.quotas.update (with_spec o spec)))
        (Quiet-attempt (c.quotas.delete o))
        (Quiet-bind (lift (must (at_index q.spec.resource_quota_specs index))) _
          (Quiet-must (at_index q.spec.resource_quota_specs index))
          (λ spec. Quiet-attempt (c.quotas.update (with_spec o spec))))

  sweep_labelled_quota-Quiet :
      (q : QuotaProfile Rq Lr) (o : Object Rq) (l : Option Text)
      → Quiet (sweep_labelled_quota c q o l)
  unfolding sweep_labelled_quota
  sweep_labelled_quota-Quiet q o none = Quiet-pure tt
  sweep_labelled_quota-Quiet q o (some label) =
      Quiet-if (label == get_profile_id q.namespace q.name)
        (refresh_quota-Quiet q o (get_resource_quota_index o.name))
        (Quiet-attempt (c.quotas.delete o))

  fill_found-Quiet :
      (q : QuotaProfile Rq Lr) (namespace name : Text) (spec : Rq) (r : Result (Object Rq))
      → Quiet (fill_found c q namespace name spec r)
  unfolding fill_found
  fill_found-Quiet q namespace name spec (ok o) = Quiet-attempt (c.quotas.update (with_spec o spec))
  fill_found-Quiet q namespace name spec (err not_found) = Quiet-attempt (c.quotas.create _)
  fill_found-Quiet q namespace name spec (err (api n)) = Quiet-pure tt
  fill_found-Quiet q namespace name spec (err invalid_index) = Quiet-pure tt
  fill_found-Quiet q namespace name spec (err wrong_object) = Quiet-pure tt
  fill_found-Quiet q namespace name spec (err (refused t)) = Quiet-pure tt
  fill_found-Quiet q namespace name spec (err (duplicate_match_name a b d)) = Quiet-pure tt
  fill_found-Quiet q namespace name spec (err (duplicate_match_labels a b)) = Quiet-pure tt
  fill_found-Quiet q namespace name spec (err (list_failed e)) = Quiet-pure tt

  fill_quota-Quiet :
      (q : QuotaProfile Rq Lr) (namespace : Text) (i : ℕ) (spec : Rq)
      → Quiet (fill_quota c q namespace i spec)
  unfolding fill_quota
  fill_quota-Quiet q namespace i spec = record {
    at = λ s. (fill_found-Quiet q namespace _ spec _).at s;
  }

  refresh_limit-Quiet :
      (q : QuotaProfile Rq Lr) (o : Object Lr) (index : Outcome ℤ)
      → Quiet (refresh_limit c q o index)
  unfolding refresh_limit
  refresh_limit-Quiet q o panic = Quiet-panic
  refresh_limit-Quiet q o (fail e) = Quiet-pure tt
  refresh_limit-Quiet q o (done index) =
      Quiet-test (reaches index (length q.spec.resource_quota_specs)) (attempt (c.limits.delete o))
        (lift (must (at_index q.spec.limit_range_specs index)) >>= λ spec.
          attempt (c.limits.update (with_spec o spec)))
        (Quiet-attempt (c.limits.delete o))
        (Quiet-bind (lift (must (at_index q.spec.limit_range_specs index))) _
          (Quiet-must (at_index q.spec.limit_range_specs index))
          (λ spec. Quiet-attempt (c.limits.update (with_spec o spec))))

  sweep_labelled_limit-Quiet :
      (q : QuotaProfile Rq Lr) (o : Object Lr) (l : Option Text)
      → Quiet (sweep_labelled_limit c q o l)
  unfolding sweep_labelled_limit
  sweep_labelled_limit-Quiet q o none = Quiet-pure tt
  sweep_labelled_limit-Quiet q o (some label) =
      Quiet-if (label == get_profile_id q.namespace q.name)
        (refresh_limit-Quiet q o (get_limit_range_index o.name)) (Quiet-attempt (c.limits.delete o))

  delete_quota-Quiet : (o : Object Rq) → Quiet (delete_managed_quota c o)
  unfolding delete_managed_quota
  delete_quota-Quiet o = Quiet-if (is_some o.deletion_timestamp) (Quiet-pure tt) (
      Quiet-if (is_some (find o.labels quota_profile_label_key)) (Quiet-attempt (c.quotas.delete o))
        (Quiet-pure tt))

  delete_limit-Quiet : (o : Object Lr) → Quiet (delete_managed_limit c o)
  unfolding delete_managed_limit
  delete_limit-Quiet o = Quiet-if (is_some o.deletion_timestamp) (Quiet-pure tt) (
      Quiet-if (is_some (find o.labels quota_profile_label_key)) (Quiet-attempt (c.limits.delete o))
        (Quiet-pure tt))

  limits_of_list-Quiet :
      (q : QuotaProfile Rq Lr) (namespace : Text) (items : List (Object Lr))
      → Quiet (limits_of_list c q namespace items)
  unfolding limits_of_list create_limit sweep_limit
  limits_of_list-Quiet q namespace [] =
      Quiet-for_each_from (create_limit c q namespace) (λ i spec. Quiet-attempt (c.limits.create _))
        0 q.spec.limit_range_specs
  limits_of_list-Quiet q namespace (x ∷ rest) =
      Quiet-for_each (sweep_limit c q)
        (λ o. sweep_labelled_limit-Quiet q o (find o.labels quota_profile_label_key)) (x ∷ rest)

  -- Every read succeeds, but for a `Get` of an object that is not there.
  pub record ReadsWell : Type 0 where
    pub namespace_get :
        (a b : Text) (s : c.State) (e : Error) → c.namespaces.get a b s ≡ err e → e ≡ not_found
    pub profile_get :
        (a b : Text) (s : c.State) (e : Error) → c.profiles.get a b s ≡ err e → e ≡ not_found
    pub quota_list : (namespace : Text) → Reads (c.quotas.list namespace)
    pub limit_list : (namespace : Text) → Reads (c.limits.list namespace)

  module _ (reads : ReadsWell) where
    resources-Quiet :
        (q : QuotaProfile Rq Lr) (namespace : Text) → Quiet (reconcile_resources c q namespace)
    unfolding reconcile_resources reconcile_resource_quotas reconcile_limit_ranges sweep_quota
    resources-Quiet q namespace =
        Quiet-bind (reconcile_resource_quotas c q namespace) _
          (Quiet-bind (query (c.quotas.list namespace)) _
            (Quiet-query (c.quotas.list namespace) (reads.quota_list namespace))
            (λ items.
              Quiet-bind (for_each (sweep_quota c q) items) _
                (Quiet-for_each (sweep_quota c q)
                  (λ o. sweep_labelled_quota-Quiet q o (find o.labels quota_profile_label_key))
                  items)
                (λ _.
                  Quiet-for_each_from (fill_quota c q namespace) (fill_quota-Quiet q namespace) 0
                    q.spec.resource_quota_specs)))
          (λ _.
            Quiet-bind (query (c.limits.list namespace)) _
              (Quiet-query (c.limits.list namespace) (reads.limit_list namespace))
              (limits_of_list-Quiet q namespace))

    clean_up-Quiet : (namespace : Text) → Quiet (clean_up c namespace)
    unfolding clean_up delete_managed_resource_quotas delete_managed_limit_ranges
    clean_up-Quiet namespace =
        Quiet-bind (delete_managed_resource_quotas c namespace) _
          (Quiet-bind (query (c.quotas.list namespace)) _
            (Quiet-query (c.quotas.list namespace) (reads.quota_list namespace))
            (Quiet-for_each (delete_managed_quota c) delete_quota-Quiet))
          (λ _.
            Quiet-bind (query (c.limits.list namespace)) _
              (Quiet-query (c.limits.list namespace) (reads.limit_list namespace))
              (Quiet-for_each (delete_managed_limit c) delete_limit-Quiet))

    follow_by :
        (namespace id : Text) (s : c.State) (r : Result (QuotaProfile Rq Lr))
        → c.profiles.get (split_profile_id id).0 (split_profile_id id).1 s ≡ r
        → (e : Error) → (follow_label c namespace id s).0 ≢ fail e
    unfolding follow_label
    follow_by namespace id s (ok q) h e =
        rw (h, follow_label) ((resources-Quiet q namespace).at s e)
    follow_by namespace id s (err x) h e =
        rw (h, reads.profile_get _ _ s x h, follow_label) (λ k. cc)

    follow-Quiet : (namespace id : Text) → Quiet (follow_label c namespace id)
    follow-Quiet namespace id = record { at = λ s. follow_by namespace id s _ refl }

    found-Quiet : (ns : Namespace) → Quiet (reconcile_found c ns)
    unfolding reconcile_found
    found-Quiet ns = Quiet-if (is_some ns.deletion_timestamp) (Quiet-pure tt) (
        Quiet-option (find ns.labels quota_profile_label_key) (clean_up-Quiet ns.name)
          (follow-Quiet ns.name))

    -- If every list of quotas and limit ranges succeeds, and a look-up of a namespace or profile
    -- fails at most because there is none, reconciling a namespace returns no error, whatever
    -- becomes of its writes.
    pub reconcile-Quiet :
        (namespace name : Text) (s : c.State) (e : Error)
        → (reconcile c namespace name s).0 ≢ fail e
    unfolding reconcile
    reconcile-Quiet namespace name s e = by_result (c.namespaces.get namespace name s) refl
      where
        by_result :
            (r : Result Namespace)
            → c.namespaces.get namespace name s ≡ r
            → (reconcile c namespace name s).0 ≢ fail e
        by_result (ok ns) h = rw (h, reconcile) ((found-Quiet ns).at s e)
        by_result (err x) h = rw (h, reads.namespace_get namespace name s x h, reconcile) (λ k. cc)
