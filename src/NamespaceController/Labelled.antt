-- ===== src/NamespaceController/Labelled.antt =====
-- `Reconcile` at a namespace that carries the profile label.
use namespace_quota_operator.Common.{
  ℕ, ◌≤◌, ◌≡◌, refl, ◌∙◌, true, false, List, [], ◌∷◌, Option, none, some, is_some, length,
  get_elem?, All, Bool-cases, inl, inr,
}
use namespace_quota_operator.Text.{Text, ◌==◌}
use namespace_quota_operator.Text.Split.{lacks}
use namespace_quota_operator.Text.Decimal.{ℤ, max_int, itoa}
use namespace_quota_operator.Labels.{find}
use namespace_quota_operator.Effect.{
  not_found, Result, ok, err, Outcome, done, fail, panic, continue, must,
}
use namespace_quota_operator.Effect.Frame.{for_each-frame, for_each_from-frame}
use namespace_quota_operator.Api.{Object, QuotaProfile, Namespace, quota_profile_label_key}
use namespace_quota_operator.Client.{Client}
use namespace_quota_operator.Client.Laws.{named, IsConsistent}
use namespace_quota_operator.Ids.{
  get_profile_id, split_profile_id, get_resource_quota_id, get_limit_range_index,
}
use namespace_quota_operator.Ids.Profile.{split-get_profile_id}
use namespace_quota_operator.NamespaceController.{
  at_index, reaches, refresh_limit, sweep_labelled_limit, sweep_limit, create_limit, limits_of_list,
  reconcile_limit_ranges, reconcile_resource_quotas, reconcile_resources, follow_label,
  reconcile_found, reconcile,
}
use namespace_quota_operator.NamespaceController.Sweep.{IsSweepable}
use namespace_quota_operator.NamespaceController.Quotas.{reconcile_resource_quotas-reconciled}
use namespace_quota_operator.NamespaceController.Convergence.{reconcile-quotas-converge}

module _ {Rq Lr View : Type 0} (c : Client Rq Lr) (view : c.State → View)
    (create_frame : (o : Object Lr) (s : c.State) → view (c.limits.create o s).1 ≡ view s)
    (update_frame : (o : Object Lr) (s : c.State) → view (c.limits.update o s).1 ≡ view s)
    (delete_frame : (o : Object Lr) (s : c.State) → view (c.limits.delete o s).1 ≡ view s)
    (q : QuotaProfile Rq Lr) where
  respec-frame :
      (o : Object Lr) (spec : Option Lr) (s : c.State)
      → view
          (continue
            (must spec)
            (λ spec s. (done tt, (c.limits.update (record o { spec = spec }) s).1))
            s).1
        ≡ view s
  respec-frame o none s = refl
  respec-frame o (some spec) s = update_frame (record o { spec = spec }) s

  refresh-frame :
      (o : Object Lr) (index : Outcome ℤ) (s : c.State)
      → view (refresh_limit c q o index s).1 ≡ view s
  unfolding refresh_limit
  refresh-frame o panic s = refl
  refresh-frame o (fail e) s = refl
  refresh-frame o (done index) s =
      elim (Bool-cases (reaches index (length q.spec.resource_quota_specs))) [
        | inl over ↦ rw over (delete_frame o s)
        | inr within ↦ rw within (respec-frame o (at_index q.spec.limit_range_specs index) s)
      ]

  sweep_labelled-frame :
      (o : Object Lr) (l : Option Text) (s : c.State)
      → view (sweep_labelled_limit c q o l s).1 ≡ view s
  unfolding sweep_labelled_limit
  sweep_labelled-frame o none s = refl
  sweep_labelled-frame o (some label) s =
      elim (Bool-cases (label == get_profile_id q.namespace q.name)) [
        | inl own ↦ rw own (refresh-frame o (get_limit_range_index o.name) s)
        | inr other ↦ rw other (delete_frame o s)
      ]

  sweep-frame : (o : Object Lr) (s : c.State) → view (sweep_limit c q o s).1 ≡ view s
  unfolding sweep_limit
  sweep-frame o s = sweep_labelled-frame o (find o.labels quota_profile_label_key) s

  limits_of_list-frame :
      (namespace : Text) (os : List (Object Lr)) (s : c.State)
      → view (limits_of_list c q namespace os s).1 ≡ view s
  unfolding limits_of_list create_limit
  limits_of_list-frame namespace [] s =
      for_each_from-frame view (create_limit c q namespace) (λ i spec s. create_frame _ s) 0
        q.spec.limit_range_specs s
  limits_of_list-frame namespace (o ∷ os) s =
      for_each-frame view (sweep_limit c q) sweep-frame (o ∷ os) s

  listed-frame :
      (namespace : Text) (r : Result (List (Object Lr))) (s : c.State)
      → c.limits.list namespace s ≡ r
      → view (reconcile_limit_ranges c q namespace s).1 ≡ view s
  unfolding reconcile_limit_ranges
  listed-frame namespace (ok os) s e = rw e (limits_of_list-frame namespace os s)
  listed-frame namespace (err x) s e = rw e refl

  reconcile_limit_ranges-frame :
      (namespace : Text) (s : c.State) → view (reconcile_limit_ranges c q namespace s).1 ≡ view s
  reconcile_limit_ranges-frame namespace s =
      listed-frame namespace (c.limits.list namespace s) s refl

module _ {Rq Lr : Type 0} (c : Client Rq Lr) (q : QuotaProfile Rq Lr)
    (request_namespace request_name : Text) (ns : Namespace) (s : c.State)
    (stored : c.namespaces.get request_namespace request_name s ≡ ok ns)
    (live : is_some ns.deletion_timestamp ≡ false)
    (labelled : find ns.labels quota_profile_label_key ≡ some (get_profile_id q.namespace q.name))
    (dotless_namespace : lacks b'.' q.namespace ≡ true)
    (dotless_name : lacks b'.' q.name ≡ true) where
  own_id : split_profile_id (get_profile_id q.namespace q.name) ≡ (q.namespace, q.name)
  own_id = rw (split-get_profile_id q.namespace q.name, dotless_namespace, dotless_name) refl

  pub follow-own :
      c.profiles.get q.namespace q.name s ≡ ok q
      → follow_label c ns.name (get_profile_id q.namespace q.name) s
        ≡ reconcile_resources c q ns.name s
  unfolding follow_label
  follow-own there = rw (own_id, there, follow_label) refl

  follow-gone :
      c.profiles.get q.namespace q.name s ≡ err not_found
      → follow_label c ns.name (get_profile_id q.namespace q.name) s ≡ (done tt, s)
  unfolding follow_label
  follow-gone gone = rw (own_id, gone, follow_label) refl

  pub reconcile-follow :
      reconcile c request_namespace request_name s
      ≡ follow_label c ns.name (get_profile_id q.namespace q.name) s
  unfolding reconcile reconcile_found
  reconcile-follow = rw (stored, live, labelled, reconcile, reconcile_found) refl

  -- Reconciling a namespace that is not being deleted and carries the label of a profile that is
  -- gone, without dots in its namespace and name, ends without error and changes nothing: the
  -- quotas and limit ranges that the operator made for it stay.
  pub reconcile-profile_gone :
      c.profiles.get q.namespace q.name s ≡ err not_found
      → reconcile c request_namespace request_name s ≡ (done tt, s)
  reconcile-profile_gone gone = reconcile-follow ∙ follow-gone gone

  module _ (quotas : c.State → Text → List (Object Rq)) (api : IsConsistent c.quotas quotas)
      (create_frame : (o : Object Lr) (s : c.State) → quotas (c.limits.create o s).1 ≡ quotas s)
      (update_frame : (o : Object Lr) (s : c.State) → quotas (c.limits.update o s).1 ≡ quotas s)
      (delete_frame : (o : Object Lr) (s : c.State) → quotas (c.limits.delete o s).1 ≡ quotas s)
      (sweepable : All (IsSweepable q) (quotas s ns.name)) where
    resources-quotas :
        quotas (reconcile_resources c q ns.name s).1
        ≡ quotas (reconcile_resource_quotas c q ns.name s).1
    unfolding reconcile_resources
    resources-quotas =
        rw ((reconcile_resource_quotas-reconciled c quotas api q ns.name s sweepable).0) (
          reconcile_limit_ranges-frame c quotas create_frame update_frame delete_frame q ns.name
            (reconcile_resource_quotas c q ns.name s).1)

    -- With a consistent API for quotas whose view of them no write of a limit range changes:
    -- reconciling a namespace that is not being deleted and carries the label of a stored profile
    -- without dots in its namespace and name leaves, for each specification of the profile, a quota
    -- named after its index with that specification, whatever becomes of the limit ranges. The
    -- profile has at most `max_int` specifications, and the quotas of the namespace have no
    -- finalizers where they carry a profile label, and a dash in their names where it is the
    -- profile's.
    pub reconcile-labelled :
        c.profiles.get q.namespace q.name s ≡ ok q
        → length q.spec.resource_quota_specs ≤ max_int
        → (i : ℕ) (spec : Rq) → get_elem? q.spec.resource_quota_specs i ≡ some spec
        → (o : Object Rq) × (named
              (get_resource_quota_id q.namespace q.name (itoa i))
              (quotas (reconcile c request_namespace request_name s).1 ns.name)
            ≡ some o)
          × (o.spec ≡ spec)
    reconcile-labelled there fits i spec h =
        rw (reconcile-follow, follow-own there, resources-quotas)
          (reconcile-quotas-converge c quotas api q ns.name s sweepable fits i spec h)
