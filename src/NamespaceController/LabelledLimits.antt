-- ===== src/NamespaceController/LabelledLimits.antt =====
-- `Reconcile` at a namespace that carries the profile label and holds no limit range.
use namespace_quota_operator.Common.{
  ℕ, ◌≤◌, ◌≡◌, true, false, List, [], some, is_some, length, get_elem?, All,
}
use namespace_quota_operator.Text.{Text}
use namespace_quota_operator.Text.Split.{lacks}
use namespace_quota_operator.Text.Decimal.{max_int, itoa}
use namespace_quota_operator.Labels.{find}
use namespace_quota_operator.Effect.{ok}
use namespace_quota_operator.Api.{Object, QuotaProfile, Namespace, quota_profile_label_key}
use namespace_quota_operator.Client.{Client}
use namespace_quota_operator.Client.Laws.{named, IsConsistent}
use namespace_quota_operator.Client.Honest.{IsApart, IsApart-IsKept}
use namespace_quota_operator.Ids.{get_profile_id, get_limit_range_id}
use namespace_quota_operator.NamespaceController.{
  reconcile_resource_quotas, reconcile_resources, reconcile,
}
use namespace_quota_operator.NamespaceController.Sweep.{IsSweepable}
use namespace_quota_operator.NamespaceController.Quotas.{reconcile_resource_quotas-reconciled}
use namespace_quota_operator.NamespaceController.LimitCreate.{created}
use namespace_quota_operator.NamespaceController.Limits.{reconcile-limits-create}
use namespace_quota_operator.NamespaceController.Labelled.{follow-own, reconcile-follow}
use namespace_quota_operator.NamespaceController.Preserve.Quotas.{reconcile_quotas-Preserves}

module _ {Rq Lr : Type 0} (c : Client Rq Lr) (q : QuotaProfile Rq Lr)
    (quotas : c.State → Text → List (Object Rq)) (limits : c.State → Text → List (Object Lr))
    (quotas_api : IsConsistent c.quotas quotas) (limits_api : IsConsistent c.limits limits)
    (apart : IsApart c.quotas limits) (namespace : Text) (s : c.State)
    (sweepable : All (IsSweepable q) (quotas s namespace)) (empty : limits s namespace ≡ []) where
  quotas-vacant : limits (reconcile_resource_quotas c q namespace s).1 namespace ≡ []
  quotas-vacant =
      (reconcile_quotas-Preserves c (λ s'. limits s' namespace ≡ []) (λ _. Unit)
          (IsApart-IsKept c.quotas limits apart (λ v. v namespace ≡ []))
          (record { fresh = λ a b namespace i spec. tt; respec = λ o spec _. tt }) q namespace).at
        s empty

  resources-limits :
      length q.spec.limit_range_specs ≤ max_int
      → (i : ℕ) (spec : Lr) → get_elem? q.spec.limit_range_specs i ≡ some spec
      → named
          (get_limit_range_id q.namespace q.name (itoa i))
          (limits (reconcile_resources c q namespace s).1 namespace)
        ≡ some (created q namespace i spec)
  unfolding reconcile_resources
  resources-limits fits i spec at =
      rw ((reconcile_resource_quotas-reconciled c quotas quotas_api q namespace s sweepable).0) (
        (reconcile-limits-create c limits limits_api q namespace
          (reconcile_resource_quotas c q namespace s).1 quotas-vacant fits i spec at).1)

-- The limit range of an index, if the namespace held none.
pub reconcile-labelled_limits :
    {Rq Lr : Type 0} (c : Client Rq Lr) (q : QuotaProfile Rq Lr)
    (request_namespace request_name : Text) (ns : Namespace) (s : c.State)
    (quotas : c.State → Text → List (Object Rq)) (limits : c.State → Text → List (Object Lr))
    → IsConsistent c.quotas quotas
    → IsConsistent c.limits limits
    → IsApart c.quotas limits
    → c.namespaces.get request_namespace request_name s ≡ ok ns
    → is_some ns.deletion_timestamp ≡ false
    → find ns.labels quota_profile_label_key ≡ some (get_profile_id q.namespace q.name)
    → lacks b'.' q.namespace ≡ true
    → lacks b'.' q.name ≡ true
    → All (IsSweepable q) (quotas s ns.name)
    → limits s ns.name ≡ []
    → c.profiles.get q.namespace q.name s ≡ ok q
    → length q.spec.limit_range_specs ≤ max_int
    → (i : ℕ) (spec : Lr) → get_elem? q.spec.limit_range_specs i ≡ some spec
    → named
        (get_limit_range_id q.namespace q.name (itoa i))
        (limits (reconcile c request_namespace request_name s).1 ns.name)
      ≡ some (created q ns.name i spec)
reconcile-labelled_limits c q rns rname ns s quotas limits quotas_api limits_api apart stored live
      labelled dotless dotless' sweepable empty there fits i spec at =
    rw
      (
        reconcile-follow c q rns rname ns s stored live labelled dotless dotless',
        follow-own c q rns rname ns s stored live labelled dotless dotless' there,
      )
      (resources-limits c q quotas limits quotas_api limits_api apart ns.name s sweepable empty fits
        i spec at)
