-- ===== src/NamespaceController/Quotas.antt =====
-- `reconcileResourceQuotas` as a whole, with a consistent API.
use namespace_quota_operator.Common.{All-zip, ◌≡◌, List, Option, none, if◌then◌else◌, All, arith}
use namespace_quota_operator.Text.{Text, ◌==◌}
use namespace_quota_operator.Effect.{done, for_each}
use namespace_quota_operator.Api.{Object, QuotaProfile}
use namespace_quota_operator.Client.{Client}
use namespace_quota_operator.Client.Laws.{named, IsConsistent}
use namespace_quota_operator.Client.Loop.{named_self, settled_by, settled_by_self, for_each-settles}
use namespace_quota_operator.NamespaceController.{sweep_quota, reconcile_resource_quotas}
use namespace_quota_operator.NamespaceController.Sweep.{
  IsSweepable, settled_quota, sweep_quota-Settles,
}
use namespace_quota_operator.NamespaceController.Fill.{filled_from, fill_loop-Fills}

-- What the reconciliation makes of the object that a name of the namespace stands for.
unfoldable pub reconciled :
    {Rq Lr : Type 0} → QuotaProfile Rq Lr → Text → Text → Option (Object Rq) → Option (Object Rq)
reconciled q namespace n old =
    filled_from q namespace 0 q.spec.resource_quota_specs n (settled_by (settled_quota q) old none)

module _ {Rq Lr : Type 0} (c : Client Rq Lr) (objects : c.State → Text → List (Object Rq))
    (api : IsConsistent c.quotas objects) (q : QuotaProfile Rq Lr) (namespace : Text) (s : c.State)
    (sweepable : All (IsSweepable q) (objects s namespace)) where
  abbrev after : c.State
  after = (reconcile_resource_quotas c q namespace s).1

  -- With a consistent API, and quotas in the namespace that have no finalizers where they carry a
  -- profile label, and a dash in their names where it is the profile's: the reconciliation of the
  -- quotas ends without error or panic, and what each name of each namespace stands for afterwards
  -- is `reconciled` of what it stood for, in the namespace given, and what it was in any other.
  pub reconcile_resource_quotas-reconciled :
      ((reconcile_resource_quotas c q namespace s).0 ≡ done tt)
      × ((ns n : Text)
          → named n (objects (reconcile_resource_quotas c q namespace s).1 ns) ≡ (
              if ns == namespace
              then reconciled q namespace n (named n (objects s ns))
              else named n (objects s ns)))
  unfolding reconcile_resource_quotas reconciled
  reconcile_resource_quotas-reconciled =
      let os = objects s namespace in
      let (swept, written) =
        for_each-settles objects (IsSweepable q) (settled_quota q) (sweep_quota c q) namespace
          (sweep_quota-Settles c objects api q namespace) os s (api.nodup s namespace)
          (All-zip _ _ _ os sweepable (api.placed s namespace)
            (named_self os (api.nodup s namespace))) in
      let s' : c.State = (for_each (sweep_quota c q) os s).1 in
      let (filled, written') =
        fill_loop-Fills c objects api q namespace 0 q.spec.resource_quota_specs s' in
      rw (api.list_lem namespace s, swept)
        (
          filled,
          λ ns n.
              ground (
                arith,
                written ns n,
                written' ns n,
                settled_by_self (settled_quota q) (named n os),
              ),
        )
