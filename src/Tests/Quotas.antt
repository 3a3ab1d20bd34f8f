-- ===== src/Tests/Quotas.antt =====
-- The quotas of a namespace: tests, and the theorems at a concrete cluster.
use mathlib.Core.Option.{none-ne-some}
use namespace_quota_operator.Common.{ℕ, ◌≡◌, ◌≢◌, refl, arith, none, some, All, ◌<◌, if◌then◌else◌}
use namespace_quota_operator.Text.{Text, codes, text_dec, ◌==◌}
use namespace_quota_operator.Text.Split.{split, lacks, second_last}
use namespace_quota_operator.Text.Decimal.{itoa, atoi, pos}
use namespace_quota_operator.Labels.{find, lookup}
use namespace_quota_operator.Effect.{done, panic, for_each, for_each_from}
use namespace_quota_operator.Client.Laws.{named}
use namespace_quota_operator.Client.Memory.{
  Cluster, memory_verbs, memory_quotas, memory_quotas-IsConsistent,
}
use namespace_quota_operator.Client.Listing.{listed}
use namespace_quota_operator.Ids.{get_profile_id, get_resource_quota_id, get_resource_quota_index}
use namespace_quota_operator.NamespaceController.{
  reconcile_resource_quotas, sweep_quota, fill_quota,
}
use namespace_quota_operator.NamespaceController.Sweep.{IsSweepable, IsOwnedBy}
use namespace_quota_operator.NamespaceController.Convergence.{
  IsNotForeign, reconcile-quotas-IsNotForeign, reconcile-quotas-unmanaged,
}
use namespace_quota_operator.NamespaceController.Quotas.{
  reconciled, reconcile_resource_quotas-reconciled,
}
use namespace_quota_operator.Ids.Index.{resource_quota_index-id}
use namespace_quota_operator.NamespaceController.Twice.{reconcile-quotas-twice}
use namespace_quota_operator.Tests.Samples.{api, dev, cluster, compute, first_quota, surplus_quota}

abbrev after : Cluster ℕ ℕ
after = (reconcile_resource_quotas api dev (codes "shop") cluster).1

ends :
    (named (codes "ops-dev-0-rq") (listed after.quotas (codes "shop"))
      ≡ some (record first_quota { spec = 5 }))
    × (named (codes "ops-dev-7-rq") (listed after.quotas (codes "shop")) ≡ none)
    × (named (codes "ops-old-0-rq") (listed after.quotas (codes "shop")) ≡ none)
    × (named (codes "compute") (listed after.quotas (codes "shop")) ≡ some compute)
unfolding reconcile_resource_quotas sweep_quota fill_quota for_each for_each_from memory_verbs
    listed named text_dec find lookup get_profile_id get_resource_quota_id get_resource_quota_index
    itoa second_last split atoi
ends = (refl, refl, refl, refl)

sweepable : All (IsSweepable dev) (memory_quotas cluster (codes "shop"))
unfolding listed text_dec lacks find
sweepable = (
  record { no_finalizers = λ _. refl; dashed = λ e. absurd (none-ne-some _ e) },
  (
    record { no_finalizers = λ _. refl; dashed = λ e. refl },
    (
      record { no_finalizers = λ _. refl; dashed = λ e. refl },
      (record { no_finalizers = λ _. refl; dashed = λ e. refl }, tt),
    ),
  ),
)

reconcile_resource_quotas-reconciled_example :
    ((reconcile_resource_quotas api dev (codes "shop") cluster).0 ≡ done tt)
    × ((ns n : Text)
        → named n (memory_quotas after ns) ≡ (
            if ns == codes "shop"
            then reconciled dev (codes "shop") n (named n (memory_quotas cluster ns))
            else named n (memory_quotas cluster ns)))
reconcile_resource_quotas-reconciled_example =
    reconcile_resource_quotas-reconciled api memory_quotas memory_quotas-IsConsistent dev
      (codes "shop") cluster sweepable

reconcile-quotas-IsNotForeign_example : IsNotForeign dev (record first_quota { spec = 5 })
reconcile-quotas-IsNotForeign_example =
    reconcile-quotas-IsNotForeign api memory_quotas memory_quotas-IsConsistent dev (codes "shop")
      cluster sweepable (codes "ops-dev-0-rq") (record first_quota { spec = 5 }) ends.0

stored :
    (named (codes "ops-dev-7-rq") (memory_quotas cluster (codes "shop")) ≡ some surplus_quota)
    × (named (codes "compute") (memory_quotas cluster (codes "shop")) ≡ some compute)
    × IsOwnedBy dev surplus_quota
    × (get_resource_quota_index (codes "ops-dev-7-rq") ≡ done (pos 7))
    × (get_resource_quota_index (codes "compute") ≡ panic)
unfolding listed named text_dec find lookup get_profile_id get_resource_quota_index second_last
    split atoi
stored = (refl, refl, refl, refl, refl)

compute-other :
    (i : ℕ) → i < 2 → codes "compute" ≢ get_resource_quota_id (codes "ops") (codes "dev") (itoa i)
compute-other i h e =
    cc (e, stored.4, resource_quota_index-id (codes "ops") (codes "dev") i (omega arith))

reconcile-quotas-unmanaged_example :
    named (codes "compute") (memory_quotas after (codes "shop")) ≡ some compute
reconcile-quotas-unmanaged_example =
    reconcile-quotas-unmanaged api memory_quotas memory_quotas-IsConsistent dev (codes "shop")
      cluster sweepable (codes "compute") compute stored.1 (unfold find in refl) compute-other

reconcile-quotas-twice_example :
    ((reconcile_resource_quotas api dev (codes "shop") after).0 ≡ done tt)
    × ((n : Text)
        → named n (
            memory_quotas (reconcile_resource_quotas api dev (codes "shop") after).1 (codes "shop"))
          ≡ named n (memory_quotas after (codes "shop")))
reconcile-quotas-twice_example =
    reconcile-quotas-twice api memory_quotas memory_quotas-IsConsistent dev (codes "shop") cluster
      sweepable (omega arith)
