-- ===== src/Tests/Limits.antt =====
-- The limit ranges of a namespace: the theorems at a concrete cluster.
use mathlib.Core.Option.{none-ne-some}
use namespace_quota_operator.Common.{ℕ, ◌≡◌, refl, arith, [], ◌∷◌, none, some, All}
use namespace_quota_operator.Text.{Text, codes, text_dec}
use namespace_quota_operator.Text.Split.{split, lacks, second_last}
use namespace_quota_operator.Text.Decimal.{atoi, pos}
use namespace_quota_operator.Labels.{find, lookup}
use namespace_quota_operator.Effect.{done, panic}
use namespace_quota_operator.Api.{Object}
use namespace_quota_operator.Client.Laws.{named}
use namespace_quota_operator.Client.Loop.{settled_by}
use namespace_quota_operator.Client.Memory.{Cluster, memory_limits, memory_limits-IsConsistent}
use namespace_quota_operator.Client.Listing.{listed}
use namespace_quota_operator.Ids.{get_profile_id, get_limit_range_index}
use namespace_quota_operator.NamespaceController.{sweep_limit, reconcile_limit_ranges}
use namespace_quota_operator.NamespaceController.Sweep.{IsSweepable, IsOwnedBy}
use namespace_quota_operator.NamespaceController.LimitSweep.{settled_limit, sweep_limit-panics}
use namespace_quota_operator.NamespaceController.LimitCreate.{limit_id}
use namespace_quota_operator.NamespaceController.LimitTwice.{reconcile-limits-twice}
use namespace_quota_operator.NamespaceController.Limits.{reconcile-limits-settle}
use namespace_quota_operator.Tests.Samples.{
  api, dev, rich, cluster, limit_cluster, memory_limit, first_limit, third_limit,
}

no_limits : memory_limits cluster (codes "shop") ≡ []
unfolding listed
no_limits = refl

reconcile-limits-twice_example :
    named (limit_id rich (codes "shop") 2) (
      memory_limits
        (reconcile_limit_ranges api rich
          (codes "shop")
          (reconcile_limit_ranges api rich (codes "shop") cluster).1).1
        (codes "shop"))
    ≡ none
reconcile-limits-twice_example =
    reconcile-limits-twice api memory_limits memory_limits-IsConsistent rich (codes "shop") cluster
      no_limits (omega arith) (omega arith) 2 9 refl

abbrev after : Cluster ℕ ℕ
after = (reconcile_limit_ranges api rich (codes "shop") limit_cluster).1

held : memory_limits limit_cluster (codes "shop") ≡ memory_limit ∷ first_limit ∷ third_limit ∷ []
unfolding listed text_dec
held = refl

sweepable : All (IsSweepable rich) (memory_limits limit_cluster (codes "shop"))
unfolding listed text_dec lacks find
sweepable = (
  record { no_finalizers = λ _. refl; dashed = λ e. absurd (none-ne-some _ e) },
  (
    record { no_finalizers = λ _. refl; dashed = λ e. refl },
    (record { no_finalizers = λ _. refl; dashed = λ e. refl }, tt),
  ),
)

reconcile-limits-settle_example :
    ((reconcile_limit_ranges api rich (codes "shop") limit_cluster).0 ≡ done tt)
    × ((n : Text)
        → named n (memory_limits after (codes "shop"))
          ≡ settled_by
              (settled_limit rich)
              (named n (memory_limits limit_cluster (codes "shop")))
              none)
reconcile-limits-settle_example =
    reconcile-limits-settle api memory_limits memory_limits-IsConsistent rich (codes "shop")
      limit_cluster memory_limit (first_limit ∷ third_limit ∷ []) held (omega arith) sweepable

stored :
    (named (codes "ops-dev-0-lr") (memory_limits limit_cluster (codes "shop")) ≡ some first_limit)
    × (named (codes "ops-dev-2-lr") (memory_limits limit_cluster (codes "shop")) ≡ some third_limit)
    × (named (codes "ops-dev-1-lr") (memory_limits limit_cluster (codes "shop")) ≡ none)
unfolding listed named text_dec
stored = (refl, refl, refl)

owned :
    IsOwnedBy rich first_limit
    × IsOwnedBy rich third_limit
    × IsOwnedBy dev third_limit
    × (get_limit_range_index (codes "ops-dev-0-lr") ≡ done (pos 0))
    × (get_limit_range_index (codes "ops-dev-2-lr") ≡ done (pos 2))
    × (get_limit_range_index (codes "ops-dev-1-lr") ≡ done (pos 1))
unfolding text_dec find lookup get_profile_id get_limit_range_index second_last split atoi
owned = (refl, refl, refl, refl, refl, refl)

abbrev second_limit : Object ℕ
second_limit = record first_limit { meta = record first_limit.meta { name = codes "ops-dev-1-lr" } }

sweep_limit-panics_example : sweep_limit api dev second_limit limit_cluster ≡ (panic, limit_cluster)
sweep_limit-panics_example =
    sweep_limit-panics api dev second_limit 1 limit_cluster owned.2 owned.5 (omega arith)
      (omega arith)
