-- ===== src/Tests/Systems.antt =====
-- The system in memory: a user writes an unmanaged quota into a labelled namespace.
use mathlib.Core.Path.{subst}
use mathlib.Core.Option.{none-ne-some, some-injective}
use namespace_quota_operator.Common.{
  ℕ, ◌≡◌, refl, sym, inl, inr, true, [], ◌∷◌, none, some, get_elem?, All, arith,
}
use namespace_quota_operator.Text.{Text, codes, text_dec, has_prefix}
use namespace_quota_operator.Text.Decimal.{itoa}
use namespace_quota_operator.Text.Split.{lacks}
use namespace_quota_operator.Labels.{find, lookup, value}
use namespace_quota_operator.Effect.{Result, ok}
use namespace_quota_operator.Api.{Object, quota_profile_label_key}
use namespace_quota_operator.Client.Laws.{named}
use namespace_quota_operator.Client.Loop.{settled_by}
use namespace_quota_operator.Client.Listing.{listed}
use namespace_quota_operator.Client.Memory.{
  Cluster, exists, memory_verbs, memory_quotas, memory_limits, memory_quotas-IsConsistent,
  memory_limits-IsConsistent,
}
use namespace_quota_operator.Client.Memory.Honest.{memory_verbs-IsHonest, memory_verbs-IsApart}
use namespace_quota_operator.Ids.{get_profile_id, get_resource_quota_id, get_limit_range_id}
use namespace_quota_operator.NamespaceController.Removal.{kept}
use namespace_quota_operator.System.{Step, create_quota, Reach, here, after, IsCluster}
use namespace_quota_operator.System.Genuine.{IsGenuine}
use namespace_quota_operator.System.Steps.{AllGenuine, Reach-AllGenuine}
use namespace_quota_operator.System.Enforcement.{IsNotBlank, Reach-enforces, Reach-cleans}
use namespace_quota_operator.Webhook.{is_service_account, is_managed_by_quota_profile}
use namespace_quota_operator.Webhook.ResourceQuota.{validate_create}
use namespace_quota_operator.Tests.Samples

pub memory-IsCluster : IsCluster Samples.api memory_quotas memory_limits
memory-IsCluster = record {
  quotas_honest = memory_verbs-IsHonest _ _ (λ os s. refl);
  limits_honest = memory_verbs-IsHonest _ _ (λ os s. refl);
  quotas_apart = memory_verbs-IsApart _ _ (λ os s. refl) memory_limits (λ os s. refl);
  limits_apart = memory_verbs-IsApart _ _ (λ os s. refl) memory_quotas (λ os s. refl);
  namespaces_apart = memory_verbs-IsApart _ _ (λ os s. refl) _ (λ os s. refl);
  profiles_apart = memory_verbs-IsApart _ _ (λ os s. refl) _ (λ os s. refl);
  clock_apart = λ s. refl;
}

-- No quotas and no limit ranges yet.
abbrev fresh_cluster : Cluster ℕ ℕ
fresh_cluster = record Samples.dev_cluster { quotas = []; limits = [] }

fresh-AllGenuine : AllGenuine memory_quotas memory_limits fresh_cluster
unfolding listed named
fresh-AllGenuine = (λ ns n o e. absurd (none-ne-some _ e), λ ns n o e. absurd (none-ne-some _ e))

abbrev pub user : Text → Result Text
user = ok

abbrev written : Cluster ℕ ℕ
written = (Samples.api.quotas.create Samples.compute fresh_cluster).1

user_step : Step Samples.api user fresh_cluster written
unfolding is_service_account has_prefix validate_create is_managed_by_quota_profile find value
    text_dec
user_step = create_quota (codes "jane") Samples.compute fresh_cluster refl refl

reached : Reach Samples.api user fresh_cluster written
reached = after here user_step

Reach-AllGenuine_example : AllGenuine memory_quotas memory_limits written
Reach-AllGenuine_example =
    Reach-AllGenuine Samples.api memory_quotas memory_limits memory-IsCluster user fresh-AllGenuine
      reached

stored :
    (Samples.api.namespaces.get [] (codes "shop") written ≡ ok Samples.dev_shop)
    × (Samples.api.profiles.get (codes "ops") (codes "dev") written ≡ ok Samples.dev)
    × All IsNotBlank (memory_quotas written (codes "shop"))
    × All IsNotBlank (memory_limits written (codes "shop"))
    × (find Samples.dev_shop.labels quota_profile_label_key
        ≡ some (get_profile_id (codes "ops") (codes "dev")))
    × (lacks b'.' (codes "ops") ≡ true)
    × (lacks b'.' (codes "dev") ≡ true)
unfolding memory_verbs listed named text_dec find lookup get_profile_id lacks exists
stored = (refl, refl, (λ e. none-ne-some _ e, tt), tt, refl, refl, refl)

Reach-enforces_example :
    (s' : Cluster ℕ ℕ) × Step Samples.api user written s'
    × ((i : ℕ) (spec : ℕ)
        → get_elem? (5 ∷ 6 ∷ []) i ≡ some spec
        → (o : Object ℕ) × (named
              (get_resource_quota_id (codes "ops") (codes "dev") (itoa i))
              (memory_quotas s' (codes "shop"))
            ≡ some o)
          × (o.spec ≡ spec))
Reach-enforces_example =
    Reach-enforces Samples.api user memory_quotas memory_limits memory-IsCluster
      memory_quotas-IsConsistent fresh-AllGenuine reached Samples.dev_shop stored.0 refl stored.2
      Samples.dev stored.4 stored.5 stored.6 stored.1 (omega arith)

-- A namespace without the profile label, with a quota and a limit range that the operator made.
abbrev pub bare_cluster : Cluster ℕ ℕ
bare_cluster = record Samples.cluster { quotas = []; limits = [] }

abbrev quota_cluster : Cluster ℕ ℕ
quota_cluster = (Samples.api.quotas.create Samples.first_quota bare_cluster).1

abbrev left_cluster : Cluster ℕ ℕ
left_cluster = (Samples.api.limits.create Samples.first_limit quota_cluster).1

first-IsGenuine :
    IsGenuine get_resource_quota_id Samples.first_quota
    × IsGenuine get_limit_range_id Samples.first_limit
unfolding find lookup text_dec get_profile_id get_resource_quota_id get_limit_range_id itoa
first-IsGenuine = (
  λ label e full. (refl, codes "ops", codes "dev", 0, sym (some-injective _ _ e), refl),
  λ label e full. (refl, codes "ops", codes "dev", 0, sym (some-injective _ _ e), refl),
)

pub nothing : (ns n : Text) (o : Object ℕ) → ¬ (named n (listed [] ns) ≡ some o)
unfolding listed named
nothing ns n o e = cc

left-AllGenuine : AllGenuine memory_quotas memory_limits left_cluster
left-AllGenuine = (
  λ ns n o e.
      elim (memory-IsCluster.quotas_honest.created Samples.first_quota bare_cluster ns n o
        (rw (memory-IsCluster.limits_apart.create Samples.first_limit quota_cluster) at e)) [
          | inl before ↦ absurd (nothing ns n o before)
          | inr new ↦ subst (IsGenuine get_resource_quota_id) (sym new) first-IsGenuine.0
        ],
  λ ns n o e.
      elim (memory-IsCluster.limits_honest.created Samples.first_limit quota_cluster ns n o e) [
        | inl before ↦ absurd (
            nothing ns n o (
              rw (memory-IsCluster.quotas_apart.create Samples.first_quota bare_cluster) at before))
        | inr new ↦ subst (IsGenuine get_limit_range_id) (sym new) first-IsGenuine.1
      ],
)

left :
    (Samples.api.namespaces.get [] (codes "shop") left_cluster ≡ ok Samples.shop)
    × All IsNotBlank (memory_quotas left_cluster (codes "shop"))
    × All IsNotBlank (memory_limits left_cluster (codes "shop"))
    × (find Samples.shop.labels quota_profile_label_key ≡ none)
unfolding memory_verbs listed named text_dec find lookup exists
left = (refl, (λ e. cc, tt), (λ e. cc, tt), refl)

Reach-cleans_example :
    (s' : Cluster ℕ ℕ) × Step Samples.api user left_cluster s'
    × ((n : Text)
        → named n (memory_quotas s' (codes "shop"))
          ≡ settled_by kept (named n (memory_quotas left_cluster (codes "shop"))) none)
    × ((n : Text)
        → named n (memory_limits s' (codes "shop"))
          ≡ settled_by kept (named n (memory_limits left_cluster (codes "shop"))) none)
Reach-cleans_example =
    Reach-cleans Samples.api user memory_quotas memory_limits memory-IsCluster
      memory_quotas-IsConsistent left-AllGenuine here Samples.shop left.0 refl left.1
      memory_limits-IsConsistent left.2 left.3
