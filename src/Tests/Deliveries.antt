-- ===== src/Tests/Deliveries.antt =====
-- A profile that names a namespace, from its reconciliation on, in a cluster with one unmanaged quota.
use mathlib.Core.Option.{none-ne-some}
use namespace_quota_operator.Common.{
  ℕ, ◌≡◌, ◌≢◌, refl, true, none, some, List, [], ◌∷◌, inl, inr, All, Some, arith,
}
use namespace_quota_operator.Text.{codes, text_dec, has_prefix}
use namespace_quota_operator.Text.Decimal.{itoa}
use namespace_quota_operator.Text.Split.{lacks}
use namespace_quota_operator.Labels.{find, lookup, value}
use namespace_quota_operator.Effect.{ok, done}
use namespace_quota_operator.Api.{Object, QuotaProfile, quota_profile_finalizer}
use namespace_quota_operator.Client.Laws.{named}
use namespace_quota_operator.Client.Listing.{listed}
use namespace_quota_operator.Client.Memory.{
  Cluster, exists, memory_verbs, memory_library-IsLawful, memory_namespaces, memory_profiles,
  memory_quotas, memory_limits, memory_namespaces-IsConsistent, memory_profiles-IsConsistent,
  memory_quotas-IsConsistent, memory_limits-IsConsistent,
}
use namespace_quota_operator.Client.Memory.Honest.{memory_verbs-IsApart}
use namespace_quota_operator.Ids.{get_resource_quota_id, get_limit_range_id}
use namespace_quota_operator.NamespaceController
use namespace_quota_operator.NamespaceController.LimitCreate.{created}
use namespace_quota_operator.ProfileController
use namespace_quota_operator.ProfileController.Named.{
  IsStore, namespaces_view, IsSettled, reconcile-by_name,
}
use namespace_quota_operator.System.{Step, create_quota, create_profile, Reach, here, after}
use namespace_quota_operator.System.Steps.{AllGenuine}
use namespace_quota_operator.System.Enforcement.{IsNotBlank}
use namespace_quota_operator.System.Delivery.{Reach-delivers, Reach-delivers_limits}
use namespace_quota_operator.Webhook.{is_service_account, is_managed_by_quota_profile}
use namespace_quota_operator.Webhook.ResourceQuota
use namespace_quota_operator.Webhook.{quota_profile}
use namespace_quota_operator.Webhook.Served.{served}
use namespace_quota_operator.Webhook.Profile.{
  has_name, check_names, same_first_key, has_key, check_keys, validate_create,
}
use namespace_quota_operator.Webhook.Namespaces.Priority.{names}
use namespace_quota_operator.Webhook.Namespaces.Steps.{IsKnown, IsUsable}
use namespace_quota_operator.System.Clashes.{IsProfileStore, IsHarmonious}
use namespace_quota_operator.Client.Memory.{memory_library, sorted_by_creation}
use namespace_quota_operator.Client.Memory.Honest.{memory_verbs-IsHonest, memory_verbs-Some}
use namespace_quota_operator.Tests.Webhooks.{env_first}
use namespace_quota_operator.Tests.Samples.{api, profile, by_name, compute, cluster, shop, dev}
use namespace_quota_operator.Tests.Systems.{memory-IsCluster, nothing, user}

view_kept :
    (os : List (QuotaProfile ℕ ℕ)) (s : Cluster ℕ ℕ)
    → namespaces_view api memory_namespaces (record s { profiles = os })
      ≡ namespaces_view api memory_namespaces s
unfolding memory_verbs
view_kept os s = refl

pub memory-IsStore : IsStore api memory_namespaces memory_profiles
memory-IsStore = record {
  lawful = memory_library-IsLawful;
  namespaces_api = memory_namespaces-IsConsistent;
  profiles_api = memory_profiles-IsConsistent;
  namespaces_apart = memory_verbs-IsApart _ _ (λ os s. refl) memory_profiles (λ os s. refl);
  profiles_apart = memory_verbs-IsApart _ _ (λ os s. refl) _ view_kept;
  clock_namespaces = λ s. refl;
  clock_profiles = λ s. refl;
}

pub memory-IsProfileStore : IsProfileStore api memory_profiles
memory-IsProfileStore = record {
  honest = memory_verbs-IsHonest _ _ (λ os s. refl);
  lists_all = memory_verbs-Some _ _ (λ os s. refl);
  quotas_apart = memory_verbs-IsApart _ _ (λ os s. refl) memory_profiles (λ os s. refl);
  limits_apart = memory_verbs-IsApart _ _ (λ os s. refl) memory_profiles (λ os s. refl);
  namespaces_apart = memory_verbs-IsApart _ _ (λ os s. refl) memory_profiles (λ os s. refl);
  clock_apart = λ s. refl;
}

-- The profile with two quotas and one limit range, which names the namespace.
abbrev named_shop : QuotaProfile ℕ ℕ
named_shop = profile (codes "pinned") 0 200 (by_name (codes "shop")) (8 ∷ 9 ∷ []) (7 ∷ [])

-- The same once it has the finalizer.
abbrev finalized : QuotaProfile ℕ ℕ
finalized = record named_shop {
  meta = record named_shop.meta { finalizers = quota_profile_finalizer ∷ [] };
}

abbrev bare_cluster : Cluster ℕ ℕ
bare_cluster = record cluster { profiles = []; quotas = []; limits = [] }

bare-AllGenuine : AllGenuine memory_quotas memory_limits bare_cluster
bare-AllGenuine = (λ ns n o e. absurd (nothing ns n o e), λ ns n o e. absurd (nothing ns n o e))

bare-IsHarmonious : IsHarmonious api (memory_profiles bare_cluster)
unfolding listed named
bare-IsHarmonious a m b n p q e _ _ = none-ne-some _ e

abbrev first_cluster : Cluster ℕ ℕ
first_cluster = (api.profiles.create finalized bare_cluster).1

abbrev second_cluster : Cluster ℕ ℕ
second_cluster = (api.profiles.create dev first_cluster).1

abbrev written : Cluster ℕ ℕ
written = (api.quotas.create compute second_cluster).1

admitted :
    (validate_create api (quota_profile finalized) bare_cluster ≡ done tt)
    × (validate_create api (quota_profile dev) first_cluster ≡ done tt)
unfolding validate_create has_name check_names has_key same_first_key check_keys memory_verbs
    memory_library text_dec exists listed named
admitted = (refl, refl)

user_step : Step api user second_cluster written
unfolding is_service_account has_prefix ResourceQuota.validate_create is_managed_by_quota_profile
    find value text_dec
user_step = create_quota (codes "jane") compute second_cluster refl refl

reached : Reach api user bare_cluster written
reached =
    after
      (after (after here (create_profile finalized bare_cluster admitted.0))
        (create_profile dev first_cluster admitted.1))
      user_step

known : IsKnown api written dev × IsKnown api written finalized
unfolding memory_verbs listed named text_dec lacks exists
known = (
  record { dotless_namespace = refl; dotless_name = refl; stored = refl },
  record { dotless_namespace = refl; dotless_name = refl; stored = refl },
)

usable : All (IsUsable api written) (api.sort_by_creation (dev ∷ finalized ∷ []))
unfolding sorted_by_creation
usable = ((known.0, env_first), ((known.1, λ m e. absurd (none-ne-some m e)), tt))

names-shop :
    Some
      (λ o. (o ≡ finalized) × (names o shop ≡ true))
      (api.sort_by_creation (dev ∷ finalized ∷ []))
unfolding sorted_by_creation text_dec
names-shop = inr (inl (refl, refl))

ready :
    (api.profiles.list_all written ≡ ok (dev ∷ finalized ∷ []))
    × (api.namespaces.list_all written ≡ ok (memory_namespaces written []))
    × (named (codes "shop") (memory_namespaces written []) ≡ some shop)
    × (api.contains_finalizer finalized.finalizers quota_profile_finalizer ≡ true)
    × All IsNotBlank (memory_quotas written (codes "shop"))
    × (memory_limits written (codes "shop") ≡ [])
unfolding memory_verbs memory_library listed named text_dec find lookup exists
ready = (refl, refl, refl, refl, (λ e. none-ne-some _ e, tt), refl)

clock_lists : (t : Cluster ℕ ℕ) → api.profiles.list_all (api.now t).1 ≡ api.profiles.list_all t
unfolding memory_verbs
clock_lists t = refl

shop_map : shop.labels ≢ none
shop_map e = cc

-- The state once the profile has been reconciled.
abbrev labelled : Cluster ℕ ℕ
labelled = (ProfileController.reconcile (served api) (codes "ops") (codes "pinned") written).1

Reach-delivers_example :
    (o : Object ℕ) × (named (get_resource_quota_id (codes "ops") (codes "pinned") (itoa 1)) (
        memory_quotas
          (NamespaceController.reconcile api [] (codes "shop") labelled).1
          (codes "shop"))
      ≡ some o)
    × (o.spec ≡ 9)
Reach-delivers_example =
    Reach-delivers api user memory_namespaces memory_profiles memory_quotas memory_limits
      memory-IsStore memory-IsProfileStore clock_lists memory-IsCluster memory_quotas-IsConsistent
      bare-AllGenuine bare-IsHarmonious reached finalized shop (dev ∷ finalized ∷ []) ready.0 usable
      names-shop ready.3 ready.1 ready.2 shop_map refl (omega arith) ready.4 1 9 refl

Reach-delivers_limits_example :
    named (get_limit_range_id (codes "ops") (codes "pinned") (itoa 0)) (
      memory_limits (NamespaceController.reconcile api [] (codes "shop") labelled).1 (codes "shop"))
    ≡ some (created finalized (codes "shop") 0 7)
Reach-delivers_limits_example =
    Reach-delivers_limits api user memory_namespaces memory_profiles memory_quotas memory_limits
      memory-IsStore memory-IsProfileStore clock_lists memory-IsCluster memory_quotas-IsConsistent
      bare-AllGenuine bare-IsHarmonious reached finalized shop (dev ∷ finalized ∷ []) ready.0 usable
      names-shop ready.3 ready.1 ready.2 shop_map refl (omega arith) ready.4
      memory_limits-IsConsistent ready.5 0 7 refl

-- Without the webhooks: the controller against the API alone.
abbrev unlabelled : Cluster ℕ ℕ
unlabelled = record cluster { profiles = named_shop ∷ [] }

there :
    (api.namespaces.list_all unlabelled ≡ ok (memory_namespaces unlabelled []))
    × (named (codes "pinned") (memory_profiles unlabelled (codes "ops")) ≡ some named_shop)
    × (named (codes "shop") (memory_namespaces unlabelled []) ≡ some shop)
unfolding memory_verbs listed named text_dec
there = (refl, refl, refl)

reconcile-by_name_example :
    IsSettled api memory_namespaces memory_profiles memory-IsStore named_shop unlabelled there.1
      (codes "shop")
      shop
      (ProfileController.reconcile api (codes "ops") (codes "pinned") unlabelled)
reconcile-by_name_example =
    reconcile-by_name api memory_namespaces memory_profiles memory-IsStore named_shop unlabelled
      there.1 (codes "shop") shop there.0 refl refl there.2 shop_map
