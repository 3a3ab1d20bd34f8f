-- ===== src/Tests/Harmonies.antt =====
-- Profiles that users write through the webhook, one after the other.
use mathlib.Core.Option.{none-ne-some}
use namespace_quota_operator.Common.{
  ℕ, ◌≡◌, refl, true, none, some, [], ◌∷◌, inl, inr, All, Some, get_elem?, arith,
}
use namespace_quota_operator.Text.{Text, codes, text_dec}
use namespace_quota_operator.Effect.{ok, done}
use namespace_quota_operator.Client.Laws.{named}
use namespace_quota_operator.Client.Listing.{listed}
use namespace_quota_operator.Client.Memory.{
  Cluster, exists, memory_library, memory_verbs, memory_profiles, memory_namespaces, memory_quotas,
  memory_limits, memory_quotas-IsConsistent, sorted_by_creation,
}
use namespace_quota_operator.ProfileController
use namespace_quota_operator.Webhook.{quota_profile, namespace}
use namespace_quota_operator.Webhook.Served.{served}
use namespace_quota_operator.Webhook.Profile.{
  has_name, check_names, same_first_key, has_key, check_keys, validate_create,
}
use namespace_quota_operator.System.{Reach, here, after, create_profile, reconcile_profile}
use namespace_quota_operator.System.Clashes.{IsHarmonious}
use namespace_quota_operator.System.Harmony.{Reach-IsHarmonious}
use namespace_quota_operator.Tests.Samples.{api, dev, pinned, cluster, shop}
use namespace_quota_operator.Tests.Systems.{memory-IsCluster, nothing, user}
use namespace_quota_operator.Tests.Deliveries.{memory-IsStore, memory-IsProfileStore}
use namespace_quota_operator.Tests.Webhooks.{env_first}
use namespace_quota_operator.NamespaceController
use namespace_quota_operator.System.Steps.{AllGenuine}
use namespace_quota_operator.System.Enforcement.{IsNotBlank}
use namespace_quota_operator.System.Agreement.{Reach-labels_own}
use namespace_quota_operator.System.Creation.{Reach-admits}
use namespace_quota_operator.Webhook.Namespaces.{default}
use namespace_quota_operator.Webhook.Namespaces.Priority.{names}
use namespace_quota_operator.Webhook.Namespaces.Steps.{IsKnown, IsUsable, IsSound}
use namespace_quota_operator.Api.{Object, Namespace, quota_profile_label_key}
use namespace_quota_operator.Labels.{find, lookup}
use namespace_quota_operator.Ids.{get_profile_id, get_resource_quota_id}
use namespace_quota_operator.Text.Split.{lacks}
use namespace_quota_operator.Text.Decimal.{itoa}

abbrev bare_cluster : Cluster ℕ ℕ
bare_cluster = record cluster { namespaces = []; profiles = []; quotas = []; limits = [] }

bare-IsHarmonious : IsHarmonious api (memory_profiles bare_cluster)
unfolding listed named
bare-IsHarmonious a m b n p q e _ _ = none-ne-some _ e

abbrev first_cluster : Cluster ℕ ℕ
first_cluster = (api.profiles.create pinned bare_cluster).1

abbrev second_cluster : Cluster ℕ ℕ
second_cluster = (api.profiles.create dev first_cluster).1

abbrev reconciled_cluster : Cluster ℕ ℕ
reconciled_cluster =
    (ProfileController.reconcile (served api) (codes "ops") (codes "pinned") second_cluster).1

admitted :
    (validate_create api (quota_profile pinned) bare_cluster ≡ done tt)
    × (validate_create api (quota_profile dev) first_cluster ≡ done tt)
unfolding validate_create has_name check_names has_key same_first_key check_keys memory_verbs
    memory_library text_dec exists listed named
admitted = (refl, refl)

written : Reach api user bare_cluster second_cluster
written =
    after (after here (create_profile pinned bare_cluster admitted.0))
      (create_profile dev first_cluster admitted.1)

reached : Reach api user bare_cluster reconciled_cluster
reached = after written (reconcile_profile (codes "ops") (codes "pinned") second_cluster)

Reach-IsHarmonious_example : IsHarmonious api (memory_profiles reconciled_cluster)
Reach-IsHarmonious_example =
    Reach-IsHarmonious api memory_profiles memory-IsProfileStore user bare-IsHarmonious reached

bare-AllGenuine : AllGenuine memory_quotas memory_limits bare_cluster
bare-AllGenuine = (λ ns n o e. absurd (nothing ns n o e), λ ns n o e. absurd (nothing ns n o e))

known : IsKnown api second_cluster dev × IsKnown api second_cluster pinned
unfolding memory_verbs listed named text_dec lacks exists
known = (
  record { dotless_namespace = refl; dotless_name = refl; stored = refl },
  record { dotless_namespace = refl; dotless_name = refl; stored = refl },
)

ready :
    (api.profiles.list_all second_cluster ≡ ok (dev ∷ pinned ∷ []))
    × (named (codes "shop") (memory_namespaces second_cluster []) ≡ none)
    × All IsNotBlank (memory_quotas second_cluster (codes "shop"))
unfolding memory_verbs listed named text_dec exists
ready = (refl, refl, tt)

usable : All (IsUsable api second_cluster) (api.sort_by_creation (dev ∷ pinned ∷ []))
unfolding sorted_by_creation
usable = ((known.0, env_first), ((known.1, λ m e. absurd (none-ne-some m e)), tt))

names-shop :
    Some (λ o. (o ≡ pinned) × (names o shop ≡ true)) (api.sort_by_creation (dev ∷ pinned ∷ []))
unfolding sorted_by_creation text_dec
names-shop = inr (inl (refl, refl))

sound : IsSound api second_cluster shop
unfolding find lookup text_dec
sound = (λ e. cc, inl refl)

clock_frame :
    (a b : Text) (t : Cluster ℕ ℕ) → api.profiles.get a b (api.now t).1 ≡ api.profiles.get a b t
unfolding memory_verbs
clock_frame a b t = refl

Reach-labels_own_example :
    (ns' : Namespace) × ((default api (namespace shop) second_cluster).0 ≡ done ns')
    × (find ns'.labels quota_profile_label_key
        ≡ some (get_profile_id (codes "ops") (codes "pinned")))
Reach-labels_own_example =
    Reach-labels_own api user memory_profiles memory-IsProfileStore bare-IsHarmonious written
      clock_frame shop (dev ∷ pinned ∷ []) pinned ready.0 usable sound names-shop

Reach-admits_example :
    (ns' : Namespace) × ((default api (namespace shop) second_cluster).0 ≡ done ns')
    × ((i spec : ℕ)
        → get_elem? (8 ∷ []) i ≡ some spec
        → (o : Object ℕ) × (named (get_resource_quota_id (codes "ops") (codes "pinned") (itoa i)) (
              memory_quotas
                (NamespaceController.reconcile api []
                  (codes "shop")
                  (api.namespaces.create ns' (default api (namespace shop) second_cluster).1).1).1
                (codes "shop"))
            ≡ some o)
          × (o.spec ≡ spec))
Reach-admits_example =
    Reach-admits api user memory_namespaces memory_profiles memory_quotas memory_limits
      memory-IsStore memory-IsProfileStore memory-IsCluster memory_quotas-IsConsistent
      bare-AllGenuine bare-IsHarmonious written shop (dev ∷ pinned ∷ []) pinned ready.0 usable sound
      names-shop refl refl ready.1 (omega arith) ready.2
