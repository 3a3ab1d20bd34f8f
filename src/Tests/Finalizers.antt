-- ===== src/Tests/Finalizers.antt =====
-- Finalizers and empty selectors: the theorems at a concrete cluster.
use namespace_quota_operator.Common.{ℕ, ◌≡◌, refl, [], ◌∷◌, none, some, true}
use namespace_quota_operator.Text.{codes, text_dec}
use namespace_quota_operator.Text.Split.{split}
use namespace_quota_operator.Labels.{find, lookup}
use namespace_quota_operator.Effect.{ok, err, api, done, fail, panic, for_each}
use namespace_quota_operator.Api.{QuotaProfile, quota_profile_finalizer}
use namespace_quota_operator.Client.{Client}
use namespace_quota_operator.Client.Laws.{named}
use namespace_quota_operator.Client.Memory.{
  Cluster, memory, memory_library, memory_library-IsLawful, memory_verbs, memory_profiles,
  sorted_by_creation,
}
use namespace_quota_operator.Client.Listing.{listed}
use namespace_quota_operator.Ids.{split_profile_id}
use namespace_quota_operator.ProfileController.{clean_namespace, handle_deletion}
use namespace_quota_operator.ProfileController.Finalizer.{handle_deletion-failed}
use namespace_quota_operator.Webhook.{namespace, quota_profile}
use namespace_quota_operator.Webhook.Profile.{validate_create}
use namespace_quota_operator.Webhook.Namespaces.{default}
use namespace_quota_operator.Webhook.Namespaces.Empty.{empty_selector-panics}
use namespace_quota_operator.Tests.Samples.{profile, dev, dev_shop, dev_cluster, cluster}

-- An API server that refuses every update of a namespace.
abbrev broken : Client ℕ ℕ
broken = record memory {
  namespaces = record memory.namespaces { update = λ o s. (err (api 500), s) };
}

abbrev dying : QuotaProfile ℕ ℕ
dying = record dev { meta = record dev.meta { finalizers = quota_profile_finalizer ∷ [] } }

refused :
    (broken.namespaces.list_all dev_cluster ≡ ok (dev_shop ∷ []))
    × ((for_each (clean_namespace broken dying) (dev_shop ∷ []) dev_cluster).0 ≡ fail (api 500))
    × (broken.contains_finalizer dying.finalizers quota_profile_finalizer ≡ true)
unfolding memory_verbs memory_library clean_namespace for_each find lookup split_profile_id split
    text_dec
refused = (refl, refl, refl)

handle_deletion-failed_example :
    ((handle_deletion broken dying dev_cluster).0 ≡ fail (api 500))
    × (memory_profiles (handle_deletion broken dying dev_cluster).1 ≡ memory_profiles dev_cluster)
handle_deletion-failed_example =
    handle_deletion-failed broken dying memory_profiles (λ ns s. refl) (dev_shop ∷ []) (api 500)
      dev_cluster refused.0 refused.1 refused.2

dev_stored : named (codes "dev") (memory_profiles cluster (codes "ops")) ≡ some dev
unfolding listed named text_dec
dev_stored = refl

abbrev client : Client ℕ ℕ
client = memory

abbrev everything : QuotaProfile ℕ ℕ
everything =
    profile (codes "all") 0 100 (record { match_labels = some []; match_name = none }) (5 ∷ []) []

abbrev without_profiles : Cluster ℕ ℕ
without_profiles = record cluster { profiles = [] }

abbrev with_everything : Cluster ℕ ℕ
with_everything = record cluster { profiles = everything ∷ [] }

profiles_listed :
    (client.profiles.list_all without_profiles ≡ ok [])
    × (client.profiles.list_all with_everything ≡ ok (everything ∷ []))
    × (client.sort_by_creation (everything ∷ []) ≡ everything ∷ [])
unfolding memory_verbs sorted_by_creation
profiles_listed = (refl, refl, refl)

empty_selector-panics_example :
    (validate_create client (quota_profile everything) without_profiles ≡ done tt)
    × (default client (namespace dev_shop) with_everything ≡ (panic, with_everything))
empty_selector-panics_example =
    empty_selector-panics client everything memory_library-IsLawful dev_shop without_profiles
      with_everything refl refl refl profiles_listed.0 profiles_listed.1 profiles_listed.2
