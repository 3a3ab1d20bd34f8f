-- ===== src/Tests/Webhooks.antt =====
-- The webhooks: the theorems at concrete requests and a concrete cluster.
use mathlib.Core.Bool.{false≢true}
use mathlib.Core.Option.{none-ne-some, some-injective}
use mathlib.Core.Path.{subst}
use namespace_quota_operator.Common.{
  ℕ, ◌≡◌, ◌⊎◌, ◌↔◌, refl, sym, ap, [], ◌∷◌, none, some, true, false, ◌&&◌, All, inl, inr,
}
use namespace_quota_operator.Text.{Text, codes, text_dec, ◌==◌}
use namespace_quota_operator.Text.Split.{lacks}
use namespace_quota_operator.Text.Decimal.{itoa}
use namespace_quota_operator.Labels.{Entries, Labels, find, lookup, value, assign, insert}
use namespace_quota_operator.Effect.{Result, ok, err, not_found, done, fail}
use namespace_quota_operator.Api.{
  QuotaProfile, Namespace, quota_profile_label_key, quota_profile_last_update_timestamp,
}
use namespace_quota_operator.Client.Laws.{named}
use namespace_quota_operator.Client.Memory.{
  Cluster, memory_library, memory_verbs, sorted_by_creation,
}
use namespace_quota_operator.Client.Listing.{listed}
use namespace_quota_operator.Ids.{get_profile_id}
use namespace_quota_operator.ProfileController.{first, set_quota_profile_labels}
use namespace_quota_operator.ProfileController.Labelling.{KeepsRest}
use namespace_quota_operator.Webhook.{resource_quota, limit_range, quota_profile, namespace, other}
use namespace_quota_operator.Webhook.Requests.{IsUnmanaged, IsServiceAccount}
use namespace_quota_operator.Webhook.ResourceQuota
use namespace_quota_operator.Webhook.LimitRange
use namespace_quota_operator.Webhook.ResourceQuota.Protection.{quota_requests}
use namespace_quota_operator.Webhook.LimitRange.Protection.{limit_requests}
use namespace_quota_operator.Webhook.Profile.{
  has_name, check_names, same_first_key, has_key, check_keys, validate_create,
}
use namespace_quota_operator.Webhook.Namespaces.{default}
use namespace_quota_operator.Webhook.Namespaces.Steps.{IsKnown, IsUsable, IsSound}
use namespace_quota_operator.Webhook.Namespaces.Through.{default-through}
use namespace_quota_operator.Webhook.Namespaces.Matching.{Misses, default-unselected, default-gone}
use namespace_quota_operator.Tests.Samples.{
  api, profile, by_label, dev, pinned, shop, dev_shop, cluster, dev_cluster, first_quota,
  first_limit, labelled,
}

-- The requests' contexts are user names here.
abbrev user : Text → Result Text
user name = ok name

abbrev admin : Text
admin = codes "admin"

abbrev Allowed : Labels → Type 0
Allowed labels = IsUnmanaged labels ⊎ IsServiceAccount user admin

quota_requests_example :
    ((ResourceQuota.validate_create {Lr = ℕ} user admin (resource_quota first_quota) ≡ ok tt)
      ↔ Allowed first_quota.labels)
    × ((ResourceQuota.validate_update {Lr = ℕ} user admin other (resource_quota first_quota)
          ≡ ok tt)
        ↔ Allowed first_quota.labels)
    × ((ResourceQuota.validate_delete {Lr = ℕ} user admin (resource_quota first_quota) ≡ ok tt)
        ↔ Allowed first_quota.labels)
quota_requests_example = quota_requests user admin other first_quota

limit_requests_example :
    ((LimitRange.validate_create {Rq = ℕ} user admin (limit_range first_limit) ≡ ok tt)
      ↔ Allowed first_limit.labels)
    × ((LimitRange.validate_update {Rq = ℕ} user admin other (limit_range first_limit) ≡ ok tt)
        ↔ Allowed first_limit.labels)
    × ((LimitRange.validate_delete {Rq = ℕ} user admin (limit_range first_limit) ≡ ok tt)
        ↔ Allowed first_limit.labels)
limit_requests_example = limit_requests user admin other first_limit

admitted :
    (validate_create api (quota_profile dev) cluster ≡ done tt)
    × (api.profiles.list_all cluster ≡ ok (pinned ∷ dev ∷ []))
unfolding validate_create has_name check_names has_key same_first_key check_keys memory_verbs
    memory_library text_dec
admitted = (refl, refl)

-- `pinned` names the namespace, and `dev` selects it by a label.
abbrev pinned_shop : Namespace
pinned_shop = record shop {
  meta = record shop.meta {
    labels = some (
        (codes "env", codes "dev")
        ∷ (quota_profile_label_key, codes "ops.pinned")
        ∷ (quota_profile_last_update_timestamp, codes "1700001")
        ∷ []);
  };
}

by_name_first :
    ((default api (namespace shop) cluster).0 ≡ done pinned_shop)
    × (api.sort_by_creation (pinned ∷ dev ∷ []) ≡ dev ∷ pinned ∷ [])
unfolding default memory_verbs memory_library sorted_by_creation text_dec find lookup value
    set_quota_profile_labels assign insert itoa
by_name_first = (refl, refl)

-- No profile selects this namespace.
abbrev bare : Namespace
bare = record dev_shop {
  meta = record dev_shop.meta { name = codes "bare"; labels = labelled (codes "ops.dev") };
}

missed : All (Misses api bare) (api.sort_by_creation (pinned ∷ dev ∷ []))
unfolding sorted_by_creation memory_library text_dec find lookup
missed = (
  inr (codes "env", refl, λ e. none-ne-some _ e),
  (inr (λ e. false≢true (sym (ap (λ t. t == codes "shop") e))), tt),
)

default-unselected_example :
    (ns' : Namespace) × (default api (namespace bare) cluster ≡ (done ns', cluster))
    × (find ns'.labels quota_profile_label_key ≡ none)
    × KeepsRest bare ns'
default-unselected_example =
    default-unselected api bare cluster (pinned ∷ dev ∷ []) admitted.1 missed

-- A profile of lower precedence than `dev` that selects the namespace by its label.
abbrev bronze : QuotaProfile ℕ ℕ
bronze = profile (codes "bronze") 5 300 (by_label (codes "env") (codes "dev")) (9 ∷ []) []

abbrev bronze_cluster : Cluster ℕ ℕ
bronze_cluster = record dev_cluster { profiles = bronze ∷ [] }

conflict :
    (find dev_shop.labels quota_profile_label_key
      ≡ some (get_profile_id (codes "ops") (codes "dev")))
    × (api.profiles.get (codes "ops") (codes "dev") dev_cluster ≡ ok dev)
    × (api.profiles.get (codes "ops") (codes "dev") bronze_cluster ≡ err not_found)
    × ((codes "ops" == codes "ops" && codes "dev" == codes "bronze") ≡ false)
    × (lacks b'.' (codes "ops") ≡ true)
    × (lacks b'.' (codes "dev") ≡ true)
    × (find dev_shop.labels (codes "env")
        ≡ some (value (some ((codes "env", codes "dev") ∷ [])) (codes "env")))
    × (first (api.keys ((codes "env", codes "dev") ∷ [])) ≡ some (codes "env"))
    × (api.profiles.list_all bronze_cluster ≡ ok (bronze ∷ []))
    × (api.sort_by_creation (bronze ∷ []) ≡ bronze ∷ [])
unfolding memory_verbs memory_library sorted_by_creation listed named find lookup value text_dec
    get_profile_id lacks
conflict = (refl, refl, refl, refl, refl, refl, refl, refl, refl, refl)

default-gone_example :
    default api (namespace dev_shop) bronze_cluster ≡ (fail not_found, bronze_cluster)
default-gone_example =
    default-gone api bronze dev dev_shop bronze_cluster conflict.4 conflict.5 conflict.0 conflict.3
      (bronze ∷ []) [] ((codes "env", codes "dev") ∷ []) (codes "env") conflict.8 conflict.9 refl
      refl refl conflict.7 conflict.6 conflict.2

dev-IsKnown : IsKnown api cluster dev
unfolding memory_verbs listed named text_dec lacks
dev-IsKnown = record { dotless_namespace = refl; dotless_name = refl; stored = refl }

pinned-IsKnown : IsKnown api cluster pinned
unfolding memory_verbs listed named text_dec lacks
pinned-IsKnown = record { dotless_namespace = refl; dotless_name = refl; stored = refl }

pub env_first :
    (m : Entries)
    → ◌≡◌ {A = Labels} (some ((codes "env", codes "dev") ∷ [])) (some m)
    → (k : Text) × (first (api.keys m) ≡ some k)
unfolding memory_library
env_first m e = (
  codes "env",
  subst (λ m. first (api.keys m) ≡ some (codes "env"))
      (some-injective ((codes "env", codes "dev") ∷ []) m e) refl,
)

usable : All (IsUsable api cluster) (api.sort_by_creation (pinned ∷ dev ∷ []))
unfolding sorted_by_creation
usable = ((dev-IsKnown, env_first), ((pinned-IsKnown, λ m e. absurd (none-ne-some m e)), tt))

sound : IsSound api cluster shop
unfolding find lookup text_dec
sound = (λ e. cc, inl refl)

clock_frame :
    (a b : Text) (t : Cluster ℕ ℕ) → api.profiles.get a b (api.now t).1 ≡ api.profiles.get a b t
unfolding memory_verbs
clock_frame a b t = refl

default-through_example :
    (ns' : Namespace) × ((default api (namespace shop) cluster).0 ≡ done ns') × KeepsRest shop ns'
default-through_example =
    default-through api cluster clock_frame shop (pinned ∷ dev ∷ []) admitted.1 usable sound
