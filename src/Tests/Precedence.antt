-- ===== src/Tests/Precedence.antt =====
-- Two profiles select a namespace by one label.
use namespace_quota_operator.Common.{
  ℕ, ◌≤◌, ◌≡◌, ◌≢◌, refl, List, [], ◌∷◌, some, All, Some, inl, length, ap, arith,
}
use namespace_quota_operator.Text.{Text, codes, text_dec}
use namespace_quota_operator.Text.Split.{lacks}
use namespace_quota_operator.Labels.{find, lookup, value}
use namespace_quota_operator.Effect.{ok, done}
use namespace_quota_operator.Api.{
  QuotaProfile, Namespace, quota_profile_label_key, quota_profile_last_update_timestamp,
}
use namespace_quota_operator.Client.Laws.{named}
use namespace_quota_operator.Client.Listing.{listed}
use namespace_quota_operator.Client.Memory.{
  Cluster, memory_verbs, memory_library, sorted_by_creation,
}
use namespace_quota_operator.Ids.{get_profile_id}
use namespace_quota_operator.Webhook.{namespace}
use namespace_quota_operator.Webhook.Namespaces.{default}
use namespace_quota_operator.Webhook.Namespaces.Steps.{IsKnown, IsSound}
use namespace_quota_operator.Webhook.Namespaces.Winner.{Selects}
use namespace_quota_operator.Webhook.Namespaces.Precedence.{Judges, default-precedence}
use namespace_quota_operator.Tests.Samples

-- Older than `dev`, and of higher precedence.
abbrev gold : QuotaProfile ℕ ℕ
gold =
    Samples.profile (codes "gold") 20 50 (Samples.by_label (codes "env") (codes "dev")) (9 ∷ []) []

abbrev gold_cluster : Cluster ℕ ℕ
gold_cluster = record Samples.cluster { profiles = Samples.dev ∷ gold ∷ [] }

abbrev sorted : List (QuotaProfile ℕ ℕ)
sorted = Samples.api.sort_by_creation gold_cluster.profiles

sorted-IsKnown : All (IsKnown Samples.api gold_cluster) sorted
unfolding sorted_by_creation memory_verbs listed named text_dec lacks
sorted-IsKnown = (
  record { dotless_namespace = refl; dotless_name = refl; stored = refl },
  (record { dotless_namespace = refl; dotless_name = refl; stored = refl }, tt),
)

apart :
    (codes "env" ≢ quota_profile_label_key) × (codes "env" ≢ quota_profile_last_update_timestamp)
apart = (λ e. omega (arith, ap length e), λ e. omega (arith, ap length e))

gold-Selects : Selects Samples.api gold Samples.shop
unfolding memory_library find lookup value text_dec
gold-Selects = record {
  live = refl;
  unnamed = refl;
  selector = (codes "env", codes "dev") ∷ [];
  by_label = refl;
  key = codes "env";
  first_key = refl;
  present = refl;
  apart = apart.0;
  apart' = apart.1;
}

dev-Selects : Selects Samples.api Samples.dev Samples.shop
unfolding memory_library find lookup value text_dec
dev-Selects = record {
  live = refl;
  unnamed = refl;
  selector = (codes "env", codes "dev") ∷ [];
  by_label = refl;
  key = codes "env";
  first_key = refl;
  present = refl;
  apart = apart.0;
  apart' = apart.1;
}

judged :
    All (Judges Samples.api Samples.shop) sorted
    × Some (λ q. Selects Samples.api q Samples.shop) sorted
unfolding sorted_by_creation
judged = ((inl gold-Selects, (inl dev-Selects, tt)), inl gold-Selects)

sound : IsSound Samples.api gold_cluster Samples.shop
unfolding find lookup text_dec
sound = (λ e. cc, inl refl)

clock_frame :
    (a b : Text) (t : Cluster ℕ ℕ)
    → Samples.api.profiles.get a b (Samples.api.now t).1 ≡ Samples.api.profiles.get a b t
unfolding memory_verbs
clock_frame a b t = refl

all_listed : Samples.api.profiles.list_all gold_cluster ≡ ok gold_cluster.profiles
unfolding memory_verbs
all_listed = refl

default-precedence_example :
    (ns' : Namespace) × (w : QuotaProfile ℕ ℕ) × ((default Samples.api
        (namespace Samples.shop)
        gold_cluster).0
      ≡ done ns')
    × (find ns'.labels quota_profile_label_key ≡ some (get_profile_id w.namespace w.name))
    × IsKnown Samples.api gold_cluster w
    × All (λ q. Selects Samples.api q Samples.shop → q.spec.precedence ≤ w.spec.precedence) sorted
default-precedence_example =
    default-precedence Samples.api gold_cluster clock_frame Samples.shop gold_cluster.profiles
      all_listed sound sorted-IsKnown judged.0 judged.1
