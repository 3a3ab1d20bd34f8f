-- ===== src/Tests/Profiles.antt =====
-- The profile controller: the theorems at a concrete cluster.
use namespace_quota_operator.Common.{
  ℕ, ◌≡◌, ◌≢◌, refl, arith, [], ◌∷◌, some, true, false, ◌||◌, ◌&&◌, inl, if◌then◌else◌,
}
use namespace_quota_operator.Text.{Text, codes, text_dec, ◌==◌}
use namespace_quota_operator.Text.Split.{split, lacks}
use namespace_quota_operator.Labels.{find, lookup, value}
use namespace_quota_operator.Effect.{ok, err, not_found, done, for_each}
use namespace_quota_operator.Api.{
  QuotaProfile, Namespace, quota_profile_label_key, quota_profile_finalizer,
}
use namespace_quota_operator.Client.Laws.{named}
use namespace_quota_operator.Client.Memory.{
  Cluster, memory_library, memory_verbs, memory_namespaces, memory_namespaces-IsConsistent,
  memory_profile_update-namespaces,
}
use namespace_quota_operator.Client.Listing.{listed}
use namespace_quota_operator.Ids.{get_profile_id, split_profile_id}
use namespace_quota_operator.ProfileController.{
  label_and_update, names_namespace, add_label_to_namespace, reconcile_namespace, resolve_conflict,
  clean_namespace, handle_deletion,
}
use namespace_quota_operator.ProfileController.ByLabel.{Turns, reconcile_namespace-by_label}
use namespace_quota_operator.Client.Memory.{memory_profiles, memory_profiles-IsConsistent}
use namespace_quota_operator.ProfileController.{first}
use namespace_quota_operator.ProfileController.Precedence.{outranks, resolve_conflict-rank}
use namespace_quota_operator.ProfileController.Outranked.{add_label-later}
use namespace_quota_operator.ProfileController.ByName.{LabelsOnly}
use namespace_quota_operator.ProfileController.Deletion.{
  points_to, handle_deletion-unlabels, handle_deletion-keeps, clean_namespace-dotted,
}
use namespace_quota_operator.Tests.Samples.{
  api, profile, by_label, dev, pinned, shop, dev_shop, cluster, dev_cluster, labelled,
}

abbrev dying : QuotaProfile ℕ ℕ
dying = record dev { meta = record dev.meta { finalizers = quota_profile_finalizer ∷ [] } }

abbrev after : Cluster ℕ ℕ
after = (handle_deletion api dying dev_cluster).1

-- Another namespace, labelled with another profile.
abbrev web : Namespace
web = record shop {
  meta = record shop.meta { name = codes "web"; labels = labelled (codes "ops.pinned") };
}

abbrev two_namespaces : Cluster ℕ ℕ
two_namespaces = record cluster { namespaces = dev_shop ∷ web ∷ [] }

ready :
    (api.namespaces.list_all two_namespaces ≡ ok (memory_namespaces two_namespaces []))
    × (api.contains_finalizer dying.finalizers quota_profile_finalizer ≡ true)
    × (lacks b'.' (codes "ops") ≡ true)
    × (lacks b'.' (codes "dev") ≡ true)
    × (named (codes "web") (memory_namespaces two_namespaces []) ≡ some web)
    × (find web.labels quota_profile_label_key ≡ some (codes "ops.pinned"))
    × (points_to dying (codes "ops.pinned") ≡ false)
unfolding memory_verbs listed named text_dec lacks find lookup split_profile_id split memory_library
ready = (refl, refl, refl, refl, refl, refl, refl)

kept_web :
    named (codes "web") (memory_namespaces (handle_deletion api dying two_namespaces).1 [])
    ≡ some web
unfolding handle_deletion clean_namespace memory_verbs listed named text_dec find lookup
    split_profile_id split for_each memory_library
kept_web = refl

handle_deletion-unlabels_example :
    find web.labels quota_profile_label_key ≢ some (get_profile_id (codes "ops") (codes "dev"))
handle_deletion-unlabels_example =
    handle_deletion-unlabels api memory_namespaces memory_namespaces-IsConsistent dying
      memory_profile_update-namespaces two_namespaces ready.0 ready.1 ready.2 ready.3 (codes "web")
      web kept_web

web_other :
    (id : Text) → find web.labels quota_profile_label_key ≡ some id → points_to dying id ≡ false
web_other id h = cc (ready.5, ready.6, h)

handle_deletion-keeps_example :
    named (codes "web") (memory_namespaces (handle_deletion api dying two_namespaces).1 [])
    ≡ some web
handle_deletion-keeps_example =
    handle_deletion-keeps api memory_namespaces memory_namespaces-IsConsistent dying
      memory_profile_update-namespaces two_namespaces ready.0 ready.1 (codes "web") web ready.4
      web_other

abbrev dotted : QuotaProfile ℕ ℕ
dotted = profile (codes "team.a") 10 100 (by_label (codes "env") (codes "dev")) (5 ∷ []) []

abbrev dotted_shop : Namespace
dotted_shop = record shop { meta = record shop.meta { labels = labelled (codes "ops.team.a") } }

dotted_labelled :
    (lacks b'.' (codes "team.a") ≡ false)
    × (find dotted_shop.labels quota_profile_label_key
        ≡ some (get_profile_id (codes "ops") (codes "team.a")))
unfolding lacks find lookup text_dec get_profile_id
dotted_labelled = (refl, refl)

team_named : codes "team.a" ≢ []
team_named e = cc

clean_namespace-dotted_example : clean_namespace api dotted dotted_shop cluster ≡ (done tt, cluster)
clean_namespace-dotted_example =
    clean_namespace-dotted api dotted dotted_shop cluster dotted_labelled.0 team_named
      dotted_labelled.1

-- A profile of higher precedence than `dev`, which was created before it.
abbrev gold : QuotaProfile ℕ ℕ
gold = profile (codes "gold") 20 50 (by_label (codes "tier") (codes "gold")) (9 ∷ []) []

-- One of lower precedence.
abbrev bronze : QuotaProfile ℕ ℕ
bronze = profile (codes "bronze") 5 300 (by_label (codes "tier") (codes "bronze")) (9 ∷ []) []

conflict :
    (find dev_shop.labels quota_profile_label_key
      ≡ some (get_profile_id (codes "ops") (codes "dev")))
    × (api.profiles.get (codes "ops") (codes "dev") dev_cluster ≡ ok dev)
    × (api.profiles.get (codes "ops") (codes "dev") (record dev_cluster { profiles = [] })
        ≡ err not_found)
unfolding memory_verbs listed named find lookup text_dec get_profile_id
conflict = (refl, refl, refl)

different :
    ((codes "ops" == codes "ops" && codes "dev" == codes "gold") ≡ false)
    × ((codes "ops" == codes "ops" && codes "dev" == codes "bronze") ≡ false)
unfolding text_dec
different = (refl, refl)

resolve_conflict-rank_example : resolve_conflict api bronze dev_shop dev_cluster ≡ (
    if names_namespace api dev dev_shop || outranks dev bronze
    then label_and_update api dev dev_shop dev_cluster
    else label_and_update api bronze dev_shop dev_cluster)
resolve_conflict-rank_example =
    resolve_conflict-rank api bronze dev dev_shop dev_cluster ready.2 ready.3 conflict.0 different.1
      conflict.1 (inl (omega arith))

dev_shop_stored : named (codes "shop") (memory_namespaces dev_cluster []) ≡ some dev_shop
unfolding memory_verbs listed named text_dec
dev_shop_stored = refl

add_label-later_example :
    LabelsOnly api memory_namespaces memory_namespaces-IsConsistent
      (λ s. refl)
      dev
      dev_cluster
      dev_shop
      (codes "shop")
      (add_label_to_namespace api gold dev_shop dev_cluster)
add_label-later_example =
    add_label-later api memory_namespaces memory_namespaces-IsConsistent (λ s. refl) gold dev
      dev_cluster dev_shop ready.2 ready.3 conflict.0 different.0 conflict.1 dev_shop_stored
      (omega arith)

named-shop :
    (api.namespaces.list_all cluster ≡ ok (memory_namespaces cluster []))
    × (api.profiles.get (codes "ops") (codes "pinned") cluster ≡ ok pinned)
    × (named (codes "shop") (memory_namespaces cluster []) ≡ some shop)
unfolding memory_verbs listed named text_dec
named-shop = (refl, refl, refl)

selected_by_env :
    (api.profiles.get (codes "ops") (codes "dev") cluster ≡ ok dev)
    × (first (api.keys ((codes "env", codes "dev") ∷ [])) ≡ some (codes "env"))
unfolding memory_verbs memory_library listed named text_dec
selected_by_env = (refl, refl)

reconcile_namespace-by_label_example :
    ((reconcile_namespace api (codes "ops") (codes "dev") cluster).0 ≡ done tt)
    × ((ns' : Namespace) × Turns api memory_namespaces memory_profiles
          memory_namespaces-IsConsistent memory_profiles-IsConsistent
          (λ s. refl)
          dev
          (codes "env")
          (value (some ((codes "env", codes "dev") ∷ [])) (codes "env"))
          shop
          ns'
        × (named
              (codes "shop")
              (memory_namespaces (reconcile_namespace api (codes "ops") (codes "dev") cluster).1 [])
            ≡ some ns'))
reconcile_namespace-by_label_example =
    reconcile_namespace-by_label api memory_namespaces memory_profiles
      memory_namespaces-IsConsistent memory_profiles-IsConsistent (λ s. refl) dev
      ((codes "env", codes "dev") ∷ []) (codes "env") selected_by_env.1 (codes "ops") (codes "dev")
      cluster named-shop.0 selected_by_env.0 refl refl (codes "shop") shop named-shop.2
