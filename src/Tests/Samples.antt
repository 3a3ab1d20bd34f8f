-- ===== src/Tests/Samples.antt =====
-- A small cluster: two profiles, a namespace and some quotas. Specifications are numbers here.
use namespace_quota_operator.Common.{ℕ, List, [], ◌∷◌, none, some}
use namespace_quota_operator.Text.{Text, codes}
use namespace_quota_operator.Labels.{Labels}
use namespace_quota_operator.Api.{
  Object, zero_meta, QuotaProfile, Namespace, NamespaceSelector, quota_profile_label_key,
}
use namespace_quota_operator.Client.{Client}
use namespace_quota_operator.Client.Memory.{Cluster, memory}

abbrev pub api : Client ℕ ℕ
api = memory

abbrev pub labelled : Text → Labels
labelled id = some ((quota_profile_label_key, id) ∷ [])

abbrev pub profile : Text → ℕ → ℕ → NamespaceSelector → List ℕ → List ℕ → QuotaProfile ℕ ℕ
profile name precedence created selector quotas limits = record {
  meta = record zero_meta { name = name; namespace = codes "ops"; creation_timestamp = created };
  spec = record {
    namespace_selector = selector;
    precedence = precedence;
    resource_quota_specs = quotas;
    limit_range_specs = limits;
  };
}

abbrev pub by_label : Text → Text → NamespaceSelector
by_label k v = record { match_labels = some ((k, v) ∷ []); match_name = none }

abbrev pub by_name : Text → NamespaceSelector
by_name n = record { match_labels = none; match_name = some n }

abbrev pub dev : QuotaProfile ℕ ℕ
dev = profile (codes "dev") 10 100 (by_label (codes "env") (codes "dev")) (5 ∷ 6 ∷ []) (7 ∷ [])

abbrev pub pinned : QuotaProfile ℕ ℕ
pinned = profile (codes "pinned") 0 200 (by_name (codes "shop")) (8 ∷ []) []

abbrev pub object : Text → Labels → ℕ → Object ℕ
object name labels spec = record {
  meta = record zero_meta { name = name; namespace = codes "shop"; labels = labels };
  spec = spec;
}

abbrev pub shop : Namespace
shop = record {
  meta = record zero_meta { name = codes "shop"; labels = some ((codes "env", codes "dev") ∷ []) };
  spec = tt;
}

-- Unmanaged, of the profile, of the profile with an index no longer in use, and of another profile.
abbrev pub compute : Object ℕ
compute = object (codes "compute") none 1

abbrev pub first_quota : Object ℕ
first_quota = object (codes "ops-dev-0-rq") (labelled (codes "ops.dev")) 2

abbrev pub surplus_quota : Object ℕ
surplus_quota = object (codes "ops-dev-7-rq") (labelled (codes "ops.dev")) 3

abbrev pub foreign_quota : Object ℕ
foreign_quota = object (codes "ops-old-0-rq") (labelled (codes "ops.old")) 4

abbrev pub cluster : Cluster ℕ ℕ
cluster = record {
  namespaces = shop ∷ [];
  profiles = pinned ∷ dev ∷ [];
  quotas = compute ∷ first_quota ∷ surplus_quota ∷ foreign_quota ∷ [];
  limits = [];
  clock = 1_700_000;
}

-- The same with the namespace labelled.
abbrev pub dev_shop : Namespace
dev_shop = record shop {
  meta = record shop.meta {
    labels = some ((codes "env", codes "dev") ∷ (quota_profile_label_key, codes "ops.dev") ∷ []);
  };
}

abbrev pub dev_cluster : Cluster ℕ ℕ
dev_cluster = record cluster { namespaces = dev_shop ∷ [] }

-- A limit range of the profile, one with an index that the profile lacks, and one of no profile.
abbrev pub first_limit : Object ℕ
first_limit = object (codes "ops-dev-0-lr") (labelled (codes "ops.dev")) 2

abbrev pub third_limit : Object ℕ
third_limit = object (codes "ops-dev-2-lr") (labelled (codes "ops.dev")) 3

abbrev pub memory_limit : Object ℕ
memory_limit = object (codes "memory") none 1

-- Two resource quotas and three limit ranges.
abbrev pub rich : QuotaProfile ℕ ℕ
rich =
    profile (codes "dev") 10 100 (by_label (codes "env") (codes "dev")) (5 ∷ 6 ∷ [])
      (7 ∷ 8 ∷ 9 ∷ [])

abbrev pub limit_cluster : Cluster ℕ ℕ
limit_cluster = record cluster { limits = memory_limit ∷ first_limit ∷ third_limit ∷ [] }
