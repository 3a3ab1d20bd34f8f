-- ===== src/Client/Memory.antt =====
-- A cluster in memory: an API that keeps what Client/Laws asks for, so that its promises can be met.
pub mod Honest
use namespace_quota_operator.Common.{
  ℕ, ◌+◌, ◌≡◌, ◌≢◌, refl, Bool, true, false, List, [], ◌∷◌, ◌++◌, Option, none, some, is_some, ltb,
  if◌then◌else◌, arith, Option-cases, inl, inr,
}
use namespace_quota_operator.Text.{Text, ◌==◌}
use namespace_quota_operator.Labels.{Entries}
use namespace_quota_operator.Effect.{Result, ok, err, not_found, api}
use namespace_quota_operator.Api.{Object, QuotaProfile, Namespace}
use namespace_quota_operator.Client.{Verbs, Library, Client}
use namespace_quota_operator.Client.Laws.{named, found, IsLawful, IsConsistent}
use namespace_quota_operator.Client.Listing.{
  listed, drop_object, listed-NodupNames, listed-All, named-listed_cons, named-listed_drop,
}

-- One kind of object, kept in a list that is a part of the state.
module _ {State Spec : Type 0} (kept : State → List (Object Spec))
    (keep : List (Object Spec) → State → State) where
  unfoldable pub exists : Object Spec → State → Bool
  exists o s = is_some (named o.name (listed (kept s) o.namespace))

  -- An object with finalizers is marked, and one without them is dropped.
  unfoldable pub remove_object : Object Spec → List Text → State → State
  unfolding drop_object
  remove_object o [] s = keep (drop_object o (kept s)) s
  remove_object o (f ∷ fs) s =
      keep (record o { meta = record o.meta { deletion_timestamp = some 1 } } ∷ kept s) s

  -- The object that is there goes, whatever the one that was handed in looks like.
  unfoldable pub delete_found : Option (Object Spec) → State → Result (Unit {0}) × State
  unfolding remove_object
  delete_found none s = (err not_found, s)
  delete_found (some o) s = (ok tt, remove_object o o.finalizers s)

  unfoldable pub memory_verbs : Verbs State (Object Spec)
  unfolding exists delete_found listed
  memory_verbs = record {
    get = λ ns n s. found (named n (listed (kept s) ns));
    list_all = λ s. ok (kept s);
    list = λ ns s. ok (listed (kept s) ns);
    create = λ o s. if exists o s then (err (api 409), s) else (ok tt, keep (o ∷ kept s) s);
    update = λ o s. if exists o s then (ok tt, keep (o ∷ kept s) s) else (err not_found, s);
    delete = λ o s. delete_found (named o.name (listed (kept s) o.namespace)) s;
  }

  exists-present :
      (o : Object Spec) (s : State)
      → named o.name (listed (kept s) o.namespace) ≢ none
      → exists o s ≡ true
  unfolding exists
  exists-present o s h = elim (Option-cases (named o.name (listed (kept s) o.namespace))) [
    | inl e ↦ absurd (h e)
    | inr (x, e) ↦ rw e
  ]

  module _ (kept-keep : (os : List (Object Spec)) (s : State) → kept (keep os s) ≡ os) where
    pub memory_verbs-IsConsistent : IsConsistent memory_verbs (λ s. listed (kept s))
    unfolding memory_verbs exists delete_found remove_object
    memory_verbs-IsConsistent = record {
      get_lem = λ ns n s. refl;
      list_lem = λ ns s. refl;
      nodup = λ s. listed-NodupNames (kept s);
      placed = λ s. listed-All (kept s);
      create_ok = λ o s h. rw h;
      create_lem = λ o s ns n h. rw (h, kept-keep) (named-listed_cons o (kept s) ns n);
      update_ok = λ o s h. rw (exists-present o s h);
      update_lem =
          λ o s ns n h. rw (exists-present o s h, kept-keep) (named-listed_cons o (kept s) ns n);
      delete_ok = λ o s p h. rw h;
      delete_lem = λ o s ns n p h. rw (h, p, kept-keep) (named-listed_drop o (kept s) ns n);
    }

  -- The verbs leave what does not depend on the list alone.
  module _ {View : Type 0} (view : State → View)
      (apart : (os : List (Object Spec)) (s : State) → view (keep os s) ≡ view s) (o : Object Spec)
      (s : State) where
    pub create_frame : view (memory_verbs.create o s).1 ≡ view s
    unfolding memory_verbs
    create_frame = ground (arith, apart (o ∷ kept s) s)

    pub update_frame : view (memory_verbs.update o s).1 ≡ view s
    unfolding memory_verbs
    update_frame = ground (arith, apart (o ∷ kept s) s)

    remove-frame : (x : Object Spec) (fs : List Text) → view (remove_object x fs s) ≡ view s
    unfolding remove_object
    remove-frame x [] = apart _ s
    remove-frame x (f ∷ fs) = apart _ s

    delete_found-frame : (x : Option (Object Spec)) → view (delete_found x s).1 ≡ view s
    unfolding delete_found
    delete_found-frame none = refl
    delete_found-frame (some x) = remove-frame x x.finalizers

    pub delete_frame : view (memory_verbs.delete o s).1 ≡ view s
    unfolding memory_verbs
    delete_frame = delete_found-frame (named o.name (listed (kept s) o.namespace))

pub record Cluster (Rq Lr : Type 0) : Type 0 where
  pub namespaces : List Namespace
  pub profiles : List (QuotaProfile Rq Lr)
  pub quotas : List (Object Rq)
  pub limits : List (Object Lr)
  pub clock : ℕ

keys_of : Entries → List Text
keys_of [] = []
keys_of ((k, v) ∷ m) = k ∷ keys_of m

contains : List Text → Text → Bool
contains [] t = false
contains (x ∷ xs) t = let rest = contains xs t in if x == t then true else rest

discard : List Text → Text → List Text
discard [] t = []
discard (x ∷ xs) t = let rest = discard xs t in if x == t then rest else x ∷ rest

unfoldable pub memory_library : Library
unfolding keys_of contains discard
memory_library = record {
  keys = keys_of;
  contains_finalizer = contains;
  add_finalizer = λ fs t. if contains fs t then fs else fs ++ t ∷ [];
  remove_finalizer = discard;
}

contains-last : (fs : List Text) (t : Text) → contains (fs ++ t ∷ []) t ≡ true
unfolding contains
contains-last [] t = ground arith
contains-last (f ∷ fs) t = ground (arith, contains-last fs t)

pub memory_library-IsLawful : IsLawful memory_library
unfolding memory_library keys_of
memory_library-IsLawful = record {
  keys_nil = refl;
  contains-add = λ fs f. ground (arith, contains-last fs f);
}

insert_by_creation :
    {Rq Lr : Type 0} → QuotaProfile Rq Lr → List (QuotaProfile Rq Lr) → List (QuotaProfile Rq Lr)
insert_by_creation q [] = q ∷ []
insert_by_creation q (p ∷ ps) =
    let rest = insert_by_creation q ps in
    if ltb p.creation_timestamp q.creation_timestamp then p ∷ rest else q ∷ p ∷ ps

unfoldable pub sorted_by_creation :
    {Rq Lr : Type 0} → List (QuotaProfile Rq Lr) → List (QuotaProfile Rq Lr)
unfolding insert_by_creation
sorted_by_creation [] = []
sorted_by_creation (q ∷ qs) = insert_by_creation q (sorted_by_creation qs)

-- Each reading of the clock is one microsecond later.
abbrev pub memory : {Rq Lr : Type 0} → Client Rq Lr
memory {Rq} {Lr} = record {
  library = memory_library;
  State = Cluster Rq Lr;
  namespaces = memory_verbs (λ s. s.namespaces) (λ os s. record s { namespaces = os });
  profiles = memory_verbs (λ s. s.profiles) (λ os s. record s { profiles = os });
  quotas = memory_verbs (λ s. s.quotas) (λ os s. record s { quotas = os });
  limits = memory_verbs (λ s. s.limits) (λ os s. record s { limits = os });
  sort_by_creation = sorted_by_creation;
  now = λ s. (s.clock, record s { clock = s.clock + 1 });
}

abbrev pub memory_namespaces : {Rq Lr : Type 0} → Cluster Rq Lr → Text → List Namespace
memory_namespaces s = listed s.namespaces

abbrev pub memory_profiles : {Rq Lr : Type 0} → Cluster Rq Lr → Text → List (QuotaProfile Rq Lr)
memory_profiles s = listed s.profiles

abbrev pub memory_quotas : {Rq Lr : Type 0} → Cluster Rq Lr → Text → List (Object Rq)
memory_quotas s = listed s.quotas

abbrev pub memory_limits : {Rq Lr : Type 0} → Cluster Rq Lr → Text → List (Object Lr)
memory_limits s = listed s.limits

module _ {Rq Lr : Type 0} where
  pub memory_namespaces-IsConsistent :
      IsConsistent (memory {Rq = Rq} {Lr = Lr}).namespaces (memory_namespaces {Rq = Rq} {Lr = Lr})
  memory_namespaces-IsConsistent = memory_verbs-IsConsistent _ _ (λ os s. refl)

  pub memory_quotas-IsConsistent :
      IsConsistent (memory {Rq = Rq} {Lr = Lr}).quotas (memory_quotas {Rq = Rq} {Lr = Lr})
  memory_quotas-IsConsistent = memory_verbs-IsConsistent _ _ (λ os s. refl)

  pub memory_limits-IsConsistent :
      IsConsistent (memory {Rq = Rq} {Lr = Lr}).limits (memory_limits {Rq = Rq} {Lr = Lr})
  memory_limits-IsConsistent = memory_verbs-IsConsistent _ _ (λ os s. refl)

  pub memory_profile_update-namespaces :
      (p : QuotaProfile Rq Lr) (s : Cluster Rq Lr)
      → memory_namespaces (memory.profiles.update p s).1 ≡ memory_namespaces s
  memory_profile_update-namespaces = update_frame _ _ memory_namespaces (λ os s. refl)

  pub memory_quota_delete-limits :
      (o : Object Rq) (s : Cluster Rq Lr)
      → memory_limits ((memory {Rq = Rq} {Lr = Lr}).quotas.delete o s).1 ≡ memory_limits s
  memory_quota_delete-limits = delete_frame _ _ memory_limits (λ os s. refl)

  pub memory_limit_create-quotas :
      (o : Object Lr) (s : Cluster Rq Lr)
      → memory_quotas ((memory {Rq = Rq} {Lr = Lr}).limits.create o s).1 ≡ memory_quotas s
  memory_limit_create-quotas = create_frame _ _ memory_quotas (λ os s. refl)

  pub memory_limit_update-quotas :
      (o : Object Lr) (s : Cluster Rq Lr)
      → memory_quotas ((memory {Rq = Rq} {Lr = Lr}).limits.update o s).1 ≡ memory_quotas s
  memory_limit_update-quotas = update_frame _ _ memory_quotas (λ os s. refl)

  pub memory_limit_delete-quotas :
      (o : Object Lr) (s : Cluster Rq Lr)
      → memory_quotas ((memory {Rq = Rq} {Lr = Lr}).limits.delete o s).1 ≡ memory_quotas s
  memory_limit_delete-quotas = delete_frame _ _ memory_quotas (λ os s. refl)

  pub memory_profiles-IsConsistent :
      IsConsistent (memory {Rq = Rq} {Lr = Lr}).profiles (memory_profiles {Rq = Rq} {Lr = Lr})
  memory_profiles-IsConsistent = memory_verbs-IsConsistent _ _ (λ os s. refl)
