-- ===== src/ProfileController/Named.antt =====
-- `Reconcile` at a profile that selects a namespace by its name.
use namespace_quota_operator.Common.{
  ◌≡◌, ◌≢◌, refl, sym, ◌∙◌, ap, true, List, [], none, some, if◌then◌else◌, arith, Bool-cases, inl,
  inr,
}
use namespace_quota_operator.Text.{Text, ◌==◌}
use namespace_quota_operator.Effect.{Result, ok, Outcome, done}
use namespace_quota_operator.Api.{QuotaProfile, Namespace, quota_profile_finalizer}
use namespace_quota_operator.Client.{Client}
use namespace_quota_operator.Client.Laws.{named, IsLawful, IsConsistent}
use namespace_quota_operator.Client.Loop.{named-All}
use namespace_quota_operator.Client.Honest.{IsApart}
use namespace_quota_operator.ProfileController.{
  is_zero, ensure_finalizer, reconcile_namespace, reconcile_found, reconcile,
}
use namespace_quota_operator.ProfileController.ByName.{reconcile_namespace-by_name}
use namespace_quota_operator.ProfileController.Finalizer.{ensure_finalizer-holds}
use namespace_quota_operator.ProfileController.Labelling.{IsLabelled}
use namespace_quota_operator.ProfileController.Preserve.{reconcile_namespace-Preserves}

-- The namespaces one by one, and the list of all.
abbrev pub namespaces_view :
    {Rq Lr : Type 0} (c : Client Rq Lr)
    → (c.State → Text → List Namespace)
    → c.State
    → (Text → List Namespace) × Result (List Namespace)
namespaces_view c namespaces s = (namespaces s, c.namespaces.list_all s)

-- The API as the profile controller meets it: consistent for namespaces and for profiles, which do not
-- touch each other, and neither does the clock.
pub record IsStore {Rq Lr : Type 0} (c : Client Rq Lr)
    (namespaces : c.State → Text → List Namespace)
    (profiles : c.State → Text → List (QuotaProfile Rq Lr)) : Type 0 where
  pub lawful : IsLawful c.library
  pub namespaces_api : IsConsistent c.namespaces namespaces
  pub profiles_api : IsConsistent c.profiles profiles
  pub namespaces_apart : IsApart c.namespaces profiles
  pub profiles_apart : IsApart c.profiles (namespaces_view c namespaces)
  pub clock_namespaces : (s : c.State) → namespaces (c.now s).1 ≡ namespaces s
  pub clock_profiles : (s : c.State) → profiles (c.now s).1 ≡ profiles s

module _ {Rq Lr : Type 0} (c : Client Rq Lr) (namespaces : c.State → Text → List Namespace)
    (profiles : c.State → Text → List (QuotaProfile Rq Lr)) (store : IsStore c namespaces profiles)
    (q : QuotaProfile Rq Lr) (s : c.State)
    (stored : named q.name (profiles s q.namespace) ≡ some q) where
  -- The state once the finalizer has been seen to.
  abbrev prepared : c.State
  prepared = (ensure_finalizer c q s).1

  prepared-frame :
      namespaces_view c namespaces (ensure_finalizer c q s).1 ≡ namespaces_view c namespaces s
  unfolding ensure_finalizer
  prepared-frame = elim (Bool-cases (c.contains_finalizer q.finalizers quota_profile_finalizer)) [
    | inl has ↦ rw (has, ensure_finalizer) refl
    | inr lacks ↦ rw (lacks, ensure_finalizer) (store.profiles_apart.update _ s)
  ]

  prepared-namespaces : namespaces prepared ≡ namespaces s
  prepared-namespaces = ap (λ v. v.0) prepared-frame

  abbrev Holds : QuotaProfile Rq Lr → c.State → Type 0
  Holds q' s' = named q.name (profiles s' q.namespace) ≡ some q'

  labelling-Holds :
      (q' : QuotaProfile Rq Lr)
      → Holds q' prepared
      → Holds q' (reconcile_namespace c q.namespace q.name prepared).1
  labelling-Holds q' h =
      (reconcile_namespace-Preserves c (Holds q') (λ s' k. rw (store.clock_profiles s') k)
          (λ ns s' k. rw (store.namespaces_apart.update ns s') k) q.namespace q.name).at
        prepared h

  got :
      (q' : QuotaProfile Rq Lr) (s' : c.State)
      → Holds q' s'
      → c.profiles.get q.namespace q.name s' ≡ ok q'
  got q' s' h = rw (store.profiles_api.get_lem q.namespace q.name s', h) refl

  -- A label of the profile as it is stored afterwards is one of the profile.
  own_label :
      (q' : QuotaProfile Rq Lr) (ns ns' : Namespace)
      → Holds q' prepared
      → IsLabelled c q' ns ns'
      → IsLabelled c q ns ns'
  own_label q' ns ns' h labelled =
      let (placed, name) =
        named-All (λ o. o.namespace ≡ q.namespace) q.name (profiles prepared q.namespace)
          (store.profiles_api.placed prepared q.namespace) h in
      record { keeps = labelled.keeps; profile = cc (labelled.profile, placed, name) }

  reconcile-prepared :
      is_zero q.deletion_timestamp ≡ true
      → (ensure_finalizer c q s).0 ≡ done tt
      → reconcile c q.namespace q.name s ≡ reconcile_namespace c q.namespace q.name prepared
  unfolding reconcile reconcile_found
  reconcile-prepared live finished =
      rw (got q s stored, live, finished, reconcile, reconcile_found) refl

  -- The profile is stored with the finalizer, and the namespace of the name with its label.
  abbrev pub IsSettled : Text → Namespace → Outcome (Unit {0}) × c.State → Type 0
  IsSettled n ns r =
      (r.0 ≡ done tt)
      × ((q' : QuotaProfile Rq Lr) × Holds q' r.1
          × (c.contains_finalizer q'.finalizers quota_profile_finalizer ≡ true)
          × (q'.spec ≡ q.spec))
      × ((ns' : Namespace) × IsLabelled c q ns ns'
          × ((m : Text)
              → named m (namespaces r.1 [])
                ≡ (if m == n then some ns' else named m (namespaces s []))))

  -- With a consistent API for namespaces and profiles, which leave each other alone as the clock
  -- does both, and whose list of all namespaces is that of the stored ones, and an `AddFinalizer`
  -- that makes a list that contains the finalizer: reconciling a stored profile that is not being
  -- deleted and selects by its name a namespace that is stored and has a map of labels ends without
  -- error. Afterwards the profile is stored with the operator's finalizer and its specification as
  -- before, the namespace carries the profile's label, with all but the operator's two labels as
  -- before, and every other namespace is as it was.
  pub reconcile-by_name :
      (n : Text) (ns : Namespace)
      → c.namespaces.list_all s ≡ ok (namespaces s [])
      → is_zero q.deletion_timestamp ≡ true
      → q.spec.match_name ≡ some n
      → named n (namespaces s []) ≡ some ns
      → ns.labels ≢ none
      → IsSettled n ns (reconcile c q.namespace q.name s)
  reconcile-by_name n ns listed live by_name there some_map =
      let (prepared_done, (q', kept, finalizer, spec)) =
        ensure_finalizer-holds c q profiles store.profiles_api store.lawful s stored in
      let (finished, (ns', labelled, names)) =
        reconcile_namespace-by_name c namespaces store.namespaces_api store.clock_namespaces q'
          prepared ns q.namespace q.name n
          (ap (λ v. v.1) prepared-frame ∙ listed ∙ ap (λ f. ok (f [])) (sym prepared-namespaces))
          (got q' prepared kept) (ap (λ x. x.match_name) spec ∙ by_name)
          (ap (λ f. named n (f [])) prepared-namespaces ∙ there) some_map in
      rw (reconcile-prepared live prepared_done) (
        finished,
        (q', labelling-Holds q' kept, finalizer, spec),
        (ns', own_label q' ns ns' kept labelled, λ m. ground (arith, names m, prepared-namespaces)),
      )
