-- ===== src/System/Relabelling.antt =====
-- `Reconcile` of a profile that names a namespace, where the namespace is written through the webhook.
use mathlib.Core.Path.{subst}
use namespace_quota_operator.Common.{
  ℕ, ◌≡◌, ◌≢◌, refl, ◌∙◌, ap, Bool, true, false, List, [], ◌∷◌, Option, none, some, is_some, inr,
  if◌then◌else◌, All, Some, All-Some, Some-map,
}
use namespace_quota_operator.Text.{Text}
use namespace_quota_operator.Labels.{find}
use namespace_quota_operator.Effect.{ok, done}
use namespace_quota_operator.Api.{
  QuotaProfile, Namespace, quota_profile_label_key, quota_profile_finalizer,
}
use namespace_quota_operator.Client.{Client}
use namespace_quota_operator.Client.Laws.{named}
use namespace_quota_operator.Ids.{get_profile_id}
use namespace_quota_operator.ProfileController.{
  is_zero, ensure_finalizer, set_quota_profile_labels, label_and_update, reconcile_namespace,
  reconcile_found, reconcile,
}
use namespace_quota_operator.ProfileController.ByName.{reconcile_namespace-label}
use namespace_quota_operator.ProfileController.Labelling.{
  IsLabelled, KeepsRest, KeepsRest-trans, set_quota_profile_labels-done,
}
use namespace_quota_operator.ProfileController.Named.{IsStore}
use namespace_quota_operator.Webhook.{namespace}
use namespace_quota_operator.Webhook.Served.{served}
use namespace_quota_operator.Webhook.Namespaces.{default}
use namespace_quota_operator.Webhook.Namespaces.Priority.{names, names-KeepsRest, default-KeepsRest}
use namespace_quota_operator.Webhook.Namespaces.Steps.{IsKnown, IsUsable, labels_of_find}
use namespace_quota_operator.System.Clashes.{IsProfileStore, IsHarmonious, by_view}
use namespace_quota_operator.System.Agreement.{named_by, labels_own}

not_deleted : (d : Option ℕ) (b : Bool) → (if is_some d then false else b) ≡ true → is_zero d ≡ true
not_deleted none b h = refl
not_deleted (some t) b h = cc

-- Nothing is to be done about the finalizer of a profile that has it.
reconcile-labels :
    {Rq Lr : Type 0} (c : Client Rq Lr) (q : QuotaProfile Rq Lr) (s : c.State)
    → c.profiles.get q.namespace q.name s ≡ ok q
    → is_zero q.deletion_timestamp ≡ true
    → c.contains_finalizer q.finalizers quota_profile_finalizer ≡ true
    → reconcile c q.namespace q.name s ≡ reconcile_namespace c q.namespace q.name s
unfolding reconcile reconcile_found ensure_finalizer
reconcile-labels c q s got live has =
    rw (got, live, has, reconcile, reconcile_found, ensure_finalizer) refl

-- The webhook lets the labelled namespace through.
label-stores :
    {Rq Lr : Type 0} (c : Client Rq Lr) (q : QuotaProfile Rq Lr) (ns ns' ns'' : Namespace)
    (s t : c.State)
    → set_quota_profile_labels (served c) ns q s ≡ (done ns', t)
    → (default c (namespace ns') t).0 ≡ done ns''
    → (label_and_update (served c) q ns s).1
      ≡ (c.namespaces.update ns'' (default c (namespace ns') t).1).1
unfolding label_and_update
label-stores c q ns ns' ns'' s t set ends = rw (set, ends) refl

module _ {Rq Lr : Type 0} (c : Client Rq Lr) (namespaces : c.State → Text → List Namespace)
    (profiles : c.State → Text → List (QuotaProfile Rq Lr)) (store : IsStore c namespaces profiles)
    (profile_store : IsProfileStore c profiles)
    (clock_lists : (t : c.State) → c.profiles.list_all (c.now t).1 ≡ c.profiles.list_all t)
    (s : c.State) (harmony : IsHarmonious c (profiles s)) (q : QuotaProfile Rq Lr) (ns : Namespace)
    (ps : List (QuotaProfile Rq Lr)) (listed : c.profiles.list_all s ≡ ok ps)
    (usable : All (IsUsable c s) (c.sort_by_creation ps))
    (here : Some (λ o. (o ≡ q) × (names o ns ≡ true)) (c.sort_by_creation ps)) where
  -- The profile itself.
  pub own-IsKnown : IsKnown c s q × (names q ns ≡ true)
  own-IsKnown =
      let (o, (known, _), (is_q, by_name)) = All-Some _ _ (c.sort_by_creation ps) usable here in
      subst (λ o. IsKnown c s o × (names o ns ≡ true)) is_q (known, by_name)

  clock_get : (a b : Text) (t : c.State) → c.profiles.get a b (c.now t).1 ≡ c.profiles.get a b t
  clock_get a b t =
      rw
        (
          store.profiles_api.get_lem a b (c.now t).1,
          store.profiles_api.get_lem a b t,
          store.clock_profiles t,
        )
        refl

  abbrev later : c.State
  later = (c.now s).1

  later-IsKnown : (p : QuotaProfile Rq Lr) → IsKnown c s p → IsKnown c later p
  later-IsKnown p known = record {
    dotless_namespace = known.dotless_namespace;
    dotless_name = known.dotless_name;
    stored = clock_get p.namespace p.name s ∙ known.stored;
  }

  later-IsUsable :
      (qs : List (QuotaProfile Rq Lr)) → All (IsUsable c s) qs → All (IsUsable c later) qs
  later-IsUsable [] _ = tt
  later-IsUsable (p ∷ qs) ((known, key), h) = ((later-IsKnown p known, key), later-IsUsable qs h)

  -- The webhook keeps the label that the controller sets.
  relabelled :
      (ns' : Namespace)
      → IsLabelled (served c) q ns ns'
      → (ns'' : Namespace) × ((default c (namespace ns') later).0 ≡ done ns'')
        × KeepsRest ns ns''
        × (find ns''.labels quota_profile_label_key ≡ some (get_profile_id q.namespace q.name))
  relabelled ns' labelled =
      let (ns'', ends, label) =
        labels_own c profiles profile_store later
          (by_view c profiles profile_store s later (profile_store.clock_apart s) harmony) clock_get
          ns' ps q (clock_lists s ∙ listed) (later-IsUsable (c.sort_by_creation ps) usable)
          (
            labels_of_find ns'.labels quota_profile_label_key _ labelled.profile,
            inr (q, later-IsKnown q own-IsKnown.0, labelled.profile),
          )
          (Some-map _ _ _ (λ o (a, b). (a, names-KeepsRest o labelled.keeps ∙ b)) here) in
      (ns'', ends, KeepsRest-trans labelled.keeps (default-KeepsRest c ns' ns'' later ends), label)

  module _ (finalizer : c.contains_finalizer q.finalizers quota_profile_finalizer ≡ true)
      (all : c.namespaces.list_all s ≡ ok (namespaces s []))
      (there : named ns.name (namespaces s []) ≡ some ns) (some_map : ns.labels ≢ none) where
    reconcile-label : reconcile (served c) q.namespace q.name s ≡ label_and_update (served c) q ns s
    reconcile-label =
        reconcile-labels (served c) q s own-IsKnown.0.stored
          (not_deleted q.deletion_timestamp _ own-IsKnown.1) finalizer
        ∙ reconcile_namespace-label (served c) q ns.name q.namespace q.name s (namespaces s []) ns
            all own-IsKnown.0.stored (named_by q ns own-IsKnown.1) (store.namespaces_api.nodup s [])
            there

    -- What the profile controller stores.
    pub reconcile-stores :
        (ns' ns'' : Namespace) × ((reconcile (served c) q.namespace q.name s).1
          ≡ (c.namespaces.update ns'' (default c (namespace ns') later).1).1)
        × KeepsRest ns ns''
        × (find ns''.labels quota_profile_label_key ≡ some (get_profile_id q.namespace q.name))
    reconcile-stores =
        let (ns', set, labelled) = set_quota_profile_labels-done (served c) q ns s some_map in
        let (ns'', ends, keeps, label) = relabelled ns' labelled in
        (
          ns',
          ns'',
          ap (λ r. r.1) reconcile-label ∙ label-stores c q ns ns' ns'' s later set ends,
          keeps,
          label,
        )
