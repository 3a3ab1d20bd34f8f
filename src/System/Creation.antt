-- ===== src/System/Creation.antt =====
-- A namespace that a user creates, from the webhook to the quotas in it.
use mathlib.Core.Path.{subst}
use namespace_quota_operator.Common.{
  ℕ, ◌≤◌, ◌≡◌, refl, sym, ◌∙◌, ap, true, false, List, [], none, some, is_some, length, get_elem?,
  All, Some, All-Some, arith,
}
use namespace_quota_operator.Text.{Text}
use namespace_quota_operator.Text.Decimal.{max_int, itoa}
use namespace_quota_operator.Effect.{Result, ok, done}
use namespace_quota_operator.Api.{Object, QuotaProfile, Namespace}
use namespace_quota_operator.Client.{Client}
use namespace_quota_operator.Client.Laws.{named, IsConsistent}
use namespace_quota_operator.Ids.{get_resource_quota_id}
use namespace_quota_operator.NamespaceController.{reconcile}
use namespace_quota_operator.NamespaceController.Labelled.{reconcile-labelled}
use namespace_quota_operator.NamespaceController.Sweep.{IsSweepable}
use namespace_quota_operator.ProfileController.Labelling.{KeepsRest, KeepsRest-name}
use namespace_quota_operator.ProfileController.Named.{IsStore}
use namespace_quota_operator.Webhook.{namespace}
use namespace_quota_operator.Webhook.Namespaces.{default}
use namespace_quota_operator.Webhook.Namespaces.Preserve.{default-Preserves}
use namespace_quota_operator.Webhook.Namespaces.Priority.{names, default-KeepsRest}
use namespace_quota_operator.Webhook.Namespaces.Steps.{IsKnown, IsUsable, IsSound}
use namespace_quota_operator.System.{Reach, after, create_namespace, IsCluster, managed_view}
use namespace_quota_operator.System.Steps.{AllGenuine}
use namespace_quota_operator.System.Enforcement.{IsNotBlank, Reach-IsSweepable}
use namespace_quota_operator.System.Clashes.{IsProfileStore, IsHarmonious}
use namespace_quota_operator.System.Agreement.{Reach-labels_own}

module _ {Rq Lr Context : Type 0} (c : Client Rq Lr) (username : Context → Result Text)
    (namespaces : c.State → Text → List Namespace)
    (profiles : c.State → Text → List (QuotaProfile Rq Lr))
    (quotas : c.State → Text → List (Object Rq)) (limits : c.State → Text → List (Object Lr))
    (store : IsStore c namespaces profiles) (cluster : IsCluster c quotas limits)
    (quotas_api : IsConsistent c.quotas quotas) {start s : c.State}
    (genuine : AllGenuine quotas limits start) (reach : Reach c username start s)
    (ns ns' : Namespace) (admitted : (default c (namespace ns) s).0 ≡ done ns') where
  -- The state once the namespace that the webhook lets through is stored.
  abbrev pub created_state : c.State
  created_state = (c.namespaces.create ns' (default c (namespace ns) s).1).1

  -- What the clock and the creation of a namespace leave alone is as it was.
  created_state-view :
      {View : Type 0} (view : c.State → View)
      → ((t : c.State) → view (c.now t).1 ≡ view t)
      → ((t : c.State) → view (c.namespaces.create ns' t).1 ≡ view t)
      → view created_state ≡ view s
  created_state-view view clock create =
      create _
      ∙ (default-Preserves c (λ t. view t ≡ view s) (λ t h. clock t ∙ h) (namespace ns)).at s refl

  created_state-IsSweepable :
      All IsNotBlank (quotas s ns.name)
      → (q : QuotaProfile Rq Lr) → All (IsSweepable q) (quotas created_state ns.name)
  created_state-IsSweepable full =
      Reach-IsSweepable c username quotas limits cluster quotas_api genuine
        (after reach (create_namespace ns ns' s admitted)) ns.name
        (subst (λ v. All IsNotBlank (v.0 ns.name))
          (sym (
            created_state-view (managed_view quotas limits) cluster.clock_apart
              (cluster.namespaces_apart.create ns')))
          full)

  created_state-profile :
      (q : QuotaProfile Rq Lr)
      → named q.name (profiles s q.namespace) ≡ some q
      → c.profiles.get q.namespace q.name created_state ≡ ok q
  created_state-profile q stored =
      rw
        (
          store.profiles_api.get_lem q.namespace q.name created_state,
          created_state-view profiles store.clock_profiles (store.namespaces_apart.create ns'),
          stored,
        )
        refl

  created_state-namespace :
      ns.namespace ≡ []
      → named ns.name (namespaces s []) ≡ none
      → c.namespaces.get [] ns.name created_state ≡ ok ns'
  created_state-namespace cluster_scoped free =
      let t : c.State = (default c (namespace ns) s).1 in
      let keeps : KeepsRest ns ns' = default-KeepsRest c ns ns' s admitted in
      let name : ns'.name ≡ ns.name = KeepsRest-name keeps in
      let space : ns'.namespace ≡ [] = ap (λ x. x.namespace) keeps.rest ∙ cluster_scoped in
      let same : namespaces t ≡ namespaces s =
        (default-Preserves c (λ t. namespaces t ≡ namespaces s)
            (λ t h. store.clock_namespaces t ∙ h) (namespace ns)).at
          s refl in
      let vacant : named ns'.name (namespaces t ns'.namespace) ≡ none =
        cc (same, name, space, free) in
      let here : named ns.name (namespaces created_state []) ≡ some ns' =
        ground (arith, name, space, store.namespaces_api.create_lem ns' t [] ns.name vacant) in
      rw (store.namespaces_api.get_lem [] ns.name created_state, here) refl

module _ {Rq Lr Context : Type 0} (c : Client Rq Lr) (username : Context → Result Text)
    (namespaces : c.State → Text → List Namespace)
    (profiles : c.State → Text → List (QuotaProfile Rq Lr))
    (quotas : c.State → Text → List (Object Rq)) (limits : c.State → Text → List (Object Lr))
    (store : IsStore c namespaces profiles) (profile_store : IsProfileStore c profiles)
    (cluster : IsCluster c quotas limits) (quotas_api : IsConsistent c.quotas quotas)
    {start s : c.State} (genuine : AllGenuine quotas limits start)
    (harmonious : IsHarmonious c (profiles start)) (reach : Reach c username start s) where
  clock_frame : (a b : Text) (t : c.State) → c.profiles.get a b (c.now t).1 ≡ c.profiles.get a b t
  clock_frame a b t =
      rw
        (
          store.profiles_api.get_lem a b (c.now t).1,
          store.profiles_api.get_lem a b t,
          store.clock_profiles t,
        )
        refl

  -- In every state that the system comes to from one in which managed objects are the operator's
  -- and no two stored profiles select by one name or by one label key: the webhook lets a new
  -- namespace through that a listed profile names, and once the API has stored what the webhook
  -- made of it and it has been reconciled, each specification of that profile is that of the quota
  -- of the namespace named after its index. The conditions: the API is consistent, its list of all
  -- profiles leaves none out, `AddFinalizer` makes a list that contains the finalizer, writes of
  -- one kind and the clock leave the others alone, the profile is not being deleted and has at most
  -- `max_int` specifications, no quota of that namespace has an empty profile label; the namespace
  -- has an empty namespace of its own, is not stored yet, is not being deleted and has a map of
  -- labels in which a profile label, if there is one, is that of a stored profile, every listed
  -- profile is stored, selectors by labels have a key, and no profile has a dot in its namespace or
  -- name.
  pub Reach-admits :
      (ns : Namespace) (ps : List (QuotaProfile Rq Lr)) (q : QuotaProfile Rq Lr)
      → c.profiles.list_all s ≡ ok ps
      → All (IsUsable c s) (c.sort_by_creation ps)
      → IsSound c s ns
      → Some (λ o. (o ≡ q) × (names o ns ≡ true)) (c.sort_by_creation ps)
      → ns.namespace ≡ []
      → is_some ns.deletion_timestamp ≡ false
      → named ns.name (namespaces s []) ≡ none
      → length q.spec.resource_quota_specs ≤ max_int
      → All IsNotBlank (quotas s ns.name)
      → (ns' : Namespace) × ((default c (namespace ns) s).0 ≡ done ns')
        × ((i : ℕ) (spec : Rq)
            → get_elem? q.spec.resource_quota_specs i ≡ some spec
            → (o : Object Rq) × (named (get_resource_quota_id q.namespace q.name (itoa i)) (
                  quotas
                    (reconcile c [] ns.name
                      (c.namespaces.create ns' (default c (namespace ns) s).1).1).1
                    ns.name)
                ≡ some o)
              × (o.spec ≡ spec))
  Reach-admits ns ps q listed usable sound here cluster_scoped live free fits full =
      let (ns', ends, label) =
        Reach-labels_own c username profiles profile_store harmonious reach clock_frame ns ps q
          listed usable sound here in
      let (o, (known', _), (is_q, _)) = All-Some _ _ (c.sort_by_creation ps) usable here in
      let known : IsKnown c s q = subst (IsKnown c s) is_q known' in
      let keeps : KeepsRest ns ns' = default-KeepsRest c ns ns' s ends in
      let name : ns'.name ≡ ns.name = KeepsRest-name keeps in
      (
        ns',
        ends,
        λ i spec at. rw name at (
            reconcile-labelled c q [] ns.name ns'
              (c.namespaces.create ns' (default c (namespace ns) s).1).1
              (created_state-namespace c username namespaces profiles quotas limits store cluster
                quotas_api genuine reach ns ns' ends cluster_scoped free)
              (ap (λ x. is_some x.deletion_timestamp) keeps.rest ∙ live) label
              known.dotless_namespace known.dotless_name quotas quotas_api
              cluster.limits_apart.create cluster.limits_apart.update cluster.limits_apart.delete
              (subst
                (λ m.
                  All (IsSweepable q)
                    (quotas (c.namespaces.create ns' (default c (namespace ns) s).1).1 m))
                (sym name)
                (created_state-IsSweepable c username namespaces profiles quotas limits store
                  cluster quotas_api genuine reach ns ns' ends full q))
              (created_state-profile c username namespaces profiles quotas limits store cluster
                quotas_api genuine reach ns ns' ends q
                (profile_store.honest.got q.namespace q.name s q known.stored))
              fits i spec at),
      )
