-- ===== src/System/Delivery.antt =====
-- A profile that names a namespace, from its reconciliation to the quotas and limit ranges there.
use mathlib.Core.Path.{subst}
use namespace_quota_operator.Common.{
  ℕ, ◌≤◌, ◌≡◌, ◌≢◌, refl, sym, ◌∙◌, ap, true, false, List, [], none, some, is_some, length,
  get_elem?, All, Some, arith,
}
use namespace_quota_operator.Text.{Text}
use namespace_quota_operator.Text.Decimal.{max_int, itoa}
use namespace_quota_operator.Labels.{find}
use namespace_quota_operator.Effect.{Result, ok}
use namespace_quota_operator.Api.{
  Object, QuotaProfile, Namespace, quota_profile_label_key, quota_profile_finalizer,
}
use namespace_quota_operator.Client.{Client}
use namespace_quota_operator.Client.Laws.{named, IsConsistent}
use namespace_quota_operator.Client.Loop.{named-All}
use namespace_quota_operator.Ids.{get_profile_id, get_resource_quota_id, get_limit_range_id}
use namespace_quota_operator.NamespaceController
use namespace_quota_operator.NamespaceController.Labelled.{reconcile-labelled}
use namespace_quota_operator.NamespaceController.LabelledLimits.{reconcile-labelled_limits}
use namespace_quota_operator.NamespaceController.LimitCreate.{created}
use namespace_quota_operator.NamespaceController.Sweep.{IsSweepable}
use namespace_quota_operator.ProfileController
use namespace_quota_operator.ProfileController.Named.{IsStore}
use namespace_quota_operator.ProfileController.Labelling.{KeepsRest, KeepsRest-name}
use namespace_quota_operator.Webhook.{namespace}
use namespace_quota_operator.Webhook.Served.{served}
use namespace_quota_operator.Webhook.Namespaces.{default}
use namespace_quota_operator.Webhook.Namespaces.Preserve.{default-Preserves}
use namespace_quota_operator.Webhook.Namespaces.Priority.{names}
use namespace_quota_operator.Webhook.Namespaces.Steps.{IsKnown, IsUsable}
use namespace_quota_operator.System.{reconcile_profile, Reach, after, IsCluster, managed_view}
use namespace_quota_operator.System.Steps.{AllGenuine}
use namespace_quota_operator.System.Enforcement.{IsNotBlank, Reach-IsSweepable}
use namespace_quota_operator.System.Clashes.{IsProfileStore, IsHarmonious}
use namespace_quota_operator.System.Harmony.{Reach-IsHarmonious}
use namespace_quota_operator.System.Relabelling.{own-IsKnown, reconcile-stores}

module _ {Rq Lr Context : Type 0} (c : Client Rq Lr) (username : Context → Result Text)
    (namespaces : c.State → Text → List Namespace)
    (profiles : c.State → Text → List (QuotaProfile Rq Lr))
    (quotas : c.State → Text → List (Object Rq)) (limits : c.State → Text → List (Object Lr))
    (store : IsStore c namespaces profiles) (profile_store : IsProfileStore c profiles)
    (clock_lists : (t : c.State) → c.profiles.list_all (c.now t).1 ≡ c.profiles.list_all t)
    (cluster : IsCluster c quotas limits) (quotas_api : IsConsistent c.quotas quotas)
    {start s : c.State} (genuine : AllGenuine quotas limits start)
    (harmonious : IsHarmonious c (profiles start)) (reach : Reach c username start s)
    (q : QuotaProfile Rq Lr) (ns : Namespace) (ps : List (QuotaProfile Rq Lr))
    (listed : c.profiles.list_all s ≡ ok ps) (usable : All (IsUsable c s) (c.sort_by_creation ps))
    (here : Some (λ o. (o ≡ q) × (names o ns ≡ true)) (c.sort_by_creation ps))
    (finalizer : c.contains_finalizer q.finalizers quota_profile_finalizer ≡ true)
    (all : c.namespaces.list_all s ≡ ok (namespaces s []))
    (there : named ns.name (namespaces s []) ≡ some ns) (some_map : ns.labels ≢ none)
    (present : is_some ns.deletion_timestamp ≡ false) where
  -- The state once the profile has been reconciled.
  abbrev pub labelled_state : c.State
  labelled_state = (ProfileController.reconcile (served c) q.namespace q.name s).1

  -- The namespace as the profile controller and the webhook leave it.
  stores :
      (ns' ns'' : Namespace) × (labelled_state
        ≡ (c.namespaces.update ns'' (default c (namespace ns') (c.now s).1).1).1)
      × KeepsRest ns ns''
      × (find ns''.labels quota_profile_label_key ≡ some (get_profile_id q.namespace q.name))
  stores =
      reconcile-stores c namespaces profiles store profile_store clock_lists s
        (Reach-IsHarmonious c profiles profile_store username harmonious reach) q ns ps listed
        usable here finalizer all there some_map

  self : IsKnown c s q × (names q ns ≡ true)
  self =
      own-IsKnown c namespaces profiles store profile_store clock_lists s
        (Reach-IsHarmonious c profiles profile_store username harmonious reach) q ns ps listed
        usable here

  -- A view that the clock leaves alone, before the namespace is written.
  admitted-view :
      {View : Type 0} (view : c.State → View)
      → ((t : c.State) → view (c.now t).1 ≡ view t)
      → (ns' : Namespace) → view (default c (namespace ns') (c.now s).1).1 ≡ view s
  admitted-view view clock ns' =
      (default-Preserves c (λ t. view t ≡ view s) (λ t h. clock t ∙ h) (namespace ns')).at
        (c.now s).1 (clock s)

  -- What the clock and the writes of namespaces leave alone is as it was.
  labelled_state-view :
      {View : Type 0} (view : c.State → View)
      → ((t : c.State) → view (c.now t).1 ≡ view t)
      → ((ns : Namespace) (t : c.State) → view (c.namespaces.update ns t).1 ≡ view t)
      → view labelled_state ≡ view s
  labelled_state-view view clock update =
      let (ns', ns'', same, _, _) = stores in
      ap view same ∙ update ns'' _ ∙ admitted-view view clock ns'

  labelled_state-managed : managed_view quotas limits labelled_state ≡ managed_view quotas limits s
  labelled_state-managed =
      labelled_state-view (managed_view quotas limits) cluster.clock_apart
        cluster.namespaces_apart.update

  labelled_state-IsSweepable :
      All IsNotBlank (quotas s ns.name)
      → (n : Text) → n ≡ ns.name
      → All (IsSweepable q) (quotas labelled_state n)
  labelled_state-IsSweepable full n same =
      subst (λ n. All (IsSweepable q) (quotas labelled_state n)) (sym same)
        (Reach-IsSweepable c username quotas limits cluster quotas_api genuine
          (after reach (reconcile_profile q.namespace q.name s)) ns.name
          (subst (λ v. All IsNotBlank (v.0 ns.name)) (sym labelled_state-managed) full) q)

  labelled_state-profile : c.profiles.get q.namespace q.name labelled_state ≡ ok q
  labelled_state-profile =
      rw
        (
          store.profiles_api.get_lem q.namespace q.name labelled_state,
          labelled_state-view profiles store.clock_profiles store.namespaces_apart.update,
          profile_store.honest.got q.namespace q.name s q self.0.stored,
        )
        refl

  -- The namespace as it is stored in the end.
  labelled_state-namespace :
      (ns'' : Namespace) × (c.namespaces.get [] ns.name labelled_state ≡ ok ns'')
      × (ns''.name ≡ ns.name)
      × (is_some ns''.deletion_timestamp ≡ false)
      × (find ns''.labels quota_profile_label_key ≡ some (get_profile_id q.namespace q.name))
  labelled_state-namespace =
      let (ns', ns'', same, keeps, label) = stores in
      let u : c.State = (default c (namespace ns') (c.now s).1).1 in
      let (placed, _) =
        named-All (λ o. o.namespace ≡ []) ns.name (namespaces s [])
          (store.namespaces_api.placed s []) there in
      let name : ns''.name ≡ ns.name = KeepsRest-name keeps in
      let space : ns''.namespace ≡ [] = ap (λ x. x.namespace) keeps.rest ∙ placed in
      let view : namespaces u ≡ namespaces s =
        admitted-view namespaces store.clock_namespaces ns' in
      let present' : named ns''.name (namespaces u ns''.namespace) ≢ none =
        λ h. cc (view, name, space, there, h) in
      let found : named ns.name (namespaces labelled_state []) ≡ some ns'' =
        ap (λ t. named ns.name (namespaces t [])) same
        ∙ ground (arith, name, space, store.namespaces_api.update_lem ns'' u [] ns.name present') in
      (
        ns'',
        rw (store.namespaces_api.get_lem [] ns.name labelled_state, found) refl,
        name,
        ap (λ x. is_some x.deletion_timestamp) keeps.rest ∙ present,
        label,
      )

  -- In every state that the system comes to from one in which managed objects are the operator's
  -- and no two stored profiles select by one name or by one label key: if a listed profile that is
  -- not being deleted names a namespace that is stored, is not being deleted and has a map of
  -- labels, then once the profile and then the namespace have been reconciled, each specification
  -- of the profile is that of the quota of the namespace named after its index. The operator's own
  -- updates of namespaces and profiles go through the webhooks, as those of users do. The
  -- conditions: the API is consistent, its lists of all namespaces and all profiles are those of
  -- the stored ones, `AddFinalizer` makes a list that contains the finalizer, writes of one kind
  -- and the clock leave the others alone, every listed profile is stored, without a dot in its
  -- namespace and name and with a key if it selects by labels, the profile has the operator's
  -- finalizer already and at most `max_int` specifications, and no quota of the namespace has an
  -- empty profile label.
  pub Reach-delivers :
      length q.spec.resource_quota_specs ≤ max_int
      → All IsNotBlank (quotas s ns.name)
      → (i : ℕ) (spec : Rq) → get_elem? q.spec.resource_quota_specs i ≡ some spec
      → (o : Object Rq) × (named
            (get_resource_quota_id q.namespace q.name (itoa i))
            (quotas (NamespaceController.reconcile c [] ns.name labelled_state).1 ns.name)
          ≡ some o)
        × (o.spec ≡ spec)
  Reach-delivers fits full i spec at =
      let (ns'', found, name, live, label) = labelled_state-namespace in
      rw name at (
        reconcile-labelled c q [] ns.name ns'' labelled_state found live label
          self.0.dotless_namespace self.0.dotless_name quotas quotas_api cluster.limits_apart.create
          cluster.limits_apart.update cluster.limits_apart.delete
          (labelled_state-IsSweepable full ns''.name name) labelled_state-profile fits i spec at)

  -- In every state that the system comes to from one in which managed objects are the operator's
  -- and no two stored profiles select by one name or by one label key: if a listed profile that is
  -- not being deleted names a namespace that is stored, is not being deleted, has a map of labels
  -- and holds no limit range, then once the profile and then the namespace have been reconciled,
  -- each limit range of the profile is there as the operator makes it, named after its index. The
  -- operator's own updates of namespaces and profiles go through the webhooks, as those of users
  -- do. The conditions: the API is consistent, its lists of all namespaces and all profiles are
  -- those of the stored ones, `AddFinalizer` makes a list that contains the finalizer, writes of
  -- one kind and the clock leave the others alone, every listed profile is stored, without a dot in
  -- its namespace and name and with a key if it selects by labels, the profile has the operator's
  -- finalizer already and at most `max_int` limit ranges, and no quota of the namespace has an
  -- empty profile label.
  pub Reach-delivers_limits :
      length q.spec.limit_range_specs ≤ max_int
      → All IsNotBlank (quotas s ns.name)
      → IsConsistent c.limits limits
      → limits s ns.name ≡ []
      → (i : ℕ) (spec : Lr) → get_elem? q.spec.limit_range_specs i ≡ some spec
      → named
          (get_limit_range_id q.namespace q.name (itoa i))
          (limits (NamespaceController.reconcile c [] ns.name labelled_state).1 ns.name)
        ≡ some (created q ns.name i spec)
  Reach-delivers_limits fits full limits_api empty i spec at =
      let (ns'', found, name, live, label) = labelled_state-namespace in
      rw name at (
        reconcile-labelled_limits c q [] ns.name ns'' labelled_state quotas limits quotas_api
          limits_api cluster.quotas_apart found live label self.0.dotless_namespace
          self.0.dotless_name (labelled_state-IsSweepable full ns''.name name)
          (ap (limits labelled_state) name ∙ ap (λ v. v.1 ns.name) labelled_state-managed ∙ empty)
          labelled_state-profile fits i spec at)
