-- ===== src/System/Steps.antt =====
-- Every step of the system keeps managed objects genuine.
use namespace_quota_operator.Common.{◌≡◌, ◌⊎◌, sym, inl, inr, true, false, Bool, List, []}
use mathlib.Core.Path.{subst}
use namespace_quota_operator.Text.{Text}
use namespace_quota_operator.Effect.{Result}
use namespace_quota_operator.Effect.Preserve.{Keeps}
use namespace_quota_operator.Api.{Object, Namespace, QuotaProfile}
use namespace_quota_operator.Client.{Client}
use namespace_quota_operator.Client.Honest.{IsKept, Everywhere, Everywhere-IsKept, IsKept-swap}
use namespace_quota_operator.Ids.{get_resource_quota_id, get_limit_range_id}
use namespace_quota_operator.NamespaceController.Preserve.Whole
use namespace_quota_operator.ProfileController.Preserve
use namespace_quota_operator.Webhook.{
  resource_quota, limit_range, namespace, is_managed_by_quota_profile,
}
use namespace_quota_operator.Webhook.Namespaces.Preserve.{default-Preserves}
use namespace_quota_operator.Webhook.ResourceQuota.Protection.{quota_guard}
use namespace_quota_operator.Webhook.LimitRange.Protection.{limit_guard}
use namespace_quota_operator.Webhook.Served.{served, served_namespaces-Keeps, served_profiles-Keeps}
use namespace_quota_operator.System.{
  Step, create_quota, update_quota, delete_quota, create_limit, update_limit, delete_limit,
  create_namespace, update_namespace, delete_namespace, create_profile, update_profile,
  delete_profile, reconcile_namespace, reconcile_profile, Reach, here, after, managed_view,
  IsCluster,
}
use namespace_quota_operator.System.Genuine.{
  IsGenuine, IsGenuine-stable, IsGenuine-IsManaged, IsGenuine-unmanaged,
}

-- Every managed quota and every managed limit range of the cluster is one that the operator made.
abbrev pub AllGenuine :
    {State Rq Lr : Type 0}
    → (State → Text → List (Object Rq))
    → (State → Text → List (Object Lr))
    → State
    → Type 0
AllGenuine quotas limits s =
    Everywhere (IsGenuine get_resource_quota_id) quotas s
    × Everywhere (IsGenuine get_limit_range_id) limits s

module _ {Rq Lr : Type 0} (c : Client Rq Lr) (quotas : c.State → Text → List (Object Rq))
    (limits : c.State → Text → List (Object Lr)) (cluster : IsCluster c quotas limits) where
  abbrev Inv : c.State → Type 0
  Inv = AllGenuine quotas limits

  quotas_kept : IsKept c.quotas Inv (IsGenuine get_resource_quota_id)
  quotas_kept =
      Everywhere-IsKept c.quotas quotas cluster.quotas_honest (IsGenuine get_resource_quota_id)
        (IsGenuine-stable get_resource_quota_id) limits cluster.quotas_apart
        (Everywhere (IsGenuine get_limit_range_id) (λ view. view))

  limits_kept : IsKept c.limits Inv (IsGenuine get_limit_range_id)
  limits_kept =
      IsKept-swap (λ s (a, b). (b, a)) (λ s (a, b). (b, a))
        (Everywhere-IsKept c.limits limits cluster.limits_honest (IsGenuine get_limit_range_id)
          (IsGenuine-stable get_limit_range_id) quotas cluster.limits_apart
          (Everywhere (IsGenuine get_resource_quota_id) (λ view. view)))

  -- What leaves both kinds alone keeps the invariant.
  by_view :
      (s s' : c.State)
      → managed_view quotas limits s' ≡ managed_view quotas limits s
      → Inv s
      → Inv s'
  by_view s s' same h =
      subst
        (λ (view : (Text → List (Object Rq)) × (Text → List (Object Lr))).
          Everywhere (IsGenuine get_resource_quota_id) (λ v. v) view.0
          × Everywhere (IsGenuine get_limit_range_id) (λ v. v) view.1)
        (sym same) h

  clock : Keeps Inv c.now
  clock s h = by_view s (c.now s).1 (cluster.clock_apart s) h

  namespaces : (ns : Namespace) → Keeps Inv (c.namespaces.update ns)
  namespaces ns s h = by_view s _ (cluster.namespaces_apart.update ns s) h

  profiles : (q : QuotaProfile Rq Lr) → Keeps Inv (c.profiles.update q)
  profiles q s h = by_view s _ (cluster.profiles_apart.update q s) h

  by_user :
      {Spec : Type 0} (id : Text → Text → Text → Text) (o : Object Spec) (trusted : Bool)
      → trusted ≡ false
      → (is_managed_by_quota_profile o.labels ≡ false) ⊎ (trusted ≡ true)
      → IsGenuine id o
  by_user id o trusted user (inl unmanaged) = IsGenuine-unmanaged id o unmanaged
  by_user id o trusted user (inr service) = cc

  module _ {Context : Type 0} (username : Context → Result Text) where
    Step-AllGenuine : {s s' : c.State} → Step c username s s' → Inv s → Inv s'
    Step-AllGenuine (create_quota ctx o s user accepted) h =
        let ((allowed, _), _, _) = quota_guard {Lr = Lr} username ctx (resource_quota o) o in
        quotas_kept.created o (by_user get_resource_quota_id o _ user (allowed accepted)) s h
    Step-AllGenuine (update_quota ctx old o s user accepted) h =
        let (_, (allowed, _), _) = quota_guard username ctx (resource_quota old) o in
        quotas_kept.updated o (by_user get_resource_quota_id o _ user (allowed accepted)) s h
    Step-AllGenuine (delete_quota ctx o s user accepted) h = quotas_kept.deleted o s h
    Step-AllGenuine (create_limit ctx o s user accepted) h =
        let ((allowed, _), _, _) = limit_guard {Rq = Rq} username ctx (limit_range o) o in
        limits_kept.created o (by_user get_limit_range_id o _ user (allowed accepted)) s h
    Step-AllGenuine (update_limit ctx old o s user accepted) h =
        let (_, (allowed, _), _) = limit_guard username ctx (limit_range old) o in
        limits_kept.updated o (by_user get_limit_range_id o _ user (allowed accepted)) s h
    Step-AllGenuine (delete_limit ctx o s user accepted) h = limits_kept.deleted o s h
    Step-AllGenuine (create_namespace ns ns' s admitted) h =
        by_view _ _ (cluster.namespaces_apart.create ns' _)
          ((default-Preserves c Inv clock (namespace ns)).at s h)
    Step-AllGenuine (update_namespace ns ns' s admitted) h =
        namespaces ns' _ ((default-Preserves c Inv clock (namespace ns)).at s h)
    Step-AllGenuine (delete_namespace ns s) h = by_view s _ (cluster.namespaces_apart.delete ns s) h
    Step-AllGenuine (create_profile q s admitted) h =
        by_view s _ (cluster.profiles_apart.create q s) h
    Step-AllGenuine (update_profile old q s admitted) h = profiles q s h
    Step-AllGenuine (delete_profile q s) h = by_view s _ (cluster.profiles_apart.delete q s) h
    Step-AllGenuine (reconcile_namespace name s) h =
        (Whole.reconcile-Preserves c Inv (IsGenuine get_resource_quota_id)
            (IsGenuine get_limit_range_id) quotas_kept limits_kept
            (IsGenuine-IsManaged get_resource_quota_id) (IsGenuine-IsManaged get_limit_range_id) []
            name).at
          s h
    Step-AllGenuine (reconcile_profile ns name s) h =
        (Preserve.reconcile-Preserves (served c) Inv clock
            (served_namespaces-Keeps c Inv clock namespaces)
            (λ q. served_profiles-Keeps c Inv q (profiles q)) ns name).at
          s h

    -- With an API that keeps what it is given, whether its calls succeed or fail, no step of the
    -- system ends with a managed object that the operator did not make: if at the start every quota
    -- and limit range with a profile label that is not empty carries the identifier of some
    -- profile, a name that the operator gives to an object of that profile, and no finalizers, then
    -- so it is in every state that is reached.
    pub Reach-AllGenuine :
        {start s : c.State}
        → AllGenuine quotas limits start
        → Reach c username start s
        → AllGenuine quotas limits s
    Reach-AllGenuine h here = h
    Reach-AllGenuine h (after reach step) = Step-AllGenuine step (Reach-AllGenuine h reach)
