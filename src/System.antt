-- ===== src/System.antt =====
-- The parts together: a cluster that users, the operator's webhooks and its controllers change, as a
-- step relation. A request of a user reaches the API if the webhook for its kind lets it through; the
-- controllers reconcile any namespace and any profile at any time, and what the profile controller
-- updates goes through the webhooks too. Requests by other service accounts are not steps.
pub mod Genuine
pub mod Steps
pub mod Enforcement
pub mod Relabelling
pub mod Delivery
pub mod Clashes
pub mod Harmony
pub mod Agreement
pub mod Creation
use namespace_quota_operator.Common.{◌≡◌, false, List, []}
use namespace_quota_operator.Text.{Text}
use namespace_quota_operator.Effect.{Result, ok, done}
use namespace_quota_operator.Api.{Object, QuotaProfile, Namespace}
use namespace_quota_operator.Client.{Client}
use namespace_quota_operator.Client.Honest.{IsHonest, IsApart}
use namespace_quota_operator.NamespaceController
use namespace_quota_operator.ProfileController
use namespace_quota_operator.Webhook.{
  resource_quota, limit_range, quota_profile, namespace, is_service_account,
}
use namespace_quota_operator.Webhook.ResourceQuota
use namespace_quota_operator.Webhook.LimitRange
use namespace_quota_operator.Webhook.Profile
use namespace_quota_operator.Webhook.Namespaces
use namespace_quota_operator.Webhook.Served.{served}

module _ {Rq Lr Context : Type 0} (c : Client Rq Lr) (username : Context → Result Text) where
  pub data Step : c.State → c.State → Type 0 where
    create_quota :
        (ctx : Context) (o : Object Rq) (s : c.State)
        → is_service_account username ctx ≡ false
        → ResourceQuota.validate_create {Lr = Lr} username ctx (resource_quota o) ≡ ok tt
        → Step s (c.quotas.create o s).1
    update_quota :
        (ctx : Context) (old o : Object Rq) (s : c.State)
        → is_service_account username ctx ≡ false
        → ResourceQuota.validate_update {Lr = Lr} username ctx
            (resource_quota old)
            (resource_quota o)
          ≡ ok tt
        → Step s (c.quotas.update o s).1
    delete_quota :
        (ctx : Context) (o : Object Rq) (s : c.State)
        → is_service_account username ctx ≡ false
        → ResourceQuota.validate_delete {Lr = Lr} username ctx (resource_quota o) ≡ ok tt
        → Step s (c.quotas.delete o s).1
    create_limit :
        (ctx : Context) (o : Object Lr) (s : c.State)
        → is_service_account username ctx ≡ false
        → LimitRange.validate_create {Rq = Rq} username ctx (limit_range o) ≡ ok tt
        → Step s (c.limits.create o s).1
    update_limit :
        (ctx : Context) (old o : Object Lr) (s : c.State)
        → is_service_account username ctx ≡ false
        → LimitRange.validate_update {Rq = Rq} username ctx (limit_range old) (limit_range o)
          ≡ ok tt
        → Step s (c.limits.update o s).1
    delete_limit :
        (ctx : Context) (o : Object Lr) (s : c.State)
        → is_service_account username ctx ≡ false
        → LimitRange.validate_delete {Rq = Rq} username ctx (limit_range o) ≡ ok tt
        → Step s (c.limits.delete o s).1
    create_namespace :
        (ns ns' : Namespace) (s : c.State)
        → (Namespaces.default c (namespace ns) s).0 ≡ done ns'
        → Step s (c.namespaces.create ns' (Namespaces.default c (namespace ns) s).1).1
    update_namespace :
        (ns ns' : Namespace) (s : c.State)
        → (Namespaces.default c (namespace ns) s).0 ≡ done ns'
        → Step s (c.namespaces.update ns' (Namespaces.default c (namespace ns) s).1).1
    delete_namespace : (ns : Namespace) (s : c.State) → Step s (c.namespaces.delete ns s).1
    create_profile :
        (q : QuotaProfile Rq Lr) (s : c.State)
        → Profile.validate_create c (quota_profile q) s ≡ done tt
        → Step s (c.profiles.create q s).1
    update_profile :
        (old q : QuotaProfile Rq Lr) (s : c.State)
        → Profile.validate_update c (quota_profile old) (quota_profile q) s ≡ done tt
        → Step s (c.profiles.update q s).1
    delete_profile : (q : QuotaProfile Rq Lr) (s : c.State) → Step s (c.profiles.delete q s).1
    reconcile_namespace :
        (name : Text) (s : c.State) → Step s (NamespaceController.reconcile c [] name s).1
    reconcile_profile :
        (namespace name : Text) (s : c.State)
        → Step s (ProfileController.reconcile (served c) namespace name s).1

  -- The states that a cluster comes to from one, by any number of steps in any order.
  pub data Reach (start : c.State) : c.State → Type 0 where
    here : Reach start start
    after : {s s' : c.State} → Reach start s → Step s s' → Reach start s'

-- Both kinds of managed objects, as a view of the state.
abbrev pub managed_view :
    {State Rq Lr : Type 0}
    → (State → Text → List (Object Rq))
    → (State → Text → List (Object Lr))
    → State
    → (Text → List (Object Rq)) × (Text → List (Object Lr))
managed_view quotas limits s = (quotas s, limits s)

-- The API as the steps meet it: honest on both kinds, whose contents no write of another kind and no
-- reading of the clock changes.
pub record IsCluster {Rq Lr : Type 0} (c : Client Rq Lr)
    (quotas : c.State → Text → List (Object Rq)) (limits : c.State → Text → List (Object Lr))
    : Type 0 where
  pub quotas_honest : IsHonest c.quotas quotas
  pub limits_honest : IsHonest c.limits limits
  pub quotas_apart : IsApart c.quotas limits
  pub limits_apart : IsApart c.limits quotas
  pub namespaces_apart : IsApart c.namespaces (managed_view quotas limits)
  pub profiles_apart : IsApart c.profiles (managed_view quotas limits)
  pub clock_apart :
      (s : c.State) → managed_view quotas limits (c.now s).1 ≡ managed_view quotas limits s
