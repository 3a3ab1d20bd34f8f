-- ===== src/Start/Setup.antt =====
-- `SetupWithManager` of the controllers in internal/controller, and the functions
-- `Setup…WebhookWithManager` of internal/webhook. The client is the one that `mgr.GetClient()` returns.
use namespace_quota_operator.Text.{Text, codes}
use namespace_quota_operator.Effect.{Result, Action, returned, lift, command}
use namespace_quota_operator.Client.{Client}
use namespace_quota_operator.Start.{
  namespace_kind, quota_profile_kind, resource_quota_kind, limit_range_kind, Controller, Hook,
  defaulter, validator, Runtime,
}
use namespace_quota_operator.ProfileController
use namespace_quota_operator.NamespaceController
use namespace_quota_operator.Webhook.ResourceQuota
use namespace_quota_operator.Webhook.LimitRange
use namespace_quota_operator.Webhook.Profile
use namespace_quota_operator.Webhook.Namespaces

module _ {Rq Lr Context : Type 0} (c : Client Rq Lr) (username : Context → Result Text) where
  abbrev pub profile_controller : Controller c.State
  profile_controller = record {
    for_kind = quota_profile_kind;
    named = codes "quotaprofile";
    reconciler = ProfileController.reconcile c;
  }

  abbrev pub namespace_controller : Controller c.State
  namespace_controller = record {
    for_kind = namespace_kind;
    named = codes "namespace";
    reconciler = NamespaceController.reconcile c;
  }

  abbrev pub profile_webhook : Hook c.State Rq Lr Context
  profile_webhook = record {
    for_kind = quota_profile_kind;
    handler =
        validator (λ _ obj s. (Profile.validate_create c obj s, s))
          (λ _ old obj s. (Profile.validate_update c old obj s, s))
          (λ _ obj s. (Profile.validate_delete c obj s, s));
  }

  abbrev pub namespace_webhook : Hook c.State Rq Lr Context
  namespace_webhook = record {
    for_kind = namespace_kind;
    handler = defaulter (Namespaces.default c);
  }

  abbrev pub resource_quota_webhook : Hook c.State Rq Lr Context
  resource_quota_webhook = record {
    for_kind = resource_quota_kind;
    handler =
        validator (λ ctx obj. lift (returned (ResourceQuota.validate_create username ctx obj)))
          (λ ctx old obj. lift (returned (ResourceQuota.validate_update username ctx old obj)))
          (λ ctx obj. lift (returned (ResourceQuota.validate_delete username ctx obj)));
  }

  abbrev pub limit_range_webhook : Hook c.State Rq Lr Context
  limit_range_webhook = record {
    for_kind = limit_range_kind;
    handler =
        validator (λ ctx obj. lift (returned (LimitRange.validate_create username ctx obj)))
          (λ ctx old obj. lift (returned (LimitRange.validate_update username ctx old obj)))
          (λ ctx obj. lift (returned (LimitRange.validate_delete username ctx obj)));
  }

  module _ (r : Runtime c.State Rq Lr Context) where
    unfoldable pub setup_profile_controller : Action r.World (Unit {0})
    setup_profile_controller = command (r.complete_controller profile_controller)

    unfoldable pub setup_namespace_controller : Action r.World (Unit {0})
    setup_namespace_controller = command (r.complete_controller namespace_controller)

    unfoldable pub setup_profile_webhook : Action r.World (Unit {0})
    setup_profile_webhook = command (r.complete_webhook profile_webhook)

    unfoldable pub setup_namespace_webhook : Action r.World (Unit {0})
    setup_namespace_webhook = command (r.complete_webhook namespace_webhook)

    unfoldable pub setup_resource_quota_webhook : Action r.World (Unit {0})
    setup_resource_quota_webhook = command (r.complete_webhook resource_quota_webhook)

    unfoldable pub setup_limit_range_webhook : Action r.World (Unit {0})
    setup_limit_range_webhook = command (r.complete_webhook limit_range_webhook)
