-- ===== src/Webhook.antt =====
-- internal/webhook: the admission webhooks, and what they share. An object that arrives is one of the
-- kinds that the webhooks ask for, or of any other.
pub mod ResourceQuota
pub mod LimitRange
pub mod Profile
pub mod Namespaces
pub mod Served
pub mod Requests
use namespace_quota_operator.Common.{Bool, true, false, not, Option, none, some, [], ◌∷◌}
use namespace_quota_operator.Text.{Text, codes, has_prefix, ◌==◌}
use namespace_quota_operator.Labels.{Labels, value}
use namespace_quota_operator.Effect.{Result, ok, err}
use namespace_quota_operator.Api.{Object, QuotaProfile, Namespace, quota_profile_label_key}

-- `runtime.Object`
pub data RuntimeObject (Rq Lr : Type 0) : Type 0 where
  resource_quota : Object Rq → RuntimeObject Rq Lr
  limit_range : Object Lr → RuntimeObject Rq Lr
  quota_profile : QuotaProfile Rq Lr → RuntimeObject Rq Lr
  namespace : Namespace → RuntimeObject Rq Lr
  other : RuntimeObject Rq Lr

unfoldable pub is_managed_by_quota_profile : Labels → Bool
is_managed_by_quota_profile none = false
is_managed_by_quota_profile (some m) = not (value (some m) quota_profile_label_key == [])

-- `username` is admission.RequestFromContext and the user name of the request that it returns.
unfoldable pub is_service_account : {Context : Type 0} → (Context → Result Text) → Context → Bool
is_service_account username ctx = elim (username ctx) [
  | err e ↦ false
  | ok name ↦ has_prefix name (codes "system:serviceaccount:")
]
