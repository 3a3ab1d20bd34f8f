-- ===== src/Webhook/LimitRange.antt =====
-- internal/webhook/v1/limitrange_webhook.go: `LimitRangeCustomValidator`. The warnings are
-- always nil.
pub mod Protection
use namespace_quota_operator.Common.{not, if◌then◌else◌}
use namespace_quota_operator.Text.{Text, codes}
use namespace_quota_operator.Effect.{Result, ok, err, wrong_object, refused}
use namespace_quota_operator.Webhook.{
  RuntimeObject, limit_range, is_managed_by_quota_profile, is_service_account,
}

module _ {Rq Lr Context : Type 0} (username : Context → Result Text) where
  unfoldable pub validate_create : Context → RuntimeObject Rq Lr → Result (Unit {0})
  validate_create ctx (limit_range lr) =
      if not (is_managed_by_quota_profile lr.labels)
      then ok tt
      else if not (is_service_account username ctx)
      then err (refused (codes "only service accounts are allowed to create managed limit ranges"))
      else ok tt
  validate_create ctx _ = err wrong_object

  -- The old object is not looked at.
  unfoldable pub validate_update :
      Context → RuntimeObject Rq Lr → RuntimeObject Rq Lr → Result (Unit {0})
  validate_update ctx old (limit_range lr) =
      if not (is_managed_by_quota_profile lr.labels)
      then ok tt
      else if not (is_service_account username ctx)
      then err (refused (codes "only service accounts are allowed to update managed limit ranges"))
      else ok tt
  validate_update ctx old _ = err wrong_object

  unfoldable pub validate_delete : Context → RuntimeObject Rq Lr → Result (Unit {0})
  validate_delete ctx (limit_range lr) =
      if not (is_managed_by_quota_profile lr.labels)
      then ok tt
      else if not (is_service_account username ctx)
      then err (refused (codes "only service accounts are allowed to delete managed limit ranges"))
      else ok tt
  validate_delete ctx _ = err wrong_object
