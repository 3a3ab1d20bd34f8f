-- ===== src/Webhook/LimitRange/Protection.antt =====
-- The three validators of limit ranges, by who makes the request.
use namespace_quota_operator.Common.{◌≡◌, ◌↔◌, ◌⊎◌, true, false, arith}
use namespace_quota_operator.Text.{Text}
use namespace_quota_operator.Effect.{Result, ok}
use namespace_quota_operator.Api.{Object}
use namespace_quota_operator.Webhook.{
  RuntimeObject, limit_range, is_managed_by_quota_profile, is_service_account,
}
use namespace_quota_operator.Webhook.ResourceQuota.Protection.{is_managed-delete, unlabelled}
use namespace_quota_operator.Webhook.Requests.{
  IsUnmanaged, IsServiceAccount, is_managed-IsUnmanaged, is_service_account-IsServiceAccount,
  either_way, both_ways,
}
use namespace_quota_operator.Webhook.LimitRange.{validate_create, validate_update, validate_delete}

module _ {Rq Lr Context : Type 0} (username : Context → Result Text) where
  pub limit_guard :
      (ctx : Context) (old : RuntimeObject Rq Lr) (lr : Object Lr)
      → let Allowed : Type 0 =
          (is_managed_by_quota_profile lr.labels ≡ false)
          ⊎ (is_service_account username ctx ≡ true) in
        ((validate_create {Rq = Rq} username ctx (limit_range lr) ≡ ok tt) ↔ Allowed)
        × ((validate_update username ctx old (limit_range lr) ≡ ok tt) ↔ Allowed)
        × ((validate_delete {Rq = Rq} username ctx (limit_range lr) ≡ ok tt) ↔ Allowed)
  unfolding validate_create validate_update validate_delete
  limit_guard ctx old lr = (ground arith, ground arith, ground arith)

  -- A request to create or delete a limit range, or to update one to the given object, is accepted
  -- exactly if the object carries no profile label or an empty one, or the request names its user
  -- and the user's name begins with `system:serviceaccount:`.
  pub limit_requests :
      (ctx : Context) (old : RuntimeObject Rq Lr) (lr : Object Lr)
      → let Allowed : Type 0 = IsUnmanaged lr.labels ⊎ IsServiceAccount username ctx in
        ((validate_create {Rq = Rq} username ctx (limit_range lr) ≡ ok tt) ↔ Allowed)
        × ((validate_update username ctx old (limit_range lr) ≡ ok tt) ↔ Allowed)
        × ((validate_delete {Rq = Rq} username ctx (limit_range lr) ≡ ok tt) ↔ Allowed)
  limit_requests ctx old lr =
      let (create, update, delete) = limit_guard ctx old lr in
      let allowed =
        either_way (is_managed-IsUnmanaged lr.labels)
          (is_service_account-IsServiceAccount username ctx) in
      (both_ways create allowed, both_ways update allowed, both_ways delete allowed)

module _ (Rq Lr : Type 0) {Context : Type 0} (username : Context → Result Text) where
  -- Anyone may take the profile label off a managed limit range by an update, and then delete it.
  pub limit_label_removal :
      (ctx : Context) (lr : Object Lr)
      → (validate_update {Rq = Rq} username ctx (limit_range lr) (limit_range (unlabelled lr))
          ≡ ok tt)
        × (validate_delete {Rq = Rq} username ctx (limit_range (unlabelled lr)) ≡ ok tt)
  unfolding validate_update validate_delete
  limit_label_removal ctx lr = (rw (is_managed-delete lr.labels), rw (is_managed-delete lr.labels))
