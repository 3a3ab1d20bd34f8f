-- ===== src/Webhook/ResourceQuota/Protection.antt =====
-- The three validators of resource quotas, by who makes the request.
use namespace_quota_operator.Common.{◌≡◌, ◌↔◌, ◌⊎◌, true, false, none, some, refl, arith}
use namespace_quota_operator.Text.{Text}
use namespace_quota_operator.Labels.{Labels, delete}
use namespace_quota_operator.Labels.Laws.{value-delete}
use namespace_quota_operator.Effect.{Result, ok}
use namespace_quota_operator.Api.{Object, quota_profile_label_key}
use namespace_quota_operator.Webhook.{
  RuntimeObject, resource_quota, is_managed_by_quota_profile, is_service_account,
}
use namespace_quota_operator.Webhook.Requests.{
  IsUnmanaged, IsServiceAccount, is_managed-IsUnmanaged, is_service_account-IsServiceAccount,
  either_way, both_ways,
}
use namespace_quota_operator.Webhook.ResourceQuota.{
  validate_create, validate_update, validate_delete,
}

pub is_managed-delete :
    (labels : Labels) → is_managed_by_quota_profile (delete labels quota_profile_label_key) ≡ false
unfolding is_managed_by_quota_profile delete
is_managed-delete none = refl
is_managed-delete (some m) =
    let e = value-delete (some m) quota_profile_label_key in ground (arith, e)

-- The quota without the profile label.
abbrev pub unlabelled : {Spec : Type 0} → Object Spec → Object Spec
unlabelled rq = record rq {
  meta = record rq.meta { labels = delete rq.labels quota_profile_label_key };
}

module _ {Rq Lr Context : Type 0} (username : Context → Result Text) where
  pub quota_guard :
      (ctx : Context) (old : RuntimeObject Rq Lr) (rq : Object Rq)
      → let Allowed : Type 0 =
          (is_managed_by_quota_profile rq.labels ≡ false)
          ⊎ (is_service_account username ctx ≡ true) in
        ((validate_create {Lr = Lr} username ctx (resource_quota rq) ≡ ok tt) ↔ Allowed)
        × ((validate_update username ctx old (resource_quota rq) ≡ ok tt) ↔ Allowed)
        × ((validate_delete {Lr = Lr} username ctx (resource_quota rq) ≡ ok tt) ↔ Allowed)
  unfolding validate_create validate_update validate_delete
  quota_guard ctx old rq = (ground arith, ground arith, ground arith)

  -- A request to create or delete a resource quota, or to update one to the given object, is
  -- accepted exactly if the object carries no profile label or an empty one, or the request names
  -- its user and the user's name begins with `system:serviceaccount:`.
  pub quota_requests :
      (ctx : Context) (old : RuntimeObject Rq Lr) (rq : Object Rq)
      → let Allowed : Type 0 = IsUnmanaged rq.labels ⊎ IsServiceAccount username ctx in
        ((validate_create {Lr = Lr} username ctx (resource_quota rq) ≡ ok tt) ↔ Allowed)
        × ((validate_update username ctx old (resource_quota rq) ≡ ok tt) ↔ Allowed)
        × ((validate_delete {Lr = Lr} username ctx (resource_quota rq) ≡ ok tt) ↔ Allowed)
  quota_requests ctx old rq =
      let (create, update, delete) = quota_guard ctx old rq in
      let allowed =
        either_way (is_managed-IsUnmanaged rq.labels)
          (is_service_account-IsServiceAccount username ctx) in
      (both_ways create allowed, both_ways update allowed, both_ways delete allowed)

module _ (Rq Lr : Type 0) {Context : Type 0} (username : Context → Result Text) where
  -- Anyone may take the profile label off a managed quota by an update, and then delete the quota.
  pub quota_label_removal :
      (ctx : Context) (rq : Object Rq)
      → (validate_update {Lr = Lr} username ctx (resource_quota rq) (resource_quota (unlabelled rq))
          ≡ ok tt)
        × (validate_delete {Lr = Lr} username ctx (resource_quota (unlabelled rq)) ≡ ok tt)
  unfolding validate_update validate_delete
  quota_label_removal ctx rq = (rw (is_managed-delete rq.labels), rw (is_managed-delete rq.labels))
