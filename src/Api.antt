-- ===== src/Api.antt =====
-- The objects of api/v1alpha1/quotaprofile_types.go, and of the Kubernetes objects that the operator
-- handles the parts that it reads or writes.
use namespace_quota_operator.Common.{ℕ, Option, none, List, []}
use namespace_quota_operator.Text.{Text, codes}
use namespace_quota_operator.Labels.{Labels}

abbrev pub quota_profile_finalizer : Text
quota_profile_finalizer = codes "quota.dev.operator/finalizer"

abbrev pub quota_profile_label_key : Text
quota_profile_label_key = codes "quota.dev.operator/profile"

abbrev pub quota_profile_last_update_timestamp : Text
quota_profile_last_update_timestamp = codes "quota.dev.operator/profile-last-update-timestamp"

-- A creation timestamp is a number of seconds, 0 for the zero time; no pointer is `none`.
pub record ObjectMeta : Type 0 where
  pub name : Text
  pub namespace : Text
  pub labels : Labels
  pub finalizers : List Text
  pub creation_timestamp : ℕ
  pub deletion_timestamp : Option ℕ

-- A Kubernetes object: its metadata and its specification.
pub record Object (Spec : Type 0) : Type 0 where
  pub meta : ObjectMeta
  pub open meta use *
  pub spec : Spec

-- The metadata of `&v1.ResourceQuota{}` and the like.
abbrev pub zero_meta : ObjectMeta
zero_meta = record {
  name = [];
  namespace = [];
  labels = none;
  finalizers = [];
  creation_timestamp = 0;
  deletion_timestamp = none;
}

pub record NamespaceSelector : Type 0 where
  pub match_labels : Labels
  pub match_name : Option Text

-- `Rq` and `Lr` stand for the specifications of Kubernetes' own v1.ResourceQuota and v1.LimitRange,
-- which the operator only copies. `precedence` is a `uint16`.
pub record QuotaProfileSpec (Rq Lr : Type 0) : Type 0 where
  pub namespace_selector : NamespaceSelector
  pub open namespace_selector use *
  pub precedence : ℕ
  pub resource_quota_specs : List Rq
  pub limit_range_specs : List Lr

abbrev pub QuotaProfile : Type 0 → Type 0 → Type 0
QuotaProfile Rq Lr = Object (QuotaProfileSpec Rq Lr)

-- The operator touches nothing of a namespace but its metadata.
abbrev pub Namespace : Type 0
Namespace = Object (Unit {0})
