-- ===== src/NamespaceController/Preserve.antt =====
-- What `Reconcile` of namespaces writes: good objects only, if those that it reads are good.
pub mod Quotas
pub mod Limits
pub mod Whole
use namespace_quota_operator.Common.{ℕ}
use namespace_quota_operator.Text.{Text}
use namespace_quota_operator.Text.Decimal.{itoa}
use namespace_quota_operator.Api.{Object}
use namespace_quota_operator.Ids.{get_profile_id}
use namespace_quota_operator.NamespaceController.{with_spec, managed}

-- New objects of the operator are good, and so are good ones with another specification.
pub record IsManaged {Spec : Type 0} (id : Text → Text → Text → Text) (Good : Object Spec → Type 0)
    : Type 0 where
  pub fresh :
      (a b namespace : Text) (i : ℕ) (spec : Spec)
      → Good (managed (id a b (itoa i)) namespace (get_profile_id a b) spec)
  pub respec : (o : Object Spec) (spec : Spec) → Good o → Good (with_spec o spec)
