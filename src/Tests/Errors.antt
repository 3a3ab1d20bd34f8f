-- ===== src/Tests/Errors.antt =====
-- An API whose writes all fail and whose reads do not.
use namespace_quota_operator.Common.{ℕ, ◌≡◌, ◌≢◌, refl, [], Option, none, some}
use namespace_quota_operator.Text.{codes}
use namespace_quota_operator.Effect.{Error, not_found, api, err, fail}
use namespace_quota_operator.Api.{Object}
use namespace_quota_operator.Client.{Verbs, Client}
use namespace_quota_operator.Client.Laws.{found}
use namespace_quota_operator.Client.Memory.{memory_verbs}
use namespace_quota_operator.NamespaceController.{reconcile}
use namespace_quota_operator.NamespaceController.Quiet.{ReadsWell, reconcile-Quiet}
use namespace_quota_operator.Tests.Samples

-- The verbs with writes that fail.
abbrev read_only : {S Obj : Type 0} → Verbs S Obj → Verbs S Obj
read_only v = record v {
  create = λ o s. (err (api 500), s);
  update = λ o s. (err (api 500), s);
  delete = λ o s. (err (api 500), s);
}

abbrev broken : Client ℕ ℕ
broken = record Samples.api {
  quotas = read_only Samples.api.quotas;
  limits = read_only Samples.api.limits;
}

found-not_found :
    {Spec : Type 0} (o : Option (Object Spec)) (e : Error) → found o ≡ err e → e ≡ not_found
found-not_found none e h = cc
found-not_found (some x) e h = cc

broken-ReadsWell : ReadsWell broken
unfolding memory_verbs
broken-ReadsWell = record {
  namespace_get = λ a b s e h. found-not_found _ e h;
  profile_get = λ a b s e h. found-not_found _ e h;
  quota_list = λ namespace s. (_, refl);
  limit_list = λ namespace s. (_, refl);
}

reconcile-Quiet_example :
    (reconcile broken [] (codes "shop") Samples.dev_cluster).0 ≢ fail (api 500)
reconcile-Quiet_example =
    reconcile-Quiet broken broken-ReadsWell [] (codes "shop") Samples.dev_cluster (api 500)
