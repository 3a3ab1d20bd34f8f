-- ===== src/NamespaceController/Unlabelled.antt =====
-- `Reconcile` at a namespace that carries no profile label.
use namespace_quota_operator.Common.{◌≡◌, refl, ◌∙◌, false, List, none, is_some, All}
use namespace_quota_operator.Text.{Text, text_eq_refl}
use namespace_quota_operator.Labels.{find}
use namespace_quota_operator.Effect.{ok, done}
use namespace_quota_operator.Api.{Object, Namespace, quota_profile_label_key}
use namespace_quota_operator.Client.{Client}
use namespace_quota_operator.Client.Laws.{named, IsConsistent}
use namespace_quota_operator.Client.Loop.{settled_by}
use namespace_quota_operator.NamespaceController.{clean_up, reconcile_found, reconcile}
use namespace_quota_operator.NamespaceController.Removal.{IsPlain, kept, clean_up-Removes}

pub reconcile-bare :
    {Rq Lr : Type 0} (c : Client Rq Lr) (request_namespace request_name : Text) (ns : Namespace)
    (s : c.State)
    → c.namespaces.get request_namespace request_name s ≡ ok ns
    → is_some ns.deletion_timestamp ≡ false
    → find ns.labels quota_profile_label_key ≡ none
    → reconcile c request_namespace request_name s ≡ clean_up c ns.name s
unfolding reconcile reconcile_found
reconcile-bare c request_namespace request_name ns s stored live bare =
    rw (stored, live, bare, reconcile, reconcile_found) refl

-- With a consistent API in which deletes of quotas and of limit ranges do not touch the other kind:
-- reconciling a namespace without the profile label that is not being deleted ends without error.
-- Afterwards a quota or limit range of it that carries the profile label and is not being deleted
-- is gone, and every other is as it was. The quotas and limit ranges of the namespace that carry
-- the label have no finalizers.
pub reconcile-unlabelled :
    {Rq Lr : Type 0} (c : Client Rq Lr) (quotas : c.State → Text → List (Object Rq))
    (limits : c.State → Text → List (Object Lr)) (quotas_api : IsConsistent c.quotas quotas)
    (limits_api : IsConsistent c.limits limits)
    (quotas_frame : (o : Object Lr) (s : c.State) → quotas (c.limits.delete o s).1 ≡ quotas s)
    (limits_frame : (o : Object Rq) (s : c.State) → limits (c.quotas.delete o s).1 ≡ limits s)
    (request_namespace request_name : Text) (ns : Namespace) (s : c.State)
    → c.namespaces.get request_namespace request_name s ≡ ok ns
    → is_some ns.deletion_timestamp ≡ false
    → find ns.labels quota_profile_label_key ≡ none
    → All IsPlain (quotas s ns.name)
    → All IsPlain (limits s ns.name)
    → ((reconcile c request_namespace request_name s).0 ≡ done tt)
      × ((n : Text)
          → named n (quotas (reconcile c request_namespace request_name s).1 ns.name)
            ≡ settled_by kept (named n (quotas s ns.name)) none)
      × ((n : Text)
          → named n (limits (reconcile c request_namespace request_name s).1 ns.name)
            ≡ settled_by kept (named n (limits s ns.name)) none)
reconcile-unlabelled c quotas limits quotas_api limits_api quotas_frame limits_frame
      request_namespace request_name ns s stored live bare plain_quotas plain_limits =
    let ((finished, written), (_, written')) =
      clean_up-Removes c quotas limits quotas_api limits_api ns.name quotas_frame limits_frame s
        plain_quotas plain_limits in
    rw (reconcile-bare c request_namespace request_name ns s stored live bare) (
      finished,
      λ n. written ns.name n ∙ rw (text_eq_refl ns.name) refl,
      λ n. written' ns.name n ∙ rw (text_eq_refl ns.name) refl,
    )
