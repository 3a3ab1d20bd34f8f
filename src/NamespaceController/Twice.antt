-- ===== src/NamespaceController/Twice.antt =====
-- `reconcileResourceQuotas` twice in a row, with a consistent API.
use namespace_quota_operator.Common.{
  ℕ, ◌≤◌, ◌≡◌, refl, sym, ◌∙◌, false, List, [], ◌∷◌, ◌++◌, none, some, length, All, arith,
}
use namespace_quota_operator.Text.{Text, text_eq_refl}
use namespace_quota_operator.Text.Split.{lacks}
use namespace_quota_operator.Text.Decimal.{max_int}
use namespace_quota_operator.Effect.{done}
use namespace_quota_operator.Api.{Object, QuotaProfile}
use namespace_quota_operator.Client.{Client}
use namespace_quota_operator.Client.Laws.{named, IsConsistent}
use namespace_quota_operator.Client.Loop.{All-named, named-All, named_self, settled_by}
use namespace_quota_operator.Ids.{get_profile_id, get_resource_quota_id}
use namespace_quota_operator.NamespaceController.{managed, reconcile_resource_quotas}
use namespace_quota_operator.NamespaceController.Sweep.{IsSweepable, settled_quota}
use namespace_quota_operator.NamespaceController.Fill.{quota_id, filled_from-keeps}
use namespace_quota_operator.NamespaceController.Quotas.{
  reconciled, reconcile_resource_quotas-reconciled,
}
use namespace_quota_operator.NamespaceController.Idempotence.{settled-keeps, reconciled_twice}

pub lacks-append : (c : ℕ) (a b : Text) → lacks c (a ++ c ∷ b) ≡ false
unfolding lacks
lacks-append c [] b = ground arith
lacks-append c (x ∷ a) b = ground (arith, lacks-append c a b)

module _ {Rq Lr : Type 0} (c : Client Rq Lr) (objects : c.State → Text → List (Object Rq))
    (api : IsConsistent c.quotas objects) (q : QuotaProfile Rq Lr) (namespace : Text) (s : c.State)
    (sweepable : All (IsSweepable q) (objects s namespace)) where
  abbrev after : c.State
  after = (reconcile_resource_quotas c q namespace s).1

  after_name :
      (n : Text)
      → named n (objects after namespace) ≡ reconciled q namespace n (named n (objects s namespace))
  after_name n =
      (reconcile_resource_quotas-reconciled c objects api q namespace s sweepable).1 namespace n
      ∙ rw (text_eq_refl namespace) refl

  managed-IsSweepable :
      (i : ℕ) (spec : Rq)
      → IsSweepable q
          (managed (quota_id q namespace i) namespace (get_profile_id q.namespace q.name) spec)
  unfolding get_resource_quota_id
  managed-IsSweepable i spec = record {
    no_finalizers = λ _. refl;
    dashed = λ _. lacks-append b'-' q.namespace _;
  }

  swept-IsSweepable :
      (n : Text) (x : Object Rq)
      → settled_by (settled_quota q) (named n (objects s namespace)) none ≡ some x
      → IsSweepable q x
  swept-IsSweepable n x e =
      let (o, was, name, finalizers, labels) =
        settled-keeps q (named n (objects s namespace)) x e in
      let (before, _) = named-All (IsSweepable q) n (objects s namespace) sweepable was in
      record {
        no_finalizers =
            λ marked. finalizers ∙ before.no_finalizers (λ bare. marked (cc (labels, bare)));
        dashed = λ owned. cc (name, before.dashed (cc (labels, owned)));
      }

  after-IsSweepable : All (IsSweepable q) (objects after namespace)
  unfolding reconciled
  after-IsSweepable =
      All-named (IsSweepable q) (objects after namespace) (objects after namespace)
        (λ n o h.
          filled_from-keeps q namespace (IsSweepable q) managed-IsSweepable
            (λ o spec k. record { no_finalizers = k.no_finalizers; dashed = k.dashed }) 0
            q.spec.resource_quota_specs n
            (settled_by (settled_quota q) (named n (objects s namespace)) none)
            (swept-IsSweepable n) o (sym (after_name n) ∙ h))
        (named_self (objects after namespace) (api.nodup after namespace))

  -- With a consistent API, quotas in the namespace that have no finalizers where they carry a
  -- profile label, and a dash in their names where it is the profile's, and a profile with at most
  -- `max_int` specifications: a second reconciliation of the quotas ends without error or panic and
  -- leaves every quota of the namespace as the first one did.
  pub reconcile-quotas-twice :
      length q.spec.resource_quota_specs ≤ max_int
      → ((reconcile_resource_quotas c q namespace after).0 ≡ done tt)
        × ((n : Text)
            → named n (objects (reconcile_resource_quotas c q namespace after).1 namespace)
              ≡ named n (objects after namespace))
  reconcile-quotas-twice fits =
      let (finished, again) =
        reconcile_resource_quotas-reconciled c objects api q namespace after after-IsSweepable in
      let twice = λ (n : Text).
        reconciled_twice q namespace n (named n (objects s namespace)) fits
          (λ o h. sym (named-All (IsSweepable q) n (objects s namespace) sweepable h).1) in
      (finished, λ n. again namespace n ∙ rw (text_eq_refl namespace, after_name n) (twice n))
