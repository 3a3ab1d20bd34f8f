-- ===== src/NamespaceController/Sweep.antt =====
-- What one round of the first loop of `reconcileResourceQuotas` leaves of a quota.
use namespace_quota_operator.Common.{
  ◌≡◌, ◌≢◌, refl, true, false, List, [], Option, none, some, leb, if◌then◌else◌, length, get_elem?,
  get_elem?-lt, get_elem?-le, if_pos, if_neg, arith, Option-cases, inl, inr,
}
use namespace_quota_operator.Text.{Text, text_dec, ◌==◌}
use namespace_quota_operator.Text.Split.{lacks}
use namespace_quota_operator.Text.Decimal.{ℤ, pos, negsuc}
use namespace_quota_operator.Labels.{find}
use namespace_quota_operator.Effect.{Outcome, done, fail, panic}
use namespace_quota_operator.Api.{Object, QuotaProfile, quota_profile_label_key}
use namespace_quota_operator.Client.{Client}
use namespace_quota_operator.Client.Laws.{named, IsConsistent}
use namespace_quota_operator.Client.Loop.{Settles}
use namespace_quota_operator.Client.Writes.{Writes, kept-Writes, deleted-Writes, updated-Writes}
use namespace_quota_operator.Ids.{get_profile_id, get_resource_quota_index}
use namespace_quota_operator.Ids.Index.{IndexOutcome, resource_quota_index-IndexOutcome}
use namespace_quota_operator.NamespaceController.{
  with_spec, refresh_quota, sweep_labelled_quota, sweep_quota,
}

-- The object carries the label of the profile.
abbrev pub IsOwnedBy : {Rq Lr Spec : Type 0} → QuotaProfile Rq Lr → Object Spec → Type 0
IsOwnedBy q o = find o.labels quota_profile_label_key ≡ some (get_profile_id q.namespace q.name)

-- If the object carries a profile label it has no finalizers, and if it is the profile's, its name
-- holds a dash.
pub record IsSweepable {Rq Lr Spec : Type 0} (q : QuotaProfile Rq Lr) (o : Object Spec)
    : Type 0 where
  pub no_finalizers : find o.labels quota_profile_label_key ≢ none → o.finalizers ≡ []
  pub dashed : IsOwnedBy q o → lacks b'-' o.name ≡ false

-- The object with the specification that is there for it, if one is.
abbrev pub respecified : {Spec : Type 0} → Object Spec → Option Spec → Option (Object Spec)
respecified o none = none
respecified o (some spec) = some (with_spec o spec)

module _ {Rq Lr : Type 0} (q : QuotaProfile Rq Lr) where
  -- An index in use gives the quota its specification, any other deletes it, and a name without an
  -- index leaves it alone.
  abbrev pub refreshed : Object Rq → Outcome ℤ → Option (Object Rq)
  refreshed o (done (pos i)) = respecified o (get_elem? q.spec.resource_quota_specs i)
  refreshed o (done (negsuc i)) = some o
  refreshed o (fail e) = some o
  refreshed o panic = some o

  -- A quota without the profile label stays, one of another profile goes.
  abbrev pub settled_labelled : Object Rq → Option Text → Option (Object Rq)
  settled_labelled o none = some o
  settled_labelled o (some label) =
      if label == get_profile_id q.namespace q.name
      then refreshed o (get_resource_quota_index o.name)
      else none

  unfoldable pub settled_quota : Object Rq → Option (Object Rq)
  settled_quota o = settled_labelled o (find o.labels quota_profile_label_key)

module _ {Rq Lr : Type 0} (c : Client Rq Lr) (objects : c.State → Text → List (Object Rq))
    (api : IsConsistent c.quotas objects) (q : QuotaProfile Rq Lr) (namespace : Text) where
  module _ (o : Object Rq) (s : c.State) (placed : o.namespace ≡ namespace)
      (stored : named o.name (objects s namespace) ≡ some o) where
    refresh_quota-Writes :
        (index : Outcome ℤ)
        → o.finalizers ≡ []
        → lacks b'-' o.name ≡ false
        → IndexOutcome o.name index
        → Writes objects o (refreshed q o index) s (refresh_quota c q o index s)
    unfolding refresh_quota
    refresh_quota-Writes panic plain dash h = cc
    refresh_quota-Writes (fail e) plain dash h = kept-Writes c.quotas objects api o s placed stored
    refresh_quota-Writes (done (negsuc i)) plain dash (_, (n, e, _)) = cc
    refresh_quota-Writes (done (pos i)) plain dash h =
        let specs = q.spec.resource_quota_specs in
        elim (Option-cases (get_elem? specs i)) [
          | inl unused ↦
              let over : leb (length specs) i ≡ true =
                ground (arith, get_elem?-le specs i unused) in
              rw (over, unused) (deleted-Writes c.quotas objects api o s placed stored plain)
          | inr (spec, used) ↦
              let within : leb (length specs) i ≡ false =
                ground (arith, get_elem?-lt specs i used) in
              rw (within, used) (updated-Writes c.quotas objects api o s placed stored spec)
        ]

    labelled-Writes :
        IsSweepable q o
        → (l : Option Text) → find o.labels quota_profile_label_key ≡ l
        → Writes objects o (settled_labelled q o l) s (sweep_labelled_quota c q o l s)
    unfolding sweep_labelled_quota
    labelled-Writes ok none e = kept-Writes c.quotas objects api o s placed stored
    labelled-Writes ok (some label) e = elim (text_dec label (get_profile_id q.namespace q.name)) [
      | no other ↦ rw (if_neg _ other) (
          deleted-Writes c.quotas objects api o s placed stored
            (ok.no_finalizers (λ bare. cc (e, bare))))
      | yes own ↦ rw (if_pos _ own) (
          refresh_quota-Writes (get_resource_quota_index o.name)
            (ok.no_finalizers (λ bare. cc (e, bare))) (ok.dashed (cc (e, own)))
            (resource_quota_index-IndexOutcome o.name))
    ]

    sweep_quota-Writes :
        IsSweepable q o → Writes objects o (settled_quota q o) s (sweep_quota c q o s)
    unfolding settled_quota sweep_quota
    sweep_quota-Writes ok = labelled-Writes ok (find o.labels quota_profile_label_key) refl

  -- With a consistent API, a round of the first loop leaves of its quota what `settled_quota` says, and
  -- touches no other.
  pub sweep_quota-Settles :
      Settles objects (IsSweepable q) (settled_quota q) (sweep_quota c q) namespace
  sweep_quota-Settles o s ok placed stored = sweep_quota-Writes o s placed stored ok
