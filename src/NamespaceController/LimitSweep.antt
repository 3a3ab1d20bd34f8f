-- ===== src/NamespaceController/LimitSweep.antt =====
-- What one round of the loop of `reconcileLimitRanges` leaves of a limit range.
use namespace_quota_operator.Common.{
  ℕ, ◌≤◌, ◌<◌, ◌≡◌, refl, false, List, [], Option, none, some, leb, if◌then◌else◌, length,
  get_elem?, get_elem?-le, get_elem?-none, if_pos, if_neg, arith, Bool-cases, Option-cases, inl,
  inr,
}
use namespace_quota_operator.Text.{Text, text_dec, text_eq_refl, ◌==◌}
use namespace_quota_operator.Text.Split.{lacks}
use namespace_quota_operator.Text.Decimal.{ℤ, pos, negsuc}
use namespace_quota_operator.Labels.{find}
use namespace_quota_operator.Effect.{Outcome, done, fail, panic}
use namespace_quota_operator.Api.{Object, QuotaProfile, quota_profile_label_key}
use namespace_quota_operator.Client.{Client}
use namespace_quota_operator.Client.Laws.{named, IsConsistent}
use namespace_quota_operator.Client.Loop.{Settles}
use namespace_quota_operator.Client.Writes.{Writes, kept-Writes, deleted-Writes, updated-Writes}
use namespace_quota_operator.Ids.{get_profile_id, get_limit_range_index}
use namespace_quota_operator.Ids.Index.{IndexOutcome, limit_range_index-IndexOutcome}
use namespace_quota_operator.NamespaceController.{refresh_limit, sweep_labelled_limit, sweep_limit}
use namespace_quota_operator.NamespaceController.Sweep.{IsOwnedBy, IsSweepable, respecified}

module _ {Rq Lr : Type 0} (q : QuotaProfile Rq Lr) where
  -- An index below the number of resource quotas gives the limit range its specification, any other
  -- deletes it, and a name without an index leaves it alone.
  abbrev pub refreshed : Object Lr → Outcome ℤ → Option (Object Lr)
  refreshed o (done (pos i)) =
      if leb (length q.spec.resource_quota_specs) i
      then none
      else respecified o (get_elem? q.spec.limit_range_specs i)
  refreshed o (done (negsuc i)) = some o
  refreshed o (fail e) = some o
  refreshed o panic = some o

  abbrev pub settled_labelled : Object Lr → Option Text → Option (Object Lr)
  settled_labelled o none = some o
  settled_labelled o (some label) =
      if label == get_profile_id q.namespace q.name
      then refreshed o (get_limit_range_index o.name)
      else none

  unfoldable pub settled_limit : Object Lr → Option (Object Lr)
  settled_limit o = settled_labelled o (find o.labels quota_profile_label_key)

module _ {Rq Lr : Type 0} (c : Client Rq Lr) (objects : c.State → Text → List (Object Lr))
    (api : IsConsistent c.limits objects) (q : QuotaProfile Rq Lr) (namespace : Text)
    (enough : length q.spec.resource_quota_specs ≤ length q.spec.limit_range_specs) where
  module _ (o : Object Lr) (s : c.State) (placed : o.namespace ≡ namespace)
      (stored : named o.name (objects s namespace) ≡ some o) where
    refresh_limit-Writes :
        (index : Outcome ℤ)
        → o.finalizers ≡ []
        → lacks b'-' o.name ≡ false
        → IndexOutcome o.name index
        → Writes objects o (refreshed q o index) s (refresh_limit c q o index s)
    unfolding refresh_limit
    refresh_limit-Writes panic plain dash h = cc
    refresh_limit-Writes (fail e) plain dash h = kept-Writes c.limits objects api o s placed stored
    refresh_limit-Writes (done (negsuc i)) plain dash (_, (n, e, _)) = cc
    refresh_limit-Writes (done (pos i)) plain dash h =
        elim (Bool-cases (leb (length q.spec.resource_quota_specs) i)) [
          | inl over ↦ rw over (deleted-Writes c.limits objects api o s placed stored plain)
          | inr within ↦ elim (Option-cases (get_elem? q.spec.limit_range_specs i)) [
            | inl unused ↦ absurd (ground (arith, get_elem?-le q.spec.limit_range_specs i unused))
            | inr (spec, used) ↦
                rw (within, used) (updated-Writes c.limits objects api o s placed stored spec)
          ]
        ]

    labelled-Writes :
        IsSweepable q o
        → (l : Option Text) → find o.labels quota_profile_label_key ≡ l
        → Writes objects o (settled_labelled q o l) s (sweep_labelled_limit c q o l s)
    unfolding sweep_labelled_limit
    labelled-Writes ok none e = kept-Writes c.limits objects api o s placed stored
    labelled-Writes ok (some label) e = elim (text_dec label (get_profile_id q.namespace q.name)) [
      | no other ↦ rw (if_neg _ other) (
          deleted-Writes c.limits objects api o s placed stored
            (ok.no_finalizers (λ bare. cc (e, bare))))
      | yes own ↦ rw (if_pos _ own) (
          refresh_limit-Writes (get_limit_range_index o.name)
            (ok.no_finalizers (λ bare. cc (e, bare))) (ok.dashed (cc (e, own)))
            (limit_range_index-IndexOutcome o.name))
    ]

  pub sweep_limit-Settles :
      Settles objects (IsSweepable q) (settled_limit q) (sweep_limit c q) namespace
  unfolding settled_limit sweep_limit
  sweep_limit-Settles o s ok placed stored =
      labelled-Writes o s placed stored ok (find o.labels quota_profile_label_key) refl

-- A round panics at a limit range of the profile whose index is below the number of resource quotas
-- and not below that of limit ranges.
pub sweep_limit-panics :
    {Rq Lr : Type 0} (c : Client Rq Lr) (q : QuotaProfile Rq Lr) (o : Object Lr) (i : ℕ)
    (s : c.State)
    → IsOwnedBy q o
    → get_limit_range_index o.name ≡ done (pos i)
    → length q.spec.limit_range_specs ≤ i
    → i < length q.spec.resource_quota_specs
    → sweep_limit c q o s ≡ (panic, s)
unfolding sweep_limit sweep_labelled_limit refresh_limit
sweep_limit-panics c q o i s owned index past within =
    let below : leb (length q.spec.resource_quota_specs) i ≡ false = ground arith in
    rw
      (
        owned,
        text_eq_refl (get_profile_id q.namespace q.name),
        index,
        below,
        get_elem?-none q.spec.limit_range_specs i past,
      )
      refl
