-- ===== src/ProfileController/Labelling.antt =====
-- `setQuotaProfileLabels`, and what it leaves alone.
use namespace_quota_operator.Common.{◌≡◌, ◌≢◌, refl, ◌∙◌, ap, Option, none, some, arith, length}
use namespace_quota_operator.Text.{Text}
use namespace_quota_operator.Text.Decimal.{itoa}
use namespace_quota_operator.Labels.{Labels, find, assign}
use namespace_quota_operator.Labels.Laws.{find-assign, assign-some}
use namespace_quota_operator.Effect.{done, must, lift}
use namespace_quota_operator.Effect.Ensures.{Ensures, Returns, Ensures-bind, Ensures-pure}
use namespace_quota_operator.Api.{
  QuotaProfile, Namespace, quota_profile_label_key, quota_profile_last_update_timestamp,
}
use namespace_quota_operator.Client.{Client}
use namespace_quota_operator.Ids.{get_profile_id}
use namespace_quota_operator.ProfileController.{with_labels, unix_micro, set_quota_profile_labels}

-- The two namespaces differ in the operator's two labels at most.
pub record KeepsRest (ns ns' : Namespace) : Type 0 where
  pub rest : ns' ≡ with_labels ns ns'.labels
  pub others :
      (k : Text)
      → k ≢ quota_profile_label_key
      → k ≢ quota_profile_last_update_timestamp
      → find ns'.labels k ≡ find ns.labels k

pub KeepsRest-refl : (ns : Namespace) → KeepsRest ns ns
KeepsRest-refl ns = record { rest = refl; others = λ k a b. refl }

pub KeepsRest-trans : {a b d : Namespace} → KeepsRest a b → KeepsRest b d → KeepsRest a d
KeepsRest-trans {a} {b} {d} h k = record {
  rest = k.rest ∙ ap (λ x. with_labels x d.labels) h.rest;
  others = λ j p q. k.others j p q ∙ h.others j p q;
}

pub KeepsRest-name : {a b : Namespace} → KeepsRest a b → b.name ≡ a.name
KeepsRest-name h = ap (λ x. x.name) h.rest

pub keys_differ : quota_profile_label_key ≢ quota_profile_last_update_timestamp
keys_differ e = omega (arith, ap length e)

-- An assignment that does not panic.
must-assign :
    {S : Type 0} (m : Labels) (k v : Text)
    → Ensures {S = S} (λ m'. assign m k v ≡ some m') (lift (must (assign m k v)))
must-assign m k v = record { at = λ s. of_option (assign m k v) }
  where
    of_option : (o : Option Labels) → Returns (must o) (λ m'. o ≡ some m')
    of_option none = tt
    of_option (some m') = refl

module _ {Rq Lr : Type 0} (c : Client Rq Lr) (q : QuotaProfile Rq Lr) (ns : Namespace) where
  -- The namespace with the profile's identifier and some time stamp in its labels.
  pub record IsLabelled (ns' : Namespace) : Type 0 where
    pub keeps : KeepsRest ns ns'
    pub profile : find ns'.labels quota_profile_label_key ≡ some (get_profile_id q.namespace q.name)

  written :
      (m m' : Labels) (stamp : Text)
      → assign ns.labels quota_profile_label_key (get_profile_id q.namespace q.name) ≡ some m
      → assign m quota_profile_last_update_timestamp stamp ≡ some m'
      → IsLabelled (with_labels ns m')
  written m m' stamp first second =
      let at_first = λ (k : Text).
        find-assign ns.labels quota_profile_label_key (get_profile_id q.namespace q.name) k first in
      let at_second =
        λ (k : Text). find-assign m quota_profile_last_update_timestamp stamp k second in
      record {
        keeps = record { rest = refl; others = λ k a b. ground (arith, at_first k, at_second k) };
        profile = ground (
          arith,
          keys_differ,
          at_first quota_profile_label_key,
          at_second quota_profile_label_key,
        );
      }

  -- If it does not panic, the label holds the profile's identifier, and everything but the operator's
  -- two labels is as before.
  pub set_quota_profile_labels-IsLabelled : Ensures IsLabelled (set_quota_profile_labels c ns q)
  unfolding set_quota_profile_labels get_profile_id
  set_quota_profile_labels-IsLabelled =
      Ensures-bind _ _
        (must-assign ns.labels quota_profile_label_key (get_profile_id q.namespace q.name))
        λ m first.
          Ensures-bind {P = λ _. Unit {0}} (unix_micro c) _ (record { at = λ s. tt })
            λ stamp _.
              Ensures-bind _ _ (must-assign m quota_profile_last_update_timestamp (itoa stamp))
                λ m' second. Ensures-pure _ (written m m' (itoa stamp) first second)

  -- On a namespace whose map of labels is not nil, the labels are set without a panic: the profile
  -- label holds the profile's identifier, everything but the operator's two labels is as before,
  -- and the clock is read once.
  pub set_quota_profile_labels-done :
      (s : c.State)
      → ns.labels ≢ none
      → (ns' : Namespace) × (set_quota_profile_labels c ns q s ≡ (done ns', (c.now s).1))
        × IsLabelled ns'
  unfolding set_quota_profile_labels get_profile_id
  set_quota_profile_labels-done s some_map =
      let (m, first, some_m) =
        assign-some ns.labels quota_profile_label_key (get_profile_id q.namespace q.name)
          some_map in
      let (m', second, _) =
        assign-some m quota_profile_last_update_timestamp (itoa (c.now s).0) some_m in
      (with_labels ns m', rw (first, second) refl, written m m' (itoa (c.now s).0) first second)
