-- ===== src/Webhook/Namespaces/Winner.antt =====
-- `Default` at a namespace that profiles select by label and none by name: which of them wins.
use mathlib.Core.Path.{subst}
use mathlib.Core.Option.{none-ne-some, some-injective}
use namespace_quota_operator.Common.{
  ◌≤◌, ◌≡◌, ◌≢◌, refl, sym, ap, ◌∙◌, Bool, true, false, ◌&&◌, Option, none, some, is_some, inl, inr,
  arith, ltb, Bool-cases,
}
use namespace_quota_operator.Text.{Text, ◌==◌, text_eq_refl}
use namespace_quota_operator.Labels.{Entries, find, value}
use namespace_quota_operator.Labels.Laws.{value-find}
use namespace_quota_operator.Effect.{ok, Outcome, done}
use namespace_quota_operator.Api.{
  QuotaProfile, Namespace, quota_profile_label_key, quota_profile_last_update_timestamp,
}
use namespace_quota_operator.Client.{Client}
use namespace_quota_operator.Ids.{get_profile_id, split_profile_id}
use namespace_quota_operator.Ids.Profile.{split-get_profile_id}
use namespace_quota_operator.ProfileController.{first, set_quota_profile_labels}
use namespace_quota_operator.ProfileController.Labelling.{KeepsRest, set_quota_profile_labels-done}
use namespace_quota_operator.Webhook.Namespaces.{
  next, take_profile, label_round, selector_round, default_round,
}
use namespace_quota_operator.Webhook.Namespaces.Matching.{take_profile-precedence}
use namespace_quota_operator.Webhook.Namespaces.Steps.{IsKnown, IsSound, Reach}

module _ {Rq Lr : Type 0} (c : Client Rq Lr) where
  -- The profile is not being deleted, does not select by name, and the namespace has the value at the
  -- first key of its selector, which is not a label of the operator.
  pub record Selects (q : QuotaProfile Rq Lr) (ns : Namespace) : Type 0 where
    pub live : is_some q.deletion_timestamp ≡ false
    pub unnamed : q.spec.match_name ≡ none
    pub selector : Entries
    pub by_label : q.spec.match_labels ≡ some selector
    pub key : Text
    pub first_key : first (c.keys selector) ≡ some key
    pub present : find ns.labels key ≡ some (value (some selector) key)
    pub apart : key ≢ quota_profile_label_key
    pub apart' : key ≢ quota_profile_last_update_timestamp

  pub Selects-KeepsRest :
      (q : QuotaProfile Rq Lr) {ns ns' : Namespace}
      → KeepsRest ns ns'
      → Selects q ns
      → Selects q ns'
  Selects-KeepsRest q h s = record {
    live = s.live;
    unnamed = s.unnamed;
    selector = s.selector;
    by_label = s.by_label;
    key = s.key;
    first_key = s.first_key;
    present = h.others s.key s.apart s.apart' ∙ s.present;
    apart = s.apart;
    apart' = s.apart';
  }

  module _ (q : QuotaProfile Rq Lr) (ns : Namespace) (matched : Bool) (t : c.State)
      (ns' : Namespace) (t' : c.State)
      (taken : take_profile c q ns (find ns.labels quota_profile_label_key) t
        ≡ (done ns', t')) where
    selector_round-Selects :
        (name : Option Text) (labels : Option Entries) (m : Entries) (k : Text)
        → name ≡ none
        → labels ≡ some m
        → first (c.keys m) ≡ some k
        → find ns.labels k ≡ some (value (some m) k)
        → selector_round c q name labels ns matched t ≡ (done (next ns' true), t')
    unfolding selector_round label_round
    selector_round-Selects name labels m k unnamed by_label first_key present =
        let agrees : (is_some (find ns.labels k) && value ns.labels k == value (some m) k) ≡ true =
          rw (present, value-find ns.labels k present) (text_eq_refl (value (some m) k)) in
        rw (unnamed, by_label, first_key, agrees, taken, selector_round, label_round) refl

    pub default_round-Selects :
        Selects q ns → default_round c q ns matched t ≡ (done (next ns' true), t')
    unfolding default_round
    default_round-Selects s =
        rw (s.live, default_round)
          (selector_round-Selects q.spec.match_name q.spec.match_labels s.selector s.key s.unnamed
            s.by_label s.first_key s.present)

  module _ (s : c.State)
      (clock_frame : (a b : Text) (t : c.State)
        → c.profiles.get a b (c.now t).1 ≡ c.profiles.get a b t) where
    own_id :
        (p : QuotaProfile Rq Lr)
        → IsKnown c s p
        → split_profile_id (get_profile_id p.namespace p.name) ≡ (p.namespace, p.name)
    own_id p known =
        rw (split-get_profile_id p.namespace p.name, known.dotless_namespace, known.dotless_name)
          refl

    ok-injective : {A : Type 0} {a b : A} → ok a ≡ ok b → a ≡ b
    ok-injective e = cc

    -- The identifier of a known profile is that of no other.
    pub IsKnown-same :
        (p p' : QuotaProfile Rq Lr)
        → IsKnown c s p
        → IsKnown c s p'
        → get_profile_id p.namespace p.name ≡ get_profile_id p'.namespace p'.name
        → p ≡ p'
    IsKnown-same p p' known known' same =
        let ids : (p.namespace, p.name) ≡ (p'.namespace, p'.name) =
          sym (own_id p known) ∙ ap split_profile_id same ∙ own_id p' known' in
        ok-injective (
          sym known.stored
          ∙ ap (λ (id : Text × Text). c.profiles.get id.0 id.1 s) ids
          ∙ known'.stored)

    same_id :
        (p q : QuotaProfile Rq Lr)
        → (p.namespace == q.namespace && p.name == q.name) ≡ true
        → get_profile_id p.namespace p.name ≡ get_profile_id q.namespace q.name
    same_id p q same =
        let namespaces : p.namespace ≡ q.namespace = ground (arith, same) in
        let names : p.name ≡ q.name = ground (arith, same) in cc (namespaces, names)

    -- The namespace carries the label of a known profile, of which something holds.
    abbrev pub LabelOf : Namespace → (QuotaProfile Rq Lr → Type 0) → Type 0
    LabelOf ns P =
        (w : QuotaProfile Rq Lr) × IsKnown c s w
        × (find ns.labels quota_profile_label_key ≡ some (get_profile_id w.namespace w.name))
        × P w

    -- The label that the namespace has, if any, is of a profile that does not come before `w`.
    abbrev pub Covers : Namespace → QuotaProfile Rq Lr → Type 0
    Covers ns w =
        (p : QuotaProfile Rq Lr)
        → IsKnown c s p
        → find ns.labels quota_profile_label_key ≡ some (get_profile_id p.namespace p.name)
        → p.spec.precedence ≤ w.spec.precedence

    unfoldable pub Taken : QuotaProfile Rq Lr → Namespace → Outcome Namespace × c.State → Type 0
    Taken q ns r =
        (ns' : Namespace) × (t' : c.State) × (r ≡ (done ns', t'))
        × Reach c s t'
        × KeepsRest ns ns'
        × LabelOf ns' (λ w. (q.spec.precedence ≤ w.spec.precedence) × Covers ns w)

    take-sets :
        (q w : QuotaProfile Rq Lr) (ns : Namespace) (t : c.State)
        → ns.labels ≢ none
        → IsKnown c s w
        → Reach c s t
        → q.spec.precedence ≤ w.spec.precedence
        → Covers ns w
        → Taken q ns (set_quota_profile_labels c ns w t)
    unfolding Taken
    take-sets q w ns t some_map known reach over covers =
        let (ns', e, labelled) = set_quota_profile_labels-done c w ns t some_map in
        (
          ns',
          (c.now t).1,
          e,
          λ a b. clock_frame a b t ∙ reach a b,
          labelled.keeps,
          (w, known, labelled.profile, (over, covers)),
        )

    pub take_profile-Taken :
        (q : QuotaProfile Rq Lr) (ns : Namespace) (t : c.State)
        → IsSound c s ns
        → IsKnown c s q
        → Reach c s t
        → Taken q ns (take_profile c q ns (find ns.labels quota_profile_label_key) t)
    unfolding take_profile
    take_profile-Taken q ns t (some_map, inl bare) known reach = rw bare (
        take-sets q q ns t some_map known reach (omega arith)
          (λ p _ e. absurd (none-ne-some _ (sym bare ∙ e))))
    take_profile-Taken q ns t (some_map, inr (p, known_p, labelled)) known reach =
        let covers : (w : QuotaProfile Rq Lr)
            → p.spec.precedence ≤ w.spec.precedence
            → Covers ns w =
          λ w over p' known_p' labelled'.
            subst (λ x. x.spec.precedence ≤ w.spec.precedence)
              (IsKnown-same p p' known_p known_p' (some-injective _ _ (sym labelled ∙ labelled')))
              over in
        elim (Bool-cases (p.namespace == q.namespace && p.name == q.name)) [
          | inl same ↦
              let e : p ≡ q = IsKnown-same p q known_p known (same_id p q same) in
              rw (labelled, own_id p known_p, same, take_profile)
                (take-sets q q ns t some_map known reach (omega arith)
                  (covers q (omega (arith, ap (λ x. x.spec.precedence) e))))
          | inr different ↦
              rw
                (take_profile-precedence c q p ns t known_p.dotless_namespace known_p.dotless_name
                  labelled different (reach p.namespace p.name ∙ known_p.stored))
                (elim (Bool-cases (ltb q.spec.precedence p.spec.precedence)) [
                  | inl lower ↦ rw lower (
                      take-sets q p ns t some_map known_p reach (ground (arith, lower))
                        (covers p (omega arith)))
                  | inr higher ↦ rw higher (
                      take-sets q q ns t some_map known reach (omega arith)
                        (covers q (ground (arith, higher))))
                ])
        ]
