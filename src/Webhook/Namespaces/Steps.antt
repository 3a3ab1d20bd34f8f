-- ===== src/Webhook/Namespaces/Steps.antt =====
-- A round of `Default`: errors and panics on the way.
use namespace_quota_operator.Common.{
  ◌≡◌, ◌≢◌, ◌⊎◌, refl, ◌∙◌, Bool, true, ◌&&◌, Option, none, some, is_some, inl, inr, ltb,
  Bool-cases,
}
use namespace_quota_operator.Text.{Text, ◌==◌}
use namespace_quota_operator.Text.Split.{lacks}
use namespace_quota_operator.Labels.{Entries, Labels, find, value}
use namespace_quota_operator.Labels.Laws.{value-find}
use namespace_quota_operator.Effect.{ok, Outcome, done}
use namespace_quota_operator.Api.{QuotaProfile, Namespace, quota_profile_label_key}
use namespace_quota_operator.Client.{Client}
use namespace_quota_operator.Ids.{get_profile_id, split_profile_id}
use namespace_quota_operator.Ids.Profile.{split-get_profile_id}
use namespace_quota_operator.ProfileController.{first, set_quota_profile_labels}
use namespace_quota_operator.ProfileController.Labelling.{set_quota_profile_labels-done}
use namespace_quota_operator.Webhook.Namespaces.{
  Round, stop, next, keep_or_replace, resolve_conflict, take_profile, label_round, name_round,
  selector_round, default_round,
}

pub labels_of_find : (m : Labels) (k v : Text) → find m k ≡ some v → m ≢ none
unfolding find
labels_of_find none k v h = cc
labels_of_find (some m) k v h = λ e. cc

module _ {Rq Lr : Type 0} (c : Client Rq Lr) (s : c.State) where
  -- The profile is stored, and its namespace and name hold no dot.
  pub record IsKnown (p : QuotaProfile Rq Lr) : Type 0 where
    pub dotless_namespace : lacks b'.' p.namespace ≡ true
    pub dotless_name : lacks b'.' p.name ≡ true
    pub stored : c.profiles.get p.namespace p.name s ≡ ok p

  -- A selector by labels has a first key.
  abbrev pub HasKey : QuotaProfile Rq Lr → Type 0
  HasKey p = (m : Entries) → p.spec.match_labels ≡ some m → (k : Text) × (first (c.keys m) ≡ some k)

  abbrev pub IsUsable : QuotaProfile Rq Lr → Type 0
  IsUsable p = IsKnown p × HasKey p

  -- The namespace has a map of labels, and a profile label in it is that of a known profile.
  abbrev pub IsSound : Namespace → Type 0
  IsSound ns =
      (ns.labels ≢ none)
      × ((find ns.labels quota_profile_label_key ≡ none)
          ⊎ ((p : QuotaProfile Rq Lr) × IsKnown p
              × (find ns.labels quota_profile_label_key
                  ≡ some (get_profile_id p.namespace p.name))))

  -- The profiles are those of `s` still.
  abbrev pub Reach : c.State → Type 0
  Reach t = (a b : Text) → c.profiles.get a b t ≡ c.profiles.get a b s

  module _
      (clock_frame : (a b : Text) (t : c.State)
        → c.profiles.get a b (c.now t).1 ≡ c.profiles.get a b t) where
    abbrev pub Steps : {A : Type 0} → (A → Type 0) → Outcome A × c.State → Type 0
    Steps {A} P r = (a : A) × (t : c.State) × (r ≡ (done a, t)) × Reach t × P a

    unfoldable pub SoundRound : Round → Type 0
    SoundRound (stop ns) = Unit
    SoundRound (next ns matched) = IsSound ns

    pub set-Steps :
        (ns : Namespace) (p : QuotaProfile Rq Lr) (t : c.State)
        → ns.labels ≢ none
        → IsKnown p
        → Reach t
        → Steps IsSound (set_quota_profile_labels c ns p t)
    set-Steps ns p t some_map known reach =
        let (ns', e, labelled) = set_quota_profile_labels-done c p ns t some_map in
        (
          ns',
          (c.now t).1,
          e,
          λ a b. clock_frame a b t ∙ reach a b,
          (
            labels_of_find ns'.labels quota_profile_label_key (get_profile_id p.namespace p.name)
                labelled.profile,
            inr (p, known, labelled.profile),
          ),
        )

    keep_or_replace-Steps :
        (p q : QuotaProfile Rq Lr) (ns : Namespace) (t : c.State)
        → ns.labels ≢ none
        → IsKnown p
        → IsKnown q
        → Reach t
        → Steps IsSound (keep_or_replace c p q ns t)
    unfolding keep_or_replace
    keep_or_replace-Steps p q ns t some_map known_p known_q reach =
        elim (Bool-cases (ltb q.spec.precedence p.spec.precedence)) [
          | inl lower ↦ rw (lower, keep_or_replace) (set-Steps ns p t some_map known_p reach)
          | inr higher ↦ rw (higher, keep_or_replace) (set-Steps ns q t some_map known_q reach)
        ]

    resolve_conflict-keep :
        (p q : QuotaProfile Rq Lr) (ns : Namespace) (t : c.State)
        → IsKnown p
        → find ns.labels quota_profile_label_key ≡ some (get_profile_id p.namespace p.name)
        → Reach t
        → resolve_conflict c q ns t ≡ keep_or_replace c p q ns t
    unfolding resolve_conflict
    resolve_conflict-keep p q ns t known labelled reach =
        rw
          (
            resolve_conflict,
            value-find ns.labels quota_profile_label_key labelled,
            split-get_profile_id p.namespace p.name,
            known.dotless_namespace,
            known.dotless_name,
            reach,
            known.stored,
          )
          refl

    take_profile-Steps :
        (q : QuotaProfile Rq Lr) (ns : Namespace) (t : c.State)
        → IsSound ns
        → IsKnown q
        → Reach t
        → Steps IsSound (take_profile c q ns (find ns.labels quota_profile_label_key) t)
    unfolding take_profile
    take_profile-Steps q ns t (some_map, inl bare) known reach =
        rw bare (set-Steps ns q t some_map known reach)
    take_profile-Steps q ns t (some_map, inr (p, known_p, labelled)) known reach =
        let id : Text × Text = split_profile_id (get_profile_id p.namespace p.name) in
        elim (Bool-cases (id.0 == q.namespace && id.1 == q.name)) [
          | inl same ↦ rw (labelled, same, take_profile) (set-Steps ns q t some_map known reach)
          | inr different ↦
              rw
                (
                  labelled,
                  different,
                  take_profile,
                  resolve_conflict-keep p q ns t known_p labelled reach,
                )
                (keep_or_replace-Steps p q ns t some_map known_p known reach)
        ]

    label_round-Steps :
        (q : QuotaProfile Rq Lr) (m : Entries) (k : Text) (ns : Namespace) (matched : Bool)
        (t : c.State)
        → first (c.keys m) ≡ some k
        → IsSound ns
        → IsKnown q
        → Reach t
        → Steps SoundRound (label_round c q m ns matched t)
    unfolding label_round SoundRound
    label_round-Steps q m k ns matched t key sound known reach =
        elim (Bool-cases (is_some (find ns.labels k) && value ns.labels k == value (some m) k)) [
          | inr differs ↦ rw (key, differs, label_round) (next ns matched, t, refl, reach, sound)
          | inl agrees ↦
              let (ns', t', e, reach', sound') = take_profile-Steps q ns t sound known reach in
              rw (key, agrees, e, label_round) (next ns' true, t', refl, reach', sound')
        ]

    selector_round-Steps :
        (q : QuotaProfile Rq Lr) (name : Option Text) (labels : Labels) (ns : Namespace)
        (matched : Bool) (t : c.State)
        → ((m : Entries) → labels ≡ some m → (k : Text) × (first (c.keys m) ≡ some k))
        → IsSound ns
        → IsKnown q
        → Reach t
        → Steps SoundRound (selector_round c q name labels ns matched t)
    unfolding selector_round name_round SoundRound
    selector_round-Steps q none none ns matched t keyed sound known reach =
        (next ns matched, t, refl, reach, sound)
    selector_round-Steps q none (some m) ns matched t keyed sound known reach =
        let (k, key) = keyed m refl in label_round-Steps q m k ns matched t key sound known reach
    selector_round-Steps q (some name) labels ns matched t keyed sound known reach =
        elim (Bool-cases (name == ns.name)) [
          | inr differs ↦ rw (differs, name_round) (next ns matched, t, refl, reach, sound)
          | inl agrees ↦
              let (ns', t', e, reach', sound') = set-Steps ns q t sound.0 known reach in
              rw (agrees, e, name_round) (stop ns', t', refl, reach', tt)
        ]

    pub default_round-Steps :
        (q : QuotaProfile Rq Lr) (ns : Namespace) (matched : Bool) (t : c.State)
        → IsSound ns
        → IsUsable q
        → Reach t
        → Steps SoundRound (default_round c q ns matched t)
    unfolding default_round SoundRound
    default_round-Steps q ns matched t sound (known, keyed) reach =
        elim (Bool-cases (is_some q.deletion_timestamp)) [
          | inl deleted ↦ rw (deleted, default_round) (next ns matched, t, refl, reach, sound)
          | inr live ↦
              rw (live, default_round)
                (selector_round-Steps q q.spec.match_name q.spec.match_labels ns matched t keyed
                  sound known reach)
        ]
