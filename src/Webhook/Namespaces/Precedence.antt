-- ===== src/Webhook/Namespaces/Precedence.antt =====
-- `Default` as a whole, at a namespace that profiles select by label: the highest precedence wins.
use mathlib.Core.Option.{none-ne-some, some-injective}
use namespace_quota_operator.Common.{
  ◌≤◌, ◌≡◌, ◌≢◌, ◌⊎◌, refl, sym, ap, ◌∙◌, Bool, true, false, List, [], ◌∷◌, Option, none, some, All,
  Some, inl, inr, arith,
}
use namespace_quota_operator.Text.{Text}
use namespace_quota_operator.Labels.{Entries, Labels, find, value}
use namespace_quota_operator.Effect.{ok, Outcome, done}
use namespace_quota_operator.Api.{
  QuotaProfile, Namespace, quota_profile_label_key, quota_profile_last_update_timestamp,
}
use namespace_quota_operator.Client.{Client}
use namespace_quota_operator.Ids.{get_profile_id}
use namespace_quota_operator.ProfileController.{first}
use namespace_quota_operator.ProfileController.Labelling.{
  KeepsRest, KeepsRest-refl, KeepsRest-trans, KeepsRest-name,
}
use namespace_quota_operator.Webhook.{namespace}
use namespace_quota_operator.Webhook.Namespaces.{end_round, default_loop, default}
use namespace_quota_operator.Webhook.Namespaces.Matching.{
  Misses, MissesSelector, default_round-Misses,
}
use namespace_quota_operator.Webhook.Namespaces.Steps.{IsKnown, IsSound, Reach, labels_of_find}
use namespace_quota_operator.Webhook.Namespaces.Winner.{
  Selects, Selects-KeepsRest, default_round-Selects, IsKnown-same, LabelOf, Covers, Taken,
  take_profile-Taken,
}

module _ {Rq Lr : Type 0} (c : Client Rq Lr) where
  -- No label of the operator is the first key of the selector.
  abbrev pub IsApart : Labels → Type 0
  IsApart labels =
      (m : Entries) (k : Text)
      → labels ≡ some m
      → first (c.keys m) ≡ some k
      → (k ≢ quota_profile_label_key) × (k ≢ quota_profile_last_update_timestamp)

  -- The profile selects the namespace by a label, or does not select it.
  abbrev pub Judges : Namespace → QuotaProfile Rq Lr → Type 0
  Judges ns q = Selects c q ns ⊎ (Misses c ns q × IsApart q.spec.match_labels)

  missed-KeepsRest :
      (name : Option Text) (labels : Labels) {ns ns' : Namespace}
      → KeepsRest ns ns'
      → IsApart labels
      → MissesSelector c name labels ns
      → MissesSelector c name labels ns'
  missed-KeepsRest (some name) labels h apart misses = λ e. misses (e ∙ KeepsRest-name h)
  missed-KeepsRest none none h apart misses = tt
  missed-KeepsRest none (some m) h apart (k, key, differs) =
      let (a, b) = apart m k refl key in (k, key, λ e. differs (sym (h.others k a b) ∙ e))

  Judges-KeepsRest :
      (q : QuotaProfile Rq Lr) {ns ns' : Namespace} → KeepsRest ns ns' → Judges ns q → Judges ns' q
  Judges-KeepsRest q h (inl selects) = inl (Selects-KeepsRest c q h selects)
  Judges-KeepsRest q h (inr (inl deleted, apart)) = inr (inl deleted, apart)
  Judges-KeepsRest q h (inr (inr misses, apart)) =
      inr (inr (missed-KeepsRest q.spec.match_name q.spec.match_labels h apart misses), apart)

  Judges-KeepsRest_all :
      (qs : List (QuotaProfile Rq Lr)) {ns ns' : Namespace}
      → KeepsRest ns ns'
      → All (Judges ns) qs
      → All (Judges ns') qs
  Judges-KeepsRest_all [] h _ = tt
  Judges-KeepsRest_all (q ∷ qs) h (j, js) = (Judges-KeepsRest q h j, Judges-KeepsRest_all qs h js)

  MissesSelector-misses :
      (name : Option Text) (labels : Labels) (ns : Namespace) (m : Entries) (k : Text)
      → name ≡ none
      → labels ≡ some m
      → first (c.keys m) ≡ some k
      → find ns.labels k ≡ some (value (some m) k)
      → ¬ MissesSelector c name labels ns
  MissesSelector-misses (some name) labels ns m k unnamed by_label key present misses = cc
  MissesSelector-misses none none ns m k unnamed by_label key present misses = cc
  MissesSelector-misses none (some m') ns m k unnamed by_label key present (k', key', differs) =
      let same : m' ≡ m = some-injective m' m by_label in
      let keys : k' ≡ k = some-injective k' k (sym key' ∙ ap (λ m. first (c.keys m)) same ∙ key) in
      differs (cc (present, same, keys))

  Selects-Misses : (q : QuotaProfile Rq Lr) (ns : Namespace) → Selects c q ns → ¬ Misses c ns q
  Selects-Misses q ns s (inl deleted) = cc (s.live, deleted)
  Selects-Misses q ns s (inr misses) =
      MissesSelector-misses q.spec.match_name q.spec.match_labels ns s.selector s.key s.unnamed
        s.by_label s.first_key s.present misses

  module _ (s : c.State)
      (clock_frame : (a b : Text) (t : c.State)
        → c.profiles.get a b (c.now t).1 ≡ c.profiles.get a b t) where
    -- The webhook lets the namespace through with the label of a known profile that comes before none
    -- of those that select it.
    Leads : Namespace → List (QuotaProfile Rq Lr) → Outcome Namespace × c.State → Type 0
    Leads ns qs r =
        (ns' : Namespace) × (r.0 ≡ done ns')
        × KeepsRest ns ns'
        × LabelOf c s clock_frame ns' (λ w.
          All (λ q. Selects c q ns → q.spec.precedence ≤ w.spec.precedence) qs
          × Covers c s clock_frame ns w)

    -- The profiles that are judged at a relabelled namespace.
    back :
        (qs : List (QuotaProfile Rq Lr)) {ns ns' : Namespace} (w : QuotaProfile Rq Lr)
        → KeepsRest ns ns'
        → All (λ q. Selects c q ns' → q.spec.precedence ≤ w.spec.precedence) qs
        → All (λ q. Selects c q ns → q.spec.precedence ≤ w.spec.precedence) qs
    back [] w h _ = tt
    back (q ∷ qs) w h (b, bs) = (λ x. b (Selects-KeepsRest c q h x), back qs w h bs)

    later :
        {P : Type 0} (q : QuotaProfile Rq Lr) (ns : Namespace) (qs : List (QuotaProfile Rq Lr))
        → Misses c ns q
        → P ⊎ Some (λ q. Selects c q ns) (q ∷ qs)
        → P ⊎ Some (λ q. Selects c q ns) qs
    later q ns qs misses (inl p) = inl p
    later q ns qs misses (inr (inl selects)) = absurd (Selects-Misses q ns selects misses)
    later q ns qs misses (inr (inr h)) = inr h

    default_loop-Leads :
        (qs : List (QuotaProfile Rq Lr)) (ns : Namespace) (matched : Bool) (t : c.State)
        → IsSound c s ns
        → All (IsKnown c s) qs
        → All (Judges ns) qs
        → Reach c s t
        → ((matched ≡ true) × (find ns.labels quota_profile_label_key ≢ none))
          ⊎ Some (λ q. Selects c q ns) qs
        → Leads ns qs (default_loop c qs ns matched t)
    unfolding default_loop end_round Leads Taken
    default_loop-Leads [] ns matched t (_, inl bare) known judged reach (inl (_, labelled)) =
        absurd (labelled bare)
    default_loop-Leads [] ns matched t (_, inr (p, known_p, own)) known judged reach
          (inl (hit, labelled)) =
        rw hit (
          ns,
          refl,
          KeepsRest-refl ns,
          (
            p,
            known_p,
            own,
            (
              tt,
              λ p' known_p' own'. omega (
                arith,
                ap (λ (x : QuotaProfile Rq Lr). x.spec.precedence)
                    (IsKnown-same c s clock_frame p' p known_p' known_p
                      (some-injective _ _ (sym own' ∙ own))),
              ),
            ),
          ),
        )
    default_loop-Leads [] ns matched t sound known judged reach (inr selected) = absurd selected
    default_loop-Leads (q ∷ qs) ns matched t sound (_, known) (inr (misses, _), judged) reach
          some_one =
        let (ns', ends, keeps, (w, known_w, own, (bounds, covers))) =
          default_loop-Leads qs ns matched t sound known judged reach
            (later q ns qs misses some_one) in
        rw (default_round-Misses c q ns matched t misses) (
          ns',
          ends,
          keeps,
          (w, known_w, own, ((λ x. absurd (Selects-Misses q ns x misses), bounds), covers)),
        )
    default_loop-Leads (q ∷ qs) ns matched t sound (known_q, known) (inl selects, judged) reach
          some_one =
        let (ns', t', taken, reach', keeps, (w, known_w, own, (over, covers))) =
          take_profile-Taken c s clock_frame q ns t sound known_q reach in
        let sound' : IsSound c s ns' =
          (labels_of_find ns'.labels quota_profile_label_key _ own, inr (w, known_w, own)) in
        let (ns'', ends, keeps', (w', known_w', own', (bounds, covers'))) =
          default_loop-Leads qs ns' true t' sound' known (Judges-KeepsRest_all qs keeps judged)
            reach' (inl (refl, λ bare. none-ne-some _ (sym bare ∙ own))) in
        let rises : w.spec.precedence ≤ w'.spec.precedence = covers' w known_w own in
        rw (default_round-Selects c q ns matched t ns' t' taken selects) (
          ns'',
          ends,
          KeepsRest-trans keeps keeps',
          (
            w',
            known_w',
            own',
            (
              (λ _. omega arith, back qs w' keeps bounds),
              λ p known_p own_p. omega (arith, covers p known_p own_p),
            ),
          ),
        )

    -- If listed profiles select the namespace by label and none by name, the webhook lets it
    -- through with the label of a stored profile whose precedence is not below that of any of them.
    -- The conditions: the namespace has a map of labels in which a profile label, if there is one,
    -- is that of a stored profile, every listed profile is stored, selectors by labels have a key
    -- that is none of the operator's labels, no profile has a dot in its namespace or name, and
    -- reading the clock does not change what profiles are stored.
    pub default-precedence :
        (ns : Namespace) (ps : List (QuotaProfile Rq Lr))
        → c.profiles.list_all s ≡ ok ps
        → IsSound c s ns
        → All (IsKnown c s) (c.sort_by_creation ps)
        → All (Judges ns) (c.sort_by_creation ps)
        → Some (λ q. Selects c q ns) (c.sort_by_creation ps)
        → (ns' : Namespace) × (w : QuotaProfile Rq Lr) × ((default c (namespace ns) s).0 ≡ done ns')
          × (find ns'.labels quota_profile_label_key ≡ some (get_profile_id w.namespace w.name))
          × IsKnown c s w
          × All
              (λ q. Selects c q ns → q.spec.precedence ≤ w.spec.precedence)
              (c.sort_by_creation ps)
    unfolding default Leads
    default-precedence ns ps listed sound known judged selected =
        let (ns', ends, _, (w, known_w, own, (bounds, _))) =
          default_loop-Leads (c.sort_by_creation ps) ns false s sound known judged (λ a b. refl)
            (inr selected) in
        (ns', w, rw (listed, default) ends, own, known_w, bounds)
