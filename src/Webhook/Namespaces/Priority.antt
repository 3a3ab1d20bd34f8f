-- ===== src/Webhook/Namespaces/Priority.antt =====
-- The loop of `Default`: selectors by name, and the labels that are not the operator's.
use mathlib.Core.Bool.{false≢true}
use namespace_quota_operator.Common.{
  ◌≡◌, refl, sym, ◌∙◌, Bool, true, false, ◌&&◌, List, [], ◌∷◌, Option, none, some, is_some,
  if◌then◌else◌, Some, Some-map, inl, inr, arith, ltb, Bool-cases,
}
use namespace_quota_operator.Text.{Text, ◌==◌}
use namespace_quota_operator.Labels.{Labels, find, value, delete}
use namespace_quota_operator.Labels.Laws.{find-delete}
use namespace_quota_operator.Effect.{ok, done, Action, query}
use namespace_quota_operator.Effect.Ensures.{
  Ensures, Ensures-bind, Ensures-pure, Ensures-if, Ensures-map, Ensures-any, Ensures-done,
}
use namespace_quota_operator.Api.{
  QuotaProfile, Namespace, quota_profile_label_key, quota_profile_last_update_timestamp,
}
use namespace_quota_operator.Client.{Client}
use namespace_quota_operator.Ids.{get_profile_id, split_profile_id}
use namespace_quota_operator.ProfileController.{set_quota_profile_labels}
use namespace_quota_operator.ProfileController.Labelling.{
  KeepsRest, KeepsRest-refl, KeepsRest-trans, KeepsRest-name, IsLabelled,
  set_quota_profile_labels-IsLabelled,
}
use namespace_quota_operator.Webhook.{namespace}
use namespace_quota_operator.Webhook.Namespaces.{
  Round, stop, next, remove_label, keep_or_replace, resolve_conflict, take_profile, label_round,
  name_round, selector_round, default_round, end_round, default_loop, default,
}

-- The selector by name is the namespace's name.
abbrev pub is_name : Option Text → Namespace → Bool
is_name none ns = false
is_name (some name) ns = name == ns.name

-- The profile selects the namespace by its name and is not being deleted.
abbrev pub names : {Rq Lr : Type 0} → QuotaProfile Rq Lr → Namespace → Bool
names q ns = if is_some q.deletion_timestamp then false else is_name q.spec.match_name ns

pub remove_label-KeepsRest : (ns : Namespace) → KeepsRest ns (remove_label ns)
unfolding remove_label
remove_label-KeepsRest ns = record {
  rest = refl;
  others = λ k a b. ground (
    arith,
    find-delete (delete ns.labels quota_profile_label_key) quota_profile_last_update_timestamp k,
    find-delete ns.labels quota_profile_label_key k,
  );
}

is_name-KeepsRest :
    {ns ns' : Namespace} (o : Option Text) → KeepsRest ns ns' → is_name o ns' ≡ is_name o ns
is_name-KeepsRest none h = refl
is_name-KeepsRest (some name) h = rw (KeepsRest-name h)

pub names-KeepsRest :
    {Rq Lr : Type 0} {ns ns' : Namespace} (q : QuotaProfile Rq Lr)
    → KeepsRest ns ns'
    → names q ns' ≡ names q ns
names-KeepsRest q h = rw (is_name-KeepsRest q.spec.match_name h)

module _ {Rq Lr : Type 0} (c : Client Rq Lr) where
  set_labels-KeepsRest :
      (ns : Namespace) (q : QuotaProfile Rq Lr)
      → Ensures (KeepsRest ns) (set_quota_profile_labels c ns q)
  set_labels-KeepsRest ns q =
      Ensures-map _ (set_quota_profile_labels-IsLabelled c q ns) (λ ns' h. h.keeps)

  resolve_conflict-KeepsRest :
      (q : QuotaProfile Rq Lr) (ns : Namespace) → Ensures (KeepsRest ns) (resolve_conflict c q ns)
  unfolding resolve_conflict keep_or_replace
  resolve_conflict-KeepsRest q ns =
      let id : Text × Text = split_profile_id (value ns.labels quota_profile_label_key) in
      Ensures-bind (query (c.profiles.get id.0 id.1)) _
        (Ensures-any (query (c.profiles.get id.0 id.1)))
        λ existing _.
          Ensures-if (ltb q.spec.precedence existing.spec.precedence) _ _
            (λ _. set_labels-KeepsRest ns existing) (λ _. set_labels-KeepsRest ns q)

  take_profile-KeepsRest :
      (q : QuotaProfile Rq Lr) (ns : Namespace) (label : Option Text)
      → Ensures (KeepsRest ns) (take_profile c q ns label)
  unfolding take_profile
  take_profile-KeepsRest q ns none = set_labels-KeepsRest ns q
  take_profile-KeepsRest q ns (some id) =
      Ensures-if ((split_profile_id id).0 == q.namespace && (split_profile_id id).1 == q.name) _
        (resolve_conflict c q ns) (λ _. set_labels-KeepsRest ns q)
        (λ _. resolve_conflict-KeepsRest q ns)

  -- What a round ensures: it stops exactly at a profile that names the namespace, with the label of
  -- that profile.
  abbrev RoundOk : QuotaProfile Rq Lr → Namespace → Bool → Round → Type 0
  RoundOk q ns named (stop ns') = (named ≡ true) × IsLabelled c q ns ns'
  RoundOk q ns named (next ns' matched) = (named ≡ false) × KeepsRest ns ns'

  selector_round-Ok :
      (q : QuotaProfile Rq Lr) (name : Option Text) (labels : Labels) (ns : Namespace)
      (matched : Bool)
      → Ensures (RoundOk q ns (is_name name ns)) (selector_round c q name labels ns matched)
  unfolding selector_round name_round label_round
  selector_round-Ok q (some name) labels ns matched =
      Ensures-if (name == ns.name) _ _
        (λ e.
          Ensures-bind _ _ (set_quota_profile_labels-IsLabelled c q ns)
            λ ns' h. Ensures-pure (stop ns') (e, h))
        (λ e. Ensures-pure (next ns matched) (e, KeepsRest-refl ns))
  selector_round-Ok q none none ns matched = Ensures-pure _ (refl, KeepsRest-refl ns)
  selector_round-Ok q none (some m) ns matched = Ensures-bind _ _ (Ensures-any _) λ key _.
      Ensures-if (is_some (find ns.labels key) && value ns.labels key == value (some m) key) _ _
        (λ _.
          Ensures-bind _ _ (take_profile-KeepsRest q ns (find ns.labels quota_profile_label_key))
            λ ns' h. Ensures-pure (next ns' true) (refl, h))
        (λ _. Ensures-pure (next ns matched) (refl, KeepsRest-refl ns))

  default_round-Ok :
      (q : QuotaProfile Rq Lr) (ns : Namespace) (matched : Bool)
      → Ensures (RoundOk q ns (names q ns)) (default_round c q ns matched)
  unfolding default_round
  default_round-Ok q ns matched = elim (Bool-cases (is_some q.deletion_timestamp)) [
    | inl deleted ↦
        rw (deleted, default_round) (Ensures-pure (next ns matched) (refl, KeepsRest-refl ns))
    | inr live ↦
        rw (live, default_round)
          (selector_round-Ok q q.spec.match_name q.spec.match_labels ns matched)
  ]

  -- The label of the namespace is that of a profile of the list that names it.
  abbrev pub NamedBy : Namespace → Namespace → List (QuotaProfile Rq Lr) → Type 0
  NamedBy ns ns' = Some (λ q.
      (names q ns ≡ true)
      × (find ns'.labels quota_profile_label_key ≡ some (get_profile_id q.namespace q.name)))

  -- What the loop ensures. `first` is the namespace that came in.
  abbrev LoopOk : Namespace → List (QuotaProfile Rq Lr) → Namespace → Type 0
  LoopOk ns qs ns' = KeepsRest ns ns' × (Some (λ q. names q ns ≡ true) qs → NamedBy ns ns' qs)

  -- A round that goes on has passed a profile that does not name the namespace.
  LoopOk-next :
      {ns ns' ns'' : Namespace} (q : QuotaProfile Rq Lr) (qs : List (QuotaProfile Rq Lr))
      → names q ns ≡ false
      → KeepsRest ns ns'
      → LoopOk ns' qs ns''
      → LoopOk ns (q ∷ qs) ns''
  LoopOk-next {ns} {ns'} {ns''} q qs e h (k, f) = (KeepsRest-trans h k, by_name)
    where
      by_name : Some (λ q. names q ns ≡ true) (q ∷ qs) → NamedBy ns ns'' (q ∷ qs)
      by_name (inl named) = absurd (false≢true (sym e ∙ named))
      by_name (inr later) = inr (
          Some-map _ _ qs (λ p (a, b). (sym (names-KeepsRest p h) ∙ a, b))
            (f (Some-map _ _ qs (λ p a. names-KeepsRest p h ∙ a) later)))

  end_round-Ok :
      (q : QuotaProfile Rq Lr) (ns : Namespace) (qs : List (QuotaProfile Rq Lr))
      (go_on : Namespace → Bool → Action c.State Namespace)
      → ((ns : Namespace) (matched : Bool) → Ensures (LoopOk ns qs) (go_on ns matched))
      → (r : Round) → RoundOk q ns (names q ns) r
      → Ensures (LoopOk ns (q ∷ qs)) (end_round c r go_on)
  unfolding end_round
  end_round-Ok q ns qs go_on ih (stop ns') (e, h) =
      Ensures-pure ns' (h.keeps, λ _. inl (e, h.profile))
  end_round-Ok q ns qs go_on ih (next ns' matched') (e, h) =
      Ensures-map _ (ih ns' matched') (λ ns'' k. LoopOk-next q qs e h k)

  default_loop-Ok :
      (qs : List (QuotaProfile Rq Lr)) (ns : Namespace) (matched : Bool)
      → Ensures (LoopOk ns qs) (default_loop c qs ns matched)
  unfolding default_loop
  default_loop-Ok [] ns true = Ensures-pure ns (KeepsRest-refl ns, λ h. h)
  default_loop-Ok [] ns false = Ensures-pure (remove_label ns) (remove_label-KeepsRest ns, λ h. h)
  default_loop-Ok (q ∷ qs) ns matched =
      Ensures-bind _ _ (default_round-Ok q ns matched)
        (end_round-Ok q ns qs (default_loop c qs) (default_loop-Ok qs))

  -- If a listed profile that is not being deleted names the namespace and the webhook lets the
  -- namespace through, the namespace ends up with the label of such a profile, whatever profiles
  -- select it by label.
  pub default-NamedBy :
      (ns ns' : Namespace) (s : c.State) (ps : List (QuotaProfile Rq Lr))
      → c.profiles.list_all s ≡ ok ps
      → Some (λ q. names q ns ≡ true) (c.sort_by_creation ps)
      → (default c (namespace ns) s).0 ≡ done ns'
      → NamedBy ns ns' (c.sort_by_creation ps)
  unfolding default
  default-NamedBy ns ns' s ps listed named h =
      (Ensures-done (default_loop-Ok (c.sort_by_creation ps) ns false) s ns' (rw listed at h)).1
        named

  -- Whatever the profiles are, a namespace that the webhook lets through is as it was but for the
  -- two labels of the operator.
  pub default-KeepsRest :
      (ns ns' : Namespace) (s : c.State)
      → (default c (namespace ns) s).0 ≡ done ns'
      → KeepsRest ns ns'
  unfolding default
  default-KeepsRest ns ns' s h =
      Ensures-done
        (Ensures-bind (query c.profiles.list_all) _ (Ensures-any (query c.profiles.list_all))
          λ ps _. Ensures-map _ (default_loop-Ok (c.sort_by_creation ps) ns false) (λ _ k. k.0))
        s ns' h
