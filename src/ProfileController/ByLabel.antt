-- ===== src/ProfileController/ByLabel.antt =====
-- `reconcileNamespace` for a profile that selects namespaces by a label.
use namespace_quota_operator.Common.{
  ◌≡◌, ◌≢◌, ◌⊎◌, refl, ◌∙◌, ap, Bool, true, false, ◌&&◌, ◌||◌, List, [], ◌∷◌, Option, none, some,
  is_some, ltb, if◌then◌else◌, All, arith, Bool-cases, inl, inr,
}
use namespace_quota_operator.Text.{Text, ◌==◌, text_dec}
use namespace_quota_operator.Labels.{Labels, Entries, value}
use namespace_quota_operator.Effect.{ok, done, Action, pure, lift, must, for_each, ◌>>=◌}
use namespace_quota_operator.Api.{
  NamespaceSelector, QuotaProfile, Namespace, quota_profile_label_key,
}
use namespace_quota_operator.Client.{Client}
use namespace_quota_operator.Client.Laws.{named, found, IsConsistent}
use namespace_quota_operator.Client.Loop.{named_self}
use namespace_quota_operator.Client.Writes.{kept-Writes}
use namespace_quota_operator.Client.Rounds.{Rewrites, for_each-rewrites}
use namespace_quota_operator.Ids.{split_profile_id}
use namespace_quota_operator.ProfileController.{
  first, zero_profile, or_zero, with_map, label_and_update, names_namespace, keep_or_replace,
  resolve_conflict, add_label_to_namespace, label_matching, label_selected, reconcile_namespace,
}
use namespace_quota_operator.ProfileController.Labelling.{
  IsLabelled, KeepsRest-name, set_quota_profile_labels-done,
}

pub with_map-some : {Rq Lr : Type 0} (c : Client Rq Lr) (m : Labels) → m ≢ none → with_map c m ≡ m
with_map-some c none h = absurd (h refl)
with_map-some c (some m) h = refl

-- What a round does, by the map of labels of its namespace.
abbrev by_labels :
    {Rq Lr : Type 0} (c : Client Rq Lr)
    → QuotaProfile Rq Lr
    → Entries
    → Namespace
    → Labels
    → Action c.State (Unit {0})
by_labels c q m ns none = pure tt
by_labels c q m ns (some _) = do
  key ← lift (must (first (c.keys m)))
  if value ns.labels key == value (some m) key then add_label_to_namespace c q ns else pure tt

selected_by :
    {Rq Lr : Type 0} (c : Client Rq Lr) (q : QuotaProfile Rq Lr) (selector : NamespaceSelector)
    (m : Entries) (items : List Namespace)
    → selector.match_name ≡ none
    → selector.match_labels ≡ some m
    → label_selected c q selector items ≡ for_each (label_matching c q m) items
unfolding label_selected
selected_by c q selector m items unnamed by_label = rw (unnamed, by_label, label_selected) refl

-- The namespace has the value at the key.
unfoldable pub matches : Text → Text → Namespace → Bool
matches k v ns = is_some ns.labels && value ns.labels k == v

matches-none : (k v : Text) (ns : Namespace) → ns.labels ≡ none → matches k v ns ≡ false
unfolding matches
matches-none k v ns e = ground (arith, e)

matches-unequal :
    (k v : Text) (ns : Namespace) → (value ns.labels k == v) ≡ false → matches k v ns ≡ false
unfolding matches
matches-unequal k v ns unequal = ground (arith, unequal)

matches-equal :
    (k v : Text) (ns : Namespace) {x : Entries}
    → ns.labels ≡ some x
    → (value ns.labels k == v) ≡ true
    → matches k v ns ≡ true
unfolding matches
matches-equal k v ns e equal = ground (arith, e, equal)

module _ {Rq Lr : Type 0} (c : Client Rq Lr) (objects : c.State → Text → List Namespace)
    (profiles : c.State → Text → List (QuotaProfile Rq Lr))
    (api : IsConsistent c.namespaces objects) (profiles_api : IsConsistent c.profiles profiles)
    (clock_frame : (s : c.State) → objects (c.now s).1 ≡ objects s) (q : QuotaProfile Rq Lr) where
  -- The namespace has the labels of some profile: of `q`, if it had no profile label.
  pub record IsTaken (ns ns' : Namespace) : Type 0 where
    pub by : QuotaProfile Rq Lr
    pub labelled : IsLabelled c by ns ns'
    pub unless_labelled : (by ≡ q) ⊎ (value ns.labels quota_profile_label_key ≢ [])

  module _ (ns : Namespace) (s : c.State) (some_map : ns.labels ≢ none) (placed : ns.namespace ≡ [])
      (stored : named ns.name (objects s []) ≡ some ns) where
    label-Rewrites :
        (p : QuotaProfile Rq Lr)
        → (p ≡ q) ⊎ (value ns.labels quota_profile_label_key ≢ [])
        → Rewrites objects (IsTaken ns) ns s (label_and_update c p ns s)
    unfolding label_and_update
    label-Rewrites p why =
        let (ns', set, labelled) = set_quota_profile_labels-done c p ns s some_map in
        let name' : ns'.name ≡ ns.name = KeepsRest-name labelled.keeps in
        let placed' : ns'.namespace ≡ [] = ap (λ x. x.namespace) labelled.keeps.rest ∙ placed in
        let t : c.State = (c.now s).1 in
        let there : named ns'.name (objects t ns'.namespace) ≢ none =
          λ h. cc (clock_frame s, name', placed', stored, h) in
        rw set (
          rw (api.update_ok ns' t there) refl,
          (
            ns',
            record { by = p; labelled = labelled; unless_labelled = why },
            λ m n.
                ground
                  (arith, name', placed, placed', clock_frame s, api.update_lem ns' t m n there),
          ),
        )

    keep_or_replace-Rewrites :
        (existing : QuotaProfile Rq Lr)
        → value ns.labels quota_profile_label_key ≢ []
        → Rewrites objects (IsTaken ns) ns s (keep_or_replace c existing q ns s)
    unfolding keep_or_replace
    keep_or_replace-Rewrites existing has = elim (Bool-cases (names_namespace c existing ns)) [
      | inl names ↦ rw (names, keep_or_replace) (label-Rewrites existing (inr has))
      | inr unnamed ↦
          elim (Bool-cases (
            ltb q.spec.precedence existing.spec.precedence
            || ltb q.creation_timestamp existing.creation_timestamp)) [
              | inl keeps ↦ rw (unnamed, keeps, keep_or_replace) (label-Rewrites existing (inr has))
              | inr gives ↦ rw (unnamed, gives, keep_or_replace) (label-Rewrites q (inl refl))
            ]
    ]

    or_zero-found :
        (o : Option (QuotaProfile Rq Lr))
        → (e : QuotaProfile Rq Lr) × (or_zero zero_profile (found o) ≡ ok e)
    or_zero-found none = (zero_profile, refl)
    or_zero-found (some e) = (e, refl)

    resolve_conflict-Rewrites :
        value ns.labels quota_profile_label_key ≢ []
        → Rewrites objects (IsTaken ns) ns s (resolve_conflict c q ns s)
    unfolding resolve_conflict
    resolve_conflict-Rewrites has =
        let id : Text × Text = split_profile_id (value ns.labels quota_profile_label_key) in
        let (existing, read) = or_zero-found (named id.1 (profiles s id.0)) in
        elim (Bool-cases (id.0 == q.namespace && id.1 == q.name)) [
          | inl same ↦ rw (same, resolve_conflict) (label-Rewrites q (inl refl))
          | inr different ↦
              rw (different, profiles_api.get_lem id.0 id.1 s, read, resolve_conflict)
                (keep_or_replace-Rewrites existing has)
        ]

    add_label-Rewrites : Rewrites objects (IsTaken ns) ns s (add_label_to_namespace c q ns s)
    unfolding add_label_to_namespace
    add_label-Rewrites = elim (text_dec (value ns.labels quota_profile_label_key) []) [
      | yes bare ↦
          let e : (value ns.labels quota_profile_label_key == []) ≡ true = ground (arith, bare) in
          rw (with_map-some c ns.labels some_map, e, add_label_to_namespace)
            (label-Rewrites q (inl refl))
      | no has ↦
          let e : (value ns.labels quota_profile_label_key == []) ≡ false = ground (arith, has) in
          rw (with_map-some c ns.labels some_map, e, add_label_to_namespace)
            (resolve_conflict-Rewrites has)
    ]

  -- A namespace that does not match stays as it is, and one that matches is taken.
  abbrev pub Turns : Text → Text → Namespace → Namespace → Type 0
  Turns k v ns ns' =
      ((matches k v ns ≡ false) × (ns' ≡ ns)) ⊎ ((matches k v ns ≡ true) × IsTaken ns ns')

  module _ (m : Entries) (k : Text) (key : first (c.keys m) ≡ some k) where
    abbrev v : Text
    v = value (some m) k

    stays :
        (ns : Namespace) (s : c.State)
        → ns.namespace ≡ []
        → named ns.name (objects s []) ≡ some ns
        → matches k v ns ≡ false
        → Rewrites objects (Turns k v ns) ns s (done tt, s)
    stays ns s placed stored differs =
        let (finished, written) = kept-Writes c.namespaces objects api ns s placed stored in
        (finished, (ns, inl (differs, refl), written))

    by_labels-Rewrites :
        (ns : Namespace) (s : c.State)
        → ns.namespace ≡ []
        → named ns.name (objects s []) ≡ some ns
        → (l : Labels) → ns.labels ≡ l
        → Rewrites objects (Turns k v ns) ns s (by_labels c q m ns l s)
    by_labels-Rewrites ns s placed stored none e = stays ns s placed stored (matches-none k v ns e)
    by_labels-Rewrites ns s placed stored (some x) e =
        elim (Bool-cases (value ns.labels k == value (some m) k)) [
          | inr unequal ↦
              rw (key, unequal) (stays ns s placed stored (matches-unequal k v ns unequal))
          | inl equal ↦
              let agrees = matches-equal k v ns e equal in
              let some_map : ns.labels ≢ none = λ h. cc (e, h) in
              let (finished, (ns', taken, written)) =
                add_label-Rewrites ns s some_map placed stored in
              rw (key, equal) (finished, (ns', inr (agrees, taken), written))
        ]

    label_matching-Rewrites :
        (ns : Namespace) (s : c.State)
        → ns.namespace ≡ []
        → named ns.name (objects s []) ≡ some ns
        → Rewrites objects (Turns k v ns) ns s (label_matching c q m ns s)
    unfolding label_matching
    label_matching-Rewrites ns s placed stored =
        by_labels-Rewrites ns s placed stored ns.labels refl

    ready :
        (s : c.State) (os : List Namespace)
        → All (λ o. o.namespace ≡ []) os
        → All (λ o. named o.name (objects s []) ≡ some o) os
        → All (λ o. (o.namespace ≡ []) × (named o.name (objects s []) ≡ some o)) os
    ready s [] _ _ = tt
    ready s (o ∷ os) (p, ps) (e, es) = ((p, e), ready s os ps es)

    -- With a consistent API for namespaces and for profiles, and a clock whose reading does not
    -- touch namespaces: reconciling the namespaces for a stored profile that selects by a label,
    -- not by name, ends without error. Afterwards a namespace without the value at the selector's
    -- first key is as it was; one with it carries the label of some profile, with all but the
    -- operator's two labels as before, and that profile is the reconciled one if the namespace had
    -- no profile label or an empty one. A missing label counts as the empty value.
    pub reconcile_namespace-by_label :
        (namespace profile : Text) (s : c.State)
        → c.namespaces.list_all s ≡ ok (objects s [])
        → c.profiles.get namespace profile s ≡ ok q
        → q.spec.match_name ≡ none
        → q.spec.match_labels ≡ some m
        → (n : Text) (ns : Namespace) → named n (objects s []) ≡ some ns
        → ((reconcile_namespace c namespace profile s).0 ≡ done tt)
          × ((ns' : Namespace) × Turns k (value (some m) k) ns ns'
              × (named n (objects (reconcile_namespace c namespace profile s).1 []) ≡ some ns'))
    unfolding reconcile_namespace
    reconcile_namespace-by_label namespace profile s listed there unnamed by_label n ns stored =
        let os = objects s [] in
        let (finished, left) =
          for_each-rewrites objects (Turns k v) (label_matching c q m) [] label_matching-Rewrites os
            s (api.nodup s []) (ready s os (api.placed s []) (named_self os (api.nodup s []))) in
        rw (listed, there, selected_by c q q.spec.namespace_selector m os unnamed by_label)
          (finished, (left n).0 ns stored)
