-- ===== src/ProfileController/Deletion.antt =====
-- `handleDeletion`: the labels of a profile that goes.
use mathlib.Core.Path.{subst}
use mathlib.Core.Option.{none-ne-some, some-injective}
use namespace_quota_operator.Common.{
  All-zip, All-Unit, ◌≡◌, ◌≢◌, refl, sym, ◌∙◌, Bool, true, false, ◌&&◌, List, [], Option, none,
  some, if◌then◌else◌, arith, Bool-cases, inl, inr,
}
use namespace_quota_operator.Text.{Text, ◌==◌, text_eq_refl}
use namespace_quota_operator.Text.Split.{lacks}
use namespace_quota_operator.Labels.{Labels, find, delete}
use namespace_quota_operator.Labels.Laws.{find-delete}
use namespace_quota_operator.Effect.{ok, done, for_each}
use namespace_quota_operator.Api.{
  QuotaProfile, Namespace, quota_profile_label_key, quota_profile_last_update_timestamp,
  quota_profile_finalizer,
}
use namespace_quota_operator.Client.{Client}
use namespace_quota_operator.Client.Laws.{named, IsConsistent}
use namespace_quota_operator.Client.Loop.{
  Settles, settled_by, settled_by_self, named_self, for_each-settles,
}
use namespace_quota_operator.Client.Writes.{Writes, kept-Writes, relabelled-Writes}
use namespace_quota_operator.Ids.{get_profile_id, split_profile_id}
use namespace_quota_operator.Ids.Profile.{split-get_profile_id}
use namespace_quota_operator.ProfileController.{
  with_labels, clean_labelled, clean_namespace, handle_deletion,
}

deleted_label :
    (m : Labels)
    → find
        (delete (delete m quota_profile_label_key) quota_profile_last_update_timestamp)
        quota_profile_label_key
      ≡ none
deleted_label m = ground (
  arith,
  find-delete (delete m quota_profile_label_key) quota_profile_last_update_timestamp
      quota_profile_label_key,
  find-delete m quota_profile_label_key quota_profile_label_key,
)

module _ {Rq Lr : Type 0} (q : QuotaProfile Rq Lr) where
  -- The label, split at its dot, names the profile.
  abbrev pub points_to : Text → Bool
  points_to id = (split_profile_id id).0 == q.namespace && (split_profile_id id).1 == q.name

  -- What the cleanup leaves of a namespace, by its profile label.
  abbrev pub cleaned_labelled : Namespace → Option Text → Namespace
  cleaned_labelled ns none = ns
  cleaned_labelled ns (some id) =
      if points_to id
      then with_labels ns
          (delete (delete ns.labels quota_profile_label_key) quota_profile_last_update_timestamp)
      else ns

  unfoldable pub cleaned : Namespace → Option Namespace
  cleaned ns = some (cleaned_labelled ns (find ns.labels quota_profile_label_key))

  -- The cleanup leaves no label that names the profile.
  cleaned-points_to :
      (ns : Namespace) (l : Option Text) (id : Text)
      → find ns.labels quota_profile_label_key ≡ l
      → find (cleaned_labelled ns l).labels quota_profile_label_key ≡ some id
      → points_to id ≡ false
  cleaned-points_to ns none id e h = cc
  cleaned-points_to ns (some l) id e h = elim (Bool-cases (points_to l)) [
    | inl ours ↦ absurd (none-ne-some id (sym (deleted_label ns.labels) ∙ (rw ours at h)))
    | inr other ↦
        let h' : find ns.labels quota_profile_label_key ≡ some id = rw other at h in
        subst (λ i. points_to i ≡ false) (some-injective l id (sym e ∙ h')) other
  ]

  cleaned-other :
      (ns : Namespace) (l : Option Text)
      → ((id : Text) → l ≡ some id → points_to id ≡ false)
      → cleaned_labelled ns l ≡ ns
  cleaned-other ns none other = refl
  cleaned-other ns (some id) other = rw (other id refl) refl

  settled-points_to :
      (old : Option Namespace) (ns : Namespace) (id : Text)
      → settled_by cleaned old none ≡ some ns
      → find ns.labels quota_profile_label_key ≡ some id
      → points_to id ≡ false
  unfolding cleaned
  settled-points_to none ns id e h = cc
  settled-points_to (some x) ns id e h =
      cleaned-points_to x (find x.labels quota_profile_label_key) id refl
        (cc (some-injective (cleaned_labelled x (find x.labels quota_profile_label_key)) ns e, h))

  points_to_self :
      lacks b'.' q.namespace ≡ true
      → lacks b'.' q.name ≡ true
      → points_to (get_profile_id q.namespace q.name) ≡ true
  points_to_self plain_ns plain_name =
      rw
        (
          split-get_profile_id q.namespace q.name,
          plain_ns,
          plain_name,
          text_eq_refl q.namespace,
          text_eq_refl q.name,
        )
        refl

  not_pointed :
      lacks b'.' q.name ≡ false
      → q.name ≢ []
      → points_to (get_profile_id q.namespace q.name) ≡ false
  not_pointed dotted named =
      rw (split-get_profile_id q.namespace q.name, dotted) (ground (arith, named))

module _ {Rq Lr : Type 0} (c : Client Rq Lr) (objects : c.State → Text → List Namespace)
    (api : IsConsistent c.namespaces objects) (q : QuotaProfile Rq Lr) where
  clean_labelled-Writes :
      (ns : Namespace) (s : c.State) (l : Option Text)
      → ns.namespace ≡ []
      → named ns.name (objects s []) ≡ some ns
      → Writes objects ns (some (cleaned_labelled q ns l)) s (clean_labelled c q ns l s)
  unfolding clean_labelled
  clean_labelled-Writes ns s none placed stored =
      kept-Writes c.namespaces objects api ns s placed stored
  clean_labelled-Writes ns s (some id) placed stored = elim (Bool-cases (points_to q id)) [
    | inl ours ↦ rw ours (
        relabelled-Writes c.namespaces objects api ns s placed stored
          (with_labels ns
            (delete (delete ns.labels quota_profile_label_key) quota_profile_last_update_timestamp))
          refl refl)
    | inr other ↦ rw other (kept-Writes c.namespaces objects api ns s placed stored)
  ]

  clean_namespace-Settles : Settles objects (λ _. Unit {0}) (cleaned q) (clean_namespace c q) []
  unfolding cleaned clean_namespace
  clean_namespace-Settles ns s _ placed stored =
      clean_labelled-Writes ns s (find ns.labels quota_profile_label_key) placed stored

  -- The cleanup loop over all namespaces.
  clean_loop :
      (s : c.State)
      → ((for_each (clean_namespace c q) (objects s []) s).0 ≡ done tt)
        × ((n : Text)
            → named n (objects (for_each (clean_namespace c q) (objects s []) s).1 [])
              ≡ settled_by (cleaned q) (named n (objects s [])) none)
  clean_loop s =
      let os = objects s [] in
      let (finished, written) =
        for_each-settles objects (λ _. Unit {0}) (cleaned q) (clean_namespace c q) []
          clean_namespace-Settles os s (api.nodup s [])
          (All-zip _ _ _ os (All-Unit os) (api.placed s []) (named_self os (api.nodup s []))) in
      (
        finished,
        λ n. written [] n ∙ rw (text_eq_refl []) (settled_by_self (cleaned q) (named n os)),
      )

  module _
      (frame : (p : QuotaProfile Rq Lr) (s : c.State)
        → objects (c.profiles.update p s).1 ≡ objects s)
      (s : c.State) (listed : c.namespaces.list_all s ≡ ok (objects s []))
      (finalizer : c.contains_finalizer q.finalizers quota_profile_finalizer ≡ true) where
    -- The deletion of a profile leaves of each namespace what `cleaned` says, and ends as the write of
    -- the profile without its finalizer does.
    after_deletion :
        (n : Text)
        → named n (objects (handle_deletion c q s).1 [])
          ≡ settled_by (cleaned q) (named n (objects s [])) none
    unfolding handle_deletion
    after_deletion n =
        let (finished, written) = clean_loop s in
        rw (finalizer, listed, finished, frame) (written n)

    -- With a consistent API for namespaces, in which updates of profiles do not touch them, after
    -- the deletion of a profile that has the operator's finalizer and whose namespace and name hold
    -- no dot: no namespace carries the profile's label.
    pub handle_deletion-unlabels :
        lacks b'.' q.namespace ≡ true
        → lacks b'.' q.name ≡ true
        → (n : Text) (ns : Namespace) → named n (objects (handle_deletion c q s).1 []) ≡ some ns
        → find ns.labels quota_profile_label_key ≢ some (get_profile_id q.namespace q.name)
    handle_deletion-unlabels plain_ns plain_name n ns h labelled =
        let e : settled_by (cleaned q) (named n (objects s [])) none ≡ some ns =
          sym (after_deletion n) ∙ h in
        cc (
          points_to_self q plain_ns plain_name,
          settled-points_to q (named n (objects s [])) ns (get_profile_id q.namespace q.name) e
              labelled,
        )

    -- With a consistent API for namespaces, in which updates of profiles do not touch them, the
    -- deletion of a profile that has the operator's finalizer leaves a namespace as it is if its
    -- label does not split into the profile's namespace and name.
    pub handle_deletion-keeps :
        (n : Text) (ns : Namespace)
        → named n (objects s []) ≡ some ns
        → ((id : Text) → find ns.labels quota_profile_label_key ≡ some id → points_to q id ≡ false)
        → named n (objects (handle_deletion c q s).1 []) ≡ some ns
    unfolding cleaned
    handle_deletion-keeps n ns h other =
        after_deletion n
        ∙ rw h
            (cc (cleaned-other q ns (find ns.labels quota_profile_label_key) (λ id e. other id e)))

-- The cleanup passes over a namespace that carries the profile's own label if the profile's name is
-- not empty and holds a dot: the label is not recognised.
pub clean_namespace-dotted :
    {Rq Lr : Type 0} (c : Client Rq Lr) (q : QuotaProfile Rq Lr) (ns : Namespace) (s : c.State)
    → lacks b'.' q.name ≡ false
    → q.name ≢ []
    → find ns.labels quota_profile_label_key ≡ some (get_profile_id q.namespace q.name)
    → clean_namespace c q ns s ≡ (done tt, s)
unfolding clean_namespace clean_labelled
clean_namespace-dotted c q ns s dotted named labelled =
    rw (labelled, not_pointed q dotted named) refl
