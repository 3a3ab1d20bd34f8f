-- ===== src/ProfileController/Outranked.antt =====
-- `addLabelToNamespace` on a namespace that is labelled with a profile of a later creation.
use namespace_quota_operator.Common.{
  refl, ◌≡◌, ◌≢◌, true, false, List, ◌&&◌, ◌<◌, [], none, some, arith,
}
use namespace_quota_operator.Text.{Text, ◌==◌}
use namespace_quota_operator.Text.Split.{lacks}
use namespace_quota_operator.Labels.{Labels, find, value}
use namespace_quota_operator.Labels.Laws.{value-find}
use namespace_quota_operator.Effect.{ok}
use namespace_quota_operator.Api.{QuotaProfile, Namespace, quota_profile_label_key}
use namespace_quota_operator.Client.{Client}
use namespace_quota_operator.Client.Laws.{named, IsConsistent}
use namespace_quota_operator.Ids.{get_profile_id}
use namespace_quota_operator.Ids.Profile.{profile_id-full}
use namespace_quota_operator.ProfileController.ByLabel.{with_map-some}
use namespace_quota_operator.ProfileController.{
  label_and_update, keep_or_replace, resolve_conflict, add_label_to_namespace,
}
use namespace_quota_operator.ProfileController.ByName.{LabelsOnly, label_and_update-LabelsOnly}
use namespace_quota_operator.ProfileController.Precedence.{resolve_conflict-stored}

some_map :
    (labels : Labels) {v : Text} → find labels quota_profile_label_key ≡ some v → labels ≢ none
unfolding find
some_map none h e = cc
some_map (some m) h e = cc

module _ {Rq Lr : Type 0} (c : Client Rq Lr) (q existing : QuotaProfile Rq Lr) (ns : Namespace)
    (s : c.State) where
  -- The creation decides alone where the existing profile is the later one.
  keep_or_replace-later :
      q.creation_timestamp < existing.creation_timestamp
      → keep_or_replace c existing q ns s ≡ label_and_update c existing ns s
  unfolding keep_or_replace
  keep_or_replace-later later = ground arith

  add_label-conflict :
      find ns.labels quota_profile_label_key
        ≡ some (get_profile_id existing.namespace existing.name)
      → add_label_to_namespace c q ns s ≡ resolve_conflict c q ns s
  unfolding add_label_to_namespace
  add_label-conflict labelled =
      let full : (value ns.labels quota_profile_label_key == []) ≡ false = ground (
        arith,
        value-find ns.labels quota_profile_label_key labelled,
        profile_id-full existing.namespace existing.name,
      ) in
      rw (with_map-some c ns.labels (some_map ns.labels labelled), full) refl

module _ {Rq Lr : Type 0} (c : Client Rq Lr) (objects : c.State → Text → List Namespace)
    (api : IsConsistent c.namespaces objects)
    (clock_frame : (s : c.State) → objects (c.now s).1 ≡ objects s)
    (q existing : QuotaProfile Rq Lr) (s : c.State) (ns : Namespace) where
  -- With a consistent API for namespaces, which reading the clock does not touch: adding the label
  -- of a profile to a stored namespace that is labelled with another stored profile, which was
  -- created later, ends without error and leaves the namespace to that other profile, whatever the
  -- two precedences are. Afterwards the namespace carries that profile's label, with all but the
  -- operator's two labels as before, and every other namespace is as it was. That profile has no
  -- dot in its namespace and name.
  pub add_label-later :
      lacks b'.' existing.namespace ≡ true
      → lacks b'.' existing.name ≡ true
      → find ns.labels quota_profile_label_key
        ≡ some (get_profile_id existing.namespace existing.name)
      → (existing.namespace == q.namespace && existing.name == q.name) ≡ false
      → c.profiles.get existing.namespace existing.name s ≡ ok existing
      → named ns.name (objects s []) ≡ some ns
      → q.creation_timestamp < existing.creation_timestamp
      → LabelsOnly c objects api clock_frame existing s ns ns.name (add_label_to_namespace c q ns s)
  add_label-later dotless_namespace dotless_name labelled different there stored later =
      rw
        (
          add_label-conflict c q existing ns s labelled,
          resolve_conflict-stored c q existing ns s dotless_namespace dotless_name labelled
              different there,
          keep_or_replace-later c q existing ns s later,
        )
        (label_and_update-LabelsOnly c objects api clock_frame existing s ns ns.name stored
          (some_map ns.labels labelled))
