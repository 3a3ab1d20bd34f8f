-- ===== src/Webhook/Namespaces/Matching.antt =====
-- `Default` at namespaces that no profile selects, and `resolveConflict` at those that two select.
use namespace_quota_operator.Common.{
  ◌≡◌, ◌≢◌, ◌⊎◌, refl, Bool, true, false, ◌&&◌, List, [], ◌∷◌, Option, none, some, is_some,
  if◌then◌else◌, All, inl, inr, arith, ltb, Bool-cases, Option-cases,
}
use namespace_quota_operator.Text.{Text, ◌==◌, text_dec, text_eq_refl}
use namespace_quota_operator.Text.Split.{lacks, split}
use namespace_quota_operator.Labels.{Entries, Labels, find, value, delete}
use namespace_quota_operator.Labels.Laws.{find-delete, value-find}
use namespace_quota_operator.Effect.{not_found, ok, err, done, fail}
use namespace_quota_operator.Api.{
  QuotaProfile, Namespace, quota_profile_label_key, quota_profile_last_update_timestamp,
}
use namespace_quota_operator.Client.{Client}
use namespace_quota_operator.Ids.{get_profile_id, split_profile_id}
use namespace_quota_operator.Ids.Profile.{split-get_profile_id}
use namespace_quota_operator.ProfileController.{first, set_quota_profile_labels}
use namespace_quota_operator.ProfileController.Labelling.{KeepsRest}
use namespace_quota_operator.Webhook.{namespace}
use namespace_quota_operator.Webhook.Namespaces.{
  next, remove_label, keep_or_replace, resolve_conflict, take_profile, label_round, name_round,
  selector_round, default_round, end_round, default_loop, default,
}
use namespace_quota_operator.Webhook.Namespaces.Priority.{remove_label-KeepsRest}

unlabelled : (ns : Namespace) → find (remove_label ns).labels quota_profile_label_key ≡ none
unfolding remove_label
unlabelled ns = ground (
  arith,
  find-delete (delete ns.labels quota_profile_label_key) quota_profile_last_update_timestamp
      quota_profile_label_key,
  find-delete ns.labels quota_profile_label_key quota_profile_label_key,
)

module _ {Rq Lr : Type 0} (c : Client Rq Lr) where
  -- The selector asks for another name, or for a label that the namespace does not have.
  abbrev pub MissesSelector : Option Text → Labels → Namespace → Type 0
  MissesSelector (some name) labels ns = name ≢ ns.name
  MissesSelector none (some m) ns =
      (k : Text) × (first (c.keys m) ≡ some k) × (find ns.labels k ≢ some (value (some m) k))
  MissesSelector none none ns = Unit

  -- The profile is being deleted, or its selector misses the namespace.
  abbrev pub Misses : Namespace → QuotaProfile Rq Lr → Type 0
  Misses ns q =
      (is_some q.deletion_timestamp ≡ true)
      ⊎ MissesSelector q.spec.match_name q.spec.match_labels ns

  pub missed_label :
      (ns : Namespace) (m : Entries) (k : Text)
      → find ns.labels k ≢ some (value (some m) k)
      → (is_some (find ns.labels k) && value ns.labels k == value (some m) k) ≡ false
  missed_label ns m k h = elim (Option-cases (find ns.labels k)) [
    | inl e ↦ rw e refl
    | inr (v, e) ↦ ground (arith, e, value-find ns.labels k e, h)
  ]

  selector_round-Misses :
      (q : QuotaProfile Rq Lr) (name : Option Text) (labels : Labels) (ns : Namespace)
      (matched : Bool) (s : c.State)
      → MissesSelector name labels ns
      → selector_round c q name labels ns matched s ≡ (done (next ns matched), s)
  unfolding selector_round name_round label_round
  selector_round-Misses q (some name) labels ns matched s h = ground (arith, h)
  selector_round-Misses q none none ns matched s h = refl
  selector_round-Misses q none (some m) ns matched s (k, e, h) = rw (e, missed_label ns m k h) refl

  pub default_round-Misses :
      (q : QuotaProfile Rq Lr) (ns : Namespace) (matched : Bool) (s : c.State)
      → Misses ns q
      → default_round c q ns matched s ≡ (done (next ns matched), s)
  unfolding default_round
  default_round-Misses q ns matched s (inl deleted) = rw (deleted, default_round) refl
  default_round-Misses q ns matched s (inr h) = elim (Bool-cases (is_some q.deletion_timestamp)) [
    | inl deleted ↦ rw (deleted, default_round) refl
    | inr live ↦
        rw (live, default_round)
          (selector_round-Misses q q.spec.match_name q.spec.match_labels ns matched s h)
  ]

  default_loop-Misses :
      (qs : List (QuotaProfile Rq Lr)) (ns : Namespace) (s : c.State)
      → All (Misses ns) qs
      → default_loop c qs ns false s ≡ (done (remove_label ns), s)
  unfolding default_loop end_round
  default_loop-Misses [] ns s h = refl
  default_loop-Misses (q ∷ qs) ns s (h, hs) =
      rw (default_round-Misses q ns false s h) (default_loop-Misses qs ns s hs)

  -- If every listed profile is being deleted or misses the namespace, the namespace goes through
  -- without the profile label, and all but the operator's two labels is as it was.
  pub default-unselected :
      (ns : Namespace) (s : c.State) (ps : List (QuotaProfile Rq Lr))
      → c.profiles.list_all s ≡ ok ps
      → All (Misses ns) (c.sort_by_creation ps)
      → (ns' : Namespace) × (default c (namespace ns) s ≡ (done ns', s))
        × (find ns'.labels quota_profile_label_key ≡ none)
        × KeepsRest ns ns'
  unfolding default
  default-unselected ns s ps listed h = (
    remove_label ns,
    rw listed (default_loop-Misses (c.sort_by_creation ps) ns s h),
    unlabelled ns,
    remove_label-KeepsRest ns,
  )

  module _ (q existing : QuotaProfile Rq Lr) (ns : Namespace) (s : c.State)
      (dotless_namespace : lacks b'.' existing.namespace ≡ true)
      (dotless_name : lacks b'.' existing.name ≡ true)
      (labelled : find ns.labels quota_profile_label_key
        ≡ some (get_profile_id existing.namespace existing.name))
      (different : (existing.namespace == q.namespace && existing.name == q.name) ≡ false) where
    existing_id :
        split_profile_id (get_profile_id existing.namespace existing.name)
        ≡ (existing.namespace, existing.name)
    existing_id =
        rw (split-get_profile_id existing.namespace existing.name, dotless_namespace, dotless_name)
          refl

    take-other :
        take_profile c q ns (some (get_profile_id existing.namespace existing.name)) s
        ≡ resolve_conflict c q ns s
    unfolding take_profile
    take-other = rw (existing_id, different, take_profile) refl

    -- On a namespace labelled with another profile that is stored and has no dot in its namespace
    -- and name, a profile that matches by label takes part in a conflict: the webhook sets the
    -- labels of the stored profile if its precedence is higher, and those of the new profile
    -- otherwise.
    pub take_profile-precedence :
        c.profiles.get existing.namespace existing.name s ≡ ok existing
        → take_profile c q ns (find ns.labels quota_profile_label_key) s ≡ (
            if ltb q.spec.precedence existing.spec.precedence
            then set_quota_profile_labels c ns existing s
            else set_quota_profile_labels c ns q s)
    unfolding resolve_conflict keep_or_replace
    take_profile-precedence stored =
        rw
          (
            labelled,
            take-other,
            resolve_conflict,
            value-find ns.labels quota_profile_label_key labelled,
            existing_id,
            stored,
          )
          (ground arith)

    -- A profile by label that is not being deleted and comes first in the list turns away a
    -- namespace that it selects and that is labelled with another profile that is gone, without
    -- dots in its namespace and name: the webhook fails with the error of the look-up.
    pub default-gone :
        (ps rest : List (QuotaProfile Rq Lr)) (m : Entries) (k : Text)
        → c.profiles.list_all s ≡ ok ps
        → c.sort_by_creation ps ≡ q ∷ rest
        → is_some q.deletion_timestamp ≡ false
        → q.spec.match_name ≡ none
        → q.spec.match_labels ≡ some m
        → first (c.keys m) ≡ some k
        → find ns.labels k ≡ some (value (some m) k)
        → c.profiles.get existing.namespace existing.name s ≡ err not_found
        → default c (namespace ns) s ≡ (fail not_found, s)
    unfolding default default_loop default_round selector_round label_round resolve_conflict
        text_dec split_profile_id split get_profile_id set_quota_profile_labels value
    default-gone ps rest m k listed sorted live unnamed by_label key selected gone =
        let conflict : resolve_conflict c q ns s ≡ (fail not_found, s) =
          rw
            (
              resolve_conflict,
              value-find ns.labels quota_profile_label_key labelled,
              existing_id,
              gone,
            )
            refl in
        rw
          (
            listed,
            sorted,
            live,
            unnamed,
            by_label,
            default_round,
            key,
            value-find ns.labels k selected,
            selected,
            text_eq_refl (value (some m) k),
            labelled,
            take-other,
            conflict,
          )
          refl
