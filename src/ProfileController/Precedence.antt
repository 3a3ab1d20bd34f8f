-- ===== src/ProfileController/Precedence.antt =====
-- Which of two profiles `resolveConflict` leaves on a namespace.
use namespace_quota_operator.Common.{
  ◌≡◌, Bool, true, false, ◌&&◌, ◌||◌, ◌≤◌, ◌⊎◌, some, if◌then◌else◌, ltb, eqb, arith,
}
use namespace_quota_operator.Text.{◌==◌}
use namespace_quota_operator.Text.Split.{lacks}
use namespace_quota_operator.Labels.{find, value}
use namespace_quota_operator.Labels.Laws.{value-find}
use namespace_quota_operator.Effect.{ok, err, not_found}
use namespace_quota_operator.Api.{QuotaProfile, Namespace, quota_profile_label_key}
use namespace_quota_operator.Client.{Client}
use namespace_quota_operator.Ids.{get_profile_id, split_profile_id}
use namespace_quota_operator.Ids.Profile.{split-get_profile_id}
use namespace_quota_operator.ProfileController.{
  label_and_update, names_namespace, keep_or_replace, resolve_conflict,
}

-- The documented order: the higher precedence, and of equal ones the later creation.
abbrev pub outranks : {Rq Lr : Type 0} → QuotaProfile Rq Lr → QuotaProfile Rq Lr → Bool
outranks p q =
    ltb q.spec.precedence p.spec.precedence
    || (eqb q.spec.precedence p.spec.precedence && ltb q.creation_timestamp p.creation_timestamp)

module _ {Rq Lr : Type 0} (c : Client Rq Lr) (q existing : QuotaProfile Rq Lr) (ns : Namespace)
    (s : c.State) (dotless_namespace : lacks b'.' existing.namespace ≡ true)
    (dotless_name : lacks b'.' existing.name ≡ true)
    (labelled : find ns.labels quota_profile_label_key
      ≡ some (get_profile_id existing.namespace existing.name))
    (different : (existing.namespace == q.namespace && existing.name == q.name) ≡ false) where
  existing_id :
      split_profile_id (value ns.labels quota_profile_label_key)
      ≡ (existing.namespace, existing.name)
  existing_id = rw (
    value-find ns.labels quota_profile_label_key labelled,
    split-get_profile_id existing.namespace existing.name,
    dotless_namespace,
    dotless_name,
  )

  pub resolve_conflict-stored :
      c.profiles.get existing.namespace existing.name s ≡ ok existing
      → resolve_conflict c q ns s ≡ keep_or_replace c existing q ns s
  unfolding resolve_conflict
  resolve_conflict-stored stored = rw (existing_id, different, stored)

  -- On a namespace labelled with another profile that is stored and has no dot in its namespace and
  -- name, the conflict goes to that profile if it names the namespace or has the higher rank, and
  -- to the new one otherwise, if the stored profile does not have the lower precedence or was not
  -- created later.
  pub resolve_conflict-rank :
      c.profiles.get existing.namespace existing.name s ≡ ok existing
      → (q.spec.precedence ≤ existing.spec.precedence)
        ⊎ (existing.creation_timestamp ≤ q.creation_timestamp)
      → resolve_conflict c q ns s ≡ (
          if names_namespace c existing ns || outranks existing q
          then label_and_update c existing ns s
          else label_and_update c q ns s)
  unfolding keep_or_replace
  resolve_conflict-rank stored agree = rw (resolve_conflict-stored stored) (ground arith)

  -- On a namespace labelled with a profile without dots in its namespace and name that is gone, the
  -- new profile takes the namespace.
  pub resolve_conflict-gone :
      c.profiles.get existing.namespace existing.name s ≡ err not_found
      → resolve_conflict c q ns s ≡ label_and_update c q ns s
  unfolding resolve_conflict keep_or_replace names_namespace
  resolve_conflict-gone gone = rw (existing_id, different, gone) (ground arith)
