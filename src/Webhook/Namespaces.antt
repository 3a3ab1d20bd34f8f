-- ===== src/Webhook/Namespaces.antt =====
-- internal/webhook/v1/namespace_webhook.go: `NamespaceCustomDefaulter`. Its `splitProfileID` and
-- `setQuotaProfileLabels` are those of internal/controller but for what they log.
pub mod Priority
pub mod Matching
pub mod Steps
pub mod Through
pub mod Winner
pub mod Precedence
pub mod Preserve
pub mod Empty
use namespace_quota_operator.Common.{
  Bool, true, false, ◌&&◌, List, [], ◌∷◌, Option, none, some, is_some, ltb, if◌then◌else◌,
}
use namespace_quota_operator.Text.{Text, codes, ◌==◌}
use namespace_quota_operator.Labels.{Entries, Labels, find, value, delete}
use namespace_quota_operator.Effect.{
  wrong_object, Result, Outcome, done, fail, Action, must, pure, raise, lift, query, ◌>>=◌, ◌>>◌,
}
use namespace_quota_operator.Api.{
  Object, QuotaProfile, Namespace, quota_profile_label_key, quota_profile_last_update_timestamp,
}
use namespace_quota_operator.Client.{Client}
use namespace_quota_operator.Ids.{split_profile_id}
use namespace_quota_operator.ProfileController.{
  first, is_new_address, with_labels, set_quota_profile_labels,
}
use namespace_quota_operator.Webhook.{RuntimeObject, namespace}

-- `removeLabel`
unfoldable pub remove_label : Namespace → Namespace
remove_label ns =
    with_labels ns
      (delete (delete ns.labels quota_profile_label_key) quota_profile_last_update_timestamp)

-- What a round of the loop over the profiles comes to: `Default` returns with the namespace, or the
-- loop goes on with it and with `matched`.
pub data Round : Type 0 where
  stop : Namespace → Round
  next : Namespace → Bool → Round

module _ {Rq Lr : Type 0} (c : Client Rq Lr) where
  -- The end of `resolveConflict`, once the existing profile is read.
  unfoldable pub keep_or_replace :
      QuotaProfile Rq Lr → QuotaProfile Rq Lr → Namespace → Action c.State Namespace
  keep_or_replace existing q ns =
      if is_new_address
      then set_quota_profile_labels c ns q
      else if ltb q.spec.precedence existing.spec.precedence
      then set_quota_profile_labels c ns existing
      else set_quota_profile_labels c ns q

  unfoldable pub resolve_conflict : QuotaProfile Rq Lr → Namespace → Action c.State Namespace
  unfolding keep_or_replace
  resolve_conflict q ns =
      let (existing_namespace, existing_name) =
        split_profile_id (value ns.labels quota_profile_label_key) in
      (do
        existing ← query (c.profiles.get existing_namespace existing_name)
        keep_or_replace existing q ns)

  -- The profile matches by label; `label` is the profile label that the namespace has.
  unfoldable pub take_profile :
      QuotaProfile Rq Lr → Namespace → Option Text → Action c.State Namespace
  unfolding resolve_conflict
  take_profile q ns none = set_quota_profile_labels c ns q
  take_profile q ns (some existing_id) =
      let (existing_namespace, existing_name) = split_profile_id existing_id in
      if existing_namespace == q.namespace && existing_name == q.name
      then set_quota_profile_labels c ns q
      else resolve_conflict q ns

  -- A selector by labels: its first key has to be there, with its value.
  unfoldable pub label_round :
      QuotaProfile Rq Lr → Entries → Namespace → Bool → Action c.State Round
  unfolding take_profile
  label_round q m ns matched = do
    key ← lift (must (first (c.keys m)))
    if is_some (find ns.labels key) && value ns.labels key == value (some m) key
        then (do
          ns' ← take_profile q ns (find ns.labels quota_profile_label_key)
          pure (next ns' true))
        else pure (next ns matched)

  -- A selector by name.
  unfoldable pub name_round : QuotaProfile Rq Lr → Text → Namespace → Bool → Action c.State Round
  name_round q name ns matched =
      if name == ns.name
      then (do ns' ← set_quota_profile_labels c ns q; pure (stop ns'))
      else pure (next ns matched)

  unfoldable pub selector_round :
      QuotaProfile Rq Lr → Option Text → Labels → Namespace → Bool → Action c.State Round
  unfolding name_round label_round
  selector_round q (some name) labels ns matched = name_round q name ns matched
  selector_round q none (some m) ns matched = label_round q m ns matched
  selector_round q none none ns matched = pure (next ns matched)

  unfoldable pub default_round : QuotaProfile Rq Lr → Namespace → Bool → Action c.State Round
  unfolding selector_round
  default_round q ns matched =
      if is_some q.deletion_timestamp
      then pure (next ns matched)
      else selector_round q q.spec.match_name q.spec.match_labels ns matched

  unfoldable pub end_round :
      Round → (Namespace → Bool → Action c.State Namespace) → Action c.State Namespace
  end_round (stop ns) go_on = pure ns
  end_round (next ns matched) go_on = go_on ns matched

  -- The loop over the profiles, and what follows it.
  unfoldable pub default_loop :
      List (QuotaProfile Rq Lr) → Namespace → Bool → Action c.State Namespace
  unfolding default_round end_round
  default_loop [] ns matched = pure (if matched then ns else remove_label ns)
  default_loop (q ∷ qs) ns matched = do
    round ← default_round q ns matched
    end_round round (default_loop qs)

  -- `Default`; it hands the namespace back as it leaves it.
  unfoldable pub default : RuntimeObject Rq Lr → Action c.State Namespace
  unfolding default_loop
  default (namespace ns) = do
    profiles ← query c.profiles.list_all
    default_loop (c.sort_by_creation profiles) ns false
  default _ = raise wrong_object
