-- ===== src/Webhook/Namespaces/Empty.antt =====
-- `validate` and `Default` at a selector with an empty map of labels.
use namespace_quota_operator.Common.{◌≡◌, refl, false, [], ◌∷◌, Option, none, some, is_some}
use namespace_quota_operator.Text.{Text}
use namespace_quota_operator.Labels.{Labels}
use namespace_quota_operator.Effect.{ok, done, panic}
use namespace_quota_operator.Api.{NamespaceSelector, QuotaProfile, Namespace}
use namespace_quota_operator.Client.{Client}
use namespace_quota_operator.Client.Laws.{IsLawful}
use namespace_quota_operator.Webhook.{namespace, quota_profile}
use namespace_quota_operator.Webhook.Profile.{
  validate_selector, check_names, check_keys, check_match_name, check_match_labels, check_profiles,
  check_listed, validate, validate_create,
}
use namespace_quota_operator.Webhook.Namespaces.{
  label_round, selector_round, default_round, default_loop, default,
}

empty-admitted :
    (selector : NamespaceSelector)
    → selector.match_name ≡ none
    → selector.match_labels ≡ some []
    → validate_selector selector ≡ done tt
unfolding validate_selector
empty-admitted selector unnamed empty = rw (unnamed, empty, validate_selector) refl

module _ {Rq Lr : Type 0} (c : Client Rq Lr) (q : QuotaProfile Rq Lr) where
  no_names : (o : Option Text) → check_match_name c q o [] ≡ done tt
  unfolding check_match_name check_names
  no_names none = refl
  no_names (some n) = refl

  no_keys : (o : Labels) → check_match_labels c q o [] ≡ done tt
  unfolding check_match_labels check_keys
  no_keys none = refl
  no_keys (some m) = refl

  selector_round-panic :
      (lawful : IsLawful c.library) (name : Option Text) (labels : Labels) (ns : Namespace)
      (s : c.State)
      → name ≡ none
      → labels ≡ some []
      → selector_round c q name labels ns false s ≡ (panic, s)
  unfolding selector_round label_round
  selector_round-panic lawful (some name) labels ns s unnamed empty = cc
  selector_round-panic lawful none labels ns s unnamed empty =
      rw (empty, selector_round, lawful.keys_nil) refl

  -- A profile that selects by an empty map of labels, and not by name, is admitted where no profile
  -- is listed, and as the one listed profile, if it is not being deleted, it makes the webhook for
  -- namespaces panic. The library lists no keys of an empty map, and the sort keeps a list of one.
  pub empty_selector-panics :
      (lawful : IsLawful c.library) (ns : Namespace) (s t : c.State)
      → q.spec.match_name ≡ none
      → q.spec.match_labels ≡ some []
      → is_some q.deletion_timestamp ≡ false
      → c.profiles.list_all s ≡ ok []
      → c.profiles.list_all t ≡ ok (q ∷ [])
      → c.sort_by_creation (q ∷ []) ≡ q ∷ []
      → (validate_create c (quota_profile q) s ≡ done tt)
        × (default c (namespace ns) t ≡ (panic, t))
  unfolding validate_create validate check_listed check_profiles default default_loop default_round
  empty_selector-panics lawful ns s t unnamed empty live before after sorted = (
    rw
        (
          empty-admitted q.spec.namespace_selector unnamed empty,
          before,
          no_names q.spec.match_name,
          no_keys q.spec.match_labels,
        )
        refl,
    rw
        (
          after,
          sorted,
          live,
          default_round,
          selector_round-panic lawful q.spec.match_name q.spec.match_labels ns t unnamed empty,
        )
        refl,
  )
