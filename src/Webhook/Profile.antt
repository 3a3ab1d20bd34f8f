-- ===== src/Webhook/Profile.antt =====
-- internal/webhook/v1alpha1/quotaprofile_webhook.go: `QuotaProfileCustomValidator`. The warnings are
-- always nil.
pub mod Admission
pub mod Compatible
use namespace_quota_operator.Common.{
  Bool, true, false, ◌&&◌, List, [], ◌∷◌, Option, none, some, is_some, not, ltb, length,
  if◌then◌else◌,
}
use namespace_quota_operator.Text.{Text, codes, ◌==◌}
use namespace_quota_operator.Labels.{Entries, Labels}
use namespace_quota_operator.Effect.{
  Error, wrong_object, refused, duplicate_match_name, duplicate_match_labels, list_failed, Result,
  ok, err, Outcome, done, fail, panic, must,
}
use namespace_quota_operator.Api.{Object, NamespaceSelector, QuotaProfile}
use namespace_quota_operator.Client.{Client}
use namespace_quota_operator.ProfileController.{first}
use namespace_quota_operator.Webhook.{RuntimeObject, quota_profile}

-- One check after another: the first error or panic ends the validation.
infixl 10 ◌then_check◌
abbrev pub ◌then_check◌ : Outcome (Unit {0}) → Outcome (Unit {0}) → Outcome (Unit {0})
done _ then_check next = next
fail e then_check next = fail e
panic then_check next = panic

-- The conditions on the selector alone.
unfoldable pub validate_selector : NamespaceSelector → Outcome (Unit {0})
validate_selector s =
    if not (is_some s.match_labels) && not (is_some s.match_name)
    then fail (
        refused
          (codes "one of namespaceSelector.matchLabels or namespaceSelector.matchName must be set"))
    else if is_some s.match_labels && is_some s.match_name
    then fail (
        refused (
          codes
            "only one of namespaceSelector.matchLabels or namespaceSelector.matchName can be set"))
    else elim s.match_labels [
      | none ↦ done tt
      | some m ↦
          if ltb 1 (length m)
          then fail (refused (codes "only one label can be used in namespaceSelector.matchLabels"))
          else done tt
    ]

module _ {Rq Lr : Type 0} (c : Client Rq Lr) where
  abbrev pub is_same_profile : QuotaProfile Rq Lr → QuotaProfile Rq Lr → Bool
  is_same_profile p q = p.namespace == q.namespace && p.name == q.name

  -- The profile, unless it is `q` itself, has the selector by name that is to be checked.
  unfoldable pub has_name : QuotaProfile Rq Lr → Text → QuotaProfile Rq Lr → Bool
  has_name q name p =
      if is_same_profile p q
      then false
      else elim p.spec.match_name [ none ↦ false | some n ↦ n == name ]

  unfoldable pub check_names :
      QuotaProfile Rq Lr → Text → List (QuotaProfile Rq Lr) → Outcome (Unit {0})
  check_names q name [] = done tt
  check_names q name (p ∷ ps) =
      let rest = check_names q name ps in
      if has_name q name p then fail (duplicate_match_name name p.namespace p.name) else rest

  -- The keys of the two maps are compared as `profileKeys[0] == keys[0]`, where either may be missing.
  unfoldable pub same_first_key : Option Text → Option Text → Option Bool
  same_first_key none key = none
  same_first_key (some k) none = none
  same_first_key (some k) (some key) = some (k == key)

  -- Does the profile, unless it is `q` itself, select by the key that is to be checked? `none` is a
  -- panic.
  unfoldable pub has_key : QuotaProfile Rq Lr → Entries → QuotaProfile Rq Lr → Option Bool
  unfolding same_first_key
  has_key q m p = if is_same_profile p q then some false else elim p.spec.match_labels [
    | none ↦ some false
    | some pm ↦ same_first_key (first (c.keys pm)) (first (c.keys m))
  ]

  unfoldable pub check_key :
      QuotaProfile Rq Lr → Option Bool → Outcome (Unit {0}) → Outcome (Unit {0})
  check_key p none rest = panic
  check_key p (some true) rest = fail (duplicate_match_labels p.namespace p.name)
  check_key p (some false) rest = rest

  unfoldable pub check_keys :
      QuotaProfile Rq Lr → Entries → List (QuotaProfile Rq Lr) → Outcome (Unit {0})
  unfolding check_key
  check_keys q m [] = done tt
  check_keys q m (p ∷ ps) = check_key p (has_key q m p) (check_keys q m ps)

  -- `if MatchName != nil` and `if MatchLabels != nil`.
  unfoldable pub check_match_name :
      QuotaProfile Rq Lr → Option Text → List (QuotaProfile Rq Lr) → Outcome (Unit {0})
  check_match_name q none ps = done tt
  check_match_name q (some name) ps = check_names q name ps

  unfoldable pub check_match_labels :
      QuotaProfile Rq Lr → Labels → List (QuotaProfile Rq Lr) → Outcome (Unit {0})
  check_match_labels q none ps = done tt
  check_match_labels q (some m) ps = check_keys q m ps

  -- The conditions that involve the other profiles.
  unfoldable pub check_profiles :
      QuotaProfile Rq Lr → List (QuotaProfile Rq Lr) → Outcome (Unit {0})
  unfolding check_match_name check_match_labels
  check_profiles q ps =
      check_match_name q q.spec.match_name ps then_check check_match_labels q q.spec.match_labels ps

  unfoldable pub check_listed :
      QuotaProfile Rq Lr → Result (List (QuotaProfile Rq Lr)) → Outcome (Unit {0})
  unfolding check_profiles
  check_listed q (ok ps) = check_profiles q ps
  check_listed q (err e) = fail (list_failed e)

  unfoldable pub validate : RuntimeObject Rq Lr → c.State → Outcome (Unit {0})
  unfolding check_listed validate_selector
  validate (quota_profile q) s =
      validate_selector q.spec.namespace_selector then_check check_listed q (c.profiles.list_all s)
  validate _ s = fail wrong_object

  unfoldable pub validate_create : RuntimeObject Rq Lr → c.State → Outcome (Unit {0})
  unfolding validate
  validate_create obj = validate obj

  unfoldable pub validate_update :
      RuntimeObject Rq Lr → RuntimeObject Rq Lr → c.State → Outcome (Unit {0})
  unfolding validate
  validate_update old obj = validate obj

  unfoldable pub validate_delete : RuntimeObject Rq Lr → c.State → Outcome (Unit {0})
  validate_delete (quota_profile q) s = done tt
  validate_delete _ s = fail wrong_object
