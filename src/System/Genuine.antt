-- ===== src/System/Genuine.antt =====
-- Objects with a profile label that the operator made.
use mathlib.Core.Option.{some-injective}
use namespace_quota_operator.Common.{ℕ, ◌≡◌, ◌≢◌, refl, sym, ◌∙◌, false, [], none, some, arith}
use namespace_quota_operator.Text.{Text, text_dec}
use namespace_quota_operator.Text.Decimal.{itoa}
use namespace_quota_operator.Labels.{Labels, find, lookup, value}
use namespace_quota_operator.Labels.Laws.{value-find}
use namespace_quota_operator.Api.{Object, quota_profile_label_key}
use namespace_quota_operator.Ids.{get_profile_id}
use namespace_quota_operator.NamespaceController.Preserve.{IsManaged}
use namespace_quota_operator.Webhook.{is_managed_by_quota_profile}

unmanaged_label :
    (labels : Labels) (label : Text)
    → is_managed_by_quota_profile labels ≡ false
    → find labels quota_profile_label_key ≡ some label
    → label ≡ []
unfolding is_managed_by_quota_profile find
unmanaged_label none label unmanaged e = cc
unmanaged_label (some m) label unmanaged e =
    let v : value (some m) quota_profile_label_key ≡ label =
      value-find (some m) quota_profile_label_key e in
    elim (text_dec label []) [ yes empty ↦ empty | no full ↦ absurd (ground (arith, v)) ]

module _ {Spec : Type 0} (id : Text → Text → Text → Text) where
  -- If the object carries a profile label that is not empty, that is the identifier of some profile and
  -- the name is one that the operator gives to an object of this profile, and there are no finalizers.
  abbrev pub IsGenuine : Object Spec → Type 0
  IsGenuine o =
      (label : Text)
      → find o.labels quota_profile_label_key ≡ some label
      → label ≢ []
      → (o.finalizers ≡ [])
        × (namespace name : Text) × (i : ℕ) × (label ≡ get_profile_id namespace name)
        × (o.name ≡ id namespace name (itoa i))

  pub IsGenuine-stable :
      (x y : Object Spec)
      → x.name ≡ y.name
      → x.labels ≡ y.labels
      → x.finalizers ≡ y.finalizers
      → IsGenuine y
      → IsGenuine x
  IsGenuine-stable x y name labels finalizers genuine label e full =
      let (plain, a, b, i, own, named) = genuine label (cc (labels, e)) full in
      (finalizers ∙ plain, a, b, i, own, name ∙ named)

  pub IsGenuine-IsManaged : IsManaged id IsGenuine
  unfolding find lookup text_dec
  IsGenuine-IsManaged = record {
    fresh = λ a b namespace i spec label e full. (refl, a, b, i, sym (some-injective _ _ e), refl);
    respec = λ o spec genuine label e full. genuine label e full;
  }

  -- An object that the webhooks take for unmanaged has no profile label, or an empty one.
  pub IsGenuine-unmanaged :
      (o : Object Spec) → is_managed_by_quota_profile o.labels ≡ false → IsGenuine o
  IsGenuine-unmanaged o unmanaged label e full =
      absurd (full (unmanaged_label o.labels label unmanaged e))
