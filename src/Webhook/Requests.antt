-- ===== src/Webhook/Requests.antt =====
-- Who may write which objects, in words of their own: isManagedByQuotaProfile and isServiceAccount of
-- internal/webhook/v1/resourcequota_webhook.go.
use mathlib.Core.Bool.{false≢true, true≢false}
use mathlib.Core.Option.{none-ne-some}
use namespace_quota_operator.Common.{
  ◌≡◌, ◌↔◌, ◌⊎◌, inl, inr, refl, sym, ◌∙◌, ap, true, false, [], ◌∷◌, ◌++◌, Option, none, some, eqb,
  Bool-cases, arith,
}
use namespace_quota_operator.Text.{Text, codes, text_dec, has_prefix}
use namespace_quota_operator.Labels.{Entries, Labels, find}
use namespace_quota_operator.Labels.Laws.{value-find, value-find-none}
use namespace_quota_operator.Effect.{Result, ok, err}
use namespace_quota_operator.Api.{quota_profile_label_key}
use namespace_quota_operator.Webhook.{is_managed_by_quota_profile, is_service_account}

-- There is no profile label, or an empty one.
abbrev pub IsUnmanaged : Labels → Type 0
IsUnmanaged labels =
    (find labels quota_profile_label_key ≡ none) ⊎ (find labels quota_profile_label_key ≡ some [])

-- The request names its user, and the name starts as those of service accounts do.
abbrev pub IsServiceAccount : {Context : Type 0} → (Context → Result Text) → Context → Type 0
IsServiceAccount username ctx =
    (rest : Text) × (username ctx ≡ ok (codes "system:serviceaccount:" ++ rest))

pub both_ways : {A B C : Type 0} → A ↔ B → B ↔ C → A ↔ C
both_ways (f, g) (h, k) = (λ a. h (f a), λ c. g (k c))

pub either_way : {A B C D : Type 0} → A ↔ C → B ↔ D → (A ⊎ B) ↔ (C ⊎ D)
either_way (f, g) (h, k) = (
  λ either. elim either [ inl a ↦ inl (f a) | inr b ↦ inr (h b) ],
  λ either. elim either [ inl c ↦ inl (g c) | inr d ↦ inr (k d) ],
)

has_prefix-append : (p rest : Text) → has_prefix (p ++ rest) p ≡ true
unfolding has_prefix
has_prefix-append [] rest = refl
has_prefix-append (x ∷ p) rest = ground (arith, has_prefix-append p rest)

prefix_rest : (s p : Text) → has_prefix s p ≡ true → (rest : Text) × (s ≡ p ++ rest)
unfolding has_prefix
prefix_rest s [] h = (s, refl)
prefix_rest [] (x ∷ p) h = absurd (false≢true h)
prefix_rest (y ∷ s) (x ∷ p) h = elim (Bool-cases (eqb y x)) [
  | inl same ↦
      let (rest, e) = prefix_rest s p (rw same at h) in
      let e' : y ≡ x = ground arith in (rest, cc (e, e'))
  | inr differs ↦ absurd (false≢true (rw differs at h))
]

by_label :
    (m : Entries) (l : Option Text)
    → find (some m) quota_profile_label_key ≡ l
    → (is_managed_by_quota_profile (some m) ≡ false) ↔ IsUnmanaged (some m)
unfolding is_managed_by_quota_profile text_dec
by_label m none absent =
    (λ _. inl absent, λ _. rw (value-find-none (some m) quota_profile_label_key absent))
by_label m (some []) blank =
    (λ _. inr blank, λ _. rw (value-find (some m) quota_profile_label_key blank))
by_label m (some (x ∷ l)) given = (
  λ h. absurd (true≢false (rw (value-find (some m) quota_profile_label_key given) at h)),
  λ h. elim h [ inl absent ↦ absurd (none-ne-some (x ∷ l) (sym absent ∙ given)) | inr blank ↦ cc ],
)

pub is_managed-IsUnmanaged :
    (labels : Labels) → (is_managed_by_quota_profile labels ≡ false) ↔ IsUnmanaged labels
unfolding is_managed_by_quota_profile find
is_managed-IsUnmanaged none = (λ _. inl refl, λ _. refl)
is_managed-IsUnmanaged (some m) = by_label m (find (some m) quota_profile_label_key) refl

module _ {Context : Type 0} (username : Context → Result Text) (ctx : Context) where
  by_name :
      (r : Result Text)
      → username ctx ≡ r
      → is_service_account username ctx ≡ true
      → IsServiceAccount username ctx
  unfolding is_service_account
  by_name (err e) same h = absurd (false≢true (rw (is_service_account, same) at h))
  by_name (ok name) same h =
      let (rest, e) =
        prefix_rest name (codes "system:serviceaccount:") (rw (is_service_account, same) at h) in
      (rest, same ∙ ap ok e)

  pub is_service_account-IsServiceAccount :
      (is_service_account username ctx ≡ true) ↔ IsServiceAccount username ctx
  unfolding is_service_account
  is_service_account-IsServiceAccount = (
    λ h. by_name (username ctx) refl h,
    λ (rest, e).
        rw (e, is_service_account) (has_prefix-append (codes "system:serviceaccount:") rest),
  )
