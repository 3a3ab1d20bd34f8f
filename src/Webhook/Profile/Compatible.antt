-- ===== src/Webhook/Profile/Compatible.antt =====
-- The webhook for profiles and the list of profiles that the API server stores.
use namespace_quota_operator.Common.{
  ◌≡◌, ◌⊎◌, List, [], ◌∷◌, All, if◌then◌else◌, Bool-cases, inl, inr,
}
use namespace_quota_operator.Effect.{ok, done}
use namespace_quota_operator.Api.{QuotaProfile}
use namespace_quota_operator.Client.{Client}
use namespace_quota_operator.Webhook.{quota_profile}
use namespace_quota_operator.Webhook.Profile.{is_same_profile, validate_create, validate_update}
use namespace_quota_operator.Webhook.Profile.Admission.{Clash, Clash-sym, validate-admits}

module _ {Rq Lr : Type 0} (c : Client Rq Lr) where
  -- No two profiles of a list clash.
  abbrev pub IsCompatible : List (QuotaProfile Rq Lr) → Type 0
  IsCompatible [] = Unit
  IsCompatible (p ∷ ps) = All (λ o. ¬ Clash c o p) ps × IsCompatible ps

  -- The list after the API server has stored the profile: it replaces the one of its name.
  unfoldable pub stored : QuotaProfile Rq Lr → List (QuotaProfile Rq Lr) → List (QuotaProfile Rq Lr)
  stored q [] = q ∷ []
  stored q (p ∷ ps) = if is_same_profile c p q then q ∷ ps else p ∷ stored q ps

  stored-All :
      (P : QuotaProfile Rq Lr → Type 0) (q : QuotaProfile Rq Lr) (ps : List (QuotaProfile Rq Lr))
      → P q
      → All P ps
      → All P (stored q ps)
  unfolding stored
  stored-All P q [] pq _ = (pq, tt)
  stored-All P q (p ∷ ps) pq (pp, h) = elim (Bool-cases (is_same_profile c p q)) [
    | inl same ↦ rw same (pq, h)
    | inr differs ↦ rw differs (pp, stored-All P q ps pq h)
  ]

  stored-IsCompatible :
      (q : QuotaProfile Rq Lr) (ps : List (QuotaProfile Rq Lr))
      → All (λ p. ¬ Clash c p q) ps
      → IsCompatible ps
      → IsCompatible (stored q ps)
  unfolding stored
  stored-IsCompatible q [] _ _ = (tt, tt)
  stored-IsCompatible q (p ∷ ps) (fine, h) (apart, compatible) =
      elim (Bool-cases (is_same_profile c p q)) [
        | inl same ↦ rw same (h, compatible)
        | inr differs ↦ rw differs (
          stored-All (λ o. ¬ Clash c o p) q ps (λ clash. fine (Clash-sym c clash)) apart,
          stored-IsCompatible q ps h compatible,
        )
      ]

  -- If no two listed profiles clash, none clash after a profile that the webhook admits, new or
  -- changed, is stored.
  pub validate-IsCompatible :
      (q old : QuotaProfile Rq Lr) (s : c.State) (ps : List (QuotaProfile Rq Lr))
      → c.profiles.list_all s ≡ ok ps
      → IsCompatible ps
      → (validate_create c (quota_profile q) s ≡ done tt)
        ⊎ (validate_update c (quota_profile old) (quota_profile q) s ≡ done tt)
      → IsCompatible (stored q ps)
  unfolding validate_create validate_update
  validate-IsCompatible q old s ps listed compatible (inl h) =
      stored-IsCompatible q ps (validate-admits c q s ps listed h).1 compatible
  validate-IsCompatible q old s ps listed compatible (inr h) =
      stored-IsCompatible q ps (validate-admits c q s ps listed h).1 compatible
