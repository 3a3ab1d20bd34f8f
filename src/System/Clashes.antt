-- ===== src/System/Clashes.antt =====
-- Stored profiles that do not clash, and the writes that keep them so.
use mathlib.Core.Path.{subst}
use namespace_quota_operator.Common.{
  ◌≡◌, refl, sym, ◌⊎◌, inl, inr, List, some, Some, All-Some, arith,
}
use namespace_quota_operator.Text.{Text, text_eq_refl}
use namespace_quota_operator.Effect.{Result, ok, err, done}
use namespace_quota_operator.Api.{QuotaProfile}
use namespace_quota_operator.Client.{Client}
use namespace_quota_operator.Client.Laws.{named}
use namespace_quota_operator.Client.Honest.{IsHonest, IsApart, Everywhere}
use namespace_quota_operator.Webhook.{quota_profile}
use namespace_quota_operator.Webhook.Profile.{
  validate_selector, check_listed, validate, validate_create, validate_update,
}
use namespace_quota_operator.Webhook.Profile.Admission.{
  Clash, Clash-sym, then_check-done, validate-admits,
}

-- The API as it meets profiles: honest on them, its list of all leaves none out, and no write of
-- another kind nor the clock changes them.
pub record IsProfileStore {Rq Lr : Type 0} (c : Client Rq Lr)
    (profiles : c.State → Text → List (QuotaProfile Rq Lr)) : Type 0 where
  pub honest : IsHonest c.profiles profiles
  pub lists_all :
      (s : c.State) (ps : List (QuotaProfile Rq Lr))
      → c.profiles.list_all s ≡ ok ps
      → (a n : Text) (p : QuotaProfile Rq Lr) → named n (profiles s a) ≡ some p
      → Some (λ o. o ≡ p) ps
  pub quotas_apart : IsApart c.quotas profiles
  pub limits_apart : IsApart c.limits profiles
  pub namespaces_apart : IsApart c.namespaces profiles
  pub clock_apart : (s : c.State) → profiles (c.now s).1 ≡ profiles s

module _ {Rq Lr : Type 0} (c : Client Rq Lr) where
  -- No two stored profiles clash.
  abbrev pub IsHarmonious : (Text → List (QuotaProfile Rq Lr)) → Type 0
  IsHarmonious view =
      (a m b n : Text) (p q : QuotaProfile Rq Lr)
      → named m (view a) ≡ some p
      → named n (view b) ≡ some q
      → ¬ Clash c p q

  -- No stored profile clashes with this one.
  abbrev pub IsFree : QuotaProfile Rq Lr → (Text → List (QuotaProfile Rq Lr)) → Type 0
  IsFree q view = Everywhere (λ p. ¬ Clash c p q) (λ v. v) view

  Clash-irrefl : (q : QuotaProfile Rq Lr) → ¬ Clash c q q
  Clash-irrefl q h =
      let d = h.distinct in ground (arith, text_eq_refl q.namespace, text_eq_refl q.name)

  validate-listed :
      (q : QuotaProfile Rq Lr) (s : c.State) (r : Result (List (QuotaProfile Rq Lr)))
      → c.profiles.list_all s ≡ r
      → validate_create c (quota_profile q) s ≡ done tt
      → (ps : List (QuotaProfile Rq Lr)) × (r ≡ ok ps)
  unfolding validate_create validate check_listed
  validate-listed q s (ok ps) e h = (ps, refl)
  validate-listed q s (err x) e h =
      let (_, failed) =
        then_check-done (validate_selector q.spec.namespace_selector) _ (rw e at h) in
      absurd (cc failed)

  module _ (profiles : c.State → Text → List (QuotaProfile Rq Lr))
      (store : IsProfileStore c profiles) where
    -- An admitted profile clashes with none that is stored.
    pub admitted-IsFree :
        (q : QuotaProfile Rq Lr) (s : c.State)
        → validate_create c (quota_profile q) s ≡ done tt
        → IsFree q (profiles s)
    admitted-IsFree q s h a n p stored =
        let (ps, listed) = validate-listed q s (c.profiles.list_all s) refl h in
        let (x, fine, same) =
          All-Some _ _ ps (validate-admits c q s ps listed h).1
            (store.lists_all s ps listed a n p stored) in
        subst (λ y. ¬ Clash c y q) same fine

    pub admitted_update :
        (old q : QuotaProfile Rq Lr) (s : c.State)
        → validate_update c (quota_profile old) (quota_profile q) s ≡ done tt
        → validate_create c (quota_profile q) s ≡ done tt
    unfolding validate_create validate_update
    admitted_update old q s h = h

    -- A write of a profile that clashes with none.
    pub written :
        (q new : QuotaProfile Rq Lr) (s s' : c.State)
        → IsHarmonious (profiles s)
        → IsFree q (profiles s)
        → ((p : QuotaProfile Rq Lr) → Clash c p new → Clash c p q)
        → ((a n : Text) (x : QuotaProfile Rq Lr)
            → named n (profiles s' a) ≡ some x
            → (named n (profiles s a) ≡ some x) ⊎ (x ≡ new))
        → IsHarmonious (profiles s') × IsFree q (profiles s')
    written q new s s' apart free like was = (
      λ a m b n p p' e e' clash. elim (was a m p e) [
        | inl old ↦ elim (was b n p' e') [
          | inl old' ↦ apart a m b n p p' old old' clash
          | inr same ↦ still a m p e (like p (subst (λ y. Clash c p y) same clash))
        ]
        | inr same ↦ still b n p' e' (like p' (subst (λ y. Clash c p' y) same (Clash-sym c clash)))
      ],
      still,
    )
      where
        still : IsFree q (profiles s')
        still a n x e clash = elim (was a n x e) [
          | inl old ↦ free a n x old clash
          | inr same ↦ Clash-irrefl q (like q (Clash-sym c (subst (λ y. Clash c y q) same clash)))
        ]

    pub by_view :
        (s s' : c.State)
        → profiles s' ≡ profiles s
        → IsHarmonious (profiles s)
        → IsHarmonious (profiles s')
    by_view s s' same h = subst IsHarmonious (sym same) h

    -- A profile that is only marked, or given other finalizers, clashes with what it clashed with.
    marked :
        (x y p q : QuotaProfile Rq Lr)
        → x.name ≡ y.name
        → x.namespace ≡ y.namespace
        → x.spec ≡ y.spec
        → p.name ≡ q.name
        → p.namespace ≡ q.namespace
        → p.spec ≡ q.spec
        → Clash c x p
        → Clash c y q
    marked x y p q name space spec name' space' spec' h = record {
      distinct = cc (h.distinct, name, space, name', space');
      shared = elim h.shared [
        | inl (n, a, b) ↦ inl (n, cc (a, spec), cc (b, spec'))
        | inr (k, a, b) ↦ inr (k, cc (a, spec), cc (b, spec'))
      ];
    }

    pub deleted :
        (q : QuotaProfile Rq Lr) (s : c.State)
        → IsHarmonious (profiles s)
        → IsHarmonious (profiles (c.profiles.delete q s).1)
    deleted q s h a m b n x p e e' clash =
        let (y, old, name, _, _, space, spec) = store.honest.deleted q s a m x e in
        let (r, old', name', _, _, space', spec') = store.honest.deleted q s b n p e' in
        h a m b n y r old old' (marked x y p r name space spec name' space' spec' clash)
