-- ===== src/Webhook/Profile/Admission.antt =====
-- `validate`: the selector, and the listed profiles.
use mathlib.Core.Option.{none-ne-some, some-injective}
use mathlib.Core.Path.{subst}
use namespace_quota_operator.Common.{
  ◌≡◌, ◌⊎◌, refl, Bool, true, false, ◌≤◌, List, [], ◌∷◌, Option, none, some, length, All, arith,
  Option-cases, Bool-cases, inl, inr,
}
use namespace_quota_operator.Text.{Text}
use namespace_quota_operator.Labels.{Entries, Labels}
use namespace_quota_operator.Effect.{Error, ok, Outcome, done, fail, panic}
use namespace_quota_operator.Api.{NamespaceSelector, QuotaProfile}
use namespace_quota_operator.Client.{Client}
use namespace_quota_operator.ProfileController.{first}
use namespace_quota_operator.Webhook.{quota_profile}
use namespace_quota_operator.Webhook.Profile.{
  ◌then_check◌, validate_selector, is_same_profile, has_name, check_names, same_first_key, has_key,
  check_key, check_keys, check_match_name, check_match_labels, check_profiles, check_listed,
  validate, validate_create,
}

-- One of the two selectors is there, and a selector by labels has one label at most.
pub record IsWellFormed (s : NamespaceSelector) : Type 0 where
  pub some_selector : (s.match_labels ≡ none) → (s.match_name ≡ none) → ⊥
  pub one_selector : {m : Entries} {n : Text} → s.match_labels ≡ some m → s.match_name ≡ some n → ⊥
  pub one_label : {m : Entries} → s.match_labels ≡ some m → length m ≤ 1

pub then_check-done :
    (a b : Outcome (Unit {0})) → (a then_check b) ≡ done tt → (a ≡ done tt) × (b ≡ done tt)
then_check-done (done tt) b h = (refl, h)
then_check-done (fail e) b h = cc
then_check-done panic b h = cc

done-ne-fail : {e : Error} → ¬ (◌≡◌ {A = Outcome (Unit {0})} (fail e) (done tt))
done-ne-fail h = cc

validate_selector-IsWellFormed :
    (s : NamespaceSelector) → validate_selector s ≡ done tt → IsWellFormed s
unfolding validate_selector
validate_selector-IsWellFormed s h = record {
  some_selector = λ a b. ground arith;
  one_selector = λ a b. ground arith;
  one_label = λ a. ground arith;
}

module _ {Rq Lr : Type 0} (c : Client Rq Lr) where
  -- The first key of a profile's selector by labels.
  abbrev pub first_key : QuotaProfile Rq Lr → Option Text
  first_key q = elim q.spec.match_labels [ none ↦ none | some m ↦ first (c.keys m) ]

  -- Two profiles, other than one and the same, select by one name or by one label key.
  pub record Clash (p q : QuotaProfile Rq Lr) : Type 0 where
    pub distinct : is_same_profile c p q ≡ false
    pub shared :
        ((n : Text) × (p.spec.match_name ≡ some n) × (q.spec.match_name ≡ some n))
        ⊎ ((k : Text) × (first_key p ≡ some k) × (first_key q ≡ some k))

  pub Clash-sym : {p q : QuotaProfile Rq Lr} → Clash p q → Clash q p
  Clash-sym {p} {q} h = record {
    distinct = let d = h.distinct in ground arith;
    shared = swapped h.shared;
  }
    where
      swapped :
          ((n : Text) × (p.spec.match_name ≡ some n) × (q.spec.match_name ≡ some n))
            ⊎ ((k : Text) × (first_key p ≡ some k) × (first_key q ≡ some k))
          → ((n : Text) × (q.spec.match_name ≡ some n) × (p.spec.match_name ≡ some n))
            ⊎ ((k : Text) × (first_key q ≡ some k) × (first_key p ≡ some k))
      swapped (inl (n, a, b)) = inl (n, b, a)
      swapped (inr (k, a, b)) = inr (k, b, a)

  check_names-All :
      (q : QuotaProfile Rq Lr) (name : Text) (ps : List (QuotaProfile Rq Lr))
      → check_names c q name ps ≡ done tt
      → All (λ p. has_name c q name p ≡ false) ps
  unfolding check_names
  check_names-All q name [] h = tt
  check_names-All q name (p ∷ ps) h = elim (Bool-cases (has_name c q name p)) [
    | inl clash ↦ absurd (done-ne-fail (rw clash at h))
    | inr fine ↦ (fine, check_names-All q name ps (rw fine at h))
  ]

  check_key-done :
      (p : QuotaProfile Rq Lr) (b : Option Bool) (rest : Outcome (Unit {0}))
      → check_key c p b rest ≡ done tt
      → (b ≡ some false) × (rest ≡ done tt)
  unfolding check_key
  check_key-done p none rest h = cc
  check_key-done p (some true) rest h = cc
  check_key-done p (some false) rest h = (refl, h)

  check_keys-All :
      (q : QuotaProfile Rq Lr) (m : Entries) (ps : List (QuotaProfile Rq Lr))
      → check_keys c q m ps ≡ done tt
      → All (λ p. has_key c q m p ≡ some false) ps
  unfolding check_keys
  check_keys-All q m [] h = tt
  check_keys-All q m (p ∷ ps) h =
      let (fine, rest) = check_key-done p (has_key c q m p) (check_keys c q m ps) h in
      (fine, check_keys-All q m ps rest)

  -- A profile that shares a name with `q` is seen by the check of names.
  has_name-shared :
      (p q : QuotaProfile Rq Lr) (n : Text)
      → is_same_profile c p q ≡ false
      → p.spec.match_name ≡ some n
      → has_name c q n p ≡ false
      → ⊥
  unfolding has_name
  has_name-shared p q n d e h = ground arith

  -- A profile that shares a first key with `q` is seen by the check of keys.
  has_key-shared :
      (p q : QuotaProfile Rq Lr) (m : Entries) (k : Text)
      → is_same_profile c p q ≡ false
      → first_key p ≡ some k
      → first (c.keys m) ≡ some k
      → has_key c q m p ≡ some false
      → ⊥
  unfolding has_key same_first_key
  has_key-shared p q m k d e f h = elim (Option-cases p.spec.match_labels) [
    | inl unset ↦ none-ne-some k (rw unset at e)
    | inr (pm, set) ↦ ground (arith, set, e)
  ]

  -- Neither check sees a profile that does not clash, and both together see all that do.
  unclashed :
      (p q : QuotaProfile Rq Lr)
      → ((n : Text) → q.spec.match_name ≡ some n → has_name c q n p ≡ false)
      → ((m : Entries) → q.spec.match_labels ≡ some m → has_key c q m p ≡ some false)
      → ¬ Clash p q
  unclashed p q names keys clash = by_selector clash.shared
    where
      by_selector :
          ((n : Text) × (p.spec.match_name ≡ some n) × (q.spec.match_name ≡ some n))
            ⊎ ((k : Text) × (first_key p ≡ some k) × (first_key q ≡ some k))
          → ⊥
      by_selector (inl (n, a, b)) = has_name-shared p q n clash.distinct a (names n b)
      by_selector (inr (k, a, b)) = elim (Option-cases q.spec.match_labels) [
        | inl unset ↦ none-ne-some k (rw unset at b)
        | inr (m, set) ↦ has_key-shared p q m k clash.distinct a (rw set at b) (keys m set)
      ]

  All-unclashed :
      (q : QuotaProfile Rq Lr) (ps : List (QuotaProfile Rq Lr))
      → ((n : Text) → q.spec.match_name ≡ some n → All (λ p. has_name c q n p ≡ false) ps)
      → ((m : Entries) → q.spec.match_labels ≡ some m → All (λ p. has_key c q m p ≡ some false) ps)
      → All (λ p. ¬ Clash p q) ps
  All-unclashed q [] names keys = tt
  All-unclashed q (p ∷ ps) names keys = (
    unclashed p q (λ n e. (names n e).0) (λ m e. (keys m e).0),
    All-unclashed q ps (λ n e. (names n e).1) (λ m e. (keys m e).1),
  )

  check_match_name-All :
      (q : QuotaProfile Rq Lr) (o : Option Text) (ps : List (QuotaProfile Rq Lr))
      → check_match_name c q o ps ≡ done tt
      → (n : Text) → o ≡ some n
      → All (λ p. has_name c q n p ≡ false) ps
  unfolding check_match_name
  check_match_name-All q none ps h n e = absurd (none-ne-some n e)
  check_match_name-All q (some m) ps h n e =
      subst (λ n. All (λ p. has_name c q n p ≡ false) ps) (some-injective m n e)
        (check_names-All q m ps h)

  check_match_labels-All :
      (q : QuotaProfile Rq Lr) (o : Labels) (ps : List (QuotaProfile Rq Lr))
      → check_match_labels c q o ps ≡ done tt
      → (m : Entries) → o ≡ some m
      → All (λ p. has_key c q m p ≡ some false) ps
  unfolding check_match_labels
  check_match_labels-All q none ps h m e = absurd (none-ne-some m e)
  check_match_labels-All q (some n) ps h m e =
      subst (λ m. All (λ p. has_key c q m p ≡ some false) ps) (some-injective n m e)
        (check_keys-All q n ps h)

  check_profiles-unclashed :
      (q : QuotaProfile Rq Lr) (ps : List (QuotaProfile Rq Lr))
      → check_profiles c q ps ≡ done tt
      → All (λ p. ¬ Clash p q) ps
  unfolding check_profiles
  check_profiles-unclashed q ps h =
      let (names, keys) =
        then_check-done (check_match_name c q q.spec.match_name ps)
          (check_match_labels c q q.spec.match_labels ps) h in
      All-unclashed q ps (check_match_name-All q q.spec.match_name ps names)
        (check_match_labels-All q q.spec.match_labels ps keys)

  -- A profile that the webhook admits, with the profiles that are listed, has exactly one selector,
  -- one label in it at most, and clashes with no other profile of the list.
  pub validate-admits :
      (q : QuotaProfile Rq Lr) (s : c.State) (ps : List (QuotaProfile Rq Lr))
      → c.profiles.list_all s ≡ ok ps
      → validate_create c (quota_profile q) s ≡ done tt
      → IsWellFormed q.spec.namespace_selector × All (λ p. ¬ Clash p q) ps
  unfolding validate_create validate check_listed
  validate-admits q s ps listed h =
      let (selector, profiles) =
        then_check-done (validate_selector q.spec.namespace_selector)
          (check_listed c q (c.profiles.list_all s)) h in
      (
        validate_selector-IsWellFormed q.spec.namespace_selector selector,
        check_profiles-unclashed q ps (rw listed at profiles),
      )
