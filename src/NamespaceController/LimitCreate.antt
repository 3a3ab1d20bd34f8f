-- ===== src/NamespaceController/LimitCreate.antt =====
-- The second loop of `reconcileLimitRanges`: one limit range for each specification of the profile.
use native.Mathlib.Nat.{add-zero}
use namespace_quota_operator.Common.{
  ℕ, zero, suc, ◌+◌, ◌≤◌, ◌<◌, ◌≡◌, refl, ◌∙◌, List, [], ◌∷◌, Option, none, some, if◌then◌else◌,
  length, get_elem?, arith, if_neg,
}
use namespace_quota_operator.Text.{Text, text_eq_refl, ◌==◌}
use namespace_quota_operator.Text.Decimal.{max_int, itoa}
use namespace_quota_operator.Effect.{done, for_each_from}
use namespace_quota_operator.Api.{Object, QuotaProfile}
use namespace_quota_operator.Client.{Client}
use namespace_quota_operator.Client.Laws.{named, IsConsistent}
use namespace_quota_operator.Ids.{get_profile_id, get_limit_range_id}
use namespace_quota_operator.Ids.Index.{limit_range_id-injective}
use namespace_quota_operator.NamespaceController.{managed, create_limit}

module _ {Rq Lr : Type 0} (q : QuotaProfile Rq Lr) (namespace : Text) where
  abbrev pub limit_id : ℕ → Text
  limit_id i = get_limit_range_id q.namespace q.name (itoa i)

  -- The new limit range of an index.
  abbrev pub created : ℕ → Lr → Object Lr
  created i spec = managed (limit_id i) namespace (get_profile_id q.namespace q.name) spec

  -- What the loop from the index `i` on makes of the object of the name `n`.
  unfoldable pub created_from : ℕ → List Lr → Text → Option (Object Lr) → Option (Object Lr)
  created_from i [] n old = old
  created_from i (spec ∷ specs) n old =
      created_from (suc i) specs n (if n == limit_id i then some (created i spec) else old)

  created_from-past :
      (i : ℕ) (specs : List Lr) (j : ℕ) (old : Option (Object Lr))
      → j < i
      → i + length specs ≤ max_int + 1
      → created_from i specs (limit_id j) old ≡ old
  unfolding created_from
  created_from-past i [] j old before fits = refl
  created_from-past i (spec ∷ specs) j old before fits =
      rw
        (if_neg {P = limit_id j ≡ limit_id i} _ (λ e.
          omega
            (arith, limit_range_id-injective q.namespace q.name j i (omega arith) (omega arith) e)))
        (created_from-past (suc i) specs j old (omega arith) (omega arith))

  pub created_from-get :
      (i : ℕ) (specs : List Lr) (k : ℕ) {spec : Lr} (old : Option (Object Lr))
      → get_elem? specs k ≡ some spec
      → i + length specs ≤ max_int + 1
      → created_from i specs (limit_id (i + k)) old ≡ some (created (i + k) spec)
  unfolding created_from
  created_from-get i [] k old h fits = cc
  created_from-get i (x ∷ specs) zero {spec} old h fits =
      rw (add-zero, text_eq_refl (limit_id i))
        (created_from-past (suc i) specs i (some (created i x)) (omega arith) (omega arith) ∙ cc h)
  created_from-get i (x ∷ specs) (suc k) old h fits =
      let e : i + suc k ≡ suc i + k = omega arith in
      rw e (
        created_from-get (suc i) specs k
          (if limit_id (suc i + k) == limit_id i then some (created i x) else old) h (omega arith))

module _ {Rq Lr : Type 0} (c : Client Rq Lr) (objects : c.State → Text → List (Object Lr))
    (api : IsConsistent c.limits objects) (q : QuotaProfile Rq Lr) (namespace : Text) where
  -- No name of an index from `i` on is in use.
  abbrev Vacant : ℕ → c.State → Type 0
  Vacant i s =
      (j : ℕ) → i ≤ j → j ≤ max_int → named (limit_id q namespace j) (objects s namespace) ≡ none

  pub create_loop :
      (i : ℕ) (specs : List Lr) (s : c.State)
      → i + length specs ≤ max_int + 1
      → Vacant i s
      → ((for_each_from (create_limit c q namespace) i specs s).0 ≡ done tt)
        × ((n : Text)
            → named n (objects (for_each_from (create_limit c q namespace) i specs s).1 namespace)
              ≡ created_from q namespace i specs n (named n (objects s namespace)))
  unfolding for_each_from created_from create_limit
  create_loop i [] s fits vacant = (refl, λ n. refl)
  create_loop i (spec ∷ specs) s fits vacant =
      let new : Object Lr = created q namespace i spec in
      let written =
        λ (n : Text). api.create_lem new s namespace n (vacant i (omega arith) (omega arith)) in
      let (finished', written') =
        create_loop (suc i) specs (create_limit c q namespace i spec s).1 (omega arith) (λ j lo hi.
          ground (
            arith,
            written (limit_id q namespace j),
            vacant j (omega arith) hi,
            limit_range_id-injective q.namespace q.name j i hi (omega arith),
          )) in
      (finished', λ n. written' n ∙ rw (written n, text_eq_refl namespace) refl)
