-- ===== src/NamespaceController/Fill.antt =====
-- The second loop of `reconcileResourceQuotas`: one quota for each specification of the profile.
use mathlib.Core.Path.{subst}
use mathlib.Core.Option.{some-injective}
use native.Mathlib.Nat.{add-zero}
use namespace_quota_operator.Common.{
  ℕ, zero, suc, ◌+◌, ◌≤◌, ◌<◌, ◌≡◌, ◌≢◌, refl, Bool, true, false, List, [], ◌∷◌, Option, none, some,
  if◌then◌else◌, length, get_elem?, arith, if_neg,
}
use namespace_quota_operator.Text.{Text, text_eq_refl, ◌==◌}
use namespace_quota_operator.Text.Decimal.{max_int, itoa}
use namespace_quota_operator.Effect.{Outcome, done, for_each_from}
use namespace_quota_operator.Api.{Object, QuotaProfile}
use namespace_quota_operator.Client.{Client}
use namespace_quota_operator.Client.Laws.{named, IsConsistent, found}
use namespace_quota_operator.Client.Loop.{named-All}
use namespace_quota_operator.Ids.{get_profile_id, get_resource_quota_id}
use namespace_quota_operator.Ids.Index.{resource_quota_id-injective}
use namespace_quota_operator.NamespaceController.{with_spec, managed, fill_found, fill_quota}

module _ {Rq Lr : Type 0} (q : QuotaProfile Rq Lr) (namespace : Text) where
  abbrev pub quota_id : ℕ → Text
  quota_id i = get_resource_quota_id q.namespace q.name (itoa i)

  -- The quota that is there with its specification replaced, or a new one.
  abbrev pub filled : ℕ → Rq → Option (Object Rq) → Object Rq
  filled i spec none = managed (quota_id i) namespace (get_profile_id q.namespace q.name) spec
  filled i spec (some o) = with_spec o spec

  -- What the loop from the index `i` on makes of the object of the name `n`.
  unfoldable pub filled_from : ℕ → List Rq → Text → Option (Object Rq) → Option (Object Rq)
  filled_from i [] n old = old
  filled_from i (spec ∷ specs) n old =
      filled_from (suc i) specs n (if n == quota_id i then some (filled i spec old) else old)

  -- Names of no index of the loop keep their objects.
  pub filled_from-other :
      (i : ℕ) (specs : List Rq) (n : Text) (old : Option (Object Rq))
      → ((j : ℕ) → i ≤ j → j < i + length specs → n ≢ quota_id j)
      → filled_from i specs n old ≡ old
  unfolding filled_from
  filled_from-other i [] n old other = refl
  filled_from-other i (spec ∷ specs) n old other =
      rw (if_neg _ (other i (omega arith) (omega arith)))
        (filled_from-other (suc i) specs n old (λ j lo hi. other j (omega arith) (omega arith)))

  -- Later rounds leave the quota of an earlier index alone.
  pub filled_from-past :
      (i : ℕ) (specs : List Rq) (j : ℕ) (old : Option (Object Rq))
      → j < i
      → i + length specs ≤ max_int + 1
      → filled_from i specs (quota_id j) old ≡ old
  unfolding filled_from
  filled_from-past i [] j old before fits = refl
  filled_from-past i (spec ∷ specs) j old before fits =
      rw
        (if_neg {P = quota_id j ≡ quota_id i} _ (λ e. omega (
          arith,
          resource_quota_id-injective q.namespace q.name j i (omega arith) (omega arith) e,
        )))
        (filled_from-past (suc i) specs j old (omega arith) (omega arith))

  round-keeps :
      (P : Object Rq → Type 0)
      → ((i : ℕ) (spec : Rq) → P (filled i spec none))
      → ((o : Object Rq) (spec : Rq) → P o → P (with_spec o spec))
      → (i : ℕ) (spec : Rq) (old : Option (Object Rq)) (hit : Bool)
      → ((o : Object Rq) → old ≡ some o → P o)
      → (o : Object Rq) → (if hit then some (filled i spec old) else old) ≡ some o
      → P o
  round-keeps P fresh respec i spec none true h o e = subst P (some-injective _ _ e) (fresh i spec)
  round-keeps P fresh respec i spec (some x) true h o e =
      subst P (some-injective _ _ e) (respec x spec (h x refl))
  round-keeps P fresh respec i spec old false h o e = h o e

  filled_lem : (i : ℕ) (spec : Rq) (old : Option (Object Rq)) → (filled i spec old).spec ≡ spec
  filled_lem i spec none = refl
  filled_lem i spec (some o) = refl

  -- A property that the objects of the first loop have, and that new objects and objects with another
  -- specification have, all quotas have in the end.
  pub filled_from-keeps :
      (P : Object Rq → Type 0)
      → ((i : ℕ) (spec : Rq) → P (filled i spec none))
      → ((o : Object Rq) (spec : Rq) → P o → P (with_spec o spec))
      → (i : ℕ) (specs : List Rq) (n : Text) (old : Option (Object Rq))
      → ((o : Object Rq) → old ≡ some o → P o)
      → (o : Object Rq) → filled_from i specs n old ≡ some o
      → P o
  unfolding filled_from
  filled_from-keeps P fresh respec i [] n old h o e = h o e
  filled_from-keeps P fresh respec i (spec ∷ specs) n old h o e =
      filled_from-keeps P fresh respec (suc i) specs n
        (if n == quota_id i then some (filled i spec old) else old)
        (round-keeps P fresh respec i spec old (n == quota_id i) h) o e

  -- Each specification ends up in the quota of its index.
  pub filled_from-get :
      (i : ℕ) (specs : List Rq) (k : ℕ) {spec : Rq} (old : Option (Object Rq))
      → get_elem? specs k ≡ some spec
      → i + length specs ≤ max_int + 1
      → (o : Object Rq) × (filled_from i specs (quota_id (i + k)) old ≡ some o) × (o.spec ≡ spec)
  unfolding filled_from
  filled_from-get i [] k old h fits = cc
  filled_from-get i (x ∷ specs) zero old h fits = (
    filled i x old,
    rw (add-zero, text_eq_refl (quota_id i))
        (filled_from-past (suc i) specs i (some (filled i x old)) (omega arith) (omega arith)),
    cc (filled_lem i x old, h),
  )
  filled_from-get i (x ∷ specs) (suc k) old h fits =
      let e : i + suc k ≡ suc i + k = omega arith in
      rw e (
        filled_from-get (suc i) specs k
          (if quota_id (suc i + k) == quota_id i then some (filled i x old) else old) h
          (omega arith))

module _ {Rq Lr : Type 0} (c : Client Rq Lr) (objects : c.State → Text → List (Object Rq))
    (api : IsConsistent c.quotas objects) (q : QuotaProfile Rq Lr) (namespace : Text) where
  abbrev Fills : ℕ → List Rq → c.State → Outcome (Unit {0}) × c.State → Type 0
  Fills i specs s r =
      (r.0 ≡ done tt)
      × ((ns n : Text)
          → named n (objects r.1 ns) ≡ (
              if ns == namespace
              then filled_from q namespace i specs n (named n (objects s ns))
              else named n (objects s ns)))

  fill_found-Fills :
      (i : ℕ) (spec : Rq) (s : c.State) (o : Option (Object Rq))
      → named (quota_id q namespace i) (objects s namespace) ≡ o
      → Fills i (spec ∷ []) s (fill_found c q namespace (quota_id q namespace i) spec (found o) s)
  unfolding fill_found filled_from
  fill_found-Fills i spec s none e =
      let new : Object Rq = filled q namespace i spec none in
      (refl, λ ns n. ground (arith, e, api.create_lem new s ns n e))
  fill_found-Fills i spec s (some o) e =
      let (placed, name) =
        named-All (λ o. o.namespace ≡ namespace) (quota_id q namespace i) (objects s namespace)
          (api.placed s namespace) e in
      let new : Object Rq = with_spec o spec in
      let there : named new.name (objects s new.namespace) ≢ none = λ h. cc (e, placed, name, h) in
      (refl, λ ns n. ground (arith, e, placed, name, api.update_lem new s ns n there))

  fill_quota-Fills :
      (i : ℕ) (spec : Rq) (s : c.State) → Fills i (spec ∷ []) s (fill_quota c q namespace i spec s)
  unfolding fill_quota
  fill_quota-Fills i spec s =
      rw (api.get_lem namespace (quota_id q namespace i) s)
        (fill_found-Fills i spec s (named (quota_id q namespace i) (objects s namespace)) refl)

  pub fill_loop-Fills :
      (i : ℕ) (specs : List Rq) (s : c.State)
      → Fills i specs s (for_each_from (fill_quota c q namespace) i specs s)
  unfolding for_each_from filled_from
  fill_loop-Fills i [] s = (refl, λ ns n. ground arith)
  fill_loop-Fills i (spec ∷ specs) s =
      let (finished, written) = fill_quota-Fills i spec s in
      let (finished', written') =
        fill_loop-Fills (suc i) specs (fill_quota c q namespace i spec s).1 in
      rw finished (finished', λ ns n. ground (arith, written ns n, written' ns n))
