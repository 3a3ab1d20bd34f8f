-- ===== src/NamespaceController/LimitTwice.antt =====
-- `reconcileLimitRanges` twice in a row, from a namespace without limit ranges.
use mathlib.Core.Path.{subst}
use mathlib.Core.Option.{none-ne-some, some-injective}
use namespace_quota_operator.Common.{
  ℕ, suc, ◌≤◌, ◌≡◌, refl, sym, ◌∙◌, Bool, true, false, List, [], ◌∷◌, Option, none, some, leb,
  if◌then◌else◌, length, get_elem?, get_elem?-lt, All, arith,
}
use namespace_quota_operator.Text.{Text, text_dec, text_eq_refl, ◌==◌}
use namespace_quota_operator.Text.Decimal.{max_int}
use namespace_quota_operator.Labels.{find, lookup}
use namespace_quota_operator.Api.{Object, QuotaProfile}
use namespace_quota_operator.Client.{Client}
use namespace_quota_operator.Client.Laws.{named, IsConsistent}
use namespace_quota_operator.Client.Loop.{All-named, named_self}
use namespace_quota_operator.Ids.{get_profile_id, get_limit_range_id}
use namespace_quota_operator.Ids.Index.{limit_range_index-id}
use namespace_quota_operator.NamespaceController.{limits_of_list, reconcile_limit_ranges}
use namespace_quota_operator.NamespaceController.Sweep.{IsSweepable, IsOwnedBy}
use namespace_quota_operator.NamespaceController.LimitSweep.{settled_limit}
use namespace_quota_operator.NamespaceController.LimitCreate.{
  limit_id, created, created_from, create_loop,
}
use namespace_quota_operator.NamespaceController.Limits.{
  reconcile-limits-create, reconcile-limits-settle,
}
use namespace_quota_operator.NamespaceController.Twice.{lacks-append}

module _ {Rq Lr : Type 0} (q : QuotaProfile Rq Lr) (namespace : Text) where
  round-keeps :
      (P : Object Lr → Type 0)
      → ((i : ℕ) (spec : Lr) → P (created q namespace i spec))
      → (i : ℕ) (spec : Lr) (old : Option (Object Lr)) (hit : Bool)
      → ((o : Object Lr) → old ≡ some o → P o)
      → (o : Object Lr) → (if hit then some (created q namespace i spec) else old) ≡ some o
      → P o
  round-keeps P fresh i spec old true h o e = subst P (some-injective _ _ e) (fresh i spec)
  round-keeps P fresh i spec old false h o e = h o e

  -- What new limit ranges have, all have in the end.
  created_from-keeps :
      (P : Object Lr → Type 0)
      → ((i : ℕ) (spec : Lr) → P (created q namespace i spec))
      → (i : ℕ) (specs : List Lr) (n : Text) (old : Option (Object Lr))
      → ((o : Object Lr) → old ≡ some o → P o)
      → (o : Object Lr) → created_from q namespace i specs n old ≡ some o
      → P o
  unfolding created_from
  created_from-keeps P fresh i [] n old h o e = h o e
  created_from-keeps P fresh i (spec ∷ specs) n old h o e =
      created_from-keeps P fresh (suc i) specs n
        (if n == limit_id q namespace i then some (created q namespace i spec) else old)
        (round-keeps P fresh i spec old (n == limit_id q namespace i) h) o e

  created-IsSweepable : (i : ℕ) (spec : Lr) → IsSweepable q (created q namespace i spec)
  unfolding get_limit_range_id
  created-IsSweepable i spec = record {
    no_finalizers = λ _. refl;
    dashed = λ _. lacks-append b'-' q.namespace _;
  }

  created-owned : (i : ℕ) (spec : Lr) → IsOwnedBy q (created q namespace i spec)
  unfolding find lookup text_dec
  created-owned i spec = refl

  -- The second run keeps a new limit range if its index is below the number of resource quotas.
  settled-created :
      (i : ℕ) (spec : Lr)
      → i ≤ max_int
      → get_elem? q.spec.limit_range_specs i ≡ some spec
      → settled_limit q (created q namespace i spec) ≡ (
          if leb (length q.spec.resource_quota_specs) i
          then none
          else some (created q namespace i spec))
  unfolding settled_limit
  settled-created i spec fits used =
      rw
        (
          created-owned i spec,
          text_eq_refl (get_profile_id q.namespace q.name),
          limit_range_index-id q.namespace q.name i fits,
          used,
        )
        refl

module _ {Rq Lr : Type 0} (c : Client Rq Lr) (objects : c.State → Text → List (Object Lr))
    (api : IsConsistent c.limits objects) (q : QuotaProfile Rq Lr) (namespace : Text) (s : c.State)
    (empty : objects s namespace ≡ []) (fits : length q.spec.limit_range_specs ≤ max_int) where
  abbrev after : c.State
  after = (reconcile_limit_ranges c q namespace s).1

  after_name :
      (n : Text)
      → named n (objects (reconcile_limit_ranges c q namespace s).1 namespace)
        ≡ created_from q namespace 0 q.spec.limit_range_specs n none
  unfolding reconcile_limit_ranges limits_of_list named
  after_name n =
      let (_, written) =
        create_loop c objects api q namespace 0 q.spec.limit_range_specs s (omega arith)
          (λ j lo hi. rw empty refl) in
      rw (api.list_lem namespace s, empty) (written n ∙ rw empty refl)

  after-IsSweepable : All (IsSweepable q) (objects after namespace)
  after-IsSweepable =
      All-named (IsSweepable q) (objects after namespace) (objects after namespace)
        (λ n o h.
          created_from-keeps q namespace (IsSweepable q) (created-IsSweepable q namespace) 0
            q.spec.limit_range_specs n none (λ o e. cc) o (sym (after_name n) ∙ h))
        (named_self (objects after namespace) (api.nodup after namespace))

  -- With a consistent API, in a namespace without limit ranges, and for a profile with at most
  -- `max_int` limit ranges and no fewer than resource quotas: after two reconciliations the limit
  -- range of an index of the profile is there with its specification if the index is below the
  -- number of resource quotas, and gone otherwise.
  pub reconcile-limits-twice :
      length q.spec.resource_quota_specs ≤ length q.spec.limit_range_specs
      → (i : ℕ) (spec : Lr) → get_elem? q.spec.limit_range_specs i ≡ some spec
      → named
          (limit_id q namespace i)
          (objects (reconcile_limit_ranges c q namespace after).1 namespace)
        ≡ (if leb (length q.spec.resource_quota_specs) i
            then none
            else some (created q namespace i spec))
  unfolding named
  reconcile-limits-twice enough i spec used = by_contents (objects after namespace) refl
    where
      first_run :
          named (limit_id q namespace i) (objects after namespace)
          ≡ some (created q namespace i spec)
      first_run = (reconcile-limits-create c objects api q namespace s empty fits i spec used).1

      by_contents :
          (os : List (Object Lr))
          → objects after namespace ≡ os
          → named
              (limit_id q namespace i)
              (objects (reconcile_limit_ranges c q namespace after).1 namespace)
            ≡ (if leb (length q.spec.resource_quota_specs) i
                then none
                else some (created q namespace i spec))
      by_contents [] e = absurd (none-ne-some _ (rw e at first_run))
      by_contents (x ∷ rest) e =
          (reconcile-limits-settle c objects api q namespace after x rest e enough
              after-IsSweepable).1
            (limit_id q namespace i)
          ∙ rw first_run (
              settled-created q namespace i spec
                (omega (arith, get_elem?-lt q.spec.limit_range_specs i used)) used)
