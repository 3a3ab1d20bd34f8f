-- ===== src/Ids/Index.antt =====
-- Reading the index of a managed object back from its name.
use namespace_quota_operator.Common.{
  ℕ, ◌≤◌, ◌≡◌, refl, [], ◌∷◌, ◌++◌, append_assoc, Option, none, some, true, false, Bool-cases, inl,
  inr,
}
use namespace_quota_operator.Text.{Text, codes}
use namespace_quota_operator.Text.Split.{
  split, lacks, second_last, split-append, split-lacks, length-split, second_last-append,
  second_last-lacks, second_last-one, second_last-ne-none,
}
use namespace_quota_operator.Text.Decimal.{
  ℤ, pos, max_int, itoa, atoi, atoi-itoa, lacks-itoa, atoi-pos,
}
use namespace_quota_operator.Effect.{Outcome, done, fail, panic, invalid_index}
use namespace_quota_operator.Ids.{
  get_resource_quota_id, get_resource_quota_index, get_limit_range_id, get_limit_range_index,
  index_of_part, checked_index,
}

-- What the two kinds of name share: the last part is a tag without a dash.
index_of_name :
    (ns p tag : Text) (i : ℕ)
    → i ≤ max_int
    → lacks b'-' tag ≡ true
    → index_of_part (second_last (split (ns ++ b'-' ∷ (p ++ b'-' ∷ (itoa i ++ b'-' ∷ tag))) b'-'))
      ≡ done (pos i)
unfolding index_of_part
index_of_name ns p tag i h ht = rw (
  split-append,
  split-append,
  split-append,
  split-lacks b'-' (itoa i) (lacks-itoa i),
  split-lacks b'-' tag ht,
  ← append_assoc (split ns b'-') (split p b'-') (itoa i ∷ tag ∷ []),
  second_last-append,
  atoi-itoa i h,
)

-- The index of a resource quota is read back from its name, whatever dashes the profile's namespace
-- and name hold, if it fits an `int`.
pub resource_quota_index-id :
    (ns p : Text) (i : ℕ)
    → i ≤ max_int
    → get_resource_quota_index (get_resource_quota_id ns p (itoa i)) ≡ done (pos i)
unfolding get_resource_quota_index get_resource_quota_id
resource_quota_index-id ns p i h = unfold lacks in index_of_name ns p (codes "rq") i h refl

-- The index of a limit range is read back from its name, whatever dashes the profile's namespace and
-- name hold, if it fits an `int`.
pub limit_range_index-id :
    (ns p : Text) (i : ℕ)
    → i ≤ max_int
    → get_limit_range_index (get_limit_range_id ns p (itoa i)) ≡ done (pos i)
unfolding get_limit_range_index get_limit_range_id
limit_range_index-id ns p i h = unfold lacks in index_of_name ns p (codes "lr") i h refl

-- Different indices that fit an `int` make different names of resource quotas.
pub resource_quota_id-injective :
    (ns p : Text) (i j : ℕ)
    → i ≤ max_int
    → j ≤ max_int
    → get_resource_quota_id ns p (itoa i) ≡ get_resource_quota_id ns p (itoa j)
    → i ≡ j
resource_quota_id-injective ns p i j hi hj e =
    cc (resource_quota_index-id ns p i hi, resource_quota_index-id ns p j hj)

pub limit_range_id-injective :
    (ns p : Text) (i j : ℕ)
    → i ≤ max_int
    → j ≤ max_int
    → get_limit_range_id ns p (itoa i) ≡ get_limit_range_id ns p (itoa j)
    → i ≡ j
limit_range_id-injective ns p i j hi hj e =
    cc (limit_range_index-id ns p i hi, limit_range_index-id ns p j hj)

-- What a name can yield: a non-negative index that fits an `int`, an error, or a panic, the last exactly
-- where the name holds no dash.
abbrev pub IndexOutcome : Text → Outcome ℤ → Type 0
IndexOutcome name (done i) = (lacks b'-' name ≡ false) × ((n : ℕ) × (i ≡ pos n) × (n ≤ max_int))
IndexOutcome name (fail e) = (lacks b'-' name ≡ false) × (e ≡ invalid_index)
IndexOutcome name panic = lacks b'-' name ≡ true

checked-IndexOutcome :
    (name part : Text)
    → lacks b'-' name ≡ false
    → lacks b'-' part ≡ true
    → (o : Option ℤ) → atoi part ≡ o
    → IndexOutcome name (checked_index o)
unfolding checked_index
checked-IndexOutcome name part h hp none e = (h, refl)
checked-IndexOutcome name part h hp (some i) e = (h, atoi-pos part i hp e)

part-IndexOutcome :
    (name : Text) (o : Option Text)
    → second_last (split name b'-') ≡ o
    → IndexOutcome name (index_of_part o)
unfolding index_of_part
part-IndexOutcome name none e = elim (Bool-cases (lacks b'-' name)) [
  | inl dashless ↦ dashless
  | inr dash ↦ absurd (second_last-ne-none (split name b'-') (length-split b'-' name dash) e)
]
part-IndexOutcome name (some part) e = elim (Bool-cases (lacks b'-' name)) [
  | inl dashless ↦ cc (split-lacks b'-' name dashless, second_last-one name)
  | inr dash ↦ checked-IndexOutcome name part dash (second_last-lacks b'-' name e) (atoi part) refl
]

-- Every name yields a non-negative index that fits an `int` or an error if it holds a dash, and a
-- panic if it holds none.
pub resource_quota_index-IndexOutcome :
    (name : Text) → IndexOutcome name (get_resource_quota_index name)
unfolding get_resource_quota_index
resource_quota_index-IndexOutcome name = part-IndexOutcome name (second_last (split name b'-')) refl

pub limit_range_index-IndexOutcome : (name : Text) → IndexOutcome name (get_limit_range_index name)
unfolding get_limit_range_index
limit_range_index-IndexOutcome name = part-IndexOutcome name (second_last (split name b'-')) refl
