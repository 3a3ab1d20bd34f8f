-- ===== src/Ids.antt =====
-- The identifiers that internal/controller writes into labels and object names, and reads back:
-- `getProfileID`, `splitProfileID`, `getResourceQuotaID`, `getResourceQuotaIndex` and those of limit
-- ranges.
pub mod Profile
pub mod Index
use namespace_quota_operator.Common.{List, [], ◌∷◌, ◌++◌, Option, none, some}
use namespace_quota_operator.Text.{Text, codes}
use namespace_quota_operator.Text.Split.{split, second_last}
use namespace_quota_operator.Text.Decimal.{ℤ, atoi}
use namespace_quota_operator.Effect.{Outcome, done, fail, panic, invalid_index}

-- fmt.Sprintf("%s.%s", namespace, profile)
unfoldable pub get_profile_id : Text → Text → Text
get_profile_id namespace profile = namespace ++ b'.' ∷ profile

-- `len(parts) != 2`, and the two parts.
two_parts : List Text → Text × Text
two_parts (a ∷ b ∷ []) = (a, b)
two_parts _ = ([], [])

unfoldable pub split_profile_id : Text → Text × Text
unfolding two_parts
split_profile_id profile_id = two_parts (split profile_id b'.')

-- fmt.Sprintf("%s-%s-%s-rq", namespace, profile, index)
unfoldable pub get_resource_quota_id : Text → Text → Text → Text
get_resource_quota_id namespace profile index =
    namespace ++ b'-' ∷ (profile ++ b'-' ∷ (index ++ codes "-rq"))

-- fmt.Sprintf("%s-%s-%s-lr", namespace, profile, index)
unfoldable pub get_limit_range_id : Text → Text → Text → Text
get_limit_range_id namespace profile index =
    namespace ++ b'-' ∷ (profile ++ b'-' ∷ (index ++ codes "-lr"))

checked_index : Option ℤ → Outcome ℤ
checked_index none = fail invalid_index
checked_index (some i) = done i

index_of_part : Option Text → Outcome ℤ
unfolding checked_index
index_of_part none = panic
index_of_part (some part) = checked_index (atoi part)

-- The part of the name before the last one, as a number. With one part alone, `parts[len(parts)-2]`
-- panics.
unfoldable pub get_resource_quota_index : Text → Outcome ℤ
unfolding index_of_part
get_resource_quota_index id = index_of_part (second_last (split id b'-'))

unfoldable pub get_limit_range_index : Text → Outcome ℤ
unfolding index_of_part
get_limit_range_index id = index_of_part (second_last (split id b'-'))
