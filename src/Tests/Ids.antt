-- ===== src/Tests/Ids.antt =====
-- Identifiers: tests, and the theorems at concrete inputs.
use namespace_quota_operator.Common.{◌≡◌, refl, arith, some, none}
use namespace_quota_operator.Text.{codes}
use namespace_quota_operator.Text.Split.{split, lacks, second_last}
use namespace_quota_operator.Text.Decimal.{pos, negsuc, itoa, atoi, atoi-itoa}
use namespace_quota_operator.Effect.{done, fail, panic, invalid_index}
use namespace_quota_operator.Ids.{
  get_profile_id, split_profile_id, get_resource_quota_id, get_resource_quota_index,
}
use namespace_quota_operator.Ids.Profile.{split-get_profile_id}
use namespace_quota_operator.Ids.Index.{
  IndexOutcome, resource_quota_index-id, resource_quota_index-IndexOutcome,
}

dotted_name :
    split_profile_id (get_profile_id (codes "ops") (codes "team.a")) ≡ (codes "", codes "")
unfolding split_profile_id get_profile_id split
dotted_name = refl

indices :
    (get_resource_quota_index (codes "ops-dev-12-rq") ≡ done (pos 12))
    × (get_resource_quota_index (codes "ops-dev-x-rq") ≡ fail invalid_index)
    × (get_resource_quota_index (codes "compute") ≡ panic)
unfolding get_resource_quota_index second_last split atoi
indices = (refl, refl, refl)

split-get_profile_id_example :
    split_profile_id (get_profile_id (codes "ops") (codes "dev")) ≡ (codes "ops", codes "dev")
split-get_profile_id_example = unfold lacks in split-get_profile_id (codes "ops") (codes "dev")

resource_quota_index-id_example :
    get_resource_quota_index (get_resource_quota_id (codes "my-ops") (codes "dev-2") (itoa 41))
    ≡ done (pos 41)
resource_quota_index-id_example =
    resource_quota_index-id (codes "my-ops") (codes "dev-2") 41 (omega arith)

resource_quota_index-IndexOutcome_example :
    IndexOutcome (codes "ops-dev-12-rq") (get_resource_quota_index (codes "ops-dev-12-rq"))
resource_quota_index-IndexOutcome_example =
    resource_quota_index-IndexOutcome (codes "ops-dev-12-rq")

decimals :
    (atoi (codes "-12") ≡ some (negsuc 11))
    × (atoi (codes "+7") ≡ some (pos 7))
    × (atoi (codes "9223372036854775808") ≡ none)
    × (itoa 1203 ≡ codes "1203")
    × (itoa 0 ≡ codes "0")
unfolding atoi itoa
decimals = (refl, refl, refl, refl, refl)

atoi-itoa_example : atoi (itoa 1203) ≡ some (pos 1203)
atoi-itoa_example = atoi-itoa 1203 (omega arith)
