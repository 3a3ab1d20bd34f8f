-- ===== src/Labels.antt =====
-- Go maps from strings to strings: nil, or entries in an iteration order.
pub mod Laws
use namespace_quota_operator.Common.{
  Bool, List, [], ◌∷◌, Option, none, some, is_some, if◌then◌else◌,
}
use namespace_quota_operator.Text.{Text, ◌==◌}

abbrev pub Entries : Type 0
Entries = List (Text × Text)

abbrev pub Labels : Type 0
Labels = Option Entries

unfoldable pub lookup : Text → Entries → Option Text
lookup k [] = none
lookup k ((j, v) ∷ m) = if k == j then some v else lookup k m

unfoldable pub insert : Text → Text → Entries → Entries
insert k v [] = (k, v) ∷ []
insert k v ((j, w) ∷ m) = if k == j then (k, v) ∷ m else (j, w) ∷ insert k v m

unfoldable pub erase : Text → Entries → Entries
erase k [] = []
erase k ((j, w) ∷ m) = let rest = erase k m in if k == j then rest else (j, w) ∷ rest

-- `v, ok := m[k]`; a nil map holds nothing.
unfoldable pub find : Labels → Text → Option Text
find none k = none
find (some m) k = lookup k m

or_empty : Option Text → Text
or_empty none = []
or_empty (some v) = v

-- `m[k]`: the empty string where the key is missing.
unfoldable pub value : Labels → Text → Text
unfolding or_empty
value m k = or_empty (find m k)

-- `m[k] = v`; `none` where Go panics with an assignment to an entry of a nil map.
unfoldable pub assign : Labels → Text → Text → Option Labels
assign none k v = none
assign (some m) k v = some (some (insert k v m))

-- `delete(m, k)`: no effect on a nil map.
unfoldable pub delete : Labels → Text → Labels
delete none k = none
delete (some m) k = some (erase k m)
