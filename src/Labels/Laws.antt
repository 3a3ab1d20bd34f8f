-- ===== src/Labels/Laws.antt =====
-- The laws of map lookup against insertion and deletion.
use namespace_quota_operator.Common.{◌≡◌, ◌≢◌, refl, [], ◌∷◌, none, some, arith, if◌then◌else◌}
use namespace_quota_operator.Text.{Text, ◌==◌}
use namespace_quota_operator.Labels.{
  Entries, Labels, lookup, insert, erase, find, value, assign, delete,
}

pub lookup-insert :
    (j k v : Text) (m : Entries) → lookup j (insert k v m) ≡ (if j == k then some v else lookup j m)
unfolding lookup insert
lookup-insert j k v [] = refl
lookup-insert j k v ((i, w) ∷ m) = ground (arith, lookup-insert j k v m)

pub lookup-erase :
    (j k : Text) (m : Entries) → lookup j (erase k m) ≡ (if j == k then none else lookup j m)
unfolding lookup erase
lookup-erase j k [] = ground arith
lookup-erase j k ((i, w) ∷ m) = ground (arith, lookup-erase j k m)

pub find-delete :
    (m : Labels) (k j : Text) → find (delete m k) j ≡ (if j == k then none else find m j)
unfolding find delete
find-delete none k j = ground arith
find-delete (some m) k j = lookup-erase j k m

-- After an assignment that does not panic, the key has the new value and the others theirs.
pub find-assign :
    (m : Labels) (k v j : Text) {m' : Labels}
    → assign m k v ≡ some m'
    → find m' j ≡ (if j == k then some v else find m j)
unfolding find assign
find-assign none k v j h = cc
find-assign (some m) k v j h = ground (arith, lookup-insert j k v m)

pub value-find : (m : Labels) (k : Text) {v : Text} → find m k ≡ some v → value m k ≡ v
unfolding value
value-find m k h = rw h

pub value-find-none : (m : Labels) (k : Text) → find m k ≡ none → value m k ≡ []
unfolding value
value-find-none m k h = rw h

pub value-delete : (m : Labels) (k : Text) → value (delete m k) k ≡ []
value-delete m k = value-find-none (delete m k) k (ground (arith, find-delete m k k))

-- An assignment panics exactly on a nil map.
pub assign-some :
    (m : Labels) (k v : Text) → m ≢ none → (m' : Labels) × (assign m k v ≡ some m') × (m' ≢ none)
unfolding assign
assign-some none k v h = absurd (h refl)
assign-some (some m) k v h = (some (insert k v m), refl, λ e. cc)
