-- ===== src/Ids/Profile.antt =====
-- Reading a profile's identifier back from a label.
use namespace_quota_operator.Common.{
  ◌≡◌, refl, ◌≢◌, List, [], ◌∷◌, ◌++◌, true, ◌&&◌, if◌then◌else◌, arith, ◌+◌, ◌≤◌, length,
  length-append, Bool-cases, inl, inr,
}
use namespace_quota_operator.Text.{Text}
use namespace_quota_operator.Text.Split.{
  split, lacks, split-append, split-lacks, split-ne-nil, length-split,
}
use namespace_quota_operator.Ids.{get_profile_id, split_profile_id, two_parts}

two_parts_long : (ps : List Text) → 3 ≤ length ps → two_parts ps ≡ ([], [])
unfolding two_parts
two_parts_long [] h = refl
two_parts_long (a ∷ []) h = refl
two_parts_long (a ∷ b ∷ []) h = absurd (omega arith)
two_parts_long (a ∷ b ∷ c ∷ ps) h = refl

length-split-pos : (s : Text) → 1 ≤ length (split s b'.')
length-split-pos s = pos (split s b'.') (split-ne-nil b'.' s)
  where
    pos : (ps : List Text) → ps ≢ [] → 1 ≤ length ps
    pos [] h = absurd (h refl)
    pos (p ∷ ps) h = omega arith

dotted :
    (ns p : Text)
    → 3 ≤ length (split ns b'.') + length (split p b'.')
    → split_profile_id (get_profile_id ns p) ≡ ([], [])
unfolding split_profile_id get_profile_id
dotted ns p h = rw split-append (
    two_parts_long (split ns b'.' ++ split p b'.')
      (rw (length-append (split ns b'.') (split p b'.')) h))

plain :
    (ns p : Text)
    → lacks b'.' ns ≡ true
    → lacks b'.' p ≡ true
    → split_profile_id (get_profile_id ns p) ≡ (ns, p)
unfolding split_profile_id get_profile_id
plain ns p hn hp = rw (split-append, split-lacks b'.' ns hn, split-lacks b'.' p hp)

-- A profile's identifier is split into its namespace and name if neither holds a dot; if one does, it
-- is split into two empty strings.
pub split-get_profile_id :
    (ns p : Text)
    → split_profile_id (get_profile_id ns p)
      ≡ (if lacks b'.' ns && lacks b'.' p then (ns, p) else ([], []))
split-get_profile_id ns p = elim (Bool-cases (lacks b'.' ns)) [
  | inr no_ns ↦
      rw no_ns (dotted ns p (omega (arith, length-split b'.' ns no_ns, length-split-pos p)))
  | inl ok_ns ↦ elim (Bool-cases (lacks b'.' p)) [
    | inr no_p ↦
        rw (ok_ns, no_p)
          (dotted ns p (omega (arith, length-split b'.' p no_p, length-split-pos ns)))
    | inl ok_p ↦ rw (ok_ns, ok_p) (plain ns p ok_ns ok_p)
  ]
]

pub profile_id-full : (namespace name : Text) → get_profile_id namespace name ≢ []
unfolding get_profile_id
profile_id-full [] name e = cc
profile_id-full (x ∷ namespace) name e = cc
