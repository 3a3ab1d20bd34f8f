-- ===== src/Text/Split.antt =====
-- `strings.Split` by a one-byte separator, and `parts[len(parts)-2]`.
use namespace_quota_operator.Common.{
  ℕ, zero, suc, ◌-◌, ◌≤◌, List, [], ◌∷◌, ◌++◌, Option, none, some, ◌≡◌, ◌≢◌, refl, arith, eqb, leb,
  if◌then◌else◌, length, length-append, get_elem?-ne-none, get_elem?, All, Bool, true, false,
  Bool-cases, inl, inr,
}
use namespace_quota_operator.Text.{Text}

-- The part that is being read gets one more byte.
add_byte : ℕ → List Text → List Text
add_byte c [] = (c ∷ []) ∷ []
add_byte c (p ∷ ps) = (c ∷ p) ∷ ps

unfoldable pub split : Text → ℕ → List Text
unfolding add_byte
split [] sep = [] ∷ []
split (c ∷ s) sep = let rest = split s sep in if eqb c sep then [] ∷ rest else add_byte c rest

-- `parts[len(parts)-2]`; `none` where Go panics with an index out of range.
unfoldable pub second_last : List Text → Option Text
second_last parts = if leb 2 (length parts) then get_elem? parts (length parts - 2) else none

-- The byte does not occur in the text.
unfoldable pub lacks : ℕ → Text → Bool
lacks sep [] = true
lacks sep (c ∷ s) = let rest = lacks sep s in if eqb c sep then false else rest

module _ (sep : ℕ) where
  pub split-ne-nil : (s : Text) → split s sep ≢ []
  unfolding split
  split-ne-nil [] h = cc
  split-ne-nil (c ∷ s) h = ground (arith, split-ne-nil s)

  add_byte-append :
      (c : ℕ) (ps qs : List Text) → ps ≢ [] → add_byte c (ps ++ qs) ≡ add_byte c ps ++ qs
  unfolding add_byte
  add_byte-append c [] qs h = absurd (h refl)
  add_byte-append c (p ∷ ps) qs h = refl

  -- A separator cuts a text into what stands before it and what stands behind it.
  pub split-append : (s t : Text) → split (s ++ sep ∷ t) sep ≡ split s sep ++ split t sep
  unfolding split
  split-append [] t = ground arith
  split-append (c ∷ s) t =
      ground
        (arith, split-append s t, add_byte-append c (split s sep) (split t sep), split-ne-nil s)

  pub split-lacks : (s : Text) → lacks sep s ≡ true → split s sep ≡ s ∷ []
  unfolding split lacks
  split-lacks [] h = refl
  split-lacks (c ∷ s) h = ground (arith, split-lacks s)

  length-split-pos : (s : Text) → 1 ≤ length (split s sep)
  unfolding split add_byte
  length-split-pos [] = omega arith
  length-split-pos (c ∷ s) = ground (arith, length-split-pos s)

  length-add_byte : (c : ℕ) (ps : List Text) → length ps ≤ length (add_byte c ps)
  unfolding add_byte
  length-add_byte c [] = omega arith
  length-add_byte c (p ∷ ps) = omega arith

  -- A text that holds the separator has two parts or more.
  pub length-split : (s : Text) → lacks sep s ≡ false → 2 ≤ length (split s sep)
  unfolding split lacks
  length-split [] h = cc
  length-split (c ∷ s) h =
      ground (arith, length-split s, length-split-pos s, length-add_byte c (split s sep))

  add_byte-All :
      (c : ℕ) (ps : List Text)
      → eqb c sep ≡ false
      → All (λ p. lacks sep p ≡ true) ps
      → All (λ p. lacks sep p ≡ true) (add_byte c ps)
  unfolding add_byte lacks
  add_byte-All c [] e h = ground arith
  add_byte-All c (p ∷ ps) e (hp, hps) = (rw (e, lacks) hp, hps)

  -- No part holds the separator.
  pub split-All : (s : Text) → All (λ p. lacks sep p ≡ true) (split s sep)
  unfolding split lacks
  split-All [] = (refl, tt)
  split-All (c ∷ s) = elim (Bool-cases (eqb c sep)) [
    | inl e ↦ rw (e, split) (refl, split-All s)
    | inr e ↦ rw (e, split) (add_byte-All c (split s sep) e (split-All s))
  ]

  get_elem?-lacks :
      (ps : List Text) (i : ℕ) {p : Text}
      → All (λ p. lacks sep p ≡ true) ps
      → get_elem? ps i ≡ some p
      → lacks sep p ≡ true
  get_elem?-lacks [] i _ h = cc
  get_elem?-lacks (q ∷ ps) zero (hq, _) h = cc
  get_elem?-lacks (q ∷ ps) (suc i) (_, hps) h = get_elem?-lacks ps i hps h

  -- The last part but one lacks the separator too.
  pub second_last-lacks :
      (s : Text) {p : Text} → second_last (split s sep) ≡ some p → lacks sep p ≡ true
  unfolding second_last
  second_last-lacks s {p} h =
      get_elem?-lacks (split s sep) (length (split s sep) - 2) (split-All s) (ground arith)

get_elem?-append :
    (ps : List Text) (p : Text) (rest : List Text) → get_elem? (ps ++ p ∷ rest) (length ps) ≡ some p
get_elem?-append [] p rest = refl
get_elem?-append (x ∷ ps) p rest = get_elem?-append ps p rest

-- The last part but one of a list that ends in `p`, `q`.
pub second_last-append : (ps : List Text) (p q : Text) → second_last (ps ++ p ∷ q ∷ []) ≡ some p
unfolding second_last
second_last-append ps p q =
    ground (arith, length-append ps (p ∷ q ∷ []), get_elem?-append ps p (q ∷ []))

pub second_last-one : (p : Text) → second_last (p ∷ []) ≡ none
unfolding second_last
second_last-one p = refl

pub second_last-ne-none : (ps : List Text) → 2 ≤ length ps → second_last ps ≢ none
unfolding second_last
second_last-ne-none ps h = ground (arith, get_elem?-ne-none ps (length ps - 2))
