-- ===== src/Text.antt =====
-- Go strings as lists of bytes, with the comparisons that the operator makes.
pub mod Split
pub mod Decimal
use Prim.Native.Char.{code}
use Prim.Native.String.{String}
use namespace_quota_operator.Common.{
  ℕ, Bool, true, false, List, [], ◌∷◌, ◌≡◌, refl, arith, ite, ℕ_discrete, if◌then◌else◌, eqb,
}

abbrev pub Text : Type 0
Text = List ℕ

-- The bytes of an ASCII literal.
abbrev pub codes : String → Text
codes String.[] = []
codes (String.◌∷◌ c s) = code c ∷ codes s

unfoldable pub text_dec : Discrete Text
unfolding ℕ_discrete
text_dec = hlevel ℕ_discrete

-- `a == b` on strings.
infix 50 ◌==◌
abbrev pub ◌==◌ : Text → Text → Bool
a == b = ite (text_dec a b) true false

-- `strings.HasPrefix(s, prefix)`.
unfoldable pub has_prefix : Text → Text → Bool
has_prefix s [] = true
has_prefix [] (p ∷ ps) = false
has_prefix (c ∷ s) (p ∷ ps) = if eqb c p then has_prefix s ps else false

pub text_eq_refl : (a : Text) → (a == a) ≡ true
text_eq_refl a = ground arith
