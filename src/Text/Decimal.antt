-- ===== src/Text/Decimal.antt =====
-- `strconv.Itoa` on the non-negative numbers and `strconv.Atoi` (a 64-bit `int`).
use namespace_quota_operator.Common.{
  ℕ, zero, suc, ◌+◌, ◌-◌, ◌*◌, ◌/◌, ◌%◌, ◌^◌, ◌≤◌, ◌<◌, [], ◌∷◌, Option, none, some, ◌≡◌, refl,
  arith, eqb, leb, ltb, if◌then◌else◌, Bool, true, false, ◌&&◌, Bool-cases, inl, inr,
}
use namespace_quota_operator.Text.{Text}
use namespace_quota_operator.Text.Split.{lacks}

-- `negsuc n` is -(n + 1).
pub data ℤ : Type 0 where
  pos : ℕ → ℤ
  negsuc : ℕ → ℤ

abbrev pub max_int : ℕ
max_int = 2 ^ 63 - 1

-- One digit for each round; `n + 1` rounds are enough.
digits : ℕ → ℕ → Text → Text
digits zero n out = out
digits (suc fuel) n out =
    let rest = digits fuel (n / 10) ((b'0' + n % 10) ∷ out) in
    if ltb n 10 then (b'0' + n) ∷ out else rest

unfoldable pub itoa : ℕ → Text
unfolding digits
itoa n = digits (suc n) n []

scan : Text → ℕ → Option ℕ
scan [] n = some n
scan (c ∷ s) n = if leb b'0' c && leb c b'9' then scan s (n * 10 + (c - b'0')) else none

-- The digits after the sign; there is at least one.
magnitude : Text → Option ℕ
unfolding scan
magnitude [] = none
magnitude (c ∷ s) = scan (c ∷ s) 0

positive : Option ℕ → Option ℤ
positive none = none
positive (some n) = if leb n max_int then some (pos n) else none

negative : Option ℕ → Option ℤ
negative none = none
negative (some zero) = some (pos 0)
negative (some (suc n)) = if leb n max_int then some (negsuc n) else none

-- `none` where Go returns an error: no digits, another byte, or out of range.
unfoldable pub atoi : Text → Option ℤ
unfolding magnitude positive negative
atoi [] = none
atoi (c ∷ s) =
    if eqb c b'-'
    then negative (magnitude s)
    else if eqb c b'+'
    then positive (magnitude s)
    else positive (magnitude (c ∷ s))

scan-digits : (fuel n : ℕ) (out : Text) → n < fuel → scan (digits fuel n out) 0 ≡ scan out n
unfolding scan digits
scan-digits zero n out h = absurd (omega arith)
scan-digits (suc fuel) n out h = ground (arith, scan-digits fuel (n / 10) ((b'0' + n % 10) ∷ out))

IsDigit : ℕ → Type 0
IsDigit c = (b'0' ≤ c) × (c ≤ b'9')

-- The first byte is a digit.
starts_digit : Text → Bool
starts_digit [] = false
starts_digit (c ∷ s) = leb b'0' c && leb c b'9'

starts_digit-digits : (fuel n : ℕ) (out : Text) → n < fuel → starts_digit (digits fuel n out) ≡ true
unfolding starts_digit digits
starts_digit-digits zero n out h = absurd (omega arith)
starts_digit-digits (suc fuel) n out h =
    ground (arith, starts_digit-digits fuel (n / 10) ((b'0' + n % 10) ∷ out))

atoi-scan : (s : Text) → starts_digit s ≡ true → atoi s ≡ positive (scan s 0)
unfolding atoi starts_digit
atoi-scan [] h = cc
atoi-scan (c ∷ s) h = ground arith

-- Every number that fits an `int` is read back from its decimal print.
pub atoi-itoa : (n : ℕ) → n ≤ max_int → atoi (itoa n) ≡ some (pos n)
unfolding itoa scan positive
atoi-itoa n h = ground (
  arith,
  atoi-scan (digits (suc n) n []),
  starts_digit-digits (suc n) n [],
  scan-digits (suc n) n [],
)

lacks-digits :
    (fuel n : ℕ) (out : Text) → lacks b'-' out ≡ true → lacks b'-' (digits fuel n out) ≡ true
unfolding lacks digits
lacks-digits zero n out h = h
lacks-digits (suc fuel) n out h = ground (arith, lacks-digits fuel (n / 10) ((b'0' + n % 10) ∷ out))

pub lacks-itoa : (n : ℕ) → lacks b'-' (itoa n) ≡ true
unfolding itoa lacks
lacks-itoa n = lacks-digits (suc n) n [] refl

positive-pos : (o : Option ℕ) {i : ℤ} → positive o ≡ some i → (n : ℕ) × (i ≡ pos n) × (n ≤ max_int)
unfolding positive
positive-pos none h = cc
positive-pos (some n) h = (n, ground arith, ground arith)

-- A text without a minus sign is never read as a negative number.
pub atoi-pos :
    (s : Text) (i : ℤ)
    → lacks b'-' s ≡ true
    → atoi s ≡ some i
    → (n : ℕ) × (i ≡ pos n) × (n ≤ max_int)
unfolding atoi lacks
atoi-pos [] i h e = cc
atoi-pos (c ∷ s) i h e = elim (Bool-cases (eqb c b'+')) [
  | inl plus ↦ positive-pos (magnitude s) (ground arith)
  | inr other ↦ positive-pos (magnitude (c ∷ s)) (ground arith)
]
