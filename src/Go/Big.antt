-- ===== src/Go/Big.antt =====
-- Go's `math/big` as the program uses it: a `*big.Int` that is not nil is an integer. `digits` is the
-- decimal print, `set_string` is `SetString(s, base)` for the bases 10 and 16: an optional sign and
-- one or more digits, upper or lower case.
pub mod Decimal
use eip.Prelude.{
  ℕ, zero, suc, ◌+◌, ◌-◌, ◌*◌, ◌/◌, ◌%◌, ◌^◌, Bool, true, false, ◌&&◌, ◌||◌, [], ◌∷◌, ◌++◌, Option,
  none, some, Bytes, ltb, leb, ◌==◌, if◌then◌else◌, ℤ, pos, negsuc, neg_ℕ, is_negative,
}

-- One digit a round, the last one first; `suc n` rounds are enough for `n`.
unfoldable pub digits_fuel : ℕ → ℕ → Bytes
digits_fuel zero n = []
digits_fuel (suc f) n = elim (ltb n 10) [
  | true ↦ (b'0' + n) ∷ []
  | false ↦ digits_fuel f (n / 10) ++ ((b'0' + n % 10) ∷ [])
]

-- The decimal print of a natural number.
unfoldable pub digits : ℕ → Bytes
unfolding digits_fuel
digits n = digits_fuel (suc n) n

-- x.String()
unfoldable pub to_string : ℤ → Bytes
to_string (pos n) = digits n
to_string (negsuc n) = b'-' ∷ digits (suc n)

-- The value of one digit.
unfoldable pub digit_value : ℕ → Option ℕ
digit_value c =
    if leb b'0' c && leb c b'9'
    then some (c - b'0')
    else if leb b'a' c && leb c b'f'
    then some (c - b'a' + 10)
    else if leb b'A' c && leb c b'F'
    then some (c - b'A' + 10)
    else none

-- The value of a row of digits behind `n`.
unfoldable pub scan : ℕ → ℕ → Bytes → Option ℕ
unfolding digit_value
scan base n [] = some n
scan base n (c ∷ s) = elim (digit_value c) [
  | none ↦ none
  | some d ↦ elim (ltb d base) [ true ↦ scan base (n * base + d) s | false ↦ none ]
]

-- One or more digits.
unfoldable pub scan_digits : ℕ → Bytes → Option ℕ
unfolding scan
scan_digits base [] = none
scan_digits base (c ∷ s) = scan base 0 (c ∷ s)

abbrev signed : (ℕ → ℤ) → Option ℕ → Option ℤ
signed sign none = none
signed sign (some n) = some (sign n)

-- new(big.Int).SetString(s, base)
unfoldable pub set_string : ℕ → Bytes → Option ℤ
set_string base [] = none
set_string base (c ∷ s) =
    if c == b'-'
    then signed neg_ℕ (scan_digits base s)
    else if c == b'+'
    then signed pos (scan_digits base s)
    else signed pos (scan_digits base (c ∷ s))

-- x.IsUint64()
unfoldable pub is_uint64 : ℤ → Bool
is_uint64 (pos n) = ltb n (2 ^ 64)
is_uint64 (negsuc n) = false

-- x.Uint64(): the low 64 bits of the absolute value
unfoldable pub uint64 : ℤ → ℕ
uint64 (pos n) = n % 2 ^ 64
uint64 (negsuc n) = suc n % 2 ^ 64
