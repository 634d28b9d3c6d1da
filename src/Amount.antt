-- ===== src/Amount.antt =====
-- internal/eip3009/amount.go: token values as raw integers and as human amounts. A `*big.Int` is an
-- `Option ℤ` where it may be nil, a `*uint8` an `Option ℕ`; `int(decimals) - len(fractional)` is an
-- integer, so that the panic of `strings.Repeat` at a negative count is an outcome of the model.
pub mod Fraction
pub mod Parse
pub mod Format
mod Examples
use eip.Prelude.{
  ℕ, zero, suc, ◌+◌, ◌-◌, ◌*◌, ◌/◌, ◌%◌, ◌^◌, Bool, true, false, not, ◌&&◌, ◌||◌, List, [], ◌∷◌,
  ◌++◌, Option, none, some, Bytes, codes, ltb, leb, ◌==◌, if◌then◌else◌, bytes_eq, length, ℤ, pos,
  negsuc, sub_ℕ, is_negative, nat_abs, ◌+ℤ◌, ◌*ℤ◌,
}
use eip.Outcome.{
  Error, value_and_amount, value_or_amount, decimals_required, invalid_value, amount_required,
  amount_negative, invalid_amount, too_many_digits, Outcome, ok, err, panic, ◌>>=◌, ◌>>◌, reject,
}
use eip.Go.Strings.{trim_space, has_prefix, count, split_two, trim_right, repeat}
use eip.Go.Big.{digits, to_string, set_string}

-- `s == ""`
abbrev pub is_empty : Bytes → Bool
is_empty [] = true
is_empty (c ∷ s) = false

-- The loop of `isDecimalDigits`.
unfoldable pub all_digits : Bytes → Bool
all_digits [] = true
all_digits (r ∷ rest) = if ltb r b'0' || ltb b'9' r then false else all_digits rest

unfoldable pub is_decimal_digits : Bytes → Bool
unfolding all_digits
is_decimal_digits value = if is_empty value then false else all_digits value

-- `parts[0]`, and `parts[1]` if there are two parts.
abbrev pub parts_of : List Bytes → Outcome (Bytes × Bytes)
parts_of [] = panic
parts_of (whole ∷ []) = ok (whole, [])
parts_of (whole ∷ fractional ∷ []) = ok (whole, fractional)
parts_of (whole ∷ fractional ∷ more ∷ rest) = ok (whole, [])

abbrev pub number_or : Error → Option ℤ → Outcome ℤ
number_or e none = err e
number_or e (some x) = ok x

-- The fractional digits, filled up with zeros, are added to the value.
unfoldable pub add_fractional : Bytes → ℕ → ℤ → Bytes → Outcome ℤ
add_fractional amount decimals value [] = ok value
add_fractional amount decimals value (c ∷ s) = do
  zeros ← repeat b'0' (sub_ℕ decimals (length (c ∷ s)))
  fractional_value ← number_or (invalid_amount amount) (set_string 10 ((c ∷ s) ++ zeros))
  ok (value +ℤ fractional_value)

-- What `parseHumanAmount` does with the two parts.
unfoldable pub from_parts : Bytes → ℕ → Bytes → Bytes → Outcome ℤ
from_parts amount decimals whole_part fractional = do
  let whole = if is_empty whole_part then codes "0" else whole_part
  reject (is_empty whole && is_empty fractional) (invalid_amount amount)
  reject
      (not (is_decimal_digits whole)
        || (not (is_empty fractional) && not (is_decimal_digits fractional)))
      (invalid_amount amount)
  reject (ltb decimals (length fractional)) (too_many_digits amount decimals)
  whole_value ← number_or (invalid_amount amount) (set_string 10 whole)
  add_fractional amount decimals (whole_value *ℤ pos (10 ^ decimals)) fractional

unfoldable pub parse_human_amount : Bytes → ℕ → Outcome ℤ
parse_human_amount amount decimals = do
  reject (is_empty amount) amount_required
  reject (has_prefix amount (codes "-")) amount_negative
  reject (ltb 1 (count amount b'.')) (invalid_amount amount)
  (whole, fractional) ← parts_of (split_two amount b'.')
  from_parts amount decimals whole fractional

-- The case of `ParseTokenValue` for `--value`.
unfoldable pub raw_value : Bytes → Option ℤ → Outcome ℤ
raw_value value_arg none = err (invalid_value value_arg)
raw_value value_arg (some value) =
    if is_negative value then err (invalid_value value_arg) else ok value

-- The case for `--amount`.
unfoldable pub human_value : Bytes → Option ℕ → Outcome ℤ
human_value amount_arg none = err decimals_required
human_value amount_arg (some decimals) = parse_human_amount amount_arg decimals

unfoldable pub choose_value : Bytes → Bytes → Option ℕ → Outcome ℤ
choose_value value_arg amount_arg decimals =
    if not (is_empty value_arg) && not (is_empty amount_arg)
    then err value_and_amount
    else if is_empty value_arg && is_empty amount_arg
    then err value_or_amount
    else if not (is_empty value_arg)
    then raw_value value_arg (set_string 10 value_arg)
    else human_value amount_arg decimals

unfoldable pub parse_token_value : Bytes → Bytes → Option ℕ → Outcome ℤ
parse_token_value value_arg amount_arg decimals =
    choose_value (trim_space value_arg) (trim_space amount_arg) decimals

-- `sign + whole.String()`, with the fractional digits behind a point if there are any.
abbrev pub with_fraction : Bytes → Bytes → Bytes
with_fraction whole [] = whole
with_fraction whole (c ∷ s) = whole ++ b'.' ∷ c ∷ s

-- `FormatTokenValue` of a value that is not nil and decimals that are not zero.
unfoldable pub format_scaled : ℤ → ℕ → Outcome Bytes
format_scaled value decimals = do
  let sign = if is_negative value then codes "-" else []
  let work = nat_abs value
  let scale = 10 ^ decimals
  let whole = work / scale
  let fractional = digits (work % scale)
  zeros ← repeat b'0' (sub_ℕ decimals (length fractional))
  ok (with_fraction (sign ++ digits whole) (trim_right (zeros ++ fractional) b'0'))

unfoldable pub format_token_value : Option ℤ → ℕ → Outcome Bytes
format_token_value none decimals = ok (codes "0")
format_token_value (some value) zero = ok (to_string value)
format_token_value (some value) (suc decimals) = format_scaled value (suc decimals)
