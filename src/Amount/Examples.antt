-- ===== src/Amount/Examples.antt =====
-- Runs of the amount functions, most of them those of amount_test.go, and instances of the theorems.
use eip.Prelude.{◌≡◌, refl, inr, [], none, some, arith, Bytes, codes, pos, negsuc, ◌+ℤ◌, ◌*ℤ◌}
use eip.Outcome.{
  ok, err, value_and_amount, decimals_required, too_many_digits, amount_negative, ◌>>=◌,
}
use eip.Go.Strings.{trim_space, has_prefix, count, split_two, repeat, trim_right}
use eip.Go.Big.{digits, set_string, scan_digits}
use eip.Amount.{
  is_decimal_digits, add_fractional, from_parts, parse_human_amount, raw_value, human_value,
  choose_value, parse_token_value, format_scaled, format_token_value,
}
use eip.Amount.Parse.{IsAmount, Accepted, parse_complete, parse_sound}
use eip.Amount.Format.{format_total, parse-format}

-- All that a run of `parse_human_amount` computes with.
abbrev quarter : Bytes
quarter = codes "100.25"

run_quarter : parse_human_amount quarter 6 ≡ ok (pos 100250000)
unfolding parse_human_amount has_prefix count split_two from_parts is_decimal_digits add_fractional
    repeat set_string scan_digits ◌+ℤ◌ ◌*ℤ◌
run_quarter = refl

-- A point alone passes for zero: the test that should refuse it comes after `whole` was set to "0".
run_point : parse_human_amount (codes ".") 6 ≡ ok (pos 0)
unfolding parse_human_amount has_prefix count split_two from_parts is_decimal_digits add_fractional
    repeat set_string scan_digits ◌+ℤ◌ ◌*ℤ◌
run_point = refl

run_too_long :
    parse_human_amount (codes "0.0000001") 6 ≡ err (too_many_digits (codes "0.0000001") 6)
unfolding parse_human_amount has_prefix count split_two from_parts is_decimal_digits
run_too_long = refl

run_negative : parse_human_amount (codes "-1") 6 ≡ err amount_negative
unfolding parse_human_amount has_prefix
run_negative = refl

run_raw : parse_token_value (codes " 1000000 ") [] none ≡ ok (pos 1000000)
unfolding parse_token_value trim_space choose_value raw_value set_string scan_digits
run_raw = refl

run_both : parse_token_value (codes "1") (codes "1") (some 6) ≡ err value_and_amount
unfolding parse_token_value trim_space choose_value
run_both = refl

run_no_decimals : parse_token_value [] (codes "100") none ≡ err decimals_required
unfolding parse_token_value trim_space choose_value human_value
run_no_decimals = refl

run_format : format_token_value (some (pos 100250000)) 6 ≡ ok quarter
unfolding format_token_value format_scaled digits repeat trim_right
run_format = refl

run_format_small : format_token_value (some (negsuc 0)) 6 ≡ ok (codes "-0.000001")
unfolding format_token_value format_scaled digits repeat trim_right
run_format_small = refl

quarter-IsAmount : IsAmount quarter 6 100250000 (codes "100") (codes "25")
quarter-IsAmount = record {
  spelled = inr refl;
  not_empty = λ e. cc;
  whole_digits = omega arith;
  fraction_digits = omega arith;
  fits = omega arith;
  stands_for = refl;
}

parse_complete_example : parse_human_amount quarter 6 ≡ ok (pos 100250000)
parse_complete_example =
    parse_complete quarter 6 100250000 (codes "100") (codes "25") quarter-IsAmount

parse_sound_example : Accepted quarter 6 (pos 100250000)
parse_sound_example = parse_sound quarter 6 (pos 100250000) run_quarter

format_total_example : (s : Bytes) × (format_token_value (some (pos 100250000)) 6 ≡ ok s)
format_total_example = format_total (some (pos 100250000)) 6

parse-format_example :
    (format_token_value (some (pos 100250000)) 6 >>= λ s. parse_human_amount s 6)
    ≡ ok (pos 100250000)
parse-format_example = parse-format 100250000 6
