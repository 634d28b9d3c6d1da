-- ===== src/Values.antt =====
-- internal/eip3009/json.go: the values of command line flags are read as JSON strings.
pub mod Plain
mod Examples
use eip.Prelude.{ℕ, Bool, Bytes, ℤ}
use eip.Outcome.{Outcome}
use eip.Go.Strconv.{go_quote}
use eip.Types.{Address, Hash}
use eip.Ethereum.{Ethereum}
use eip.Raw.{parse_address, parse_hash, parse_big_int, parse_uint64}

module _ (is_print : ℕ → Bool) where
  unfoldable pub must_raw_string : Bytes → Bytes
  must_raw_string value = go_quote is_print value

  unfoldable pub parse_address_value : Ethereum → Bytes → Outcome Address
  parse_address_value eth value = parse_address eth (must_raw_string value)

  unfoldable pub parse_hash_value : Ethereum → Bytes → Outcome Hash
  parse_hash_value eth value = parse_hash eth (must_raw_string value)

  unfoldable pub parse_big_int_value : Bytes → Outcome ℤ
  parse_big_int_value value = parse_big_int (must_raw_string value)

  unfoldable pub parse_uint64_value : Bytes → Outcome ℕ
  parse_uint64_value value = parse_uint64 (must_raw_string value)
