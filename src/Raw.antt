-- ===== src/Raw.antt =====
-- internal/eip3009/message.go: the readers of one value of a message. A `json.RawMessage` is a byte
-- text, and the nil one is empty; an index panics where it is out of range.
pub mod RoundTrip
pub mod Total
use eip.Prelude.{
  ℕ, ◌%◌, ◌||◌, not, List, [], ◌∷◌, none, some, Bytes, codes, ltb, ◌==◌, if◌then◌else◌, bytes_eq,
  length, drop, ℤ,
}
use eip.Outcome.{
  value_missing, integer_empty, invalid_address, hash_length, invalid_integer, integer_overflows,
  Outcome, ok, err, ◌>>=◌, ◌>>◌, reject,
}
use eip.Go.Strings.{trim_space, has_prefix, trim_prefix}
use eip.Go.Big.{to_string, set_string, is_uint64, uint64}
use eip.Go.Hex.{decode_string}
use eip.Go.Json.Decode.{Members, lookup, unmarshal_string}
use eip.Types.{Address, Hash}
use eip.Amount.{is_empty, number_or}
use eip.Ethereum.{Ethereum}
use eip.Signing.{byte_at}

-- `data[key]`: nil if there is no such key.
unfoldable pub get : Bytes → Members → Bytes
unfolding lookup
get key members = elim (lookup key members) [ none ↦ [] | some raw ↦ raw ]

-- `parseStringLike` of a text that is trimmed and not null.
unfoldable pub text_of : Bytes → Outcome Bytes
text_of raw = do
  first ← byte_at raw 0
  if first == b'"'
      then (do value ← unmarshal_string (drop 1 raw); ok (trim_space value))
      else ok raw

unfoldable pub parse_trimmed : Bytes → Outcome Bytes
unfolding text_of
parse_trimmed raw =
    if is_empty raw || bytes_eq raw (codes "null") then err value_missing else text_of raw

unfoldable pub parse_string_like : Bytes → Outcome Bytes
unfolding parse_trimmed
parse_string_like raw = if is_empty raw then err value_missing else parse_trimmed (trim_space raw)

unfoldable pub parse_optional_string : Bytes → Outcome Bytes
unfolding parse_string_like
parse_optional_string raw = if is_empty raw then ok [] else parse_string_like raw

-- The digits of an integer, behind the prefix that chose their base.
unfoldable pub digits_of : ℕ → Bytes → Outcome ℤ
digits_of base value =
    if is_empty value
    then err integer_empty
    else number_or (invalid_integer value) (set_string base value)

unfoldable pub big_of : Bytes → Outcome ℤ
unfolding digits_of
big_of value =
    if has_prefix value (codes "0x") || has_prefix value (codes "0X")
    then digits_of 16 (drop 2 value)
    else digits_of 10 value

unfoldable pub parse_big_int : Bytes → Outcome ℤ
parse_big_int raw = do value ← parse_string_like raw; big_of value

unfoldable pub uint64_of : ℤ → Outcome ℕ
uint64_of value =
    if not (is_uint64 value) then err (integer_overflows (to_string value)) else ok (uint64 value)

unfoldable pub parse_uint64 : Bytes → Outcome ℕ
parse_uint64 raw = do value ← parse_big_int raw; uint64_of value

-- `decodeHex` behind its two prefixes.
abbrev pub even_digits : Bytes → Bytes
even_digits value = if length value % 2 == 1 then b'0' ∷ value else value

unfoldable pub decode_hex : Bytes → Outcome Bytes
decode_hex value =
    decode_string
      (even_digits (trim_prefix (trim_prefix (trim_space value) (codes "0x")) (codes "0X")))

-- The first of some keys that is there.
unfoldable pub first_raw : Members → List Bytes → Bytes
first_raw members [] = []
first_raw members (key ∷ keys) = elim (lookup key members) [
  | none ↦ first_raw members keys
  | some raw ↦ raw
]

module _ (eth : Ethereum) where
  unfoldable pub address_of : Bytes → Outcome Address
  address_of value =
      if not (eth.is_hex_address value)
      then err (invalid_address value)
      else ok (eth.hex_to_address value)

  unfoldable pub parse_address : Bytes → Outcome Address
  parse_address raw = do value ← parse_string_like raw; address_of value

  unfoldable pub hash_of : Bytes → Outcome Hash
  hash_of value = do
    decoded ← decode_hex value
    reject (ltb 32 (length decoded)) (hash_length (length decoded))
    ok (eth.hex_to_hash value)

  unfoldable pub parse_hash : Bytes → Outcome Hash
  parse_hash raw = do value ← parse_string_like raw; hash_of value
