-- ===== src/Go/Hex.antt =====
-- Go's `encoding/hex`: two digits for each byte.
pub mod RoundTrip
pub mod Range
use eip.Prelude.{
  ℕ, ◌+◌, ◌-◌, ◌*◌, ◌/◌, ◌%◌, ◌&&◌, Bool, true, false, [], ◌∷◌, Option, none, some, Bytes, ltb, leb,
  if◌then◌else◌,
}
use eip.Outcome.{external, Outcome, ok, err}

-- hex.EncodeToString's digits
unfoldable pub hex_digit : ℕ → ℕ
hex_digit d = if ltb d 10 then b'0' + d else b'a' + (d - 10)

unfoldable pub encode_to_string : Bytes → Bytes
encode_to_string [] = []
encode_to_string (b ∷ s) = hex_digit (b / 16) ∷ hex_digit (b % 16) ∷ encode_to_string s

-- The value of a digit in either case.
unfoldable pub hex_value : ℕ → Option ℕ
hex_value c =
    if leb b'0' c && leb c b'9'
    then some (c - b'0')
    else if leb b'a' c && leb c b'f'
    then some (c - b'a' + 10)
    else if leb b'A' c && leb c b'F'
    then some (c - b'A' + 10)
    else none

-- The byte of two digits.
unfoldable pub hex_byte : ℕ → ℕ → Option ℕ
hex_byte a b = elim (hex_value a) [
  | none ↦ none
  | some x ↦ elim (hex_value b) [ none ↦ none | some y ↦ some (x * 16 + y) ]
]

-- The bytes of the digits, or none.
unfoldable pub decode_pairs : Bytes → Option Bytes
decode_pairs [] = some []
decode_pairs (a ∷ []) = none
decode_pairs (a ∷ b ∷ s) = elim (hex_byte a b) [
  | none ↦ none
  | some x ↦ elim (decode_pairs s) [ none ↦ none | some xs ↦ some (x ∷ xs) ]
]

-- hex.DecodeString
unfoldable pub decode_string : Bytes → Outcome Bytes
unfolding decode_pairs
decode_string s = elim (decode_pairs s) [ none ↦ err (external s) | some b ↦ ok b ]
