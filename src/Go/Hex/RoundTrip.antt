-- ===== src/Go/Hex/RoundTrip.antt =====
-- Bytes are read back from their digits.
use eip.Prelude.{ℕ, ◌*◌, ◌/◌, ◌%◌, ◌<◌, ◌≡◌, refl, [], ◌∷◌, some, arith, Bytes, All, length}
use eip.Outcome.{ok}
use eip.Go.Strings.Trim.{IsVisible}
use eip.Go.Hex.{hex_digit, encode_to_string, hex_value, hex_byte, decode_pairs, decode_string}

pub hex_value-hex_digit : (d : ℕ) → d < 16 → hex_value (hex_digit d) ≡ some d
unfolding hex_value hex_digit
hex_value-hex_digit d h = ground arith

hex_digit-IsVisible : (d : ℕ) → d < 16 → IsVisible (hex_digit d)
unfolding hex_digit
hex_digit-IsVisible d h = ground arith

hex_byte-hex_digit : (b : ℕ) → b < 256 → hex_byte (hex_digit (b / 16)) (hex_digit (b % 16)) ≡ some b
unfolding hex_byte
hex_byte-hex_digit b h =
    ground (
      arith,
      hex_value-hex_digit (b / 16) (omega arith),
      hex_value-hex_digit (b % 16) (omega arith),
    )

pub decode_pairs-encode_to_string :
    (b : Bytes) → All (λ c. c < 256) b → decode_pairs (encode_to_string b) ≡ some b
unfolding decode_pairs encode_to_string
decode_pairs-encode_to_string [] h = refl
decode_pairs-encode_to_string (b ∷ s) h =
    rw (decode_pairs, hex_byte-hex_digit b h.0, decode_pairs-encode_to_string s h.1) refl

pub decode_string-encode_to_string :
    (b : Bytes) → All (λ c. c < 256) b → decode_string (encode_to_string b) ≡ ok b
unfolding decode_string
decode_string-encode_to_string b h = rw (decode_string, decode_pairs-encode_to_string b h) refl

pub encode_to_string-IsVisible :
    (b : Bytes) → All (λ c. c < 256) b → All IsVisible (encode_to_string b)
unfolding encode_to_string
encode_to_string-IsVisible [] h = tt
encode_to_string-IsVisible (b ∷ s) h = (
  hex_digit-IsVisible (b / 16) (omega (arith, h.0)),
  (hex_digit-IsVisible (b % 16) (omega arith), encode_to_string-IsVisible s h.1),
)

pub length-encode_to_string : (b : Bytes) → length (encode_to_string b) ≡ 2 * length b
unfolding encode_to_string
length-encode_to_string [] = refl
length-encode_to_string (b ∷ s) = omega (arith, length-encode_to_string s)
