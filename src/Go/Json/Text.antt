-- ===== src/Go/Json/Text.antt =====
-- Strings of ASCII: what the encoder writes is one string of the scanner, and is read back.
use eip.Prelude.{
  ℕ, ◌+◌, ◌*◌, ◌/◌, ◌%◌, ◌<◌, ◌≡◌, refl, false, [], ◌∷◌, ◌++◌, some, none, Option, arith, Bytes,
  lt→ltb, All, ◌==◌,
}
use eip.Go.Hex.{hex_digit, hex_value}
use eip.Go.Json.{StringState, plain, closes, goes, refused, string_step}
use eip.Go.Json.Quote.{
  quote_byte, quote_body, quote_piece, pieces, unquote, read_piece, read_escape, rune_escape, hex4,
  utf8, plain_escape,
}

abbrev pub IsAscii : ℕ → Type 0
IsAscii c = c < 128

pub hex_value-hex_digit : (d : ℕ) → d < 16 → hex_value (hex_digit d) ≡ some d
unfolding hex_value hex_digit
hex_value-hex_digit d h = ground arith

quote_body-cons :
    (c : ℕ) (s : Bytes) → IsAscii c → quote_body (c ∷ s) ≡ quote_byte c ++ quote_body s
unfolding quote_body pieces quote_piece
quote_body-cons c s h = rw (lt→ltb c 128 h) refl

-- The strings that the scanner stays inside of.
unfoldable pub stays : StringState → Bytes → Option StringState
stays st [] = some st
stays st (c ∷ s) = elim (string_step st c) [
  | goes st' ↦ stays st' s
  | closes ↦ none
  | refused ↦ none
]

zero_value : hex_value b'0' ≡ some 0
unfolding hex_value
zero_value = refl

hex4-byte :
    (a b x y : ℕ) (t : Bytes)
    → hex_value a ≡ some x
    → hex_value b ≡ some y
    → hex4 (b'0' ∷ b'0' ∷ a ∷ b ∷ t) ≡ some (x * 16 + y)
unfolding hex4
hex4-byte a b x y t ha hb = ground (arith, zero_value)

rune_escape-ascii : (r : ℕ) (s : Bytes) → r < 128 → rune_escape (some r) s ≡ (r ∷ [], 0, 5)
unfolding rune_escape utf8
rune_escape-ascii r s h = ground arith

unquote-unicode :
    (a b x y : ℕ) (t : Bytes)
    → hex_value a ≡ some x
    → hex_value b ≡ some y
    → x * 16 + y < 128
    → unquote (b'\\' ∷ b'u' ∷ b'0' ∷ b'0' ∷ a ∷ b ∷ t) ≡ (x * 16 + y) ∷ unquote t
unfolding unquote pieces read_piece read_escape
unquote-unicode a b x y t ha hb h =
    rw (hex4-byte a b x y t ha hb, rune_escape-ascii (x * 16 + y) (b'0' ∷ b'0' ∷ a ∷ b ∷ t) h) refl

pub unquote-escape :
    (e : ℕ) (t : Bytes) → (e == b'u') ≡ false → unquote (b'\\' ∷ e ∷ t) ≡ plain_escape e ∷ unquote t
unfolding unquote pieces read_piece read_escape
unquote-escape e t h = rw h refl

pub unquote-plain :
    (c : ℕ) (t : Bytes) → IsAscii c → (c == b'\\') ≡ false → unquote (c ∷ t) ≡ c ∷ unquote t
unfolding unquote pieces read_piece
unquote-plain c t h p = rw (p, lt→ltb c 128 h) refl

unquote-quote_byte : (c : ℕ) (t : Bytes) → IsAscii c → unquote (quote_byte c ++ t) ≡ c ∷ unquote t
unfolding quote_byte
unquote-quote_byte c t h = ground (
  arith,
  unquote-plain c t h,
  unquote-escape c t,
  unquote-escape b'b' t refl,
  unquote-escape b'f' t refl,
  unquote-escape b'n' t refl,
  unquote-escape b'r' t refl,
  unquote-escape b't' t refl,
  unquote-unicode (hex_digit (c / 16)) (hex_digit (c % 16)) (c / 16) (c % 16) t
      (hex_value-hex_digit (c / 16) (omega arith)) (hex_value-hex_digit (c % 16) (omega arith))
      (omega arith),
)

stays-quote_byte : (c : ℕ) (t : Bytes) → IsAscii c → stays plain (quote_byte c ++ t) ≡ stays plain t
unfolding quote_byte stays string_step hex_digit
stays-quote_byte c t h = ground arith

pub unquote-quote_body : (s : Bytes) → All IsAscii s → unquote (quote_body s) ≡ s
unquote-quote_body [] h = unfold quote_body pieces unquote in refl
unquote-quote_body (c ∷ s) h =
    rw (quote_body-cons c s h.0, unquote-quote_byte c (quote_body s) h.0, unquote-quote_body s h.1)

pub stays-quote_body : (s : Bytes) → All IsAscii s → stays plain (quote_body s) ≡ some plain
stays-quote_body [] h = unfold quote_body pieces stays in refl
stays-quote_body (c ∷ s) h =
    rw (quote_body-cons c s h.0, stays-quote_byte c (quote_body s) h.0) (stays-quote_body s h.1)
