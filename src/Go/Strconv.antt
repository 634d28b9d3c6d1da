-- ===== src/Go/Strconv.antt =====
-- Go's `strconv.Quote`, which is `fmt.Sprintf("%q")` of a string. Which runes beyond ASCII count as
-- printable is a table of the package `unicode` and is an argument here.
use eip.Prelude.{
  ℕ, zero, suc, ◌+◌, ◌-◌, ◌*◌, ◌/◌, ◌%◌, Bool, ◌||◌, [], ◌∷◌, ◌++◌, Option, none, some, Bytes,
  codes, ltb, ◌==◌, if◌then◌else◌,
}
use eip.Go.Hex.{hex_digit}
use eip.Go.Json.Quote.{Piece, more_bytes, pieces}

-- The last `w` hexadecimal digits of a number.
unfoldable pub hex_digits : ℕ → ℕ → Bytes
hex_digits zero n = []
hex_digits (suc w) n = hex_digits w (n / 16) ++ hex_digit (n % 16) ∷ []

unfoldable pub go_quote_byte : ℕ → Bytes
unfolding hex_digits
go_quote_byte c =
    if c == b'"' || c == b'\\'
    then b'\\' ∷ c ∷ []
    else if c == 7
    then codes "\\a"
    else if c == 8
    then codes "\\b"
    else if c == 12
    then codes "\\f"
    else if c == 10
    then codes "\\n"
    else if c == 13
    then codes "\\r"
    else if c == 9
    then codes "\\t"
    else if c == 11
    then codes "\\v"
    else if ltb c 32 || c == 127
    then codes "\\x" ++ hex_digits 2 c
    else c ∷ []

-- The rune of a first byte and the `k` bytes behind it.
unfoldable pub rune_of : ℕ → Bytes → ℕ → ℕ
rune_of a (b ∷ s) (suc zero) = (a - 0xc0) * 64 + (b - 0x80)
rune_of a (b ∷ c ∷ s) (suc (suc zero)) = ((a - 0xe0) * 64 + (b - 0x80)) * 64 + (c - 0x80)
rune_of a (b ∷ c ∷ d ∷ s) (suc (suc (suc zero))) =
    (((a - 0xf0) * 64 + (b - 0x80)) * 64 + (c - 0x80)) * 64 + (d - 0x80)
rune_of a _ _ = a

unfoldable pub escaped_rune : ℕ → Bytes
unfolding hex_digits
escaped_rune r =
    if ltb r 0x10000 then codes "\\u" ++ hex_digits 4 r else codes "\\U" ++ hex_digits 8 r

module _ (is_print : ℕ → Bool) where
  unfoldable pub go_quote_rune : ℕ → Bytes → Option ℕ → Piece
  unfolding escaped_rune rune_of hex_digits
  go_quote_rune c s none = (codes "\\x" ++ hex_digits 2 c, 0, 0)
  go_quote_rune c s (some k) =
      if is_print (rune_of c s k) then (c ∷ [], k, 0) else (escaped_rune (rune_of c s k), 0, k)

  unfoldable pub go_quote_piece : ℕ → Bytes → Piece
  unfolding go_quote_byte go_quote_rune
  go_quote_piece c s =
      if ltb c 0x80 then (go_quote_byte c, 0, 0) else go_quote_rune c s (more_bytes c s)

  unfoldable pub go_quote_body : Bytes → Bytes
  unfolding go_quote_piece
  go_quote_body s = pieces go_quote_piece 0 0 s

  unfoldable pub go_quote : Bytes → Bytes
  go_quote s = b'"' ∷ go_quote_body s ++ b'"' ∷ []
