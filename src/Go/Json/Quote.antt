-- ===== src/Go/Json/Quote.antt =====
-- The strings of `encoding/json`: `unquote` reads what stands between the quotes of a valid string,
-- `quote` is the encoder's string with its HTML escapes. What is no UTF-8 becomes U+FFFD in both.
use eip.Prelude.{
  drop, ℕ, zero, suc, ◌+◌, ◌-◌, ◌*◌, ◌/◌, ◌%◌, Bool, ◌&&◌, ◌||◌, [], ◌∷◌, ◌++◌, Option, none, some,
  Bytes, codes, ltb, leb, ◌==◌, if◌then◌else◌,
}
use eip.Go.Hex.{hex_digit, hex_value}

-- The UTF-8 bytes of a rune.
unfoldable pub utf8 : ℕ → Bytes
utf8 r =
    if ltb r 0x80
    then r ∷ []
    else if ltb r 0x800
    then (0xc0 + r / 64) ∷ (0x80 + r % 64) ∷ []
    else if ltb r 0x10000
    then (0xe0 + r / 4096) ∷ (0x80 + r / 64 % 64) ∷ (0x80 + r % 64) ∷ []
    else (0xf0 + r / 262144) ∷ (0x80 + r / 4096 % 64) ∷ (0x80 + r / 64 % 64) ∷ (0x80 + r % 64) ∷ []

abbrev replacement : Bytes
replacement = 0xef ∷ 0xbf ∷ 0xbd ∷ []

abbrev within : ℕ → ℕ → ℕ → Bool
within lo hi c = leb lo c && leb c hi

abbrev is_tail : ℕ → Bool
is_tail c = within 0x80 0xbf c

-- The first two bytes of a rune of two, three or four bytes.
abbrev starts_two : ℕ → ℕ → Bool
starts_two a b = within 0xc2 0xdf a && is_tail b

abbrev starts_three : ℕ → ℕ → Bool
starts_three a b =
    (a == 0xe0 && within 0xa0 0xbf b)
    || (a == 0xed && within 0x80 0x9f b)
    || ((within 0xe1 0xec a || within 0xee 0xef a) && is_tail b)

abbrev starts_four : ℕ → ℕ → Bool
starts_four a b =
    (a == 0xf0 && within 0x90 0xbf b)
    || (a == 0xf4 && within 0x80 0x8f b)
    || (within 0xf1 0xf3 a && is_tail b)

-- How many bytes behind the first one belong to its rune, none if they are no UTF-8.
unfoldable pub more_bytes : ℕ → Bytes → Option ℕ
more_bytes a [] = none
more_bytes a (b ∷ []) = if starts_two a b then some 1 else none
more_bytes a (b ∷ c ∷ []) =
    if starts_two a b then some 1 else if starts_three a b && is_tail c then some 2 else none
more_bytes a (b ∷ c ∷ d ∷ s) =
    if starts_two a b
    then some 1
    else if starts_three a b && is_tail c
    then some 2
    else if starts_four a b && is_tail c && is_tail d
    then some 3
    else none

-- What is written for the head of a text, how many bytes behind it are copied, and how many are then
-- left out.
abbrev pub Piece : Type 0
Piece = Bytes × ℕ × ℕ

unfoldable pub hex4 : Bytes → Option ℕ
hex4 (a ∷ b ∷ c ∷ d ∷ s) = elim (hex_value a) [
  | none ↦ none
  | some w ↦ elim (hex_value b) [
    | none ↦ none
    | some x ↦ elim (hex_value c) [
      | none ↦ none
      | some y ↦ elim (hex_value d) [
        | none ↦ none
        | some z ↦ some (((w * 16 + x) * 16 + y) * 16 + z)
      ]
    ]
  ]
]
hex4 _ = none

-- A surrogate with the escape behind it.
unfoldable pub surrogate : ℕ → Option ℕ → Piece
surrogate r none = (replacement, 0, 5)
surrogate r (some r') =
    if within 0xd800 0xdbff r && within 0xdc00 0xdfff r'
    then (utf8 ((r - 0xd800) * 1024 + (r' - 0xdc00) + 0x10000), 0, 11)
    else (replacement, 0, 5)

unfoldable pub next_escape : Bytes → Option ℕ
next_escape (b ∷ u ∷ s) = if b == b'\\' && u == b'u' then hex4 s else none
next_escape _ = none

unfoldable pub rune_escape : Option ℕ → Bytes → Piece
rune_escape none s = ([], 0, 1)
rune_escape (some r) s =
    if within 0xd800 0xdfff r then surrogate r (next_escape (drop 4 s)) else (utf8 r, 0, 5)

abbrev pub plain_escape : ℕ → ℕ
plain_escape e =
    if e == b'b'
    then 8
    else if e == b'f'
    then 12
    else if e == b'n'
    then 10
    else if e == b'r'
    then 13
    else if e == b't'
    then 9
    else e

-- Behind a backslash.
unfoldable pub read_escape : Bytes → Piece
unfolding rune_escape surrogate next_escape hex4
read_escape [] = ([], 0, 0)
read_escape (e ∷ s) = if e == b'u' then rune_escape (hex4 s) s else (plain_escape e ∷ [], 0, 1)

unfoldable pub valid_piece : ℕ → Option ℕ → Piece
valid_piece c none = (replacement, 0, 0)
valid_piece c (some k) = (c ∷ [], k, 0)

unfoldable pub read_piece : ℕ → Bytes → Piece
unfolding read_escape valid_piece
read_piece c s =
    if c == b'\\'
    then read_escape s
    else if ltb c 0x80
    then (c ∷ [], 0, 0)
    else valid_piece c (more_bytes c s)

-- A text piece by piece.
unfoldable pub pieces : (ℕ → Bytes → Piece) → ℕ → ℕ → Bytes → Bytes
pieces piece k n [] = []
pieces piece (suc k) n (c ∷ s) = c ∷ pieces piece k n s
pieces piece zero (suc n) (c ∷ s) = pieces piece zero n s
pieces piece zero zero (c ∷ s) = let (out, k, n) = piece c s in out ++ pieces piece k n s

unfoldable pub unquote : Bytes → Bytes
unfolding pieces read_piece
unquote s = pieces read_piece 0 0 s

-- A byte of ASCII in a string.
unfoldable pub quote_byte : ℕ → Bytes
quote_byte c =
    if c == b'"' || c == b'\\'
    then b'\\' ∷ c ∷ []
    else if c == 8
    then codes "\\b"
    else if c == 12
    then codes "\\f"
    else if c == 10
    then codes "\\n"
    else if c == 13
    then codes "\\r"
    else if c == 9
    then codes "\\t"
    else if ltb c 32 || c == b'<' || c == b'>' || c == b'&'
    then codes "\\u00" ++ hex_digit (c / 16) ∷ hex_digit (c % 16) ∷ []
    else c ∷ []

-- U+2028 and U+2029 are written as escapes.
unfoldable pub quote_rune : ℕ → Bytes → Option ℕ → Piece
quote_rune c s none = (codes "\\ufffd", 0, 0)
quote_rune c (a ∷ b ∷ s) (some k) =
    if c == 0xe2 && a == 0x80 && b == 0xa8
    then (codes "\\u2028", 0, 2)
    else if c == 0xe2 && a == 0x80 && b == 0xa9
    then (codes "\\u2029", 0, 2)
    else (c ∷ [], k, 0)
quote_rune c s (some k) = (c ∷ [], k, 0)

unfoldable pub quote_piece : ℕ → Bytes → Piece
unfolding quote_byte quote_rune
quote_piece c s = if ltb c 0x80 then (quote_byte c, 0, 0) else quote_rune c s (more_bytes c s)

unfoldable pub quote_body : Bytes → Bytes
unfolding pieces quote_piece
quote_body s = pieces quote_piece 0 0 s

unfoldable pub quote : Bytes → Bytes
quote s = b'"' ∷ quote_body s ++ b'"' ∷ []
