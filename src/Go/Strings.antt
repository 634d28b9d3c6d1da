-- ===== src/Go/Strings.antt =====
-- Go's `strings` on byte texts. `strings.TrimSpace` drops Unicode white space: besides the six
-- ASCII spaces these are U+0085, U+00A0, U+1680, U+2000 to U+200A, U+2028, U+2029, U+202F, U+205F and
-- U+3000, whose UTF-8 bytes are tested here. `strings.ToLower` is written out on ASCII and on the two
-- other runes that it maps into ASCII (U+0130 and U+212A); it leaves all other bytes here, which no
-- comparison with an ASCII text can tell.
pub mod Trim
use eip.Prelude.{
  ℕ, zero, suc, ◌+◌, Bool, true, false, ◌&&◌, ◌||◌, List, [], ◌∷◌, ◌++◌, reverse, Option, none,
  some, Bytes, leb, ◌==◌, if◌then◌else◌, drop, length, replicate, ℤ, pos, negsuc,
}
use eip.Outcome.{Outcome, ok, panic}

unfoldable pub is_space : ℕ → Bool
is_space c = (leb 9 c && leb c 13) || c == 32

unfoldable pub is_space₂ : ℕ → ℕ → Bool
is_space₂ a b = a == 0xc2 && (b == 0x85 || b == 0xa0)

unfoldable pub is_space₃ : ℕ → ℕ → ℕ → Bool
is_space₃ a b c =
    (a == 0xe1 && b == 0x9a && c == 0x80)
    || (a == 0xe2
        && b == 0x80
        && ((leb 0x80 c && leb c 0x8a) || c == 0xa8 || c == 0xa9 || c == 0xaf))
    || (a == 0xe2 && b == 0x81 && c == 0x9f)
    || (a == 0xe3 && b == 0x80 && c == 0x80)

-- How many bytes the white space at the head of a text takes; 0 if there is none.
unfoldable pub first_width : Bytes → ℕ
unfolding is_space is_space₂ is_space₃
first_width [] = 0
first_width (a ∷ []) = if is_space a then 1 else 0
first_width (a ∷ b ∷ []) = if is_space a then 1 else if is_space₂ a b then 2 else 0
first_width (a ∷ b ∷ c ∷ s) =
    if is_space a then 1 else if is_space₂ a b then 2 else if is_space₃ a b c then 3 else 0

-- The same for a text that is read from its end.
unfoldable pub last_width : Bytes → ℕ
unfolding is_space is_space₂ is_space₃
last_width [] = 0
last_width (a ∷ []) = if is_space a then 1 else 0
last_width (b ∷ a ∷ []) = if is_space b then 1 else if is_space₂ a b then 2 else 0
last_width (c ∷ b ∷ a ∷ s) =
    if is_space c then 1 else if is_space₂ b c then 2 else if is_space₃ a b c then 3 else 0

-- Drop `n` bytes, and then white space for as long as there is some.
unfoldable pub trim_from : (Bytes → ℕ) → ℕ → Bytes → Bytes
trim_from width n [] = []
trim_from width (suc n) (c ∷ s) = trim_from width n s
trim_from width zero (c ∷ s) = elim (width (c ∷ s)) [ zero ↦ c ∷ s | suc n ↦ trim_from width n s ]

-- strings.TrimSpace, bytes.TrimSpace
unfoldable pub trim_space : Bytes → Bytes
unfolding trim_from first_width last_width
trim_space s = reverse (trim_from last_width 0 (reverse (trim_from first_width 0 s)))

-- strings.HasPrefix
unfoldable pub has_prefix : Bytes → Bytes → Bool
has_prefix s [] = true
has_prefix [] (p ∷ ps) = false
has_prefix (c ∷ s) (p ∷ ps) = c == p && has_prefix s ps

-- strings.TrimPrefix
unfoldable pub trim_prefix : Bytes → Bytes → Bytes
unfolding has_prefix
trim_prefix s p = if has_prefix s p then drop (length p) s else s

-- strings.Count of a separator of one byte
unfoldable pub count : Bytes → ℕ → ℕ
count [] sep = 0
count (c ∷ s) sep = let rest = count s sep in if c == sep then suc rest else rest

-- What stands before and behind the first separator.
unfoldable pub cut : Bytes → ℕ → Option (Bytes × Bytes)
cut [] sep = none
cut (c ∷ s) sep =
    if c == sep
    then some ([], s)
    else elim (cut s sep) [ none ↦ none | some (a, b) ↦ some (c ∷ a, b) ]

-- strings.SplitN(s, sep, 2): one part, or two
unfoldable pub split_two : Bytes → ℕ → List Bytes
unfolding cut
split_two s sep = elim (cut s sep) [ none ↦ s ∷ [] | some (a, b) ↦ a ∷ b ∷ [] ]

-- strings.TrimRight with a set of one byte, on a text that is read from its end
unfoldable pub drop_all : ℕ → Bytes → Bytes
drop_all b [] = []
drop_all b (c ∷ s) = let rest = drop_all b s in if c == b then rest else c ∷ s

-- strings.TrimRight with a set of one byte
unfoldable pub trim_right : Bytes → ℕ → Bytes
unfolding drop_all
trim_right s b = reverse (drop_all b (reverse s))

-- strings.Repeat of a text of one byte: it panics if the count is negative
unfoldable pub repeat : ℕ → ℤ → Outcome Bytes
repeat b (pos n) = ok (replicate n b)
repeat b (negsuc n) = panic

-- The lower case of the rune at the head, if that is ASCII, and how many more bytes it took.
unfoldable pub lower_rune : ℕ → Bytes → ℕ × ℕ
lower_rune c [] = if leb b'A' c && leb c b'Z' then (c + 32, 0) else (c, 0)
lower_rune c (d ∷ []) =
    if leb b'A' c && leb c b'Z'
    then (c + 32, 0)
    else if c == 0xc4 && d == 0xb0
    then (b'i', 1)
    else (c, 0)
lower_rune c (d ∷ e ∷ s) =
    if leb b'A' c && leb c b'Z'
    then (c + 32, 0)
    else if c == 0xc4 && d == 0xb0
    then (b'i', 1)
    else if c == 0xe2 && d == 0x84 && e == 0xaa
    then (b'k', 2)
    else (c, 0)

unfoldable pub lower_from : ℕ → Bytes → Bytes
unfolding lower_rune
lower_from n [] = []
lower_from (suc n) (c ∷ s) = lower_from n s
lower_from zero (c ∷ s) = let (d, n) = lower_rune c s in d ∷ lower_from n s

-- strings.ToLower
unfoldable pub to_lower : Bytes → Bytes
unfolding lower_from
to_lower s = lower_from 0 s
