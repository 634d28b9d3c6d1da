-- ===== src/Go/Json.antt =====
-- Go's `encoding/json` as the program uses it: `Unmarshal` into a map of raw messages and into a
-- string, and the encoder. A document is read byte by byte by a machine like the scanner of that
-- package; `step` is its part inside one value, with the arrays and objects that are open.
pub mod Quote
pub mod Decode
pub mod Encode
pub mod Text
pub mod Runs
pub mod Spacing
pub mod Values
pub mod ReadBack
pub mod Fitting
pub mod Trimmed
use eip.Prelude.{
  ℕ, zero, suc, Bool, true, false, ◌&&◌, ◌||◌, not, List, [], ◌∷◌, reverse, Option, none, some,
  Bytes, codes, ltb, leb, ◌==◌, if◌then◌else◌, bytes_eq, length,
}
use eip.Outcome.{external, Outcome, ok, err}

abbrev pub is_space : ℕ → Bool
is_space c = c == b' ' || c == b'\t' || c == b'\n' || c == b'\r'

abbrev is_digit : ℕ → Bool
is_digit c = leb b'0' c && leb c b'9'

abbrev is_hex : ℕ → Bool
is_hex c = is_digit c || (leb b'a' c && leb c b'f') || (leb b'A' c && leb c b'F')

-- Inside a string: plain text, behind a backslash, and before the last but `n` of four digits.
pub data StringState : Type 0 where
  plain escape : StringState
  hex : ℕ → StringState

pub data StringStep : Type 0 where
  closes refused : StringStep
  goes : StringState → StringStep

abbrev is_escape : ℕ → Bool
is_escape c =
    c == b'b'
    || c == b'f'
    || c == b'n'
    || c == b'r'
    || c == b't'
    || c == b'\\'
    || c == b'/'
    || c == b'"'

unfoldable pub string_step : StringState → ℕ → StringStep
string_step plain c =
    if c == b'"'
    then closes
    else if c == b'\\'
    then goes escape
    else if ltb c 32
    then refused
    else goes plain
string_step escape c =
    if is_escape c then goes plain else if c == b'u' then goes (hex 3) else refused
string_step (hex zero) c = if is_hex c then goes plain else refused
string_step (hex (suc n)) c = if is_hex c then goes (hex n) else refused

-- Inside a number, by what was read last.
pub data NumberState : Type 0 where
  minus zero_digit digits point fraction exponent sign power : NumberState

unfoldable pub number_step : NumberState → ℕ → Option NumberState
number_step minus c =
    if c == b'0' then some zero_digit else if is_digit c then some digits else none
number_step zero_digit c =
    if c == b'.' then some point else if c == b'e' || c == b'E' then some exponent else none
number_step digits c =
    if is_digit c
    then some digits
    else if c == b'.'
    then some point
    else if c == b'e' || c == b'E'
    then some exponent
    else none
number_step point c = if is_digit c then some fraction else none
number_step fraction c =
    if is_digit c then some fraction else if c == b'e' || c == b'E' then some exponent else none
number_step exponent c =
    if c == b'+' || c == b'-' then some sign else if is_digit c then some power else none
number_step sign c = if is_digit c then some power else none
number_step power c = if is_digit c then some power else none

-- A number may end here.
unfoldable pub is_final : NumberState → Bool
is_final zero_digit = true
is_final digits = true
is_final fraction = true
is_final power = true
is_final _ = false

pub data Frame : Type 0 where
  in_array in_object : Frame

-- What may come next. A string knows whether it is a key, a literal what is left of it.
pub data Mode : Type 0 where
  begin begin_or_close key_or_close key colon after : Mode
  in_string : Bool → StringState → Mode
  in_number : NumberState → Mode
  in_literal : ℕ → Bytes → Mode

abbrev pub State : Type 0
State = Mode × List Frame

-- The arrays and objects of a document may be 10000 deep; one is open around the value.
abbrev pub push : Mode → Frame → List Frame → Option State
push m f stack = if ltb 9998 (length stack) then none else some (m, f ∷ stack)

unfoldable pub begin_step : List Frame → ℕ → Option State
begin_step stack c =
    if is_space c
    then some (begin, stack)
    else if c == b'"'
    then some (in_string false plain, stack)
    else if c == b'-'
    then some (in_number minus, stack)
    else if c == b'0'
    then some (in_number zero_digit, stack)
    else if is_digit c
    then some (in_number digits, stack)
    else if c == b't'
    then some (in_literal b'r' (codes "ue"), stack)
    else if c == b'f'
    then some (in_literal b'a' (codes "lse"), stack)
    else if c == b'n'
    then some (in_literal b'u' (codes "ll"), stack)
    else if c == b'['
    then push begin_or_close in_array stack
    else if c == b'{'
    then push key_or_close in_object stack
    else none

-- Behind a value: nothing more, or a comma or the close of what is open.
unfoldable pub after_step : List Frame → ℕ → Option State
after_step [] c = none
after_step (in_array ∷ stack) c =
    if is_space c
    then some (after, in_array ∷ stack)
    else if c == b','
    then some (begin, in_array ∷ stack)
    else if c == b']'
    then some (after, stack)
    else none
after_step (in_object ∷ stack) c =
    if is_space c
    then some (after, in_object ∷ stack)
    else if c == b','
    then some (key, in_object ∷ stack)
    else if c == b'}'
    then some (after, stack)
    else none

abbrev pop : List Frame → Option State
pop [] = none
pop (f ∷ stack) = some (after, stack)

unfoldable pub in_string_step : Bool → List Frame → StringStep → Option State
in_string_step is_key stack refused = none
in_string_step is_key stack (goes s) = some (in_string is_key s, stack)
in_string_step true stack closes = some (colon, stack)
in_string_step false stack closes = some (after, stack)

unfoldable pub in_number_step : NumberState → List Frame → ℕ → Option NumberState → Option State
in_number_step n stack c (some n') = some (in_number n', stack)
in_number_step n stack c none = if is_final n then after_step stack c else none

unfoldable pub literal_step : List Frame → Bytes → State
literal_step stack [] = (after, stack)
literal_step stack (b ∷ bs) = (in_literal b bs, stack)

unfoldable pub step : State → ℕ → Option State
step (begin, stack) c = begin_step stack c
step (begin_or_close, stack) c =
    if is_space c
    then some (begin_or_close, stack)
    else if c == b']'
    then pop stack
    else begin_step stack c
step (key_or_close, stack) c =
    if is_space c
    then some (key_or_close, stack)
    else if c == b'"'
    then some (in_string true plain, stack)
    else if c == b'}'
    then pop stack
    else none
step (key, stack) c =
    if is_space c
    then some (key, stack)
    else if c == b'"'
    then some (in_string true plain, stack)
    else none
step (colon, stack) c =
    if is_space c then some (colon, stack) else if c == b':' then some (begin, stack) else none
step (after, stack) c = after_step stack c
step (in_string is_key s, stack) c = in_string_step is_key stack (string_step s c)
step (in_number n, stack) c = in_number_step n stack c (number_step n c)
step (in_literal b bs, stack) c = if c == b then some (literal_step stack bs) else none

-- A whole value was read.
unfoldable pub is_complete : State → Bool
is_complete (after, []) = true
is_complete (in_number n, []) = is_final n
is_complete _ = false
