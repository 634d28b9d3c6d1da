-- ===== src/Go/Json/Decode.antt =====
-- `json.Unmarshal` into a `map[string]json.RawMessage` and into a string.
use eip.Prelude.{
  ℕ, List, [], ◌∷◌, reverse, Option, none, some, Bytes, codes, ◌==◌, if◌then◌else◌, bytes_eq,
}
use eip.Outcome.{external, Outcome, ok, err}
use eip.Go.Json.{
  is_space, StringState, plain, StringStep, closes, refused, goes, string_step, State, begin, step,
  is_complete,
}
use eip.Go.Json.Quote.{unquote}

-- The keys with the texts of their values, the last one first.
abbrev pub Members : Type 0
Members = List (Bytes × Bytes)

-- `data[key]` with its second result: the last value of a key counts.
unfoldable pub lookup : Bytes → Members → Option Bytes
lookup key [] = none
lookup key ((k, raw) ∷ members) = if bytes_eq k key then some raw else lookup key members

-- What may come next of an object, or of `null`. Texts that are being read are kept backwards.
pub data Phase : Type 0 where
  start first_key next_key after_member closed : Phase
  in_null : Bytes → Phase
  in_key : StringState → Bytes → Phase
  before_colon before_value : Bytes → Phase
  in_value : Bytes → State → Bytes → Phase

abbrev pub Reader : Type 0
Reader = Phase × Members

unfoldable pub null_step : Bytes → Members → ℕ → Option Reader
null_step [] members c = none
null_step (b ∷ []) members c = if c == b then some (closed, members) else none
null_step (b ∷ bs) members c = if c == b then some (in_null bs, members) else none

unfoldable pub key_step : Bytes → ℕ → Members → StringStep → Option Reader
key_step read c members refused = none
key_step read c members (goes s) = some (in_key s (c ∷ read), members)
key_step read c members closes = some (before_colon (unquote (reverse read)), members)

unfoldable pub member_step : Members → ℕ → Option Reader
member_step members c =
    if is_space c
    then some (after_member, members)
    else if c == b','
    then some (next_key, members)
    else if c == b'}'
    then some (closed, members)
    else none

unfoldable pub value_step : Bytes → State → Bytes → Members → ℕ → Option State → Option Reader
value_step k s read members c (some s') = some (in_value k s' (c ∷ read), members)
value_step k s read members c none =
    if is_complete s then member_step ((k, reverse read) ∷ members) c else none

unfoldable pub first_step : Bytes → Members → ℕ → Option State → Option Reader
first_step k members c (some s) = some (in_value k s (c ∷ []), members)
first_step k members c none = none

unfoldable pub read_step : Reader → ℕ → Option Reader
read_step (start, members) c =
    if is_space c
    then some (start, members)
    else if c == b'{'
    then some (first_key, members)
    else if c == b'n'
    then some (in_null (codes "ull"), members)
    else none
read_step (first_key, members) c =
    if is_space c
    then some (first_key, members)
    else if c == b'"'
    then some (in_key plain [], members)
    else if c == b'}'
    then some (closed, members)
    else none
read_step (next_key, members) c =
    if is_space c
    then some (next_key, members)
    else if c == b'"'
    then some (in_key plain [], members)
    else none
read_step (in_key s read, members) c = key_step read c members (string_step s c)
read_step (before_colon k, members) c =
    if is_space c
    then some (before_colon k, members)
    else if c == b':'
    then some (before_value k, members)
    else none
read_step (before_value k, members) c =
    if is_space c
    then some (before_value k, members)
    else first_step k members c (step (begin, []) c)
read_step (in_value k s read, members) c = value_step k s read members c (step s c)
read_step (after_member, members) c = member_step members c
read_step (in_null bs, members) c = null_step bs members c
read_step (closed, members) c = if is_space c then some (closed, members) else none

module _ {S : Type 0} (move : S → ℕ → Option S) where
  -- A machine on a text.
  unfoldable pub run : S → Bytes → Option S
  run s [] = some s
  run s (c ∷ cs) = elim (move s c) [ none ↦ none | some s' ↦ run s' cs ]

unfoldable pub members_of : Bytes → Option Reader → Outcome Members
members_of text (some (closed, members)) = ok members
members_of text _ = err (external text)

-- json.Unmarshal(text, &m) on a nil map, which stays nil at `null`
unfoldable pub unmarshal_object : Bytes → Outcome Members
unfolding run read_step
unmarshal_object text = members_of text (run read_step (start, []) text)

-- The text behind the opening quote of a string.
pub data StringReader : Type 0 where
  inside : StringState → Bytes → StringReader
  ended : Bytes → StringReader

unfoldable pub inside_step : Bytes → ℕ → StringStep → Option StringReader
inside_step read c refused = none
inside_step read c (goes s) = some (inside s (c ∷ read))
inside_step read c closes = some (ended (unquote (reverse read)))

unfoldable pub string_read_step : StringReader → ℕ → Option StringReader
string_read_step (inside s read) c = inside_step read c (string_step s c)
string_read_step (ended s) c = if is_space c then some (ended s) else none

unfoldable pub string_of : Bytes → Option StringReader → Outcome Bytes
string_of text (some (ended s)) = ok s
string_of text _ = err (external text)

-- json.Unmarshal(text, &s) of a text whose first byte is a quote; `rest` is what follows it.
unfoldable pub unmarshal_string : Bytes → Outcome Bytes
unfolding run string_read_step
unmarshal_string rest = string_of rest (run string_read_step (inside plain []) rest)
