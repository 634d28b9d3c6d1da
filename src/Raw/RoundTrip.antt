-- ===== src/Raw/RoundTrip.antt =====
-- What the encoder writes for a text, an integer, an address or a hash is read back.
use eip.Prelude.{
  bytes_eq, ℕ, suc, ◌%◌, ◌^◌, ◌≤◌, ◌<◌, ◌≡◌, refl, ap, ◌∙◌, false, [], ◌∷◌, ◌++◌, some, arith,
  Bytes, codes, ◌==◌, All, length, ℤ, pos, negsuc,
}
use eip.Outcome.{ok}
use eip.Types.{Address, Hash}
use eip.Ethereum.{Ethereum}
use eip.Ethereum.Laws.{EthereumLaws, IsArray}
use eip.Go.Strings.{trim_space, has_prefix, trim_prefix}
use eip.Go.Strings.Trim.{IsVisible, trim_space-visible, trim_space-ends}
use eip.Go.Big.{digits, to_string, set_string, is_uint64, uint64}
use eip.Go.Big.Decimal.{IsDigit, digits-IsDigit, digits-cons, set_string-to_string}
use eip.Go.Hex.{hex_digit, encode_to_string}
use eip.Go.Hex.RoundTrip.{
  decode_string-encode_to_string, encode_to_string-IsVisible, length-encode_to_string,
}
use eip.Go.Json.{plain}
use eip.Go.Json.Quote.{quote, quote_body, unquote}
use eip.Go.Json.Decode.{inside, ended, inside_step, string_read_step, string_of, unmarshal_string}
use eip.Go.Json.{string_step}
use eip.Go.Json.Text.{stays, IsAscii, stays-quote_body, unquote-quote_body}
use eip.Go.Json.Runs.{run-append, run-cons, run-stays, onto, reverse-onto}
use eip.Raw.{
  text_of, parse_trimmed, parse_string_like, parse_optional_string, digits_of, big_of,
  parse_big_int, uint64_of, parse_uint64, decode_hex, address_of, parse_address, hash_of,
  parse_hash,
}

pub visible-IsAscii : (s : Bytes) → All IsVisible s → All IsAscii s
visible-IsAscii [] h = tt
visible-IsAscii (c ∷ s) h = (h.0.1, visible-IsAscii s h.1)

-- A string is read where the scanner stays inside of it: the decoder ends it at its quote.
unmarshal_string-body :
    (body s : Bytes)
    → stays plain body ≡ some plain
    → unquote body ≡ s
    → unmarshal_string (body ++ b'"' ∷ []) ≡ ok s
unfolding unmarshal_string string_of string_read_step inside_step string_step
unmarshal_string-body body s inner spelled =
    rw
      (run-append string_read_step (inside plain []) (inside plain (onto body [])) body (b'"' ∷ [])
          (run-stays string_read_step inside (λ st st' read c e. rw e refl) plain plain [] body
            inner)
        ∙ run-cons string_read_step (inside plain (onto body [])) (ended s) b'"' []
            (ap (λ (u : Bytes). some (ended u)) (ap unquote (reverse-onto body []) ∙ spelled)))
      refl

pub parse_string_like-body :
    (body s : Bytes)
    → stays plain body ≡ some plain
    → unquote body ≡ s
    → parse_string_like (b'"' ∷ (body ++ b'"' ∷ [])) ≡ ok (trim_space s)
unfolding parse_string_like parse_trimmed text_of bytes_eq
parse_string_like-body body s inner spelled =
    rw
      (
        parse_string_like,
        (trim_space-ends b'"' b'"' body (omega arith) (omega arith)).0,
        unmarshal_string-body body s inner spelled,
      )
      refl

pub parse_string_like-quote :
    (s : Bytes) → All IsAscii s → parse_string_like (quote s) ≡ ok (trim_space s)
unfolding quote
parse_string_like-quote s h =
    parse_string_like-body (quote_body s) s (stays-quote_body s h) (unquote-quote_body s h)

pub parse_optional_string-quote :
    (s : Bytes) → All IsAscii s → parse_optional_string (quote s) ≡ ok (trim_space s)
unfolding parse_optional_string quote
parse_optional_string-quote s h = parse_string_like-quote s h

parse_string_like-visible : (s : Bytes) → All IsVisible s → parse_string_like (quote s) ≡ ok s
parse_string_like-visible s h =
    parse_string_like-quote s (visible-IsAscii s h) ∙ ap ok (trim_space-visible s h)

-- Decimal digits have no prefix of base 16.
digits-IsVisible : (s : Bytes) → All IsDigit s → All IsVisible s
digits-IsVisible [] h = tt
digits-IsVisible (c ∷ s) h = (omega (arith, h.0), digits-IsVisible s h.1)

digits-prefix :
    (s : Bytes) (x : ℕ) → All IsDigit s → b'A' ≤ x → has_prefix s (b'0' ∷ x ∷ []) ≡ false
unfolding has_prefix
digits-prefix [] x h k = refl
digits-prefix (c ∷ []) x h k = ground arith
digits-prefix (c ∷ d ∷ s) x h k = ground arith

big_of-digits : (n : ℕ) → big_of (digits n) ≡ ok (pos n)
unfolding big_of digits_of to_string
big_of-digits n =
    let (c, s, e) = digits-cons n in
    let all : All IsDigit (c ∷ s) = rw e at (digits-IsDigit n) in
    let read : set_string 10 (c ∷ s) ≡ some (pos n) = rw e at (set_string-to_string (pos n)) in
    rw
      (
        e,
        digits-prefix (c ∷ s) b'x' all (omega arith),
        digits-prefix (c ∷ s) b'X' all (omega arith),
        read,
      )
      refl

big_of-to_string : (x : ℤ) → big_of (to_string x) ≡ ok x
unfolding big_of digits_of has_prefix
big_of-to_string (pos n) = unfold to_string in big_of-digits n
big_of-to_string (negsuc n) =
    let read = set_string-to_string (negsuc n) in unfold to_string in rw read refl

to_string-IsVisible : (x : ℤ) → All IsVisible (to_string x)
unfolding to_string
to_string-IsVisible (pos n) = digits-IsVisible (digits n) (digits-IsDigit n)
to_string-IsVisible (negsuc n) =
    (omega arith, digits-IsVisible (digits (suc n)) (digits-IsDigit (suc n)))

pub to_string-IsAscii : (x : ℤ) → All IsAscii (to_string x)
to_string-IsAscii x = visible-IsAscii (to_string x) (to_string-IsVisible x)

pub parse_big_int-quote : (x : ℤ) → parse_big_int (quote (to_string x)) ≡ ok x
unfolding parse_big_int
parse_big_int-quote x =
    rw (parse_string_like-visible (to_string x) (to_string-IsVisible x)) (big_of-to_string x)

uint64_of-pos : (n : ℕ) → n < 2 ^ 64 → uint64_of (pos n) ≡ ok n
unfolding uint64_of is_uint64 uint64
uint64_of-pos n h = ground arith

pub parse_uint64-quote : (n : ℕ) → n < 2 ^ 64 → parse_uint64 (quote (digits n)) ≡ ok n
unfolding parse_uint64 to_string
parse_uint64-quote n h = rw (parse_big_int-quote (pos n)) (uint64_of-pos n h)

-- A number stands in the document without quotes.
not_null : (c : ℕ) (s : Bytes) → IsDigit c → parse_trimmed (c ∷ s) ≡ ok (c ∷ s)
unfolding parse_trimmed text_of bytes_eq
not_null c [] h = ground arith
not_null c (d ∷ s) h = ground arith

parse_string_like-digits : (n : ℕ) → parse_string_like (digits n) ≡ ok (digits n)
unfolding parse_string_like
parse_string_like-digits n =
    let (c, s, e) = digits-cons n in
    let all : All IsDigit (c ∷ s) = rw e at (digits-IsDigit n) in
    rw (e, trim_space-visible (c ∷ s) (digits-IsVisible (c ∷ s) all)) (not_null c s all.0)

pub parse_uint64-digits : (n : ℕ) → n < 2 ^ 64 → parse_uint64 (digits n) ≡ ok n
unfolding parse_uint64 parse_big_int
parse_uint64-digits n h = rw (parse_string_like-digits n, big_of-digits n) (uint64_of-pos n h)

-- The bytes of a hash, behind 0x.
hex_prefix :
    (b : Bytes) → All (λ c. c < 256) b → has_prefix (encode_to_string b) (codes "0X") ≡ false
unfolding has_prefix encode_to_string hex_digit
hex_prefix [] h = refl
hex_prefix (c ∷ s) h = ground (arith, h.0)

hex-IsVisible :
    (b : Bytes) → All (λ c. c < 256) b → All IsVisible (codes "0x" ++ encode_to_string b)
hex-IsVisible b h = (omega arith, (omega arith, encode_to_string-IsVisible b h))

pub hex-IsAscii :
    (b : Bytes) → All (λ c. c < 256) b → All IsAscii (codes "0x" ++ encode_to_string b)
hex-IsAscii b h = visible-IsAscii (codes "0x" ++ encode_to_string b) (hex-IsVisible b h)

even_length : (b : Bytes) → (length (encode_to_string b) % 2 == 1) ≡ false
even_length b = ground (arith, length-encode_to_string b)

pub decode_hex-encode :
    (b : Bytes) → All (λ c. c < 256) b → decode_hex (codes "0x" ++ encode_to_string b) ≡ ok b
unfolding decode_hex trim_prefix has_prefix
decode_hex-encode b h =
    rw
      (
        decode_hex,
        trim_space-visible (codes "0x" ++ encode_to_string b) (hex-IsVisible b h),
        trim_prefix,
        hex_prefix b h,
        even_length b,
      )
      (decode_string-encode_to_string b h)

module _ (eth : Ethereum) (laws : EthereumLaws eth) where
  pub address_hex-IsAscii : (a : Address) → IsArray 20 a → All IsAscii (eth.address_hex a)
  address_hex-IsAscii a h = visible-IsAscii (eth.address_hex a) (laws.address_hex-IsVisible a h)

  pub parse_address-quote :
      (a : Address) → IsArray 20 a → parse_address eth (quote (eth.address_hex a)) ≡ ok a
  unfolding parse_address address_of
  parse_address-quote a h = rw (
    parse_string_like-visible (eth.address_hex a) (laws.address_hex-IsVisible a h),
    laws.is_hex_address-address_hex a h,
    laws.hex_to_address-address_hex a h,
  )

  pub hash_hex-IsAscii : (a : Hash) → IsArray 32 a → All IsAscii (eth.hash_hex a)
  hash_hex-IsAscii a h = rw (laws.hash_hex-digits a h) (hex-IsAscii a h.1)

  hash_of-hex : (a : Hash) → IsArray 32 a → hash_of eth (eth.hash_hex a) ≡ ok a
  unfolding hash_of
  hash_of-hex a h =
      let decoded : decode_hex (eth.hash_hex a) ≡ ok a =
        ap decode_hex (laws.hash_hex-digits a h) ∙ decode_hex-encode a h.1 in
      rw (decoded, h.0, laws.hex_to_hash-hash_hex a h)

  pub parse_hash-quote : (a : Hash) → IsArray 32 a → parse_hash eth (quote (eth.hash_hex a)) ≡ ok a
  unfolding parse_hash
  parse_hash-quote a h =
      let visible : All IsVisible (eth.hash_hex a) =
        rw (laws.hash_hex-digits a h) (hex-IsVisible a h.1) in
      rw (parse_string_like-visible (eth.hash_hex a) visible) (hash_of-hex a h)
