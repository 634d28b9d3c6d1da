-- ===== src/Values/Plain.antt =====
-- A value of printable ASCII is read as itself.
use eip.Prelude.{ℕ, ◌≤◌, ◌≡◌, refl, Bool, [], ◌∷◌, ◌++◌, some, arith, Bytes, All, lt→ltb}
use eip.Outcome.{ok}
use eip.Ethereum.{Ethereum}
use eip.Go.Strings.{trim_space}
use eip.Go.Json.{plain, string_step}
use eip.Go.Json.Quote.{pieces, unquote}
use eip.Go.Json.Text.{stays, unquote-plain, unquote-escape}
use eip.Go.Strconv.{go_quote_byte, go_quote_piece, go_quote_body, go_quote}
use eip.Raw.{
  parse_string_like, parse_address, parse_hash, parse_big_int, parse_uint64, address_of, hash_of,
  big_of, uint64_of,
}
use eip.Raw.RoundTrip.{parse_string_like-body}
use eip.Values.{
  must_raw_string, parse_address_value, parse_hash_value, parse_big_int_value, parse_uint64_value,
}
use eip.Outcome.{◌>>=◌}

abbrev pub IsPrintable : ℕ → Type 0
IsPrintable c = (32 ≤ c) × (c ≤ 126)

go_quote_byte-unquote :
    (c : ℕ) (t : Bytes) → IsPrintable c → unquote (go_quote_byte c ++ t) ≡ c ∷ unquote t
unfolding go_quote_byte
go_quote_byte-unquote c t h = ground (arith, unquote-plain c t (omega arith), unquote-escape c t)

go_quote_byte-stays :
    (c : ℕ) (t : Bytes) → IsPrintable c → stays plain (go_quote_byte c ++ t) ≡ stays plain t
unfolding go_quote_byte stays string_step
go_quote_byte-stays c t h = ground arith

module _ (is_print : ℕ → Bool) where
  go_quote_body-cons :
      (c : ℕ) (s : Bytes)
      → IsPrintable c
      → go_quote_body is_print (c ∷ s) ≡ go_quote_byte c ++ go_quote_body is_print s
  unfolding go_quote_body pieces go_quote_piece
  go_quote_body-cons c s h = rw (lt→ltb c 128 (omega arith)) refl

  go_quote_body-unquote : (s : Bytes) → All IsPrintable s → unquote (go_quote_body is_print s) ≡ s
  go_quote_body-unquote [] h = unfold go_quote_body pieces unquote in refl
  go_quote_body-unquote (c ∷ s) h = rw (
    go_quote_body-cons c s h.0,
    go_quote_byte-unquote c (go_quote_body is_print s) h.0,
    go_quote_body-unquote s h.1,
  )

  go_quote_body-stays :
      (s : Bytes) → All IsPrintable s → stays plain (go_quote_body is_print s) ≡ some plain
  go_quote_body-stays [] h = unfold go_quote_body pieces stays in refl
  go_quote_body-stays (c ∷ s) h =
      rw (go_quote_body-cons c s h.0, go_quote_byte-stays c (go_quote_body is_print s) h.0)
        (go_quote_body-stays s h.1)

  must_raw-read :
      (s : Bytes)
      → All IsPrintable s
      → parse_string_like (must_raw_string is_print s) ≡ ok (trim_space s)
  unfolding must_raw_string go_quote
  must_raw-read s h =
      parse_string_like-body (go_quote_body is_print s) s (go_quote_body-stays s h)
        (go_quote_body-unquote s h)

  -- A flag's value of printable ASCII is read as the text that it is, without the white space around it:
  -- as an address, as a hash, as an integer and as a uint64.
  pub parse_value-plain :
      (eth : Ethereum) (s : Bytes)
      → All IsPrintable s
      → (parse_address_value is_print eth s ≡ address_of eth (trim_space s))
        × (parse_hash_value is_print eth s ≡ hash_of eth (trim_space s))
        × (parse_big_int_value is_print s ≡ big_of (trim_space s))
        × (parse_uint64_value is_print s ≡ (big_of (trim_space s) >>= uint64_of))
  unfolding parse_address_value parse_hash_value parse_big_int_value parse_uint64_value
      parse_address parse_hash parse_big_int parse_uint64
  parse_value-plain eth s h =
      let read = must_raw-read s h in (rw read refl, rw read refl, rw read refl, rw read refl)
