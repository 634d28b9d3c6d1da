-- ===== src/Objects/SignaturePart.antt =====
-- The object of a signature is read back.
use eip.Prelude.{ℕ, ◌%◌, ◌<◌, ◌≡◌, refl, [], ◌∷◌, ◌++◌, some, arith, codes, All, bytes_eq, le→ltb}
use eip.Outcome.{ok, ◌>>=◌}
use eip.Types.{Signature}
use eip.Ethereum.{Ethereum}
use eip.Ethereum.Laws.{EthereumLaws, IsArray}
use eip.Go.Hex.{encode_to_string}
use eip.Go.Json.Decode.{lookup, unmarshal_object}
use eip.Go.Json.Encode.{
  text, number, object, Fields, end, field, Layout, before, insert, sort, print,
}
use eip.Go.Json.Spacing.{FitsFields}
use eip.Go.Json.ReadBack.{read_back, unmarshal-print}
use eip.Signing.{signature_bytes}
use eip.Go.Strings.{trim_space}
use eip.Prelude.{All-append}
use eip.Message.{signature_of}
use eip.Go.Json.Trimmed.{print-braces, trim_space-print}
use eip.Raw.{get}
use eip.Raw.RoundTrip.{parse_uint64-digits, parse_hash-quote, hash_hex-IsAscii, hex-IsAscii}
use eip.Message.{signature_of_object, parse_signature}
use eip.Objects.{signature_object}

pub record SignaturePrints (sig : Signature) : Type 0 where
  pub v-lt : sig.v < 256
  pub r-IsArray : IsArray 32 sig.r
  pub s-IsArray : IsArray 32 sig.s

module _ (eth : Ethereum) (laws : EthereumLaws eth) where
  -- The keys in the encoder's order.
  abbrev pub signature_sorted : Signature → Fields
  signature_sorted sig = field (codes "r") (text (eth.hash_hex sig.r)) (
      field (codes "s") (text (eth.hash_hex sig.s)) (
        field (codes "signature") (text (codes "0x" ++ encode_to_string (signature_bytes sig)))
          (field (codes "v") (number sig.v) end)))

  pub signature_object-sorted :
      (sig : Signature) → sort (signature_object eth sig) ≡ object (signature_sorted sig)
  unfolding sort insert before signature_object
  signature_object-sorted sig = refl

  signature_bytes-All :
      (sig : Signature) → SignaturePrints sig → All (λ c. c < 256) (signature_bytes sig)
  unfolding signature_bytes
  signature_bytes-All sig h =
      All-append (λ c. c < 256) (sig.r ++ sig.s) (sig.v ∷ [])
        (All-append (λ c. c < 256) sig.r sig.s h.r-IsArray.1 h.s-IsArray.1) (h.v-lt, tt)

  pub signature_sorted-FitsFields :
      (r : ℕ) (sig : Signature) → SignaturePrints sig → FitsFields r (signature_sorted sig)
  unfolding FitsFields
  signature_sorted-FitsFields r sig h = (
    omega arith,
    hash_hex-IsAscii eth laws sig.r h.r-IsArray,
    (
      omega arith,
      hash_hex-IsAscii eth laws sig.s h.s-IsArray,
      (
        omega arith,
        hex-IsAscii (signature_bytes sig) (signature_bytes-All sig h),
        (omega arith, tt, tt),
      ),
    ),
  )

  signature_of-read :
      (l : Layout) (n : ℕ) (sig : Signature)
      → SignaturePrints sig
      → signature_of_object eth (read_back l n (signature_sorted sig) []) ≡ ok (some sig)
  unfolding signature_of_object get lookup bytes_eq print
  signature_of-read l n sig h =
      let in_byte : sig.v % 256 ≡ sig.v = let lt = h.v-lt in omega arith in
      rw (
        parse_uint64-digits sig.v (let lt = h.v-lt in omega arith),
        parse_hash-quote eth laws sig.r h.r-IsArray,
        parse_hash-quote eth laws sig.s h.s-IsArray,
        le→ltb 255 sig.v (let lt = h.v-lt in omega arith),
        in_byte,
      )

  -- An object is taken for an object.
  as_object :
      (l : Layout) (n : ℕ) (fs : Fields)
      → parse_signature eth (print l n (object fs))
        ≡ (unmarshal_object (print l n (object fs)) >>= signature_of_object eth)
  unfolding parse_signature signature_of bytes_eq
  as_object l n fs =
      let (t, e) = print-braces l n fs in
      let same = (trim_space-print l n fs).0 in
      let same_text : trim_space (b'{' ∷ (t ++ b'}' ∷ [])) ≡ b'{' ∷ (t ++ b'}' ∷ []) =
        rw e at same in
      rw (e, same_text) refl

  pub parse_signature-print :
      (l : Layout) (n : ℕ) (sig : Signature)
      → SignaturePrints sig
      → parse_signature eth (print l n (sort (signature_object eth sig))) ≡ ok (some sig)
  parse_signature-print l n sig h =
      rw
        (
          signature_object-sorted sig,
          as_object l n (signature_sorted sig),
          unmarshal-print l 0 n (signature_sorted sig) (signature_sorted-FitsFields 0 sig h)
              (omega arith),
        )
        (signature_of-read l n sig h)
