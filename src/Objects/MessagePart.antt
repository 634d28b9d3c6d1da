-- ===== src/Objects/MessagePart.antt =====
-- The object of the message is read back.
use eip.Prelude.{ℕ, ◌^◌, ◌<◌, ◌≡◌, refl, [], some, Option, arith, codes, All, ℤ, pos, bytes_eq}
use eip.Outcome.{ok, ◌>>=◌}
use eip.Types.{Authorization, zero_address, AuthorizationKind, transfer, receive, cancel, other}
use eip.Ethereum.{Ethereum}
use eip.Ethereum.Laws.{EthereumLaws, IsArray}
use eip.Eip712.Fields.{IsKnown}
use eip.Go.Big.{digits, to_string}
use eip.Go.Json.Text.{IsAscii}
use eip.Go.Json.Decode.{lookup, unmarshal_object}
use eip.Go.Json.Encode.{text, object, Fields, end, field, Layout, before, insert, sort, print}
use eip.Go.Json.Spacing.{FitsFields}
use eip.Go.Json.ReadBack.{read_back, unmarshal-print}
use eip.Calldata.RoundTrip.{carried}
use eip.Raw.{get, first_raw}
use eip.Raw.RoundTrip.{
  parse_big_int-quote, parse_uint64-quote, parse_address-quote, parse_hash-quote, to_string-IsAscii,
  address_hex-IsAscii, hash_hex-IsAscii,
}
use eip.Message.{cancel_of, transfer_of, fields_of, authorization_of, parse_authorization}
use eip.Objects.{integer_text, cancel_message, transfer_message, message_fields}
use eip.Objects.DomainPart.{or_zero, integer_text-or_zero}

-- An authorization that can be printed, and what is read back of it.
pub record TransferPrints (a : Authorization) : Type 0 where
  pub from-IsArray : IsArray 20 a.from
  pub to-IsArray : IsArray 20 a.to
  pub valid_after-lt : a.valid_after < 2 ^ 64
  pub valid_before-lt : a.valid_before < 2 ^ 64
  pub nonce-IsArray : IsArray 32 a.nonce

abbrev pub MessagePrints : AuthorizationKind → Authorization → Type 0
MessagePrints cancel a = IsArray 20 a.authorizer × IsArray 32 a.nonce
MessagePrints _ a = TransferPrints a

abbrev pub message_read : AuthorizationKind → Authorization → Authorization
message_read cancel a = carried cancel a
message_read k a = record (carried k a) { value = some (or_zero a.value) }

module _ (eth : Ethereum) (laws : EthereumLaws eth) where
  -- The keys in the encoder's order.
  abbrev pub message_sorted : AuthorizationKind → Authorization → Fields
  message_sorted cancel a =
      field (codes "authorizer") (text (eth.address_hex a.authorizer))
        (field (codes "nonce") (text (eth.hash_hex a.nonce)) end)
  message_sorted _ a = field (codes "from") (text (eth.address_hex a.from)) (
      field (codes "nonce") (text (eth.hash_hex a.nonce)) (
        field (codes "to") (text (eth.address_hex a.to)) (
          field (codes "validAfter") (text (digits a.valid_after)) (
            field (codes "validBefore") (text (digits a.valid_before))
              (field (codes "value") (text (integer_text a.value)) end)))))

  pub message_fields-sorted :
      (k : AuthorizationKind) (a : Authorization)
      → sort (object (message_fields eth k a)) ≡ object (message_sorted k a)
  unfolding sort insert before message_fields cancel_message transfer_message
  message_fields-sorted transfer a = refl
  message_fields-sorted receive a = refl
  message_fields-sorted cancel a = refl
  message_fields-sorted (other t) a = refl

  integer_text-IsAscii : (x : Option ℤ) → All IsAscii (integer_text x)
  integer_text-IsAscii x = rw (integer_text-or_zero x) (to_string-IsAscii (or_zero x))

  digits-IsAscii : (n : ℕ) → All IsAscii (digits n)
  digits-IsAscii n = let h = to_string-IsAscii (pos n) in unfold to_string in h

  cancel-FitsFields :
      (r : ℕ) (a : Authorization) → MessagePrints cancel a → FitsFields r (message_sorted cancel a)
  unfolding FitsFields
  cancel-FitsFields r a h = (
    omega arith,
    address_hex-IsAscii eth laws a.authorizer h.0,
    (omega arith, hash_hex-IsAscii eth laws a.nonce h.1, tt),
  )

  transfer-FitsFields :
      (r : ℕ) (a : Authorization) → TransferPrints a → FitsFields r (message_sorted transfer a)
  unfolding FitsFields
  transfer-FitsFields r a h = (
    omega arith,
    address_hex-IsAscii eth laws a.from h.from-IsArray,
    (
      omega arith,
      hash_hex-IsAscii eth laws a.nonce h.nonce-IsArray,
      (
        omega arith,
        address_hex-IsAscii eth laws a.to h.to-IsArray,
        (
          omega arith,
          digits-IsAscii a.valid_after,
          (
            omega arith,
            digits-IsAscii a.valid_before,
            (omega arith, integer_text-IsAscii a.value, tt),
          ),
        ),
      ),
    ),
  )

  pub message_sorted-FitsFields :
      (r : ℕ) (k : AuthorizationKind) (a : Authorization)
      → IsKnown k
      → MessagePrints k a
      → FitsFields r (message_sorted k a)
  message_sorted-FitsFields r transfer a _ h = transfer-FitsFields r a h
  message_sorted-FitsFields r receive a _ h = transfer-FitsFields r a h
  message_sorted-FitsFields r cancel a _ h = cancel-FitsFields r a h
  message_sorted-FitsFields r (other t) a i h = absurd i

  transfer_of-read :
      (k : AuthorizationKind) (l : Layout) (n : ℕ) (a : Authorization)
      → TransferPrints a
      → transfer_of eth k a.nonce (read_back l n (message_sorted transfer a) [])
        ≡ ok (record a { kind = k; value = some (or_zero a.value); authorizer = zero_address })
  unfolding transfer_of get lookup bytes_eq print
  transfer_of-read k l n a h = rw (
    parse_address-quote eth laws a.from h.from-IsArray,
    parse_address-quote eth laws a.to h.to-IsArray,
    integer_text-or_zero a.value,
    parse_big_int-quote (or_zero a.value),
    parse_uint64-quote a.valid_after h.valid_after-lt,
    parse_uint64-quote a.valid_before h.valid_before-lt,
  )

  cancel_of-read :
      (l : Layout) (n : ℕ) (a : Authorization)
      → MessagePrints cancel a
      → cancel_of eth cancel a.nonce (read_back l n (message_sorted cancel a) [])
        ≡ ok (carried cancel a)
  unfolding cancel_of first_raw lookup bytes_eq print
  cancel_of-read l n a h = rw (parse_address-quote eth laws a.authorizer h.0)

  authorization_of-read :
      (k : AuthorizationKind) (l : Layout) (n : ℕ) (a : Authorization)
      → IsKnown k
      → MessagePrints k a
      → authorization_of eth k (read_back l n (message_sorted k a) []) ≡ ok (message_read k a)
  unfolding authorization_of fields_of get lookup bytes_eq print
  authorization_of-read transfer l n a _ h =
      rw (parse_hash-quote eth laws a.nonce h.nonce-IsArray) (transfer_of-read transfer l n a h)
  authorization_of-read receive l n a _ h =
      rw (parse_hash-quote eth laws a.nonce h.nonce-IsArray) (transfer_of-read receive l n a h)
  authorization_of-read cancel l n a _ h =
      rw (parse_hash-quote eth laws a.nonce h.1) (cancel_of-read l n a h)
  authorization_of-read (other t) l n a i h = absurd i

  not_empty :
      (k : AuthorizationKind) (l : Layout) (n : ℕ) (fs : Fields)
      → parse_authorization eth k (print l n (object fs))
        ≡ (unmarshal_object (print l n (object fs)) >>= authorization_of eth k)
  unfolding parse_authorization print
  not_empty k l n end = refl
  not_empty k l n (field key v fs) = refl

  pub parse_authorization-print :
      (k : AuthorizationKind) (l : Layout) (n : ℕ) (a : Authorization)
      → IsKnown k
      → MessagePrints k a
      → parse_authorization eth k (print l n (sort (object (message_fields eth k a))))
        ≡ ok (message_read k a)
  parse_authorization-print k l n a i h =
      rw
        (
          message_fields-sorted k a,
          not_empty k l n (message_sorted k a),
          unmarshal-print l 0 n (message_sorted k a) (message_sorted-FitsFields 0 k a i h)
              (omega arith),
        )
        (authorization_of-read k l n a i h)
