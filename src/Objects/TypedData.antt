-- ===== src/Objects/TypedData.antt =====
-- The typed data that is printed for an authorization is read back as its domain and message.
use eip.Prelude.{ℕ, ◌≡◌, refl, [], Option, arith, Bytes, codes, All, bytes_eq}
use eip.Outcome.{ok, ◌>>=◌}
use eip.Types.{
  Domain, Authorization, Signature, SignedAuthorization, AuthorizationKind, transfer, receive,
  cancel, other, primary_type, kind_of, normalize_authorization_kind,
}
use eip.Ethereum.{Ethereum}
use eip.Ethereum.Laws.{EthereumLaws}
use eip.Eip712.Fields.{IsKnown}
use eip.Go.Strings.{trim_space, to_lower}
use eip.Go.Json.Text.{IsAscii}
use eip.Go.Json.Decode.{lookup}
use eip.Go.Json.Encode.{Json, text, object, Fields, end, field, Layout, before, insert, sort, print}
use eip.Go.Json.Spacing.{Fits, FitsFields}
use eip.Go.Json.Fitting.{is_ascii_sound, is_ascii, fits, fits_sound}
use eip.Go.Json.ReadBack.{read_back}
use eip.Raw.{get}
use eip.Raw.RoundTrip.{parse_string_like-quote}
use eip.Message.{kind_from, parse_kind, message_of}
use eip.Objects.{
  message_types, transfer_fields, typed_data_types, domain_object, message_fields, message_object,
  typed_data_object,
}
use eip.Objects.DomainPart.{
  DomainPrints, domain_read, domain_object-sorted, domain_sorted-FitsFields, parse_domain-print,
}
use eip.Objects.MessagePart.{
  MessagePrints, message_read, message_fields-sorted, message_sorted-FitsFields,
  parse_authorization-print,
}

abbrev pub primary_text : AuthorizationKind → Bytes
primary_text transfer = codes "TransferWithAuthorization"
primary_text receive = codes "ReceiveWithAuthorization"
primary_text cancel = codes "CancelAuthorization"
primary_text (other t) = t

abbrev pub types_sorted : AuthorizationKind → Json
types_sorted k = sort (typed_data_types k)

primary-IsAscii : (k : AuthorizationKind) → IsKnown k → All IsAscii (primary_text k)
unfolding is_ascii
primary-IsAscii transfer i = is_ascii_sound (primary_text transfer) refl
primary-IsAscii receive i = is_ascii_sound (primary_text receive) refl
primary-IsAscii cancel i = is_ascii_sound (primary_text cancel) refl
primary-IsAscii (other t) i = absurd i

types-Fits : (k : AuthorizationKind) → IsKnown k → Fits 3 (types_sorted k)
unfolding fits sort insert before typed_data_types message_types transfer_fields
types-Fits transfer i = fits_sound 3 (types_sorted transfer) refl
types-Fits receive i = fits_sound 3 (types_sorted receive) refl
types-Fits cancel i = fits_sound 3 (types_sorted cancel) refl
types-Fits (other t) i = absurd i

-- The primary type names the kind.
normalize-primary :
    (k : AuthorizationKind)
    → IsKnown k
    → normalize_authorization_kind (trim_space (primary_text k)) ≡ ok k
unfolding normalize_authorization_kind kind_of trim_space to_lower bytes_eq
normalize-primary transfer i = refl
normalize-primary receive i = refl
normalize-primary cancel i = refl
normalize-primary (other t) i = absurd i

module _ (eth : Ethereum) (laws : EthereumLaws eth) where
  -- The keys in the encoder's order.
  abbrev pub typed_sorted : AuthorizationKind → Domain → Authorization → Fields
  typed_sorted k d a = field (codes "domain") (sort (domain_object eth d)) (
      field (codes "message") (sort (object (message_fields eth k a))) (
        field (codes "primaryType") (text (primary_text k))
          (field (codes "types") (types_sorted k) end)))

  -- The typed data of an authorization of a known kind.
  abbrev pub typed_fields : AuthorizationKind → Domain → Authorization → Fields
  typed_fields k d a = field (codes "types") (typed_data_types k) (
      field (codes "primaryType") (text (primary_text k)) (
        field (codes "domain") (domain_object eth d)
          (field (codes "message") (object (message_fields eth k a)) end)))

  pub typed_fields-sorted :
      (k : AuthorizationKind) (d : Domain) (a : Authorization)
      → sort (object (typed_fields k d a)) ≡ object (typed_sorted k d a)
  unfolding sort insert before
  typed_fields-sorted k d a = refl

  pub typed_data_object-fields :
      (signed : SignedAuthorization)
      → IsKnown signed.authorization.kind
      → typed_data_object eth signed
        ≡ ok (typed_fields signed.authorization.kind signed.domain signed.authorization)
  unfolding typed_data_object primary_type message_object
  typed_data_object-fields signed i = known signed.authorization.kind i
    where
      known :
          (k : AuthorizationKind)
          → IsKnown k
          → (primary_type k >>= λ primary. ok (
              field (codes "types") (typed_data_types k) (
                field (codes "primaryType") (text primary) (
                  field (codes "domain") (domain_object eth signed.domain) (
                    field
                      (codes "message")
                      (object (message_fields eth k signed.authorization))
                      end)))))
            ≡ ok (typed_fields k signed.domain signed.authorization)
      known transfer i = refl
      known receive i = refl
      known cancel i = refl
      known (other t) i = absurd i

  pub typed_sorted-FitsFields :
      (k : AuthorizationKind) (d : Domain) (a : Authorization)
      → IsKnown k
      → DomainPrints d
      → MessagePrints k a
      → FitsFields 3 (typed_sorted k d a)
  typed_sorted-FitsFields k d a i hd ha =
      rw (domain_object-sorted eth laws d, message_fields-sorted eth laws k a)
        (unfold FitsFields in
          (
            omega arith,
            domain_sorted-FitsFields eth laws 2 d hd,
            (
              omega arith,
              message_sorted-FitsFields eth laws 2 k a i ha,
              (omega arith, primary-IsAscii k i, (omega arith, types-Fits k i, tt)),
            ),
          ))

  kind-read :
      (l : Layout) (n : ℕ) (k : AuthorizationKind) (d : Domain) (a : Authorization)
      → IsKnown k
      → parse_kind (read_back l n (typed_sorted k d a) []) ≡ ok k
  unfolding parse_kind kind_from lookup bytes_eq print
  kind-read l n k d a i =
      rw (parse_string_like-quote (primary_text k) (primary-IsAscii k i)) (normalize-primary k i)

  -- The domain and the message that the typed data holds.
  pub message_of-read :
      (l : Layout) (n : ℕ) (sig : Option Signature) (k : AuthorizationKind) (d : Domain)
      (a : Authorization)
      → IsKnown k
      → DomainPrints d
      → MessagePrints k a
      → message_of eth sig (read_back l n (typed_sorted k d a) [])
        ≡ ok (record { authorization = message_read k a; domain = domain_read d; signature = sig })
  unfolding message_of get lookup bytes_eq
  message_of-read l n sig k d a i hd ha = rw (
    kind-read l n k d a i,
    parse_domain-print eth laws l _ d hd,
    parse_authorization-print eth laws k l _ a i ha,
  )
