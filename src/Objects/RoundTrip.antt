-- ===== src/Objects/RoundTrip.antt =====
-- ParseMessageJSON reads back what SignedAuthorizationObject and TypedDataObject print.
use eip.Prelude.{ℕ, ◌≤◌, ◌≡◌, refl, ◌∙◌, Bool, [], Option, none, arith, bytes_eq}
use eip.Outcome.{ok, ◌>>=◌}
use eip.Types.{Domain, Authorization, Signature, SignedAuthorization, AuthorizationKind}
use eip.Ethereum.{Ethereum}
use eip.Ethereum.Laws.{EthereumLaws}
use eip.Eip712.Fields.{IsKnown}
use eip.Go.Json.Decode.{lookup}
use eip.Go.Json.Encode.{object, Fields, Layout, sort, encode}
use eip.Go.Json.Spacing.{FitsFields}
use eip.Go.Json.ReadBack.{read_back, unmarshal-print}
use eip.Go.Json.Trimmed.{print-braces, trim_space-print}
use eip.Raw.{get}
use eip.Message.{parse_signature, typed_root, root_of, parse_message_json}
use eip.Objects.{message_object, typed_data_object, signed_authorization_object}
use eip.Objects.DomainPart.{DomainPrints, domain_read}
use eip.Objects.MessagePart.{MessagePrints, message_read}
use eip.Objects.TypedData.{
  typed_sorted, typed_fields-sorted, typed_data_object-fields, typed_sorted-FitsFields,
  message_of-read,
}
use eip.Objects.SignedFields.{
  OptionPrints, signed_sorted, signed_fields, signed_fields-sorted, signed_sorted-FitsFields,
  typed_root-read, signature-read,
}

-- What can be printed.
pub record SignedPrints (signed : SignedAuthorization) : Type 0 where
  pub kind-IsKnown : IsKnown signed.authorization.kind
  pub domain-prints : DomainPrints signed.domain
  pub message-prints : MessagePrints signed.authorization.kind signed.authorization
  pub signature-prints : OptionPrints signed.signature

-- What is read back.
abbrev pub signed_read : SignedAuthorization → SignedAuthorization
signed_read signed = record {
  authorization = message_read signed.authorization.kind signed.authorization;
  domain = domain_read signed.domain;
  signature = signed.signature;
}

module _ (eth : Ethereum) (laws : EthereumLaws eth) where
  -- A printed object is trimmed and unmarshalled.
  parse_message-print :
      (l : Layout) (r : ℕ) (fs fs' : Fields)
      → sort (object fs) ≡ object fs'
      → FitsFields r fs'
      → r ≤ 9999
      → parse_message_json eth (encode l (object fs)) ≡ root_of eth (read_back l 0 fs' [])
  unfolding encode parse_message_json
  parse_message-print l r fs fs' e f h =
      let (t, braces) = print-braces l 0 fs' in
      let trimmed = (trim_space-print l 0 fs').1 in
      let read = unmarshal-print l r 0 fs' f h in rw (e, trimmed, read, braces) refl

  root_of-read :
      (l : Layout) (k : AuthorizationKind) (d : Domain) (a : Authorization) (sig : Option Signature)
      (valid : Option Bool)
      → IsKnown k
      → DomainPrints d
      → MessagePrints k a
      → OptionPrints sig
      → root_of eth (read_back l 0 (signed_sorted eth laws k d a sig valid) [])
        ≡ ok (record { authorization = message_read k a; domain = domain_read d; signature = sig })
  unfolding root_of typed_root
  root_of-read l k d a sig valid i hd ha hs = rw (
    signature-read eth laws l k d a sig valid hs,
    typed_root,
    typed_root-read eth laws l k d a sig valid,
    unmarshal-print l 3 1 (typed_sorted eth laws k d a)
        (typed_sorted-FitsFields eth laws k d a i hd ha) (omega arith),
    message_of-read eth laws l 1 sig k d a i hd ha,
  )

  root_of-typed :
      (l : Layout) (k : AuthorizationKind) (d : Domain) (a : Authorization)
      → IsKnown k
      → DomainPrints d
      → MessagePrints k a
      → root_of eth (read_back l 0 (typed_sorted eth laws k d a) [])
        ≡ ok (record { authorization = message_read k a; domain = domain_read d; signature = none })
  unfolding root_of typed_root get lookup bytes_eq parse_signature
  root_of-typed l k d a i hd ha = message_of-read eth laws l 0 none k d a i hd ha

  -- Printed with or without indentation, with or without a verdict on its signature, a signed
  -- authorization of a kind that is known, whose domain has an ASCII name and version and whose
  -- addresses, hashes, times and signature fit their types, is read back by ParseMessageJSON: the same
  -- kind, message fields and signature, with the domain's texts trimmed and nil integers as 0; the
  -- fields that the message of the kind does not have come back as zero values.
  pub parse-signed_object :
      (l : Layout) (signed : SignedAuthorization) (valid : Option Bool)
      → SignedPrints signed
      → (signed_authorization_object eth signed valid >>= λ out.
          parse_message_json eth (encode l (object out)))
        ≡ ok (signed_read signed)
  unfolding signed_authorization_object message_object signed_fields
  parse-signed_object l signed valid h =
      let k = signed.authorization.kind in
      let d = signed.domain in
      let a = signed.authorization in
      let sig = signed.signature in
      rw (typed_data_object-fields eth laws signed h.kind-IsKnown) (
        parse_message-print l 4 _ (signed_sorted eth laws k d a sig valid)
          (signed_fields-sorted eth laws k d a sig valid)
          (signed_sorted-FitsFields eth laws k d a sig valid h.kind-IsKnown h.domain-prints
            h.message-prints h.signature-prints)
          (omega arith)
        ∙ root_of-read l k d a sig valid h.kind-IsKnown h.domain-prints h.message-prints
            h.signature-prints)

  -- The typed data alone, printed with or without indentation, of a kind that is known, a domain whose
  -- name and version are ASCII, and addresses, hash and times that fit their types, is read back by
  -- ParseMessageJSON with no signature: the same kind and message fields, with the domain's texts
  -- trimmed and nil integers as 0; the fields that the message of the kind does not have come back as
  -- zero values.
  pub parse-typed_data_object :
      (l : Layout) (signed : SignedAuthorization)
      → IsKnown signed.authorization.kind
      → DomainPrints signed.domain
      → MessagePrints signed.authorization.kind signed.authorization
      → (typed_data_object eth signed >>= λ out. parse_message_json eth (encode l (object out)))
        ≡ ok (signed_read (record signed { signature = none }))
  parse-typed_data_object l signed i hd ha =
      let k = signed.authorization.kind in
      let d = signed.domain in
      let a = signed.authorization in
      rw (typed_data_object-fields eth laws signed i) (
        parse_message-print l 3 _ (typed_sorted eth laws k d a) (typed_fields-sorted eth laws k d a)
          (typed_sorted-FitsFields eth laws k d a i hd ha) (omega arith)
        ∙ root_of-typed l k d a i hd ha)
