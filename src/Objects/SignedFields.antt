-- ===== src/Objects/SignedFields.antt =====
-- The keys of a signed authorization as they are printed and read back.
use eip.Prelude.{◌≡◌, refl, Bool, [], Option, none, some, arith, codes, All, bytes_eq}
use eip.Outcome.{ok}
use eip.Types.{
  Domain, Authorization, Signature, AuthorizationKind, transfer, receive, cancel, other, kind_text,
}
use eip.Ethereum.{Ethereum}
use eip.Ethereum.Laws.{EthereumLaws}
use eip.Eip712.Fields.{IsKnown}
use eip.Go.Json.Text.{IsAscii}
use eip.Go.Json.Decode.{lookup}
use eip.Go.Json.Encode.{
  text, truth, object, Fields, end, field, Layout, before, insert, sort, print,
}
use eip.Go.Json.Spacing.{Fits, FitsFields}
use eip.Go.Json.Fitting.{is_ascii_sound, is_ascii}
use eip.Go.Json.ReadBack.{read_back}
use eip.Raw.{get}
use eip.Message.{parse_signature}
use eip.Objects.{
  domain_object, message_fields, signature_object, put, with_signature, with_validity,
}
use eip.Objects.DomainPart.{DomainPrints, domain_object-sorted, domain_sorted-FitsFields}
use eip.Objects.MessagePart.{MessagePrints, message_fields-sorted, message_sorted-FitsFields}
use eip.Objects.SignaturePart.{
  SignaturePrints, signature_object-sorted, signature_sorted-FitsFields, parse_signature-print,
}
use eip.Objects.TypedData.{typed_sorted, typed_fields, typed_sorted-FitsFields}

-- A signature that can be printed, if there is one.
abbrev pub OptionPrints : Option Signature → Type 0
OptionPrints none = Unit
OptionPrints (some sig) = SignaturePrints sig

kind_text-IsAscii : (k : AuthorizationKind) → IsKnown k → All IsAscii (kind_text k)
unfolding is_ascii kind_text
kind_text-IsAscii transfer i = is_ascii_sound (kind_text transfer) refl
kind_text-IsAscii receive i = is_ascii_sound (kind_text receive) refl
kind_text-IsAscii cancel i = is_ascii_sound (kind_text cancel) refl
kind_text-IsAscii (other t) i = absurd i

module _ (eth : Ethereum) (laws : EthereumLaws eth) where
  unfoldable pub signature_part : Option Signature → Fields → Fields
  signature_part none fs = fs
  signature_part (some sig) fs = field (codes "signature") (sort (signature_object eth sig)) fs

  unfoldable pub validity_part : Option Bool → Fields → Fields
  validity_part none fs = fs
  validity_part (some valid) fs = field (codes "signatureValid") (truth valid) fs

  -- The keys of a signed authorization in the encoder's order.
  unfoldable pub signed_sorted :
      AuthorizationKind → Domain → Authorization → Option Signature → Option Bool → Fields
  signed_sorted k d a sig valid = field (codes "authorizationType") (text (kind_text k)) (
      field (codes "domain") (sort (domain_object eth d)) (
        field (codes "message") (sort (object (message_fields eth k a))) (
          signature_part sig (
            validity_part valid
              (field (codes "typedData") (object (typed_sorted eth laws k d a)) end)))))

  unfoldable pub signed_fields :
      AuthorizationKind → Domain → Authorization → Option Signature → Option Bool → Fields
  signed_fields k d a sig valid = with_validity eth valid (
      with_signature eth sig (
        field (codes "authorizationType") (text (kind_text k)) (
          field (codes "domain") (domain_object eth d) (
            field (codes "message") (object (message_fields eth k a))
              (field (codes "typedData") (object (typed_fields eth laws k d a)) end)))))

  pub signed_fields-sorted :
      (k : AuthorizationKind) (d : Domain) (a : Authorization) (sig : Option Signature)
      (valid : Option Bool)
      → sort (object (signed_fields k d a sig valid)) ≡ object (signed_sorted k d a sig valid)
  unfolding sort insert before signed_fields signed_sorted put bytes_eq signature_part validity_part
  signed_fields-sorted k d a none none = refl
  signed_fields-sorted k d a none (some valid) = refl
  signed_fields-sorted k d a (some sig) none = refl
  signed_fields-sorted k d a (some sig) (some valid) = refl

  signature_part-FitsFields :
      (sig : Option Signature) (fs : Fields)
      → OptionPrints sig
      → FitsFields 4 fs
      → FitsFields 4 (signature_part sig fs)
  unfolding signature_part
  signature_part-FitsFields none fs h f = f
  signature_part-FitsFields (some sig) fs h f =
      rw (signature_object-sorted eth laws sig)
        (unfold FitsFields in (omega arith, signature_sorted-FitsFields eth laws 3 sig h, f))

  validity_part-FitsFields :
      (valid : Option Bool) (fs : Fields) → FitsFields 4 fs → FitsFields 4 (validity_part valid fs)
  unfolding validity_part
  validity_part-FitsFields none fs f = f
  validity_part-FitsFields (some valid) fs f = unfold FitsFields in (omega arith, tt, f)

  domain-Fits : (d : Domain) → DomainPrints d → Fits 4 (sort (domain_object eth d))
  domain-Fits d h =
      rw (domain_object-sorted eth laws d) (unfold Fits in domain_sorted-FitsFields eth laws 3 d h)

  message-Fits :
      (k : AuthorizationKind) (a : Authorization)
      → IsKnown k
      → MessagePrints k a
      → Fits 4 (sort (object (message_fields eth k a)))
  message-Fits k a i h =
      rw (message_fields-sorted eth laws k a)
        (unfold Fits in message_sorted-FitsFields eth laws 3 k a i h)

  pub signed_sorted-FitsFields :
      (k : AuthorizationKind) (d : Domain) (a : Authorization) (sig : Option Signature)
      (valid : Option Bool)
      → IsKnown k
      → DomainPrints d
      → MessagePrints k a
      → OptionPrints sig
      → FitsFields 4 (signed_sorted k d a sig valid)
  unfolding signed_sorted
  signed_sorted-FitsFields k d a sig valid i hd ha hs =
      let typed = typed_sorted-FitsFields eth laws k d a i hd ha in
      let last : FitsFields 4
          (field (codes "typedData") (object (typed_sorted eth laws k d a)) end) =
        unfold FitsFields in (omega arith, typed, tt) in
      let rest = signature_part-FitsFields sig _ hs (validity_part-FitsFields valid _ last) in
      let domain = domain-Fits d hd in
      let message = message-Fits k a i ha in
      unfold FitsFields in
      (omega arith, kind_text-IsAscii k i, (omega arith, domain, (omega arith, message, rest)))

  pub typed_root-read :
      (l : Layout) (k : AuthorizationKind) (d : Domain) (a : Authorization) (sig : Option Signature)
      (valid : Option Bool)
      → lookup (codes "typedData") (read_back l 0 (signed_sorted k d a sig valid) [])
        ≡ some (print l 1 (object (typed_sorted eth laws k d a)))
  unfolding signed_sorted signature_part validity_part lookup bytes_eq
  typed_root-read l k d a none none = refl
  typed_root-read l k d a none (some valid) = refl
  typed_root-read l k d a (some sig) none = refl
  typed_root-read l k d a (some sig) (some valid) = refl

  pub signature-read :
      (l : Layout) (k : AuthorizationKind) (d : Domain) (a : Authorization) (sig : Option Signature)
      (valid : Option Bool)
      → OptionPrints sig
      → parse_signature eth
          (get (codes "signature") (read_back l 0 (signed_sorted k d a sig valid) []))
        ≡ ok sig
  unfolding get signed_sorted signature_part validity_part lookup bytes_eq parse_signature
  signature-read l k d a none none h = refl
  signature-read l k d a none (some valid) h = refl
  signature-read l k d a (some sig) none h = parse_signature-print eth laws l _ sig h
  signature-read l k d a (some sig) (some valid) h = parse_signature-print eth laws l _ sig h
