-- ===== src/Objects/Verdict.antt =====
-- Printing and reading an authorization does not change the verdict on its signature.
use eip.Prelude.{◌≡◌, refl, Bool, Option, none, some}
use eip.Outcome.{ok, ◌>>=◌}
use eip.Types.{
  Domain, Authorization, Signature, SignedAuthorization, AuthorizationKind, transfer, receive,
  cancel, other, validate_domain, validate_authorization, validate_kind, validate_transfer,
  signer_address, signer_of,
}
use eip.Types.Checks.{ValidDomain, ValidFor, validate_domain_iff, validate_authorization_iff}
use eip.Ethereum.{Ethereum}
use eip.Ethereum.Laws.{EthereumLaws}
use eip.Eip712.{authorization_struct_hash, typed_data_hash}
use eip.Go.Strings.{trim_space}
use eip.Go.Json.Encode.{object, Layout, encode}
use eip.Signing.{
  recover_signature, recover_signed, recover_authorization_signer, verify_signed_authorization,
}
use eip.Message.{parse_message_json}
use eip.Objects.{signed_authorization_object}
use eip.Objects.DomainPart.{domain_read}
use eip.Objects.MessagePart.{message_read}
use eip.Objects.RoundTrip.{SignedPrints, signed_read, parse-signed_object}

domain_read-same :
    (d : Domain)
    → trim_space d.name ≡ d.name
    → trim_space d.version ≡ d.version
    → ValidDomain d
    → domain_read d ≡ d
domain_read-same d name version valid =
    let (n, chain, _) = valid.chain in rw (name, version, chain) refl

-- What is read is checked, hashed and attributed as the authorization was.
record SameChecks (eth : Ethereum) (a b : Authorization) : Type 0 where
  hash : authorization_struct_hash eth a ≡ authorization_struct_hash eth b
  signer : signer_address a ≡ signer_address b

module _ (eth : Ethereum) where
  message_read-SameChecks :
      (k : AuthorizationKind) (a : Authorization)
      → a.kind ≡ k
      → ValidFor k a
      → SameChecks eth (message_read k a) a
  message_read-SameChecks transfer a e v =
      let (n, value) = v.amount in
      record {
        hash =
            unfold authorization_struct_hash validate_authorization validate_kind
              validate_transfer in
            rw (e, value) refl;
        signer = unfold signer_address signer_of in rw e refl;
      }
  message_read-SameChecks receive a e v =
      let (n, value) = v.amount in
      record {
        hash =
            unfold authorization_struct_hash validate_authorization validate_kind
              validate_transfer in
            rw (e, value) refl;
        signer = unfold signer_address signer_of in rw e refl;
      }
  message_read-SameChecks cancel a e v = record {
    hash = unfold authorization_struct_hash validate_authorization validate_kind in rw e refl;
    signer = unfold signer_address signer_of in rw e refl;
  }
  message_read-SameChecks (other t) a e v = absurd v

  verify-SameChecks :
      (d : Domain) (a b : Authorization) (sig : Option Signature)
      → SameChecks eth a b
      → verify_signed_authorization eth
          (some (record { authorization = a; domain = d; signature = sig }))
        ≡ verify_signed_authorization eth
            (some (record { authorization = b; domain = d; signature = sig }))
  unfolding verify_signed_authorization recover_authorization_signer recover_signed
      recover_signature typed_data_hash
  verify-SameChecks d a b none s = refl
  verify-SameChecks d a b (some sig) s = rw (s.hash, s.signer) refl

  verify-read :
      (signed : SignedAuthorization)
      → trim_space signed.domain.name ≡ signed.domain.name
      → trim_space signed.domain.version ≡ signed.domain.version
      → ValidDomain signed.domain
      → ValidFor signed.authorization.kind signed.authorization
      → verify_signed_authorization eth (some (signed_read signed))
        ≡ verify_signed_authorization eth (some signed)
  verify-read signed name version vd va = rw (domain_read-same signed.domain name version vd) (
      verify-SameChecks signed.domain (message_read signed.authorization.kind signed.authorization)
        signed.authorization signed.signature
        (message_read-SameChecks signed.authorization.kind signed.authorization refl va))

  -- A signed authorization that passes the checks of its domain and its message, whose texts are ASCII
  -- without white space around them and whose fields fit their types, is printed and read back with the
  -- same verdict of VerifySignedAuthorization, its error included.
  pub verify-parse :
      (laws : EthereumLaws eth) (l : Layout) (signed : SignedAuthorization) (valid : Option Bool)
      → SignedPrints signed
      → trim_space signed.domain.name ≡ signed.domain.name
      → trim_space signed.domain.version ≡ signed.domain.version
      → validate_domain signed.domain ≡ ok tt
      → validate_authorization signed.authorization ≡ ok tt
      → (signed_authorization_object eth signed valid
          >>= (λ out. parse_message_json eth (encode l (object out)))
          >>= (λ read. verify_signed_authorization eth (some read)))
        ≡ verify_signed_authorization eth (some signed)
  verify-parse laws l signed valid h name version cd ca =
      rw (parse-signed_object eth laws l signed valid h) (
        verify-read signed name version ((validate_domain_iff signed.domain).0 cd)
          ((validate_authorization_iff signed.authorization).0 ca))
